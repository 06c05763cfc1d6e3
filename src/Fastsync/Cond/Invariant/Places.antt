-- ===== src/Fastsync/Cond/Invariant/Places.antt =====
-- The places of the threads of Fastsync/Cond/System.antt when something changes.
use reeact_v.Prelude.{
  ℕ, ◌≡◌, ◌≢◌, ◌⊎◌, inl, inr, refl, Bool, true, false, List, [], ◌∷◌, arith, ◌==◌, if◌then◌else◌,
  assign, ℕ_discrete,
}
use mathlib.Core.Path.{subst}
use reeact_v.Fastsync.Cond.{
  Cond, Pc, Kind, check, raise, relock, plain, fastsync_cond_wait, fastsync_cond_signal,
  fastsync_cond_signal_count, fastsync_cond_broadcast,
}
use reeact_v.Fastsync.Cond.System.{
  Waiter, relocking, pc_of, rouse_seq, rouse_word, move_seq, Thread, outside, critical, calling,
  asleep_seq, asleep_word, leave, resume, from_lock, is_asleep_seq, wake, Begins, lock, trylock,
  unlock_it, wait, signal_it, signal_counted, broadcast_it,
}
use reeact_v.Fastsync.Mutex as Mutex
use reeact_v.Fastsync.Mutex.System as Lock
use reeact_v.Fastsync.Cond.Invariant.{At, AtPlace, in_wait, waits, Stacked}

pub eq_self : (i : ℕ) → (i == i) ≡ true
eq_self i = ground arith

pub eq_other : {i j : ℕ} → i ≢ j → (i == j) ≡ false
eq_other {i} {j} other = ground arith

-- A property of every thread, from that of one and of the others.
pub each {ℓ} : (P : ℕ → Type ℓ) (i : ℕ) → P i → ((j : ℕ) → i ≢ j → P j) → (j : ℕ) → P j
each P i one rest j = elim (ℕ_discrete i j) [ yes e ↦ subst P e one | no other ↦ rest j other ]

-- A property of every member, after one of them has changed.
pub assign_all {ℓ} :
    {A : Type 0} (P : ℕ → A → Type ℓ) (f : ℕ → A) (i : ℕ) (a : A)
    → ((j : ℕ) → P j (f j))
    → P i a
    → (j : ℕ) → P j (assign f i a j)
assign_all P f i a all one =
    each (λ j. P j (assign f i a j)) i (rw (eq_self i) one) (λ j other. rw (eq_other other) (all j))

pub if_all {ℓ} :
    {A : Type 0} (P : A → Type ℓ) (b : Bool) (x y : A)
    → (b ≡ true → P x)
    → (b ≡ false → P y)
    → P (if b then x else y)
if_all P true x y hx hy = hx refl
if_all P false x y hx hy = hy refl

-- A property of every thread, after FUTEX_WAKE on `seq`, on the word of the mutex, and FUTEX_REQUEUE.
module _ {ℓ} (P : ℕ → Thread → Type ℓ) (thread : ℕ → Thread) (all : (j : ℕ) → P j (thread j))
    (woken : ℕ → Bool) where
  pub rouse_all :
      ((j : ℕ) → woken j ≡ true → P j (calling true relock))
      → (j : ℕ) → P j (rouse_seq woken thread j)
  rouse_all up j = if_all (P j) (woken j) (calling true relock) (thread j) (up j) (λ _. all j)

  pub wake_all : ((j : ℕ) → P j (wake (thread j))) → (j : ℕ) → P j (rouse_word woken thread j)
  wake_all up j = if_all (P j) (woken j) (wake (thread j)) (thread j) (λ _. up j) (λ _. all j)

  pub move_all :
      (moved : ℕ → Bool)
      → ((j : ℕ) → woken j ≡ true → P j (calling true relock))
      → ((j : ℕ) → moved j ≡ true → P j (asleep_word relocking))
      → (j : ℕ) → P j (move_seq woken moved thread j)
  move_all moved up over j =
      if_all (P j) (woken j) (calling true relock) _ (up j)
        (λ _. if_all (P j) (moved j) (asleep_word relocking) (thread j) (over j) (λ _. all j))

-- A property of every thread that has no call, and of every call where it begins.
module _ {ℓ} (P : Thread → Type ℓ) (out : P outside) (crit : P critical) where
  pub leave_all : (held : Bool) → P (leave held)
  leave_all true = crit
  leave_all false = out

  from_lock_all : (t : Lock.Thread) → P (from_lock t)
  from_lock_all Lock.critical = crit
  from_lock_all t = out

  pub resume_all : (held : Bool) (p : Pc) (code : ℕ) → P (resume held p code)
  resume_all held (plain p) code = from_lock_all (Lock.resume p code)
  resume_all held (Pc.answer _) code = out
  resume_all held p code = leave_all held

pub begins_all {ℓ} :
    (P : Pc → Type ℓ)
    → ((p : Mutex.Pc) → P (plain p))
    → P check
    → ((kind : Kind) → P (raise kind))
    → {held : Bool} {p : Pc} → Begins held p
    → P p
unfolding fastsync_cond_wait fastsync_cond_signal fastsync_cond_signal_count fastsync_cond_broadcast
begins_all P of_mutex of_wait of_raise (lock {p} e) = of_mutex p
begins_all P of_mutex of_wait of_raise (trylock {p} e) = of_mutex p
begins_all P of_mutex of_wait of_raise (unlock_it {p} e) = of_mutex p
begins_all P of_mutex of_wait of_raise (wait {p} e) =
    let there : check ≡ p = ground (arith, e) in subst P there of_wait
begins_all P of_mutex of_wait of_raise (signal_it held {p} e) =
    let there : raise Kind.signal ≡ p = ground (arith, e) in subst P there (of_raise Kind.signal)
begins_all P of_mutex of_wait of_raise (signal_counted held) = of_raise Kind.signal_count
begins_all P of_mutex of_wait of_raise (broadcast_it held {p} e) =
    let there : raise Kind.broadcast ≡ p = ground (arith, e) in
    subst P there (of_raise Kind.broadcast)

pub Begins-At : {held : Bool} {p : Pc} (m mutex : ℕ) → Begins held p → At m held p mutex
unfolding fastsync_cond_wait fastsync_cond_signal fastsync_cond_signal_count fastsync_cond_broadcast
Begins-At m mutex (lock e) = tt
Begins-At m mutex (trylock e) = tt
Begins-At m mutex (unlock_it e) = tt
Begins-At m mutex (wait e) = ground arith
Begins-At m mutex (signal_it held e) = ground arith
Begins-At m mutex (signal_counted held) = tt
Begins-At m mutex (broadcast_it held e) = ground arith

pub resume-AtPlace :
    (m : ℕ) (held : Bool) (p : Pc) (code mutex : ℕ) → AtPlace m (resume held p code) mutex
resume-AtPlace m held p code mutex = resume_all (λ t. AtPlace m t mutex) tt tt held p code

-- A return of a wait is with the mutex or without as its call was.
pub resume-leave :
    (held : Bool) (p : Pc) (code : ℕ) → in_wait p ≡ true → resume held p code ≡ leave held
resume-leave held (plain p) code w = cc
resume-leave held (Pc.answer _) code w = cc
resume-leave held p code w = refl

not-waits-leave : (held : Bool) → waits (leave held) ≡ false
not-waits-leave true = refl
not-waits-leave false = refl

-- A thread that is in no wait has no waits below.
pub leave-frames : (held : Bool) (frames : List ℕ) → Stacked (leave held) frames → frames ≡ []
leave-frames held frames (inl e) = e
leave-frames held frames (inr w) = cc (w, not-waits-leave held)

-- The pointer of an object is set once.
pub stays-At :
    (m : ℕ) (held : Bool) (p : Pc) {mutex mutex' : ℕ}
    → (mutex' ≡ mutex) ⊎ (mutex' ≡ m)
    → At m held p mutex
    → At m held p mutex'
stays-At m held check once at = ground arith
stays-At m held p once at = ground arith

pub stays-AtPlace :
    (m : ℕ) (t : Thread) {mutex mutex' : ℕ}
    → (mutex' ≡ mutex) ⊎ (mutex' ≡ m)
    → AtPlace m t mutex
    → AtPlace m t mutex'
stays-AtPlace m (calling held p) once at = stays-At m held p once at
stays-AtPlace m (asleep_word w) once at = stays-At m true (pc_of w) once at
stays-AtPlace m asleep_seq once at = ground arith
stays-AtPlace m outside once at = tt
stays-AtPlace m critical once at = tt

-- The objects that a thread comes back to are bound to the mutex.
abbrev pub Framed : (m : ℕ) → (ℕ → Cond) → List ℕ → Type 0
Framed m cond [] = Unit
Framed m cond (c ∷ rest) = ((cond c).mutex ≡ m) × Framed m cond rest

pub stays-Framed :
    (m : ℕ) (cond cond' : ℕ → Cond) (frames : List ℕ)
    → ((c : ℕ) → ((cond' c).mutex ≡ (cond c).mutex) ⊎ ((cond' c).mutex ≡ m))
    → Framed m cond frames
    → Framed m cond' frames
stays-Framed m cond cond' [] once bound = tt
stays-Framed m cond cond' (c ∷ rest) once (here, later) =
    (ground (arith, once c), stays-Framed m cond cond' rest once later)

pub wake-AtPlace : (m : ℕ) (t : Thread) (mutex : ℕ) → AtPlace m t mutex → AtPlace m (wake t) mutex
wake-AtPlace m (asleep_word w) mutex at = at
wake-AtPlace m t mutex at = at

pub waits-wake : (t : Thread) → waits (wake t) ≡ waits t
waits-wake (asleep_word w) = refl
waits-wake t = refl

pub asleep-waits : (t : Thread) → is_asleep_seq t ≡ true → waits t ≡ true
asleep-waits asleep_seq a = refl
asleep-waits t a = cc

pub asleep-bound :
    (m : ℕ) (t : Thread) (mutex : ℕ) → AtPlace m t mutex → is_asleep_seq t ≡ true → mutex ≡ m
asleep-bound m asleep_seq mutex at a = at
asleep-bound m t mutex at a = cc

pub waiter-At :
    (m : ℕ) (held : Bool) (w : Waiter) (mutex : ℕ)
    → At m held (pc_of w) mutex
    → At m true (pc_of w) mutex
waiter-At m held Waiter.relocking mutex at = (refl, at.1)
waiter-At m held (Waiter.unlocking cur p) mutex at = (refl, at.1, at.2)
waiter-At m held (Waiter.plainly p) mutex at = tt
