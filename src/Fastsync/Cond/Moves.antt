-- ===== src/Fastsync/Cond/Moves.antt =====
-- Every step of Fastsync/Cond/System.antt is a sequence of steps of the mutex's threads.
use mathlib.Core.Path.{fun_ext, subst}
use reeact_v.Prelude.{
  ℕ, zero, suc, ◌<◌, ◌≤◌, ◌≡◌, inl, inr, refl, sym, ◌∙◌, Bool, true, false, arith, if◌then◌else◌,
  assign, ltb, ◌&&◌, ◌==◌, Bool-cases, ℕ_discrete,
}
use reeact_v.Fastsync.Futex.{Futex}
use reeact_v.Fastsync.Mutex as Mutex
use reeact_v.Fastsync.Mutex.System.{later}
use reeact_v.Fastsync.Mutex.System as Lock
use reeact_v.Fastsync.Cond.{relock, plain}
use reeact_v.Fastsync.Cond.System.{
  relocking, unlocking, plainly, Thread, outside, critical, calling, asleep_seq, asleep_word,
  is_asleep_seq, is_asleep_word, all_sleepers, rouse_seq, wake,
}
use reeact_v.Fastsync.Cond.Sight.{to_lock, Local, still, advances, unlocks, returns}

pub dormant_lem : (t : Thread) → is_asleep_seq t ≡ Lock.is_dormant (to_lock t)
dormant_lem outside = refl
dormant_lem critical = refl
dormant_lem (calling true (plain q)) = refl
dormant_lem (calling true p) = refl
dormant_lem (calling false (plain q)) = refl
dormant_lem (calling false p) = refl
dormant_lem asleep_seq = refl
dormant_lem (asleep_word relocking) = refl
dormant_lem (asleep_word (unlocking cur p)) = refl
dormant_lem (asleep_word (plainly p)) = refl

pub dozing : (t : Thread) → is_asleep_seq t ≡ true → to_lock t ≡ Lock.dormant
dozing asleep_seq e = refl
dozing t e = cc

pub asleep_lem : (t : Thread) → is_asleep_word t ≡ Lock.is_asleep (to_lock t)
asleep_lem outside = refl
asleep_lem critical = refl
asleep_lem (calling true (plain q)) = refl
asleep_lem (calling true p) = refl
asleep_lem (calling false (plain q)) = refl
asleep_lem (calling false p) = refl
asleep_lem asleep_seq = refl
asleep_lem (asleep_word relocking) = refl
asleep_lem (asleep_word (unlocking cur p)) = refl
asleep_lem (asleep_word (plainly p)) = refl

pub wake_lem : (t : Thread) → Lock.wake (to_lock t) ≡ to_lock (wake t)
wake_lem outside = refl
wake_lem critical = refl
wake_lem (calling true (plain q)) = refl
wake_lem (calling true p) = refl
wake_lem (calling false (plain q)) = refl
wake_lem (calling false p) = refl
wake_lem asleep_seq = refl
wake_lem (asleep_word relocking) = refl
wake_lem (asleep_word (unlocking cur p)) = refl
wake_lem (asleep_word (plainly p)) = refl

pub if_ap :
    {A B : Type 0} (f : A → B) (b : Bool) (x y : A)
    → (if b then f x else f y) ≡ f (if b then x else y)
if_ap f true x y = refl
if_ap f false x y = refl

module _ {k : Futex} {n : ℕ} where
  -- Functions that agree are equal, and so are the states with them.
  pub settle :
      {state : ℕ} {f g : ℕ → Lock.Thread}
      → ((j : ℕ) → f j ≡ g j)
      → Lock.Reach k n (record { state = state; thread = f })
      → Lock.Reach k n (record { state = state; thread = g })
  settle {state} same =
      subst (λ h. Lock.Reach k n (record { state = state; thread = h })) (fun_ext same)

  pub becomes :
      {state : ℕ} (thread : ℕ → Lock.Thread) (i : ℕ) {x t : Lock.Thread}
      → t ≡ x
      → Lock.Reach k n (record { state = state; thread = assign thread i x })
      → Lock.Reach k n (record { state = state; thread = assign thread i t })
  becomes {state} thread i e =
      subst (λ y. Lock.Reach k n (record { state = state; thread = assign thread i y })) (sym e)

  -- One access, of which the mutex sees this.
  pub push :
      (thread : ℕ → Lock.Thread) (i : ℕ) (t : Lock.Thread) {t' : Lock.Thread} {state state' : ℕ}
      → i < n
      → thread i ≡ t
      → Local state t state' t'
      → Lock.Reach k n (record { state = state; thread = thread })
      → Lock.Reach k n (record { state = state'; thread = assign thread i t' })
  push thread i t {t'} lt at (still e e') r =
      subst (λ x. Lock.Reach k n (record { state = x; thread = assign thread i t' })) e
        (settle (λ j. ground (arith, at, e')) r)
  push thread i t {state} lt at (unlocks p e e' begins e'') r = becomes thread i e'' (
      subst (λ x. Lock.Reach k n (record { state = x; thread = assign thread i (Lock.running p) }))
        e (later r (Lock.call_unlock i lt (at ∙ e') begins)))
  push thread i t lt at (advances p q e a e') r =
      becomes thread i e' (later r (Lock.advance i lt (at ∙ e) a))
  push thread i t lt at (returns p code e a e') r =
      becomes thread i e' (later r (Lock.return i lt (at ∙ e) a))

  -- Wakes the waiters below `b`.
  rouse_below :
      {state : ℕ} (thread : ℕ → Thread) (woken : ℕ → Bool)
      → ((i : ℕ) → woken i ≡ true → all_sleepers n thread i ≡ true)
      → (b : ℕ) → b ≤ n
      → Lock.Reach k n (record { state = state; thread = λ j. to_lock (thread j) })
      → Lock.Reach k n (record {
        state = state;
        thread = λ j. if woken j && ltb j b then Lock.running Mutex.contend else to_lock (thread j);
      })
  rouse_below thread woken asleep zero le r = settle (λ j. ground arith) r
  rouse_below thread woken asleep (suc b) le r =
      let rest = rouse_below thread woken asleep b (omega arith) r in
      elim (Bool-cases (woken b)) [
        | inl w ↦
            let dozes = dozing (thread b) (ground (arith, asleep b w)) in
            settle
              (λ j. elim (ℕ_discrete b j) [
                | yes e ↦ rw (sym e) ground (arith, w)
                | no other ↦ ground (arith, other)
              ])
              (later rest (Lock.resume_wait b (omega arith) (ground (arith, w, dozes))))
        | inr w ↦
            settle
              (λ j. elim (ℕ_discrete b j) [
                | yes e ↦ rw (sym e, w)
                | no other ↦ ground (arith, other)
              ])
              rest
      ]

  -- The threads of the condition variable, after one has changed.
  pub placed :
      {state : ℕ} (thread : ℕ → Thread) (i : ℕ) (x : Thread)
      → Lock.Reach k n
          (record { state = state; thread = assign (λ j. to_lock (thread j)) i (to_lock x) })
      → Lock.Reach k n (record { state = state; thread = λ j. to_lock (assign thread i x j) })
  placed thread i x = settle (λ j. if_ap to_lock (i == j) x (thread j))

  -- Waking the waiters on `seq`.
  pub rouse_all :
      {state : ℕ} (thread : ℕ → Thread) (woken : ℕ → Bool)
      → ((i : ℕ) → woken i ≡ true → all_sleepers n thread i ≡ true)
      → Lock.Reach k n (record { state = state; thread = λ j. to_lock (thread j) })
      → Lock.Reach k n (record { state = state; thread = λ j. to_lock (rouse_seq woken thread j) })
  rouse_all thread woken asleep r =
      settle (λ j. below j ∙ if_ap to_lock (woken j) (calling true relock) (thread j))
        (rouse_below thread woken asleep n (omega arith) r)
    where
      below :
          (j : ℕ)
          → (if woken j && ltb j n then Lock.running Mutex.contend else to_lock (thread j))
            ≡ (if woken j then Lock.running Mutex.contend else to_lock (thread j))
      below j = elim (Bool-cases (woken j)) [ inl w ↦ ground (arith, w, asleep j w) | inr w ↦ rw w ]
