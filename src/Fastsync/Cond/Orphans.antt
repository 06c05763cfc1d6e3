-- ===== src/Fastsync/Cond/Orphans.antt =====
-- Who will release the waiters of a condition variable of Fastsync/Cond/System.antt that has a parent:
-- a wait that has gone on to the parent, and has not yet called FUTEX_REQUEUE.
pub mod Persist
pub mod Calm
pub mod Noter
pub mod Advance
pub mod Change
pub mod Sleep
pub mod Steps
pub mod Safety
pub mod Frames
pub mod Chain
use reeact_v.Prelude.{
  ℕ, ◌+◌, ◌^◌, ◌≤◌, ◌<◌, ◌≡◌, ◌⊎◌, inl, inr, refl, Bool, true, false, none, some, Option, List, [],
  ◌∷◌, arith, ◌==◌, if◌then◌else◌, assign,
}
use reeact_v.Fastsync.Mutex.{fastsync_mutex_unlock}
use reeact_v.Fastsync.Mutex as Mutex
use reeact_v.Fastsync.Barrier.{int_max}
use reeact_v.Fastsync.Cond.{
  Cond, Pc, Act, check, choose, load, store, move, note, await, relock, at_child, at_parent,
  after_raise, within_unlock, within_call, enter_unlock, go, ret, wait_seq, wake_seq, requeue,
  wait_word, wake_word, access,
}
use reeact_v.Fastsync.Cond.System.{
  Waiter, pc_of, Thread, calling, asleep_seq, asleep_word, is_asleep_seq, System, at,
}
use reeact_v.Fastsync.Cond.Invariant.Places.{assign_all}
use reeact_v.Fastsync.Cond.Counts.{awaits, stores}
use reeact_v.Fastsync.Cond.Leaders.{times, View, view}

-- A wait that has come back from the parent, before FUTEX_REQUEUE, and before it has raised `seq`.
abbrev pub urges : Pc → ℕ
urges load = 1
urges (store _) = 1
urges move = 1
urges _ = 0

abbrev pub unraised : Pc → ℕ
unraised load = 1
unraised (store _) = 1
unraised _ = 0

abbrev pub standing : (Pc → ℕ) → Thread → ℕ
standing f (calling held p) = f p
standing f _ = 0

-- The waits of a thread at an object that have gone on to its parent, those that have come back with
-- the weight of their place.
abbrev pub weigh : (Pc → ℕ) → (c : ℕ) → View → ℕ
weigh f c (t, place, frames) = times c frames + (if place == c then standing f t else 0)

-- Some thread has such a wait.
abbrev pub Some : (Pc → ℕ) → (n : ℕ) → System → (c : ℕ) → Type 0
Some f n s c = (i : ℕ) × (i < n) × (0 < weigh f c (view s i))

-- A waiter that does not sleep on `seq`.
abbrev pub awake : Thread → Bool
awake (calling held p) = awaits p
awake (asleep_word w) = awaits (pc_of w)
awake _ = false

-- The object of a thread has no parent, or some thread will release the sleepers there, or `seq` has
-- been raised often enough to wrap around.
abbrev pub Released : (n : ℕ) → System → (j : ℕ) → Type 0
Released n s j =
    ((at s j).parent ≡ none)
    ⊎ Some urges n s (s.place j)
    ⊎ (s.seen j + 2 ^ 32 ≤ s.raised (s.place j))

-- A waiter whose object has a parent has somebody who will release it, or is about to see that `seq`
-- has changed, unless it was put to sleep by a number that has wrapped around.
pub record Orphans (n : ℕ) (s : System) : Type 0 where
  pub sleeper : (j : ℕ) → j < n → is_asleep_seq (s.thread j) ≡ true → Released n s j
  pub waiter :
      (j : ℕ)
      → j < n
      → awake (s.thread j) ≡ true
      → s.noted j ≡ s.value (s.place j)
      → ((at s j).parent ≡ none) ⊎ Some unraised n s (s.place j)

choose-urges :
    (cond : Cond) (parent : Option ℕ)
    → (urges (at_child cond parent) ≡ 0) × (unraised (at_child cond parent) ≡ 0)
unfolding at_child
choose-urges cond none = (refl, refl)
choose-urges cond (some parent) = ground arith

pub go-urges :
    (m : ℕ) (p : Pc) {q : Pc} (cond : Cond) {cond' : Cond} (state : ℕ) {state' : ℕ}
    → access m p cond state ≡ go cond' state' q
    → (cond'.parent ≡ cond.parent)
      × (urges p ≤ urges q)
      × (stores p ≡ false → unraised p ≤ unraised q)
unfolding access at_parent after_raise within_unlock within_call enter_unlock fastsync_mutex_unlock
    Mutex.access
go-urges m check cond state e = ground arith
go-urges m choose cond state e = ground (arith, choose-urges cond cond.parent)
go-urges m p cond state e = ground arith

pub return-urges :
    (m : ℕ) (p : Pc) (cond : Cond) {cond' : Cond} (state : ℕ) {state' code : ℕ}
    → access m p cond state ≡ ret cond' state' code
    → (cond'.parent ≡ cond.parent) × (urges p ≡ 0) × (unraised p ≡ 0)
unfolding access at_parent after_raise within_unlock within_call enter_unlock fastsync_mutex_unlock
    Mutex.access
return-urges m check cond state e = ground arith
return-urges m p cond state e = ground arith

abbrev pub KernelUrges : Pc → Act → Type 0
KernelUrges p (wait_seq val q) = (p ≡ await val) × (q ≡ relock)
KernelUrges p (wait_word val q) =
    (urges p ≡ 0) × (unraised p ≡ 0) × (awaits q ≡ true → awaits p ≡ true)
KernelUrges p (wake_seq count q) = (urges p ≡ 0) × (unraised p ≡ 0) × (awaits q ≡ false)
KernelUrges p (wake_word count q) =
    (urges p ≡ 0) × (unraised p ≡ 0) × (awaits q ≡ true → awaits p ≡ true)
KernelUrges p (requeue count limit target q) =
    (count ≡ 1) × (limit ≡ int_max) × (unraised p ≡ 0) × (awaits q ≡ false)
KernelUrges p _ = Unit

pub access-KernelUrges :
    (m : ℕ) (p : Pc) (cond : Cond) (state : ℕ) {a : Act}
    → access m p cond state ≡ a
    → KernelUrges p a
unfolding access at_parent after_raise within_unlock within_call enter_unlock fastsync_mutex_unlock
    Mutex.access
access-KernelUrges m check cond state e = ground arith
access-KernelUrges m p cond state e = ground arith

-- An access leaves the parents as they are.
pub same_parent :
    (conds : ℕ → Cond) (c : ℕ) (cond : Cond)
    → cond.parent ≡ (conds c).parent
    → (d : ℕ) → (assign conds c cond d).parent ≡ (conds d).parent
same_parent conds c cond same =
    assign_all (λ d x. x.parent ≡ (conds d).parent) conds c cond (λ d. refl) same

-- The numbers of `fastsync_cond_signal_count` do not count.
pub recount-Orphans :
    {n : ℕ} {s : System} (count : ℕ → ℕ) → Orphans n s → Orphans n (record s { count = count })
recount-Orphans count before = record { sleeper = before.sleeper; waiter = before.waiter }
