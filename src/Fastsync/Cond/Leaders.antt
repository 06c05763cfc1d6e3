-- ===== src/Fastsync/Cond/Leaders.antt =====
-- The threads that go on to the parent of a condition variable of Fastsync/Cond/System.antt, and its
-- field `use_child`.
pub mod Single
pub mod Calm
pub mod Access
pub mod Calls
pub mod Steps
use reeact_v.Prelude.{
  ℕ, ◌+◌, ◌≤◌, ◌<◌, ◌≡◌, ◌≢◌, ◌⊎◌, inl, inr, refl, Bool, true, false, none, some, Option, List, [],
  ◌∷◌, arith, ◌==◌, if◌then◌else◌, tally,
}
use reeact_v.Fastsync.Mutex.{fastsync_mutex_unlock}
use reeact_v.Fastsync.Mutex as Mutex
use reeact_v.Fastsync.Cond.{
  Cond, Pc, Act, check, choose, descend, load, store, move, clear, note, at_child, at_parent,
  after_raise, within_unlock, within_call, enter_unlock, go, ret, call_parent, wait_seq, wake_seq,
  requeue, wait_word, wake_word, access,
}
use reeact_v.Fastsync.Cond.System.{
  Waiter, pc_of, Thread, calling, asleep_seq, asleep_word, System, at,
}

-- How often an object is in a list.
abbrev pub times : (c : ℕ) → List ℕ → ℕ
times c [] = 0
times c (d ∷ rest) = (if d == c then 1 else 0) + times c rest

-- A wait behind the return of the wait at the parent.
abbrev pub releases : Pc → ℕ
releases load = 1
releases (store _) = 1
releases move = 1
releases clear = 1
releases _ = 0

abbrev pub releasing : Thread → ℕ
releasing (calling held p) = releases p
releasing _ = 0

-- A thread, its object and those of the waits that it comes back to.
abbrev pub View : Type 0
View = Thread × ℕ × List ℕ

abbrev pub view : System → ℕ → View
view s j = (s.thread j, s.place j, s.frames j)

-- How many waits of a thread at an object have gone on to its parent and have not returned.
abbrev pub leads : (c : ℕ) → View → ℕ
leads c (t, place, frames) = times c frames + (if place == c then releasing t else 0)

abbrev pub descending : Thread → Bool
descending (calling held descend) = true
descending _ = false

abbrev pub noting : Thread → Bool
noting (calling held note) = true
noting _ = false

pub record Leaders (n : ℕ) (s : System) : Type 0 where
  pub used : (c : ℕ) → (s.cond c).use_child ≡ tally (leads c) n (view s)
  pub once : (c : ℕ) → (s.cond c).use_child ≤ 1
  pub unled : (j : ℕ) → j < n → descending (s.thread j) ≡ true → (at s j).use_child ≡ 0
  pub led :
      (j : ℕ)
      → j < n
      → noting (s.thread j) ≡ true
      → ((at s j).parent ≡ none) ⊎ ((at s j).use_child ≢ 0)

-- What an access makes of `use_child`.
pub record Marks (p q : Pc) (cond cond' : Cond) : Type 0 where
  pub balance : cond'.use_child + releases p ≡ releases q + cond.use_child
  pub small : cond'.use_child ≤ 1
  pub same_parent : cond'.parent ≡ cond.parent
  pub descends : q ≡ descend → cond'.use_child ≡ 0
  pub notes : q ≡ note → (cond'.parent ≡ none) ⊎ (cond'.use_child ≢ 0)
  pub untouched : (cond'.use_child ≡ cond.use_child) ⊎ (p ≡ descend)

choose-Marks :
    (cond : Cond) (parent : Option ℕ)
    → cond.parent ≡ parent
    → cond.use_child ≤ 1
    → Marks choose (at_child cond parent) cond cond
unfolding at_child
choose-Marks cond none e small = ground arith
choose-Marks cond (some parent) e small = ground arith

pub go-Marks :
    (m : ℕ) (p : Pc) {q : Pc} (cond : Cond) {cond' : Cond} (state : ℕ) {state' : ℕ}
    → cond.use_child ≤ 1
    → (p ≡ descend → cond.use_child ≡ 0)
    → access m p cond state ≡ go cond' state' q
    → Marks p q cond cond'
unfolding access at_parent after_raise within_unlock within_call enter_unlock fastsync_mutex_unlock
    Mutex.access
go-Marks m check cond state small unled e = ground arith
go-Marks m choose cond state small unled e =
    ground (arith, choose-Marks cond cond.parent refl small)
go-Marks m descend cond state small unled e = ground (arith, unled refl)
go-Marks m p cond state small unled e = ground arith

-- The return of a wait that has a parent ends its lead.
pub return-Marks :
    (m : ℕ) (p : Pc) (cond : Cond) {cond' : Cond} (state : ℕ) {state' code : ℕ}
    → access m p cond state ≡ ret cond' state' code
    → (cond'.parent ≡ cond.parent)
      × (((p ≡ clear) × (cond'.use_child ≡ 0))
          ⊎ ((releases p ≡ 0) × (cond'.use_child ≡ cond.use_child)))
unfolding access at_parent after_raise within_unlock within_call enter_unlock fastsync_mutex_unlock
    Mutex.access
return-Marks m check cond state e = ground arith
return-Marks m p cond state e = ground arith

-- A place where a thread relies on what it has read in `use_child`.
abbrev pub relies : Pc → Bool
relies descend = true
relies note = true
relies _ = false

abbrev pub KernelMarks : Pc → Act → Type 0
KernelMarks p (wait_seq val q) = (releases p ≡ 0) × (q ≡ Pc.relock)
KernelMarks p (wait_word val q) = (releases q ≡ releases p) × (relies q ≡ false)
KernelMarks p (wake_seq count q) = (releases q ≡ releases p) × (relies q ≡ false)
KernelMarks p (wake_word count q) = (releases q ≡ releases p) × (relies q ≡ false)
KernelMarks p (requeue count limit target q) = (releases q ≡ releases p) × (relies q ≡ false)
KernelMarks p _ = Unit

pub access-KernelMarks :
    (m : ℕ) (p : Pc) (cond : Cond) (state : ℕ) {a : Act}
    → access m p cond state ≡ a
    → KernelMarks p a
unfolding access at_parent after_raise within_unlock within_call enter_unlock fastsync_mutex_unlock
    Mutex.access
access-KernelMarks m check cond state e = ground arith
access-KernelMarks m p cond state e = ground arith

-- The numbers of `fastsync_cond_signal_count` do not count.
pub recount-Leaders :
    {n : ℕ} {s : System} (count : ℕ → ℕ) → Leaders n s → Leaders n (record s { count = count })
recount-Leaders count before = record {
  used = before.used;
  once = before.once;
  unled = before.unled;
  led = before.led;
}
