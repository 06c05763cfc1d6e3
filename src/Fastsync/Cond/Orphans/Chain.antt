-- ===== src/Fastsync/Cond/Orphans/Chain.antt =====
-- Whom a waiter of a condition variable of src/fastsync/fastsync_cond.c waits for in the end, over
-- all the parents above it.
use reeact_v.Prelude.{
  ℕ, suc, zero, ◌+◌, ◌^◌, ◌≤◌, ◌<◌, ◌≡◌, ◌⊎◌, inl, inr, refl, sym, true, false, none, some, Option,
  List, [], ◌∷◌, arith, ℕ_discrete, Bool-cases,
}
use mathlib.Core.Path.{subst}
use reeact_v.Fastsync.Futex.{Futex}
use reeact_v.Fastsync.Barrier.{int_max}
use reeact_v.Fastsync.Cond.{Cond}
use reeact_v.Fastsync.Cond.System.{Thread, asleep_seq, is_asleep_seq, System, at, Reach}
use reeact_v.Fastsync.Cond.Leaders.{times, view}
use reeact_v.Fastsync.Cond.Orphans.{urges, standing, weigh}
use reeact_v.Fastsync.Cond.Orphans.Safety.{no_orphan}
use reeact_v.Fastsync.Cond.Orphans.Frames.{Linked, Reach-Linked}

-- `Above cond c d`: `d` is `c` or a parent above it.
pub data Above (cond : ℕ → Cond) (c : ℕ) : ℕ → Type 0 where
  itself : Above cond c c
  above : {d e : ℕ} → Above cond c d → (cond d).parent ≡ some e → Above cond c e

Above-trans : {cond : ℕ → Cond} {c d e : ℕ} → Above cond c d → Above cond d e → Above cond c e
Above-trans up itself = up
Above-trans up (above up' parent) = above (Above-trans up up') parent

-- No object is above itself.
abbrev pub Acyclic : (ℕ → Cond) → (depth : ℕ → ℕ) → Type 0
Acyclic cond depth = (c d : ℕ) → (cond c).parent ≡ some d → depth d < depth c

-- A thread at `c` or above it that is asleep on `seq` of an object without a parent, or that has gone
-- on to a parent from there and is not asleep on any `seq`.
abbrev pub Comes : (n : ℕ) → System → (c : ℕ) → Type 0
Comes n s c =
    (i : ℕ) × (i < n)
    × Above s.cond c (s.place i)
    × (((is_asleep_seq (s.thread i) ≡ true) × ((at s i).parent ≡ none))
        ⊎ ((is_asleep_seq (s.thread i) ≡ false)
            × ((d : ℕ) × Above s.cond c d × (0 < weigh urges d (view s i)))))

Above-Comes : {n : ℕ} (s : System) {c d : ℕ} → Above s.cond c d → Comes n s d → Comes n s c
Above-Comes s up (i, lt, up', inl at_root) = (i, lt, Above-trans up up', inl at_root)
Above-Comes s up (i, lt, up', inr (there, (d, up_d, leads_d))) =
    (i, lt, Above-trans up up', inr (there, (d, Above-trans up up_d, leads_d)))

-- A thread is above the objects that it comes back to.
frames-Above :
    (cond : ℕ → Cond) (depth : ℕ → ℕ) (c place : ℕ) (frames : List ℕ)
    → Acyclic cond depth
    → Linked cond place frames
    → 0 < times c frames
    → Above cond c place × (depth place < depth c)
frames-Above cond depth c place [] acyclic linked more = absurd (omega (arith, more))
frames-Above cond depth c place (d ∷ rest) acyclic (here, below) more = elim (ℕ_discrete d c) [
  | yes same ↦
      subst (λ c. Above cond c place × (depth place < depth c)) same
        (above itself here, acyclic d place here)
  | no other ↦
      let later : 0 < times c rest = ground (arith, more, other) in
      let (up, less) = frames-Above cond depth c d rest acyclic below later in
      (above up here, omega (arith, less, acyclic d place here))
]

asleep_stands : (t : Thread) → is_asleep_seq t ≡ true → standing urges t ≡ 0
asleep_stands asleep_seq a = refl
asleep_stands t a = cc

module _ {k : Futex} {n m : ℕ} {s : System} (r : Reach k n m s) (few : n ≤ int_max) (depth : ℕ → ℕ)
    (acyclic : Acyclic s.cond depth)
    (soon : (j : ℕ)
      → j < n
      → is_asleep_seq (s.thread j) ≡ true
      → s.raised (s.place j) < s.seen j + 2 ^ 32) where
  -- A thread that leads an object is at it or above it.
  leader-Above : (c i : ℕ) → 0 < weigh urges c (view s i) → Above s.cond c (s.place i)
  leader-Above c i more = elim (ℕ_discrete (times c (s.frames i)) 0) [
    | yes none_below ↦
        let here : s.place i ≡ c = ground (arith, more, none_below) in
        subst (Above s.cond c) (sym here) itself
    | no below ↦
        (frames-Above s.cond depth c (s.place i) (s.frames i) acyclic (Reach-Linked r i)
          (omega (arith, below))).0
  ]

  asleep_leader :
      (c i : ℕ)
      → is_asleep_seq (s.thread i) ≡ true
      → 0 < weigh urges c (view s i)
      → depth (s.place i) < depth c
  asleep_leader c i a more =
      (frames-Above s.cond depth c (s.place i) (s.frames i) acyclic (Reach-Linked r i)
        (ground (arith, asleep_stands (s.thread i) a, more))).1

  -- One step up, from a sleeper to the thread that will release it.
  climb_once :
      (j : ℕ)
      → j < n
      → is_asleep_seq (s.thread j) ≡ true
      → ((i : ℕ)
          → i < n
          → is_asleep_seq (s.thread i) ≡ true
          → depth (s.place i) < depth (s.place j)
          → Comes n s (s.place i))
      → Comes n s (s.place j)
  climb_once j lt a onward = parent_cases (at s j).parent refl
    where
      parent_cases : (parent : Option ℕ) → (at s j).parent ≡ parent → Comes n s (s.place j)
      parent_cases none alone = (j, lt, itself, inl (a, alone))
      parent_cases (some p) below =
          let (i, lt', more) = no_orphan r few j lt a (λ e. cc (e, below)) (soon j lt a) in
          let up = leader-Above (s.place j) i more in
          elim (Bool-cases (is_asleep_seq (s.thread i))) [
            | inl w ↦ Above-Comes s up (onward i lt' w (asleep_leader (s.place j) i w more))
            | inr w ↦ (i, lt', up, inr (w, (s.place j, itself, more)))
          ]

  climb :
      (fuel : ℕ) (j : ℕ)
      → j < n
      → is_asleep_seq (s.thread j) ≡ true
      → depth (s.place j) < fuel
      → Comes n s (s.place j)
  climb zero j lt a enough = absurd (omega (arith, enough))
  climb (suc fuel) j lt a enough =
      climb_once j lt a (λ i lt' w less. climb fuel i lt' w (omega (arith, less, enough)))

-- In every reachable state of up to INT_MAX threads, where no condition variable is above itself
-- and seq of none with a sleeper has been raised 2 ^ 32 times or more since the sleeper noted it,
-- a thread that sleeps on seq of a condition variable has, at that one or at a parent above it, a
-- thread that sleeps on seq of a condition variable without a parent, or one that has gone on to a
-- parent from there, has not yet called FUTEX_REQUEUE there, and sleeps on no seq.
pub waits_for_root :
    {k : Futex} {n m : ℕ} {s : System}
    → Reach k n m s
    → n ≤ int_max
    → (depth : ℕ → ℕ) → Acyclic s.cond depth
    → ((j : ℕ)
        → j < n
        → is_asleep_seq (s.thread j) ≡ true
        → s.raised (s.place j) < s.seen j + 2 ^ 32)
    → (j : ℕ) → j < n
    → is_asleep_seq (s.thread j) ≡ true
    → Comes n s (s.place j)
waits_for_root {s} r few depth acyclic soon j lt a =
    climb r few depth acyclic soon (depth (s.place j) + 1) j lt a (omega arith)
