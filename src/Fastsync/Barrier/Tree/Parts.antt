-- ===== src/Fastsync/Barrier/Tree/Parts.antt =====
-- A group of threads and its part at the parent's barrier (src/fastsync/fastsync_barrier.c), in a
-- reachable state of the tree.
use reeact_v.Prelude.{
  ℕ, ◌+◌, ◌<◌, ◌≤◌, ◌≡◌, ◌⊎◌, inl, inr, refl, arith, tally, tally_pos, tally_equal, le-tally,
  ℕ_discrete,
}
use reeact_v.Fastsync.Barrier.{blocking, interproc, Pc}
use reeact_v.Fastsync.Barrier.System.{Place, outside, running, asleep, above, Thread, System}
use reeact_v.Fastsync.Barrier.Invariant.{AtPlace, Inv, ahead, ahead_le, brings, closing, closes}
use reeact_v.Fastsync.Barrier.Safety.{thread-InRound}
use reeact_v.Fastsync.Barrier.Tree.Levels.{up, down, level}
use reeact_v.Fastsync.Barrier.Tree.Coupling.{Coupled}

-- A thread in the last thread's part is in the wait of the parent, or behind it.
pub closing-level :
    (place : Place) → 0 < closing place → ((p : Pc) × (level place ≡ up p)) ⊎ (level place ≡ down)
closing-level (running p) pos = inr (ground arith)
closing-level (above p q) pos = inl (p, refl)
closing-level outside pos = absurd (omega arith)
closing-level (asleep p) pos = absurd (omega arith)

pub up-closes : (place : Place) (p : Pc) → level place ≡ up p → 0 < closing place
up-closes (running q) p e = absurd (ground (arith, e))
up-closes (above q q') p e = omega arith
up-closes outside p e = absurd (ground (arith, e))
up-closes (asleep q) p e = absurd (ground (arith, e))

pub down-closes : (place : Place) → level place ≡ down → 0 < closing place
down-closes (running q) e = ground (arith, e)
down-closes (above q q') e = omega arith
down-closes outside e = absurd (ground (arith, e))
down-closes (asleep q) e = absurd (ground (arith, e))

module _ {n total : ℕ} {l : System} {c : Thread} (inv : Inv blocking n total l)
    (coupled : Coupled n l c) where
  -- The group's part at the parent: outside, with the group in its round; or where a thread is, which
  -- arrived last; or back, with all threads arrived.
  pub part_cases :
      ((c.place ≡ outside) × (c.left ≡ l.round))
      ⊎ ((i : ℕ) × (i < n)
          × (p : Pc) × (level (l.thread i).place ≡ up p)
          × (c.place ≡ running p)
          × (c.left ≡ l.round))
      ⊎ ((i : ℕ) × (i < n)
          × (level (l.thread i).place ≡ down)
          × (c.place ≡ outside)
          × (c.left ≡ l.round + 1))
  part_cases = elim (ℕ_discrete (tally closes n l.thread) 0) [
    | yes none ↦ inl (coupled.idle none)
    | no some ↦
        let (i, lt, pos) = tally_pos closes n l.thread (omega (arith, some)) in
        elim (closing-level (l.thread i).place pos) [
          | inl (p, e) ↦
              let (at, level_with) = coupled.busy i lt p e in
              inr (inl (i, lt, p, e, at, level_with))
          | inr e ↦ let (out, gone) = coupled.done i lt e in inr (inr (i, lt, e, out, gone))
        ]
  ]

  pub all_arrived :
      (i j : ℕ) → i < n → j < n → 0 < closes (l.thread i) → l.round < (l.thread j).arrived
  all_arrived i j lt_i lt_j pos =
      let full = inv.closes_full (omega (arith, le-tally closes n l.thread i lt_i, pos)) in
      let mine =
        tally_equal (ahead l.round) brings (ahead_le l.round) n l.thread
          (omega (arith, inv.counted, full, inv.weighs)) j lt_j in
      ground (arith, mine, (inv.local j lt_j).0)

  -- The group's rounds and its part's.
  pub round-le-left : l.round ≤ c.left
  round-le-left = elim part_cases [
    | inl (out, e) ↦ omega (arith, e)
    | inr (inl (i, lt, p, e, at, level_with)) ↦ omega (arith, level_with)
    | inr (inr (i, lt, e, out, gone)) ↦ omega (arith, gone)
  ]

  -- When the part has arrived at the parent, so have all threads at the group's barrier.
  pub part-le-thread :
      (c.place ≡ outside → c.arrived ≡ c.left)
      → c.arrived ≤ c.left + 1
      → (j : ℕ) → j < n
      → c.arrived ≤ (l.thread j).arrived
  part-le-thread settled in_step j lt_j = elim part_cases [
    | inl (out, e) ↦ omega (arith, settled out, e, (thread-InRound inv j lt_j).arrived_ge)
    | inr (inl (i, lt, p, e, at, level_with)) ↦
        omega
          (arith, in_step, level_with, all_arrived i j lt lt_j (up-closes (l.thread i).place p e))
    | inr (inr (i, lt, e, out, gone)) ↦
        omega (arith, settled out, gone, all_arrived i j lt lt_j (down-closes (l.thread i).place e))
  ]

-- A thread at a part of the parent.
pub settled :
    (round weight arrived left : ℕ) (place : Place)
    → AtPlace interproc round weight arrived left place
    → place ≡ outside
    → arrived ≡ left
settled round weight arrived left outside at e = omega arith
settled round weight arrived left place at e = absurd (ground arith)
