-- ===== src/Fastsync/Barrier/Tree/Progress.antt =====
-- A tree of barriers of src/fastsync/fastsync_barrier.c is never stuck.
use reeact_v.Prelude.{
  ℕ, ◌<◌, ◌≤◌, ◌≡◌, inl, inr, refl, ap, ◌∙◌, Bool, true, false, arith, ◌==◌, Bool-cases,
}
use reeact_v.Fastsync.Futex.{Futex}
use reeact_v.Fastsync.Barrier.{blocking, interproc, Pc, test, block}
use reeact_v.Fastsync.Barrier.System.{Place, outside, running, asleep, above, is_asleep}
use reeact_v.Fastsync.Barrier.Invariant.{AtPlace, Counts, ahead, closes, Reach-Inv}
use reeact_v.Fastsync.Barrier.Safety.{latecomer, notifier}
use reeact_v.Fastsync.Barrier.Tree.{Tree, TreeReach}
use reeact_v.Fastsync.Barrier.Tree.Levels.{up, down, level}
use reeact_v.Fastsync.Barrier.Tree.Groups.{TreeInv}
use reeact_v.Fastsync.Barrier.Tree.Refines.{leaf-Inv, TreeReach-TreeInv}
use reeact_v.Fastsync.Barrier.Tree.Parts.{closing-level}

-- A thread that sleeps, or loops for a round of its barrier, or of the parent's where it waits there,
-- that is not over.
abbrev pub held_up : (round root_round left root_left : ℕ) → Place → Bool
held_up round root_round left root_left (asleep _) = true
held_up round root_round left root_left (running (test cur)) = left == round
held_up round root_round left root_left (running (block cur)) = left == round
held_up round root_round left root_left (above (test cur) q) = root_left == root_round
held_up round root_round left root_left _ = false

abbrev pub waits : Tree → (g i : ℕ) → Bool
waits t g i =
    held_up (t.leaf g).round t.root.round ((t.leaf g).thread i).left (t.root.thread g).left
      ((t.leaf g).thread i).place

-- A thread in the last thread's part is held up only where its group is at the parent's test.
up-free :
    (round root_round left root_left : ℕ) (place : Place) (p : Pc)
    → level place ≡ up p
    → ((cur : ℕ) → p ≡ test cur → root_left < root_round)
    → held_up round root_round left root_left place ≡ false
up-free round root_round left root_left (above (test cur) q) p e over = ground (arith, e, over cur)
up-free round root_round left root_left (above p' q) p e over = ground (arith, e)
up-free round root_round left root_left (running q) p e over = absurd (ground (arith, e))
up-free round root_round left root_left place p e over = absurd (ground (arith, e))

down-free :
    (round root_round left root_left : ℕ) (place : Place)
    → level place ≡ down
    → held_up round root_round left root_left place ≡ false
down-free round root_round left root_left (running q) e = ground (arith, e)
down-free round root_round left root_left place e = absurd (ground (arith, e))

-- A thread behind the round of its group is held up only where it sleeps.
behind-free :
    (round root_round weight arrived left root_left : ℕ) (place : Place)
    → AtPlace blocking round weight arrived left place
    → arrived ≤ round
    → is_asleep place ≡ false
    → held_up round root_round left root_left place ≡ false
behind-free round root_round weight arrived left root_left (running p) at behind awake =
    ground arith
behind-free round root_round weight arrived left root_left outside at behind awake = refl
behind-free round root_round weight arrived left root_left (asleep p) at behind awake =
    absurd (ground arith)
behind-free round root_round weight arrived left root_left (above p q) at behind awake =
    absurd (omega arith)

module _ {k : Futex} {groups : ℕ} {size : ℕ → ℕ} (counts : Counts interproc groups size) {t : Tree}
    (inv : TreeInv k groups size t) where
  abbrev Free : Type 0
  Free = (g i : ℕ) × (g < groups) × (i < size g) × (waits t g i ≡ false)

  -- A thread of group `g` that has yet to arrive, or to wake the others.
  behind_free :
      (g i : ℕ) → g < groups → i < size g → ahead (t.leaf g).round ((t.leaf g).thread i) ≡ 0 → Free
  behind_free g i lt lt_i absent =
      let leaf = leaf-Inv counts inv g lt in
      let behind : ((t.leaf g).thread i).arrived ≤ (t.leaf g).round =
        ground (arith, absent, (leaf.local i lt_i).0) in
      elim (Bool-cases (is_asleep ((t.leaf g).thread i).place)) [
        | inl dozing ↦
            let over : ((t.leaf g).thread i).left < (t.leaf g).round =
              ground (arith, leaf.local i lt_i, dozing) in
            let (j, lt_j, at) = notifier leaf i lt_i dozing over in
            (g, j, lt, lt_j, ap (held_up (t.leaf g).round t.root.round _ _) at)
        | inr awake ↦ (
          g,
          i,
          lt,
          lt_i,
          behind-free (t.leaf g).round t.root.round ((t.leaf g).thread i).weight
              ((t.leaf g).thread i).arrived ((t.leaf g).thread i).left (t.root.thread g).left
              ((t.leaf g).thread i).place (leaf.local i lt_i).2 behind awake,
        )
      ]

  -- A thread of group `g` in the last thread's part, while the group is not held up at the parent.
  closer_free :
      (g i : ℕ)
      → g < groups
      → i < size g
      → 0 < closes ((t.leaf g).thread i)
      → ((cur : ℕ)
          → (t.root.thread g).place ≡ running (test cur)
          → (t.root.thread g).left < t.root.round)
      → Free
  closer_free g i lt lt_i pos over = elim (closing-level ((t.leaf g).thread i).place pos) [
    | inl (p, e) ↦
        let at = ((inv.group g lt).coupled.busy i lt_i p e).0 in
        (
          g,
          i,
          lt,
          lt_i,
          up-free _ _ _ _ ((t.leaf g).thread i).place p e
              (λ cur same. over cur (at ∙ ap running same)),
        )
    | inr e ↦ (g, i, lt, lt_i, down-free _ _ _ _ ((t.leaf g).thread i).place e)
  ]

  -- A group that is not held up at the parent.
  group_free :
      (g : ℕ)
      → g < groups
      → ((cur : ℕ)
          → (t.root.thread g).place ≡ running (test cur)
          → (t.root.thread g).left < t.root.round)
      → Free
  group_free g lt over = elim (latecomer (leaf-Inv counts inv g lt)) [
    | inl (i, lt_i, one) ↦ closer_free g i lt lt_i (omega (arith, one)) over
    | inr (i, lt_i, absent) ↦ behind_free g i lt lt_i absent
  ]

  someone_free : Free
  someone_free = elim (latecomer (Reach-Inv counts inv.root)) [
    | inl (g, lt, one) ↦ group_free g lt (λ cur at. absurd (ground (arith, one, at)))
    | inr (g, lt, absent) ↦
        group_free g lt
          (λ cur at. ground (arith, absent, at, (Reach-Inv counts inv.root).local g lt))
  ]

-- A tree of barriers, with groups of threads whose sizes are above 0 and sum up to INT_MAX at
-- most, is never stuck: in every reachable state some thread of some group neither sleeps in
-- FUTEX_WAIT nor loops, at its own barrier or at the parent, for a round that is not over.
pub tree_progress :
    {k : Futex} {groups : ℕ} {size : ℕ → ℕ} {t : Tree}
    → Counts interproc groups size
    → TreeReach k groups size t
    → (g i : ℕ) × (g < groups) × (i < size g) × (waits t g i ≡ false)
tree_progress counts r = someone_free counts (TreeReach-TreeInv counts r)
