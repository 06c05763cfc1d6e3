-- ===== src/Fastsync/Barrier/Tree/Safety.antt =====
-- What holds of a tree of barriers of src/fastsync/fastsync_barrier.c in every reachable state.
use reeact_v.Prelude.{ℕ, ◌+◌, ◌<◌, ◌≤◌, arith}
use reeact_v.Fastsync.Futex.{Futex}
use reeact_v.Fastsync.Barrier.{blocking, interproc}
use reeact_v.Fastsync.Barrier.System.{Reach}
use reeact_v.Fastsync.Barrier.Invariant.{Inv, Counts, ones, sum, Reach-Inv}
use reeact_v.Fastsync.Barrier.Safety.{thread-InRound}
use reeact_v.Fastsync.Barrier.Tree.{Tree, TreeReach}
use reeact_v.Fastsync.Barrier.Tree.Groups.{TreeInv}
use reeact_v.Fastsync.Barrier.Tree.Refines.{leaf-Inv, TreeReach-TreeInv}
use reeact_v.Fastsync.Barrier.Tree.Parts.{round-le-left, part-le-thread, settled}

-- In every reachable state of a tree of barriers, with groups of threads whose sizes are above 0
-- and sum up to INT_MAX at most, the barrier of each group is in a reachable state of a barrier
-- for its threads by itself, and the parent in a reachable state of a barrier by itself at which
-- each group arrives with its size.
pub tree-refines :
    {k : Futex} {groups : ℕ} {size : ℕ → ℕ} {t : Tree}
    → Counts interproc groups size
    → TreeReach k groups size t
    → Reach k interproc groups size t.root
      × ((g : ℕ) → g < groups → Reach k blocking (size g) ones (t.leaf g))
tree-refines counts r =
    let inv = TreeReach-TreeInv counts r in (inv.root, λ g lt. (inv.group g lt).reach)

module _ {k : Futex} {groups : ℕ} {size : ℕ → ℕ} (counts : Counts interproc groups size) {t : Tree}
    (inv : TreeInv k groups size t) where
  root-Inv : Inv interproc groups (sum groups size) t.root
  root-Inv = Reach-Inv counts inv.root

  -- A return in one group comes after the arrival of everybody in each.
  left-le-arrived :
      (g i h j : ℕ)
      → g < groups
      → i < size g
      → h < groups
      → j < size h
      → (((t.leaf g).thread i).left ≤ ((t.leaf h).thread j).arrived)
        × (((t.leaf g).thread i).arrived ≤ ((t.leaf h).thread j).arrived + 1)
  left-le-arrived g i h j lt_g lt_i lt_h lt_j =
      let mine = thread-InRound (leaf-Inv counts inv g lt_g) i lt_i in
      let passed = round-le-left (leaf-Inv counts inv g lt_g) (inv.group g lt_g).coupled in
      let here = thread-InRound root-Inv g lt_g in
      let there = thread-InRound root-Inv h lt_h in
      let met =
        part-le-thread (leaf-Inv counts inv h lt_h) (inv.group h lt_h).coupled
          (settled t.root.round _ _ _ (t.root.thread h).place (root-Inv.local h lt_h).2)
          there.in_step j lt_j in
      omega (arith, mine, passed, here, there, met)

-- In every reachable state of a tree of barriers, with groups of threads whose sizes are above 0
-- and sum up to INT_MAX at most, each group at a barrier and all with one parent, no thread of any
-- group has returned from its r-th wait before every thread of every group has arrived for the
-- r-th time, and no thread is more than one arrival ahead of another.
pub tree_rendezvous :
    {k : Futex} {groups : ℕ} {size : ℕ → ℕ} {t : Tree}
    → Counts interproc groups size
    → TreeReach k groups size t
    → (g i h j : ℕ) → g < groups
    → i < size g
    → h < groups
    → j < size h
    → (((t.leaf g).thread i).left ≤ ((t.leaf h).thread j).arrived)
      × (((t.leaf g).thread i).arrived ≤ ((t.leaf h).thread j).arrived + 1)
tree_rendezvous counts r = left-le-arrived counts (TreeReach-TreeInv counts r)
