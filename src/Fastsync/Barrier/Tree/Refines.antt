-- ===== src/Fastsync/Barrier/Tree/Refines.antt =====
-- Each barrier of a tree of src/fastsync/fastsync_barrier.c behaves as a barrier by itself.
use mathlib.Core.Path.{subst}
use reeact_v.Prelude.{ℕ, ◌+◌, ◌<◌, ◌≡◌, arith, assign, true}
use reeact_v.Fastsync.Futex.{Futex}
use reeact_v.Fastsync.Barrier.{blocking, interproc, Bar, Pc, enter, go, ret, call_parent, access}
use reeact_v.Fastsync.Barrier.System.{
  running, above, System, move, advanced, returned, climbed, resets, serial, Step, call, advance,
  climb, stay, descend, return, Reach,
}
use reeact_v.Fastsync.Barrier.Invariant.{Inv, Counts, ones, sum-ones, sum, Reach-Inv}
use reeact_v.Fastsync.Barrier.Tree.{
  Tree, with_leaf, with_thread, own, within, ascend, aloft, land, TreeReach, start, later,
}
use reeact_v.Fastsync.Barrier.Tree.Levels.{Step-Kept}
use reeact_v.Fastsync.Barrier.Tree.Constants.{Reach-weight}
use reeact_v.Fastsync.Barrier.Tree.Coupling.{Kept-Coupled}
use reeact_v.Fastsync.Barrier.Tree.Moves.{
  ascend_lem, ascend-Coupled, above_lem, aloft-Coupled, land-Coupled,
}
use reeact_v.Fastsync.Barrier.Tree.Groups.{
  leaf-Counts, Group, TreeInv, next_Group, next_groups, assign_self, start-TreeInv,
}

module _ {k : Futex} {groups : ℕ} {size : ℕ → ℕ} (counts : Counts interproc groups size) {t : Tree}
    (inv : TreeInv k groups size t) where
  pub leaf-Inv : (g : ℕ) → g < groups → Inv blocking (size g) (sum (size g) ones) (t.leaf g)
  leaf-Inv g lt = Reach-Inv (leaf-Counts counts g lt) (inv.group g lt).reach

  within-TreeInv :
      (g : ℕ) (l : System)
      → g < groups
      → (st : Step k blocking (size g) (t.leaf g) l) → own st ≡ true
      → TreeInv k groups size (with_leaf t g l)
  within-TreeInv g l lt st own_step =
      let here = inv.group g lt in
      let kept = Step-Kept (leaf-Inv g lt) here.below st own_step in
      let changed = next_Group here st (Kept-Coupled (leaf-Inv g lt) kept here.coupled) in
      record {
        root = inv.root;
        group = λ h lt_h.
            subst (λ c. Group k (size h) (assign t.leaf g l h) c) (assign_self t.root.thread g h)
              (next_groups t.leaf t.root.thread inv.group g l (t.root.thread g) changed h lt_h);
      }

  ascend-TreeInv :
      (g i : ℕ) (p q : Pc) (bar : Bar) (parent count : ℕ)
      → g < groups
      → i < size g
      → ((t.leaf g).thread i).place ≡ running p
      → access blocking p (t.leaf g).bar ≡ call_parent bar parent count q
      → TreeInv k groups size (record {
        leaf = assign t.leaf g (
            with_thread
              (record (t.leaf g) { bar = bar })
              i
              (climbed ((t.leaf g).thread i) p count q));
        root = with_thread t.root g (move (t.root.thread g) (running (enter count)));
      })
  ascend-TreeInv g i p q bar parent count lt lt_i here e =
      let at = inv.group g lt in
      let (full, last, quiet) = ascend_lem (leaf-Inv g lt) i p q bar parent count lt_i here e in
      let (out, level_with) = at.coupled.idle quiet in
      let brought : (t.root.thread g).weight ≡ count =
        omega (arith, Reach-weight inv.root g, full, sum-ones (size g)) in
      let changed =
        next_Group at (climb i lt_i here e)
          (ascend-Coupled (leaf-Inv g lt) at.coupled i p q bar parent count lt_i here e) in
      record {
        root =
            subst
              (λ (w : ℕ).
                Reach k interproc groups size
                  (with_thread t.root g (move (t.root.thread g) (running (enter w)))))
              brought (Reach.later inv.root (call g lt out));
        group = next_groups t.leaf t.root.thread inv.group g _ _ changed;
      }

  aloft-TreeInv :
      (g i : ℕ) (p p' q : Pc) (bar : Bar)
      → g < groups
      → i < size g
      → ((t.leaf g).thread i).place ≡ above p q
      → access interproc p t.root.bar ≡ go bar p'
      → TreeInv k groups size (record {
        leaf = assign t.leaf g (with_thread (t.leaf g) i (move ((t.leaf g).thread i) (above p' q)));
        root = record t.root {
          bar = bar;
          thread = assign t.root.thread g (advanced (t.root.thread g) p p');
          round = t.root.round + resets p;
        };
      })
  aloft-TreeInv g i p p' q bar lt lt_i here e =
      let at = inv.group g lt in
      let (there, level_with, last) = above_lem (leaf-Inv g lt) at.coupled i p q lt_i here in
      let changed =
        next_Group at (stay i p' lt_i here)
          (aloft-Coupled (leaf-Inv g lt) at.coupled i p p' q lt_i here) in
      record {
        root = Reach.later inv.root (advance g lt there e);
        group = next_groups t.leaf t.root.thread inv.group g _ _ changed;
      }

  land-TreeInv :
      (g i : ℕ) (p q : Pc) (bar : Bar) (code : ℕ)
      → g < groups
      → i < size g
      → ((t.leaf g).thread i).place ≡ above p q
      → access interproc p t.root.bar ≡ ret bar code
      → TreeInv k groups size (record {
        leaf = assign t.leaf g (with_thread (t.leaf g) i (move ((t.leaf g).thread i) (running q)));
        root = record t.root {
          bar = bar;
          thread = assign t.root.thread g (returned (t.root.thread g) p);
          round = t.root.round + resets p;
          serials = t.root.serials + serial code;
        };
      })
  land-TreeInv g i p q bar code lt lt_i here e =
      let at = inv.group g lt in
      let (there, level_with, last) = above_lem (leaf-Inv g lt) at.coupled i p q lt_i here in
      let changed =
        next_Group at (descend i lt_i here)
          (land-Coupled (leaf-Inv g lt) at.coupled i p q lt_i here) in
      record {
        root = Reach.later inv.root (return g lt there e);
        group = next_groups t.leaf t.root.thread inv.group g _ _ changed;
      }

pub TreeReach-TreeInv :
    {k : Futex} {groups : ℕ} {size : ℕ → ℕ} {t : Tree}
    → Counts interproc groups size
    → TreeReach k groups size t
    → TreeInv k groups size t
TreeReach-TreeInv {k} {groups} {size} counts (start old old_root parent leaves_set root_set) =
    start-TreeInv k groups size old old_root parent leaves_set root_set
TreeReach-TreeInv counts (later r (within g {l} lt st own_step)) =
    within-TreeInv counts (TreeReach-TreeInv counts r) g l lt st own_step
TreeReach-TreeInv counts (later r (ascend g i {p} {q} {bar} {parent} {count} lt lt_i here e)) =
    ascend-TreeInv counts (TreeReach-TreeInv counts r) g i p q bar parent count lt lt_i here e
TreeReach-TreeInv counts (later r (aloft g i {p} {p'} {q} {bar} lt lt_i here e)) =
    aloft-TreeInv counts (TreeReach-TreeInv counts r) g i p p' q bar lt lt_i here e
TreeReach-TreeInv counts (later r (land g i {p} {q} {bar} {code} lt lt_i here e)) =
    land-TreeInv counts (TreeReach-TreeInv counts r) g i p q bar code lt lt_i here e
