-- ===== src/Fastsync/Barrier/Tree/Examples.antt =====
-- Runs of a tree of barriers of src/fastsync/fastsync_barrier.c under a given schedule, and the
-- theorems at them.
use mathlib.Core.List.{foldl}
use reeact_v.Prelude.{
  ℕ, zero, suc, ◌+◌, ◌<◌, ◌≤◌, ◌≡◌, refl, none, false, arith, dec_lt, ℕ_discrete, List, [], ◌∷◌,
  tally,
}
use reeact_v.Fastsync.Futex.{any_futex}
use reeact_v.Fastsync.Barrier.{
  Bar, fastsync_barrier_init, blocking, interproc, Pc, Act, go, ret, call_parent, futex_wait,
  futex_wake, access,
}
use reeact_v.Fastsync.Barrier.System.{
  Place, outside, running, asleep, above, System, sleepers, call, advance, return, sleep,
  wait_returns, wake_up, Reach,
}
use reeact_v.Fastsync.Barrier.Invariant.{ones, Counts}
use reeact_v.Fastsync.Barrier.Tree.{Tree, within, ascend, aloft, land, TreeReach, start, later}
use reeact_v.Fastsync.Barrier.Tree.Safety.{tree-refines, tree_rendezvous}
use reeact_v.Fastsync.Barrier.Tree.Progress.{waits, tree_progress}

-- A reachable state, with the proof that it is reachable.
record Run (groups : ℕ) (size : ℕ → ℕ) : Type 0 where
  last : Tree
  reach : TreeReach any_futex groups size last

module _ {groups : ℕ} {size : ℕ → ℕ} (r : Run groups size) (g i : ℕ) (lt : g < groups)
    (lt_i : i < size g) where
  abbrev leaf : System
  leaf = r.last.leaf g

  -- The access of thread `i` of group `g` at its barrier. FUTEX_WAIT sleeps if it may, FUTEX_WAKE
  -- wakes every sleeper.
  perform :
      (p : Pc)
      → (leaf.thread i).place ≡ running p
      → (a : Act) → access blocking p leaf.bar ≡ a
      → Run groups size
  unfolding ℕ_discrete
  perform p here (go bar q) e = record {
    last = _;
    reach = later r.reach (within g lt (advance i lt_i here e) refl);
  }
  perform p here (ret bar code) e = record {
    last = _;
    reach = later r.reach (within g lt (return i lt_i here e) refl);
  }
  perform p here (call_parent bar parent count q) e = record {
    last = _;
    reach = later r.reach (ascend g i lt lt_i here e);
  }
  perform p here (futex_wait val q) e = elim (ℕ_discrete leaf.bar.seq val) [
    | yes same ↦ record {
      last = _;
      reach = later r.reach (within g lt (sleep i lt_i here e same) refl);
    }
    | no other ↦ record {
      last = _;
      reach = later r.reach (within g lt (wait_returns i lt_i here e) refl);
    }
  ]
  perform p here (futex_wake count code) e = record {
    last = _;
    reach = later r.reach (
        within g lt
          (wake_up i {woken = sleepers (size g) leaf.thread} lt_i here e
            (λ j w. w, λ some j a. (j, a), λ m few all j a. a))
          refl);
  }

  -- Its access at the parent's barrier.
  perform_above :
      (p q : Pc)
      → (leaf.thread i).place ≡ above p q
      → (a : Act) → access interproc p r.last.root.bar ≡ a
      → Run groups size
  perform_above p q here (go bar p') e = record {
    last = _;
    reach = later r.reach (aloft g i lt lt_i here e);
  }
  perform_above p q here (ret bar code) e = record {
    last = _;
    reach = later r.reach (land g i lt lt_i here e);
  }
  perform_above p q here a e = r

  turn_at : (place : Place) → (leaf.thread i).place ≡ place → Run groups size
  unfolding perform perform_above
  turn_at outside here = record {
    last = _;
    reach = later r.reach (within g lt (call i lt_i here) refl);
  }
  turn_at (running p) here = perform p here (access blocking p leaf.bar) refl
  turn_at (asleep p) here = r
  turn_at (above p q) here = perform_above p q here (access interproc p r.last.root.bar) refl

turn : {groups : ℕ} {size : ℕ → ℕ} → Run groups size → ℕ × ℕ → Run groups size
unfolding turn_at dec_lt
turn {groups} {size} r (g, i) = elim (dec_lt g groups) [
  | yes lt ↦ elim (dec_lt i (size g)) [
    | yes lt_i ↦ turn_at r g i lt lt_i ((r.last.leaf g).thread i).place refl
    | no _ ↦ r
  ]
  | no _ ↦ r
]

abbrev garbage : Bar
garbage = record { seq = 9; waiting = 9; total_count = 9; parent_bar = none }

run : (groups : ℕ) (size : ℕ → ℕ) → List (ℕ × ℕ) → Run groups size
unfolding turn fastsync_barrier_init access tally
run groups size =
    foldl turn (record { last = _; reach = start (λ _. garbage) garbage 1 (λ g. refl) refl })

-- Group 0 has two threads, group 1 one.
abbrev size : ℕ → ℕ
size zero = 2
size (suc g) = 1

abbrev times : ℕ → ℕ × ℕ → List (ℕ × ℕ) → List (ℕ × ℕ)
times zero x rest = rest
times (suc n) x rest = x ∷ times n x rest

-- Thread 0 of group 0 sleeps, thread 1 arrives last and spins at the parent.
abbrev spinning : Run 2 size
spinning = run 2 size (times 5 (0, 0) (times 6 (0, 1) []))

-- Then group 1 comes and goes on, and so does group 0.
abbrev one_round : Run 2 size
one_round =
    run 2 size
      (times 5 (0, 0) (times 6 (0, 1) (times 9 (1, 0) (times 5 (0, 1) (times 1 (0, 0) [])))))

spinning_result :
    (((spinning.last.leaf 0).thread 0).place ≡ asleep (Pc.test 0))
    × (((spinning.last.leaf 0).thread 1).place ≡ above (Pc.test 0) Pc.complete)
    × (spinning.last.root.bar.waiting ≡ 2)
unfolding run
spinning_result = (refl, refl, refl)

one_round_result :
    (((one_round.last.leaf 0).thread 0).left ≡ 1)
    × (((one_round.last.leaf 0).thread 1).left ≡ 1)
    × (((one_round.last.leaf 1).thread 0).left ≡ 1)
    × (one_round.last.root.bar.seq ≡ 1)
    × (one_round.last.root.bar.waiting ≡ 0)
unfolding run
one_round_result = (refl, refl, refl, refl, refl)

size-Counts : Counts interproc 2 size
unfolding tally
size-Counts = record {
  some_thread = omega arith;
  positive = λ i lt. ground arith;
  own = λ i lt. refl;
  fits = omega arith;
}

tree-refines_example :
    Reach any_futex interproc 2 size spinning.last.root
    × ((g : ℕ) → g < 2 → Reach any_futex blocking (size g) ones (spinning.last.leaf g))
tree-refines_example = tree-refines size-Counts spinning.reach

tree_rendezvous_example :
    (((one_round.last.leaf 0).thread 0).left ≤ ((one_round.last.leaf 1).thread 0).arrived)
    × (((one_round.last.leaf 0).thread 0).arrived ≤ ((one_round.last.leaf 1).thread 0).arrived + 1)
tree_rendezvous_example =
    tree_rendezvous size-Counts one_round.reach 0 0 1 0 (omega arith) (omega arith) (omega arith)
      (omega arith)

tree_progress_example : (g i : ℕ) × (g < 2) × (i < size g) × (waits spinning.last g i ≡ false)
tree_progress_example = tree_progress size-Counts spinning.reach
