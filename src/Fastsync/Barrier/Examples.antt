-- ===== src/Fastsync/Barrier/Examples.antt =====
-- Runs of src/fastsync/fastsync_barrier.c under a given schedule, and the theorems at them.
use mathlib.Core.List.{foldl}
use reeact_v.Prelude.{
  ℕ, zero, suc, ◌+◌, ◌%◌, ◌^◌, ◌≤◌, ◌<◌, ◌≡◌, ◌↔◌, refl, false, none, arith, dec_lt, ℕ_discrete,
  if◌then◌else◌, List, [], ◌∷◌, tally,
}
use reeact_v.Fastsync.Futex.{any_futex}
use reeact_v.Fastsync.Barrier.{
  Bar, fastsync_barrier_init, serial_thread, blocking, Pc, test, notify, Act, go, ret, call_parent,
  futex_wait, futex_wake, access,
}
use reeact_v.Fastsync.Barrier.System.{
  Place, outside, running, asleep, above, climb, is_asleep, System, sleepers, call, advance, return,
  sleep, wait_returns, wake_up, Reach, start, later,
}
use reeact_v.Fastsync.Barrier.Invariant.{ahead, ones, sum, Counts}
use reeact_v.Fastsync.Barrier.Safety.{
  rendezvous, one_serial_per_round, barrier_words, released_iff, after_wake, last_result,
  behind_count, wait_result, sleeper_covered,
}

-- A reachable state, with the proof that it is reachable.
record Run (n : ℕ) : Type 0 where
  last : System
  reach : Reach any_futex blocking n ones last

module _ {n : ℕ} (r : Run n) (i : ℕ) (lt : i < n) where
  -- The access of thread `i`. FUTEX_WAIT sleeps if it may, FUTEX_WAKE wakes every sleeper.
  perform :
      (p : Pc)
      → (r.last.thread i).place ≡ running p
      → (a : Act) → access blocking p r.last.bar ≡ a
      → Run n
  unfolding ℕ_discrete
  perform p here (go bar q) e = record { last = _; reach = later r.reach (advance i lt here e) }
  perform p here (ret bar code) e = record { last = _; reach = later r.reach (return i lt here e) }
  perform p here (call_parent bar parent inc q) e = record {
    last = _;
    reach = later r.reach (climb i lt here e);
  }
  perform p here (futex_wait val q) e = elim (ℕ_discrete r.last.bar.seq val) [
    | yes same ↦ record { last = _; reach = later r.reach (sleep i lt here e same) }
    | no other ↦ record { last = _; reach = later r.reach (wait_returns i lt here e) }
  ]
  perform p here (futex_wake count code) e = record {
    last = _;
    reach = later r.reach (
        wake_up i {woken = sleepers n r.last.thread} lt here e
          (λ j w. w, λ some j a. (j, a), λ m few all j a. a));
  }

  turn_at : (place : Place) → (r.last.thread i).place ≡ place → Run n
  unfolding perform
  turn_at outside here = record { last = _; reach = later r.reach (call i lt here) }
  turn_at (running p) here = perform p here (access blocking p r.last.bar) refl
  turn_at (asleep p) here = r
  turn_at (above p q) here = r

turn : {n : ℕ} → Run n → ℕ → Run n
unfolding turn_at dec_lt
turn {n} r i = elim (dec_lt i n) [ yes lt ↦ turn_at r i lt (r.last.thread i).place refl | no _ ↦ r ]

abbrev garbage : Bar
garbage = record { seq = 9; waiting = 9; total_count = 9; parent_bar = none }

run : (n : ℕ) → List ℕ → Run n
unfolding turn fastsync_barrier_init access tally
run n = foldl turn (record { last = _; reach = start garbage none refl })

-- Thread 0 calls, arrives and goes to sleep; thread 1 calls, arrives last and writes `reset`.
abbrev sleeping : Run 2
sleeping = run 2 (0 ∷ 0 ∷ 0 ∷ 0 ∷ 0 ∷ 1 ∷ 1 ∷ 1 ∷ 1 ∷ 1 ∷ [])

-- Thread 1 wakes it, and it stands before its test again.
abbrev woken_up : Run 2
woken_up = run 2 (0 ∷ 0 ∷ 0 ∷ 0 ∷ 0 ∷ 1 ∷ 1 ∷ 1 ∷ 1 ∷ 1 ∷ 1 ∷ [])

-- The whole round.
abbrev one_round : Run 2
one_round = run 2 (0 ∷ 0 ∷ 0 ∷ 0 ∷ 0 ∷ 1 ∷ 1 ∷ 1 ∷ 1 ∷ 1 ∷ 1 ∷ 0 ∷ [])

one_round_result :
    (one_round.last.bar.seq ≡ 1)
    × (one_round.last.bar.waiting ≡ 0)
    × (one_round.last.serials ≡ 1)
    × ((one_round.last.thread 0).place ≡ outside)
    × ((one_round.last.thread 1).place ≡ outside)
unfolding run
one_round_result = (refl, refl, refl, refl, refl)

two-Counts : Counts blocking 2 ones
unfolding tally
two-Counts = record {
  some_thread = omega arith;
  positive = λ i lt. omega arith;
  own = λ i lt. refl;
  fits = omega arith;
}

rendezvous_example :
    ((one_round.last.thread 0).left ≤ (one_round.last.thread 1).arrived)
    × ((one_round.last.thread 0).arrived ≤ (one_round.last.thread 1).arrived + 1)
rendezvous_example = rendezvous two-Counts one_round.reach 0 1 (omega arith) (omega arith)

everyone_out : (i : ℕ) → i < 2 → (one_round.last.thread i).place ≡ outside
unfolding run
everyone_out zero lt = refl
everyone_out (suc zero) lt = refl
everyone_out (suc (suc i)) lt = absurd (omega arith)

one_serial_per_round_example : one_round.last.serials ≡ (one_round.last.thread 0).left
one_serial_per_round_example =
    one_serial_per_round two-Counts one_round.reach everyone_out 0 (omega arith)

barrier_words_example :
    (sleeping.last.bar.seq ≡ sleeping.last.round % 2 ^ 32)
    × (sleeping.last.bar.waiting ≡ tally (ahead sleeping.last.round) 2 sleeping.last.thread)
    × (sleeping.last.bar.waiting ≤ sum 2 ones)
barrier_words_example = barrier_words two-Counts sleeping.reach

released_iff_example :
    (access blocking (test 0) woken_up.last.bar ≡ ret woken_up.last.bar 0)
    ↔ ((woken_up.last.thread 0).left < woken_up.last.round)
unfolding run
released_iff_example = released_iff two-Counts woken_up.reach 0 (omega arith) refl

wait_result_example : serial_thread ≡ (if behind_count notify then last_result blocking else 0)
unfolding run access
wait_result_example = wait_result two-Counts sleeping.reach 1 (omega arith) refl (after_wake refl)

sleeper_covered_example :
    ((j : ℕ) × (j < 2) × (is_asleep (sleeping.last.thread j).place ≡ false))
    × ((sleeping.last.thread 0).left < sleeping.last.round
        → (j : ℕ) × (j < 2) × ((sleeping.last.thread j).place ≡ running notify))
unfolding run
sleeper_covered_example = sleeper_covered two-Counts sleeping.reach 0 (omega arith) refl
