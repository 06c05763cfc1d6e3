-- ===== src/Fastsync/Cond/Examples.antt =====
-- Theorems about src/fastsync/fastsync_cond.c at runs of it.
use reeact_v.Prelude.{
  ℕ, zero, suc, ◌+◌, ◌%◌, ◌^◌, ◌<◌, ◌≡◌, refl, true, arith, List, [], ◌∷◌, ◌++◌, ◌≢◌, ◌⊎◌, ◌==◌,
  tally, if◌then◌else◌,
}
use reeact_v.Fastsync.Barrier.{int_max}
use reeact_v.Fastsync.Futex.{any_futex}
use reeact_v.Fastsync.Mutex.System as Lock
use reeact_v.Fastsync.Cond.{
  relock, look, shift, finish, go, requeue, access, fastsync_cond_signal_count,
}
use reeact_v.Fastsync.Cond.System.{is_asleep_seq, seq_sleepers, wake_seq_up, at}
use reeact_v.Fastsync.Cond.Sight.{project}
use reeact_v.Fastsync.Cond.Refines.{Cond-refines}
use reeact_v.Fastsync.Cond.Claim.{cond_call_succeeds}
use reeact_v.Fastsync.Cond.Safety.{cond_mutual_exclusion, broadcast_reaches}
use reeact_v.Fastsync.Cond.Counts.Missed.{no_missed_signal}
use reeact_v.Fastsync.Cond.Leaders.{leads, view}
use reeact_v.Fastsync.Cond.Orphans.Safety.{one_leader}
use reeact_v.Fastsync.Cond.Orphans.Chain.{Comes, waits_for_root}
use reeact_v.Fastsync.Cond.Signals.{signal_count_lem}
use reeact_v.Fastsync.Cond.Runs.{Run, Order, on, wait_now, signal_now, count_now, run}

abbrev waits : List Order
waits = on 0 ∷ on 0 ∷ wait_now 0 2 ∷ on 0 ∷ on 0 ∷ on 0 ∷ on 0 ∷ on 0 ∷ on 0 ∷ on 0 ∷ []

-- Thread 0 has noted `seq` and given the mutex back, and thread 1 has raised `seq`.
abbrev signalled : Run
signalled = run (waits ++ (signal_now 1 2 ∷ on 1 ∷ []))

-- Thread 0 waits in the kernel.
abbrev sleeping : Run
sleeping = run (waits ++ (on 0 ∷ []))

-- Thread 1 has woken it.
abbrev woken_up : Run
woken_up = run (waits ++ (on 0 ∷ signal_now 1 2 ∷ on 1 ∷ on 1 ∷ []))

-- It has the mutex again.
abbrev returned : Run
returned = run (waits ++ (on 0 ∷ signal_now 1 2 ∷ on 1 ∷ on 1 ∷ on 0 ∷ on 1 ∷ []))

-- Thread 0 has gone on from the object at 1 to the one at 2, and thread 1 sleeps at 1.
abbrev led : Run
led = run (
    on 0
    ∷ on 0
    ∷ wait_now 0 1
    ∷ on 0
    ∷ on 0
    ∷ on 0
    ∷ on 0
    ∷ on 0
    ∷ on 0
    ∷ on 0
    ∷ on 0
    ∷ on 0
    ∷ on 0
    ∷ on 0
    ∷ on 0
    ∷ on 1
    ∷ on 1
    ∷ wait_now 1 1
    ∷ on 1
    ∷ on 1
    ∷ on 1
    ∷ on 1
    ∷ on 1
    ∷ on 1
    ∷ on 1
    ∷ on 1
    ∷ [])

-- Thread 1 is before FUTEX_WAKE in fastsync_cond_signal_count.
abbrev counting : Run
counting = run (waits ++ (on 0 ∷ count_now 1 2 ∷ on 1 ∷ []))

Cond-refines_example : Lock.Reach any_futex 2 (project sleeping.last)
Cond-refines_example = Cond-refines sleeping.reach

cond_mutual_exclusion_example : ◌≡◌ {A = ℕ} 0 0
unfolding run
cond_mutual_exclusion_example =
    cond_mutual_exclusion returned.reach 0 0 (omega arith) (omega arith) refl refl

no_missed_signal_example : ¬ ((at signalled.last 0).seq % 2 ^ 32 ≡ 0)
unfolding run
no_missed_signal_example =
    no_missed_signal signalled.reach 0 {held = true} {cur = 0} (omega arith) refl (omega arith)
      (omega arith)

broadcast_reaches_example :
    (access 9 look (at sleeping.last 0) sleeping.last.state
      ≡ go (at sleeping.last 0) sleeping.last.state shift)
    × (access 9 shift (at sleeping.last 0) sleeping.last.state ≡ requeue 1 int_max 9 finish)
unfolding run
broadcast_reaches_example = broadcast_reaches sleeping.reach (omega arith) 0 refl

cond_call_succeeds_example : ◌≡◌ {A = ℕ} 0 0
unfolding run access
cond_call_succeeds_example =
    cond_call_succeeds {code = 0} woken_up.reach 0 {held = true} {p = relock} (omega arith) refl
      refl refl

one_leader_example :
    ((◌≡◌ {A = ℕ} 1 0) × ((i : ℕ) → i < 2 → leads 1 (view led.last i) ≡ 0))
    ⊎ ((◌≡◌ {A = ℕ} 1 1)
        × ((i : ℕ) × (i < 2)
            × (leads 1 (view led.last i) ≡ 1)
            × ((j : ℕ) → j < 2 → i ≢ j → leads 1 (view led.last j) ≡ 0)))
unfolding run
one_leader_example = one_leader led.reach 1

-- The depth of an object below the one at 2.
abbrev depth : ℕ → ℕ
depth c = if c == 1 then 1 else 0

led_soon :
    (j : ℕ)
    → j < 2
    → is_asleep_seq (led.last.thread j) ≡ true
    → led.last.raised (led.last.place j) < led.last.seen j + 2 ^ 32
unfolding run
led_soon zero lt a = omega arith
led_soon (suc zero) lt a = omega arith
led_soon (suc (suc j)) lt a = absurd (omega (arith, lt))

waits_for_root_example : Comes 2 led.last 1
unfolding run
waits_for_root_example =
    waits_for_root led.reach (omega arith) depth (λ c d below. ground (arith, below)) led_soon 1
      (omega arith) refl

signal_count_lem_example : (◌≡◌ {A = ℕ} 1 1) × (◌≡◌ {A = ℕ} 1 0 → ◌≡◌ {A = ℕ} 1 0)
unfolding run access tally fastsync_cond_signal_count
signal_count_lem_example =
    signal_count_lem {k = any_futex} {n = 2} {m = 9} {s = counting.last}
      (wake_seq_up 1 {woken = seq_sleepers 2 counting.last.thread counting.last.place 2}
        (omega arith) refl refl (λ j w. w, λ some j a. (j, a), λ m few all j a. a))
      refl
