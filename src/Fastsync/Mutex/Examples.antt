-- ===== src/Fastsync/Mutex/Examples.antt =====
-- A run of two threads over the mutex of src/fastsync/fastsync_mutex.c, and the theorems at it.
use reeact_v.Prelude.{ℕ, ◌+◌, ◌%◌, ◌<◌, ◌≡◌, ◌≢◌, ◌↔◌, refl, true, some, arith, assign}
use reeact_v.Fastsync.Futex.{any_futex}
use reeact_v.Fastsync.Mutex.{
  Pc, spin, contend, attempt, inspect, Act, ret, futex_wake, ebusy, fastsync_mutex_init,
  fastsync_mutex_lock, access,
}
use reeact_v.Fastsync.Mutex.System.{
  Thread, outside, critical, running, asleep, System, call_lock, advance, return, sleep, Reach,
  start, later,
}
use reeact_v.Fastsync.Mutex.Invariant.{holds}
use reeact_v.Fastsync.Mutex.Safety.{
  is_awake, mutual_exclusion, state_bits, no_lost_wakeup, trylock_lem,
}
use reeact_v.Fastsync.Mutex.Solo.{drive, alone, Finished, unlock_wait_free, lock_unlock_alone}

abbrev fresh : ℕ → Thread
fresh _ = outside

-- Thread 0 has the mutex.
abbrev owned : System
owned = record { state = 1; thread = assign (assign fresh 0 (running (spin 0))) 0 critical }

-- Thread 1 has come too late, and sleeps in the kernel.
abbrev blocked : System
blocked = record {
  state = 3;
  thread =
      assign
        (assign (assign (assign owned.thread 1 (running (spin 0))) 1 (running contend)) 1
          (running Pc.suspend))
        1 (asleep contend);
}

owned-Reach : Reach any_futex 2 owned
unfolding fastsync_mutex_init fastsync_mutex_lock access
owned-Reach =
    later (later (start 7 refl) (call_lock 0 (omega arith) refl refl))
      (return 0 {p = spin 0} {code = 0} (omega arith) refl refl)

blocked-Reach : Reach any_futex 2 blocked
unfolding fastsync_mutex_lock access
blocked-Reach =
    later
      (later
        (later (later owned-Reach (call_lock 1 (omega arith) refl refl))
          (advance 1 (omega arith) refl refl))
        (advance 1 (omega arith) refl refl))
      (sleep 1 (omega arith) refl refl refl)

mutual_exclusion_example : ◌≡◌ {A = ℕ} 0 0
mutual_exclusion_example = mutual_exclusion blocked-Reach 0 0 (omega arith) (omega arith) refl refl

state_bits_example : (3 < 4) × ((3 % 2 ≡ 1) ↔ ((i : ℕ) × (i < 2) × (holds (blocked.thread i) ≡ 1)))
state_bits_example = state_bits blocked-Reach

no_lost_wakeup_example :
    (j : ℕ) × (j < 2)
    × (is_awake (blocked.thread j) ≡ true)
    × (3 % 2 ≡ 0 → blocked.thread j ≢ critical)
no_lost_wakeup_example = no_lost_wakeup blocked-Reach 1 (omega arith) refl

trylock_lem_example :
    (state code : ℕ) × (access attempt 1 ≡ ret state code)
    × ((code ≡ 0) ↔ ((i : ℕ) → i < 2 → holds (owned.thread i) ≢ 1))
    × (code ≢ 0 → code ≡ ebusy)
trylock_lem_example = trylock_lem owned-Reach

unlock_wait_free_example : (a : Act) × (drive 6 (λ t. t + 2) inspect ≡ some a) × Finished a
unlock_wait_free_example = unlock_wait_free (λ t. t + 2)

lock_unlock_alone_example :
    (alone 1 (spin 0) 2 ≡ some (3, ret 3 0)) × (alone 6 inspect 3 ≡ some (0, futex_wake 1 0))
lock_unlock_alone_example = lock_unlock_alone 2 (omega arith) refl
