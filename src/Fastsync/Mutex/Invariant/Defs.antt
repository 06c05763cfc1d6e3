-- ===== src/Fastsync/Mutex/Invariant/Defs.antt =====
-- What every reachable state of the mutex of src/fastsync/fastsync_mutex.c satisfies.
use reeact_v.Prelude.{ℕ, ◌%◌, ◌≤◌, ◌<◌, ◌≡◌, ◌⊎◌, tally}
use reeact_v.Fastsync.Mutex.{Pc, contend, inspect, surrender, release, watch, reset, notify}
use reeact_v.Fastsync.Mutex.System.{Thread, critical, running, asleep}

-- The thread has the mutex: from the return of its lock until its unlock clears the low bit.
abbrev pub holds : Thread → ℕ
holds critical = 1
holds (running inspect) = 1
holds (running surrender) = 1
holds (running release) = 1
holds _ = 0

-- The thread has cleared the low bit and is about to give the mutex on or to clear the other bit.
abbrev pub settles : Thread → ℕ
settles (running (watch _)) = 1
settles (running reset) = 1
settles _ = 0

-- The thread is about to set both bits, or to wake a sleeper.
abbrev pub helps : Thread → ℕ
helps (running contend) = 1
helps (running notify) = 1
helps _ = 0

abbrev pub dozes : Thread → ℕ
dozes (asleep _) = 1
dozes _ = 0

pub record Inv (n state : ℕ) (thread : ℕ → Thread) : Type 0 where
  pub small : state < 4
  -- the low bit counts the owners
  pub owned : tally holds n thread ≡ state % 2
  -- free but contended: an unlock is under way
  pub settling : state ≡ 2 → 0 < tally settles n thread
  -- nobody sleeps without the contended bit, unless help is under way
  pub covered : 0 < tally dozes n thread → (2 ≤ state) ⊎ (0 < tally helps n thread)
  pub parked : (i : ℕ) (q : Pc) → thread i ≡ asleep q → q ≡ contend
