-- ===== src/Fastsync/Cond/Safety.antt =====
-- What the condition variable of src/fastsync/fastsync_cond.c promises.
use reeact_v.Prelude.{ℕ, ◌<◌, ◌≡◌, ◌≢◌, Bool, true, arith, ◌==◌}
use reeact_v.Fastsync.Futex.{Futex}
use reeact_v.Fastsync.Barrier.{int_max}
use reeact_v.Fastsync.Mutex.Invariant.{holds}
use reeact_v.Fastsync.Mutex.Safety.{mutual_exclusion}
use reeact_v.Fastsync.Cond.{look, shift, finish, go, requeue, access}
use reeact_v.Fastsync.Cond.System.{Thread, is_asleep_seq, System, at, Reach}
use reeact_v.Fastsync.Cond.Sight.{to_lock}
use reeact_v.Fastsync.Cond.Refines.{Cond-refines}
use reeact_v.Fastsync.Cond.Invariant.Places.{asleep-bound}
use reeact_v.Fastsync.Cond.Steps.{Reach-Inv}

-- A thread that has the mutex, or that gives it back and has not cleared the low bit of its word.
abbrev pub has_mutex : Thread → Bool
has_mutex t = holds (to_lock t) == 1

-- In every reachable state of threads that use a mutex and its condition variables, two threads
-- that have the mutex, be it by lock, by trylock or by the return of a wait, are one thread.
pub cond_mutual_exclusion :
    {k : Futex} {n m : ℕ} {s : System}
    → Reach k n m s
    → (i j : ℕ) → i < n
    → j < n
    → has_mutex (s.thread i) ≡ true
    → has_mutex (s.thread j) ≡ true
    → i ≡ j
cond_mutual_exclusion r i j lt_i lt_j a b =
    mutual_exclusion (Cond-refines r) i j lt_i lt_j (ground (arith, a)) (ground (arith, b))

-- In every reachable state in which a thread sleeps on the seq of a condition variable, with the
-- mutex not at NULL, a broadcast on that condition variable does not return early at its test of
-- cond->mutex, and its FUTEX_REQUEUE wakes one thread and moves up to INT_MAX to that mutex.
pub broadcast_reaches :
    {k : Futex} {n m : ℕ} {s : System}
    → Reach k n m s
    → m ≢ 0
    → (i : ℕ) → is_asleep_seq (s.thread i) ≡ true
    → (access m look (at s i) s.state ≡ go (at s i) s.state shift)
      × (access m shift (at s i) s.state ≡ requeue 1 int_max m finish)
unfolding access
broadcast_reaches {m} {s} r real i a =
    let bound = asleep-bound m (s.thread i) (at s i).mutex ((Reach-Inv r).spot i).0 a in
    ground (arith, bound, real)
