-- ===== src/Fastsync/Mutex/System.antt =====
-- `n` threads that use one mutex, interleaved in any order, over any kernel with futexes.
use reeact_v.Prelude.{ℕ, zero, ◌<◌, ◌≡◌, Bool, true, false, ◌&&◌, ltb, if◌then◌else◌, assign}
use reeact_v.Fastsync.Futex.{Futex}
use reeact_v.Fastsync.Mutex.{
  Pc, spin, contend, suspend, attempt, go, ret, futex_wait, futex_wake, starts, fastsync_mutex_init,
  fastsync_mutex_lock, fastsync_mutex_trylock, fastsync_mutex_unlock, access,
}

-- A thread outside the mutex, in its critical section, in a call, asleep in FUTEX_WAIT on the word,
-- or waiting for a condition variable that uses the mutex.
pub data Thread : Type 0 where
  outside : Thread
  critical : Thread
  running : Pc → Thread
  asleep : Pc → Thread
  dormant : Thread

-- What a thread is when its call returns: a lock or trylock that returns 0 has the mutex.
abbrev pub resume : Pc → (code : ℕ) → Thread
resume (spin _) zero = critical
resume contend zero = critical
resume suspend zero = critical
resume attempt zero = critical
resume _ _ = outside

pub record System : Type 0 where
  pub state : ℕ
  pub thread : ℕ → Thread

abbrev pub is_asleep : Thread → Bool
is_asleep (asleep _) = true
is_asleep _ = false

abbrev pub sleepers : ℕ → (ℕ → Thread) → ℕ → Bool
sleepers n thread i = ltb i n && is_asleep (thread i)

abbrev pub wake : Thread → Thread
wake (asleep p) = running p
wake t = t

abbrev pub rouse : (ℕ → Bool) → (ℕ → Thread) → ℕ → Thread
rouse woken thread i = if woken i then wake (thread i) else thread i

abbrev pub is_dormant : Thread → Bool
is_dormant dormant = true
is_dormant _ = false

abbrev pub dormants : ℕ → (ℕ → Thread) → ℕ → Bool
dormants n thread i = ltb i n && is_dormant (thread i)

-- A waiter of the condition variable after FUTEX_REQUEUE: woken, and about to take the mutex as
-- `fastsync_cond_wait` does, or asleep on the word of the mutex.
abbrev pub requeue : (woken moved : ℕ → Bool) → (ℕ → Thread) → ℕ → Thread
requeue woken moved thread i =
    if woken i then running contend else if moved i then asleep contend else thread i

-- Every mutex operation of a thread, one access to a step. Only a thread that has the mutex calls
-- unlock. FUTEX_WAIT may return at once, whatever the word holds, and a sleeper may be interrupted.
pub data Step (k : Futex) (n : ℕ) (s : System) : System → Type 0 where
  call_lock :
      (i : ℕ) {p : Pc}
      → i < n
      → s.thread i ≡ outside
      → fastsync_mutex_lock false ≡ starts p
      → Step k n s (record s { thread = assign s.thread i (running p) })
  call_trylock :
      (i : ℕ) {p : Pc}
      → i < n
      → s.thread i ≡ outside
      → fastsync_mutex_trylock false ≡ starts p
      → Step k n s (record s { thread = assign s.thread i (running p) })
  call_unlock :
      (i : ℕ) {p : Pc}
      → i < n
      → s.thread i ≡ critical
      → fastsync_mutex_unlock false ≡ starts p
      → Step k n s (record s { thread = assign s.thread i (running p) })
  advance :
      (i : ℕ) {p q : Pc} {state : ℕ}
      → i < n
      → s.thread i ≡ running p
      → access p s.state ≡ go state q
      → Step k n s (record { state = state; thread = assign s.thread i (running q) })
  return :
      (i : ℕ) {p : Pc} {state code : ℕ}
      → i < n
      → s.thread i ≡ running p
      → access p s.state ≡ ret state code
      → Step k n s (record { state = state; thread = assign s.thread i (resume p code) })
  sleep :
      (i : ℕ) {p q : Pc} {val : ℕ}
      → i < n
      → s.thread i ≡ running p
      → access p s.state ≡ futex_wait val q
      → k.Sleeps s.state val
      → Step k n s (record s { thread = assign s.thread i (asleep q) })
  wait_returns :
      (i : ℕ) {p q : Pc} {val : ℕ}
      → i < n
      → s.thread i ≡ running p
      → access p s.state ≡ futex_wait val q
      → Step k n s (record s { thread = assign s.thread i (running q) })
  interrupt :
      (i : ℕ) {q : Pc}
      → i < n
      → s.thread i ≡ asleep q
      → Step k n s (record s { thread = assign s.thread i (running q) })
  wake_up :
      (i : ℕ) {p : Pc} {count code : ℕ} {woken : ℕ → Bool}
      → i < n
      → s.thread i ≡ running p
      → access p s.state ≡ futex_wake count code
      → k.Wakes count (sleepers n s.thread) woken
      → Step k n s (record s { thread = assign (rouse woken s.thread) i (resume p code) })
  -- `fastsync_cond_wait`: behind its unlock the wait begins, and ends for whatever reason. The loop
  -- that takes the mutex again is the one of lock.
  await :
      (i : ℕ)
      → i < n
      → s.thread i ≡ outside
      → Step k n s (record s { thread = assign s.thread i dormant })
  resume_wait :
      (i : ℕ)
      → i < n
      → s.thread i ≡ dormant
      → Step k n s (record s { thread = assign s.thread i (running contend) })
  -- FUTEX_REQUEUE_PRIVATE of `fastsync_cond_broadcast` and `fastsync_cond_wait`, by any thread, on
  -- the waiters of one of the condition variables that use the mutex
  broadcast :
      {limit : ℕ} {waiting woken moved : ℕ → Bool}
      → ((i : ℕ) → waiting i ≡ true → dormants n s.thread i ≡ true)
      → k.Requeues 1 limit waiting woken moved
      → Step k n s (record s { thread = requeue woken moved s.thread })

-- The mutex as `fastsync_mutex_init` leaves it, with every thread outside.
pub data Reach (k : Futex) (n : ℕ) : System → Type 0 where
  start :
      (old : ℕ) {state : ℕ}
      → fastsync_mutex_init false old ≡ (0, state)
      → Reach k n (record { state = state; thread = λ _. outside })
  later : {s t : System} → Reach k n s → Step k n s t → Reach k n t
