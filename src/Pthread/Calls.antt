-- ===== src/Pthread/Calls.antt =====
-- The pthread calls that src/pthread_hooks intercepts, with their arguments, and the names that
-- src/pthread_hooks/pthread_hooks.c looks the originals up by.
use reeact_v.Prelude.{ℕ}

-- A pointer is a number, 0 for NULL.
pub data Call : Type 0 where
  create : (thread attr start_routine arg : ℕ) → Call
  barrier_init : (barrier attr count : ℕ) → Call
  barrier_wait : (barrier : ℕ) → Call
  barrier_destroy : (barrier : ℕ) → Call
  mutex_init : (mutex attr : ℕ) → Call
  mutex_lock : (mutex : ℕ) → Call
  mutex_trylock : (mutex : ℕ) → Call
  mutex_timedlock : (mutex abs_timeout : ℕ) → Call
  mutex_unlock : (mutex : ℕ) → Call
  mutex_consistent : (mutex : ℕ) → Call
  mutex_destroy : (mutex : ℕ) → Call
  cond_init : (cond attr : ℕ) → Call
  cond_signal : (cond : ℕ) → Call
  cond_broadcast : (cond : ℕ) → Call
  cond_destroy : (cond : ℕ) → Call
  cond_wait : (cond mutex : ℕ) → Call
  cond_timedwait : (cond mutex abstime : ℕ) → Call

pub data Symbol : Type 0 where
  pthread_create pthread_barrier_init pthread_barrier_wait pthread_barrier_destroy : Symbol
  pthread_mutex_init pthread_mutex_lock pthread_mutex_trylock pthread_mutex_timedlock : Symbol
  pthread_mutex_unlock pthread_mutex_consistent pthread_mutex_destroy : Symbol
  pthread_cond_init pthread_cond_signal pthread_cond_broadcast pthread_cond_destroy : Symbol
  pthread_cond_wait pthread_cond_timedwait : Symbol

-- The function that a call is for.
abbrev pub symbol : Call → Symbol
symbol (create _ _ _ _) = pthread_create
symbol (barrier_init _ _ _) = pthread_barrier_init
symbol (barrier_wait _) = pthread_barrier_wait
symbol (barrier_destroy _) = pthread_barrier_destroy
symbol (mutex_init _ _) = pthread_mutex_init
symbol (mutex_lock _) = pthread_mutex_lock
symbol (mutex_trylock _) = pthread_mutex_trylock
symbol (mutex_timedlock _ _) = pthread_mutex_timedlock
symbol (mutex_unlock _) = pthread_mutex_unlock
symbol (mutex_consistent _) = pthread_mutex_consistent
symbol (mutex_destroy _) = pthread_mutex_destroy
symbol (cond_init _ _) = pthread_cond_init
symbol (cond_signal _) = pthread_cond_signal
symbol (cond_broadcast _) = pthread_cond_broadcast
symbol (cond_destroy _) = pthread_cond_destroy
symbol (cond_wait _ _) = pthread_cond_wait
symbol (cond_timedwait _ _ _) = pthread_cond_timedwait
