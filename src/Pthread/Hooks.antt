-- ===== src/Pthread/Hooks.antt =====
-- src/pthread_hooks: the functions that replace those of the pthread library, and the
-- initialization that looks the originals up.
pub mod Lookup
pub mod Transparency
pub mod Examples
use mathlib.Core.List.{foldl}
use reeact_v.Prelude.{ℕ, Bool, Option, List, [], ◌∷◌, if◌then◌else◌}
use reeact_v.Pthread.Calls.{
  Call, Symbol, create, barrier_init, barrier_wait, barrier_destroy, mutex_init, mutex_lock,
  mutex_trylock, mutex_timedlock, mutex_unlock, mutex_consistent, mutex_destroy, cond_init,
  cond_signal, cond_broadcast, cond_destroy, cond_wait, cond_timedwait,
}
use reeact_v.Pthread.Linker.{Linker}
use reeact_v.Pthread.Policy.{
  Build, Originals, Process, Cmd, reeact_policy_pthread_create, reeact_policy_pthread_barrier_init,
  reeact_policy_pthread_barrier_wait, reeact_policy_pthread_barrier_destroy,
  reeact_policy_pthread_mutex_init, reeact_policy_pthread_mutex_lock,
  reeact_policy_pthread_mutex_trylock, reeact_policy_pthread_mutex_timedlock,
  reeact_policy_pthread_mutex_unlock, reeact_policy_pthread_mutex_consistent,
  reeact_policy_pthread_mutex_destroy, reeact_policy_pthread_cond_init,
  reeact_policy_pthread_cond_signal, reeact_policy_pthread_cond_broadcast,
  reeact_policy_pthread_cond_destroy, reeact_policy_pthread_cond_wait,
  reeact_policy_pthread_cond_timedwait,
}

module _ (l : Linker) (b : Build) where
  unfoldable pub pthread_create : (thread attr start_routine arg : ℕ) → Cmd l
  unfolding reeact_policy_pthread_create
  pthread_create thread attr start_routine arg =
      reeact_policy_pthread_create l b thread attr start_routine arg

  unfoldable pub pthread_barrier_init : (barrier attr count : ℕ) → Cmd l
  unfolding reeact_policy_pthread_barrier_init
  pthread_barrier_init barrier attr count =
      reeact_policy_pthread_barrier_init l b barrier attr count

  unfoldable pub pthread_barrier_wait : (barrier : ℕ) → Cmd l
  unfolding reeact_policy_pthread_barrier_wait
  pthread_barrier_wait barrier = reeact_policy_pthread_barrier_wait l b barrier

  unfoldable pub pthread_barrier_destroy : (barrier : ℕ) → Cmd l
  unfolding reeact_policy_pthread_barrier_destroy
  pthread_barrier_destroy barrier = reeact_policy_pthread_barrier_destroy l b barrier

  unfoldable pub pthread_mutex_init : (mutex attr : ℕ) → Cmd l
  unfolding reeact_policy_pthread_mutex_init
  pthread_mutex_init mutex attr = reeact_policy_pthread_mutex_init l b mutex attr

  unfoldable pub pthread_mutex_lock : (mutex : ℕ) → Cmd l
  unfolding reeact_policy_pthread_mutex_lock
  pthread_mutex_lock mutex = reeact_policy_pthread_mutex_lock l b mutex

  unfoldable pub pthread_mutex_trylock : (mutex : ℕ) → Cmd l
  unfolding reeact_policy_pthread_mutex_trylock
  pthread_mutex_trylock mutex = reeact_policy_pthread_mutex_trylock l b mutex

  unfoldable pub pthread_mutex_timedlock : (mutex abs_timeout : ℕ) → Cmd l
  unfolding reeact_policy_pthread_mutex_timedlock
  pthread_mutex_timedlock mutex abs_timeout =
      reeact_policy_pthread_mutex_timedlock l b mutex abs_timeout

  unfoldable pub pthread_mutex_unlock : (mutex : ℕ) → Cmd l
  unfolding reeact_policy_pthread_mutex_unlock
  pthread_mutex_unlock mutex = reeact_policy_pthread_mutex_unlock l b mutex

  unfoldable pub pthread_mutex_consistent : (mutex : ℕ) → Cmd l
  unfolding reeact_policy_pthread_mutex_consistent
  pthread_mutex_consistent mutex = reeact_policy_pthread_mutex_consistent l b mutex

  unfoldable pub pthread_mutex_destroy : (mutex : ℕ) → Cmd l
  unfolding reeact_policy_pthread_mutex_destroy
  pthread_mutex_destroy mutex = reeact_policy_pthread_mutex_destroy l b mutex

  unfoldable pub pthread_cond_init : (cond attr : ℕ) → Cmd l
  unfolding reeact_policy_pthread_cond_init
  pthread_cond_init cond attr = reeact_policy_pthread_cond_init l b cond attr

  unfoldable pub pthread_cond_signal : (cond : ℕ) → Cmd l
  unfolding reeact_policy_pthread_cond_signal
  pthread_cond_signal cond = reeact_policy_pthread_cond_signal l b cond

  unfoldable pub pthread_cond_broadcast : (cond : ℕ) → Cmd l
  unfolding reeact_policy_pthread_cond_broadcast
  pthread_cond_broadcast cond = reeact_policy_pthread_cond_broadcast l b cond

  unfoldable pub pthread_cond_destroy : (cond : ℕ) → Cmd l
  unfolding reeact_policy_pthread_cond_destroy
  pthread_cond_destroy cond = reeact_policy_pthread_cond_destroy l b cond

  unfoldable pub pthread_cond_wait : (cond mutex : ℕ) → Cmd l
  unfolding reeact_policy_pthread_cond_wait
  pthread_cond_wait cond mutex = reeact_policy_pthread_cond_wait l b cond mutex

  unfoldable pub pthread_cond_timedwait : (cond mutex abstime : ℕ) → Cmd l
  unfolding reeact_policy_pthread_cond_timedwait
  pthread_cond_timedwait cond mutex abstime =
      reeact_policy_pthread_cond_timedwait l b cond mutex abstime

  -- A call of the program, which the replacement of its function receives.
  unfoldable pub intercept : Call → Cmd l
  unfolding pthread_create pthread_barrier_init pthread_barrier_wait pthread_barrier_destroy
      pthread_mutex_init pthread_mutex_lock pthread_mutex_trylock pthread_mutex_timedlock
      pthread_mutex_unlock pthread_mutex_consistent pthread_mutex_destroy pthread_cond_init
      pthread_cond_signal pthread_cond_broadcast pthread_cond_destroy pthread_cond_wait
      pthread_cond_timedwait
  intercept (create thread attr start_routine arg) = pthread_create thread attr start_routine arg
  intercept (barrier_init barrier attr count) = pthread_barrier_init barrier attr count
  intercept (barrier_wait barrier) = pthread_barrier_wait barrier
  intercept (barrier_destroy barrier) = pthread_barrier_destroy barrier
  intercept (mutex_init mutex attr) = pthread_mutex_init mutex attr
  intercept (mutex_lock mutex) = pthread_mutex_lock mutex
  intercept (mutex_trylock mutex) = pthread_mutex_trylock mutex
  intercept (mutex_timedlock mutex abs_timeout) = pthread_mutex_timedlock mutex abs_timeout
  intercept (mutex_unlock mutex) = pthread_mutex_unlock mutex
  intercept (mutex_consistent mutex) = pthread_mutex_consistent mutex
  intercept (mutex_destroy mutex) = pthread_mutex_destroy mutex
  intercept (cond_init cond attr) = pthread_cond_init cond attr
  intercept (cond_signal cond) = pthread_cond_signal cond
  intercept (cond_broadcast cond) = pthread_cond_broadcast cond
  intercept (cond_destroy cond) = pthread_cond_destroy cond
  intercept (cond_wait cond mutex) = pthread_cond_wait cond mutex
  intercept (cond_timedwait cond mutex abstime) = pthread_cond_timedwait cond mutex abstime

-- The lookups of `reeact_pthread_hooks_init`, in order.
abbrev pub lookups : List Symbol
lookups =
    Symbol.pthread_create ∷ Symbol.pthread_barrier_init ∷ Symbol.pthread_barrier_wait
    ∷ Symbol.pthread_barrier_destroy ∷ Symbol.pthread_mutex_init ∷ Symbol.pthread_mutex_lock
    ∷ Symbol.pthread_mutex_trylock ∷ Symbol.pthread_mutex_unlock ∷ Symbol.pthread_mutex_consistent
    ∷ Symbol.pthread_mutex_destroy ∷ Symbol.pthread_mutex_timedlock ∷ Symbol.pthread_cond_init
    ∷ Symbol.pthread_cond_destroy ∷ Symbol.pthread_cond_signal ∷ Symbol.pthread_cond_broadcast
    ∷ Symbol.pthread_cond_wait ∷ Symbol.pthread_cond_timedwait ∷ []

-- REEACT_PTHREAD_HOOKS_ERR_LOAD_ORIGINAL_FUNCTION
abbrev pub err_load_original_function : ℕ
err_load_original_function = 1

module _ (l : Linker) where
  -- the pointers after the lookups
  unfoldable pub found : Originals l
  found = record {
    real_pthread_create = l.find Symbol.pthread_create;
    real_pthread_barrier_init = l.find Symbol.pthread_barrier_init;
    real_pthread_barrier_wait = l.find Symbol.pthread_barrier_wait;
    real_pthread_barrier_destroy = l.find Symbol.pthread_barrier_destroy;
    real_pthread_mutex_init = l.find Symbol.pthread_mutex_init;
    real_pthread_mutex_lock = l.find Symbol.pthread_mutex_lock;
    real_pthread_mutex_trylock = l.find Symbol.pthread_mutex_trylock;
    real_pthread_mutex_timedlock = l.find Symbol.pthread_mutex_timedlock;
    real_pthread_mutex_unlock = l.find Symbol.pthread_mutex_unlock;
    real_pthread_mutex_consistent = l.find Symbol.pthread_mutex_consistent;
    real_pthread_mutex_destroy = l.find Symbol.pthread_mutex_destroy;
    real_pthread_cond_init = l.find Symbol.pthread_cond_init;
    real_pthread_cond_signal = l.find Symbol.pthread_cond_signal;
    real_pthread_cond_broadcast = l.find Symbol.pthread_cond_broadcast;
    real_pthread_cond_destroy = l.find Symbol.pthread_cond_destroy;
    real_pthread_cond_wait = l.find Symbol.pthread_cond_wait;
    real_pthread_cond_timedwait = l.find Symbol.pthread_cond_timedwait;
  }

  -- `dlerror()`, the lookups, `dlerror()` again
  unfoldable pub reeact_pthread_hooks_init : Process l → ℕ × Process l
  unfolding found
  reeact_pthread_hooks_init p =
      let cleared = (l.dlerror p.world).1 in
      let (error, world) = l.dlerror (foldl (λ w s. l.dlsym s w) cleared lookups) in
      (if error then err_load_original_function else 0, record { real = found; world = world })

-- Returns 0, whatever the data.
unfoldable pub reeact_pthread_hooks_cleanup : (data_pointer : ℕ) → ℕ
reeact_pthread_hooks_cleanup data_pointer = 0
