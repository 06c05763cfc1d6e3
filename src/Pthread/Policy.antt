-- ===== src/Pthread/Policy.antt =====
-- src/policies/reeact_policy.c: what the policy does with each intercepted call.
use reeact_v.Prelude.{ℕ, Bool, true, false, Option, none, some, if◌then◌else◌}
use reeact_v.Pthread.Calls.{
  Call, Symbol, create, barrier_init, barrier_wait, barrier_destroy, mutex_init, mutex_lock,
  mutex_trylock, mutex_timedlock, mutex_unlock, mutex_consistent, mutex_destroy, cond_init,
  cond_signal, cond_broadcast, cond_destroy, cond_wait, cond_timedwait,
}
use reeact_v.Pthread.Linker.{Linker}

-- The macros that the file tests: `_REEACT_DEFAULT_POLICY_`, and `_REEACT_DEFAULT_POLICY` without
-- the last underscore, which two functions test instead.
pub record Build : Type 0 where
  pub default_policy_ : Bool
  pub default_policy : Bool

-- The build of the Makefile.
abbrev pub makefile_build : Build
makefile_build = record { default_policy_ = true; default_policy = false }

-- The function pointers of src/pthread_hooks/pthread_hooks.c, `none` for NULL.
pub record Originals (l : Linker) : Type 0 where
  pub real_pthread_create : Option l.Code
  pub real_pthread_barrier_init : Option l.Code
  pub real_pthread_barrier_wait : Option l.Code
  pub real_pthread_barrier_destroy : Option l.Code
  pub real_pthread_mutex_init : Option l.Code
  pub real_pthread_mutex_lock : Option l.Code
  pub real_pthread_mutex_trylock : Option l.Code
  pub real_pthread_mutex_timedlock : Option l.Code
  pub real_pthread_mutex_unlock : Option l.Code
  pub real_pthread_mutex_consistent : Option l.Code
  pub real_pthread_mutex_destroy : Option l.Code
  pub real_pthread_cond_init : Option l.Code
  pub real_pthread_cond_signal : Option l.Code
  pub real_pthread_cond_broadcast : Option l.Code
  pub real_pthread_cond_destroy : Option l.Code
  pub real_pthread_cond_wait : Option l.Code
  pub real_pthread_cond_timedwait : Option l.Code

pub record Process (l : Linker) : Type 0 where
  pub real : Originals l
  pub world : l.World

-- A command returns a value and the process, or `none`: a call through a NULL pointer.
abbrev pub Cmd : Linker → Type 0
Cmd l = Process l → Option (ℕ × Process l)

module _ (l : Linker) where
  -- a call through a function pointer
  unfoldable pub invoke : Option l.Code → Call → Cmd l
  invoke none c p = none
  invoke (some f) c p =
      let (code, world) = l.apply f c p.world in some (code, record p { world = world })

  -- `#ifdef _REEACT_DEFAULT_POLICY_`: the first command, or `return 0`
  unfoldable pub if_default : Build → Cmd l → Cmd l
  if_default b command p = if b.default_policy_ then command p else some (0, p)

  -- `if(real_pthread_mutex_lock == NULL) real_pthread_mutex_lock = dlsym(RTLD_NEXT, …)`
  unfoldable pub ensured_lock : Option l.Code → Process l → Process l
  ensured_lock none p = record {
    real = record p.real { real_pthread_mutex_lock = l.find Symbol.pthread_mutex_lock };
    world = l.dlsym Symbol.pthread_mutex_lock p.world;
  }
  ensured_lock (some f) p = p

  unfoldable pub ensure_mutex_lock : Process l → Process l
  unfolding ensured_lock
  ensure_mutex_lock p = ensured_lock p.real.real_pthread_mutex_lock p

  -- the same for unlock
  unfoldable pub ensured_unlock : Option l.Code → Process l → Process l
  ensured_unlock none p = record {
    real = record p.real { real_pthread_mutex_unlock = l.find Symbol.pthread_mutex_unlock };
    world = l.dlsym Symbol.pthread_mutex_unlock p.world;
  }
  ensured_unlock (some f) p = p

  unfoldable pub ensure_mutex_unlock : Process l → Process l
  unfolding ensured_unlock
  ensure_mutex_unlock p = ensured_unlock p.real.real_pthread_mutex_unlock p

module _ (l : Linker) (b : Build) where
  unfoldable pub reeact_policy_pthread_create : (thread attr start_routine arg : ℕ) → Cmd l
  unfolding invoke if_default
  reeact_policy_pthread_create thread attr start_routine arg =
      if_default l b
        λ p. invoke l p.real.real_pthread_create (create thread attr start_routine arg) p

  unfoldable pub reeact_policy_pthread_barrier_init : (barrier attr count : ℕ) → Cmd l
  unfolding invoke if_default
  reeact_policy_pthread_barrier_init barrier attr count =
      if_default l b
        λ p. invoke l p.real.real_pthread_barrier_init (barrier_init barrier attr count) p

  unfoldable pub reeact_policy_pthread_barrier_wait : (barrier : ℕ) → Cmd l
  unfolding invoke if_default
  reeact_policy_pthread_barrier_wait barrier =
      if_default l b λ p. invoke l p.real.real_pthread_barrier_wait (barrier_wait barrier) p

  unfoldable pub reeact_policy_pthread_barrier_destroy : (barrier : ℕ) → Cmd l
  unfolding invoke if_default
  reeact_policy_pthread_barrier_destroy barrier =
      if_default l b λ p. invoke l p.real.real_pthread_barrier_destroy (barrier_destroy barrier) p

  unfoldable pub reeact_policy_pthread_mutex_init : (mutex attr : ℕ) → Cmd l
  unfolding invoke if_default
  reeact_policy_pthread_mutex_init mutex attr =
      if_default l b λ p. invoke l p.real.real_pthread_mutex_init (mutex_init mutex attr) p

  unfoldable pub reeact_policy_pthread_mutex_lock : (mutex : ℕ) → Cmd l
  unfolding invoke if_default ensure_mutex_lock
  reeact_policy_pthread_mutex_lock mutex = if_default l b λ p.
      let q = ensure_mutex_lock l p in invoke l q.real.real_pthread_mutex_lock (mutex_lock mutex) q

  unfoldable pub reeact_policy_pthread_mutex_trylock : (mutex : ℕ) → Cmd l
  unfolding invoke if_default
  reeact_policy_pthread_mutex_trylock mutex =
      if_default l b λ p. invoke l p.real.real_pthread_mutex_trylock (mutex_trylock mutex) p

  unfoldable pub reeact_policy_pthread_mutex_timedlock : (mutex abs_timeout : ℕ) → Cmd l
  unfolding invoke if_default
  reeact_policy_pthread_mutex_timedlock mutex abs_timeout =
      if_default l b
        λ p. invoke l p.real.real_pthread_mutex_timedlock (mutex_timedlock mutex abs_timeout) p

  unfoldable pub reeact_policy_pthread_mutex_unlock : (mutex : ℕ) → Cmd l
  unfolding invoke if_default ensure_mutex_unlock
  reeact_policy_pthread_mutex_unlock mutex = if_default l b λ p.
      let q = ensure_mutex_unlock l p in
      invoke l q.real.real_pthread_mutex_unlock (mutex_unlock mutex) q

  unfoldable pub reeact_policy_pthread_mutex_consistent : (mutex : ℕ) → Cmd l
  unfolding invoke if_default
  reeact_policy_pthread_mutex_consistent mutex =
      if_default l b λ p. invoke l p.real.real_pthread_mutex_consistent (mutex_consistent mutex) p

  unfoldable pub reeact_policy_pthread_mutex_destroy : (mutex : ℕ) → Cmd l
  unfolding invoke if_default
  reeact_policy_pthread_mutex_destroy mutex =
      if_default l b λ p. invoke l p.real.real_pthread_mutex_destroy (mutex_destroy mutex) p

  unfoldable pub reeact_policy_pthread_cond_init : (cond attr : ℕ) → Cmd l
  unfolding invoke if_default
  reeact_policy_pthread_cond_init cond attr =
      if_default l b λ p. invoke l p.real.real_pthread_cond_init (cond_init cond attr) p

  unfoldable pub reeact_policy_pthread_cond_signal : (cond : ℕ) → Cmd l
  unfolding invoke if_default
  reeact_policy_pthread_cond_signal cond =
      if_default l b λ p. invoke l p.real.real_pthread_cond_signal (cond_signal cond) p

  unfoldable pub reeact_policy_pthread_cond_broadcast : (cond : ℕ) → Cmd l
  unfolding invoke if_default
  reeact_policy_pthread_cond_broadcast cond =
      if_default l b λ p. invoke l p.real.real_pthread_cond_broadcast (cond_broadcast cond) p

  unfoldable pub reeact_policy_pthread_cond_destroy : (cond : ℕ) → Cmd l
  unfolding invoke if_default
  reeact_policy_pthread_cond_destroy cond =
      if_default l b λ p. invoke l p.real.real_pthread_cond_destroy (cond_destroy cond) p

  unfoldable pub reeact_policy_pthread_cond_wait : (cond mutex : ℕ) → Cmd l
  unfolding invoke if_default
  reeact_policy_pthread_cond_wait cond mutex =
      if_default l b λ p. invoke l p.real.real_pthread_cond_wait (cond_wait cond mutex) p

  unfoldable pub reeact_policy_pthread_cond_timedwait : (cond mutex abstime : ℕ) → Cmd l
  unfolding invoke if_default
  reeact_policy_pthread_cond_timedwait cond mutex abstime =
      if_default l b
        λ p. invoke l p.real.real_pthread_cond_timedwait (cond_timedwait cond mutex abstime) p

-- The policy data of `struct reeact_data`, a pointer. Both functions return 0 in every build.
unfoldable pub reeact_policy_init : Build → (policy_data : ℕ) → ℕ × ℕ
reeact_policy_init b policy_data = if b.default_policy then (0, 0) else (0, policy_data)

unfoldable pub reeact_policy_cleanup : Build → ℕ
reeact_policy_cleanup b = if b.default_policy then 0 else 0
