-- ===== src/Pthread/Hooks/Transparency.antt =====
-- The interception of src/pthread_hooks with the policy of src/policies/reeact_policy.c changes
-- nothing but where the functions are found.
use reeact_v.Prelude.{
  ℕ, ◌≡◌, ◌↔◌, refl, ap, ◌∙◌, Bool, true, false, Option, none, some, get_elem?, arith,
  if◌then◌else◌,
}
use reeact_v.Pthread.Calls.{Call, Symbol, symbol, mutex_lock, mutex_unlock, create}
use reeact_v.Pthread.Linker.{Linker}
use reeact_v.Pthread.Policy.{
  makefile_build, Process, invoke, ensured_lock, ensured_unlock, ensure_mutex_lock,
  ensure_mutex_unlock,
}
use reeact_v.Pthread.Hooks.{
  intercept, lookups, err_load_original_function, reeact_pthread_hooks_init,
}
use reeact_v.Pthread.Hooks.Lookup.{
  Found, look_up, AllFound-pending, pending-AllFound, Found-AllFound, AllFound-get,
}

position : Symbol → ℕ
position Symbol.pthread_create = 0
position Symbol.pthread_barrier_init = 1
position Symbol.pthread_barrier_wait = 2
position Symbol.pthread_barrier_destroy = 3
position Symbol.pthread_mutex_init = 4
position Symbol.pthread_mutex_lock = 5
position Symbol.pthread_mutex_trylock = 6
position Symbol.pthread_mutex_unlock = 7
position Symbol.pthread_mutex_consistent = 8
position Symbol.pthread_mutex_destroy = 9
position Symbol.pthread_mutex_timedlock = 10
position Symbol.pthread_cond_init = 11
position Symbol.pthread_cond_destroy = 12
position Symbol.pthread_cond_signal = 13
position Symbol.pthread_cond_broadcast = 14
position Symbol.pthread_cond_wait = 15
position Symbol.pthread_cond_timedwait = 16

-- No function is forgotten.
looked_up : (s : Symbol) → get_elem? lookups (position s) ≡ some s
unfolding position
looked_up Symbol.pthread_create = refl
looked_up _ = refl

module _ (l : Linker) (p : Process l) where
  -- Reeact_pthread_hooks_init returns 0 exactly when dlsym finds all seventeen functions, whatever
  -- error was pending before the call.
  pub init-zero_iff : ((reeact_pthread_hooks_init l p).0 ≡ 0) ↔ ((s : Symbol) → Found l s)
  unfolding reeact_pthread_hooks_init
  init-zero_iff = (
    λ ok s.
        AllFound-get l lookups (position s) s
          (pending-AllFound l lookups cleared (l.dlerror_clears p.world) (quiet ok)) (looked_up s),
    λ every.
        let silent =
          AllFound-pending l lookups cleared (l.dlerror_clears p.world)
            (Found-AllFound l every lookups) in
        ap (λ e. if e then err_load_original_function else 0) (l.dlerror_reports _ ∙ silent),
  )
    where
      cleared : l.World
      cleared = (l.dlerror p.world).1

      quiet :
          (if (l.dlerror (look_up l lookups cleared)).0 then err_load_original_function else 0) ≡ 0
          → l.pending (look_up l lookups cleared) ≡ false
      quiet ok = ground (arith, l.dlerror_reports (look_up l lookups cleared))

  -- The process with the pointers that the initialization left.
  abbrev pub initialised : l.World → Process l
  initialised w = record { real = (reeact_pthread_hooks_init l p).1.real; world = w }

  -- After reeact_pthread_hooks_init has returned 0, every intercepted call under the Makefile's
  -- build runs the function that dlsym finds for the name of the call, with the arguments of the
  -- call, returns what that function returns, and changes no pointer.
  pub intercept_transparent :
      (reeact_pthread_hooks_init l p).0 ≡ 0
      → (c : Call) (w : l.World)
      → (f : l.Code) × (l.find (symbol c) ≡ some f)
        × (intercept l makefile_build c (initialised w)
            ≡ some ((l.apply f c w).0, initialised (l.apply f c w).1))
  unfolding reeact_pthread_hooks_init intercept
  intercept_transparent ok (mutex_lock mutex) w =
      let (f, e) = init-zero_iff.0 ok Symbol.pthread_mutex_lock in
      (
        f,
        e,
        ap
              (λ o.
                let r = ensured_lock l o (initialised w) in
                invoke l r.real.real_pthread_mutex_lock (mutex_lock mutex) r)
              e
            ∙ ap (λ o. invoke l o (mutex_lock mutex) (initialised w)) e,
      )
  intercept_transparent ok (mutex_unlock mutex) w =
      let (f, e) = init-zero_iff.0 ok Symbol.pthread_mutex_unlock in
      (
        f,
        e,
        ap
              (λ o.
                let r = ensured_unlock l o (initialised w) in
                invoke l r.real.real_pthread_mutex_unlock (mutex_unlock mutex) r)
              e
            ∙ ap (λ o. invoke l o (mutex_unlock mutex) (initialised w)) e,
      )
  intercept_transparent ok c w =
      let (f, e) = init-zero_iff.0 ok (symbol c) in (f, e, ap (λ o. invoke l o c (initialised w)) e)

-- Before the initialization, with every pointer NULL.
abbrev pub early : (l : Linker) → l.World → Process l
early l w = record {
  real = record {
    real_pthread_create = none;
    real_pthread_barrier_init = none;
    real_pthread_barrier_wait = none;
    real_pthread_barrier_destroy = none;
    real_pthread_mutex_init = none;
    real_pthread_mutex_lock = none;
    real_pthread_mutex_trylock = none;
    real_pthread_mutex_timedlock = none;
    real_pthread_mutex_unlock = none;
    real_pthread_mutex_consistent = none;
    real_pthread_mutex_destroy = none;
    real_pthread_cond_init = none;
    real_pthread_cond_signal = none;
    real_pthread_cond_broadcast = none;
    real_pthread_cond_destroy = none;
    real_pthread_cond_wait = none;
    real_pthread_cond_timedwait = none;
  };
  world = w;
}

-- Lock and unlock look their original up themselves.
abbrev pub is_lazy : Call → Bool
is_lazy (mutex_lock _) = true
is_lazy (mutex_unlock _) = true
is_lazy _ = false

early_crash :
    (l : Linker) (c : Call) (w : l.World)
    → is_lazy c ≡ false
    → intercept l makefile_build c (early l w) ≡ none
unfolding intercept
early_crash l (create thread attr start_routine arg) w eager = refl
early_crash l (mutex_lock mutex) w eager = cc
early_crash l (mutex_unlock mutex) w eager = cc
early_crash l c w eager = refl

-- What the call returns and the world that it leaves.
abbrev pub Observed : (l : Linker) → Option (ℕ × Process l) → ℕ × l.World → Type 0
Observed l r (code, world) = (q : Process l) × (r ≡ some (code, q)) × (q.world ≡ world)

early_lazy :
    (l : Linker) (c : Call) (w : l.World) (f : l.Code)
    → is_lazy c ≡ true
    → l.find (symbol c) ≡ some f
    → Observed l (intercept l makefile_build c (early l w)) (l.apply f c (l.dlsym (symbol c) w))
unfolding intercept
early_lazy l (mutex_lock mutex) w f lazy e =
    let q = ensure_mutex_lock l (early l w) in
    (
      record q { world = (l.apply f (mutex_lock mutex) q.world).1 },
      ap (λ o. invoke l o (mutex_lock mutex) q) e,
      refl,
    )
early_lazy l (mutex_unlock mutex) w f lazy e =
    let q = ensure_mutex_unlock l (early l w) in
    (
      record q { world = (l.apply f (mutex_unlock mutex) q.world).1 },
      ap (λ o. invoke l o (mutex_unlock mutex) q) e,
      refl,
    )
early_lazy l c w f lazy e = cc

-- Before the initialization of the hooks, an intercepted call under the Makefile's build that is
-- neither mutex lock nor mutex unlock goes through a NULL pointer, and a lock or unlock whose
-- function dlsym finds runs it and returns its value.
pub early_call :
    (l : Linker) (c : Call) (w : l.World)
    → (is_lazy c ≡ false → intercept l makefile_build c (early l w) ≡ none)
      × ((f : l.Code)
          → is_lazy c ≡ true
          → l.find (symbol c) ≡ some f
          → Observed l
              (intercept l makefile_build c (early l w))
              (l.apply f c (l.dlsym (symbol c) w)))
early_call l c w = (early_crash l c w, early_lazy l c w)
