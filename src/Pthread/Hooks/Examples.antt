-- ===== src/Pthread/Hooks/Examples.antt =====
-- The theorems on the hooks of src/pthread_hooks at a linker that finds every function, and whose
-- functions return 7 and record the call.
use reeact_v.Prelude.{◌≡◌, ◌↔◌, refl, true, false, none, some, List, [], ◌∷◌}
use reeact_v.Pthread.Calls.{Call, Symbol, barrier_wait, mutex_lock}
use reeact_v.Pthread.Linker.{Linker}
use reeact_v.Pthread.Policy.{makefile_build, Process}
use reeact_v.Pthread.Hooks.{intercept, reeact_pthread_hooks_init}
use reeact_v.Pthread.Hooks.Lookup.{Found}
use reeact_v.Pthread.Hooks.Transparency.{
  init-zero_iff, initialised, intercept_transparent, early, is_lazy, Observed, early_call,
}

pub always_found : {s : Symbol} → some s ≡ none → ⊥
always_found missing = cc

abbrev pub recorder : Linker
recorder = record {
  World = List Call;
  Code = Symbol;
  find = some;
  dlsym = λ s w. w;
  dlerror = λ w. (false, w);
  apply = λ f c w. (7, c ∷ w);
  pending = λ w. false;
  dlerror_reports = λ w. refl;
  dlerror_clears = λ w. refl;
  dlsym_fails = λ s w missing. absurd (always_found missing);
  dlsym_succeeds = λ s f w e. refl;
}

abbrev pub cold : Process recorder
cold = early recorder []

init-zero_iff_example :
    ((reeact_pthread_hooks_init recorder cold).0 ≡ 0) ↔ ((s : Symbol) → Found recorder s)
init-zero_iff_example = init-zero_iff recorder cold

intercept_transparent_example :
    (f : Symbol) × (some Symbol.pthread_barrier_wait ≡ some f)
    × (intercept recorder makefile_build (barrier_wait 5) (initialised recorder cold [])
        ≡ some (7, initialised recorder cold (barrier_wait 5 ∷ [])))
unfolding reeact_pthread_hooks_init
intercept_transparent_example = intercept_transparent recorder cold refl (barrier_wait 5) []

early_call_example :
    (is_lazy (mutex_lock 5) ≡ false
      → intercept recorder makefile_build (mutex_lock 5) (early recorder []) ≡ none)
    × ((f : Symbol)
        → is_lazy (mutex_lock 5) ≡ true
        → some Symbol.pthread_mutex_lock ≡ some f
        → Observed recorder
            (intercept recorder makefile_build (mutex_lock 5) (early recorder []))
            (7, mutex_lock 5 ∷ []))
early_call_example = early_call recorder (mutex_lock 5) []
