-- ===== src/Pthread/Linker.antt =====
-- The dynamic linker and the library with the original functions, which are not part of the
-- repository: a parameter, with what dlsym(3) and dlerror(3) document.
use reeact_v.Prelude.{ℕ, ◌≡◌, Bool, true, false, Option, none, some}
use reeact_v.Pthread.Calls.{Call, Symbol}

pub record Linker : Type 1 where
  -- all state outside this library, and the functions that can be called
  pub World : Type 0
  pub Code : Type 0
  -- what `dlsym(RTLD_NEXT, name)` finds, NULL if nothing, and what the call does
  pub find : Symbol → Option Code
  pub dlsym : Symbol → World → World
  -- whether `dlerror()` returns a message, and what the call does
  pub dlerror : World → Bool × World
  -- a function called, and the value that it returns
  pub apply : Code → Call → World → ℕ × World
  -- An error since the last `dlerror()` is reported, and only such an error.
  pub pending : World → Bool
  pub dlerror_reports : (w : World) → (dlerror w).0 ≡ pending w
  pub dlerror_clears : (w : World) → pending (dlerror w).1 ≡ false
  pub dlsym_fails : (s : Symbol) (w : World) → find s ≡ none → pending (dlsym s w) ≡ true
  pub dlsym_succeeds :
      (s : Symbol) (f : Code) (w : World) → find s ≡ some f → pending (dlsym s w) ≡ pending w
