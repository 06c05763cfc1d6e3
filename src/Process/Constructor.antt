-- ===== src/Process/Constructor.antt =====
-- The constructor of src/reeact.c and the hooks.
use mathlib.Core.Path.{subst}
use reeact_v.Prelude.{◌≡◌, sym, ap, ◌∙◌, true, false, some, if◌then◌else◌}
use reeact_v.Pthread.Calls.{Call, Symbol, symbol}
use reeact_v.Pthread.Linker.{Linker}
use reeact_v.Pthread.Policy.{Build, makefile_build}
use reeact_v.Pthread.Policy as Policy
use reeact_v.Pthread.Hooks.{intercept, reeact_pthread_hooks_init}
use reeact_v.Pthread.Hooks.Lookup.{Found}
use reeact_v.Pthread.Hooks.Transparency.{init-zero_iff, intercept_transparent}
use reeact_v.Topology.Outcome.{Outcome, ok, fails, undefined}
use reeact_v.Topology.Machine.{Machine}
use reeact_v.Topology.Sysfs.{Topology}
use reeact_v.Topology.Conf.{reeact_get_topology}
use reeact_v.Process.{Start, Handle, null, with_topology, reeact_init, zeroed, ReeactData}

second :
    {A B : Type 0} {x x' : A} {y y' : B}
    → ◌≡◌ {A = Outcome (A × B)} (ok (x, y)) (ok (x', y'))
    → y ≡ y'
second e = cc e

module _ (l : Linker) (m : Machine) (start : Start) (p : Policy.Process l) where
  with_topology_lem :
      (o : Outcome Topology) (rh : ReeactData) {h : Handle} {q : Policy.Process l}
      → with_topology l makefile_build o (some rh) p ≡ ok (h, q)
      → q ≡ (reeact_pthread_hooks_init l p).1
  unfolding with_topology
  with_topology_lem (ok topology) rh e = sym (second e)
  with_topology_lem (fails code) rh e = sym (second e)
  with_topology_lem undefined rh e = cc

  -- the data after `reeact_per_proc_init`
  named : ReeactData
  named = record zeroed {
    pid = start.pid;
    proc_name_short = start.program_invocation_short_name;
    proc_name_long = start.program_invocation_name;
  }

  init_lem :
      {h : Handle} {q : Policy.Process l}
      → start.calloc ≡ true
      → reeact_init l makefile_build m start p ≡ ok (h, q)
      → q ≡ (reeact_pthread_hooks_init l p).1
  unfolding reeact_init named
  init_lem allocated done = with_topology_lem (reeact_get_topology false m) named (
      ap
        (λ b.
          if b
          then with_topology l makefile_build (reeact_get_topology false m) (some named) p
          else ok (null, p))
        (sym allocated)
      ∙ done)

  -- Where dlsym finds all seventeen functions, the allocation of the process data succeeds and the
  -- constructor ends, with or without a topology, every intercepted call under the Makefile's
  -- build runs the function that dlsym finds for its name, with its arguments, and returns what
  -- that function returns.
  pub start_transparent :
      {h : Handle} {q : Policy.Process l}
      → ((s : Symbol) → Found l s)
      → start.calloc ≡ true
      → reeact_init l makefile_build m start p ≡ ok (h, q)
      → (c : Call) (w : l.World)
      → (f : l.Code) × (l.find (symbol c) ≡ some f)
        × (intercept l makefile_build c (record q { world = w })
            ≡ some ((l.apply f c w).0, record q { world = (l.apply f c w).1 }))
  start_transparent every allocated done c w =
      subst
        (λ q.
          (f : l.Code) × (l.find (symbol c) ≡ some f)
          × (intercept l makefile_build c (record q { world = w })
              ≡ some ((l.apply f c w).0, record q { world = (l.apply f c w).1 })))
        (sym (init_lem allocated done))
        (intercept_transparent l p ((init-zero_iff l p).1 every) c w)
