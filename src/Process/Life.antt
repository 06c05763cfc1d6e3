-- ===== src/Process/Life.antt =====
-- The life of a process under src/reeact.c: the constructor, the calls, the destructor.
use reeact_v.Prelude.{◌≡◌, refl, List, ap, ◌∙◌, ℕ, true, false, some, if◌then◌else◌}
use reeact_v.Pthread.Calls.{Call, Symbol, symbol}
use reeact_v.Pthread.Linker.{Linker}
use reeact_v.Pthread.Policy.{makefile_build, reeact_policy_init, reeact_policy_cleanup}
use reeact_v.Pthread.Policy as Policy
use reeact_v.Pthread.Hooks.{intercept}
use reeact_v.Pthread.Hooks.Lookup.{Found}
use reeact_v.Topology.Outcome.{ok}
use reeact_v.Topology.Machine.{Machine}
use reeact_v.Topology.Sysfs.{Topology, reeact_get_topo_sysfs}
use reeact_v.Topology.Conf.{reeact_get_topology}
use reeact_v.Topology.Detection.{Homogeneous, TopologyOf, get_topo_sysfs_homogeneous}
use reeact_v.Process.{
  Start, null, live, freed, with_topology, reeact_init, reeact_cleanup, free_handle,
  reeact_per_proc_init, zeroed, ReeactData,
}
use reeact_v.Process.Constructor.{start_transparent}

-- A call that the hooks pass on to the function that dlsym finds for its name.
abbrev pub PassedOn : (l : Linker) → Policy.Process l → Call → l.World → Type 0
PassedOn l q c w =
    (f : l.Code) × (l.find (symbol c) ≡ some f)
    × (intercept l makefile_build c (record q { world = w })
        ≡ some ((l.apply f c w).0, record q { world = (l.apply f c w).1 }))

module _ (l : Linker) (m : Machine) (start : Start) (p : Policy.Process l) where
  started_lem :
      {t : Topology}
      → start.calloc ≡ true
      → reeact_get_topology false m ≡ ok t
      → (rh : ReeactData) × (q : Policy.Process l) × (reeact_init l makefile_build m start p
          ≡ ok (live rh, q))
        × (rh.topology ≡ some t)
        × (rh.pid ≡ start.pid)
  unfolding reeact_init with_topology
  started_lem allocated detected = (
    _,
    _,
    ap
          (λ b.
            if b
            then with_topology l makefile_build (reeact_get_topology false m)
                (reeact_per_proc_init start (some zeroed)).1 p
            else ok (null, p))
          allocated
        ∙ ap (λ o. with_topology l makefile_build o (reeact_per_proc_init start (some zeroed)).1 p)
            detected,
    refl,
    refl,
  )

unconfigured :
    (m : Machine) → m.configured ≡ false → reeact_get_topology false m ≡ reeact_get_topo_sysfs m
unfolding reeact_get_topology
unconfigured m off = rw off refl

-- On a machine of identical sockets, nodes and cores without a configuration file, where dlsym
-- finds all seventeen functions and all allocations succeed, the constructor ends with the process
-- id and the machine's topology in the process data, every intercepted call after it under the
-- Makefile's build runs the function that dlsym finds for its name, with its arguments, and
-- returns what that function returns, and the destructor frees the data.
pub life_cycle :
    (l : Linker) (start : Start) (p : Policy.Process l) {m : Machine}
    {sockets nodes cores total : ℕ} {lead : ℕ → ℕ} {siblings contexts : ℕ → List ℕ} {socket : ℕ → ℕ}
    → Homogeneous m sockets nodes cores total lead siblings contexts socket
    → m.configured ≡ false
    → ((s : Symbol) → Found l s)
    → start.calloc ≡ true
    → (rh : ReeactData) × (q : Policy.Process l) × (t : Topology) × (reeact_init l makefile_build m
          start p
        ≡ ok (live rh, q))
      × (rh.pid ≡ start.pid)
      × (rh.topology ≡ some t)
      × TopologyOf sockets nodes cores lead contexts socket t
      × ((c : Call) (w : l.World) → PassedOn l q c w)
      × (reeact_cleanup makefile_build (live rh) ≡ ok freed)
unfolding reeact_cleanup free_handle
life_cycle l start p {m} homogeneous off every allocated =
    let (t, e, whole) = get_topo_sysfs_homogeneous homogeneous in
    let (rh, q, done, held, named) = started_lem l m start p allocated (unconfigured m off ∙ e) in
    (
      rh,
      q,
      t,
      done,
      named,
      held,
      whole,
      λ c w. start_transparent l m start p every allocated done c w,
      refl,
    )
