-- ===== src/Process.antt =====
-- src/reeact.c and src/reeact.h: the data of the process, the constructor and the destructor of the
-- library.
pub mod Constructor
pub mod Report
pub mod Life
mod Examples
use reeact_v.Prelude.{ℕ, Bool, true, false, Option, none, some, ◌==◌, if◌then◌else◌}
use reeact_v.Pthread.Linker.{Linker}
use reeact_v.Pthread.Policy as Policy
use reeact_v.Pthread.Policy.{Build, reeact_policy_init, reeact_policy_cleanup}
use reeact_v.Pthread.Hooks.{reeact_pthread_hooks_init, reeact_pthread_hooks_cleanup}
use reeact_v.Gomp.{reeact_gomp_hooks_init}
use reeact_v.Topology.Outcome.{Outcome, ok, fails, undefined}
use reeact_v.Topology.Machine.{Machine}
use reeact_v.Topology.Sysfs.{Topology}
use reeact_v.Topology.Conf.{reeact_get_topology}

-- `struct reeact_data`. A pointer is a number. The topology is `none` where none was detected.
pub record ReeactData : Type 0 where
  pub pid : ℕ
  pub proc_name_short : ℕ
  pub proc_name_long : ℕ
  pub policy_data : ℕ
  pub topology : Option Topology

-- `calloc` of the data
abbrev pub zeroed : ReeactData
zeroed = record {
  pid = 0;
  proc_name_short = 0;
  proc_name_long = 0;
  policy_data = 0;
  topology = none;
}

-- What the system gives: whether `calloc` succeeds, `getpid()` and the two names of the program.
pub record Start : Type 0 where
  pub calloc : Bool
  pub pid : ℕ
  pub program_invocation_short_name : ℕ
  pub program_invocation_name : ℕ

-- `rh` is `none` for NULL.
unfoldable pub reeact_per_proc_init : Start → Option ReeactData → ℕ × Option ReeactData
reeact_per_proc_init start none = (1, none)
reeact_per_proc_init start (some rh) = (
  0,
  some (record rh {
    pid = start.pid;
    proc_name_short = start.program_invocation_short_name;
    proc_name_long = start.program_invocation_name;
  }),
)

-- `reeact_handle`
pub data Handle : Type 0 where
  null : Handle
  live : ReeactData → Handle
  freed : Handle

module _ (l : Linker) (b : Build) where
  -- behind the allocation: the results of the initializations are logged at most
  unfoldable pub init_parts :
      Option Topology → Option ReeactData → Policy.Process l → Outcome (Handle × Policy.Process l)
  unfolding reeact_pthread_hooks_init reeact_gomp_hooks_init reeact_policy_init
  init_parts topology none p = undefined
  init_parts topology (some rh) p =
      let (hooks_error, q) = reeact_pthread_hooks_init l p in
      let gomp_error = reeact_gomp_hooks_init 0 in
      let (policy_error, policy_data) = reeact_policy_init b rh.policy_data in
      ok (live (record rh { topology = topology; policy_data = policy_data }), q)

  unfoldable pub with_topology :
      Outcome Topology → Option ReeactData → Policy.Process l → Outcome (Handle × Policy.Process l)
  unfolding init_parts
  with_topology (ok topology) rh p = init_parts (some topology) rh p
  with_topology (fails code) rh p = init_parts none rh p
  with_topology undefined rh p = undefined

  unfoldable pub reeact_init :
      Machine → Start → Policy.Process l → Outcome (Handle × Policy.Process l)
  unfolding reeact_per_proc_init with_topology reeact_get_topology
  reeact_init m start p =
      if start.calloc
      then with_topology (reeact_get_topology false m) (reeact_per_proc_init start (some zeroed)).1
          p
      else ok (null, p)

-- `if(reeact_handle != NULL) free(reeact_handle);`
unfoldable pub free_handle : Handle → Outcome Handle
free_handle null = ok null
free_handle (live rh) = ok freed
free_handle freed = undefined

unfoldable pub reeact_cleanup : Build → Handle → Outcome Handle
unfolding reeact_policy_cleanup reeact_pthread_hooks_cleanup free_handle
reeact_cleanup b handle =
    let policy_error = reeact_policy_cleanup b in
    let hooks_error = reeact_pthread_hooks_cleanup 0 in free_handle handle
