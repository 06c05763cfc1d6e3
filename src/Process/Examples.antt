-- ===== src/Process/Examples.antt =====
-- The theorems on src/reeact.c at a linker that finds every function, on a machine without sysfs.
use reeact_v.Prelude.{◌≡◌, ◌↔◌, refl, true, false, none, some, [], ◌∷◌}
use reeact_v.Pthread.Calls.{Call}
use reeact_v.Pthread.Policy.{Process, makefile_build}
use reeact_v.Pthread.Hooks.Examples.{recorder, cold}
use reeact_v.Topology.Machine.{Machine}
use reeact_v.Topology.Outcome.{ok}
use reeact_v.Topology.Sysfs.{Topology, reeact_get_topo_sysfs}
use reeact_v.Topology.Conf.{reeact_get_topo_conf}
use reeact_v.Topology.Detection.{TopologyOf}
use reeact_v.Topology.Double.{double, lead, contexts, double-Homogeneous}
use reeact_v.Topology.Examples.{digits}
use reeact_v.Logging.{Runtime, Log}
use reeact_v.Process.Life.{PassedOn, life_cycle}
use reeact_v.Process.Report.{Complete, reeact_log_topology}
use reeact_v.Process.Report.Bounds.{log_topology_iff}
use reeact_v.Process.Report.Detected.{detected_report}
use reeact_v.Process.{Start, ReeactData, live, freed, reeact_init, reeact_cleanup}

abbrev bare : Machine
bare = record {
  opens = λ name. false;
  getline = λ name. none;
  parse_value_list_expand = λ line. (1, []);
  malloc = λ size. true;
  configured = false;
  conf_file = none;
}

-- A machine with a configuration file.
abbrev shortened : Machine
shortened = record bare {
  parse_value_list_expand = λ line. (0, digits line);
  configured = true;
  conf_file = some (
      (b's' ∷ b'1' ∷ b',' ∷ b'2' ∷ b',' ∷ b'1' ∷ b'\n' ∷ [])
      ∷ (b'n' ∷ b'0' ∷ b'\n' ∷ [])
      ∷ (b'c' ∷ b'0' ∷ b',' ∷ b'1' ∷ b'\n' ∷ [])
      ∷ []);
}

abbrev begin : Start
begin = record {
  calloc = true;
  pid = 42;
  program_invocation_short_name = 1;
  program_invocation_name = 2;
}

life_cycle_example :
    (rh : ReeactData) × (q : Process recorder) × (t : Topology) × (reeact_init recorder
        makefile_build double begin cold
      ≡ ok (live rh, q))
    × (rh.pid ≡ begin.pid)
    × (rh.topology ≡ some t)
    × TopologyOf 2 1 2 lead contexts (λ node. node) t
    × ((c : Call) (w : recorder.World) → PassedOn recorder q c w)
    × (reeact_cleanup makefile_build (live rh) ≡ ok freed)
life_cycle_example = life_cycle recorder begin cold double-Homogeneous refl (λ s. (s, refl)) refl

-- A program "a" whose C library knows two errors.
abbrev runtime : Runtime
runtime = record {
  getpid = 42;
  program_invocation_short_name = b'a' ∷ [];
  sys_errlist = record { size = 2; cell = λ _. [] };
  errno_after = λ errno. errno;
}

abbrev quiet : Log
quiet = record { pid = 0; errno = 0; stderr = [] }

-- A topology whose list of nodes is too short for its counts.
abbrev short : Topology
short = record {
  socket_cnt = 1;
  node_cnt = 2;
  core_cnt = 1;
  nodes = record { size = 1; cell = λ _. some 0 };
  cores = record { size = 2; cell = λ i. some i };
}

log_topology_iff_example :
    ((l' : Log) × (reeact_log_topology runtime short true quiet ≡ ok l')) ↔ Complete short
log_topology_iff_example = log_topology_iff runtime short quiet

-- It is what a configuration file with the lines "s1,2,1", "n0" and "c0,1" gives.
short_configured :
    (t : Topology) × (reeact_get_topo_conf shortened ≡ ok t) × (t.nodes.size ≡ 1) × (t.node_cnt ≡ 2)
unfolding reeact_get_topo_conf
short_configured = (_, refl, refl, refl)

detected_report_example :
    (t : Topology) × (l' : Log) × (reeact_get_topo_sysfs double ≡ ok t)
    × (reeact_log_topology runtime t true quiet ≡ ok l')
detected_report_example = detected_report double-Homogeneous runtime quiet
