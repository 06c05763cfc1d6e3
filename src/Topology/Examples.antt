-- ===== src/Topology/Examples.antt =====
-- A machine with four contexts on two cores, one node and one socket, and the theorems on
-- src/utils/reeact_topology.c at it.
use reeact_v.Prelude.{
  ℕ, ◌-◌, ◌%◌, ◌<◌, ◌≡◌, ◌⊎◌, refl, true, false, some, List, [], ◌∷◌, arith, ◌==◌, if◌then◌else◌,
  tally, Bool-cases, inl, inr,
}
use reeact_v.Topology.Outcome.{ok, fails, Array}
use reeact_v.Topology.Machine.{
  Machine, Name, online_node_list, online_cpu_list, context_list, core_list, package_id, value_list,
}
use reeact_v.Topology.Sysfs.{
  Topology, Mark, core, smt, id, Marks, mark_cores, reeact_get_topo_sysfs,
}
use reeact_v.Topology.Conf.{is_digit, reeact_get_topo_conf, reeact_get_topology}
use reeact_v.Topology.Marking.{Classes, mark_cores_lem}
use reeact_v.Topology.Choice.{get_topology_configured}
use reeact_v.Topology.File.{Entry, counts, nodes, cores, comment, lines_of, AllFit}
use reeact_v.Topology.File.Reading.{configured_topology}
use reeact_v.Topology.Conf.{array_of}

-- A parser of lists of one-digit numbers.
abbrev pub digits : List ℕ → List ℕ
digits [] = []
digits (b ∷ rest) = let values = digits rest in if is_digit b then (b - 48) ∷ values else values

-- "0", "0,1,2,3", "0,2" or "1,3"
abbrev sysfs_line : Name → List ℕ
sysfs_line online_node_list = 48 ∷ 10 ∷ []
sysfs_line online_cpu_list = 48 ∷ 44 ∷ 49 ∷ 44 ∷ 50 ∷ 44 ∷ 51 ∷ 10 ∷ []
sysfs_line (context_list cpu) =
    if cpu % 2 == 0 then 48 ∷ 44 ∷ 50 ∷ 10 ∷ [] else 49 ∷ 44 ∷ 51 ∷ 10 ∷ []
sysfs_line (core_list node) = 48 ∷ 44 ∷ 49 ∷ 44 ∷ 50 ∷ 44 ∷ 51 ∷ 10 ∷ []
sysfs_line (package_id cpu) = 48 ∷ 10 ∷ []

-- Its configuration file has the line "s1,1" only.
abbrev small : Machine
small = record {
  opens = λ name. true;
  getline = λ name. some (sysfs_line name);
  parse_value_list_expand = λ line. (0, digits line);
  malloc = λ size. true;
  configured = true;
  conf_file = some ((115 ∷ 49 ∷ 44 ∷ 49 ∷ 10 ∷ []) ∷ []);
}

abbrev siblings : ℕ → List ℕ
siblings cpu = if cpu % 2 == 0 then 0 ∷ 2 ∷ [] else 1 ∷ 3 ∷ []

abbrev lead : ℕ → ℕ
lead cpu = cpu % 2

abbrev unmarked : Array Mark
unmarked = record { size = 4; cell = id }

siblings_read : (i : ℕ) → value_list small (context_list i) ≡ ok (siblings i)
unfolding value_list
siblings_read i = elim (Bool-cases (i % 2 == 0)) [ inl e ↦ rw e | inr e ↦ rw e ]

small-Classes : Classes small 4 lead siblings
small-Classes = record {
  listed = λ i lt. siblings_read i;
  in_class = λ i j lt h. ground arith;
  class_in = λ i j lt lt_j e. ground arith;
  lead_le = λ i. omega arith;
  lead_lead = λ i. omega arith;
}

mark_cores_lem_example :
    (s : Marks) × (mark_cores small 4 unmarked ≡ ok s)
    × (s.ctx_ids.size ≡ 4)
    × (s.total_core_cnt ≡ 2)
    × ((j : ℕ) → j < 4 → s.ctx_ids.cell j ≡ (if lead j == j then core else smt))
unfolding tally
mark_cores_lem_example = mark_cores_lem small-Classes unmarked refl (λ j lt. refl)

-- The whole detection.
small_topology :
    (t : Topology) × (reeact_get_topo_sysfs small ≡ ok t)
    × (t.socket_cnt ≡ 1)
    × (t.node_cnt ≡ 1)
    × (t.core_cnt ≡ 2)
    × (t.cores.cell 0 ≡ some 0)
    × (t.cores.cell 1 ≡ some 1)
unfolding reeact_get_topo_sysfs
small_topology = (_, refl, refl, refl, refl, refl, refl)

get_topology_configured_example :
    ((t : Topology) × (reeact_get_topo_conf small ≡ ok t)
      × (0 < t.socket_cnt)
      × (0 < t.node_cnt)
      × (0 < t.core_cnt)
      × (reeact_get_topology false small ≡ ok t))
    ⊎ ((reeact_get_topo_conf small ≡ fails 2)
        × (reeact_get_topology false small ≡ reeact_get_topo_sysfs small))
get_topology_configured_example = get_topology_configured small refl

-- "s: 1,2,4", "# x", "n 0,1", "c 0", "c 0,1,2,3"
abbrev described : List Entry
described =
    counts (58 ∷ 32 ∷ []) (49 ∷ 44 ∷ 50 ∷ 44 ∷ 52 ∷ []) 1 2 4
    ∷ comment (35 ∷ 32 ∷ 120 ∷ [])
    ∷ nodes (32 ∷ []) (48 ∷ 44 ∷ 49 ∷ []) (0 ∷ 1 ∷ [])
    ∷ cores (32 ∷ []) (48 ∷ []) (0 ∷ [])
    ∷ cores (32 ∷ []) (48 ∷ 44 ∷ 49 ∷ 44 ∷ 50 ∷ 44 ∷ 51 ∷ []) (0 ∷ 1 ∷ 2 ∷ 3 ∷ [])
    ∷ []

abbrev written : Machine
written = record small { conf_file = some (lines_of described) }

described-AllFit : AllFit written described
described-AllFit = (
  (refl, refl, refl, refl),
  (
    (refl, refl),
    ((refl, refl, refl, refl), ((refl, refl, refl, refl), ((refl, refl, refl, refl), tt))),
  ),
)

configured_topology_example :
    reeact_get_topology false written
    ≡ ok (record {
      socket_cnt = 1;
      node_cnt = 2;
      core_cnt = 4;
      nodes = array_of (0 ∷ 1 ∷ []);
      cores = array_of (0 ∷ 1 ∷ 2 ∷ 3 ∷ []);
    })
configured_topology_example =
    configured_topology written described 1 2 4 (0 ∷ 1 ∷ []) (0 ∷ 1 ∷ 2 ∷ 3 ∷ []) refl refl
      described-AllFit refl refl refl (omega arith) (omega arith) (omega arith)
