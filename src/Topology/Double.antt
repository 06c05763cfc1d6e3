-- ===== src/Topology/Double.antt =====
-- A machine with two sockets of one node, each with two cores of two contexts, and the theorem on
-- the whole detection of src/utils/reeact_topology.c at it.
use reeact_v.Prelude.{
  ℕ, zero, suc, ◌+◌, ap, ◌∙◌, Bool, Option, ◌/◌, ◌%◌, ◌<◌, ◌≡◌, refl, true, some, List, [], ◌∷◌,
  arith, ◌==◌, if◌then◌else◌, tally, Bool-cases, inl, inr,
}
use reeact_v.Topology.Outcome.{ok}
use reeact_v.Topology.Machine.{
  Machine, Name, online_node_list, online_cpu_list, context_list, core_list, package_id,
  parsed_line, value_list,
}
use reeact_v.Topology.Sysfs.{Topology, count, reeact_get_topo_sysfs}
use reeact_v.Topology.Marking.{Classes}
use reeact_v.Topology.Detection.{Homogeneous, TopologyOf, get_topo_sysfs_homogeneous}
use reeact_v.Topology.Examples.{digits}

-- The digits of a list of one-digit numbers, with commas.
abbrev pub line_of : List ℕ → List ℕ
line_of [] = 10 ∷ []
line_of (x ∷ xs) = (48 + x) ∷ 44 ∷ line_of xs

abbrev pub contexts : ℕ → List ℕ
contexts node = if node == 0 then 0 ∷ 1 ∷ 4 ∷ 5 ∷ [] else 2 ∷ 3 ∷ 6 ∷ 7 ∷ []

abbrev pub lead : ℕ → ℕ
lead cpu = cpu % 4

abbrev pub siblings : ℕ → List ℕ
siblings cpu = (cpu % 4) ∷ (cpu % 4 + 4) ∷ []

abbrev pub values : Name → List ℕ
values online_node_list = 0 ∷ 1 ∷ []
values online_cpu_list = 0 ∷ 1 ∷ 2 ∷ 3 ∷ 4 ∷ 5 ∷ 6 ∷ 7 ∷ []
values (context_list cpu) = siblings cpu
values (core_list node) = contexts node
values (package_id cpu) = (cpu % 4 / 2) ∷ []

abbrev pub double : Machine
double = record {
  opens = λ name. true;
  getline = λ name. some (line_of (values name));
  parse_value_list_expand = λ line. (0, digits line);
  malloc = λ size. true;
  configured = Bool.false;
  conf_file = Option.none;
}

quarter : (P : ℕ → Type 0) → P 0 → P 1 → P 2 → P 3 → (r : ℕ) → r < 4 → P r
quarter P p0 p1 p2 p3 zero lt = p0
quarter P p0 p1 p2 p3 (suc zero) lt = p1
quarter P p0 p1 p2 p3 (suc (suc zero)) lt = p2
quarter P p0 p1 p2 p3 (suc (suc (suc zero))) lt = p3
quarter P p0 p1 p2 p3 (suc (suc (suc (suc r)))) lt = absurd (omega arith)

siblings_read : (cpu : ℕ) → value_list double (context_list cpu) ≡ ok (siblings cpu)
unfolding value_list
siblings_read cpu =
    quarter (λ r. parsed_line double (some (line_of (r ∷ (r + 4) ∷ []))) ≡ ok (r ∷ (r + 4) ∷ []))
      refl refl refl refl (cpu % 4) (omega arith)

package_read : (cpu : ℕ) → value_list double (package_id cpu) ≡ ok ((cpu % 4 / 2) ∷ [])
unfolding value_list
package_read cpu =
    quarter (λ r. parsed_line double (some (line_of ((r / 2) ∷ []))) ≡ ok ((r / 2) ∷ [])) refl refl
      refl refl (cpu % 4) (omega arith)

contexts_read : (node : ℕ) → value_list double (core_list node) ≡ ok (contexts node)
unfolding value_list
contexts_read node = elim (Bool-cases (node == 0)) [ inl e ↦ rw e | inr e ↦ rw e ]

double-Classes : Classes double 8 lead siblings
double-Classes = record {
  listed = λ i lt. siblings_read i;
  in_class = λ i j lt h. ground arith;
  class_in = λ i j lt lt_j e. ground arith;
  lead_le = λ i. omega arith;
  lead_lead = λ i. omega arith;
}

pub double-Homogeneous : Homogeneous double 2 1 2 8 lead siblings contexts (λ node. node)
unfolding tally count value_list
double-Homogeneous = record {
  some_socket = omega arith;
  some_node = omega arith;
  some_core = omega arith;
  node_ids = values online_node_list;
  nodes_online = refl;
  nodes_counted = refl;
  cpu_ids = values online_cpu_list;
  cpus_online = refl;
  cpus_counted = refl;
  classes = double-Classes;
  cores_counted = refl;
  lists = record {
    listed = λ i lt. contexts_read i;
    inside = λ i c lt h. ground arith;
    full = λ i lt. elim (Bool-cases (i == 0)) [ inl e ↦ rw e refl | inr e ↦ rw e refl ];
  };
  packages = record {
    packaged = λ i c lt h. package_read c ∙ ap (λ s. ok (s ∷ [])) (ground arith);
    socket_lt = λ i lt. lt;
    peopled = λ s lt. ground (arith, lt);
  };
  space = λ size. refl;
}

get_topo_sysfs_homogeneous_example :
    (t : Topology) × (reeact_get_topo_sysfs double ≡ ok t)
    × TopologyOf 2 1 2 lead contexts (λ node. node) t
get_topo_sysfs_homogeneous_example = get_topo_sysfs_homogeneous double-Homogeneous
