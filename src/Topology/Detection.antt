-- ===== src/Topology/Detection.antt =====
-- The whole of `reeact_get_topo_sysfs` (src/utils/reeact_topology.c) on a homogeneous machine.
use native.Mathlib.Nat.{mul-div_cancel}
use reeact_v.Prelude.{
  ℕ, zero, suc, ◌+◌, ◌*◌, ◌<◌, ◌≡◌, refl, ap, ◌∙◌, true, false, Option, some, List, [], ◌∷◌, arith,
  ◌==◌, tally, get_elem?,
}
use reeact_v.Topology.Outcome.{ok, bind, Array}
use reeact_v.Topology.Machine.{Machine, online_node_list, online_cpu_list, value_list}
use reeact_v.Topology.Sysfs.{
  Topology, Mark, smt, id, is_smt, Marks, count, cell_of, mark_cores, divided, blank, map_nodes,
  map_cores, reeact_get_topo_sysfs,
}
use reeact_v.Topology.Marking.{Classes, mark_cores_lem, one_if}
use reeact_v.Topology.Cores.{cores_in, MarkedBy, NodeLists, Mapped, map_nodes_cores}
use reeact_v.Topology.Sockets.{Packages, rank, package_of_lem, count_sockets}
use reeact_v.Topology.Seats.{house_nodes}

-- Ids that were read are no marks yet.
unmarked : (ids : List ℕ) (j : ℕ) → j < count ids → is_smt (cell_of id smt ids j) ≡ false
unfolding count cell_of
unmarked [] j lt = absurd (omega arith)
unmarked (x ∷ ids) zero lt = refl
unmarked (x ∷ ids) (suc j) lt = unmarked ids j (omega arith)

divided_mul : (a b : ℕ) → 0 < b → divided (a * b) b ≡ ok a
unfolding divided
divided_mul a b pos =
    let whole : (b == 0) ≡ false = ground (arith, pos) in rw (whole, mul-div_cancel a pos)

-- A machine of identical sockets, nodes and cores, whose files can be read: `lead` is the first
-- context of each physical core, `contexts` lists each node's, `socket` is each node's.
pub record Homogeneous (m : Machine) (sockets nodes cores total : ℕ) (lead : ℕ → ℕ)
    (siblings contexts : ℕ → List ℕ) (socket : ℕ → ℕ) : Type 0 where
  pub some_socket : 0 < sockets
  pub some_node : 0 < nodes
  pub some_core : 0 < cores
  pub node_ids : List ℕ
  pub nodes_online : value_list m online_node_list ≡ ok node_ids
  pub nodes_counted : count node_ids ≡ sockets * nodes
  pub cpu_ids : List ℕ
  pub cpus_online : value_list m online_cpu_list ≡ ok cpu_ids
  pub cpus_counted : count cpu_ids ≡ total
  pub classes : Classes m total lead siblings
  pub cores_counted : tally one_if total (λ i. lead i == i) ≡ sockets * nodes * cores
  pub lists : NodeLists m lead total contexts (sockets * nodes) cores
  pub packages : Packages m contexts socket (sockets * nodes) sockets nodes
  pub space : (size : ℕ) → m.malloc size ≡ true

-- What it means that a topology is the machine's.
pub record TopologyOf (sockets nodes cores : ℕ) (lead : ℕ → ℕ) (contexts : ℕ → List ℕ)
    (socket : ℕ → ℕ) (t : Topology) : Type 0 where
  pub socket_cnt : t.socket_cnt ≡ sockets
  pub node_cnt : t.node_cnt ≡ nodes
  pub core_cnt : t.core_cnt ≡ cores
  pub sizes : (t.nodes.size ≡ sockets * nodes) × (t.cores.size ≡ sockets * nodes * cores)
  -- the cores of node `i`, in the order of its list
  pub node_cores :
      (i k : ℕ)
      → i < sockets * nodes
      → k < cores
      → t.cores.cell (i * cores + k) ≡ get_elem? (cores_in lead (contexts i)) k
  -- the nodes of each socket, in ascending order
  pub socket_nodes :
      (j : ℕ) → j < sockets * nodes → t.nodes.cell (socket j * nodes + rank socket j) ≡ some j

module _ {m : Machine} {sockets nodes cores total : ℕ} {lead : ℕ → ℕ}
    {siblings contexts : ℕ → List ℕ} {socket : ℕ → ℕ}
    (homogeneous : Homogeneous m sockets nodes cores total lead siblings contexts socket) where
  map_nodes_lem :
      (a : Array (Option ℕ))
      → Mapped lead contexts (sockets * nodes * cores) cores (sockets * nodes) a
      → (t : Topology) × (map_nodes m (sockets * nodes) cores a ≡ ok t)
        × TopologyOf sockets nodes cores lead contexts socket t
  unfolding map_nodes bind
  map_nodes_lem a mapped =
      let reads =
        package_of_lem homogeneous.lists homogeneous.some_core mapped homogeneous.packages in
      let counted =
        count_sockets homogeneous.lists homogeneous.some_core mapped homogeneous.packages
          homogeneous.some_node homogeneous.some_socket in
      let node_cnt : divided (sockets * nodes) sockets ≡ ok nodes =
        ap (λ n. divided n sockets) (grind arith)
        ∙ divided_mul nodes sockets homogeneous.some_socket in
      let (b, e, housed) =
        house_nodes homogeneous.packages a cores reads (blank (sockets * nodes)) refl in
      (
        record { socket_cnt = sockets; node_cnt = nodes; core_cnt = cores; nodes = b; cores = a },
        rw (counted, node_cnt, homogeneous.space (sockets * nodes), e) refl,
        record {
          socket_cnt = refl;
          node_cnt = refl;
          core_cnt = refl;
          sizes = (housed.size, mapped.kept_size);
          node_cores = λ i k lt lt_k. mapped.mapped i k lt lt_k;
          socket_nodes = λ j lt. housed.housed j lt (homogeneous.packages.socket_lt j lt);
        },
      )

  map_cores_lem :
      (marks : Marks)
      → MarkedBy lead total marks.ctx_ids
      → marks.total_core_cnt ≡ sockets * nodes * cores
      → (t : Topology) × (map_cores m (sockets * nodes) marks ≡ ok t)
        × TopologyOf sockets nodes cores lead contexts socket t
  unfolding map_cores bind
  map_cores_lem marks marked counted =
      let some_node : 0 < sockets * nodes =
        grind (arith, homogeneous.some_socket, homogeneous.some_node) in
      let core_cnt : divided (sockets * nodes * cores) (sockets * nodes) ≡ ok cores =
        ap (λ n. divided n (sockets * nodes)) (grind arith)
        ∙ divided_mul cores (sockets * nodes) some_node in
      let (a, e, mapped) =
        map_nodes_cores homogeneous.lists marked (blank (sockets * nodes * cores)) refl in
      let (t, e', whole) = map_nodes_lem a mapped in
      (t, rw (counted, core_cnt, homogeneous.space (sockets * nodes * cores), e) e', whole)

  -- On a machine of identical sockets, nodes and cores whose files can be read and whose
  -- allocations succeed, reeact_get_topo_sysfs ends without an error or an access outside an
  -- array, gives the numbers of sockets, nodes in a socket and cores in a node, and arrays of the
  -- sizes that the numbers ask for, in which the physical cores of each node stand in the order of
  -- the node's list and the nodes of each socket in ascending order.
  pub get_topo_sysfs_homogeneous :
      (t : Topology) × (reeact_get_topo_sysfs m ≡ ok t)
      × TopologyOf sockets nodes cores lead contexts socket t
  unfolding reeact_get_topo_sysfs bind
  get_topo_sysfs_homogeneous =
      let ids : Array Mark = record {
        size = count homogeneous.cpu_ids;
        cell = cell_of id smt homogeneous.cpu_ids;
      } in
      let (s, e, size, counted, cells) =
        mark_cores_lem homogeneous.classes ids homogeneous.cpus_counted
          (λ j lt. unmarked homogeneous.cpu_ids j (omega (arith, lt, homogeneous.cpus_counted))) in
      let (t, e', whole) =
        map_cores_lem s (record { size = size; cells = cells })
          (counted ∙ homogeneous.cores_counted) in
      (
        t,
        rw (homogeneous.nodes_online, homogeneous.cpus_online)
            (ap (λ (n : ℕ). bind (mark_cores m n ids) (map_cores m (count homogeneous.node_ids)))
                homogeneous.cpus_counted
              ∙ ap (λ o. bind o (map_cores m (count homogeneous.node_ids))) e
              ∙ ap (λ n. map_cores m n s) homogeneous.nodes_counted
              ∙ e'),
        whole,
      )
