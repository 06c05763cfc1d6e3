-- ===== src/Process/Report/Detected.antt =====
-- `reeact_log_topology` of src/reeact.c after `reeact_get_topo_sysfs` of
-- src/utils/reeact_topology.c.
use reeact_v.Prelude.{
  ℕ, zero, suc, ◌+◌, ◌*◌, ◌<◌, ◌≡◌, refl, sym, ap, ◌∙◌, arith, Bool, true, some, List, [], ◌∷◌,
  ◌==◌, ltb, tally, length, get_elem?, dec_lt, Bool-cases, inl, inr,
}
use reeact_v.Topology.Outcome.{Array, ok, get, row_lt}
use reeact_v.Topology.Machine.{Machine}
use reeact_v.Topology.Sysfs.{Topology, reeact_get_topo_sysfs}
use reeact_v.Topology.Marking.{one_if}
use reeact_v.Topology.Cores.{cores_in}
use reeact_v.Topology.Sockets.{rank}
use reeact_v.Topology.Detection.{Homogeneous, TopologyOf, get_topo_sysfs_homogeneous}
use reeact_v.Logging.{Runtime, Log}
use reeact_v.Process.Report.{Complete, reeact_log_topology}
use reeact_v.Process.Report.Bounds.{log_topology_iff}

-- Every rank below the number of members is a member's.
member_ranked :
    (f : ℕ → Bool) (n r : ℕ)
    → r < tally one_if n f
    → (j : ℕ) × (j < n) × (f j ≡ true) × (tally one_if j f ≡ r)
unfolding tally
member_ranked f zero r lt = absurd (omega arith)
member_ranked f (suc n) r lt = elim (dec_lt r (tally one_if n f)) [
  | yes below ↦ let (j, lt_j, is, at) = member_ranked f n r below in (j, omega arith, is, at)
  | no last ↦ elim (Bool-cases (f n)) [
    | inl is ↦ (n, omega arith, is, ground (arith, lt, last, is))
    | inr not ↦ absurd (ground (arith, lt, last, not))
  ]
]

element : (xs : List ℕ) (k : ℕ) → k < length xs → (x : ℕ) × (get_elem? xs k ≡ some x)
element [] k lt = absurd (omega arith)
element (x ∷ xs) zero lt = (x, refl)
element (x ∷ xs) (suc k) lt = element xs k (omega arith)

get_lem : {A : Type 0} (a : Array A) (i : ℕ) {x : A} → i < a.size → a.cell i ≡ x → get a i ≡ ok x
unfolding get
get_lem a i lt e = let fits : ltb i a.size ≡ true = ground (arith, lt) in rw (fits, e) refl

module _ {m : Machine} {sockets nodes cores total : ℕ} {lead : ℕ → ℕ}
    {siblings contexts : ℕ → List ℕ} {socket : ℕ → ℕ}
    (homogeneous : Homogeneous m sockets nodes cores total lead siblings contexts socket) where
  core_cell :
      (t : Topology)
      → TopologyOf sockets nodes cores lead contexts socket t
      → (id k : ℕ) → id < sockets * nodes
      → k < cores
      → (core : ℕ) × (get t.cores (id * cores + k) ≡ ok (some core))
  core_cell t whole id k lt lt_k =
      let (core, e) =
        element (cores_in lead (contexts id)) k
          (omega (arith, homogeneous.lists.full id lt, lt_k)) in
      (
        core,
        get_lem t.cores (id * cores + k) (omega (arith, row_lt lt lt_k, whole.sizes.1))
            (whole.node_cores id k lt lt_k ∙ e),
      )

  node_cell :
      (t : Topology)
      → TopologyOf sockets nodes cores lead contexts socket t
      → (i j : ℕ) → i < sockets
      → j < nodes
      → (id : ℕ) × (id < sockets * nodes) × (get t.nodes (i * nodes + j) ≡ ok (some id))
  node_cell t whole i j lt lt_j =
      let (id, lt_id, here, at) =
        member_ranked (λ n. socket n == i) (sockets * nodes) j
          (omega (arith, homogeneous.packages.peopled i lt, lt_j)) in
      let same : socket id ≡ i = ground (arith, here) in
      let place : socket id * nodes + rank socket id ≡ i * nodes + j =
        ap (λ s. s * nodes + tally one_if id (λ n. socket n == s)) same
        ∙ ap (λ r. i * nodes + r) at in
      (
        id,
        lt_id,
        get_lem t.nodes (i * nodes + j) (omega (arith, row_lt lt lt_j, whole.sizes.0))
            (ap t.nodes.cell (sym place) ∙ whole.socket_nodes id lt_id),
      )

  whole-Complete :
      (t : Topology) → TopologyOf sockets nodes cores lead contexts socket t → Complete t
  whole-Complete t whole = record {
    node_of = λ i j lt lt_j.
        let (id, lt_id, e) =
          node_cell t whole i j (omega (arith, lt, whole.socket_cnt))
            (omega (arith, lt_j, whole.node_cnt)) in
        (
          id,
          ap (λ n. get t.nodes (i * n + j)) whole.node_cnt ∙ e,
          λ k lt_k.
              let (core, e) = core_cell t whole id k lt_id (omega (arith, lt_k, whole.core_cnt)) in
              (core, ap (λ n. get t.cores (id * n + k)) whole.core_cnt ∙ e),
        );
  }

  -- On a machine of identical sockets, nodes and cores whose files can be read and whose
  -- allocations succeed, reeact_get_topo_sysfs finds a topology, and reeact_log_topology writes it
  -- in a debug build without an access outside its arrays or of a cell that was not written.
  pub detected_report :
      (r : Runtime) (l : Log)
      → (t : Topology) × (l' : Log) × (reeact_get_topo_sysfs m ≡ ok t)
        × (reeact_log_topology r t true l ≡ ok l')
  detected_report r l =
      let (t, e, whole) = get_topo_sysfs_homogeneous homogeneous in
      let (l', logged) = (log_topology_iff r t l).1 (whole-Complete t whole) in (t, l', e, logged)
