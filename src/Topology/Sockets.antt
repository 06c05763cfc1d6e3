-- ===== src/Topology/Sockets.antt =====
-- The loop of `reeact_get_topo_sysfs` that counts the sockets
-- (src/utils/reeact_topology.c).
use reeact_v.Prelude.{
  ℕ, suc, ◌+◌, ◌*◌, ◌<◌, ◌≤◌, ◌≡◌, inl, inr, refl, ap, ◌∙◌, true, Option, some, List, [], ◌∷◌,
  arith, ltb, ◌==◌, if◌then◌else◌, Bool-cases, ℕ_discrete, dec_lt, length, get_elem?, tally,
  tally_pos,
}
use reeact_v.Topology.Outcome.{row_lt, ok, bind, Array, get, for_below, for_below_lem}
use reeact_v.Topology.Machine.{Machine, package_id, value_list}
use reeact_v.Topology.Sysfs.{package_of, written, head, raise_sockets}
use reeact_v.Topology.Marking.{has, one_if}
use reeact_v.Topology.Cores.{cores_in, own-cores_in, other-cores_in, NodeLists, Mapped}

-- A list of contexts with a physical core has a first one.
first_core :
    (lead : ℕ → ℕ) (xs : List ℕ)
    → 0 < length (cores_in lead xs)
    → (c : ℕ) × (get_elem? (cores_in lead xs) 0 ≡ some c) × (has xs c ≡ true)
first_core lead [] some_core = absurd (omega arith)
first_core lead (x ∷ xs) some_core = elim (Bool-cases (lead x == x)) [
  | inl own ↦ (x, ap (λ l. get_elem? l 0) (own-cores_in lead x xs own), ground arith)
  | inr other ↦
      let (c, e, h) = first_core lead xs (ground (arith, some_core, other)) in
      (c, ap (λ l. get_elem? l 0) (other-cores_in lead x xs other) ∙ e, ground (arith, h))
]

-- Each context of a node reads the package of the node, its socket.
pub record Packages (m : Machine) (contexts : ℕ → List ℕ) (socket : ℕ → ℕ)
    (nodes sockets node_cnt : ℕ) : Type 0 where
  pub packaged :
      (i c : ℕ)
      → i < nodes
      → has (contexts i) c ≡ true
      → value_list m (package_id c) ≡ ok (socket i ∷ [])
  pub socket_lt : (i : ℕ) → i < nodes → socket i < sockets
  -- each socket has `node_cnt` nodes
  pub peopled : (s : ℕ) → s < sockets → tally one_if nodes (λ i. socket i == s) ≡ node_cnt

-- The place of a node on its socket: how many nodes with a smaller id the socket has.
abbrev pub rank : (socket : ℕ → ℕ) → ℕ → ℕ
rank socket j = tally one_if j (λ i. socket i == socket j)

module _ {m : Machine} {lead : ℕ → ℕ} {total : ℕ} {contexts : ℕ → List ℕ} {nodes core_cnt : ℕ}
    (lists : NodeLists m lead total contexts nodes core_cnt) (some_core : 0 < core_cnt)
    {cores : Array (Option ℕ)}
    (mapped : Mapped lead contexts (nodes * core_cnt) core_cnt nodes cores) {socket : ℕ → ℕ}
    {sockets node_cnt : ℕ} (packages : Packages m contexts socket nodes sockets node_cnt) where
  pub package_of_lem : (i : ℕ) → i < nodes → package_of m cores core_cnt i ≡ ok (socket i)
  unfolding package_of bind get written head
  package_of_lem i lt =
      let (c, e, h) = first_core lead (contexts i) (omega (arith, lists.full i lt, some_core)) in
      let cell : cores.cell (i * core_cnt) ≡ some c =
        ap cores.cell (omega arith) ∙ mapped.mapped i 0 lt some_core ∙ e in
      let room : i * core_cnt + 0 < nodes * core_cnt = row_lt lt some_core in
      let fits : ltb (i * core_cnt) cores.size ≡ true = ground (arith, room, mapped.kept_size) in
      rw (fits, cell, packages.packaged i c lt h)

  -- Above every socket so far, and no higher than the sockets.
  record Raised (k socket_cnt : ℕ) : Type 0 where
    above : (i : ℕ) → i < k → socket i < socket_cnt
    below : socket_cnt ≤ sockets

  raise_step :
      (i s : ℕ)
      → i < nodes
      → Raised i s
      → (s' : ℕ) × (raise_sockets m cores core_cnt i s ≡ ok s') × Raised (suc i) s'
  unfolding raise_sockets bind
  raise_step i s lt raised = (
    (if ltb s (socket i + 1) then socket i + 1 else s),
    rw (package_of_lem i lt) refl,
    record {
      above = λ i' lt_i. elim (ℕ_discrete i' i) [
        | yes same ↦ ground (arith, ap socket same)
        | no other ↦ ground (arith, raised.above i' (omega (arith, other)))
      ];
      below = ground (arith, raised.below, packages.socket_lt i lt);
    },
  )

  pub count_sockets :
      0 < node_cnt → 0 < sockets → for_below nodes (raise_sockets m cores core_cnt) 0 ≡ ok sockets
  count_sockets some_node some_socket =
      let (s, e, raised) =
        for_below_lem Raised nodes (raise_sockets m cores core_cnt) 0
          (record { above = λ i lt. absurd (omega arith); below = omega arith })
          (λ i s lt. raise_step i s lt) in
      elim (dec_lt s sockets) [
        | yes short ↦
            let (i, lt, counts) =
              tally_pos one_if nodes (λ i. socket i == s)
                (omega (arith, packages.peopled s short, some_node)) in
            absurd (ground (arith, raised.above i lt, counts))
        | no reached ↦ let same : s ≡ sockets = omega (arith, raised.below) in e ∙ ap ok same
      ]
