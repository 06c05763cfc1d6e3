-- ===== src/Topology/Seats.antt =====
-- The loop of `reeact_get_topo_sysfs` that maps nodes to sockets (src/utils/reeact_topology.c).
use reeact_v.Prelude.{
  ℕ, suc, ◌+◌, ◌*◌, ◌<◌, ◌≡◌, refl, sym, ap, ◌∙◌, true, false, Option, some, List, arith, ltb, ◌==◌,
  assign, ℕ_discrete, tally, tally_up,
}
use reeact_v.Topology.Outcome.{row_lt, ok, bind, Array, set, for_below, for_below_lem}
use reeact_v.Topology.Machine.{Machine}
use reeact_v.Topology.Sysfs.{Filled, package_of, place_on_socket, fill_socket}
use reeact_v.Topology.Marking.{one_if}
use reeact_v.Topology.Sockets.{Packages, rank}

-- In the round of socket `i`, after the nodes below `j`.
record Peopled (socket : ℕ → ℕ) (node_cnt : ℕ) (before : Array (Option ℕ)) (i j : ℕ) (s : Filled)
    : Type 0 where
  size : s.array.size ≡ before.size
  filled : s.k ≡ tally one_if j (λ j'. socket j' == i)
  kept : (p : ℕ) → p < i * node_cnt → s.array.cell p ≡ before.cell p
  ranked :
      (j' : ℕ)
      → j' < j
      → socket j' ≡ i
      → (rank socket j' < s.k) × (s.array.cell (i * node_cnt + rank socket j') ≡ some j')

-- After the rounds below `k` each node of the first sockets has its place.
pub record Housed (socket : ℕ → ℕ) (sockets node_cnt nodes : ℕ) (k : ℕ) (a : Array (Option ℕ))
    : Type 0 where
  pub size : a.size ≡ sockets * node_cnt
  pub housed :
      (j : ℕ) → j < nodes → socket j < k → a.cell (socket j * node_cnt + rank socket j) ≡ some j

module _ {m : Machine} {contexts : ℕ → List ℕ} {socket : ℕ → ℕ} {nodes sockets node_cnt : ℕ}
    (packages : Packages m contexts socket nodes sockets node_cnt) (cores : Array (Option ℕ))
    (core_cnt : ℕ)
    (reads : (i : ℕ) → i < nodes → package_of m cores core_cnt i ≡ ok (socket i)) where
  -- A node's place is one of its socket's.
  rank_lt : (j : ℕ) → j < nodes → rank socket j < node_cnt
  unfolding tally
  rank_lt j lt = ground (
    arith,
    tally_up one_if (suc j) nodes (λ i. socket i == socket j),
    packages.peopled (socket j) (packages.socket_lt j lt),
    lt,
  )

  -- The node has a place of socket `i`.
  seat_node :
      (before : Array (Option ℕ)) (i j : ℕ) (s : Filled)
      → before.size ≡ sockets * node_cnt
      → j < nodes
      → socket j ≡ i
      → Peopled socket node_cnt before i j s
      → (s' : Filled) × (place_on_socket m cores core_cnt node_cnt i j s ≡ ok s')
        × Peopled socket node_cnt before i (suc j) s'
  unfolding place_on_socket bind set tally
  seat_node before i j s size lt same seated =
      let own : (socket j == i) ≡ true = ground (arith, same) in
      let place : rank socket j ≡ s.k =
        ap (λ s. tally one_if j (λ j'. socket j' == s)) same ∙ sym seated.filled in
      let room : socket j * node_cnt + rank socket j < sockets * node_cnt =
        row_lt (packages.socket_lt j lt) (rank_lt j lt) in
      let fits : ltb (socket j * node_cnt + s.k) s.array.size ≡ true =
        ground (arith, room, place, size, seated.size) in
      let at : socket j * node_cnt + s.k ≡ i * node_cnt + s.k =
        ap (λ (t : ℕ). t * node_cnt + s.k) same in
      (
        record {
          array = record s.array {
            cell = assign s.array.cell (socket j * node_cnt + s.k) (some j);
          };
          k = s.k + 1;
        },
        rw (reads j lt, own, fits) refl,
        record {
          size = seated.size;
          filled = ground (arith, seated.filled, own);
          kept = λ p lt_p. ground (arith, seated.kept p, at);
          ranked = λ j' lt_j' same'. elim (ℕ_discrete j' j) [
            | yes e ↦ (
              ground (arith, ap (rank socket) e, place),
              ground (arith, ap (rank socket) e, place, at, e),
            )
            | no other ↦
                let (below, held) = seated.ranked j' (omega (arith, other)) same' in
                (omega (arith, below), ground (arith, below, held, at))
          ];
        },
      )

  pass_node :
      (before : Array (Option ℕ)) (i j : ℕ) (s : Filled)
      → j < nodes
      → (socket j == i) ≡ false
      → Peopled socket node_cnt before i j s
      → (place_on_socket m cores core_cnt node_cnt i j s ≡ ok s)
        × Peopled socket node_cnt before i (suc j) s
  unfolding place_on_socket bind tally
  pass_node before i j s lt other seated = (
    rw (reads j lt, other) refl,
    record {
      size = seated.size;
      filled = ground (arith, seated.filled, other);
      kept = seated.kept;
      ranked = λ j' lt_j' same. elim (ℕ_discrete j' j) [
        | yes e ↦ absurd (ground (arith, other, same, ap socket e))
        | no apart ↦ seated.ranked j' (omega (arith, apart)) same
      ];
    },
  )

  house_socket :
      (i : ℕ) (a : Array (Option ℕ))
      → Housed socket sockets node_cnt nodes i a
      → (a' : Array (Option ℕ)) × (fill_socket m cores core_cnt node_cnt nodes i a ≡ ok a')
        × Housed socket sockets node_cnt nodes (suc i) a'
  unfolding fill_socket bind
  house_socket i a housed =
      let (s, e, seated) =
        for_below_lem (Peopled socket node_cnt a i) nodes
          (place_on_socket m cores core_cnt node_cnt i) (record { array = a; k = 0 })
          (record {
            size = refl;
            filled = unfold tally in refl;
            kept = λ p lt. refl;
            ranked = λ j lt. absurd (omega arith);
          })
          (λ j s lt seated. elim (ℕ_discrete (socket j) i) [
            | yes same ↦ seat_node a i j s housed.size lt same seated
            | no other ↦
                let (e, seated') = pass_node a i j s lt (ground (arith, other)) seated in
                (s, e, seated')
          ]) in
      (
        s.array,
        ap (λ o. bind o (λ filled. ok filled.array)) e,
        record {
          size = seated.size ∙ housed.size;
          housed = λ j lt lt_k. elim (ℕ_discrete (socket j) i) [
            | yes same ↦
                ap (λ (t : ℕ). s.array.cell (t * node_cnt + rank socket j)) same
                ∙ (seated.ranked j lt same).1
            | no other ↦
                let earlier : socket j < i = omega (arith, lt_k, other) in
                let before : socket j * node_cnt + rank socket j < i * node_cnt =
                  row_lt earlier (rank_lt j lt) in
                seated.kept (socket j * node_cnt + rank socket j) before
                ∙ housed.housed j lt earlier
          ];
        },
      )

  pub house_nodes :
      (a : Array (Option ℕ))
      → a.size ≡ sockets * node_cnt
      → (a' : Array (Option ℕ)) × (for_below sockets (fill_socket m cores core_cnt node_cnt nodes) a
          ≡ ok a')
        × Housed socket sockets node_cnt nodes sockets a'
  house_nodes a size =
      for_below_lem (Housed socket sockets node_cnt nodes) sockets
        (fill_socket m cores core_cnt node_cnt nodes) a
        (record { size = size; housed = λ j lt lt_k. absurd (omega arith) })
        (λ i a lt. house_socket i a)
