-- ===== src/Topology/Cores.antt =====
-- The loop of `reeact_get_topo_sysfs` that maps physical cores to nodes
-- (src/utils/reeact_topology.c).
use reeact_v.Prelude.{
  ℕ, zero, suc, ◌+◌, ◌*◌, ◌<◌, ◌≤◌, ◌≡◌, inl, inr, refl, sym, ap, ◌∙◌, true, false, Option, some,
  List, [], ◌∷◌, arith, ltb, ◌==◌, if◌then◌else◌, assign, Bool-cases, ℕ_discrete, length, get_elem?,
}
use reeact_v.Topology.Outcome.{
  row_lt, ok, bind, Array, get, set, for_below, for_below_lem, for_each,
}
use reeact_v.Topology.Machine.{Machine, core_list, value_list}
use reeact_v.Topology.Sysfs.{Mark, core, smt, is_core, Filled, place_core, place_node}
use reeact_v.Topology.Marking.{has}

-- The members of a list of contexts that are physical cores, in the list's order.
abbrev pub cores_in : (lead : ℕ → ℕ) → List ℕ → List ℕ
cores_in lead [] = []
cores_in lead (x ∷ xs) = let rest = cores_in lead xs in if lead x == x then x ∷ rest else rest

pub own-cores_in :
    (lead : ℕ → ℕ) (x : ℕ) (xs : List ℕ)
    → (lead x == x) ≡ true
    → cores_in lead (x ∷ xs) ≡ x ∷ cores_in lead xs
own-cores_in lead x xs own = rw own

pub other-cores_in :
    (lead : ℕ → ℕ) (x : ℕ) (xs : List ℕ)
    → (lead x == x) ≡ false
    → cores_in lead (x ∷ xs) ≡ cores_in lead xs
other-cores_in lead x xs other = rw other

-- The marks that the loop before this one leaves.
pub record MarkedBy (lead : ℕ → ℕ) (total : ℕ) (ids : Array Mark) : Type 0 where
  pub size : ids.size ≡ total
  pub cells : (j : ℕ) → j < total → ids.cell j ≡ (if lead j == j then core else smt)

-- After the loop over `xs` their cores follow one another, and the cells before are as they were.
record Placed (lead : ℕ → ℕ) (base : ℕ) (xs : List ℕ) (s s' : Filled) : Type 0 where
  size : s'.array.size ≡ s.array.size
  kept : (p : ℕ) → p < base + s.k → s'.array.cell p ≡ s.array.cell p
  placed :
      (i : ℕ)
      → i < length (cores_in lead xs)
      → s'.array.cell (base + s.k + i) ≡ get_elem? (cores_in lead xs) i

abbrev with_core : (base x : ℕ) → Filled → Filled
with_core base x s = record {
  array = record s.array { cell = assign s.array.cell (base + s.k) (some x) };
  k = s.k + 1;
}

module _ {lead : ℕ → ℕ} {total : ℕ} {ids : Array Mark} (marks : MarkedBy lead total ids)
    (base : ℕ) where
  abbrev Places : List ℕ → Filled → Type 0
  Places xs s =
      (s' : Filled) × (for_each xs (place_core ids base) s ≡ ok s') × Placed lead base xs s s'

  -- One context.
  skip_smt :
      (x : ℕ) (s : Filled) → x < total → (lead x == x) ≡ false → place_core ids base x s ≡ ok s
  unfolding place_core bind get
  skip_smt x s lt other =
      let fits : ltb x ids.size ≡ true = ground (arith, marks.size, lt) in
      let mark : is_core (ids.cell x) ≡ false = ground (arith, marks.cells x lt, other) in
      rw (fits, mark)

  take_core :
      (x : ℕ) (s : Filled)
      → x < total
      → (lead x == x) ≡ true
      → base + s.k < s.array.size
      → place_core ids base x s ≡ ok (with_core base x s)
  unfolding place_core bind get set
  take_core x s lt own room =
      let fits : ltb x ids.size ≡ true = ground (arith, marks.size, lt) in
      let mark : is_core (ids.cell x) ≡ true = ground (arith, marks.cells x lt, own) in
      let space : ltb (base + s.k) s.array.size ≡ true = ground (arith, room) in
      rw (fits, mark, space)

  place_context :
      (x : ℕ) (xs : List ℕ) (s : Filled)
      → x < total
      → base + s.k + length (cores_in lead (x ∷ xs)) ≤ s.array.size
      → ((s' : Filled) → base + s'.k + length (cores_in lead xs) ≤ s'.array.size → Places xs s')
      → Places (x ∷ xs) s
  unfolding for_each bind
  place_context x xs s lt room rest = elim (Bool-cases (lead x == x)) [
    | inl own ↦
        let more : base + s.k + suc (length (cores_in lead xs)) ≤ s.array.size =
          ground (arith, room, own) in
        let (s', e, h) = rest (with_core base x s) (omega (arith, more)) in
        (
          s',
          rw (take_core x s lt own (omega (arith, more))) e,
          record {
            size = h.size;
            kept = λ p lt_p. ground (arith, h.kept p);
            placed = λ i lt_i.
                first_placed x xs s s' h i
                  (omega (arith, lt_i, ap length (own-cores_in lead x xs own)))
                ∙ ap (λ l. get_elem? l i) (sym (own-cores_in lead x xs own));
          },
        )
    | inr other ↦
        let (s', e, h) = rest s (ground (arith, room, other)) in
        (
          s',
          rw (skip_smt x s lt other) e,
          record {
            size = h.size;
            kept = h.kept;
            placed = λ i lt_i.
                h.placed i (omega (arith, lt_i, ap length (other-cores_in lead x xs other)))
                ∙ ap (λ l. get_elem? l i) (sym (other-cores_in lead x xs other));
          },
        )
  ]
    where
      first_placed :
          (x : ℕ) (xs : List ℕ) (s s' : Filled)
          → Placed lead base xs (with_core base x s) s'
          → (i : ℕ) → i < suc (length (cores_in lead xs))
          → s'.array.cell (base + s.k + i) ≡ get_elem? (x ∷ cores_in lead xs) i
      first_placed x xs s s' h zero lt_i = ground (arith, h.kept (base + s.k + 0))
      first_placed x xs s s' h (suc i) lt_i =
          let e : base + s.k + suc i ≡ base + (s.k + 1) + i = omega arith in
          rw e (h.placed i (omega arith))

  place_contexts :
      (xs : List ℕ) (s : Filled)
      → ((c : ℕ) → has xs c ≡ true → c < total)
      → base + s.k + length (cores_in lead xs) ≤ s.array.size
      → Places xs s
  unfolding for_each
  place_contexts [] s inside room =
      (s, refl, record { size = refl; kept = λ p lt. refl; placed = λ i lt. absurd (omega arith) })
  place_contexts (x ∷ xs) s inside room =
      place_context x xs s (inside x (ground arith)) room
        λ s' room'. place_contexts xs s' (λ c h. inside c (ground (arith, h))) room'

-- After the rounds below `k` the first nodes have their cores.
pub record Mapped (lead : ℕ → ℕ) (contexts : ℕ → List ℕ) (size core_cnt k : ℕ)
    (cores : Array (Option ℕ)) : Type 0 where
  pub kept_size : cores.size ≡ size
  pub mapped :
      (i j : ℕ)
      → i < k
      → j < core_cnt
      → cores.cell (i * core_cnt + j) ≡ get_elem? (cores_in lead (contexts i)) j

-- The nodes of a machine: the file of each lists contexts below `total`, of which `core_cnt` are
-- physical cores.
pub record NodeLists (m : Machine) (lead : ℕ → ℕ) (total : ℕ) (contexts : ℕ → List ℕ)
    (nodes core_cnt : ℕ) : Type 0 where
  pub listed : (i : ℕ) → i < nodes → value_list m (core_list i) ≡ ok (contexts i)
  pub inside : (i c : ℕ) → i < nodes → has (contexts i) c ≡ true → c < total
  pub full : (i : ℕ) → i < nodes → length (cores_in lead (contexts i)) ≡ core_cnt

module _ {m : Machine} {lead : ℕ → ℕ} {total : ℕ} {contexts : ℕ → List ℕ} {nodes core_cnt : ℕ}
    (lists : NodeLists m lead total contexts nodes core_cnt) {ids : Array Mark}
    (marks : MarkedBy lead total ids) where
  map_node :
      (i : ℕ) (cores : Array (Option ℕ))
      → i < nodes
      → Mapped lead contexts (nodes * core_cnt) core_cnt i cores
      → (cores' : Array (Option ℕ)) × (place_node m ids core_cnt i cores ≡ ok cores')
        × Mapped lead contexts (nodes * core_cnt) core_cnt (suc i) cores'
  unfolding place_node bind
  map_node i cores lt mapped =
      let s : Filled = record { array = cores; k = 0 } in
      let room : i * core_cnt + core_cnt ≤ nodes * core_cnt = grind (arith, lt) in
      let (s', e, h) =
        place_contexts marks (i * core_cnt) (contexts i) s (λ c. lists.inside i c lt)
          (omega (arith, room, lists.full i lt, mapped.kept_size)) in
      (
        s'.array,
        rw (lists.listed i lt) (ap (λ o. bind o (λ filled. ok filled.array)) e),
        record {
          kept_size = h.size ∙ mapped.kept_size;
          mapped = λ i' j lt_i lt_j. elim (ℕ_discrete i' i) [
            | yes same ↦ rw same (ground (arith, h.placed j (omega (arith, lists.full i lt))))
            | no other ↦
                let earlier : i' < i = omega (arith, lt_i, other) in
                let before : i' * core_cnt + j < i * core_cnt + 0 =
                  omega (arith, row_lt earlier lt_j) in
                h.kept (i' * core_cnt + j) before ∙ mapped.mapped i' j earlier lt_j
          ];
        },
      )

  -- The loop over the nodes.
  pub map_nodes_cores :
      (cores : Array (Option ℕ))
      → cores.size ≡ nodes * core_cnt
      → (cores' : Array (Option ℕ)) × (for_below nodes (place_node m ids core_cnt) cores
          ≡ ok cores')
        × Mapped lead contexts (nodes * core_cnt) core_cnt nodes cores'
  map_nodes_cores cores size =
      for_below_lem (Mapped lead contexts (nodes * core_cnt) core_cnt) nodes
        (place_node m ids core_cnt) cores
        (record { kept_size = size; mapped = λ i j lt. absurd (omega arith) })
        (λ i cores lt. map_node i cores lt)
