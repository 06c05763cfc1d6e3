-- ===== src/Topology/Marking.antt =====
-- The loop of `reeact_get_topo_sysfs` that tells physical cores from other SMT contexts.
use reeact_v.Prelude.{
  ℕ, suc, ◌+◌, ◌<◌, ◌≤◌, ◌≡◌, inl, inr, refl, sym, ap, ◌∙◌, Bool, true, false, List, [], ◌∷◌, arith,
  ltb, ◌==◌, if◌then◌else◌, assign, Bool-cases, ℕ_discrete, tally,
}
use reeact_v.Topology.Outcome.{Outcome, ok, bind, Array, get, set, for_below_lem, for_each}
use reeact_v.Topology.Machine.{Machine, context_list, value_list}
use reeact_v.Topology.Sysfs.{Mark, core, smt, is_smt, Marks, mark_sibling, mark_context, mark_cores}

-- Whether a list of contexts has a context.
abbrev pub has : List ℕ → ℕ → Bool
has [] j = false
has (x ∷ xs) j = if x == j then true else has xs j

-- The siblings of `i` other than `i`, marked.
SiblingsMarked : (xs : List ℕ) (i : ℕ) (a : Array Mark) → Type 0
SiblingsMarked xs i a =
    (b : Array Mark) × (for_each xs (mark_sibling i) a ≡ ok b)
    × (b.size ≡ a.size)
    × ((j : ℕ) → b.cell j ≡ (if j == i then a.cell j else if has xs j then smt else a.cell j))

marked_cons :
    (x : ℕ) (xs : List ℕ) (i : ℕ) (a : Array Mark)
    → x < a.size
    → ((a' : Array Mark) → a'.size ≡ a.size → SiblingsMarked xs i a')
    → SiblingsMarked (x ∷ xs) i a
unfolding for_each bind set mark_sibling SiblingsMarked
marked_cons x xs i a here rest = elim (Bool-cases (x == i)) [
  | inl own ↦
      let (b, e, size, cells) = rest a refl in
      (
        b,
        ap (λ c. bind (if c then ok a else set a x smt) (for_each xs (mark_sibling i))) own ∙ e,
        size,
        λ j. cells j ∙ ground (arith, own),
      )
  | inr other ↦
      let a' : Array Mark = record a { cell = assign a.cell x smt } in
      let (b, e, size, cells) = rest a' refl in
      let fits : ltb x a.size ≡ true = ground (arith, here) in
      (
        b,
        ap (λ c. bind (if c then ok a else set a x smt) (for_each xs (mark_sibling i))) other
            ∙ ap (λ c. bind (if c then ok a' else Outcome.undefined) (for_each xs (mark_sibling i)))
                fits
            ∙ e,
        size,
        λ j. cells j ∙ ground (arith, other),
      )
]

mark_siblings :
    (xs : List ℕ) (i : ℕ) (a : Array Mark)
    → ((j : ℕ) → has xs j ≡ true → j < a.size)
    → SiblingsMarked xs i a
unfolding for_each SiblingsMarked
mark_siblings [] i a inside = (a, refl, refl, λ j. ground arith)
mark_siblings (x ∷ xs) i a inside =
    marked_cons x xs i a (inside x (ground arith))
      λ a' same. mark_siblings xs i a' (λ j h. ground (arith, inside j (ground (arith, h)), same))

-- One round, on a context that is known not to be a core, and on another.
skip_context :
    (m : Machine) (k : ℕ) (s : Marks)
    → k < s.ctx_ids.size
    → is_smt (s.ctx_ids.cell k) ≡ true
    → mark_context m k s ≡ ok s
unfolding mark_context bind get
skip_context m k s lt skip =
    let fits : ltb k s.ctx_ids.size ≡ true = ground (arith, lt) in rw (fits, skip)

abbrev claimed : ℕ → Marks → Array Mark
claimed k s = record s.ctx_ids { cell = assign s.ctx_ids.cell k core }

fresh_context :
    (m : Machine) (k : ℕ) (s : Marks) {contexts : List ℕ} (b : Array Mark)
    → k < s.ctx_ids.size
    → is_smt (s.ctx_ids.cell k) ≡ false
    → value_list m (context_list k) ≡ ok contexts
    → for_each contexts (mark_sibling k) (claimed k s) ≡ ok b
    → mark_context m k s ≡ ok (record { ctx_ids = b; total_core_cnt = s.total_core_cnt + 1 })
unfolding mark_context bind get set
fresh_context m k s b lt fresh listed marks =
    let fits : ltb k s.ctx_ids.size ≡ true = ground (arith, lt) in rw (fits, fresh, listed, marks)

-- The contexts `i < total` in classes, one for each core: `lead i` is the least context of the class
-- of `i`, and the file of `i` lists its class.
pub record Classes (m : Machine) (total : ℕ) (lead : ℕ → ℕ) (siblings : ℕ → List ℕ) : Type 0 where
  pub listed : (i : ℕ) → i < total → value_list m (context_list i) ≡ ok (siblings i)
  pub in_class : (i j : ℕ) → i < total → has (siblings i) j ≡ true → (j < total) × (lead j ≡ lead i)
  pub class_in : (i j : ℕ) → i < total → j < total → lead j ≡ lead i → has (siblings i) j ≡ true
  pub lead_le : (i : ℕ) → lead i ≤ i
  pub lead_lead : (i : ℕ) → lead (lead i) ≡ lead i

abbrev pub one_if : Bool → ℕ
one_if b = if b then 1 else 0

module _ {m : Machine} {total : ℕ} {lead : ℕ → ℕ} {siblings : ℕ → List ℕ}
    (classes : Classes m total lead siblings) (ids : Array Mark) where
  -- After the rounds below `k` the classes whose least context is below `k` are marked.
  record Marked (k : ℕ) (s : Marks) : Type 0 where
    size : s.ctx_ids.size ≡ total
    cells :
        (j : ℕ)
        → j < total
        → s.ctx_ids.cell j
          ≡ (if ltb (lead j) k then if lead j == j then core else smt else ids.cell j)
    counted : s.total_core_cnt ≡ tally one_if k (λ i. lead i == i)

  -- The class of `k` was marked before.
  unmoved :
      (k : ℕ) (s : Marks)
      → Marked k s
      → lead k < k
      → (j : ℕ) → j < total
      → s.ctx_ids.cell j
        ≡ (if ltb (lead j) (suc k) then if lead j == j then core else smt else ids.cell j)
  unmoved k s marked below j lt_j = elim (ℕ_discrete (lead j) k) [
    | yes same ↦
        let again : lead (lead j) ≡ lead k = ap lead same in
        absurd (omega (arith, again, classes.lead_lead j, same, below))
    | no other ↦ ground (arith, marked.cells j lt_j, other)
  ]

  mark_step :
      (k : ℕ) (s : Marks)
      → k < total
      → is_smt (ids.cell k) ≡ false
      → Marked k s
      → (s' : Marks) × (mark_context m k s ≡ ok s') × Marked (suc k) s'
  unfolding tally SiblingsMarked
  mark_step k s lt plain marked = elim (Bool-cases (is_smt (s.ctx_ids.cell k))) [
    | inl skip ↦
        let below : lead k < k = ground (arith, marked.cells k lt, plain) in
        (
          s,
          skip_context m k s (omega (arith, marked.size)) skip,
          record {
            size = marked.size;
            cells = unmoved k s marked below;
            counted = ground (arith, marked.counted, below);
          },
        )
    | inr fresh ↦
        let own : lead k ≡ k = ground (arith, marked.cells k lt, classes.lead_le k) in
        let (b, e, size, cells) =
          mark_siblings (siblings k) k (claimed k s)
            (λ j h. omega (arith, (classes.in_class k j lt h).0, marked.size)) in
        (
          record { ctx_ids = b; total_core_cnt = s.total_core_cnt + 1 },
          fresh_context m k s b (omega (arith, marked.size)) fresh (classes.listed k lt) e,
          record {
            size = size ∙ marked.size;
            cells = λ j lt_j. elim (ℕ_discrete (lead j) k) [
              | yes same ↦
                  ground (arith, cells j, same, classes.class_in k j lt lt_j (same ∙ sym own))
              | no other ↦
                  let apart : has (siblings k) j ≡ false = elim (Bool-cases (has (siblings k) j)) [
                    | inl h ↦ absurd (other ((classes.in_class k j lt h).1 ∙ own))
                    | inr h ↦ h
                  ] in
                  ground (arith, cells j, other, apart, own, marked.cells j lt_j)
            ];
            counted = ground (arith, marked.counted, own);
          },
        )
  ]

-- On a machine whose sibling lists are the classes of contexts with the same least context, the
-- marking loop of reeact_get_topo_sysfs ends without an error or an access outside the array,
-- marks exactly the least context of each class as a physical core and all others as SMT contexts,
-- counts the classes, and leaves the array its size.
pub mark_cores_lem :
    {m : Machine} {total : ℕ} {lead : ℕ → ℕ} {siblings : ℕ → List ℕ}
    → Classes m total lead siblings
    → (ids : Array Mark) → ids.size ≡ total
    → ((j : ℕ) → j < total → is_smt (ids.cell j) ≡ false)
    → (s : Marks) × (mark_cores m total ids ≡ ok s)
      × (s.ctx_ids.size ≡ total)
      × (s.total_core_cnt ≡ tally one_if total (λ i. lead i == i))
      × ((j : ℕ) → j < total → s.ctx_ids.cell j ≡ (if lead j == j then core else smt))
unfolding mark_cores tally
mark_cores_lem {m} {total} classes ids size plain =
    let first : Marks = record { ctx_ids = ids; total_core_cnt = 0 } in
    let (s, e, marked) =
      for_below_lem (Marked classes ids) total (mark_context m) first
        (record { size = size; cells = λ j lt. ground arith; counted = refl })
        (λ k s lt marked. mark_step classes ids k s lt (plain k lt) marked) in
    (
      s,
      e,
      marked.size,
      marked.counted,
      λ j lt. ground (arith, marked.cells j lt, classes.lead_le j),
    )
