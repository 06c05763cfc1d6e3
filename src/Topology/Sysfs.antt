-- ===== src/Topology/Sysfs.antt =====
-- `reeact_get_topo_sysfs` of src/utils/reeact_topology.c.
use reeact_v.Prelude.{
  ℕ, zero, ◌+◌, ◌*◌, ◌/◌, suc, Bool, true, false, Option, none, some, List, [], ◌∷◌, ◌==◌, ltb,
  if◌then◌else◌,
}
use reeact_v.Topology.Outcome.{
  Outcome, ok, fails, undefined, bind, Array, get, set, for_below, for_each,
}
use reeact_v.Topology.Machine.{
  Machine, online_node_list, online_cpu_list, context_list, core_list, package_id, value_list,
}

-- `struct processor_topo`. A cell is `none` until it is written.
pub record Topology : Type 0 where
  pub socket_cnt : ℕ
  pub node_cnt : ℕ
  pub core_cnt : ℕ
  pub nodes : Array (Option ℕ)
  pub cores : Array (Option ℕ)

-- An entry of `ctx_ids`: the id that was read, -1 or -2.
pub data Mark : Type 0 where
  id : ℕ → Mark
  core : Mark
  smt : Mark

abbrev pub is_core : Mark → Bool
is_core core = true
is_core _ = false

abbrev pub is_smt : Mark → Bool
is_smt smt = true
is_smt _ = false

-- `ctx_ids` and `total_core_cnt`
pub record Marks : Type 0 where
  pub ctx_ids : Array Mark
  pub total_core_cnt : ℕ

unfoldable pub count : List ℕ → ℕ
count [] = 0
count (x ∷ xs) = suc (count xs)

-- a list that was read, as an array
unfoldable pub cell_of {ℓ} : {A : Type ℓ} → (ℕ → A) → A → List ℕ → ℕ → A
cell_of f a [] i = a
cell_of f a (x ∷ xs) zero = f x
cell_of f a (x ∷ xs) (suc i) = cell_of f a xs i

-- `if(contexts[j] != i) ctx_ids[contexts[j]] = -2;`
unfoldable pub mark_sibling : (i context : ℕ) → Array Mark → Outcome (Array Mark)
unfolding set
mark_sibling i context ctx_ids = if context == i then ok ctx_ids else set ctx_ids context smt

-- the body of the loop that tells physical cores from other SMT contexts
unfoldable pub mark_context : Machine → (i : ℕ) → Marks → Outcome Marks
unfolding bind get set for_each value_list mark_sibling
mark_context m i s = bind (get s.ctx_ids i) λ mark.
    if is_smt mark
    then ok s
    else bind (value_list m (context_list i)) λ contexts. bind (set s.ctx_ids i core) λ ctx_ids.
      bind (for_each contexts (mark_sibling i) ctx_ids)
        λ marked. ok (record { ctx_ids = marked; total_core_cnt = s.total_core_cnt + 1 })

unfoldable pub mark_cores : Machine → (total_ctx_cnt : ℕ) → Array Mark → Outcome Marks
unfolding for_below mark_context
mark_cores m total_ctx_cnt ctx_ids =
    for_below total_ctx_cnt (mark_context m) (record { ctx_ids = ctx_ids; total_core_cnt = 0 })

-- `cores` and `k`
pub record Filled : Type 0 where
  pub array : Array (Option ℕ)
  pub k : ℕ

-- one context of node `i`: its core id, if it is one, goes to the next place of the node
unfoldable pub place_core : (ctx_ids : Array Mark) (base ctx_id : ℕ) → Filled → Outcome Filled
unfolding bind get set
place_core ctx_ids base ctx_id s = bind (get ctx_ids ctx_id) λ mark.
    if is_core mark
    then (bind (set s.array (base + s.k) (some ctx_id))
        λ array. ok (record { array = array; k = s.k + 1 }))
    else ok s

unfoldable pub place_node :
    Machine
    → (ctx_ids : Array Mark) (core_cnt i : ℕ) → Array (Option ℕ)
    → Outcome (Array (Option ℕ))
unfolding bind for_each value_list place_core
place_node m ctx_ids core_cnt i cores = bind (value_list m (core_list i)) λ contexts.
    bind (for_each contexts (place_core ctx_ids (i * core_cnt)) (record { array = cores; k = 0 }))
      λ filled. ok filled.array

-- a cell that must have been written
unfoldable pub written : Option ℕ → Outcome ℕ
written none = undefined
written (some x) = ok x

-- `contexts[0]`
unfoldable pub head : List ℕ → Outcome ℕ
head [] = undefined
head (x ∷ xs) = ok x

-- the physical package of the first core of node `i`
unfoldable pub package_of : Machine → Array (Option ℕ) → (core_cnt i : ℕ) → Outcome ℕ
unfolding bind get written head value_list
package_of m cores core_cnt i = bind (get cores (i * core_cnt)) λ cell.
    bind (written cell)
      λ core_id. bind (value_list m (package_id core_id)) λ contexts. head contexts

-- `*socket_cnt`, which starts at -1 and is raised by 1 at the end, is kept raised by 1.
unfoldable pub raise_sockets : Machine → Array (Option ℕ) → (core_cnt i socket_cnt : ℕ) → Outcome ℕ
unfolding bind package_of
raise_sockets m cores core_cnt i socket_cnt =
    bind (package_of m cores core_cnt i)
      λ socket_id. ok (if ltb socket_cnt (socket_id + 1) then socket_id + 1 else socket_cnt)

-- node `j` in the round of socket `i`
unfoldable pub place_on_socket :
    Machine → Array (Option ℕ) → (core_cnt node_cnt i j : ℕ) → Filled → Outcome Filled
unfolding bind package_of set
place_on_socket m cores core_cnt node_cnt i j s = bind (package_of m cores core_cnt j) λ socket_id.
    if socket_id == i
    then (bind (set s.array (socket_id * node_cnt + s.k) (some j))
        λ array. ok (record { array = array; k = s.k + 1 }))
    else ok s

unfoldable pub fill_socket :
    Machine
    → Array (Option ℕ)
    → (core_cnt node_cnt total_node_cnt i : ℕ) → Array (Option ℕ)
    → Outcome (Array (Option ℕ))
unfolding bind for_below place_on_socket
fill_socket m cores core_cnt node_cnt total_node_cnt i nodes =
    bind
      (for_below total_node_cnt (place_on_socket m cores core_cnt node_cnt i)
        (record { array = nodes; k = 0 }))
      λ filled. ok filled.array

unfoldable pub divided : (a b : ℕ) → Outcome ℕ
divided a b = if b == 0 then undefined else ok (a / b)

-- `malloc` of integers, whose cells are not written yet
abbrev pub blank : ℕ → Array (Option ℕ)
blank size = record { size = size; cell = λ _. none }

unfoldable pub map_nodes :
    Machine → (total_node_cnt core_cnt : ℕ) → Array (Option ℕ) → Outcome Topology
unfolding bind for_below raise_sockets divided fill_socket
map_nodes m total_node_cnt core_cnt cores =
    bind (for_below total_node_cnt (raise_sockets m cores core_cnt) 0) λ socket_cnt.
      bind (divided total_node_cnt socket_cnt) λ node_cnt.
        bind
          (for_below socket_cnt (fill_socket m cores core_cnt node_cnt total_node_cnt)
            (if m.malloc total_node_cnt then blank total_node_cnt else blank 0))
          λ nodes. ok (record {
            socket_cnt = socket_cnt;
            node_cnt = node_cnt;
            core_cnt = core_cnt;
            nodes = nodes;
            cores = cores;
          })

unfoldable pub map_cores : Machine → (total_node_cnt : ℕ) → Marks → Outcome Topology
unfolding bind for_below divided place_node map_nodes
map_cores m total_node_cnt marks = bind (divided marks.total_core_cnt total_node_cnt) λ core_cnt.
    if m.malloc marks.total_core_cnt
    then bind
        (for_below total_node_cnt (place_node m marks.ctx_ids core_cnt)
          (blank marks.total_core_cnt))
        (map_nodes m total_node_cnt core_cnt)
    else fails 3

unfoldable pub reeact_get_topo_sysfs : Machine → Outcome Topology
unfolding bind value_list count cell_of mark_cores map_cores
reeact_get_topo_sysfs m = bind (value_list m online_node_list) λ node_ids.
    bind (value_list m online_cpu_list) λ ctx_ids.
      bind
        (mark_cores m (count ctx_ids)
          (record { size = count ctx_ids; cell = cell_of id smt ctx_ids }))
        (map_cores m (count node_ids))
