-- ===== src/Topology/Conf.antt =====
-- `reeact_get_topo_conf` and `reeact_get_topology` of src/utils/reeact_topology.c.
use reeact_v.Prelude.{
  ℕ, Bool, Option, none, some, List, [], ◌∷◌, ◌==◌, ◌||◌, leb, ◌&&◌, if◌then◌else◌,
}
use reeact_v.Topology.Outcome.{Outcome, ok, fails, bind, Array}
use reeact_v.Topology.Machine.{Machine, chomp, c_string, parsed}
use reeact_v.Topology.Sysfs.{Topology, count, cell_of, reeact_get_topo_sysfs}

-- The outputs while the file is read; `nodes` and `cores` are `none` for NULL.
pub record Draft : Type 0 where
  pub socket_cnt : ℕ
  pub node_cnt : ℕ
  pub core_cnt : ℕ
  pub nodes : Option (List ℕ)
  pub cores : Option (List ℕ)

-- the outputs cleared
abbrev pub cleared : Draft
cleared = record { socket_cnt = 0; node_cnt = 0; core_cnt = 0; nodes = none; cores = none }

abbrev pub is_digit : ℕ → Bool
is_digit b = leb 48 b && leb b 57

-- `while((*p < '0' || *p > '9') && (*p != '\0')) p++;`
unfoldable pub skip_to_digit : List ℕ → List ℕ
skip_to_digit [] = []
skip_to_digit (b ∷ rest) = let later = skip_to_digit rest in if is_digit b then b ∷ rest else later

-- `case 's'`: exactly three counts
unfoldable pub three_counts : Draft → List ℕ → Outcome Draft
three_counts d (sockets ∷ nodes ∷ cores ∷ []) =
    ok (record d { socket_cnt = sockets; node_cnt = nodes; core_cnt = cores })
three_counts d _ = fails 2

-- `switch(buf[0])`
unfoldable pub conf_case : Machine → Draft → (first : ℕ) → (line : List ℕ) → Outcome Draft
unfolding bind parsed skip_to_digit three_counts
conf_case m d first line =
    let values = parsed (m.parse_value_list_expand (skip_to_digit line)) in
    if first == 115
    then bind values (three_counts d)
    else if first == 110
    then (bind values λ v. ok (record d { nodes = some v }))
    else if first == 99
    then (bind values λ v. ok (record d { cores = some v }))
    else ok d

unfoldable pub conf_line : Machine → Draft → List ℕ → Outcome Draft
unfolding conf_case
conf_line m d [] = ok d
conf_line m d (first ∷ rest) = conf_case m d first (first ∷ rest)

unfoldable pub conf_lines : Machine → List (List ℕ) → Draft → Outcome Draft
unfolding bind conf_line chomp c_string
conf_lines m [] d = ok d
conf_lines m (line ∷ rest) d = bind (conf_line m d (c_string (chomp line))) (conf_lines m rest)

abbrev pub array_of : List ℕ → Array (Option ℕ)
array_of xs = record { size = count xs; cell = cell_of some none xs }

-- the test that every part is there
unfoldable pub complete_arrays : Draft → Option (List ℕ) → Option (List ℕ) → Outcome Topology
unfolding count cell_of
complete_arrays d (some nodes) (some cores) = ok (record {
  socket_cnt = d.socket_cnt;
  node_cnt = d.node_cnt;
  core_cnt = d.core_cnt;
  nodes = array_of nodes;
  cores = array_of cores;
})
complete_arrays d _ _ = fails 2

unfoldable pub completed : Draft → Outcome Topology
unfolding complete_arrays
completed d =
    if d.node_cnt == 0 || (d.core_cnt == 0 || d.socket_cnt == 0)
    then fails 2
    else complete_arrays d d.nodes d.cores

unfoldable pub conf_opened : Machine → Option (List (List ℕ)) → Outcome Topology
unfolding bind conf_lines completed
conf_opened m none = fails 2
conf_opened m (some lines) = bind (conf_lines m lines cleared) completed

unfoldable pub reeact_get_topo_conf : Machine → Outcome Topology
unfolding conf_opened
reeact_get_topo_conf m = conf_opened m m.conf_file

-- the file, and sysfs where it fails
unfoldable pub or_sysfs : Machine → Outcome Topology → Outcome Topology
unfolding reeact_get_topo_sysfs
or_sysfs m (ok t) = ok t
or_sysfs m (fails code) = reeact_get_topo_sysfs m
or_sysfs m Outcome.undefined = Outcome.undefined

-- `null` is whether an output pointer is NULL.
unfoldable pub reeact_get_topology : (null : Bool) → Machine → Outcome Topology
unfolding or_sysfs reeact_get_topo_conf reeact_get_topo_sysfs
reeact_get_topology null m =
    if null
    then fails 1
    else if m.configured
    then or_sysfs m (reeact_get_topo_conf m)
    else reeact_get_topo_sysfs m
