-- ===== src/Process/Report.antt =====
-- `reeact_log_topology` of src/reeact.c, which a debug build calls after the topology is detected.
pub mod Bounds
pub mod Detected
use reeact_v.Prelude.{
  ℕ, zero, suc, ◌+◌, ◌*◌, ◌<◌, ◌≡◌, ◌↔◌, refl, sym, ap, ◌∙◌, arith, Bool, true, false, Option, none,
  some, List, [], ◌∷◌, ◌++◌, map, ltb, if◌then◌else◌, Bool-cases, inl, inr,
}
use reeact_v.Topology.Outcome.{
  Outcome, ok, fails, undefined, bind, Array, get, for_below, for_below_lem,
}
use reeact_v.Topology.Sysfs.{Topology, written}
use reeact_v.Logging.{Runtime, Log, fprintf, reeact_dprintf, with_func}
use reeact_v.Logging.Format.{Directive, char, d, s, Arg, int, str, format}

-- "reeact_log_topology"
abbrev func : List ℕ
func =
    b'r' ∷ b'e' ∷ b'e' ∷ b'a' ∷ b'c' ∷ b't' ∷ b'_' ∷ b'l' ∷ b'o' ∷ b'g' ∷ b'_' ∷ b't' ∷ b'o' ∷ b'p'
    ∷ b'o' ∷ b'l' ∷ b'o' ∷ b'g' ∷ b'y' ∷ []

-- "Socket count is %d, node per socket is %d, cores per node is %d\n"
abbrev counts_format : List Directive
counts_format =
    char b'S'
    ∷ char b'o'
    ∷ char b'c'
    ∷ char b'k'
    ∷ char b'e'
    ∷ char b't'
    ∷ char b' '
    ∷ char b'c'
    ∷ char b'o'
    ∷ char b'u'
    ∷ char b'n'
    ∷ char b't'
    ∷ char b' '
    ∷ char b'i'
    ∷ char b's'
    ∷ char b' '
    ∷ d
    ∷ char b','
    ∷ char b' '
    ∷ char b'n'
    ∷ char b'o'
    ∷ char b'd'
    ∷ char b'e'
    ∷ char b' '
    ∷ char b'p'
    ∷ char b'e'
    ∷ char b'r'
    ∷ char b' '
    ∷ char b's'
    ∷ char b'o'
    ∷ char b'c'
    ∷ char b'k'
    ∷ char b'e'
    ∷ char b't'
    ∷ char b' '
    ∷ char b'i'
    ∷ char b's'
    ∷ char b' '
    ∷ d
    ∷ char b','
    ∷ char b' '
    ∷ char b'c'
    ∷ char b'o'
    ∷ char b'r'
    ∷ char b'e'
    ∷ char b's'
    ∷ char b' '
    ∷ char b'p'
    ∷ char b'e'
    ∷ char b'r'
    ∷ char b' '
    ∷ char b'n'
    ∷ char b'o'
    ∷ char b'd'
    ∷ char b'e'
    ∷ char b' '
    ∷ char b'i'
    ∷ char b's'
    ∷ char b' '
    ∷ d
    ∷ char b'\n'
    ∷ []

-- "Socket %d:\n"
abbrev socket_format : List Directive
socket_format =
    char b'S'
    ∷ char b'o'
    ∷ char b'c'
    ∷ char b'k'
    ∷ char b'e'
    ∷ char b't'
    ∷ char b' '
    ∷ d
    ∷ char b':'
    ∷ char b'\n'
    ∷ []

-- "\t Node %d:\n\t\t"
abbrev node_format : List Directive
node_format =
    char b'\t'
    ∷ char b' '
    ∷ char b'N'
    ∷ char b'o'
    ∷ char b'd'
    ∷ char b'e'
    ∷ char b' '
    ∷ d
    ∷ char b':'
    ∷ char b'\n'
    ∷ char b'\t'
    ∷ char b'\t'
    ∷ []

module _ (r : Runtime) (t : Topology) where
  -- `fprintf` for its output only
  unfoldable pub print : List Directive → List Arg → Log → Outcome Log
  unfolding bind fprintf
  print fmt args l = bind (fprintf r fmt args l) λ (_, l'). ok l'

  unfoldable pub report_core : (node_id k : ℕ) → Log → Outcome Log
  unfolding bind get written print
  report_core node_id k l =
      bind (get t.cores (node_id * t.core_cnt + k))
        λ cell. bind (written cell) λ core_id. print (d ∷ char b' ' ∷ []) (int core_id ∷ []) l

  unfoldable pub report_node : (i j : ℕ) → Log → Outcome Log
  unfolding bind get written print for_below report_core
  report_node i j l = bind (get t.nodes (i * t.node_cnt + j)) λ cell. bind (written cell) λ node_id.
      bind (print node_format (int node_id ∷ []) l)
        λ l'. bind (for_below t.core_cnt (report_core node_id) l') (print (char b'\n' ∷ []) [])

  unfoldable pub report_socket : (i : ℕ) → Log → Outcome Log
  unfolding bind print for_below report_node
  report_socket i l =
      bind (print socket_format (int i ∷ []) l) (for_below t.node_cnt (report_node i))

  unfoldable pub reeact_log_topology : (debug : Bool) → Log → Outcome Log
  unfolding bind reeact_dprintf for_below report_socket
  reeact_log_topology debug l =
      if debug
      then (bind
          (reeact_dprintf r (with_func counts_format)
            (str func ∷ int t.socket_cnt ∷ int t.node_cnt ∷ int t.core_cnt ∷ []) l)
          λ (_, l'). for_below t.socket_cnt report_socket l')
      else ok l

-- Each node of each socket, and each core of such a node, has a cell that was written.
pub record Complete (t : Topology) : Type 0 where
  pub node_of :
      (i j : ℕ)
      → i < t.socket_cnt
      → j < t.node_cnt
      → (id : ℕ) × (get t.nodes (i * t.node_cnt + j) ≡ ok (some id))
        × ((k : ℕ)
            → k < t.core_cnt
            → (core : ℕ) × (get t.cores (id * t.core_cnt + k) ≡ ok (some core)))
