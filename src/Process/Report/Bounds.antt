-- ===== src/Process/Report/Bounds.antt =====
-- When `reeact_log_topology` of src/reeact.c stays within its arrays.
use reeact_v.Prelude.{
  ℕ, ◌+◌, ◌*◌, ◌<◌, ◌≡◌, ◌↔◌, refl, ap, ◌∙◌, true, Option, none, some, List, [], ◌∷◌, ◌++◌,
}
use reeact_v.Topology.Outcome.{
  Outcome, ok, bind, bind-ok, get, for_below, for_below_lem, for_below-ok,
}
use reeact_v.Topology.Sysfs.{Topology, written}
use reeact_v.Logging.{Runtime, Log, fprintf, reeact_print_prefix, reeact_dprintf, with_func}
use reeact_v.Logging.Format.{Directive, char, d, Arg, int, str, format}
use reeact_v.Process.Report.{
  counts_format, func, node_format, socket_format, print, report_core, report_node, report_socket,
  reeact_log_topology, Complete,
}

written-ok : (cell : Option ℕ) {x : ℕ} → written cell ≡ ok x → cell ≡ some x
unfolding written
written-ok none e = cc e
written-ok (some y) e = cc e

module _ (r : Runtime) (t : Topology) where
  abbrev Ends : Outcome Log → Type 0
  Ends o = (l' : Log) × (o ≡ ok l')

  print-Ends :
      (fmt : List Directive) (args : List Arg) {bytes : List ℕ} (l : Log)
      → format fmt args ≡ ok bytes
      → Ends (print r t fmt args l)
  unfolding print bind fprintf
  print-Ends fmt args {bytes} l e =
      (record l { errno = r.errno_after l.errno; stderr = l.stderr ++ bytes }, rw e refl)

  bind-Ends :
      (o : Outcome Log) (f : Log → Outcome Log)
      → Ends o
      → ((l : Log) → Ends (f l))
      → Ends (bind o f)
  unfolding bind
  bind-Ends o f (l, e) next = let (l', e') = next l in (l', rw e e')

  loop-Ends :
      (count : ℕ) (body : ℕ → Log → Outcome Log) (l : Log)
      → ((k : ℕ) (l : Log) → k < count → Ends (body k l))
      → Ends (for_below count body l)
  loop-Ends count body l round =
      let (l', e, _) =
        for_below_lem {0, 0} (λ _ _. Unit) count body l tt
          (λ k l lt _. let (l', e) = round k l lt in (l', e, tt)) in
      (l', e)

  core-Ends :
      (id k : ℕ) {core : ℕ} (l : Log)
      → get t.cores (id * t.core_cnt + k) ≡ ok (some core)
      → Ends (report_core r t id k l)
  unfolding report_core bind written format
  core-Ends id k {core} l e =
      let (l', e') = print-Ends (d ∷ char b' ' ∷ []) (int core ∷ []) l refl in (l', rw e e')

  node-Ends :
      (i j : ℕ) {id : ℕ} (l : Log)
      → get t.nodes (i * t.node_cnt + j) ≡ ok (some id)
      → ((k : ℕ)
          → k < t.core_cnt
          → (core : ℕ) × (get t.cores (id * t.core_cnt + k) ≡ ok (some core)))
      → Ends (report_node r t i j l)
  unfolding report_node bind written format
  node-Ends i j {id} l e cores =
      let (l', e') =
        bind-Ends (print r t node_format (int id ∷ []) l)
          (λ l'.
            bind (for_below t.core_cnt (report_core r t id) l') (print r t (char b'\n' ∷ []) []))
          (print-Ends node_format (int id ∷ []) l refl)
          λ l'.
            bind-Ends (for_below t.core_cnt (report_core r t id) l')
              (print r t (char b'\n' ∷ []) [])
              (loop-Ends t.core_cnt (report_core r t id) l'
                (λ k l lt. let (core, e) = cores k lt in core-Ends id k l e))
              (λ l. print-Ends (char b'\n' ∷ []) [] l refl) in
      (l', rw e e')

  socket-Ends : Complete t → (i : ℕ) (l : Log) → i < t.socket_cnt → Ends (report_socket r t i l)
  unfolding report_socket format
  socket-Ends complete i l lt =
      bind-Ends (print r t socket_format (int i ∷ []) l) (for_below t.node_cnt (report_node r t i))
        (print-Ends socket_format (int i ∷ []) l refl)
        λ l'.
          loop-Ends t.node_cnt (report_node r t i) l' (λ j l lt_j.
            let (id, e, cores) = complete.node_of i j lt lt_j in node-Ends i j l e cores)

  log-Ends : Complete t → (l : Log) → Ends (reeact_log_topology r t true l)
  unfolding reeact_log_topology reeact_dprintf reeact_print_prefix fprintf bind format
  log-Ends complete l =
      loop-Ends t.socket_cnt (report_socket r t) _ (λ i l lt. socket-Ends complete i l lt)

  -- Each access of a report that ends was within its array, at a cell that was written.
  core-inside :
      (id k : ℕ) (l : Log) {l' : Log}
      → report_core r t id k l ≡ ok l'
      → (core : ℕ) × (get t.cores (id * t.core_cnt + k) ≡ ok (some core))
  unfolding report_core
  core-inside id k l e =
      let (cell, at, rest) = bind-ok (get t.cores (id * t.core_cnt + k)) _ e in
      let (core, here, last) = bind-ok (written cell) _ rest in
      (core, at ∙ ap ok (written-ok cell here))

  -- behind the heading of a node, its id, and its cell
  abbrev cores_of : ℕ → Log → Outcome Log
  cores_of id l =
      bind (for_below t.core_cnt (report_core r t id) l) (print r t (char b'\n' ∷ []) [])

  abbrev named : Log → ℕ → Outcome Log
  named l id = bind (print r t node_format (int id ∷ []) l) (cores_of id)

  abbrev of_cell : Log → Option ℕ → Outcome Log
  of_cell l cell = bind (written cell) (named l)

  node-inside :
      (i j : ℕ) (l : Log) {l' : Log}
      → report_node r t i j l ≡ ok l'
      → (id : ℕ) × (get t.nodes (i * t.node_cnt + j) ≡ ok (some id))
        × ((k : ℕ)
            → k < t.core_cnt
            → (core : ℕ) × (get t.cores (id * t.core_cnt + k) ≡ ok (some core)))
  unfolding report_node
  node-inside i j l e =
      let (cell, at, rest) = bind-ok (get t.nodes (i * t.node_cnt + j)) (of_cell l) e in
      let (id, here, printed) = bind-ok (written cell) (named l) rest in
      let (l1, _, looped) = bind-ok (print r t node_format (int id ∷ []) l) (cores_of id) printed in
      let (l2, cores, _) =
        bind-ok (for_below t.core_cnt (report_core r t id) l1) (print r t (char b'\n' ∷ []) [])
          looped in
      (
        id,
        at ∙ ap ok (written-ok cell here),
        λ k lt.
            let (l3, l4, core) = for_below-ok t.core_cnt (report_core r t id) l1 cores k lt in
            core-inside id k l3 core,
      )

  socket-inside :
      (i : ℕ) (l : Log) {l' : Log}
      → report_socket r t i l ≡ ok l'
      → (j : ℕ) → j < t.node_cnt
      → (before after : Log) × (report_node r t i j before ≡ ok after)
  unfolding report_socket
  socket-inside i l e j lt =
      let (l1, _, nodes) =
        bind-ok (print r t socket_format (int i ∷ []) l) (for_below t.node_cnt (report_node r t i))
          e in
      for_below-ok t.node_cnt (report_node r t i) l1 nodes j lt

  log-Complete : (l : Log) {l' : Log} → reeact_log_topology r t true l ≡ ok l' → Complete t
  unfolding reeact_log_topology
  log-Complete l e =
      let (first, _, sockets) =
        bind-ok
          (reeact_dprintf r (with_func counts_format)
            (str func ∷ int t.socket_cnt ∷ int t.node_cnt ∷ int t.core_cnt ∷ []) l)
          (λ (_, l'). for_below t.socket_cnt (report_socket r t) l') e in
      record {
        node_of = λ i j lt lt_j.
            let (l1, l2, socket) =
              for_below-ok t.socket_cnt (report_socket r t) first.1 sockets i lt in
            let (l3, l4, node) = socket-inside i l1 socket j lt_j in node-inside i j l3 node;
      }

-- In a debug build reeact_log_topology stays within its arrays and reads no cell that was not
-- written exactly when, for each of its sockets and each node of the socket, the array of nodes
-- has a cell with a node id, and for each core of that node the array of cores has a cell with a
-- core id.
pub log_topology_iff :
    (r : Runtime) (t : Topology) (l : Log)
    → ((l' : Log) × (reeact_log_topology r t true l ≡ ok l')) ↔ Complete t
log_topology_iff r t l = (λ (l', e). log-Complete r t l e, λ complete. log-Ends r t complete l)
