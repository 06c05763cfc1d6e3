-- ===== src/Topology/File/Reading.antt =====
-- What src/utils/reeact_topology.c reads in a configuration file.
use reeact_v.Prelude.{
  ℕ, ◌<◌, ◌≡◌, refl, ap, ◌∙◌, true, false, none, some, List, [], ◌∷◌, ◌++◌, arith, ◌==◌, ◌||◌,
  if◌then◌else◌, Bool, Bool-cases, inl, inr,
}
use reeact_v.Topology.Outcome.{ok, bind}
use reeact_v.Topology.Machine.{Machine, chomp, c_string, parsed}
use reeact_v.Topology.Conf.{
  Draft, cleared, is_digit, skip_to_digit, three_counts, conf_case, conf_line, conf_lines,
  complete_arrays, completed, conf_opened, reeact_get_topo_conf, or_sysfs, reeact_get_topology,
  array_of,
}
use reeact_v.Topology.File.{
  Key, counts_key, nodes_key, cores_key, letter, Entry, counts, nodes, cores, comment, body,
  line_of, lines_of, clean, without_digit, begins_with_digit, Reads, Fits, AllFit, latest_counts,
  latest_nodes, latest_cores,
}

chomp_line : (l : List ℕ) → chomp (l ++ (10 ∷ [])) ≡ l
unfolding chomp
chomp_line [] = refl
chomp_line (b ∷ []) = refl
chomp_line (b ∷ c ∷ rest) = ap (λ l. b ∷ l) (chomp_line (c ∷ rest))

whole_string : (l : List ℕ) → clean l ≡ true → c_string l ≡ l
unfolding c_string
whole_string [] e = refl
whole_string (b ∷ rest) e = elim (Bool-cases (b == 0)) [
  | inl null ↦ cc (rw null at e)
  | inr other ↦ rw other (ap (λ l. b ∷ l) (whole_string rest (rw other at e)))
]

skip_lem :
    (gap text : List ℕ)
    → without_digit gap ≡ true
    → begins_with_digit text ≡ true
    → skip_to_digit (gap ++ text) ≡ text
unfolding skip_to_digit
skip_lem [] [] e digit = refl
skip_lem [] (b ∷ rest) e digit = rw digit refl
skip_lem (b ∷ gap) text e digit = elim (Bool-cases (is_digit b)) [
  | inl no_gap ↦ cc (rw no_gap at e)
  | inr other ↦ rw other (skip_lem gap text (rw other at e) digit)
]

-- What a line changes.
abbrev pub apply : Entry → Draft → Draft
apply (counts gap text a b c) d = record d { socket_cnt = a; node_cnt = b; core_cnt = c }
apply (nodes gap text values) d = record d { nodes = some values }
apply (cores gap text values) d = record d { cores = some values }
apply (comment text) d = d

none_chosen {ℓ} :
    (x y z : Bool)
    → (if x || (y || z) then false else true) ≡ true
    → {A : Type ℓ} (p q r rest : A)
    → (if x then p else if y then q else if z then r else rest) ≡ rest
none_chosen false false false e p q r rest = refl
none_chosen false false true e p q r rest = cc e
none_chosen false true z e p q r rest = cc e
none_chosen true y z e p q r rest = cc e

module _ (m : Machine) where
  text_read :
      (key : Key) (gap text : List ℕ) {values : List ℕ}
      → Reads m gap text values
      → parsed (m.parse_value_list_expand (skip_to_digit (letter key ∷ gap ++ text))) ≡ ok values
  unfolding parsed skip_to_digit
  text_read counts_key gap text (whole, plain, digit, read) =
      rw (skip_lem gap text plain digit, read) refl
  text_read nodes_key gap text (whole, plain, digit, read) =
      rw (skip_lem gap text plain digit, read) refl
  text_read cores_key gap text (whole, plain, digit, read) =
      rw (skip_lem gap text plain digit, read) refl

  body_read : (e : Entry) (d : Draft) → Fits m e → conf_line m d (body e) ≡ ok (apply e d)
  unfolding conf_line conf_case three_counts bind
  body_read (counts gap text a b c) d fits = rw (text_read counts_key gap text fits) refl
  body_read (nodes gap text values) d fits = rw (text_read nodes_key gap text fits) refl
  body_read (cores gap text values) d fits = rw (text_read cores_key gap text fits) refl
  body_read (comment []) d fits = refl
  body_read (comment (b ∷ rest)) d (whole, otherwise) =
      none_chosen (b == 115) (b == 110) (b == 99) otherwise _ _ _ (ok d)

  clean-body : (e : Entry) → Fits m e → clean (body e) ≡ true
  clean-body (counts gap text a b c) fits = fits.0
  clean-body (nodes gap text values) fits = fits.0
  clean-body (cores gap text values) fits = fits.0
  clean-body (comment text) fits = fits.0

  line_read :
      (e : Entry) (d : Draft)
      → Fits m e
      → conf_line m d (c_string (chomp (line_of e))) ≡ ok (apply e d)
  line_read e d fits =
      rw (chomp_line (body e), whole_string (body e) (clean-body e fits)) (body_read e d fits)

abbrev counts_of : Draft → ℕ × ℕ × ℕ
counts_of d = (d.socket_cnt, d.node_cnt, d.core_cnt)

abbrev Latest : List Entry → Draft → Draft → Type 0
Latest entries d after =
    (counts_of after ≡ latest_counts entries (counts_of d))
    × (after.nodes ≡ latest_nodes entries d.nodes)
    × (after.cores ≡ latest_cores entries d.cores)

apply-Latest :
    (e : Entry) (entries : List Entry) (d : Draft) {after : Draft}
    → Latest entries (apply e d) after
    → Latest (e ∷ entries) d after
apply-Latest (counts gap text a b c) entries d h = h
apply-Latest (nodes gap text values) entries d h = h
apply-Latest (cores gap text values) entries d h = h
apply-Latest (comment text) entries d h = h

complete_lem :
    (d : Draft) (s n c : ℕ) (ns cs : List ℕ)
    → counts_of d ≡ (s, n, c)
    → d.nodes ≡ some ns
    → d.cores ≡ some cs
    → 0 < s
    → 0 < n
    → 0 < c
    → completed d
      ≡ ok (record {
        socket_cnt = s;
        node_cnt = n;
        core_cnt = c;
        nodes = array_of ns;
        cores = array_of cs;
      })
unfolding completed complete_arrays
complete_lem d s n c ns cs e e' e'' lt lt' lt'' =
    let s_is : d.socket_cnt ≡ s = ap (λ r. r.0) e in
    let n_is : d.node_cnt ≡ n = ap (λ r. r.1) e in
    let c_is : d.core_cnt ≡ c = ap (λ r. r.2) e in
    let present : (d.node_cnt == 0 || (d.core_cnt == 0 || d.socket_cnt == 0)) ≡ false =
      ground arith in
    rw (present, e', e'') (rw (s_is, n_is, c_is) refl)

module _ (m : Machine) where
  file_read :
      (entries : List Entry) (d : Draft)
      → AllFit m entries
      → (after : Draft) × (conf_lines m (lines_of entries) d ≡ ok after) × Latest entries d after
  unfolding conf_lines bind
  file_read [] d fit = (d, refl, (refl, refl, refl))
  file_read (e ∷ entries) d (fits, rest) =
      let (after, read, latest) = file_read entries (apply e d) rest in
      (after, rw (line_read m e d fits) read, apply-Latest e entries d latest)

  -- For a configuration file of lines that each begin with s, n or c, have no digit and no byte 0
  -- up to a digit, and there a text without byte 0 that parse_value_list_expand reads as the
  -- values of the line (three for s), or begin with something else, and each end with a newline,
  -- reeact_get_topology, with the file set and output pointers that are not NULL, returns the
  -- counts of the last line with s and the arrays of the last lines with n and c, in whatever
  -- order the lines stand, where each of the three is there and the counts are positive.
  pub configured_topology :
      (entries : List Entry) (s n c : ℕ) (ns cs : List ℕ)
      → m.configured ≡ true
      → m.conf_file ≡ some (lines_of entries)
      → AllFit m entries
      → latest_counts entries (0, 0, 0) ≡ (s, n, c)
      → latest_nodes entries none ≡ some ns
      → latest_cores entries none ≡ some cs
      → 0 < s
      → 0 < n
      → 0 < c
      → reeact_get_topology false m
        ≡ ok (record {
          socket_cnt = s;
          node_cnt = n;
          core_cnt = c;
          nodes = array_of ns;
          cores = array_of cs;
        })
  unfolding reeact_get_topology or_sysfs reeact_get_topo_conf conf_opened bind
  configured_topology entries s n c ns cs set file fit e e' e'' lt lt' lt'' =
      let (after, read, (counts_read, nodes_read, cores_read)) = file_read entries cleared fit in
      let whole =
        complete_lem after s n c ns cs (counts_read ∙ e) (nodes_read ∙ e') (cores_read ∙ e'') lt lt'
          lt'' in
      rw (set, file, read, whole) refl
