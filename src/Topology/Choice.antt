-- ===== src/Topology/Choice.antt =====
-- The configuration file of src/utils/reeact_topology.c, and what happens where it is no good.
use reeact_v.Prelude.{
  ℕ, ◌<◌, ◌≡◌, ◌⊎◌, inl, inr, refl, ap, true, false, Option, none, some, List, [], ◌∷◌, arith, ◌==◌,
  ◌||◌, if◌then◌else◌, Bool, Bool-cases,
}
use reeact_v.Topology.Outcome.{Outcome, ok, fails, bind}
use reeact_v.Topology.Machine.{Machine, chomp, c_string, parsed}
use reeact_v.Topology.Sysfs.{Topology, reeact_get_topo_sysfs}
use reeact_v.Topology.Conf.{
  Draft, cleared, skip_to_digit, three_counts, conf_case, conf_line, conf_lines, complete_arrays,
  completed, conf_opened, reeact_get_topo_conf, or_sysfs, reeact_get_topology,
}

-- A value, or the error code 2.
abbrev Tame {ℓ} : {A : Type ℓ} → Outcome A → Type ℓ
Tame {A} o = ((a : A) × (o ≡ ok a)) ⊎ (o ≡ fails 2)

bind-Tame {ℓ ℓ'} :
    {A : Type ℓ} {B : Type ℓ'} (o : Outcome A) (f : A → Outcome B)
    → Tame o
    → ((a : A) → Tame (f a))
    → Tame (bind o f)
unfolding bind
bind-Tame o f (inl (a, e)) next = rw e (next a)
bind-Tame o f (inr e) next = inr (ap (λ o. bind o f) e)

if-Tame {ℓ} :
    {A : Type ℓ} (b : Bool) (x y : Outcome A) → Tame x → Tame y → Tame (if b then x else y)
if-Tame true x y hx hy = hx
if-Tame false x y hx hy = hy

parsed-Tame : (r : ℕ × List ℕ) → Tame (parsed r)
unfolding parsed
parsed-Tame (ret_val, values) =
    if-Tame (ret_val == 0) (ok values) (fails 2) (inl (values, refl)) (inr refl)

three_counts-Tame : (d : Draft) (values : List ℕ) → Tame (three_counts d values)
unfolding three_counts
three_counts-Tame d [] = inr refl
three_counts-Tame d (a ∷ []) = inr refl
three_counts-Tame d (a ∷ b ∷ []) = inr refl
three_counts-Tame d (a ∷ b ∷ c ∷ []) = inl (_, refl)
three_counts-Tame d (a ∷ b ∷ c ∷ e ∷ rest) = inr refl

conf_line-Tame : (m : Machine) (d : Draft) (line : List ℕ) → Tame (conf_line m d line)
unfolding conf_line conf_case
conf_line-Tame m d [] = inl (d, refl)
conf_line-Tame m d (first ∷ rest) =
    let values = parsed-Tame (m.parse_value_list_expand (skip_to_digit (first ∷ rest))) in
    if-Tame (first == 115) _ _ (bind-Tame _ _ values (three_counts-Tame d)) (
      if-Tame (first == 110) _ _ (bind-Tame _ _ values (λ v. inl (_, refl)))
        (if-Tame (first == 99) _ _ (bind-Tame _ _ values (λ v. inl (_, refl))) (inl (d, refl))))

conf_lines-Tame : (m : Machine) (lines : List (List ℕ)) (d : Draft) → Tame (conf_lines m lines d)
unfolding conf_lines
conf_lines-Tame m [] d = inl (d, refl)
conf_lines-Tame m (line ∷ rest) d =
    bind-Tame _ _ (conf_line-Tame m d (c_string (chomp line))) (conf_lines-Tame m rest)

-- A file that is accepted has every part.
abbrev Whole : Outcome Topology → Type 0
Whole o =
    ((t : Topology) × (o ≡ ok t) × (0 < t.socket_cnt) × (0 < t.node_cnt) × (0 < t.core_cnt))
    ⊎ (o ≡ fails 2)

counted-Whole :
    (d : Draft) (nodes cores : Option (List ℕ))
    → 0 < d.socket_cnt
    → 0 < d.node_cnt
    → 0 < d.core_cnt
    → Whole (complete_arrays d nodes cores)
unfolding complete_arrays
counted-Whole d (some nodes) (some cores) s n c = inl (_, refl, s, n, c)
counted-Whole d none cores s n c = inr refl
counted-Whole d (some nodes) none s n c = inr refl

completed-Whole : (d : Draft) → Whole (completed d)
unfolding completed
completed-Whole d = elim (Bool-cases (d.node_cnt == 0 || (d.core_cnt == 0 || d.socket_cnt == 0))) [
  | inl missing ↦ inr (rw missing)
  | inr present ↦ rw present (
      counted-Whole d d.nodes d.cores (ground (arith, present)) (ground (arith, present))
        (ground (arith, present)))
]

conf-Whole : (m : Machine) → Whole (reeact_get_topo_conf m)
unfolding reeact_get_topo_conf
conf-Whole m = opened m.conf_file
  where
    read : (o : Outcome Draft) → Tame o → Whole (bind o completed)
    read o (inl (d, e)) = rw e (completed-Whole d)
    read o (inr e) = inr (ap (λ o. bind o completed) e)

    opened : (file : Option (List (List ℕ))) → Whole (conf_opened m file)
    opened none = inr refl
    opened (some lines) = read (conf_lines m lines cleared) (conf_lines-Tame m lines cleared)

-- With a configuration file set and output pointers that are not NULL, either the file is
-- accepted, all its counts are positive and reeact_get_topology returns its topology, or the file
-- is refused with 2 and reeact_get_topology is reeact_get_topo_sysfs; reading the file never goes
-- outside an array.
pub get_topology_configured :
    (m : Machine)
    → m.configured ≡ true
    → ((t : Topology) × (reeact_get_topo_conf m ≡ ok t)
        × (0 < t.socket_cnt)
        × (0 < t.node_cnt)
        × (0 < t.core_cnt)
        × (reeact_get_topology false m ≡ ok t))
      ⊎ ((reeact_get_topo_conf m ≡ fails 2)
          × (reeact_get_topology false m ≡ reeact_get_topo_sysfs m))
unfolding reeact_get_topology or_sysfs
get_topology_configured m set = elim (conf-Whole m) [
  | inl (t, e, s, n, c) ↦ inl (t, e, s, n, c, rw (set, e))
  | inr e ↦ inr (e, rw (set, e))
]
