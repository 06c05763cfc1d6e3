-- ===== src/Topology/File.antt =====
-- A configuration file of src/utils/reeact_topology.c as it is meant to be written: lines that begin
-- with s, n or c, and others.
pub mod Reading
use reeact_v.Prelude.{
  ℕ, zero, suc, ◌<◌, ◌≡◌, ◌≢◌, refl, ap, ◌∙◌, true, false, Option, none, some, List, [], ◌∷◌, ◌++◌,
  arith, ◌==◌, ◌||◌, ◌&&◌, if◌then◌else◌, Bool, Bool-cases, inl, inr,
}
use reeact_v.Topology.Outcome.{Outcome, ok, fails, bind}
use reeact_v.Topology.Machine.{Machine, chomp, c_string, parsed}
use reeact_v.Topology.Sysfs.{Topology}
use reeact_v.Topology.Conf.{
  Draft, cleared, is_digit, skip_to_digit, three_counts, conf_case, conf_line, conf_lines,
  complete_arrays, completed, conf_opened, reeact_get_topo_conf, or_sysfs, reeact_get_topology,
  array_of,
}

pub data Key : Type 0 where
  counts_key nodes_key cores_key : Key

abbrev pub letter : Key → ℕ
letter counts_key = 115
letter nodes_key = 110
letter cores_key = 99

-- A line: its key, what stands between the key and the values, and the values as text; or a line that
-- begins with something else, or nothing.
pub data Entry : Type 0 where
  counts : (gap text : List ℕ) (sockets nodes cores : ℕ) → Entry
  nodes : (gap text values : List ℕ) → Entry
  cores : (gap text values : List ℕ) → Entry
  comment : (text : List ℕ) → Entry

abbrev pub body : Entry → List ℕ
body (counts gap text a b c) = letter counts_key ∷ gap ++ text
body (nodes gap text values) = letter nodes_key ∷ gap ++ text
body (cores gap text values) = letter cores_key ∷ gap ++ text
body (comment text) = text

abbrev pub line_of : Entry → List ℕ
line_of e = body e ++ (10 ∷ [])

abbrev pub lines_of : List Entry → List (List ℕ)
lines_of [] = []
lines_of (e ∷ entries) = line_of e ∷ lines_of entries

-- no byte 0
abbrev pub clean : List ℕ → Bool
clean [] = true
clean (b ∷ rest) = let tail = clean rest in if b == 0 then false else tail

abbrev pub without_digit : List ℕ → Bool
without_digit [] = true
without_digit (b ∷ rest) = let tail = without_digit rest in if is_digit b then false else tail

abbrev pub begins_with_digit : List ℕ → Bool
begins_with_digit [] = false
begins_with_digit (b ∷ rest) = is_digit b

abbrev pub begins_otherwise : List ℕ → Bool
begins_otherwise [] = true
begins_otherwise (b ∷ rest) = if b == 115 || (b == 110 || b == 99) then false else true

-- The values of a line are those that `parse_value_list_expand` reads.
abbrev pub Reads : Machine → (gap text values : List ℕ) → Type 0
Reads m gap text values =
    (clean (gap ++ text) ≡ true)
    × (without_digit gap ≡ true)
    × (begins_with_digit text ≡ true)
    × (m.parse_value_list_expand text ≡ (0, values))

abbrev pub Fits : Machine → Entry → Type 0
Fits m (counts gap text a b c) = Reads m gap text (a ∷ b ∷ c ∷ [])
Fits m (nodes gap text values) = Reads m gap text values
Fits m (cores gap text values) = Reads m gap text values
Fits m (comment text) = (clean text ≡ true) × (begins_otherwise text ≡ true)

abbrev pub AllFit : Machine → List Entry → Type 0
AllFit m [] = Unit
AllFit m (e ∷ entries) = Fits m e × AllFit m entries

-- The values of the last line with each key, or those given.
abbrev pub latest_counts : List Entry → ℕ × ℕ × ℕ → ℕ × ℕ × ℕ
latest_counts [] before = before
latest_counts (counts gap text a b c ∷ entries) before = latest_counts entries (a, b, c)
latest_counts (nodes gap text values ∷ entries) before = latest_counts entries before
latest_counts (cores gap text values ∷ entries) before = latest_counts entries before
latest_counts (comment text ∷ entries) before = latest_counts entries before

abbrev pub latest_nodes : List Entry → Option (List ℕ) → Option (List ℕ)
latest_nodes [] before = before
latest_nodes (counts gap text a b c ∷ entries) before = latest_nodes entries before
latest_nodes (nodes gap text values ∷ entries) before = latest_nodes entries (some values)
latest_nodes (cores gap text values ∷ entries) before = latest_nodes entries before
latest_nodes (comment text ∷ entries) before = latest_nodes entries before

abbrev pub latest_cores : List Entry → Option (List ℕ) → Option (List ℕ)
latest_cores [] before = before
latest_cores (counts gap text a b c ∷ entries) before = latest_cores entries before
latest_cores (nodes gap text values ∷ entries) before = latest_cores entries before
latest_cores (cores gap text values ∷ entries) before = latest_cores entries (some values)
latest_cores (comment text ∷ entries) before = latest_cores entries before
