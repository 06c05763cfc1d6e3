-- ===== src/Topology/Machine.antt =====
-- What src/utils/reeact_topology.c reads: the files of sysfs, the configuration file and the
-- environment, and `parse_value_list_expand` of common_toolx, which is not part of the repository.
use reeact_v.Prelude.{ℕ, Bool, Option, none, some, List, [], ◌∷◌, ◌==◌, if◌then◌else◌}
use reeact_v.Topology.Outcome.{Outcome, ok, fails}

-- A file of sysfs.
pub data Name : Type 0 where
  online_node_list online_cpu_list : Name
  context_list : (cpu : ℕ) → Name
  core_list : (node : ℕ) → Name
  package_id : (cpu : ℕ) → Name

-- A line is the list of its bytes.
pub record Machine : Type 0 where
  pub opens : Name → Bool
  pub getline : Name → Option (List ℕ)
  -- the error code and the values, which are never negative in these files
  pub parse_value_list_expand : List ℕ → ℕ × List ℕ
  -- whether an allocation of so many integers succeeds
  pub malloc : ℕ → Bool
  -- REEACT_TOPO_CONFIG: the lines of the file it names, if it is set and the file can be opened
  pub configured : Bool
  pub conf_file : Option (List (List ℕ))

-- `if(buf[ln_len-1] == '\n') buf[ln_len-1] = '\0';`
unfoldable pub chomp : List ℕ → List ℕ
chomp [] = []
chomp (b ∷ []) = if b == 10 then [] else b ∷ []
chomp (b ∷ c ∷ rest) = b ∷ chomp (c ∷ rest)

-- the string up to its 0
unfoldable pub c_string : List ℕ → List ℕ
c_string [] = []
c_string (b ∷ rest) = let tail = c_string rest in if b == 0 then [] else b ∷ tail

unfoldable pub parsed : ℕ × List ℕ → Outcome (List ℕ)
parsed (ret_val, values) = if ret_val == 0 then ok values else fails 2

unfoldable pub parsed_line : Machine → Option (List ℕ) → Outcome (List ℕ)
unfolding parsed chomp c_string
parsed_line m none = fails 2
parsed_line m (some line) = parsed (m.parse_value_list_expand (c_string (chomp line)))

-- OPEN_FILE, GET_LINE_MUST_SUCCEED, `parse_value_list_expand` and the test of its result
unfoldable pub value_list : Machine → Name → Outcome (List ℕ)
unfolding parsed_line
value_list m name = if m.opens name then parsed_line m (m.getline name) else fails 2
