-- ===== src/Logging/Format.antt =====
-- The formats that src/utils/reeact_log.c and its callers print with.
use reeact_v.Prelude.{
  ℕ, zero, suc, ◌+◌, ◌-◌, ◌/◌, ◌%◌, ◌^◌, List, [], ◌∷◌, ◌++◌, ltb, if◌then◌else◌,
}
use reeact_v.Topology.Outcome.{Outcome, ok, undefined, bind}

-- A byte of a format, or one of its conversions: %d and %s.
pub data Directive : Type 0 where
  char : (byte : ℕ) → Directive
  d : Directive
  s : Directive

-- An int, as its pattern of 32 bits, and a string.
pub data Arg : Type 0 where
  int : ℕ → Arg
  str : List ℕ → Arg

-- at most `fuel` digits
unfoldable pub digits : (fuel n : ℕ) → List ℕ → List ℕ
digits zero n rest = rest
digits (suc fuel) n rest =
    let more = digits fuel (n / 10) ((48 + n % 10) ∷ rest) in
    if ltb n 10 then (48 + n) ∷ rest else more

unfoldable pub decimal : (n : ℕ) → List ℕ
unfolding digits
decimal n = digits 10 n []

-- %d
unfoldable pub signed : (pattern : ℕ) → List ℕ
unfolding decimal
signed n = if ltb n (2 ^ 31) then decimal n else b'-' ∷ decimal (2 ^ 32 - n)

-- A conversion without an argument, or with one of another type, is undefined; arguments that are
-- left over are not.
unfoldable pub format : List Directive → List Arg → Outcome (List ℕ)
unfolding bind signed
format [] args = ok []
format (char byte ∷ fmt) args = bind (format fmt args) λ bytes. ok (byte ∷ bytes)
format (d ∷ fmt) (int n ∷ args) = bind (format fmt args) λ bytes. ok (signed n ++ bytes)
format (s ∷ fmt) (str t ∷ args) = bind (format fmt args) λ bytes. ok (t ++ bytes)
format _ _ = undefined
