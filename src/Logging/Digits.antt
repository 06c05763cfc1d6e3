-- ===== src/Logging/Digits.antt =====
-- The decimal numbers of src/utils/reeact_log.c.
use reeact_v.Prelude.{
  ℕ, zero, suc, ◌+◌, ◌-◌, ◌*◌, ◌/◌, ◌%◌, ◌^◌, ◌<◌, ◌≡◌, ap, ◌∙◌, arith, List, [], ◌∷◌, ltb,
  Bool-cases, inl, inr, true,
}
use reeact_v.Logging.Format.{digits, decimal, signed}

-- The number that decimal digits stand for, after `n`.
abbrev pub value : (n : ℕ) → List ℕ → ℕ
value n [] = n
value n (b ∷ bytes) = value (n * 10 + (b - 48)) bytes

abbrev tens : (digits : ℕ) → ℕ
tens zero = 1
tens (suc n) = 10 * tens n

digits-value :
    (fuel n : ℕ) (rest : List ℕ)
    → n < tens (suc fuel)
    → value 0 (digits (suc fuel) n rest) ≡ value n rest
unfolding digits
digits-value zero n rest lt =
    let small : ltb n 10 ≡ true = ground (arith, lt) in
    let e : 0 * 10 + (48 + n - 48) ≡ n = omega arith in rw small (ap (λ n. value n rest) e)
digits-value (suc fuel) n rest lt = elim (Bool-cases (ltb n 10)) [
  | inl small ↦
      let e : 0 * 10 + (48 + n - 48) ≡ n = omega arith in rw small (ap (λ n. value n rest) e)
  | inr large ↦
      let e : n / 10 * 10 + (48 + n % 10 - 48) ≡ n = omega arith in
      rw large (
        digits-value fuel (n / 10) ((48 + n % 10) ∷ rest) (omega (arith, lt))
        ∙ ap (λ n. value n rest) e)
]

-- An int that is not negative is printed so that it can be read back.
pub signed-value : (n : ℕ) → n < 2 ^ 31 → value 0 (signed n) ≡ n
unfolding signed decimal
signed-value n lt =
    let positive : ltb n (2 ^ 31) ≡ true = ground (arith, lt) in
    rw positive (digits-value 9 n [] (omega (arith, lt)))
