-- ===== src/Prelude/Tally.antt =====
-- Families indexed by thread: assignment at one index, and sums of a weight over the first `n`.
use Prim.Native.Nat.{ℕ, zero, suc, ◌+◌, ◌≤◌, ◌<◌}
use mathlib.Core.Path.{◌≡◌, refl, ap}
use mathlib.Core.Logic.{◌≢◌}
use native.Mathlib.Decide.{dec_lt}
use native.Mathlib.Omega.{arith}
use reeact_v.Prelude.Tests.{◌==◌, if◌then◌else◌}

abbrev pub assign {ℓ} : {A : Type ℓ} → (ℕ → A) → ℕ → A → ℕ → A
assign f i a j = if i == j then a else f j

module _ {ℓ} {A : Type ℓ} (w : A → ℕ) where
  unfoldable pub tally : ℕ → (ℕ → A) → ℕ
  tally zero f = 0
  tally (suc n) f = w (f n) + tally n f

  pub tally-ext :
      (n : ℕ) (f g : ℕ → A) → ((i : ℕ) → i < n → w (f i) ≡ w (g i)) → tally n f ≡ tally n g
  unfolding tally
  tally-ext zero f g same = refl
  tally-ext (suc n) f g same =
      let below = tally-ext n f g (λ i lt. same i (omega arith)) in
      omega (arith, same n (omega arith), below)

  pub tally_mono :
      (n : ℕ) (f g : ℕ → A) → ((i : ℕ) → i < n → w (f i) ≤ w (g i)) → tally n f ≤ tally n g
  unfolding tally
  tally_mono zero f g less = omega arith
  tally_mono (suc n) f g less =
      let below = tally_mono n f g (λ i lt. less i (omega arith)) in
      omega (arith, less n (omega arith), below)

  -- A member counts towards the sum.
  pub le-tally : (n : ℕ) (f : ℕ → A) (i : ℕ) → i < n → w (f i) ≤ tally n f
  unfolding tally
  le-tally zero f i lt = absurd (omega arith)
  le-tally (suc n) f i lt = elim (dec_lt i n) [
    | yes below ↦ omega (arith, le-tally n f i below)
    | no last ↦ let e : i ≡ n = omega arith in omega (arith, ap (λ j. w (f j)) e)
  ]

  tally-assign_above :
      (n : ℕ) (f : ℕ → A) (i : ℕ) (a : A) → n ≤ i → tally n (assign f i a) ≡ tally n f
  unfolding tally
  tally-assign_above zero f i a above = refl
  tally-assign_above (suc n) f i a above = ground (arith, tally-assign_above n f i a)

  -- One assignment exchanges one weight.
  pub tally-assign :
      (n : ℕ) (f : ℕ → A) (i : ℕ) (a : A)
      → i < n
      → tally n (assign f i a) + w (f i) ≡ w a + tally n f
  unfolding tally
  tally-assign zero f i a lt = absurd (omega arith)
  tally-assign (suc n) f i a lt = elim (dec_lt i n) [
    | yes below ↦ ground (arith, tally-assign n f i a below)
    | no last ↦ ground (arith, tally-assign_above n f i a)
  ]

  -- Two members count twice.
  pub add-le-tally :
      (n : ℕ) (f : ℕ → A) (i j : ℕ) → i < n → j < n → i ≢ j → w (f i) + w (f j) ≤ tally n f
  unfolding tally
  add-le-tally zero f i j lt_i lt_j apart = absurd (omega arith)
  add-le-tally (suc n) f i j lt_i lt_j apart = elim (dec_lt i n) [
    | yes i_below ↦ elim (dec_lt j n) [
      | yes j_below ↦ omega (arith, add-le-tally n f i j i_below j_below apart)
      | no last ↦
          let e : j ≡ n = omega arith in omega (arith, ap (λ k. w (f k)) e, le-tally n f i i_below)
    ]
    | no last ↦
        let e : i ≡ n = omega arith in
        omega (arith, ap (λ k. w (f k)) e, le-tally n f j (omega arith))
  ]

  -- A sum above zero has a member that counts.
  pub tally_pos : (n : ℕ) (f : ℕ → A) → 0 < tally n f → (i : ℕ) × (i < n) × (0 < w (f i))
  unfolding tally
  tally_pos zero f pos = absurd (omega arith)
  tally_pos (suc n) f pos = elim (dec_lt 0 (w (f n))) [
    | yes here ↦ (n, omega arith, here)
    | no none_here ↦ let (i, lt, here) = tally_pos n f (omega arith) in (i, omega arith, here)
  ]

  -- A sum below the number of members has a member that does not count.
  pub tally_gap : (n : ℕ) (f : ℕ → A) → tally n f < n → (i : ℕ) × (i < n) × (w (f i) ≡ 0)
  unfolding tally
  tally_gap zero f gap = absurd (omega arith)
  tally_gap (suc n) f gap = elim (dec_lt 0 (w (f n))) [
    | yes counts ↦ let (i, lt, here) = tally_gap n f (omega arith) in (i, omega arith, here)
    | no here ↦ (n, omega arith, omega arith)
  ]

  -- A longer sum is no smaller.
  pub tally_up : (n k : ℕ) (f : ℕ → A) → n ≤ k → tally n f ≤ tally k f
  unfolding tally
  tally_up n zero f le = let e : n ≡ 0 = omega arith in omega (arith, ap (λ j. tally j f) e)
  tally_up n (suc k) f le = elim (dec_lt k n) [
    | yes same ↦ let e : n ≡ suc k = omega arith in omega (arith, ap (λ j. tally j f) e)
    | no below ↦ omega (arith, tally_up n k f (omega arith))
  ]

  -- Where every member counts, the sum is no smaller than their number.
  pub tally_pos_le : (n : ℕ) (f : ℕ → A) → ((i : ℕ) → i < n → 0 < w (f i)) → n ≤ tally n f
  unfolding tally
  tally_pos_le zero f all = omega arith
  tally_pos_le (suc n) f all =
      omega (arith, all n (omega arith), tally_pos_le n f (λ i lt. all i (omega arith)))

  pub tally-zero : (n : ℕ) (f : ℕ → A) → ((i : ℕ) → i < n → w (f i) ≡ 0) → tally n f ≡ 0
  unfolding tally
  tally-zero zero f none_here = refl
  tally-zero (suc n) f none_here =
      let below = tally-zero n f (λ i lt. none_here i (omega arith)) in
      omega (arith, none_here n (omega arith), below)

  pub tally-le : ((a : A) → w a ≤ 1) → (n : ℕ) (f : ℕ → A) → tally n f ≤ n
  unfolding tally
  tally-le small zero f = omega arith
  tally-le small (suc n) f = omega (arith, small (f n), tally-le small n f)

  -- Where each weight is at most one and the sum is full, each weight is one.
  pub tally_full :
      ((a : A) → w a ≤ 1) → (n : ℕ) (f : ℕ → A) → tally n f ≡ n → (i : ℕ) → i < n → w (f i) ≡ 1
  unfolding tally
  tally_full small zero f full i lt = absurd (omega arith)
  tally_full small (suc n) f full i lt = elim (dec_lt i n) [
    | yes below ↦ tally_full small n f (omega (arith, small (f n), tally-le small n f)) i below
    | no last ↦
        let e : i ≡ n = omega arith in
        omega (arith, ap (λ k. w (f k)) e, small (f n), tally-le small n f)
  ]

-- Two weights, the first never above the second.
module _ {ℓ} {A : Type ℓ} (w v : A → ℕ) (less : (a : A) → w a ≤ v a) where
  pub tally-below : (n : ℕ) (f : ℕ → A) → tally w n f ≤ tally v n f
  unfolding tally
  tally-below zero f = omega arith
  tally-below (suc n) f = omega (arith, less (f n), tally-below n f)

  -- A member that does not count leaves room for its second weight.
  pub tally_room :
      (n : ℕ) (f : ℕ → A) (i : ℕ) → i < n → w (f i) ≡ 0 → tally w n f + v (f i) ≤ tally v n f
  unfolding tally
  tally_room zero f i lt none_here = absurd (omega arith)
  tally_room (suc n) f i lt none_here = elim (dec_lt i n) [
    | yes below ↦ omega (arith, less (f n), tally_room n f i below none_here)
    | no last ↦
        let e : i ≡ n = omega arith in
        omega (arith, ap (λ j. w (f j)) e, ap (λ j. v (f j)) e, none_here, tally-below n f)
  ]

  -- Where the sums are equal the weights are.
  pub tally_equal :
      (n : ℕ) (f : ℕ → A) → tally w n f ≡ tally v n f → (i : ℕ) → i < n → w (f i) ≡ v (f i)
  unfolding tally
  tally_equal zero f full i lt = absurd (omega arith)
  tally_equal (suc n) f full i lt = elim (dec_lt i n) [
    | yes below ↦ tally_equal n f (omega (arith, less (f n), tally-below n f)) i below
    | no last ↦
        let e : i ≡ n = omega arith in
        omega (arith, ap (λ j. w (f j)) e, ap (λ j. v (f j)) e, less (f n), tally-below n f)
  ]

  -- Where they differ a member's do.
  pub tally_short :
      (n : ℕ) (f : ℕ → A) → tally w n f < tally v n f → (i : ℕ) × (i < n) × (w (f i) < v (f i))
  unfolding tally
  tally_short zero f gap = absurd (omega arith)
  tally_short (suc n) f gap = elim (dec_lt (w (f n)) (v (f n))) [
    | yes here ↦ (n, omega arith, here)
    | no same ↦ let (i, lt, here) = tally_short n f (omega (arith, same)) in (i, omega arith, here)
  ]
