-- ===== src/Topology/Outcome.antt =====
-- What a function of src/utils/reeact_topology.c comes to, its arrays, and its loops.
use reeact_v.Prelude.{
  ℕ_discrete, ℕ, zero, suc, ◌<◌, ◌+◌, ◌*◌, ◌≡◌, refl, ap, ◌∙◌, arith, List, [], ◌∷◌, ltb,
  if◌then◌else◌, assign,
}

-- A value, an error code that is returned, or an access outside an array, of a cell that was never
-- written, or through NULL, or a division by 0.
pub data Outcome {ℓ} (A : Type ℓ) : Type ℓ where
  ok : A → Outcome A
  fails : (code : ℕ) → Outcome A
  undefined : Outcome A

unfoldable pub bind {ℓ ℓ'} : {A : Type ℓ} {B : Type ℓ'} → Outcome A → (A → Outcome B) → Outcome B
bind (ok a) f = f a
bind (fails code) f = fails code
bind undefined f = undefined

pub record Array {ℓ} (A : Type ℓ) : Type ℓ where
  pub size : ℕ
  pub cell : ℕ → A

unfoldable pub get {ℓ} : {A : Type ℓ} → Array A → ℕ → Outcome A
get a i = if ltb i a.size then ok (a.cell i) else undefined

unfoldable pub set {ℓ} : {A : Type ℓ} → Array A → ℕ → A → Outcome (Array A)
set a i x = if ltb i a.size then ok (record a { cell = assign a.cell i x }) else undefined

-- `for(i = 0; i < count; i++)`
unfoldable pub for_below {ℓ} : {S : Type ℓ} → (count : ℕ) → (ℕ → S → Outcome S) → S → Outcome S
unfolding bind
for_below zero body s = ok s
for_below (suc n) body s = bind (for_below n body s) (body n)

-- The same over the values of a list.
unfoldable pub for_each {ℓ} : {S : Type ℓ} → List ℕ → (ℕ → S → Outcome S) → S → Outcome S
unfolding bind
for_each [] body s = ok s
for_each (x ∷ xs) body s = bind (body x s) (for_each xs body)

-- A loop ends in a state that has the invariant, where each round keeps it.
pub for_below_lem {ℓ ℓ'} :
    {S : Type ℓ} (P : ℕ → S → Type ℓ') (count : ℕ) (body : ℕ → S → Outcome S) (s : S)
    → P 0 s
    → ((k : ℕ) (s : S) → k < count → P k s → (s' : S) × (body k s ≡ ok s') × P (suc k) s')
    → (s' : S) × (for_below count body s ≡ ok s') × P count s'
unfolding for_below bind
for_below_lem P zero body s first round = (s, refl, first)
for_below_lem P (suc n) body s first round =
    let (s', e, h) = for_below_lem P n body s first (λ k s lt. round k s (omega arith)) in
    let (s'', e', h') = round n s' (omega arith) h in (s'', ap (λ o. bind o (body n)) e ∙ e', h')

-- A place in an earlier row of an array of rows.
pub row_lt : {i j width p : ℕ} → i < j → p < width → i * width + p < j * width
row_lt earlier inside = grind (arith, earlier, inside)

pub bind-ok {ℓ ℓ'} :
    {A : Type ℓ} {B : Type ℓ'} (o : Outcome A) (f : A → Outcome B) {b : B}
    → bind o f ≡ ok b
    → (a : A) × (o ≡ ok a) × (f a ≡ ok b)
unfolding bind
bind-ok (ok a) f e = (a, refl, e)
bind-ok (fails code) f e = cc e
bind-ok undefined f e = cc e

-- Each round of a loop that ends has ended.
pub for_below-ok {ℓ} :
    {S : Type ℓ} (count : ℕ) (body : ℕ → S → Outcome S) (s : S) {s' : S}
    → for_below count body s ≡ ok s'
    → (k : ℕ) → k < count
    → (before after : S) × (body k before ≡ ok after)
unfolding for_below
for_below-ok zero body s done k lt = absurd (omega arith)
for_below-ok (suc n) body s done k lt =
    let (before, e, last) = bind-ok (for_below n body s) (body n) done in
    elim (ℕ_discrete k n) [
      | yes same ↦ (before, _, ap (λ k. body k before) same ∙ last)
      | no other ↦ for_below-ok n body s e k (omega (arith, other))
    ]
