-- ===== src/Pthread/Hooks/Lookup.antt =====
-- The lookups of `reeact_pthread_hooks_init` in src/pthread_hooks/pthread_hooks.c.
use mathlib.Core.List.{foldl}
use mathlib.Core.Path.{subst}
use reeact_v.Prelude.{
  ℕ, zero, suc, ◌≡◌, ◌⊎◌, inl, inr, true, false, none, some, List, [], ◌∷◌, get_elem?, Option-cases,
  ◌∙◌, sym,
}
use reeact_v.Pthread.Calls.{Symbol}
use reeact_v.Pthread.Linker.{Linker}

module _ (l : Linker) where
  open l use {World, Code, find, dlsym, pending, dlsym_fails, dlsym_succeeds}

  abbrev pub Found : Symbol → Type 0
  Found s = (f : Code) × (find s ≡ some f)

  abbrev pub AllFound : List Symbol → Type 0
  AllFound [] = Unit
  AllFound (s ∷ ss) = Found s × AllFound ss

  abbrev pub look_up : List Symbol → World → World
  look_up ss w = foldl (λ w s. dlsym s w) w ss

  -- An error stays until it is asked for.
  pending_stays : (ss : List Symbol) (w : World) → pending w ≡ true → pending (look_up ss w) ≡ true
  pending_stays [] w p = p
  pending_stays (s ∷ ss) w p = pending_stays ss (dlsym s w) (still (Option-cases (find s)))
    where
      still : (find s ≡ none) ⊎ Found s → pending (dlsym s w) ≡ true
      still (inl missing) = dlsym_fails s w missing
      still (inr (f, e)) = dlsym_succeeds s f w e ∙ p

  pub AllFound-pending :
      (ss : List Symbol) (w : World)
      → pending w ≡ false
      → AllFound ss
      → pending (look_up ss w) ≡ false
  AllFound-pending [] w p all = p
  AllFound-pending (s ∷ ss) w p ((f, e), rest) =
      AllFound-pending ss (dlsym s w) (dlsym_succeeds s f w e ∙ p) rest

  pub pending-AllFound :
      (ss : List Symbol) (w : World)
      → pending w ≡ false
      → pending (look_up ss w) ≡ false
      → AllFound ss
  pending-AllFound [] w p quiet = tt
  pending-AllFound (s ∷ ss) w p quiet =
      split (Option-cases (find s)) (pending-AllFound ss (dlsym s w))
    where
      split :
          (find s ≡ none) ⊎ Found s
          → (pending (dlsym s w) ≡ false → pending (look_up ss (dlsym s w)) ≡ false → AllFound ss)
          → Found s × AllFound ss
      split (inl missing) rest =
          let stays = pending_stays ss (dlsym s w) (dlsym_fails s w missing) in
          cc (sym stays ∙ quiet)
      split (inr (f, e)) rest = ((f, e), rest (dlsym_succeeds s f w e ∙ p) quiet)

  pub Found-AllFound : ((s : Symbol) → Found s) → (ss : List Symbol) → AllFound ss
  Found-AllFound every [] = tt
  Found-AllFound every (s ∷ ss) = (every s, Found-AllFound every ss)

  pub AllFound-get :
      (ss : List Symbol) (i : ℕ) (s : Symbol) → AllFound ss → get_elem? ss i ≡ some s → Found s
  AllFound-get [] i s all e = cc
  AllFound-get (t ∷ ts) zero s all e = subst Found (cc e) all.0
  AllFound-get (t ∷ ts) (suc i) s all e = AllFound-get ts i s all.1 e
