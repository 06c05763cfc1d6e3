-- ===== src/Fastsync/Cond/Leaders/Single.antt =====
-- Steps of Fastsync/Cond/System.antt that change one thread and its object, or no lead at all.
use mathlib.Core.Path.{subst}
use reeact_v.Prelude.{
  ℕ, ◌+◌, ◌≤◌, ◌<◌, ◌≡◌, ◌≢◌, ◌⊎◌, inl, inr, refl, sym, ap, ◌∙◌, true, false, none, List, arith,
  assign, tally, tally-ext, tally-assign, ℕ_discrete,
}
use reeact_v.Fastsync.Cond.{Cond}
use reeact_v.Fastsync.Cond.System.{Thread, System}
use reeact_v.Fastsync.Cond.Invariant.Places.{eq_self, eq_other, each, assign_all}
use reeact_v.Fastsync.Cond.Leaders.{view, leads, descending, noting, Leaders}

-- A sum after one member has changed.
tally_change :
    {A : Type 0} (w : A → ℕ) (n : ℕ) (f g : ℕ → A) (i : ℕ)
    → i < n
    → ((j : ℕ) → i ≢ j → g j ≡ f j)
    → tally w n g + w (f i) ≡ w (g i) + tally w n f
tally_change w n f g i lt same =
    let e : tally w n g ≡ tally w n (assign f i (g i)) = tally-ext w n g (assign f i (g i)) (λ j _.
      each (λ j. w (g j) ≡ w (assign f i (g i) j)) i (rw (eq_self i) refl)
        (λ j other. rw (eq_other other) (ap w (same j other))) j) in
    omega (arith, e, tally-assign w n f i (g i) lt)

module _ {n : ℕ} {s : System} (leaders : Leaders n s) where
  -- No lead begins or ends.
  pub quiet :
      (cond : ℕ → Cond) (state : ℕ) (thread : ℕ → Thread) (place : ℕ → ℕ)
      → ((c : ℕ)
          → ((cond c).use_child ≡ (s.cond c).use_child) × ((cond c).parent ≡ (s.cond c).parent))
      → ((j c : ℕ) → leads c (thread j, place j, s.frames j) ≡ leads c (view s j))
      → ((j : ℕ)
          → (descending (thread j) ≡ true
              → (descending (s.thread j) ≡ true) × (place j ≡ s.place j))
            × (noting (thread j) ≡ true → (noting (s.thread j) ≡ true) × (place j ≡ s.place j)))
      → Leaders n (record s { cond = cond; state = state; thread = thread; place = place })
  quiet cond state thread place same even known = record {
    used = λ c.
        (same c).0
        ∙ leaders.used c
        ∙ tally-ext (leads c) n (view s) (λ j. (thread j, place j, s.frames j))
            (λ j _. sym (even j c));
    once = λ c. omega (arith, (same c).0, leaders.once c);
    unled = λ j lt w.
        let (before, here) = (known j).0 w in
        (same (place j)).0 ∙ ap (λ c. (s.cond c).use_child) here ∙ leaders.unled j lt before;
    led = λ j lt w.
        let (before, here) = (known j).1 w in
        let old = leaders.led j lt before in
        let child = (same (place j)).0 ∙ ap (λ c. (s.cond c).use_child) here in
        let parents = (same (place j)).1 ∙ ap (λ c. (s.cond c).parent) here in
        ground (arith, old, child, parents);
  }

  module _ (i : ℕ) (lt : i < n) (c : ℕ) (cond : Cond) (state : ℕ) (thread : ℕ → Thread)
      (place : ℕ → ℕ) (frames : ℕ → List ℕ)
      (there : (j : ℕ)
        → i ≢ j
        → (thread j ≡ s.thread j) × (place j ≡ s.place j) × (frames j ≡ s.frames j))
      (balance : (d : ℕ)
        → (assign s.cond c cond d).use_child + leads d (view s i)
          ≡ leads d (thread i, place i, frames i) + (s.cond d).use_child)
      (small : cond.use_child ≤ 1) (same_parent : cond.parent ≡ (s.cond c).parent)
      (fair : (cond.use_child ≡ (s.cond c).use_child)
        ⊎ ((j : ℕ)
            → j < n
            → i ≢ j
            → (descending (s.thread j) ≡ false) × (noting (s.thread j) ≡ false)))
      (own : descending (thread i) ≡ true → (assign s.cond c cond (place i)).use_child ≡ 0)
      (own' : noting (thread i) ≡ true
        → ((assign s.cond c cond (place i)).parent ≡ none)
          ⊎ ((assign s.cond c cond (place i)).use_child ≢ 0)) where
    after : System
    after = record s {
      cond = assign s.cond c cond;
      state = state;
      thread = thread;
      place = place;
      frames = frames;
    }

    views : (j : ℕ) → i ≢ j → (thread j, place j, frames j) ≡ view s j
    views j other = let (t, c, f) = there j other in cc (t, c, f)

    kept :
        (d : ℕ)
        → ((assign s.cond c cond d).parent ≡ (s.cond d).parent)
          × (((assign s.cond c cond d).use_child ≡ (s.cond d).use_child)
              ⊎ ((j : ℕ)
                  → j < n
                  → i ≢ j
                  → (descending (s.thread j) ≡ false) × (noting (s.thread j) ≡ false)))
    kept d = elim (ℕ_discrete c d) [
      | yes e ↦
          subst
            (λ d.
              ((assign s.cond c cond d).parent ≡ (s.cond d).parent)
              × (((assign s.cond c cond d).use_child ≡ (s.cond d).use_child)
                  ⊎ ((j : ℕ)
                      → j < n
                      → i ≢ j
                      → (descending (s.thread j) ≡ false) × (noting (s.thread j) ≡ false))))
            e (rw (eq_self c) (same_parent, fair))
      | no other ↦ rw (eq_other other) (refl, inl refl)
    ]

    other_unled :
        (j : ℕ)
        → i ≢ j
        → j < n
        → descending (s.thread j) ≡ true
        → (assign s.cond c cond (s.place j)).use_child ≡ 0
    other_unled j other lt' w = elim (kept (s.place j)).1 [
      | inl same ↦ same ∙ leaders.unled j lt' w
      | inr none_there ↦ cc (w, (none_there j lt' other).0)
    ]

    other_led :
        (j : ℕ)
        → i ≢ j
        → j < n
        → noting (s.thread j) ≡ true
        → ((assign s.cond c cond (s.place j)).parent ≡ none)
          ⊎ ((assign s.cond c cond (s.place j)).use_child ≢ 0)
    other_led j other lt' w = elim (kept (s.place j)).1 [
      | inl same ↦
          let before = leaders.led j lt' w in
          let parents = (kept (s.place j)).0 in ground (arith, before, same, parents)
      | inr none_there ↦ cc (w, (none_there j lt' other).1)
    ]

    pub single : Leaders n (record s {
      cond = assign s.cond c cond;
      state = state;
      thread = thread;
      place = place;
      frames = frames;
    })
    single = record {
      used = λ d.
          let sum =
            tally_change (leads d) n (view s) (λ j. (thread j, place j, frames j)) i lt views in
          omega (arith, sum, balance d, leaders.used d);
      once = assign_all (λ d x. x.use_child ≤ 1) s.cond c cond leaders.once small;
      unled =
          each
            (λ j.
              j < n → descending (thread j) ≡ true → (assign s.cond c cond (place j)).use_child ≡ 0)
            i (λ _. own)
            (λ j other. rw ((there j other).0, (there j other).1) (other_unled j other));
      led =
          each
            (λ j.
              j < n
              → noting (thread j) ≡ true
              → ((assign s.cond c cond (place j)).parent ≡ none)
                ⊎ ((assign s.cond c cond (place j)).use_child ≢ 0))
            i (λ _. own')
            (λ j other. rw ((there j other).0, (there j other).1) (other_led j other));
    }
