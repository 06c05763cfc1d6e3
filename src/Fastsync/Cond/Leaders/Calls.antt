-- ===== src/Fastsync/Cond/Leaders/Calls.antt =====
-- The calls at the parents in Fastsync/Cond/System.antt, and the returns, and who leads.
use reeact_v.Prelude.{
  ℕ, ◌+◌, ◌≤◌, ◌<◌, ◌≡◌, ◌≢◌, ◌⊎◌, inl, inr, refl, ap, ◌∙◌, Bool, false, List, ◌∷◌, arith, assign,
}
use reeact_v.Fastsync.Futex.{Futex}
use reeact_v.Fastsync.Cond.{Cond, Pc, check, descend, load, ret, access}
use reeact_v.Fastsync.Cond.System.{Thread, calling, System, at, Reach}
use reeact_v.Fastsync.Cond.Invariant.Places.{eq_self, eq_other, each}
use reeact_v.Fastsync.Cond.Leaders.{
  releases, view, leads, descending, noting, Leaders, return-Marks,
}
use reeact_v.Fastsync.Cond.Leaders.Single.{single}
use reeact_v.Fastsync.Cond.Leaders.Calm.{Plain}
use reeact_v.Fastsync.Cond.Leaders.Access.{exclusive, owner, used_there}

module _ {k : Futex} {n m : ℕ} {s : System} (r : Reach k n m s) (leaders : Leaders n s) where
  pub return-fair :
      (i : ℕ) {held : Bool} {p : Pc} {cond : Cond} {state code : ℕ}
      → i < n
      → s.thread i ≡ calling held p
      → access m p (at s i) s.state ≡ ret cond state code
      → (cond.use_child ≡ (at s i).use_child)
        ⊎ ((j : ℕ)
            → j < n
            → i ≢ j
            → (descending (s.thread j) ≡ false) × (noting (s.thread j) ≡ false))
  return-fair i {p} lt e a = elim (return-Marks m p (at s i) s.state a).1 [
    | inl (there, zero_child) ↦ inr (exclusive r leaders i lt (owner r leaders i e (inr there)))
    | inr (none_released, same) ↦ inl same
  ]

  pub return-small :
      (i : ℕ) (p : Pc) {cond : Cond} {state code : ℕ}
      → access m p (at s i) s.state ≡ ret cond state code
      → cond.use_child ≤ 1
  return-small i p a = elim (return-Marks m p (at s i) s.state a).1 [
    | inl (there, zero_child) ↦ omega (arith, zero_child)
    | inr (none_released, same) ↦ omega (arith, same, leaders.once (s.place i))
  ]

  pub return-balance :
      (i : ℕ) {held : Bool} {p : Pc} {cond : Cond} {state code : ℕ}
      → i < n
      → s.thread i ≡ calling held p
      → access m p (at s i) s.state ≡ ret cond state code
      → cond.use_child + releases p ≡ (at s i).use_child
  return-balance i {held} {p} lt e a = elim (return-Marks m p (at s i) s.state a).1 [
    | inl (there, zero_child) ↦
        rw there (omega (arith, zero_child, used_there r leaders i lt e there))
    | inr (none_released, same) ↦ omega (arith, none_released, same)
  ]

  pub return-Leaders :
      (i : ℕ) {held : Bool} {p : Pc} {cond : Cond} {state code : ℕ} (t : Thread)
      → i < n
      → s.thread i ≡ calling held p
      → access m p (at s i) s.state ≡ ret cond state code
      → Plain t
      → Leaders n (record s {
        cond = assign s.cond (s.place i) cond;
        state = state;
        thread = assign s.thread i t;
      })
  return-Leaders i {held} {p} {cond} {state} t lt e a idle =
      single leaders i lt (s.place i) cond state (assign s.thread i t) s.place s.frames
        (λ j other. (rw (eq_other other) refl, refl, refl))
        (each
          (λ d.
            (assign s.cond (s.place i) cond d).use_child + leads d (view s i)
            ≡ leads d (assign s.thread i t i, s.place i, s.frames i) + (s.cond d).use_child)
          (s.place i)
          (rw (eq_self (s.place i), eq_self i, e, idle.0) (omega (arith, return-balance i lt e a)))
          (λ d other. rw (eq_other other) (omega arith)))
        (return-small i p a) (return-Marks m p (at s i) s.state a).0 (return-fair i lt e a)
        (rw (eq_self i) (λ w. cc (w, idle.1))) (rw (eq_self i) (λ w. cc (w, idle.2)))

  pub come_back-Leaders :
      (i : ℕ) {held : Bool} {p : Pc} {cond : Cond} {state code c : ℕ} {rest : List ℕ}
      → i < n
      → s.thread i ≡ calling held p
      → access m p (at s i) s.state ≡ ret cond state code
      → s.frames i ≡ c ∷ rest
      → Leaders n (record s {
        cond = assign s.cond (s.place i) cond;
        state = state;
        thread = assign s.thread i (calling held load);
        place = assign s.place i c;
        frames = assign s.frames i rest;
      })
  come_back-Leaders i {held} {p} {cond} {state} {c = c} {rest} lt e a below =
      single leaders i lt (s.place i) cond state (assign s.thread i (calling held load))
        (assign s.place i c) (assign s.frames i rest)
        (λ j other. (rw (eq_other other) refl, rw (eq_other other) refl, rw (eq_other other) refl))
        (each
          (λ d.
            (assign s.cond (s.place i) cond d).use_child + leads d (view s i)
            ≡ leads d (
              assign s.thread i (calling held load) i,
              assign s.place i c i,
              assign s.frames i rest i,
            )
              + (s.cond d).use_child)
          (s.place i)
          (rw (eq_self (s.place i), eq_self i, e, below) (omega (arith, return-balance i lt e a)))
          (λ d other. rw (eq_other other, eq_self i, below) (omega arith)))
        (return-small i p a) (return-Marks m p (at s i) s.state a).0 (return-fair i lt e a)
        (rw (eq_self i) (λ w. cc (w))) (rw (eq_self i) (λ w. cc (w)))

  pub call_up-Leaders :
      (i : ℕ) {held : Bool} {p : Pc} {cond : Cond} (parent : ℕ)
      → i < n
      → s.thread i ≡ calling held p
      → p ≡ descend
      → cond ≡ record (at s i) { use_child = 1 }
      → Leaders n (record s {
        cond = assign s.cond (s.place i) cond;
        thread = assign s.thread i (calling held check);
        place = assign s.place i parent;
        frames = assign s.frames i (s.place i ∷ s.frames i);
      })
  call_up-Leaders i {held} {p} {cond} parent lt e there marked =
      let unled : (at s i).use_child ≡ 0 =
        leaders.unled i lt (ap descending e ∙ ap (λ x. descending (calling held x)) there) in
      let one : cond.use_child ≡ 1 = ap (λ x. x.use_child) marked in
      single leaders i lt (s.place i) cond s.state (assign s.thread i (calling held check))
        (assign s.place i parent) (assign s.frames i (s.place i ∷ s.frames i))
        (λ j other. (rw (eq_other other) refl, rw (eq_other other) refl, rw (eq_other other) refl))
        (each
          (λ d.
            (assign s.cond (s.place i) cond d).use_child + leads d (view s i)
            ≡ leads d (
              assign s.thread i (calling held check) i,
              assign s.place i parent i,
              assign s.frames i (s.place i ∷ s.frames i) i,
            )
              + (s.cond d).use_child)
          (s.place i) (rw (eq_self (s.place i), eq_self i, e, there) (ground (arith, one, unled)))
          (λ d other. rw (eq_other other, eq_self i) (ground arith)))
        (omega (arith, one)) (ap (λ x. x.parent) marked)
        (inr (exclusive r leaders i lt (owner r leaders i e (inl there))))
        (rw (eq_self i) (λ w. cc (w))) (rw (eq_self i) (λ w. cc (w)))
