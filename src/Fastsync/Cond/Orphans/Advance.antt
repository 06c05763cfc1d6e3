-- ===== src/Fastsync/Cond/Orphans/Advance.antt =====
-- An access of Fastsync/Cond/System.antt within a call leaves every waiter somebody who will release it.
use mathlib.Core.Path.{subst}
use reeact_v.Prelude.{
  ℕ, ◌+◌, ◌≤◌, ◌<◌, ◌≡◌, ◌≢◌, ◌⊎◌, inl, inr, refl, sym, ap, ◌∙◌, Bool, true, false, none, arith,
  assign, ℕ_discrete,
}
use reeact_v.Fastsync.Futex.{Futex}
use reeact_v.Fastsync.Cond.{Cond, Pc, note, go, access}
use reeact_v.Fastsync.Cond.System.{
  calling, is_asleep_seq, System, at, raises, value_after, notes, Step, advance, Reach, later,
}
use reeact_v.Fastsync.Cond.Invariant.Places.{eq_self, eq_other, assign_all}
use reeact_v.Fastsync.Cond.Counts.{awaits, stores, Locals, Onto, go-Onto}
use reeact_v.Fastsync.Cond.Counts.Writes.{notes_awaits}
use reeact_v.Fastsync.Cond.Counts.Steps.{Reach-Counts}
use reeact_v.Fastsync.Cond.Leaders.{noting, view}
use reeact_v.Fastsync.Cond.Leaders.Steps.{Reach-Leaders}
use reeact_v.Fastsync.Cond.Orphans.{
  urges, unraised, weigh, Some, awake, Released, Orphans, go-urges,
}
use reeact_v.Fastsync.Cond.Orphans.Persist.{weigh_up}
use reeact_v.Fastsync.Cond.Orphans.Calm.{Some-up, sleeper_up, waiter_up}
use reeact_v.Fastsync.Cond.Orphans.Noter.{raises-cases, awake-waiting, noter_leads}

module _ {k : Futex} {n m : ℕ} {s : System} (r : Reach k n m s) (orphans : Orphans n s) where
  module _ (i : ℕ) {held : Bool} {p q : Pc} {cond : Cond} {state : ℕ} (lt : i < n)
      (e : s.thread i ≡ calling held p) (a : access m p (at s i) s.state ≡ go cond state q) where
    abbrev t : System
    t = record {
      cond = assign s.cond (s.place i) cond;
      state = state;
      thread = assign s.thread i (calling held q);
      place = s.place;
      frames = s.frames;
      raised = assign s.raised (s.place i) (s.raised (s.place i) + raises p);
      value = assign s.value (s.place i) (value_after p (s.value (s.place i)) (s.noted i));
      seen = assign s.seen i (notes p (s.raised (s.place i)) (s.seen i));
      noted = assign s.noted i (notes p (s.value (s.place i)) (s.noted i));
      count = s.count;
    }

    abbrev step : Step k n m s t
    step = advance i lt e a

    parents : (c : ℕ) → (t.cond c).parent ≡ (s.cond c).parent
    parents =
        assign_all (λ c x. x.parent ≡ (s.cond c).parent) s.cond (s.place i) cond (λ c. refl)
          (go-urges m p (at s i) s.state a).0

    raised_up : (c : ℕ) → s.raised c ≤ t.raised c
    raised_up =
        assign_all (λ c x. s.raised c ≤ x) s.raised (s.place i) (s.raised (s.place i) + raises p)
          (λ c. omega arith) (omega arith)

    urges_up : (c j : ℕ) → weigh urges c (view s j) ≤ weigh urges c (view t j)
    urges_up c = weigh_up urges c refl step (λ _. (go-urges m p (at s i) s.state a).1)

    unraised_up :
        (c : ℕ)
        → (s.place i ≢ c) ⊎ (stores p ≡ false)
        → (j : ℕ) → weigh unraised c (view s j) ≤ weigh unraised c (view t j)
    unraised_up c (inl apart) = weigh_up unraised c refl step (λ same. absurd (apart same))
    unraised_up c (inr quiet) =
        weigh_up unraised c refl step (λ _. (go-urges m p (at s i) s.state a).2 quiet)

    onto : Onto p q (s.value (s.place i)) (s.noted i) cond
    onto =
        go-Onto m p (at s i) s.state (s.value (s.place i)) (s.noted i)
          ((Reach-Counts r).counted (s.place i))
          (subst (λ t. Locals t (s.noted i)) e ((Reach-Counts r).locals i)) a

    stays_asleep :
        (j : ℕ) → i ≢ j → is_asleep_seq (t.thread j) ≡ true → is_asleep_seq (s.thread j) ≡ true
    stays_asleep j other = rw (eq_other other) (λ w. w)

    advance-sleeper : (j : ℕ) → j < n → is_asleep_seq (t.thread j) ≡ true → Released n t j
    advance-sleeper j lt' = elim (ℕ_discrete i j) [
      | yes here ↦
          subst (λ j. is_asleep_seq (t.thread j) ≡ true → Released n t j) here
            (rw (eq_self i) (λ w. cc (w)))
      | no other ↦ λ w.
          sleeper_up s t orphans j lt' (parents (s.place j)) refl (stays_asleep j other w)
            (rw (eq_other other) refl) (raised_up (s.place j)) (urges_up (s.place j))
    ]

    -- A waiter that was one before.
    old_waiter :
        (j : ℕ)
        → j < n
        → awake (s.thread j) ≡ true
        → t.noted j ≡ s.noted j
        → t.noted j ≡ t.value (s.place j)
        → t.value (s.place j) ≡ s.value (s.place j)
        → (s.place i ≢ s.place j) ⊎ (stores p ≡ false)
        → ((at t j).parent ≡ none) ⊎ Some unraised n t (s.place j)
    old_waiter j lt' w mine now same fine =
        waiter_up s t orphans j lt' (parents (s.place j)) refl w (sym mine ∙ now ∙ same)
          (unraised_up (s.place j) fine)

    goes_on : t.thread i ≡ calling held q
    goes_on = rw (eq_self i) refl

    goes_awake : awake (t.thread i) ≡ true → awaits q ≡ true
    goes_awake w = sym (ap awake goes_on) ∙ w

    stays_awake : (j : ℕ) → i ≢ j → awake (t.thread j) ≡ true → awake (s.thread j) ≡ true
    stays_awake j other = rw (eq_other other) (λ w. w)

    same_noted : (j : ℕ) → i ≢ j → t.noted j ≡ s.noted j
    same_noted j other = rw (eq_other other) refl

    same_value :
        (c : ℕ)
        → (s.place i ≢ c) ⊎ (value_after p (s.value (s.place i)) (s.noted i) ≡ s.value (s.place i))
        → t.value c ≡ s.value c
    same_value c (inl apart) = rw (eq_other apart) refl
    same_value c (inr same) =
        assign_all (λ c x. x ≡ s.value c) s.value (s.place i)
          (value_after p (s.value (s.place i)) (s.noted i)) (λ c. refl) same c

    new_waiter :
        value_after p (s.value (s.place i)) (s.noted i) ≡ s.value (s.place i)
        → stores p ≡ false
        → awake (t.thread i) ≡ true
        → t.noted i ≡ t.value (s.place i)
        → ((at t i).parent ≡ none) ⊎ Some unraised n t (s.place i)
    new_waiter same quiet w now = elim (onto.awaited (goes_awake w)) [
      | inl notes_it ↦
          let here : s.thread i ≡ calling held note = e ∙ ap (calling held) notes_it in
          elim ((Reach-Leaders r).led i lt (ap noting here)) [
            | inl alone ↦ inl (parents (s.place i) ∙ alone)
            | inr used ↦ inr (
                Some-up s t unraised unraised (s.place i) (unraised_up (s.place i) (inr quiet))
                  (noter_leads r i lt here used))
          ]
      | inr before ↦
          old_waiter i lt (ap awake e ∙ before)
            (rw (eq_self i) (notes_awaits p (s.value (s.place i)) (s.noted i) before)) now
            (same_value (s.place i) (inr same)) (inr quiet)
    ]

    -- A waiter at the object that has just been raised knows less than its value.
    outdated :
        (j : ℕ)
        → j < n
        → i ≢ j
        → raises p ≡ 1
        → awake (s.thread j) ≡ true
        → t.noted j ≡ t.value (s.place j)
        → s.place i ≢ s.place j
    outdated j lt' other up w now same =
        let old = (Reach-Counts r).behind j lt' (awake-waiting (s.thread j) w) in
        let more : t.raised (s.place j) ≡ s.raised (s.place j) + 1 =
          subst (λ c. t.raised c ≡ s.raised c + 1) same (rw (eq_self (s.place i), up) refl) in
        let known : t.seen j ≡ s.seen j = rw (eq_other other) refl in
        let asleep : awake (t.thread j) ≡ true = rw (eq_other other) w in
        let new = (Reach-Counts (later r step)).behind j lt' (awake-waiting (t.thread j) asleep) in
        let strict = new.2 (omega (arith, more, known, old.0, old.1)) in omega (arith, strict, now)

    -- A raise does not begin to wait.
    raiser_awakens : raises p ≡ 1 → awaits p ≡ false → awake (t.thread i) ≡ true → ⊥
    raiser_awakens up none_awaited w = elim (onto.awaited (goes_awake w)) [
      | inl notes_it ↦ cc (ap raises notes_it, up)
      | inr before ↦ cc (before, none_awaited)
    ]

    advance-waiter :
        (j : ℕ)
        → j < n
        → awake (t.thread j) ≡ true
        → t.noted j ≡ t.value (s.place j)
        → ((at t j).parent ≡ none) ⊎ Some unraised n t (s.place j)
    advance-waiter j lt' w now = elim (raises-cases p (s.value (s.place i)) (s.noted i)) [
      | inl (up, none_awaited) ↦ elim (ℕ_discrete i j) [
        | yes here ↦
            absurd
              (raiser_awakens up none_awaited (subst (λ j. awake (t.thread j) ≡ true) (sym here) w))
        | no other ↦
            let before = stays_awake j other w in
            let apart = outdated j lt' other up before now in
            old_waiter j lt' before (same_noted j other) now (same_value (s.place j) (inl apart))
              (inl apart)
      ]
      | inr (same, quiet) ↦ elim (ℕ_discrete i j) [
        | yes here ↦
            subst
              (λ j.
                awake (t.thread j) ≡ true
                → t.noted j ≡ t.value (s.place j)
                → ((at t j).parent ≡ none) ⊎ Some unraised n t (s.place j))
              here (new_waiter same quiet) w now
        | no other ↦
            old_waiter j lt' (stays_awake j other w) (same_noted j other) now
              (same_value (s.place j) (inr same)) (inr quiet)
      ]
    ]

    pub advance-Orphans : Orphans n (record {
      cond = assign s.cond (s.place i) cond;
      state = state;
      thread = assign s.thread i (calling held q);
      place = s.place;
      frames = s.frames;
      raised = assign s.raised (s.place i) (s.raised (s.place i) + raises p);
      value = assign s.value (s.place i) (value_after p (s.value (s.place i)) (s.noted i));
      seen = assign s.seen i (notes p (s.raised (s.place i)) (s.seen i));
      noted = assign s.noted i (notes p (s.value (s.place i)) (s.noted i));
      count = s.count;
    })
    advance-Orphans = record { sleeper = advance-sleeper; waiter = advance-waiter }
