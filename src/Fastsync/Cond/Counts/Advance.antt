-- ===== src/Fastsync/Cond/Counts/Advance.antt =====
-- An access of Fastsync/Cond/System.antt within a call, which may read or write `seq`.
use mathlib.Core.Path.{subst}
use reeact_v.Prelude.{
  ℕ, ◌+◌, ◌%◌, ◌^◌, ◌<◌, ◌≤◌, ◌≡◌, ◌≢◌, inl, inr, sym, ap, ◌∙◌, Bool, true, arith, assign,
  ℕ_discrete, Bool-cases,
}
use reeact_v.Fastsync.Futex.{Futex}
use reeact_v.Fastsync.Cond.{Cond, Pc, note, go, access}
use reeact_v.Fastsync.Cond.System.{Thread, calling, System, at, raises, value_after, notes, Reach}
use reeact_v.Fastsync.Cond.Invariant.{At}
use reeact_v.Fastsync.Cond.Invariant.Places.{eq_self, eq_other, each}
use reeact_v.Fastsync.Cond.Invariant.Spots.{calling-At}
use reeact_v.Fastsync.Cond.Steps.{Reach-Inv}
use reeact_v.Fastsync.Cond.Safety.{has_mutex, cond_mutual_exclusion}
use reeact_v.Fastsync.Cond.Counts.{
  awaits, waiting, stores, storing, Locals, Behind, Counts, Onto, go-Onto, go-Behind,
}
use reeact_v.Fastsync.Cond.Counts.Writes.{
  storing_owns, notes_awaits, self-Behind, value_up, not_both,
}

module _ {k : Futex} {n m : ℕ} {s : System} (r : Reach k n m s) (counts : Counts n s) where
  -- A thread within a wait and one that is about to write `seq` are one.
  alone :
      (i j : ℕ)
      → i < n
      → j < n
      → storing (s.thread i) ≡ true
      → has_mutex (s.thread j) ≡ true
      → i ≡ j
  alone i j lt lt' w owns =
      cond_mutual_exclusion r i j lt lt'
        (storing_owns m (s.thread i) (at s i).mutex ((Reach-Inv r).spot i).0 w) owns

  module _ (i : ℕ) {held : Bool} {p q : Pc} {cond : Cond} {state : ℕ} (lt : i < n)
      (e : s.thread i ≡ calling held p) (a : access m p (at s i) s.state ≡ go cond state q) where
    c : ℕ
    c = s.place i

    onto : Onto p q (s.value (s.place i)) (s.noted i) cond
    onto =
        go-Onto m p (at s i) s.state (s.value (s.place i)) (s.noted i) (counts.counted (s.place i))
          (subst (λ t. Locals t (s.noted i)) e (counts.locals i)) a

    abbrev value' : ℕ → ℕ
    value' = assign s.value (s.place i) (value_after p (s.value (s.place i)) (s.noted i))

    abbrev raised' : ℕ → ℕ
    raised' = assign s.raised (s.place i) (s.raised (s.place i) + raises p)

    abbrev noted' : ℕ → ℕ
    noted' = assign s.noted i (notes p (s.value (s.place i)) (s.noted i))

    abbrev seen' : ℕ → ℕ
    seen' = assign s.seen i (notes p (s.raised (s.place i)) (s.seen i))

    abbrev thread' : ℕ → Thread
    thread' = assign s.thread i (calling held q)

    writer : stores p ≡ true → storing (s.thread i) ≡ true
    writer w = ap storing e ∙ w

    -- A waiter other than the thread that makes the access.
    other-Behind :
        (j : ℕ)
        → j < n
        → waiting (s.thread j) ≡ true
        → Behind (value' (s.place j)) (raised' (s.place j)) (s.noted j) (s.seen j)
    other-Behind j lt' w = elim (ℕ_discrete (s.place i) (s.place j)) [
      | yes same ↦
          subst (λ c. Behind (value' c) (raised' c) (s.noted j) (s.seen j)) same
            (rw (eq_self (s.place i)) (
              go-Behind p (s.value (s.place i)) (s.raised (s.place i)) (s.noted i)
                (subst (λ c. Behind (s.value c) (s.raised c) (s.noted j) (s.seen j)) (sym same)
                  (counts.behind j lt' w))
                (λ wr.
                  (counts.latest i j lt lt' (writer wr) w same, counts.loaded i lt (writer wr)))))
      | no apart ↦ rw (eq_other apart) (counts.behind j lt' w)
    ]

    other-loaded :
        (j : ℕ) → i ≢ j → storing (s.thread j) ≡ true → j < n → s.noted j ≤ value' (s.place j)
    other-loaded j other w lt' = elim (ℕ_discrete (s.place i) (s.place j)) [
      | yes same ↦
          let before = subst (λ c. s.noted j ≤ s.value c) (sym same) (counts.loaded j lt' w) in
          subst (λ c. s.noted j ≤ value' c) same
            (rw (eq_self (s.place i)) (elim (Bool-cases (stores p)) [
              | inl wr ↦
                  let same_thread = alone j i lt' lt w (
                    storing_owns m (s.thread i) (at s i).mutex ((Reach-Inv r).spot i).0
                      (writer wr)) in
                  absurd (other (sym same_thread))
              | inr quiet ↦
                  let up = value_up p (s.value (s.place i)) (s.noted i) quiet in
                  omega (arith, before, up)
            ]))
      | no apart ↦ rw (eq_other apart) (counts.loaded j lt' w)
    ]

    noter_owns : p ≡ note → has_mutex (s.thread i) ≡ true
    noter_owns notes_it =
        let owns : held ≡ true =
          subst (λ x. At m held x (at s i).mutex → held ≡ true) (sym notes_it) (λ h. h.0)
            (calling-At (Reach-Inv r) i e) in
        ap has_mutex e
        ∙ ap (λ b. has_mutex (calling b p)) owns
        ∙ ap (λ x. has_mutex (calling true x)) notes_it

    -- The thread that makes the access writes `seq` next.
    reader-latest :
        (j : ℕ)
        → j < n
        → stores q ≡ true
        → waiting (s.thread j) ≡ true
        → s.place i ≡ s.place j
        → s.noted j ≤ notes p (s.value (s.place i)) (s.noted i)
    reader-latest j lt' w w' same =
        rw (onto.stored w)
          (subst (λ c. s.noted j ≤ s.value c) (sym same) (counts.behind j lt' w').0)

    -- It waits next.
    waiter-latest :
        (x : ℕ)
        → x < n
        → i ≢ x
        → storing (s.thread x) ≡ true
        → awaits q ≡ true
        → s.place x ≡ s.place i
        → notes p (s.value (s.place i)) (s.noted i) ≤ s.noted x
    waiter-latest x lt' other w w' same = elim (onto.awaited w') [
      | inl notes_it ↦ absurd (other (sym (alone x i lt' lt w (noter_owns notes_it))))
      | inr before ↦
          rw (notes_awaits p (s.value (s.place i)) (s.noted i) before)
            (counts.latest x i lt' lt w (ap waiting e ∙ before) same)
    ]

    both-latest :
        (x j : ℕ)
        → x < n
        → j < n
        → storing (thread' x) ≡ true
        → waiting (thread' j) ≡ true
        → s.place x ≡ s.place j
        → noted' j ≤ noted' x
    both-latest x j lt_x lt_j = elim (ℕ_discrete i x) [
      | yes here ↦ elim (ℕ_discrete i j) [
        | yes there ↦
            subst
              (λ x.
                storing (thread' x) ≡ true
                → waiting (thread' j) ≡ true
                → s.place x ≡ s.place j
                → noted' j ≤ noted' x)
              here
              (subst
                (λ j.
                  storing (thread' i) ≡ true
                  → waiting (thread' j) ≡ true
                  → s.place i ≡ s.place j
                  → noted' j ≤ noted' i)
                there (rw (eq_self i) (λ w w' same. absurd (not_both q w w'))))
        | no apart ↦
            subst
              (λ x.
                storing (thread' x) ≡ true
                → waiting (thread' j) ≡ true
                → s.place x ≡ s.place j
                → noted' j ≤ noted' x)
              here (rw (eq_self i, eq_other apart) (λ w w' same. reader-latest j lt_j w w' same))
      ]
      | no other ↦ elim (ℕ_discrete i j) [
        | yes there ↦
            subst
              (λ j.
                storing (thread' x) ≡ true
                → waiting (thread' j) ≡ true
                → s.place x ≡ s.place j
                → noted' j ≤ noted' x)
              there
              (rw (eq_other other, eq_self i) (λ w w' same. waiter-latest x lt_x other w w' same))
        | no apart ↦
            rw (eq_other other, eq_other apart) (λ w w' same. counts.latest x j lt_x lt_j w w' same)
      ]
    ]

    pub advance-Counts : Counts n (record {
      cond = assign s.cond (s.place i) cond;
      state = state;
      thread = thread';
      place = s.place;
      frames = s.frames;
      raised = raised';
      value = value';
      seen = seen';
      noted = noted';
      count = s.count;
    })
    advance-Counts = record {
      counted =
          each (λ d. (assign s.cond (s.place i) cond d).seq ≡ value' d % 2 ^ 64) (s.place i)
            (rw (eq_self (s.place i)) onto.counted)
            (λ d other. rw (eq_other other) (counts.counted d));
      locals =
          each (λ j. Locals (thread' j) (noted' j)) i (rw (eq_self i) onto.locals)
            (λ j other. rw (eq_other other) (counts.locals j));
      behind =
          each
            (λ j.
              j < n
              → waiting (thread' j) ≡ true
              → Behind (value' (s.place j)) (raised' (s.place j)) (noted' j) (seen' j))
            i
            (rw (eq_self i, eq_self (s.place i))
              (λ lt' w.
                self-Behind p (s.value (s.place i)) (s.raised (s.place i)) (s.noted i) (s.seen i)
                  (elim (onto.awaited w) [
                    | inl notes_it ↦ inl notes_it
                    | inr before ↦ inr (before, counts.behind i lt (ap waiting e ∙ before))
                  ])))
            (λ j other. rw (eq_other other) (λ lt' w. other-Behind j lt' w));
      loaded =
          each (λ j. j < n → storing (thread' j) ≡ true → noted' j ≤ value' (s.place j)) i
            (rw (eq_self i, eq_self (s.place i)) (λ lt' w. rw (onto.stored w) (omega arith)))
            (λ j other. rw (eq_other other) (λ lt' w. other-loaded j other w lt'));
      latest = both-latest;
    }
