-- ===== src/Fastsync/Cond/Leaders/Access.antt =====
-- The accesses of Fastsync/Cond/System.antt that begin or end a lead, and those beside them.
use mathlib.Core.Path.{subst}
use reeact_v.Prelude.{
  ℕ, ◌+◌, ◌<◌, ◌≡◌, ◌≢◌, ◌⊎◌, inl, inr, refl, sym, ap, ◌∙◌, Bool, true, false, arith, assign,
  le-tally,
}
use reeact_v.Fastsync.Futex.{Futex}
use reeact_v.Fastsync.Cond.{Cond, Pc, Act, descend, clear, go, access}
use reeact_v.Fastsync.Cond.System.{
  Waiter, pc_of, calling, asleep_word, System, seq_sleepers, at, Reach,
}
use reeact_v.Fastsync.Cond.Invariant.{At}
use reeact_v.Fastsync.Cond.Invariant.Places.{eq_self, eq_other, each}
use reeact_v.Fastsync.Cond.Invariant.Spots.{Inv, calling-At}
use reeact_v.Fastsync.Cond.Steps.{Reach-Inv}
use reeact_v.Fastsync.Cond.Safety.{has_mutex, cond_mutual_exclusion}
use reeact_v.Fastsync.Cond.Leaders.{
  releases, releasing, view, leads, descending, noting, relies, Leaders, go-Marks, KernelMarks,
  access-KernelMarks,
}
use reeact_v.Fastsync.Cond.Leaders.Single.{single}
use reeact_v.Fastsync.Cond.Leaders.Calm.{
  asleep_releases, descending_only, noting_only, relies_not, owns_there, Keeps,
}

module _ {k : Futex} {n m : ℕ} {s : System} (r : Reach k n m s) (leaders : Leaders n s) where
  pub inv : Inv m s
  inv = Reach-Inv r

  -- While a thread has the mutex no other relies on `use_child`.
  pub exclusive :
      (i : ℕ)
      → i < n
      → has_mutex (s.thread i) ≡ true
      → (j : ℕ) → j < n
      → i ≢ j
      → (descending (s.thread j) ≡ false) × (noting (s.thread j) ≡ false)
  exclusive i lt owns j lt' other =
      let there = owns_there m (s.thread j) (at s j).mutex (inv.spot j).0 in
      (
        not_true (descending (s.thread j))
            (λ w. other (cond_mutual_exclusion r i j lt lt' owns (there.0 w))),
        not_true (noting (s.thread j))
            (λ w. other (cond_mutual_exclusion r i j lt lt' owns (there.1 w))),
      )
    where
      not_true : (b : Bool) → (b ≡ true → ⊥) → b ≡ false
      not_true true no_way = absurd (no_way refl)
      not_true false no_way = refl

  pub owner :
      (i : ℕ) {held : Bool} {p : Pc}
      → s.thread i ≡ calling held p
      → (p ≡ descend) ⊎ (p ≡ clear)
      → has_mutex (s.thread i) ≡ true
  owner i {held} {p} e (inl there) =
      let owns : held ≡ true =
        subst (λ x. At m held x (at s i).mutex → held ≡ true) (sym there) (λ h. h.0)
          (calling-At inv i e) in
      ap has_mutex e
      ∙ ap (λ b. has_mutex (calling b p)) owns
      ∙ ap (λ x. has_mutex (calling true x)) there
  owner i {held} {p} e (inr there) =
      let owns : held ≡ true =
        subst (λ x. At m held x (at s i).mutex → held ≡ true) (sym there) (λ h. h.0)
          (calling-At inv i e) in
      ap has_mutex e
      ∙ ap (λ b. has_mutex (calling b p)) owns
      ∙ ap (λ x. has_mutex (calling true x)) there

  -- A thread that releases leads.
  pub used_there :
      (i : ℕ) {held : Bool} {p : Pc}
      → i < n
      → s.thread i ≡ calling held p
      → p ≡ clear
      → (at s i).use_child ≡ 1
  used_there i {held} {p} lt e there =
      let mine : 0 < leads (s.place i) (view s i) =
        rw (e, there, eq_self (s.place i)) (omega arith) in
      omega (
        arith,
        mine,
        le-tally (leads (s.place i)) n (view s) i lt,
        leaders.used (s.place i),
        leaders.once (s.place i),
      )

  pub kernel :
      (i : ℕ) {held : Bool} {p : Pc} {a : Act}
      → s.thread i ≡ calling held p
      → access m p (at s i) s.state ≡ a
      → KernelMarks p a
  kernel i {p} e a = access-KernelMarks m p (at s i) s.state a

  pub entered :
      (i : ℕ) {held : Bool} {p : Pc} (q : Pc)
      → s.thread i ≡ calling held p
      → (releases q ≡ releases p) × (relies q ≡ false)
      → Keeps (s.thread i) (calling held q)
  entered i {held} q e (same, unread) =
      let plain = relies_not held q unread in
      rw e (same, λ w. cc (w, plain.0), λ w. cc (w, plain.1))

  pub waiter-Keeps :
      (i : ℕ) {held : Bool} {p : Pc} (w : Waiter)
      → s.thread i ≡ calling held p
      → releases (pc_of w) ≡ releases p
      → Keeps (s.thread i) (asleep_word w)
  waiter-Keeps i Waiter.relocking e same = rw e (same, λ w. cc (w), λ w. cc (w))
  waiter-Keeps i (Waiter.unlocking cur p) e same = rw e (same, λ w. cc (w), λ w. cc (w))
  waiter-Keeps i (Waiter.plainly p) e same = rw e (same, λ w. cc (w), λ w. cc (w))

  pub roused : (c j : ℕ) → seq_sleepers n s.thread s.place c j ≡ true → releasing (s.thread j) ≡ 0
  roused c j a = asleep_releases (s.thread j) (ground (arith, a))

  pub advance-Leaders :
      (i : ℕ) {held : Bool} {p q : Pc} {cond : Cond} {state : ℕ}
      → i < n
      → s.thread i ≡ calling held p
      → access m p (at s i) s.state ≡ go cond state q
      → Leaders n (record s {
        cond = assign s.cond (s.place i) cond;
        state = state;
        thread = assign s.thread i (calling held q);
      })
  advance-Leaders i {held} {p} {q} {cond} {state} lt e a =
      let unled : p ≡ descend → (at s i).use_child ≡ 0 = λ there.
        leaders.unled i lt (ap descending e ∙ ap (λ x. descending (calling held x)) there) in
      let marks = go-Marks m p (at s i) s.state (leaders.once (s.place i)) unled a in
      single leaders i lt (s.place i) cond state (assign s.thread i (calling held q)) s.place
        s.frames (λ j other. (rw (eq_other other) refl, refl, refl))
        (each
          (λ d.
            (assign s.cond (s.place i) cond d).use_child + leads d (view s i)
            ≡ leads d (assign s.thread i (calling held q) i, s.place i, s.frames i)
              + (s.cond d).use_child)
          (s.place i) (rw (eq_self (s.place i), eq_self i, e) (omega (arith, marks.balance)))
          (λ d other. rw (eq_other other) (omega arith)))
        marks.small marks.same_parent
        (elim marks.untouched [
          | inl same ↦ inl same
          | inr there ↦ inr (exclusive i lt (owner i e (inl there)))
        ])
        (rw (eq_self i, eq_self (s.place i)) (λ w. marks.descends (descending_only held q w)))
        (rw (eq_self i, eq_self (s.place i)) (λ w. marks.notes (noting_only held q w)))
