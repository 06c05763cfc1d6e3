-- ===== src/Fastsync/Cond/Orphans/Calm.antt =====
-- Steps of Fastsync/Cond/System.antt after which a waiter still has somebody who will release it.
use mathlib.Core.Path.{subst}
use reeact_v.Prelude.{
  ℕ, ◌+◌, ◌^◌, ◌≤◌, ◌<◌, ◌≡◌, ◌⊎◌, inl, inr, refl, sym, ap, ◌∙◌, Bool, true, false, none, List,
  arith,
}
use reeact_v.Fastsync.Cond.{Cond, Pc}
use reeact_v.Fastsync.Cond.System.{
  Thread, calling, asleep_word, resume, is_asleep_seq, wake, System, at, Begins,
}
use reeact_v.Fastsync.Cond.Invariant.Places.{resume_all, begins_all}
use reeact_v.Fastsync.Cond.Leaders.{view}
use reeact_v.Fastsync.Cond.Orphans.{urges, unraised, weigh, Some, awake, Released, Orphans}

-- A thread that does not begin to wait.
abbrev pub Lulls : Thread → Thread → Type 0
Lulls t t' = (is_asleep_seq t' ≡ true → is_asleep_seq t ≡ true) × (awake t' ≡ true → awake t ≡ true)

abbrev pub Idle : Thread → Type 0
Idle t = (is_asleep_seq t ≡ false) × (awake t ≡ false)

pub Lulls-refl : (t : Thread) → Lulls t t
Lulls-refl t = (λ w. w, λ w. w)

pub Idle-Lulls : (t t' : Thread) → Idle t' → Lulls t t'
Idle-Lulls t t' idle = (λ w. cc (w, idle.0), λ w. cc (w, idle.1))

pub resume-Idle : (held : Bool) (p : Pc) (code : ℕ) → Idle (resume held p code)
resume-Idle = resume_all Idle (refl, refl) (refl, refl)

pub Begins-Idle : {held : Bool} {p : Pc} → Begins held p → Idle (calling held p)
Begins-Idle {held} =
    begins_all (λ p. Idle (calling held p)) (λ p. (refl, refl)) (refl, refl) (λ kind. (refl, refl))

pub wake-Lulls : (t : Thread) → Lulls t (wake t)
wake-Lulls (asleep_word w) = (λ w. w, λ w. w)
wake-Lulls t = (λ w. w, λ w. w)

unraised-urges : (p : Pc) → unraised p ≤ urges p
unraised-urges Pc.load = omega arith
unraised-urges (Pc.store old) = omega arith
unraised-urges p = omega arith

-- A wait that has not raised `seq` has not called FUTEX_REQUEUE either.
pub unraised_weighs :
    (c : ℕ) (t : Thread) (place : ℕ) (frames : List ℕ)
    → weigh unraised c (t, place, frames) ≤ weigh urges c (t, place, frames)
unraised_weighs c (calling held p) place frames = ground (arith, unraised-urges p)
unraised_weighs c t place frames = omega arith

-- The waits that have gone on to the parent remain.
module _ {n : ℕ} (s t : System) where
  pub Some-up :
      (f g : Pc → ℕ) (c : ℕ)
      → ((i : ℕ) → weigh f c (view s i) ≤ weigh g c (view t i))
      → Some f n s c
      → Some g n t c
  Some-up f g c up (i, lt, more) = (i, lt, omega (arith, more, up i))

  module _ (orphans : Orphans n s) (j : ℕ) (lt : j < n)
      (parents : (at t j).parent ≡ (at s j).parent) (stays : t.place j ≡ s.place j) where
    pub sleeper_up :
        is_asleep_seq (s.thread j) ≡ true
        → t.seen j ≡ s.seen j
        → s.raised (s.place j) ≤ t.raised (s.place j)
        → ((i : ℕ) → weigh urges (s.place j) (view s i) ≤ weigh urges (s.place j) (view t i))
        → Released n t j
    sleeper_up a seen raised up = elim (orphans.sleeper j lt a) [
      | inl alone ↦ inl (parents ∙ alone)
      | inr (inl one) ↦
          inr (inl (subst (Some urges n t) (sym stays) (Some-up urges urges (s.place j) up one)))
      | inr (inr wrapped) ↦ inr (
          inr (
            subst (λ c. t.seen j + 2 ^ 32 ≤ t.raised c) (sym stays)
              (omega (arith, wrapped, seen, raised))))
    ]

    pub waiter_up :
        awake (s.thread j) ≡ true
        → s.noted j ≡ s.value (s.place j)
        → ((i : ℕ) → weigh unraised (s.place j) (view s i) ≤ weigh unraised (s.place j) (view t i))
        → ((at t j).parent ≡ none) ⊎ Some unraised n t (t.place j)
    waiter_up a now up = elim (orphans.waiter j lt a now) [
      | inl alone ↦ inl (parents ∙ alone)
      | inr one ↦
          inr (subst (Some unraised n t) (sym stays) (Some-up unraised unraised (s.place j) up one))
    ]

module _ {n : ℕ} {s : System} (orphans : Orphans n s) (cond : ℕ → Cond) (state : ℕ)
    (thread : ℕ → Thread) (place : ℕ → ℕ) (frames : ℕ → List ℕ) where
  abbrev after : System
  after = record s { cond = cond; state = state; thread = thread; place = place; frames = frames }

  -- No access to `seq`, and no thread begins to wait.
  pub calm :
      ((c : ℕ) → (cond c).parent ≡ (s.cond c).parent)
      → ((j : ℕ)
          → (is_asleep_seq (thread j) ≡ true
              → (is_asleep_seq (s.thread j) ≡ true) × (place j ≡ s.place j))
            × (awake (thread j) ≡ true → (awake (s.thread j) ≡ true) × (place j ≡ s.place j)))
      → ((j : ℕ)
          → j < n
          → is_asleep_seq (thread j) ≡ true
          → (i : ℕ)
          → weigh urges (s.place j) (view s i)
            ≤ weigh urges (s.place j) (thread i, place i, frames i))
      → ((c i : ℕ) → weigh unraised c (view s i) ≤ weigh unraised c (thread i, place i, frames i))
      → Orphans n
          (record s { cond = cond; state = state; thread = thread; place = place; frames = frames })
  calm parents known up up' = record {
    sleeper = λ j lt a.
        let (before, stays) = (known j).0 a in
        sleeper_up s after orphans j lt (parents (place j) ∙ ap (λ c. (s.cond c).parent) stays)
          stays before refl (omega arith) (up j lt a);
    waiter = λ j lt a now.
        let (before, stays) = (known j).1 a in
        waiter_up s after orphans j lt (parents (place j) ∙ ap (λ c. (s.cond c).parent) stays) stays
          before (now ∙ ap s.value stays) (up' (s.place j));
  }
