-- ===== src/Fastsync/Cond/Orphans/Frames.antt =====
-- The objects that a call of Fastsync/Cond/System.antt comes back to: each is below the next one.
use mathlib.Core.Path.{subst}
use reeact_v.Prelude.{ℕ, ◌≡◌, ap, ◌∙◌, some, List, [], ◌∷◌, arith, assign}
use reeact_v.Fastsync.Futex.{Futex}
use reeact_v.Fastsync.Mutex.{fastsync_mutex_unlock}
use reeact_v.Fastsync.Mutex as Mutex
use reeact_v.Fastsync.Cond.{
  Cond, Pc, check, call_parent, at_parent, after_raise, within_unlock, within_call, enter_unlock,
  access,
}
use reeact_v.Fastsync.Cond.System.{
  System, at, Step, call, advance, return, call_up, come_back, sleep_seq, wait_seq_returns,
  interrupt_seq, sleep_word, wait_word_returns, interrupt_word, wake_seq_up, wake_word_up,
  requeue_up, Reach, start, later,
}
use reeact_v.Fastsync.Cond.Invariant.{call-At}
use reeact_v.Fastsync.Cond.Invariant.Places.{eq_self, eq_other, each, leave-frames}
use reeact_v.Fastsync.Cond.Invariant.Spots.{calling-At, Stacked-at}
use reeact_v.Fastsync.Cond.Steps.{Reach-Inv}
use reeact_v.Fastsync.Cond.Orphans.{go-urges, return-urges, same_parent}

-- The object in front has its parent at `place`.
abbrev pub Linked : (ℕ → Cond) → (place : ℕ) → List ℕ → Type 0
Linked cond place [] = Unit
Linked cond place (c ∷ rest) = ((cond c).parent ≡ some place) × Linked cond c rest

stays-Linked :
    (cond cond' : ℕ → Cond) (place : ℕ) (frames : List ℕ)
    → ((c : ℕ) → (cond' c).parent ≡ (cond c).parent)
    → Linked cond place frames
    → Linked cond' place frames
stays-Linked cond cond' place [] same linked = tt
stays-Linked cond cond' place (c ∷ rest) same (here, below) =
    (same c ∙ here, stays-Linked cond cond' c rest same below)

call-parent :
    (m : ℕ) (p : Pc) {q : Pc} (cond : Cond) {cond' : Cond} (state : ℕ) {parent : ℕ}
    → access m p cond state ≡ call_parent cond' parent q
    → cond.parent ≡ some parent
unfolding access at_parent after_raise within_unlock within_call enter_unlock fastsync_mutex_unlock
    Mutex.access
call-parent m check cond state e = ground arith
call-parent m p cond state e = ground arith

abbrev pub AllLinked : System → Type 0
AllLinked s = (j : ℕ) → Linked s.cond (s.place j) (s.frames j)

module _ (s : System) (linked : AllLinked s) where
  accessed :
      (c : ℕ) (cond : Cond)
      → cond.parent ≡ (s.cond c).parent
      → (j : ℕ) → Linked (assign s.cond c cond) (s.place j) (s.frames j)
  accessed c cond same j =
      stays-Linked s.cond (assign s.cond c cond) (s.place j) (s.frames j)
        (same_parent s.cond c cond same) (linked j)

  -- One thread changes its place.
  replaced :
      (c : ℕ) (cond : Cond) (i place : ℕ) (frames : List ℕ)
      → cond.parent ≡ (s.cond c).parent
      → Linked (assign s.cond c cond) place frames
      → (j : ℕ)
      → Linked (assign s.cond c cond) (assign s.place i place j) (assign s.frames i frames j)
  replaced c cond i place frames same one =
      each
        (λ j. Linked (assign s.cond c cond) (assign s.place i place j) (assign s.frames i frames j))
        i (rw (eq_self i) one) (λ j other. rw (eq_other other) (accessed c cond same j))

module _ {k : Futex} {n m : ℕ} {s : System} (r : Reach k n m s) (linked : AllLinked s) where
  Step-Linked : {t : System} → Step k n m s t → AllLinked t
  Step-Linked (call i c held lt e begins) =
      each (λ j. Linked s.cond (assign s.place i c j) (s.frames j)) i
        (rw (eq_self i, leave-frames held (s.frames i) (Stacked-at (Reach-Inv r) i e)) tt)
        (λ j other. rw (eq_other other) (linked j))
  Step-Linked (advance i {p = p} {cond = cond} lt e a) =
      accessed s linked (s.place i) cond (go-urges m p (at s i) s.state a).0
  Step-Linked (return i {p = p} {cond} lt e a below) =
      accessed s linked (s.place i) cond (return-urges m p (at s i) s.state a).0
  Step-Linked (call_up i {held} {p} {cond = cond} {parent} lt e a begins) =
      let marked = (call-At m held p (at s i) s.state (calling-At (Reach-Inv r) i e) a).3 in
      let same : cond.parent ≡ (at s i).parent = ap (λ x. x.parent) marked in
      replaced s linked (s.place i) cond i parent (s.place i ∷ s.frames i) same (
        same_parent s.cond (s.place i) cond same (s.place i) ∙ call-parent m p (at s i) s.state a,
        accessed s linked (s.place i) cond same i,
      )
  Step-Linked (come_back i {p = p} {cond} {c = c} {rest} lt e a below) =
      let same = (return-urges m p (at s i) s.state a).0 in
      replaced s linked (s.place i) cond i c rest same
        (subst (Linked (assign s.cond (s.place i) cond) (s.place i)) below
          (accessed s linked (s.place i) cond same i)).1
  Step-Linked (sleep_seq i lt e a slept) = linked
  Step-Linked (wait_seq_returns i lt e a) = linked
  Step-Linked (interrupt_seq i lt e) = linked
  Step-Linked (sleep_word i w lt e a slept) = linked
  Step-Linked (wait_word_returns i lt e a) = linked
  Step-Linked (interrupt_word i lt e) = linked
  Step-Linked (wake_seq_up i lt e a woke) = linked
  Step-Linked (wake_word_up i lt e a woke) = linked
  Step-Linked (requeue_up i lt e a moves) = linked

pub Reach-Linked : {k : Futex} {n m : ℕ} {s : System} → Reach k n m s → AllLinked s
Reach-Linked (start old first fresh) = λ j. tt
Reach-Linked (later r step) = Step-Linked r (Reach-Linked r) step
