-- ===== src/Fastsync/Cond/Claim.antt =====
-- The binding of a condition variable to its mutex in `fastsync_cond_wait` of
-- src/fastsync/fastsync_cond.c never fails for threads that use one mutex with it.
use mathlib.Core.Path.{subst}
use reeact_v.Prelude.{
  ℕ, ◌<◌, ◌≡◌, ◌≢◌, ◌⊎◌, inl, inr, sym, ap, ◌∙◌, Bool, true, false, arith, assign, refl,
}
use reeact_v.Fastsync.Mutex as Mutex
use reeact_v.Fastsync.Futex.{Futex}
use reeact_v.Fastsync.Cond.{
  Cond, Pc, Act, check, claim, relock, plain, answer, ret, within_unlock, at_parent, load,
  fastsync_cond_wait, access,
}
use reeact_v.Fastsync.Cond.System.{
  pc_of, Thread, calling, asleep_seq, asleep_word, resume, System, rouse_seq, rouse_word, move_seq,
  at, Step, call, advance, return, call_up, come_back, sleep_seq, wait_seq_returns, interrupt_seq,
  sleep_word, wait_word_returns, interrupt_word, wake_seq_up, wake_word_up, requeue_up, Reach,
  start, later,
}
use reeact_v.Fastsync.Cond.Invariant.{At, return-Bound, call-At}
use reeact_v.Fastsync.Cond.Invariant.Places.{
  eq_self, eq_other, each, assign_all, rouse_all, wake_all, move_all,
}
use reeact_v.Fastsync.Cond.Invariant.Spots.{Inv, calling-At}
use reeact_v.Fastsync.Cond.Steps.{Reach-Inv}
use reeact_v.Fastsync.Cond.Safety.{has_mutex, cond_mutual_exclusion}
use reeact_v.Fastsync.Cond.Pointer.{
  Free, FreeAt, KernelFree, go-Free, access-KernelFree, Begins-Free, resume-FreeAt, waiter-Free,
  wake-FreeAt, concerned, claimer,
}

abbrev AllFree : ℕ → System → Type 0
AllFree n s = (j : ℕ) → j < n → FreeAt (s.thread j) (at s j).mutex

module _ {k : Futex} {n m : ℕ} {s : System} (r : Reach k n m s) (free : AllFree n s) where
  inv : Inv m s
  inv = Reach-Inv r

  kernel_free :
      (i : ℕ) {held : Bool} {p : Pc} {a : Act}
      → s.thread i ≡ calling held p
      → access m p (at s i) s.state ≡ a
      → KernelFree (at s i).mutex a
  kernel_free i {held} {p} e a = access-KernelFree m held p (at s i) s.state (calling-At inv i e) a

  abbrev Spot : ℕ → Thread → Type 0
  Spot j t = j < n → FreeAt t (at s j).mutex

  one_moved :
      (i : ℕ) (t : Thread) → FreeAt t (at s i).mutex → (j : ℕ) → Spot j (assign s.thread i t j)
  one_moved i t spot = assign_all Spot s.thread i t free (λ _. spot)

  -- An object whose pointer stays as it is.
  same_mutex :
      (c : ℕ) (cond : Cond)
      → cond.mutex ≡ (s.cond c).mutex
      → (d : ℕ) → (assign s.cond c cond d).mutex ≡ (s.cond d).mutex
  same_mutex c cond same =
      assign_all (λ d x. x.mutex ≡ (s.cond d).mutex) s.cond c cond (λ d. refl) same

  kept :
      (c : ℕ) (cond : Cond)
      → cond.mutex ≡ (s.cond c).mutex
      → (j : ℕ) → j < n
      → FreeAt (s.thread j) (assign s.cond c cond (s.place j)).mutex
  kept c cond same j lt =
      subst (FreeAt (s.thread j)) (sym (same_mutex c cond same (s.place j))) (free j lt)

  -- Only the thread that sets the pointer is concerned.
  others :
      (i : ℕ) {p : Pc} {held : Bool} (cond : Cond)
      → i < n
      → s.thread i ≡ calling held p
      → (cond.mutex ≡ (at s i).mutex) ⊎ (p ≡ claim)
      → (j : ℕ) → i ≢ j
      → j < n
      → FreeAt (s.thread j) (assign s.cond (s.place i) cond (s.place j)).mutex
  others i cond lt e (inl same) j other lt_j = kept (s.place i) cond same j lt_j
  others i {p} {held} cond lt e (inr claims) j other lt_j =
      elim (concerned m (s.thread j) (at s j).mutex _ (inv.spot j).0) [
        | inl fine ↦ fine
        | inr owns ↦ absurd (
            other (
              cond_mutual_exclusion r i j lt lt_j
                (ap has_mutex e ∙ claimer m held p (at s i).mutex claims (calling-At inv i e))
                owns))
      ]

  Step-AllFree : {t : System} → Step k n m s t → AllFree n t
  unfolding fastsync_cond_wait
  Step-AllFree (call i c held {p} lt e begins) =
      each
        (λ j.
          j < n
          → FreeAt (assign s.thread i (calling held p) j) (s.cond (assign s.place i c j)).mutex)
        i (rw (eq_self i) (λ _. Begins-Free (s.cond c).mutex begins))
        (λ j other. rw (eq_other other) (free j))
  Step-AllFree (advance i {held} {p} {q} {cond} lt e a) =
      let (onto, changed) =
        go-Free m held p (at s i) s.state (inv.bound (s.place i)) (calling-At inv i e)
          (subst (λ t. FreeAt t (at s i).mutex) e (free i lt)) a in
      each
        (λ j.
          j < n
          → FreeAt (assign s.thread i (calling held q) j)
              (assign s.cond (s.place i) cond (s.place j)).mutex)
        i (rw (eq_self i, eq_self (s.place i)) (λ _. onto))
        (λ j other. rw (eq_other other) (others i cond lt e changed j other))
  Step-AllFree (return i {held} {p} {cond} {state} {code} lt e a none_below) =
      let same =
        return-Bound m held p (at s i) s.state (inv.bound (s.place i)) (calling-At inv i e) a in
      assign_all (λ j t. j < n → FreeAt t (assign s.cond (s.place i) cond (s.place j)).mutex)
        s.thread i (resume held p code) (kept (s.place i) cond same)
        (λ _. resume-FreeAt held p code _)
  Step-AllFree (call_up i {held} {p} {p'} {cond} {parent} lt e a begins) =
      let marked = (call-At m held p (at s i) s.state (calling-At inv i e) a).3 in
      let first : p' ≡ check = ground (arith, begins) in
      each
        (λ j.
          j < n
          → FreeAt (assign s.thread i (calling held p') j)
              (assign s.cond (s.place i) cond (assign s.place i parent j)).mutex)
        i (rw (eq_self i, first) (λ _. tt))
        (λ j other. rw (eq_other other) (kept (s.place i) cond (ap (λ x. x.mutex) marked) j))
  Step-AllFree (come_back i {held} {p} {cond} {state} {code} {c} {rest} lt e a below) =
      let same =
        return-Bound m held p (at s i) s.state (inv.bound (s.place i)) (calling-At inv i e) a in
      each
        (λ j.
          j < n
          → FreeAt (assign s.thread i (calling held load) j)
              (assign s.cond (s.place i) cond (assign s.place i c j)).mutex)
        i (rw (eq_self i) (λ _. tt)) (λ j other. rw (eq_other other) (kept (s.place i) cond same j))
  Step-AllFree (sleep_seq i lt e a slept) = one_moved i asleep_seq tt
  Step-AllFree (wait_seq_returns i {held} {p} {q} lt e a) =
      one_moved i (calling held q) (kernel_free i e a)
  Step-AllFree (interrupt_seq i lt e) = one_moved i (calling true relock) tt
  Step-AllFree (sleep_word i w lt e a slept) = one_moved i (asleep_word w) tt
  Step-AllFree (wait_word_returns i {held} {p} {q} lt e a) =
      one_moved i (calling held q) (kernel_free i e a)
  Step-AllFree (interrupt_word i {w} lt e) =
      one_moved i (calling true (pc_of w)) (waiter-Free w (at s i).mutex)
  Step-AllFree (wake_seq_up i {held} {p} {q} {count} {woken} lt e a woke) =
      assign_all Spot (rouse_seq woken s.thread) i (calling held q)
        (rouse_all Spot s.thread free woken (λ j _ _. tt)) (λ _. kernel_free i e a)
  Step-AllFree (wake_word_up i {held} {p} {q} {count} {woken} lt e a woke) =
      assign_all Spot (rouse_word woken s.thread) i (calling held q)
        (wake_all Spot s.thread free woken
          (λ j lt_j. wake-FreeAt (s.thread j) (at s j).mutex (free j lt_j)))
        (λ _. kernel_free i e a)
  Step-AllFree
        (requeue_up i {held} {p} {q} {count} {limit} {woken} {moved = shifted} lt e a moves) =
      assign_all Spot (move_seq woken shifted s.thread) i (calling held q)
        (move_all Spot s.thread free woken shifted (λ j _ _. tt) (λ j _ _. tt))
        (λ _. kernel_free i e a)

Reach-AllFree : {k : Futex} {n m : ℕ} {s : System} → Reach k n m s → AllFree n s
Reach-AllFree (start old first fresh) = λ j lt. tt
Reach-AllFree (later r step) = Step-AllFree r (Reach-AllFree r) step

abbrev pub of_cond : Pc → Bool
of_cond (plain _) = false
of_cond (answer _) = false
of_cond _ = true

returns_zero :
    (m : ℕ) (held : Bool) (p : Pc) (cond : Cond) {cond' : Cond} (state : ℕ) {state' code : ℕ}
    → At m held p cond.mutex
    → Free p cond.mutex
    → of_cond p ≡ true
    → access m p cond state ≡ ret cond' state' code
    → code ≡ 0
unfolding access at_parent within_unlock Mutex.access
returns_zero m held check cond state at free mine e = ground arith
returns_zero m held p cond state at free mine e = ground arith

-- In every reachable state of threads that use one mutex with any number of condition variables,
-- an access by which a wait, signal or broadcast returns gives 0; in particular no wait fails in
-- binding the mutex, whatever other threads bind it at the same time.
pub cond_call_succeeds :
    {k : Futex} {n m : ℕ} {s : System} {cond : Cond} {state code : ℕ}
    → Reach k n m s
    → (i : ℕ) {held : Bool} {p : Pc} → i < n
    → s.thread i ≡ calling held p
    → of_cond p ≡ true
    → access m p (at s i) s.state ≡ ret cond state code
    → code ≡ 0
cond_call_succeeds {m} {s} r i {held} {p} lt here mine e =
    returns_zero m held p (at s i) s.state (calling-At (Reach-Inv r) i here)
      (subst (λ t. FreeAt t (at s i).mutex) here (Reach-AllFree r i lt)) mine e
