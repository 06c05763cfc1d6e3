-- ===== src/Fastsync/Cond/Orphans/Steps.antt =====
-- The steps of Fastsync/Cond/System.antt leave every waiter somebody who will release it.
use mathlib.Core.Path.{subst}
use reeact_v.Prelude.{ℕ, ◌≤◌, ◌≡◌, refl, ap, ◌∙◌, true, ◌∷◌, arith, assign}
use reeact_v.Fastsync.Futex.{Futex}
use reeact_v.Fastsync.Barrier.{int_max}
use reeact_v.Fastsync.Cond.{check, load, relock, fastsync_cond_wait}
use reeact_v.Fastsync.Cond.System.{
  relocking, pc_of, calling, asleep_word, resume, System, seq_sleepers, rouse_seq, rouse_word,
  move_seq, at, Step, call, advance, return, call_up, come_back, sleep_seq, wait_seq_returns,
  interrupt_seq, sleep_word, wait_word_returns, interrupt_word, wake_seq_up, wake_word_up,
  requeue_up, Reach, start, later,
}
use reeact_v.Fastsync.Cond.Invariant.{call-At}
use reeact_v.Fastsync.Cond.Invariant.Places.{assign_all, rouse_all, wake_all, move_all}
use reeact_v.Fastsync.Cond.Invariant.Spots.{calling-At}
use reeact_v.Fastsync.Cond.Steps.{Reach-Inv}
use reeact_v.Fastsync.Cond.Counts.{awaits}
use reeact_v.Fastsync.Cond.Orphans.{
  recount-Orphans, urges, unraised, Orphans, return-urges, same_parent,
}
use reeact_v.Fastsync.Cond.Orphans.Persist.{weigh_up}
use reeact_v.Fastsync.Cond.Orphans.Calm.{
  Lulls, Lulls-refl, Idle-Lulls, resume-Idle, Begins-Idle, wake-Lulls, calm,
}
use reeact_v.Fastsync.Cond.Orphans.Advance.{advance-Orphans}
use reeact_v.Fastsync.Cond.Orphans.Change.{threads, elsewhere, only, one-Lulls, one-Idle}
use reeact_v.Fastsync.Cond.Orphans.Sleep.{kernel, urges_up, unraised_up, sleep-Orphans, none_left}

module _ {k : Futex} {n m : ℕ} {s : System} (r : Reach k n m s) (orphans : Orphans n s) where
  Step-Orphans : n ≤ int_max → {t : System} → Step k n m s t → Orphans n t
  unfolding fastsync_cond_wait
  Step-Orphans few (call i c held {p} lt e begins) =
      elsewhere orphans s.cond s.state i (calling held p) c s.frames (λ c. refl)
        (Begins-Idle begins) (urges_up r orphans (call i c held lt e begins) (λ _. tt))
        (unraised_up r orphans (call i c held lt e begins) (λ _. tt))
  Step-Orphans few (advance i lt e a) = advance-Orphans r orphans i lt e a
  Step-Orphans few (return i {held} {p} {cond} {state} {code} lt e a none_below) =
      let (same, idle, idle') = return-urges m p (at s i) s.state a in
      let step : Step k n m s _ = return i lt e a none_below in
      calm orphans (assign s.cond (s.place i) cond) state (assign s.thread i (resume held p code))
        s.place s.frames (same_parent s.cond (s.place i) cond same)
        (λ j.
          let lulls =
            only orphans i (resume held p code)
              (Idle-Lulls (s.thread i) (resume held p code) (resume-Idle held p code)) j in
          (λ w. (lulls.0 w, refl), λ w. (lulls.1 w, refl)))
        (λ j lt' w. urges_up r orphans step (λ _. idle) (s.place j))
        (unraised_up r orphans step (λ _. idle'))
  Step-Orphans few (call_up i {held} {p} {p'} {cond} {parent} lt e a begins) =
      let (there, owns, ours, marked) =
        call-At m held p (at s i) s.state (calling-At (Reach-Inv r) i e) a in
      let first : p' ≡ check = ground (arith, begins) in
      let step : Step k n m s _ = call_up i lt e a begins in
      elsewhere orphans (assign s.cond (s.place i) cond) s.state i (calling held p') parent
        (assign s.frames i (s.place i ∷ s.frames i))
        (same_parent s.cond (s.place i) cond (ap (λ x. x.parent) marked)) (refl, ap awaits first)
        (urges_up r orphans step (λ _. ap urges there))
        (unraised_up r orphans step (λ _. ap unraised there))
  Step-Orphans few (come_back i {held} {p} {cond} {state} {c = c} {rest} lt e a below) =
      let (same, idle, idle') = return-urges m p (at s i) s.state a in
      let step : Step k n m s _ = come_back i lt e a below in
      elsewhere orphans (assign s.cond (s.place i) cond) state i (calling held load) c
        (assign s.frames i rest) (same_parent s.cond (s.place i) cond same) (refl, refl)
        (urges_up r orphans step (λ _. idle)) (unraised_up r orphans step (λ _. idle'))
  Step-Orphans few (sleep_seq i {held} {p} lt e a slept) =
      let (there, onto) = kernel r orphans i e a in
      let step : Step k n m s _ = sleep_seq i lt e a slept in
      sleep-Orphans r orphans i lt (e ∙ ap (calling held) there) (k.sleeps_on_match slept)
        (urges_up r orphans step (λ _. ap urges there))
        (unraised_up r orphans step (λ _. ap unraised there))
  Step-Orphans few (wait_seq_returns i {held} {p} {q} lt e a) =
      let (there, onto) = kernel r orphans i e a in
      let step : Step k n m s _ = wait_seq_returns i lt e a in
      one-Idle orphans i (calling held q) (refl, ap awaits onto)
        (urges_up r orphans step (λ _. ap urges there))
        (unraised_up r orphans step (λ _. ap unraised there))
  Step-Orphans few (interrupt_seq i lt e) =
      let step : Step k n m s _ = interrupt_seq i lt e in
      one-Idle orphans i (calling true relock) (refl, refl) (urges_up r orphans step (λ _. tt))
        (unraised_up r orphans step (λ _. tt))
  Step-Orphans few (sleep_word i {held} {p} w lt e a slept) =
      let (idle, idle', goes) = kernel r orphans i e a in
      let step : Step k n m s _ = sleep_word i w lt e a slept in
      one-Lulls orphans i (asleep_word w) (rw e (λ x. x, goes))
        (urges_up r orphans step (λ _. idle)) (unraised_up r orphans step (λ _. idle'))
  Step-Orphans few (wait_word_returns i {held} {p} {q} lt e a) =
      let (idle, idle', goes) = kernel r orphans i e a in
      let step : Step k n m s _ = wait_word_returns i lt e a in
      one-Lulls orphans i (calling held q) (rw e (λ x. x, goes))
        (urges_up r orphans step (λ _. idle)) (unraised_up r orphans step (λ _. idle'))
  Step-Orphans few (interrupt_word i {w} lt e) =
      let step : Step k n m s _ = interrupt_word i lt e in
      one-Lulls orphans i (calling true (pc_of w)) (rw e (λ x. x, λ x. x))
        (urges_up r orphans step (λ _. tt)) (unraised_up r orphans step (λ _. tt))
  Step-Orphans few (wake_seq_up i {held} {p} {q} {count} {woken} lt e a woke) =
      let (idle, idle', none_awaited) = kernel r orphans i e a in
      let step : Step k n m s _ = wake_seq_up i lt e a woke in
      recount-Orphans _ (
        threads orphans (assign (rouse_seq woken s.thread) i (calling held q))
          (assign_all (λ j x. Lulls (s.thread j) x) (rouse_seq woken s.thread) i (calling held q)
            (rouse_all (λ j. Lulls (s.thread j)) s.thread (λ j. Lulls-refl (s.thread j)) woken
              (λ j _. Idle-Lulls (s.thread j) (calling true relock) (refl, refl)))
            (Idle-Lulls (s.thread i) (calling held q) (refl, none_awaited)))
          (λ j lt' w. urges_up r orphans step (λ _. idle) (s.place j))
          (unraised_up r orphans step (λ _. idle')))
  Step-Orphans few (wake_word_up i {held} {p} {q} {count} {woken} lt e a woke) =
      let (idle, idle', goes) = kernel r orphans i e a in
      let step : Step k n m s _ = wake_word_up i lt e a woke in
      threads orphans (assign (rouse_word woken s.thread) i (calling held q))
        (assign_all (λ j x. Lulls (s.thread j) x) (rouse_word woken s.thread) i (calling held q)
          (wake_all (λ j. Lulls (s.thread j)) s.thread (λ j. Lulls-refl (s.thread j)) woken
            (λ j. wake-Lulls (s.thread j)))
          (rw e (λ x. x, goes)))
        (λ j lt' w. urges_up r orphans step (λ _. idle) (s.place j))
        (unraised_up r orphans step (λ _. idle'))
  Step-Orphans few
        (requeue_up i {held} {p} {q} {count} {limit} {woken} {moved = shifted} lt e a moves) =
      let (one, limited, idle, none_awaited) = kernel r orphans i e a in
      let step : Step k n m s _ = requeue_up i lt e a moves in
      let left = none_left r orphans few i (calling held q) refl (
        subst
          (λ x. k.Requeues x int_max (seq_sleepers n s.thread s.place (s.place i)) woken shifted)
          one
          (subst
            (λ x. k.Requeues count x (seq_sleepers n s.thread s.place (s.place i)) woken shifted)
            limited moves)) in
      threads orphans (assign (move_seq woken shifted s.thread) i (calling held q))
        (assign_all (λ j x. Lulls (s.thread j) x) (move_seq woken shifted s.thread) i
          (calling held q)
          (move_all (λ j. Lulls (s.thread j)) s.thread (λ j. Lulls-refl (s.thread j)) woken shifted
            (λ j _. Idle-Lulls (s.thread j) (calling true relock) (refl, refl))
            (λ j _. Idle-Lulls (s.thread j) (asleep_word relocking) (refl, refl)))
          (Idle-Lulls (s.thread i) (calling held q) (refl, none_awaited)))
        (λ j lt' w. weigh_up urges (s.place j) refl step (λ same. absurd (left j w lt' same)))
        (unraised_up r orphans step (λ _ _. idle))

pub Reach-Orphans : {k : Futex} {n m : ℕ} {s : System} → n ≤ int_max → Reach k n m s → Orphans n s
Reach-Orphans few (start old first fresh) = record {
  sleeper = λ j lt w. cc (w);
  waiter = λ j lt w now. cc (w);
}
Reach-Orphans few (later r step) = Step-Orphans r (Reach-Orphans few r) few step
