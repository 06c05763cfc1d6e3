-- ===== src/Fastsync/Cond/Leaders/Steps.antt =====
-- The steps of Fastsync/Cond/System.antt keep the leaders.
use mathlib.Core.Path.{subst}
use reeact_v.Prelude.{ℕ, ◌≡◌, true, refl, sym, ap, ◌∙◌, true, ◌∷◌, arith, assign, tally-zero}
use reeact_v.Fastsync.Futex.{Futex}
use reeact_v.Fastsync.Cond.{check, relock, fastsync_cond_init, fastsync_cond_wait}
use reeact_v.Fastsync.Cond.System.{
  relocking, pc_of, Thread, seq_sleepers, calling, asleep_seq, asleep_word, leave, resume, System,
  rouse_seq, wake, rouse_word, move_seq, at, Step, call, advance, return, call_up, come_back,
  sleep_seq, wait_seq_returns, interrupt_seq, sleep_word, wait_word_returns, interrupt_word,
  wake_seq_up, wake_word_up, requeue_up, Reach, start, later,
}
use reeact_v.Fastsync.Cond.Invariant.{call-At}
use reeact_v.Fastsync.Cond.Invariant.Places.{eq_self, eq_other, each, rouse_all, wake_all, move_all}
use reeact_v.Fastsync.Cond.Invariant.Spots.{calling-At}
use reeact_v.Fastsync.Cond.Steps.{Reach-Inv}
use reeact_v.Fastsync.Cond.Leaders.{
  recount-Leaders, releasing, view, leads, descending, noting, Leaders,
}
use reeact_v.Fastsync.Cond.Leaders.Single.{quiet}
use reeact_v.Fastsync.Cond.Leaders.Calm.{
  Plain, leave-Plain, resume-Plain, Begins-Plain, wake-Keeps, lead_idle, Keeps, Keeps-refl,
  Plain-Keeps, on_top, only,
}
use reeact_v.Fastsync.Cond.Leaders.Access.{kernel, entered, waiter-Keeps, roused, advance-Leaders}
use reeact_v.Fastsync.Cond.Leaders.Calls.{return-Leaders, come_back-Leaders, call_up-Leaders}

module _ {k : Futex} {n m : ℕ} {s : System} (r : Reach k n m s) (leaders : Leaders n s) where
  roused-Plain :
      (c j : ℕ) (t : Thread)
      → seq_sleepers n s.thread s.place c j ≡ true
      → Plain t
      → Keeps (s.thread j) t
  roused-Plain c j t a = Plain-Keeps (s.thread j) t (roused r leaders c j a)

  Step-Leaders : {t : System} → Step k n m s t → Leaders n t
  unfolding fastsync_cond_wait
  Step-Leaders (call i c held {p} lt e begins) =
      let idle = Begins-Plain begins in
      let before = leave-Plain held in
      quiet leaders s.cond s.state (assign s.thread i (calling held p)) (assign s.place i c)
        (λ c. (refl, refl))
        (λ j d.
          each
            (λ j.
              leads d (assign s.thread i (calling held p) j, assign s.place i c j, s.frames j)
              ≡ leads d (view s j))
            i
            (rw (eq_self i, e)
              (lead_idle d c (s.frames i) (calling held p) idle.0
                ∙ sym (lead_idle d (s.place i) (s.frames i) (leave held) before.0)))
            (λ j other. rw (eq_other other) refl) j)
        (each
          (λ j.
            (descending (assign s.thread i (calling held p) j) ≡ true
              → (descending (s.thread j) ≡ true) × (assign s.place i c j ≡ s.place j))
            × (noting (assign s.thread i (calling held p) j) ≡ true
                → (noting (s.thread j) ≡ true) × (assign s.place i c j ≡ s.place j)))
          i (rw (eq_self i) (λ w. cc (w, idle.1), λ w. cc (w, idle.2)))
          (λ j other. rw (eq_other other) (λ w. (w, refl), λ w. (w, refl))))
  Step-Leaders (advance i lt e a) =
      let l = advance-Leaders r leaders i lt e a in
      record { used = l.used; once = l.once; unled = l.unled; led = l.led }
  Step-Leaders (return i {held} {p} {cond} {state} {code} lt e a none_below) =
      return-Leaders r leaders i (resume held p code) lt e a (resume-Plain held p code)
  Step-Leaders (call_up i {held} {p} {p'} {cond} {parent} lt e a begins) =
      let (there, owns, ours, marked) =
        call-At m held p (at s i) s.state (calling-At (Reach-Inv r) i e) a in
      let first : p' ≡ check = ground (arith, begins) in
      subst
        (λ x. Leaders n (record s {
          cond = assign s.cond (s.place i) cond;
          thread = assign s.thread i (calling held x);
          place = assign s.place i parent;
          frames = assign s.frames i (s.place i ∷ s.frames i);
        }))
        (sym first) (call_up-Leaders r leaders i parent lt e there marked)
  Step-Leaders (come_back i lt e a below) = come_back-Leaders r leaders i lt e a below
  Step-Leaders (sleep_seq i {held} {p} lt e a slept) = only leaders i asleep_seq (
      Plain-Keeps (s.thread i) asleep_seq (ap releasing e ∙ (kernel r leaders i e a).0)
        (refl, refl, refl))
  Step-Leaders (wait_seq_returns i {held} {p} {q} lt e a) =
      let (idle, onto) = kernel r leaders i e a in
      only leaders i (calling held q) (
        rw onto (
          Plain-Keeps (s.thread i) (calling held relock) (ap releasing e ∙ idle)
            (refl, refl, refl)))
  Step-Leaders (interrupt_seq i lt e) =
      only leaders i (calling true relock)
        (Plain-Keeps (s.thread i) (calling true relock) (ap releasing e) (refl, refl, refl))
  Step-Leaders (sleep_word i {held} {p} w lt e a slept) =
      only leaders i (asleep_word w) (waiter-Keeps r leaders i w e (kernel r leaders i e a).0)
  Step-Leaders (wait_word_returns i {held} {p} {q} lt e a) =
      only leaders i (calling held q) (entered r leaders i q e (kernel r leaders i e a))
  Step-Leaders (interrupt_word i {w} lt e) =
      only leaders i (calling true (pc_of w))
        (subst (λ t. Keeps t (wake (asleep_word w))) (sym e) (wake-Keeps (asleep_word w)))
  Step-Leaders (wake_seq_up i {held} {p} {q} {count} {woken} lt e a woke) = recount-Leaders _ (
      on_top leaders (rouse_seq woken s.thread) i (calling held q)
        (rouse_all (λ j. Keeps (s.thread j)) s.thread (λ j. Keeps-refl (s.thread j)) woken
          (λ j w.
            roused-Plain (s.place i) j (calling true relock) (k.wakes_sleepers woke j w)
              (refl, refl, refl)))
        (entered r leaders i q e (kernel r leaders i e a)))
  Step-Leaders (wake_word_up i {held} {p} {q} {count} {woken} lt e a woke) =
      on_top leaders (rouse_word woken s.thread) i (calling held q)
        (wake_all (λ j. Keeps (s.thread j)) s.thread (λ j. Keeps-refl (s.thread j)) woken
          (λ j. wake-Keeps (s.thread j)))
        (entered r leaders i q e (kernel r leaders i e a))
  Step-Leaders
        (requeue_up i {held} {p} {q} {count} {limit} {woken} {moved = shifted} lt e a moves) =
      on_top leaders (move_seq woken shifted s.thread) i (calling held q)
        (move_all (λ j. Keeps (s.thread j)) s.thread (λ j. Keeps-refl (s.thread j)) woken shifted
          (λ j w.
            roused-Plain (s.place i) j (calling true relock) (k.requeue_wakes_sleepers moves j w)
              (refl, refl, refl))
          (λ j w.
            roused-Plain (s.place i) j (asleep_word relocking) (k.requeue_moves_sleepers moves j w)
              (refl, refl, refl)))
        (entered r leaders i q e (kernel r leaders i e a))

pub Reach-Leaders : {k : Futex} {n m : ℕ} {s : System} → Reach k n m s → Leaders n s
unfolding fastsync_cond_init
Reach-Leaders {n} (start old first fresh) = record {
  used = λ c.
      let blank : _ = ground (arith, (fresh c).made, (fresh c).unused) in
      blank ∙ sym (tally-zero (leads c) n _ (λ i lt. ground arith));
  once = λ c. ground (arith, (fresh c).made, (fresh c).unused);
  unled = λ j lt w. cc (w);
  led = λ j lt w. cc (w);
}
Reach-Leaders (later r step) = Step-Leaders r (Reach-Leaders r) step
