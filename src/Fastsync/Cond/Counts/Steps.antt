-- ===== src/Fastsync/Cond/Counts/Steps.antt =====
-- The steps of Fastsync/Cond/System.antt keep the counts.
use mathlib.Core.Path.{subst}
use reeact_v.Prelude.{ℕ, ◌≡◌, refl, sym, ap, Bool, true, false, ◌∷◌, arith, assign}
use reeact_v.Fastsync.Futex.{Futex}
use reeact_v.Fastsync.Cond.{
  Pc, Act, check, relock, load, access, fastsync_cond_init, fastsync_cond_wait,
}
use reeact_v.Fastsync.Cond.System.{
  pc_of, calling, asleep_seq, asleep_word, resume, System, rouse_seq, wake, rouse_word, move_seq,
  at, Step, call, advance, return, call_up, come_back, sleep_seq, wait_seq_returns, interrupt_seq,
  sleep_word, wait_word_returns, interrupt_word, wake_seq_up, wake_word_up, requeue_up, Reach,
  start, later,
}
use reeact_v.Fastsync.Cond.Invariant.{call-At}
use reeact_v.Fastsync.Cond.Invariant.Places.{eq_self, eq_other, each, rouse_all, wake_all, move_all}
use reeact_v.Fastsync.Cond.Invariant.Spots.{calling-At}
use reeact_v.Fastsync.Cond.Steps.{Reach-Inv}
use reeact_v.Fastsync.Cond.Counts.{recount-Counts, awaits, stores, Local, Counts, return-seq}
use reeact_v.Fastsync.Cond.Counts.Advance.{advance-Counts}
use reeact_v.Fastsync.Cond.Counts.Calm.{
  Calm, Idle-Calm, Calm-refl, resume-Idle, Begins-Idle, wake-Calm, KernelCalm, access-KernelCalm,
  quiet, threads_quiet, same_seq, only, on_top, kernel-Calm, roused-Calm, moved-Calm,
  asleep_word_waits,
}

module _ {k : Futex} {n m : ℕ} {s : System} (r : Reach k n m s) (counts : Counts n s) where
  kernel :
      (i : ℕ) {held : Bool} {p : Pc} {a : Act}
      → s.thread i ≡ calling held p
      → access m p (at s i) s.state ≡ a
      → KernelCalm p a
  kernel i {p} e a = access-KernelCalm m p (at s i) s.state a

  -- The thread that has entered the kernel goes on at `q`.
  entered :
      (i : ℕ) {held : Bool} {p : Pc} (q : Pc)
      → s.thread i ≡ calling held p
      → (awaits q ≡ true → awaits p ≡ true)
        × (stores q ≡ false)
        × ((noted : ℕ) → Local p noted → Local q noted)
      → Calm (s.thread i) (s.place i) (calling held q) (s.place i)
  entered i {held} q e (goes, none_stored, keeps) =
      kernel-Calm counts i q (calling held q) e (refl, none_stored, λ noted l. l) goes keeps

  idle_now :
      (i : ℕ) (held : Bool) (q : Pc)
      → (awaits q ≡ false) × (stores q ≡ false) × ((noted : ℕ) → Local q noted)
      → Calm (s.thread i) (s.place i) (calling held q) (s.place i)
  idle_now i held q idle = Idle-Calm (s.thread i) (calling held q) (s.place i) (s.place i) idle

  Step-Counts : {t : System} → Step k n m s t → Counts n t
  unfolding fastsync_cond_wait
  Step-Counts (call i c held {p} lt e begins) =
      quiet counts s.cond s.state (assign s.thread i (calling held p)) (assign s.place i c) s.frames
        (λ c. refl)
        (each
          (λ j.
            Calm (s.thread j) (s.place j) (assign s.thread i (calling held p) j)
              (assign s.place i c j))
          i
          (rw (eq_self i)
            (Idle-Calm (s.thread i) (calling held p) (s.place i) c (Begins-Idle begins)))
          (λ j other. rw (eq_other other) (Calm-refl (s.thread j) (s.place j))))
  Step-Counts (advance i lt e a) = advance-Counts r counts i lt e a
  Step-Counts (return i {held} {p} {cond} {state} {code} lt e a none_below) =
      quiet counts (assign s.cond (s.place i) cond) state (assign s.thread i (resume held p code))
        s.place s.frames (same_seq counts (s.place i) cond (return-seq m p (at s i) s.state a))
        (only counts i (resume held p code) (
          Idle-Calm (s.thread i) (resume held p code) (s.place i) (s.place i)
            (resume-Idle held p code)))
  Step-Counts (call_up i {held} {p} {p'} {cond} {parent} lt e a begins) =
      let marked = (call-At m held p (at s i) s.state (calling-At (Reach-Inv r) i e) a).3 in
      let first : p' ≡ check = ground (arith, begins) in
      quiet counts (assign s.cond (s.place i) cond) s.state (assign s.thread i (calling held p'))
        (assign s.place i parent) (assign s.frames i (s.place i ∷ s.frames i))
        (same_seq counts (s.place i) cond (ap (λ x. x.seq) marked))
        (each
          (λ j.
            Calm (s.thread j) (s.place j) (assign s.thread i (calling held p') j)
              (assign s.place i parent j))
          i
          (rw (eq_self i, first)
            (Idle-Calm (s.thread i) (calling held check) (s.place i) parent
              (refl, refl, λ noted. tt)))
          (λ j other. rw (eq_other other) (Calm-refl (s.thread j) (s.place j))))
  Step-Counts (come_back i {held} {p} {cond} {state} {code} {c} {rest} lt e a below) =
      quiet counts (assign s.cond (s.place i) cond) state (assign s.thread i (calling held load))
        (assign s.place i c) (assign s.frames i rest)
        (same_seq counts (s.place i) cond (return-seq m p (at s i) s.state a))
        (each
          (λ j.
            Calm (s.thread j) (s.place j) (assign s.thread i (calling held load) j)
              (assign s.place i c j))
          i
          (rw (eq_self i)
            (Idle-Calm (s.thread i) (calling held load) (s.place i) c (refl, refl, λ noted. tt)))
          (λ j other. rw (eq_other other) (Calm-refl (s.thread j) (s.place j))))
  Step-Counts (sleep_seq i {held} {p} lt e a slept) =
      let (awaited, onto) = kernel i e a in
      threads_quiet counts (assign s.thread i asleep_seq)
        (only counts i asleep_seq (rw e (λ w. (awaited, refl), λ w. cc (w), λ noted l. tt)))
  Step-Counts (wait_seq_returns i {held} {p} {q} lt e a) =
      let (awaited, onto) = kernel i e a in
      on_top counts s.thread i (calling held q) (λ j. Calm-refl (s.thread j) (s.place j))
        (rw onto (
          Idle-Calm (s.thread i) (calling held relock) (s.place i) (s.place i)
            (refl, refl, λ noted. tt)))
  Step-Counts (interrupt_seq i lt e) =
      on_top counts s.thread i (calling true relock) (λ j. Calm-refl (s.thread j) (s.place j))
        (roused-Calm (s.thread i) (s.place i))
  Step-Counts (sleep_word i {held} {p} w lt e a slept) =
      let (goes, none_stored, keeps) = kernel i e a in
      on_top counts s.thread i (asleep_word w) (λ j. Calm-refl (s.thread j) (s.place j))
        (kernel-Calm counts i (pc_of w) (asleep_word w) e (asleep_word_waits w) goes keeps)
  Step-Counts (wait_word_returns i {held} {p} {q} lt e a) =
      on_top counts s.thread i (calling held q) (λ j. Calm-refl (s.thread j) (s.place j))
        (entered i q e (kernel i e a))
  Step-Counts (interrupt_word i {w} lt e) =
      on_top counts s.thread i (calling true (pc_of w)) (λ j. Calm-refl (s.thread j) (s.place j))
        (subst (λ t. Calm t (s.place i) (wake (asleep_word w)) (s.place i)) (sym e)
          (wake-Calm (asleep_word w) (s.place i)))
  Step-Counts (wake_seq_up i {held} {p} {q} {count} {woken} lt e a woke) = recount-Counts _ (
      on_top counts (rouse_seq woken s.thread) i (calling held q)
        (rouse_all (λ j t. Calm (s.thread j) (s.place j) t (s.place j)) s.thread
          (λ j. Calm-refl (s.thread j) (s.place j)) woken
          (λ j _. roused-Calm (s.thread j) (s.place j)))
        (idle_now i held q (kernel i e a)))
  Step-Counts (wake_word_up i {held} {p} {q} {count} {woken} lt e a woke) =
      on_top counts (rouse_word woken s.thread) i (calling held q)
        (wake_all (λ j t. Calm (s.thread j) (s.place j) t (s.place j)) s.thread
          (λ j. Calm-refl (s.thread j) (s.place j)) woken (λ j. wake-Calm (s.thread j) (s.place j)))
        (entered i q e (kernel i e a))
  Step-Counts (requeue_up i {held} {p} {q} {count} {limit} {woken} {moved = shifted} lt e a moves) =
      on_top counts (move_seq woken shifted s.thread) i (calling held q)
        (move_all (λ j t. Calm (s.thread j) (s.place j) t (s.place j)) s.thread
          (λ j. Calm-refl (s.thread j) (s.place j)) woken shifted
          (λ j _. roused-Calm (s.thread j) (s.place j))
          (λ j _. moved-Calm (s.thread j) (s.place j)))
        (idle_now i held q (kernel i e a))

pub Reach-Counts : {k : Futex} {n m : ℕ} {s : System} → Reach k n m s → Counts n s
unfolding fastsync_cond_init
Reach-Counts (start old first fresh) = record {
  counted = λ c. ground (arith, (fresh c).made);
  locals = λ j. tt;
  behind = λ j lt w. cc (w);
  loaded = λ i lt w. cc (w);
  latest = λ i j lt lt' w w' same. cc (w);
}
Reach-Counts (later r step) = Step-Counts r (Reach-Counts r) step
