-- ===== src/Fastsync/Cond/Orphans/Persist.antt =====
-- Which steps of Fastsync/Cond/System.antt keep the waits that have gone on to a parent.
use reeact_v.Prelude.{ℕ, ◌≤◌, ◌≡◌, refl, Bool, true, false, ◌∷◌, arith, assign, ℕ_discrete}
use reeact_v.Fastsync.Futex.{Futex}
use reeact_v.Fastsync.Cond.{Pc, load, relock}
use reeact_v.Fastsync.Cond.System.{
  pc_of, Thread, calling, asleep_seq, asleep_word, leave, resume, System, is_asleep_seq,
  seq_sleepers, rouse_seq, wake, rouse_word, move_seq, relocking, Step, call, advance, return,
  call_up, come_back, sleep_seq, wait_seq_returns, interrupt_seq, sleep_word, wait_word_returns,
  interrupt_word, wake_seq_up, wake_word_up, requeue_up,
}
use reeact_v.Fastsync.Cond.Invariant.Places.{
  eq_self, eq_other, each, assign_all, rouse_all, wake_all, move_all,
}
use reeact_v.Fastsync.Cond.Leaders.{view}
use reeact_v.Fastsync.Cond.Orphans.{standing, weigh}

-- What the place of the thread that makes the step has to satisfy, at the object `d`.
module _ (n : ℕ) (s : System) (f : Pc → ℕ) (d : ℕ) where
  -- One thread changes, and nothing else that counts.
  mover_le :
      (thread : ℕ → Thread) (i : ℕ) (t : Thread)
      → ((j : ℕ) → weigh f d (view s j) ≤ weigh f d (thread j, s.place j, s.frames j))
      → weigh f d (view s i) ≤ weigh f d (t, s.place i, s.frames i)
      → (j : ℕ) → weigh f d (view s j) ≤ weigh f d (assign thread i t j, s.place j, s.frames j)
  mover_le thread i t all one =
      assign_all (λ j x. weigh f d (view s j) ≤ weigh f d (x, s.place j, s.frames j)) thread i t all
        one

  -- A thread that does not count by where it stands.
  idle_le :
      (i : ℕ) (t t' : Thread)
      → s.thread i ≡ t
      → standing f t ≡ 0
      → weigh f d (view s i) ≤ weigh f d (t', s.place i, s.frames i)
  idle_le i t t' e idle = rw e (ground (arith, idle))

  self_le : (j : ℕ) → weigh f d (view s j) ≤ weigh f d (view s j)
  self_le j = omega arith

  asleep_le :
      (j : ℕ) (t' : Thread)
      → is_asleep_seq (s.thread j) ≡ true
      → weigh f d (view s j) ≤ weigh f d (t', s.place j, s.frames j)
  asleep_le j t' a = idle_le j (s.thread j) t' refl (none_stands (s.thread j) a)
    where
      none_stands : (t : Thread) → is_asleep_seq t ≡ true → standing f t ≡ 0
      none_stands asleep_seq a = refl
      none_stands t a = cc

  wake_le : (j : ℕ) → weigh f d (view s j) ≤ weigh f d (wake (s.thread j), s.place j, s.frames j)
  wake_le j = woken (s.thread j)
    where
      woken :
          (t : Thread)
          → weigh f d (t, s.place j, s.frames j) ≤ weigh f d (wake t, s.place j, s.frames j)
      woken (asleep_word w) = ground arith
      woken Thread.outside = omega arith
      woken Thread.critical = omega arith
      woken (calling held p) = omega arith
      woken asleep_seq = omega arith

  asleep_there :
      (c j : ℕ) → seq_sleepers n s.thread s.place c j ≡ true → is_asleep_seq (s.thread j) ≡ true
  asleep_there c j a = ground arith

  leave_stands : (held : Bool) → standing f (leave held) ≡ 0
  leave_stands true = refl
  leave_stands false = refl

module _ {k : Futex} {n m : ℕ} {s : System} (f : Pc → ℕ) (d : ℕ) where
  abbrev pub Fine : {t : System} → Step k n m s t → Type 0
  Fine (advance i {p = p} {q} lt e a) = s.place i ≡ d → f p ≤ f q
  Fine (return i {p = p} lt e a below) = f p ≡ 0
  Fine (call_up i {p = p} lt e a begins) = f p ≡ 0
  Fine (come_back i {p = p} lt e a below) = f p ≡ 0
  Fine (sleep_seq i {p = p} lt e a slept) = f p ≡ 0
  Fine (wait_seq_returns i {p = p} lt e a) = f p ≡ 0
  Fine (sleep_word i {p = p} w lt e a slept) = f p ≡ 0
  Fine (wait_word_returns i {p = p} lt e a) = f p ≡ 0
  Fine (wake_seq_up i {p = p} lt e a woke) = f p ≡ 0
  Fine (wake_word_up i {p = p} lt e a woke) = f p ≡ 0
  Fine (requeue_up i {p = p} lt e a moves) = s.place i ≡ d → f p ≡ 0
  Fine _ = Unit

  pub weigh_up :
      f load ≡ 1
      → {t : System} (step : Step k n m s t) → Fine step
      → (j : ℕ) → weigh f d (view s j) ≤ weigh f d (view t j)
  weigh_up one (call i c held {p} lt e begins) fine =
      each
        (λ j.
          weigh f d (view s j)
          ≤ weigh f d (assign s.thread i (calling held p) j, assign s.place i c j, s.frames j))
        i (rw (eq_self i, e) (ground (arith, leave_stands n s f d held)))
        (λ j other. rw (eq_other other) (self_le n s f d j))
  weigh_up one (advance i {held} {p} {q} lt e a) fine =
      mover_le n s f d s.thread i (calling held q) (self_le n s f d)
        (elim (ℕ_discrete (s.place i) d) [
          | yes same ↦ rw e (ground (arith, fine same))
          | no apart ↦ rw (eq_other apart) (omega arith)
        ])
  weigh_up one (return i {held} {p} {code = code} lt e a below) fine =
      mover_le n s f d s.thread i (resume held p code) (self_le n s f d)
        (idle_le n s f d i (calling held p) (resume held p code) e fine)
  weigh_up one (call_up i {held} {p} {p'} {parent = parent} lt e a begins) fine =
      each
        (λ j.
          weigh f d (view s j)
          ≤ weigh f d (
            assign s.thread i (calling held p') j,
            assign s.place i parent j,
            assign s.frames i (s.place i ∷ s.frames i) j,
          ))
        i (rw (eq_self i, e) (ground (arith, fine)))
        (λ j other. rw (eq_other other) (self_le n s f d j))
  weigh_up one (come_back i {held} {p} {c = c} {rest} lt e a below) fine =
      each
        (λ j.
          weigh f d (view s j)
          ≤ weigh f d (
            assign s.thread i (calling held load) j,
            assign s.place i c j,
            assign s.frames i rest j,
          ))
        i (rw (eq_self i, e, below) (ground (arith, fine, one)))
        (λ j other. rw (eq_other other) (self_le n s f d j))
  weigh_up one (sleep_seq i {held} {p} lt e a slept) fine =
      mover_le n s f d s.thread i asleep_seq (self_le n s f d)
        (idle_le n s f d i (calling held p) asleep_seq e fine)
  weigh_up one (wait_seq_returns i {held} {p} {q} lt e a) fine =
      mover_le n s f d s.thread i (calling held q) (self_le n s f d)
        (idle_le n s f d i (calling held p) (calling held q) e fine)
  weigh_up one (interrupt_seq i lt e) fine =
      mover_le n s f d s.thread i (calling true relock) (self_le n s f d)
        (idle_le n s f d i asleep_seq (calling true relock) e refl)
  weigh_up one (sleep_word i {held} {p} w lt e a slept) fine =
      mover_le n s f d s.thread i (asleep_word w) (self_le n s f d)
        (idle_le n s f d i (calling held p) (asleep_word w) e fine)
  weigh_up one (wait_word_returns i {held} {p} {q} lt e a) fine =
      mover_le n s f d s.thread i (calling held q) (self_le n s f d)
        (idle_le n s f d i (calling held p) (calling held q) e fine)
  weigh_up one (interrupt_word i {w} lt e) fine =
      mover_le n s f d s.thread i (calling true (pc_of w)) (self_le n s f d)
        (idle_le n s f d i (asleep_word w) (calling true (pc_of w)) e refl)
  weigh_up one (wake_seq_up i {held} {p} {q} {count} {woken} lt e a woke) fine =
      mover_le n s f d (rouse_seq woken s.thread) i (calling held q)
        (rouse_all (λ j t. weigh f d (view s j) ≤ weigh f d (t, s.place j, s.frames j)) s.thread
          (self_le n s f d) woken
          (λ j w.
            asleep_le n s f d j (calling true relock)
              (asleep_there n s f d (s.place i) j (k.wakes_sleepers woke j w))))
        (idle_le n s f d i (calling held p) (calling held q) e fine)
  weigh_up one (wake_word_up i {held} {p} {q} {count} {woken} lt e a woke) fine =
      mover_le n s f d (rouse_word woken s.thread) i (calling held q)
        (wake_all (λ j t. weigh f d (view s j) ≤ weigh f d (t, s.place j, s.frames j)) s.thread
          (self_le n s f d) woken (wake_le n s f d))
        (idle_le n s f d i (calling held p) (calling held q) e fine)
  weigh_up one (requeue_up i {held} {p} {q} {count} {limit} {woken} {moved = shifted} lt e a moves)
        fine =
      mover_le n s f d (move_seq woken shifted s.thread) i (calling held q)
        (move_all (λ j t. weigh f d (view s j) ≤ weigh f d (t, s.place j, s.frames j)) s.thread
          (self_le n s f d) woken shifted
          (λ j w.
            asleep_le n s f d j (calling true relock)
              (asleep_there n s f d (s.place i) j (k.requeue_wakes_sleepers moves j w)))
          (λ j w.
            asleep_le n s f d j (asleep_word relocking)
              (asleep_there n s f d (s.place i) j (k.requeue_moves_sleepers moves j w))))
        (elim (ℕ_discrete (s.place i) d) [
          | yes same ↦ idle_le n s f d i (calling held p) (calling held q) e (fine same)
          | no apart ↦ rw (eq_other apart) (omega arith)
        ])
