-- ===== src/Fastsync/Cond/Signals.antt =====
-- What fastsync_cond_signal_count of src/fastsync/fastsync_cond.c tells its caller.
use mathlib.Core.Path.{subst}
use reeact_v.Prelude.{
  ℕ, suc, zero, ◌+◌, ◌<◌, ◌≡◌, inl, inr, refl, sym, ap, ◌∙◌, Bool, true, false, arith, assign, ◌==◌,
  ◌&&◌, Bool-cases, if◌then◌else◌, ltb, ℕ_discrete, tally, tally_pos, le-tally,
}
use reeact_v.Fastsync.Futex.{Futex}
use reeact_v.Fastsync.Cond.{Cond, Pc, Act, signal_count, relock, finish, wake_seq, access}
use reeact_v.Fastsync.Cond.System.{
  Thread, calling, leave, System, at, number, seq_sleepers, is_asleep_seq, rouse_seq, Step, call,
  advance, return, call_up, come_back, sleep_seq, wait_seq_returns, interrupt_seq, sleep_word,
  wait_word_returns, interrupt_word, wake_seq_up, wake_word_up, requeue_up,
}
use reeact_v.Fastsync.Cond.Invariant.Places.{eq_self, assign_all, if_all}

-- How many threads sleep on `seq` of the object at `c`.
abbrev pub waiters : (n : ℕ) → System → (c : ℕ) → ℕ
waiters n s c = number n (seq_sleepers n s.thread s.place c)

-- The thread that makes a step.
abbrev pub mover : {k : Futex} {n m : ℕ} {s t : System} → Step k n m s t → ℕ
mover (call i c held lt e begins) = i
mover (advance i lt e a) = i
mover (return i lt e a below) = i
mover (call_up i lt e a begins) = i
mover (come_back i lt e a below) = i
mover (sleep_seq i lt e a slept) = i
mover (wait_seq_returns i lt e a) = i
mover (interrupt_seq i lt e) = i
mover (sleep_word i w lt e a slept) = i
mover (wait_word_returns i lt e a) = i
mover (interrupt_word i lt e) = i
mover (wake_seq_up i lt e a woke) = i
mover (wake_word_up i lt e a woke) = i
mover (requeue_up i lt e a moves) = i

abbrev bit : Bool → ℕ
bit b = if b then 1 else 0

number_split :
    (n : ℕ) (f g h : ℕ → Bool)
    → ((i : ℕ) → i < n → bit (f i) + bit (g i) ≡ bit (h i))
    → number n f + number n g ≡ number n h
unfolding tally
number_split zero f g h parts = refl
number_split (suc n) f g h parts =
    let below = number_split n f g h (λ i lt. parts i (omega arith)) in
    omega (arith, below, parts n (omega arith))

pc_or : Thread → Pc
pc_or (calling held p) = p
pc_or _ = finish

same_pc :
    {t : Thread} {held held' : Bool} {p p' : Pc}
    → t ≡ calling held p
    → t ≡ calling held' p'
    → p ≡ p'
unfolding pc_or
same_pc e e' = ap pc_or (sym e ∙ e')

leaves-not : (held : Bool) {held' : Bool} {p : Pc} → leave held ≡ calling held' p → ⊥
leaves-not true e = cc (e)
leaves-not false e = cc (e)

at_wake :
    (m : ℕ) (p : Pc) (cond : Cond) (state : ℕ) {a : Act}
    → access m p cond state ≡ a
    → p ≡ Pc.wake signal_count
    → a ≡ wake_seq 1 finish
unfolding access
at_wake m p cond state {a} e there = sym e ∙ ap (λ p. access m p cond state) there

-- The sleepers before FUTEX_WAKE are those that it wakes and those after it.
waiters_split :
    (k : Futex) (n : ℕ) (s : System) (i : ℕ) {held : Bool} {p : Pc} {woken : ℕ → Bool}
    (held' : Bool) (q : Pc)
    → s.thread i ≡ calling held p
    → k.Wakes 1 (seq_sleepers n s.thread s.place (s.place i)) woken
    → number n woken
        + number n (
            seq_sleepers n
              (assign (rouse_seq woken s.thread) i (calling held' q))
              s.place
              (s.place i))
      ≡ waiters n s (s.place i)
waiters_split k n s i {woken} held' q here woke =
    number_split n woken
      (seq_sleepers n (assign (rouse_seq woken s.thread) i (calling held' q)) s.place (s.place i))
      (seq_sleepers n s.thread s.place (s.place i))
      (λ j lt.
        assign_all
          (λ j x.
            bit (woken j) + bit (ltb j n && is_asleep_seq x && s.place j == s.place i)
            ≡ bit (seq_sleepers n s.thread s.place (s.place i) j))
          (rouse_seq woken s.thread) i (calling held' q)
          (λ j.
            if_all
              (λ x.
                bit (woken j) + bit (ltb j n && is_asleep_seq x && s.place j == s.place i)
                ≡ bit (seq_sleepers n s.thread s.place (s.place i) j))
              (woken j) (calling true relock) (s.thread j)
              (λ w. let a = k.wakes_sleepers woke j w in ground (arith, w, a))
              (λ w. ground (arith, w)))
          (elim (Bool-cases (woken i)) [
            | inl w ↦ let a = k.wakes_sleepers woke i w in ground (arith, a, here)
            | inr w ↦ ground (arith, w, here)
          ])
          j)

bit-true : (b : Bool) → 0 < bit b → b ≡ true
bit-true true more = refl
bit-true false more = absurd (omega (arith, more))

-- FUTEX_WAKE that wakes nobody finds nobody asleep.
none_asleep :
    (k : Futex) (n : ℕ) (asleep : ℕ → Bool) {woken : ℕ → Bool}
    → k.Wakes 1 asleep woken
    → ((i : ℕ) → asleep i ≡ true → i < n)
    → number n woken ≡ 0
    → number n asleep ≡ 0
none_asleep k n asleep {woken} woke small none_woken = elim (ℕ_discrete (number n asleep) 0) [
  | yes e ↦ e
  | no some_asleep ↦
      let (i, lt, more) = tally_pos bit n asleep (omega (arith, some_asleep)) in
      let (j, w) = k.wakes_one woke (omega arith) i (bit-true (asleep i) more) in
      let counted = le-tally bit n woken j (small j (k.wakes_sleepers woke j w)) in
      let one : bit (woken j) ≡ 1 = ap bit w in absurd (omega (arith, counted, one, none_woken))
]

-- A step by which fastsync_cond_signal_count calls FUTEX_WAKE stores in *count the number by which
-- it lowers the number of threads that sleep on seq of the condition variable, and stores 0 only
-- where no thread slept there.
pub signal_count_lem :
    {k : Futex} {n m : ℕ} {s t : System} (step : Step k n m s t) {held : Bool}
    → s.thread (mover step) ≡ calling held (Pc.wake signal_count)
    → (t.count (mover step) + waiters n t (s.place (mover step))
        ≡ waiters n s (s.place (mover step)))
      × (t.count (mover step) ≡ 0 → waiters n s (s.place (mover step)) ≡ 0)
signal_count_lem (call i c held lt e begins) here = absurd (leaves-not held (sym e ∙ here))
signal_count_lem {m} {s} (advance i {p = p} lt e a) here =
    cc (at_wake m p (at s i) s.state a (same_pc e here))
signal_count_lem {m} {s} (return i {p = p} lt e a below) here =
    cc (at_wake m p (at s i) s.state a (same_pc e here))
signal_count_lem {m} {s} (call_up i {p = p} lt e a begins) here =
    cc (at_wake m p (at s i) s.state a (same_pc e here))
signal_count_lem {m} {s} (come_back i {p = p} lt e a below) here =
    cc (at_wake m p (at s i) s.state a (same_pc e here))
signal_count_lem {m} {s} (sleep_seq i {p = p} lt e a slept) here =
    cc (at_wake m p (at s i) s.state a (same_pc e here))
signal_count_lem {m} {s} (wait_seq_returns i {p = p} lt e a) here =
    cc (at_wake m p (at s i) s.state a (same_pc e here))
signal_count_lem (interrupt_seq i lt e) here = cc (e, here)
signal_count_lem {m} {s} (sleep_word i {p = p} w lt e a slept) here =
    cc (at_wake m p (at s i) s.state a (same_pc e here))
signal_count_lem {m} {s} (wait_word_returns i {p = p} lt e a) here =
    cc (at_wake m p (at s i) s.state a (same_pc e here))
signal_count_lem (interrupt_word i lt e) here = cc (e, here)
signal_count_lem {m} {s} (wake_word_up i {p = p} lt e a woke) here =
    cc (at_wake m p (at s i) s.state a (same_pc e here))
signal_count_lem {m} {s} (requeue_up i {p = p} lt e a moves) here =
    cc (at_wake m p (at s i) s.state a (same_pc e here))
signal_count_lem {k} {n} {m} {s} (wake_seq_up i {held} {p} {q} {count} {woken} lt e a woke) here =
    let there = same_pc e here in
    let one : count ≡ 1 = cc (at_wake m p (at s i) s.state a there) in
    let woke_one =
      subst (λ x. k.Wakes x (seq_sleepers n s.thread s.place (s.place i)) woken) one woke in
    let parts = waiters_split k n s i held q e woke_one in
    rw (eq_self i, there)
      (
        parts,
        none_asleep k n (seq_sleepers n s.thread s.place (s.place i)) woke_one
            (λ j asleep. ground (arith, asleep)),
      )
