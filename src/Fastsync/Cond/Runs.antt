-- ===== src/Fastsync/Cond/Runs.antt =====
-- Runs of src/fastsync/fastsync_cond.c by two threads under a given schedule.
use mathlib.Core.List.{foldl}
use mathlib.Core.Path.{subst}
use reeact_v.Prelude.{
  ℕ, ◌%◌, ◌^◌, ◌<◌, ◌≡◌, refl, Bool, true, false, none, dec_lt, ℕ_discrete, List, [], ◌∷◌, Option,
  some, inl, ◌==◌, if◌then◌else◌,
}
use reeact_v.Fastsync.Futex.{any_futex}
use reeact_v.Fastsync.Mutex.{fastsync_mutex_init, fastsync_mutex_lock, fastsync_mutex_unlock}
use reeact_v.Fastsync.Mutex as Mutex
use reeact_v.Fastsync.Cond.{
  Cond, Pc, Act, relock, load, call_parent, go, ret, wait_seq, wake_seq, requeue, wait_word,
  wake_word, fastsync_cond_init, fastsync_cond_wait, fastsync_cond_signal, access,
}
use reeact_v.Fastsync.Cond.System.{
  relocking, Thread, outside, critical, calling, asleep_seq, asleep_word, System, at, call_up,
  come_back, requeue_up, seq_sleepers, word_sleepers, lock, wait, signal_it, signal_counted,
  unlock_it, call, advance, return, sleep_seq, wait_seq_returns, sleep_word, wait_word_returns,
  wake_seq_up, wake_word_up, Reach, start, later,
}

-- A reachable state of two threads with the mutex at 9, with the proof that it is reachable.
pub record Run : Type 0 where
  pub last : System
  pub reach : Reach any_futex 2 9 last

-- What a thread does at its turn: go on, or begin a call if it is in none.
pub data Order : Type 0 where
  on : ℕ → Order
  wait_now signal_now count_now : ℕ → (c : ℕ) → Order

module _ (r : Run) (i : ℕ) (lt : i < 2) where
  -- An access. FUTEX_WAIT sleeps if it may, FUTEX_WAKE wakes every sleeper.
  perform :
      (held : Bool) (p : Pc)
      → r.last.thread i ≡ calling held p
      → (a : Act) → access 9 p (at r.last i) r.last.state ≡ a
      → Run
  unfolding ℕ_discrete fastsync_cond_wait
  perform held p here (go cond state q) e = record {
    last = _;
    reach = later r.reach (advance i lt here e);
  }
  perform held p here (ret cond state code) e = left (r.last.frames i) refl
    where
      left : (frames : List ℕ) → r.last.frames i ≡ frames → Run
      left [] below = record { last = _; reach = later r.reach (return i lt here e below) }
      left (c ∷ rest) below = record {
        last = _;
        reach = later r.reach (come_back i lt here e below);
      }
  perform held p here (call_parent cond parent load) e = record {
    last = _;
    reach = later r.reach (call_up i lt here e refl);
  }
  perform held p here (wait_seq val relock) e = elim (ℕ_discrete ((at r.last i).seq % 2 ^ 32) val) [
    | yes same ↦ record { last = _; reach = later r.reach (sleep_seq i lt here e same) }
    | no other ↦ record { last = _; reach = later r.reach (wait_seq_returns i lt here e) }
  ]
  perform held p here (wait_word val relock) e = elim (ℕ_discrete r.last.state val) [
    | yes same ↦ record { last = _; reach = later r.reach (sleep_word i relocking lt here e same) }
    | no other ↦ record { last = _; reach = later r.reach (wait_word_returns i lt here e) }
  ]
  perform held p here (wake_seq count q) e = record {
    last = _;
    reach = later r.reach (
        wake_seq_up i {woken = seq_sleepers 2 r.last.thread r.last.place (r.last.place i)} lt here e
          (λ j w. w, λ some j a. (j, a), λ m few all j a. a));
  }
  perform held p here (wake_word count q) e = record {
    last = _;
    reach = later r.reach (
        wake_word_up i {woken = word_sleepers 2 r.last.thread} lt here e
          (λ j w. w, λ some j a. (j, a), λ m few all j a. a));
  }
  perform held p here (requeue count limit target q) e = elim (ℕ_discrete target 9) [
    | yes same ↦ record {
      last = _;
      reach = later r.reach (
          requeue_up i {woken = seq_sleepers 2 r.last.thread r.last.place (r.last.place i)}
            {moved = λ _. false} lt here
            (subst (λ t. access 9 p (at r.last i) r.last.state ≡ requeue count limit t q) same e)
            (λ j w. w, λ j w. cc (w), λ some j w. cc (w), λ m few all j a. inl a));
    }
    | no other ↦ r
  ]
  perform held p here _ e = r

  idle : (o : Order) → r.last.thread i ≡ outside → Run
  unfolding fastsync_mutex_lock fastsync_cond_signal
  idle (Order.signal_now _ c) here = record {
    last = _;
    reach = later r.reach (call i c false lt here (signal_it false refl));
  }
  idle (Order.count_now _ c) here = record {
    last = _;
    reach = later r.reach (call i c false lt here (signal_counted false));
  }
  idle _ here = record { last = _; reach = later r.reach (call i 0 false lt here (lock refl)) }

  owner : (o : Order) → r.last.thread i ≡ critical → Run
  unfolding fastsync_mutex_unlock fastsync_cond_wait
  owner (Order.wait_now _ c) here = record {
    last = _;
    reach = later r.reach (call i c true lt here (wait refl));
  }
  owner _ here = record { last = _; reach = later r.reach (call i 0 true lt here (unlock_it refl)) }

  turn_at : Order → (t : Thread) → r.last.thread i ≡ t → Run
  unfolding perform idle owner
  turn_at o outside here = idle o here
  turn_at o critical here = owner o here
  turn_at o (calling held p) here = perform held p here (access 9 p (at r.last i) r.last.state) refl
  turn_at o asleep_seq here = r
  turn_at o (asleep_word w) here = r

abbrev who : Order → ℕ
who (Order.on i) = i
who (Order.wait_now i c) = i
who (Order.signal_now i c) = i
who (Order.count_now i c) = i

turn : Run → Order → Run
unfolding turn_at dec_lt
turn r o = elim (dec_lt (who o) 2) [
  | yes lt ↦ turn_at r (who o) lt o (r.last.thread (who o)) refl
  | no _ ↦ r
]

abbrev blank : Option ℕ → Cond
blank parent = record { use_child = 0; mutex = 5; seq = 5; parent = parent }

-- The object at 1 is below the one at 2.
abbrev parent_of : ℕ → Option ℕ
parent_of c = if c == 1 then some 2 else none

unfoldable pub run : List Order → Run
unfolding turn fastsync_mutex_init fastsync_cond_init access Mutex.access
run = foldl turn (record {
  last = _;
  reach =
      start 7 {count = λ _. 0} refl
        (λ c. record { blank = blank (parent_of c); unused = refl; made = refl });
})
