-- ===== src/Fastsync/Barrier/Invariant.antt =====
-- The invariant of the barrier of src/fastsync/fastsync_barrier.c holds in every reachable state.
mod Defs
mod Moves
mod Reset
mod Wake
pub use Defs.*
pub use Moves.{return-zero}
pub use Wake.{wake-place}
use Moves.{
  climb-Numbers, stay-Numbers, descend-Numbers, from_Numbers, same_round, advance-Numbers,
  return-Numbers, call-Numbers, sleep-Numbers, wait_returns-Numbers, interrupt-Numbers,
}
use Reset.{reset-notify, reset-return}
use Wake.{wake_up-Inv}
use reeact_v.Prelude.{
  ℕ, ◌+◌, ◌≤◌, ◌<◌, ◌≡◌, refl, arith, assign, tally, tally-zero, tally_pos_le, Option, zero, suc,
  false,
}
use reeact_v.Fastsync.Futex.{Futex}
use reeact_v.Fastsync.Barrier.{
  Kind, Bar, int_max, fastsync_barrier_init, Pc, enter, store, go, ret, access,
}
use reeact_v.Fastsync.Barrier.System.{
  outside, running, inc, fresh, climb, stay, descend, Thread, System, advanced, returned, resets,
  serial, Step, call, advance, return, sleep, wait_returns, interrupt, wake_up, Reach, start, later,
}

advance-Inv :
    {kind : Kind} {n total : ℕ} {s : System}
    → Inv kind n total s
    → (i : ℕ) → i < n
    → (p q : Pc) (bar : Bar) → (s.thread i).place ≡ running p
    → access kind p s.bar ≡ go bar q
    → Inv kind n total (record s {
      bar = bar;
      thread = assign s.thread i (advanced (s.thread i) p q);
      round = s.round + resets p;
    })
advance-Inv inv i lt (store old) q bar here e = reset-notify inv i lt here q bar e
advance-Inv inv i lt p q bar here e =
    same_round inv i lt refl (advance-Numbers inv i lt p q bar here refl e)

return-Inv :
    {kind : Kind} {n total : ℕ} {s : System}
    → Inv kind n total s
    → (i : ℕ) → i < n
    → (p : Pc) (bar : Bar) (code : ℕ) → (s.thread i).place ≡ running p
    → access kind p s.bar ≡ ret bar code
    → Inv kind n total (record {
      bar = bar;
      thread = assign s.thread i (returned (s.thread i) p);
      round = s.round + resets p;
      serials = s.serials + serial code;
    })
return-Inv inv i lt (store old) bar code here e = reset-return inv i lt here bar code e
return-Inv inv i lt p bar code here e =
    same_round inv i lt refl (return-Numbers inv i lt p bar code here refl e)

-- Counts that a barrier can be used with: one caller or more, each with a count above 0, which is 1
-- where the barrier blocks, and no more than INT_MAX in all.
pub record Counts (kind : Kind) (n : ℕ) (weights : ℕ → ℕ) : Type 0 where
  pub some_thread : 0 < n
  pub positive : (i : ℕ) → i < n → 0 < weights i
  pub own : (i : ℕ) → i < n → inc kind (weights i) ≡ weights i
  pub fits : tally (λ w. w) n weights ≤ int_max

-- The sum of the counts.
abbrev pub sum : (n : ℕ) (weights : ℕ → ℕ) → ℕ
sum n weights = tally (λ w. w) n weights

-- The counts of threads at a barrier that blocks.
abbrev pub ones : ℕ → ℕ
ones _ = 1

pub sum-ones : (n : ℕ) → sum n ones ≡ n
unfolding tally
sum-ones zero = refl
sum-ones (suc n) = omega (arith, sum-ones n)

brings-fresh : (n : ℕ) (weights : ℕ → ℕ) → tally brings n (fresh weights) ≡ sum n weights
unfolding tally
brings-fresh zero weights = refl
brings-fresh (suc n) weights = omega (arith, brings-fresh n weights)

start-Inv :
    (kind : Kind) (n : ℕ) (weights : ℕ → ℕ)
    → Counts kind n weights
    → (old : Bar) (parent : Option ℕ) {bar : Bar}
    → fastsync_barrier_init false old (sum n weights) ≡ (0, bar)
    → Inv kind n (sum n weights) (record {
      bar = record bar { parent_bar = parent };
      thread = fresh weights;
      round = 0;
      serials = 0;
    })
unfolding fastsync_barrier_init
start-Inv kind n weights counts old parent e =
    let nobody = λ (w : Thread → ℕ) (none : (i : ℕ) → i < n → w (fresh weights i) ≡ 0).
      tally-zero w n (fresh weights) none in
    let some : 0 < sum n weights =
      omega (arith, counts.some_thread, tally_pos_le (λ (w : ℕ). w) n weights counts.positive) in
    record {
      some_thread = counts.some_thread;
      fits = counts.fits;
      count = ground arith;
      weighs = brings-fresh n weights;
      seq = ground arith;
      counted = ground (arith, nobody (ahead 0) (λ _ _. refl));
      one_closes = omega (arith, nobody closes (λ _ _. refl));
      closes_full = λ full. absurd (omega (arith, nobody closes (λ _ _. refl)));
      full_closes = λ full. absurd (ground (arith, some));
      covered = λ full. absurd (omega (arith, nobody (stale 0) (λ _ _. refl)));
      one_serial = ground (arith, nobody notifies (λ _ _. refl));
      local = λ i lt. (counts.positive i lt, counts.own i lt, (refl, refl));
    }

-- Every step of any thread keeps the invariant.
pub Step-Inv :
    {k : Futex} {kind : Kind} {n total : ℕ} {s t : System}
    → Step k kind n s t
    → Inv kind n total s
    → Inv kind n total t
Step-Inv (call i lt here) inv = from_Numbers inv i lt (call-Numbers inv i lt here)
Step-Inv (advance i {p} {q} {bar} lt here e) inv = advance-Inv inv i lt p q bar here e
Step-Inv (climb i {p} {q} {bar} {parent} {count} lt here e) inv =
    from_Numbers inv i lt (climb-Numbers inv i lt p q bar parent count here e)
Step-Inv (stay i {p} {q} p' lt here) inv = from_Numbers inv i lt (stay-Numbers inv i lt p q p' here)
Step-Inv (descend i {p} {q} lt here) inv = from_Numbers inv i lt (descend-Numbers inv i lt p q here)
Step-Inv (return i {p} {bar} {code} lt here e) inv = return-Inv inv i lt p bar code here e
Step-Inv {k} (sleep i {p} {q} {val} lt here e asleep) inv =
    from_Numbers inv i lt (sleep-Numbers inv i lt p q val here e (k.sleeps_on_match asleep))
Step-Inv (wait_returns i {p} {q} {val} lt here e) inv =
    from_Numbers inv i lt (wait_returns-Numbers inv i lt p q val here e)
Step-Inv (interrupt i {q} lt here) inv = from_Numbers inv i lt (interrupt-Numbers inv i lt q here)
Step-Inv {k} (wake_up i {p} lt here e wakes) inv = wake_up-Inv k inv i p lt here e wakes

pub Reach-Inv :
    {k : Futex} {kind : Kind} {n : ℕ} {weights : ℕ → ℕ} {s : System}
    → Counts kind n weights
    → Reach k kind n weights s
    → Inv kind n (sum n weights) s
Reach-Inv {kind} {n} {weights} counts (start old parent e) =
    start-Inv kind n weights counts old parent e
Reach-Inv counts (later r st) = Step-Inv st (Reach-Inv counts r)
