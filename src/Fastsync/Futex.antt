-- ===== src/Fastsync/Futex.antt =====
-- The futex system call, which src/fastsync/fastsync.h reaches through `sys_futex`. The kernel is
-- not part of the repository: it is a parameter, with what futex(2) documents of it.
use reeact_v.Prelude.{ℕ, ◌+◌, ◌≤◌, ◌<◌, ◌≡◌, ◌⊎◌, Bool, true}

-- `Sleeps word val`: FUTEX_WAIT with the value `val` may put its caller to sleep when the word
-- holds `word`. `Wakes count asleep woken`: FUTEX_WAKE for `count` waiters may wake the threads
-- `woken` when the threads `asleep` sleep on the word. `Requeues count limit asleep woken moved`:
-- FUTEX_REQUEUE may wake `woken` and put `moved`, still asleep, on the queue of the second word.
pub record Futex : Type 1 where
  pub Sleeps : (word val : ℕ) → Type 0
  pub Wakes : (count : ℕ) (asleep woken : ℕ → Bool) → Type 0
  pub Requeues : (count limit : ℕ) (asleep woken moved : ℕ → Bool) → Type 0
  -- FUTEX_WAIT sleeps only if the word still holds the value.
  pub sleeps_on_match : {word val : ℕ} → Sleeps word val → word ≡ val
  -- FUTEX_WAKE wakes only threads that sleep,
  pub wakes_sleepers :
      {count : ℕ} {asleep woken : ℕ → Bool}
      → Wakes count asleep woken
      → (i : ℕ) → woken i ≡ true
      → asleep i ≡ true
  -- at least one of them if there is one,
  pub wakes_one :
      {count : ℕ} {asleep woken : ℕ → Bool}
      → Wakes count asleep woken
      → 0 < count
      → (i : ℕ) → asleep i ≡ true
      → (j : ℕ) × (woken j ≡ true)
  -- and all of them if the count covers them all.
  pub wakes_all :
      {count : ℕ} {asleep woken : ℕ → Bool}
      → Wakes count asleep woken
      → (n : ℕ) → n ≤ count
      → ((i : ℕ) → asleep i ≡ true → i < n)
      → (i : ℕ) → asleep i ≡ true
      → woken i ≡ true
  -- FUTEX_REQUEUE wakes and moves only threads that sleep, and moves none before it has woken
  -- as many as it may,
  pub requeue_wakes_sleepers :
      {count limit : ℕ} {asleep woken moved : ℕ → Bool}
      → Requeues count limit asleep woken moved
      → (i : ℕ) → woken i ≡ true
      → asleep i ≡ true
  pub requeue_moves_sleepers :
      {count limit : ℕ} {asleep woken moved : ℕ → Bool}
      → Requeues count limit asleep woken moved
      → (i : ℕ) → moved i ≡ true
      → asleep i ≡ true
  pub requeue_wakes_first :
      {count limit : ℕ} {asleep woken moved : ℕ → Bool}
      → Requeues count limit asleep woken moved
      → 0 < count
      → (i : ℕ) → moved i ≡ true
      → (j : ℕ) × (woken j ≡ true)
  -- and leaves none where it may wake and move as many as there are.
  pub requeue_leaves_none :
      {count limit : ℕ} {asleep woken moved : ℕ → Bool}
      → Requeues count limit asleep woken moved
      → (n : ℕ) → n ≤ count + limit
      → ((i : ℕ) → asleep i ≡ true → i < n)
      → (i : ℕ) → asleep i ≡ true
      → (woken i ≡ true) ⊎ (moved i ≡ true)

-- The kernel that may do whatever is documented.
abbrev pub any_futex : Futex
any_futex = record {
  Sleeps = λ word val. word ≡ val;
  Wakes = λ count asleep woken.
      ((i : ℕ) → woken i ≡ true → asleep i ≡ true)
      × (0 < count → (i : ℕ) → asleep i ≡ true → (j : ℕ) × (woken j ≡ true))
      × ((n : ℕ)
          → n ≤ count
          → ((i : ℕ) → asleep i ≡ true → i < n)
          → (i : ℕ) → asleep i ≡ true
          → woken i ≡ true);
  Requeues = λ count limit asleep woken moved.
      ((i : ℕ) → woken i ≡ true → asleep i ≡ true)
      × ((i : ℕ) → moved i ≡ true → asleep i ≡ true)
      × (0 < count → (i : ℕ) → moved i ≡ true → (j : ℕ) × (woken j ≡ true))
      × ((n : ℕ)
          → n ≤ count + limit
          → ((i : ℕ) → asleep i ≡ true → i < n)
          → (i : ℕ) → asleep i ≡ true
          → (woken i ≡ true) ⊎ (moved i ≡ true));
  requeue_wakes_sleepers = λ r. r.0;
  requeue_moves_sleepers = λ r. r.1;
  requeue_wakes_first = λ r. r.2;
  requeue_leaves_none = λ r. r.3;
  sleeps_on_match = λ e. e;
  wakes_sleepers = λ w. w.0;
  wakes_one = λ w. w.1;
  wakes_all = λ w. w.2;
}
