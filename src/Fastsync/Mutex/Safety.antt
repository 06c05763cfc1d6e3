-- ===== src/Fastsync/Mutex/Safety.antt =====
-- What holds of the mutex of src/fastsync/fastsync_mutex.c in every reachable state.
use reeact_v.Prelude.{
  ℕ, ◌%◌, ◌≤◌, ◌<◌, ◌≡◌, ◌≢◌, ◌↔◌, ◌⊎◌, inl, inr, refl, Bool, true, false, bit_or, arith, tally,
  tally_pos, le-tally, add-le-tally, ℕ_discrete,
}
use reeact_v.Fastsync.Atomic.{low_bit}
use reeact_v.Fastsync.Futex.{Futex}
use reeact_v.Fastsync.Mutex.{attempt, ret, ebusy, access}
use reeact_v.Fastsync.Mutex.System.{Thread, critical, running, is_asleep, System, Reach}
use reeact_v.Fastsync.Mutex.Invariant.{holds, settles, helps, dozes, Inv, Reach-Inv}

abbrev pub is_awake : Thread → Bool
is_awake critical = true
is_awake (running _) = true
is_awake _ = false

module _ {n state : ℕ} {thread : ℕ → Thread} (inv : Inv n state thread) where
  one_owner : (i j : ℕ) → i < n → j < n → holds (thread i) ≡ 1 → holds (thread j) ≡ 1 → i ≡ j
  one_owner i j lt_i lt_j own_i own_j = elim (ℕ_discrete i j) [
    | yes same ↦ same
    | no apart ↦ absurd (omega (arith, inv.owned, add-le-tally holds n thread i j lt_i lt_j apart))
  ]

  owner_iff : (state % 2 ≡ 1) ↔ ((i : ℕ) × (i < n) × (holds (thread i) ≡ 1))
  owner_iff = (λ locked. find (omega (arith, inv.owned)), λ (i, lt, own). locks i lt own)
    where
      find : 0 < tally holds n thread → (i : ℕ) × (i < n) × (holds (thread i) ≡ 1)
      find pos = let (i, lt, own) = tally_pos holds n thread pos in (i, lt, ground arith)

      locks : (i : ℕ) → i < n → holds (thread i) ≡ 1 → state % 2 ≡ 1
      locks i lt own = omega (arith, inv.owned, le-tally holds n thread i lt)

module _ {n state : ℕ} {thread : ℕ → Thread} (inv : Inv n state thread) where
  -- A thread that can take the next step, and is in a call if the mutex is free.
  abbrev Mover : Type 0
  Mover = (j : ℕ) × (j < n) × (is_awake (thread j) ≡ true) × (state % 2 ≡ 0 → thread j ≢ critical)

  owner_moves : state % 2 ≡ 1 → Mover
  owner_moves locked =
      let (j, lt, own) = (owner_iff inv).0 locked in
      (j, lt, ground arith, λ free. absurd (omega arith))

  settler_moves : 0 < tally settles n thread → Mover
  settler_moves pos =
      let (j, lt, one) = tally_pos settles n thread pos in
      (j, lt, ground arith, λ free here. ground arith)

  helper_moves : 0 < tally helps n thread → Mover
  helper_moves pos =
      let (j, lt, one) = tally_pos helps n thread pos in
      (j, lt, ground arith, λ free here. ground arith)

  contended_moves : 2 ≤ state → Mover
  contended_moves contended = elim (ℕ_discrete state 2) [
    | yes free ↦ settler_moves (inv.settling free)
    | no locked ↦ owner_moves (omega (arith, inv.small))
  ]

  mover : (i : ℕ) → i < n → is_asleep (thread i) ≡ true → Mover
  mover i lt a = go (inv.covered (omega (arith, le-tally dozes n thread i lt, dozing)))
    where
      dozing : dozes (thread i) ≡ 1
      dozing = ground arith

      go : (2 ≤ state) ⊎ (0 < tally helps n thread) → Mover
      go (inl contended) = contended_moves contended
      go (inr helped) = helper_moves helped

  free_iff : (state % 2 ≡ 0) ↔ ((i : ℕ) → i < n → holds (thread i) ≢ 1)
  free_iff = (
    λ free i lt own. absurd (omega (arith, (owner_iff inv).1 (i, lt, own))),
    λ nobody. elim (ℕ_discrete (state % 2) 1) [
      | yes locked ↦ let (i, lt, own) = (owner_iff inv).0 locked in absurd (nobody i lt own)
      | no free ↦ omega arith
    ],
  )

-- In every reachable state of the mutex, over any kernel and any number of threads, two threads
-- that have the mutex (lock or trylock has returned 0 and the unlock has not yet cleared the low
-- bit of the word) are one thread.
pub mutual_exclusion :
    {k : Futex} {n : ℕ} {s : System}
    → Reach k n s
    → (i j : ℕ) → i < n
    → j < n
    → holds (s.thread i) ≡ 1
    → holds (s.thread j) ≡ 1
    → i ≡ j
mutual_exclusion r = one_owner (Reach-Inv r)

-- In every reachable state of the mutex the word is below 4, and its low bit is set exactly when
-- some thread has the mutex.
pub state_bits :
    {k : Futex} {n : ℕ} {s : System}
    → Reach k n s
    → (s.state < 4) × ((s.state % 2 ≡ 1) ↔ ((i : ℕ) × (i < n) × (holds (s.thread i) ≡ 1)))
state_bits r = ((Reach-Inv r).small, owner_iff (Reach-Inv r))

-- In every reachable state of the mutex in which a thread sleeps in FUTEX_WAIT, some thread is
-- awake in a mutex call or in its critical section, and if the mutex is free that thread is not in
-- its critical section.
pub no_lost_wakeup :
    {k : Futex} {n : ℕ} {s : System}
    → Reach k n s
    → (i : ℕ) → i < n
    → is_asleep (s.thread i) ≡ true
    → (j : ℕ) × (j < n) × (is_awake (s.thread j) ≡ true) × (s.state % 2 ≡ 0 → s.thread j ≢ critical)
no_lost_wakeup r i lt a = mover (Reach-Inv r) i lt a

trylock_of_Inv :
    {n state : ℕ} {thread : ℕ → Thread}
    → Inv n state thread
    → (state' code : ℕ) × (access attempt state ≡ ret state' code)
      × ((code ≡ 0) ↔ ((i : ℕ) → i < n → holds (thread i) ≢ 1))
      × (code ≢ 0 → code ≡ ebusy)
unfolding access
trylock_of_Inv {state} inv = elim (ℕ_discrete (state % 2) 0) [
  | yes free ↦ (
    bit_or state 1,
    0,
    rw (low_bit state inv.small, free),
    (λ _. (free_iff inv).0 free, λ _. refl),
    λ never. absurd (never refl),
  )
  | no locked ↦ (
    bit_or state 1,
    ebusy,
    ground (arith, low_bit state inv.small),
    (λ never. absurd (omega arith), λ nobody. absurd (locked ((free_iff inv).1 nobody))),
    λ _. refl,
  )
]

-- A trylock in a reachable state returns at its one access, with 0 exactly when no thread has the
-- mutex and with EBUSY otherwise.
pub trylock_lem :
    {k : Futex} {n : ℕ} {s : System}
    → Reach k n s
    → (state code : ℕ) × (access attempt s.state ≡ ret state code)
      × ((code ≡ 0) ↔ ((i : ℕ) → i < n → holds (s.thread i) ≢ 1))
      × (code ≢ 0 → code ≡ ebusy)
trylock_lem {s} r = trylock_of_Inv (Reach-Inv r)
