-- ===== src/Fastsync/Barrier/Safety.antt =====
-- What holds of the barrier of src/fastsync/fastsync_barrier.c in every reachable state.
use reeact_v.Prelude.{
  ℕ, ◌+◌, ◌%◌, ◌^◌, ◌≤◌, ◌<◌, ◌≡◌, ◌↔◌, ◌⊎◌, inl, inr, refl, sym, ◌∙◌, true, false, arith, tally,
  tally-zero, tally-below, tally_pos, tally_short, le-tally, ap, ℕ_discrete, Bool, Bool-cases, ◌==◌,
  if◌then◌else◌,
}
use reeact_v.Fastsync.Futex.{Futex}
use reeact_v.Fastsync.Barrier.{
  Kind, interproc, Bar, serial_thread, blocking, Pc, complete, store, notify, test, ret, futex_wake,
  access,
}
use reeact_v.Fastsync.Barrier.System.{
  Place, outside, running, asleep, above, is_asleep, System, Reach,
}
use reeact_v.Fastsync.Barrier.Invariant.{
  AtPlace, Counts, sum, brings, ahead_le, ahead, stale, closes, notifying, notifies, Inv,
  return-zero, wake-place, Reach-Inv,
}

-- How a wait returns: `code` is its value at an access, or behind FUTEX_WAKE.
pub data Returns (kind : Kind) (p : Pc) (bar : Bar) (code : ℕ) : Type 0 where
  at_access : {bar' : Bar} → access kind p bar ≡ ret bar' code → Returns kind p bar code
  after_wake : {count : ℕ} → access kind p bar ≡ futex_wake count code → Returns kind p bar code

-- What the caller that resets the barrier returns.
abbrev pub last_result : Kind → ℕ
last_result blocking = serial_thread
last_result interproc = 0

-- The caller is past `count == barrier->total_count`.
abbrev pub behind_count : Pc → Bool
behind_count complete = true
behind_count (store old) = true
behind_count notify = true
behind_count p = false

-- The counts of a thread and the round.
pub record InRound (round arrived left : ℕ) : Type 0 where
  pub left_le : left ≤ round
  pub arrived_ge : round ≤ arrived
  pub arrived_le : arrived ≤ round + 1
  pub in_step : arrived ≤ left + 1

in_round :
    (kind : Kind) (round weight arrived left : ℕ) (place : Place)
    → AtPlace kind round weight arrived left place
    → InRound round arrived left
in_round kind round weight arrived left outside at = omega arith
in_round kind round weight arrived left (running p) at = ground arith
in_round kind round weight arrived left (asleep p) at = ground arith
in_round kind round weight arrived left (above p q) at = omega arith

module _ {kind : Kind} {n total : ℕ} {s : System} (inv : Inv kind n total s) where
  pub thread-InRound : (i : ℕ) → i < n → InRound s.round (s.thread i).arrived (s.thread i).left
  thread-InRound i lt =
      in_round kind s.round (s.thread i).weight (s.thread i).arrived (s.thread i).left
        (s.thread i).place (inv.local i lt).2

  -- A sleeper whose round is over.
  pub notifier :
      (i : ℕ)
      → i < n
      → is_asleep (s.thread i).place ≡ true
      → (s.thread i).left < s.round
      → (j : ℕ) × (j < n) × ((s.thread j).place ≡ running notify)
  notifier i lt a over =
      let overdue : stale s.round (s.thread i) ≡ 1 = ground (arith, inv.local i lt) in
      let (j, lt_j, one) =
        tally_pos notifies n s.thread
          (inv.covered (omega (arith, le-tally (stale s.round) n s.thread i lt, overdue))) in
      (j, lt_j, ground arith)

  -- A thread that is still to arrive, or that arrived last.
  pub latecomer :
      ((j : ℕ) × (j < n) × (closes (s.thread j) ≡ 1))
      ⊎ ((j : ℕ) × (j < n) × (ahead s.round (s.thread j) ≡ 0))
  latecomer = elim (ℕ_discrete s.bar.waiting total) [
    | yes full ↦
        let (j, lt_j, pos) = tally_pos closes n s.thread (inv.full_closes full) in
        inl (j, lt_j, ground arith)
    | no open_round ↦
        let most = tally-below (ahead s.round) brings (ahead_le s.round) n s.thread in
        let (j, lt_j, less) =
          tally_short (ahead s.round) brings (ahead_le s.round) n s.thread
            (omega (arith, inv.counted, inv.weighs, most)) in
        inr (j, lt_j, ground (arith, less))
  ]

  someone_awake : (j : ℕ) × (j < n) × (is_asleep (s.thread j).place ≡ false)
  someone_awake = go latecomer
    where
      overdue :
          (j : ℕ)
          → j < n
          → ahead s.round (s.thread j) ≡ 0
          → is_asleep (s.thread j).place ≡ true
          → (m : ℕ) × (m < n) × (is_asleep (s.thread m).place ≡ false)
      overdue j lt_j behind a =
          let over : (s.thread j).left < s.round = ground (arith, inv.local j lt_j) in
          let (m, lt_m, at) = notifier j lt_j a over in (m, lt_m, ap is_asleep at)

      go :
          ((j : ℕ) × (j < n) × (closes (s.thread j) ≡ 1))
            ⊎ ((j : ℕ) × (j < n) × (ahead s.round (s.thread j) ≡ 0))
          → (j : ℕ) × (j < n) × (is_asleep (s.thread j).place ≡ false)
      go (inl (j, lt_j, one)) = (j, lt_j, ground arith)
      go (inr (j, lt_j, behind)) = elim (Bool-cases (is_asleep (s.thread j).place)) [
        | inl a ↦ overdue j lt_j behind a
        | inr awake ↦ (j, lt_j, awake)
      ]

  -- The sequence number tells whether the round of a waiting thread is over.
  over-seq :
      (i : ℕ)
      → i < n
      → (cur : ℕ) → (s.thread i).place ≡ running (test cur)
      → (s.thread i).left < s.round
      → (cur == s.bar.seq) ≡ true
      → ⊥
  over-seq i lt cur here over same = ground (arith, inv.local i lt, inv.seq)

  seq-over :
      (i : ℕ)
      → i < n
      → (cur : ℕ) → (s.thread i).place ≡ running (test cur)
      → (cur == s.bar.seq) ≡ false
      → (s.thread i).left < s.round
  seq-over i lt cur here other = ground (arith, inv.local i lt, inv.seq)

  access_result :
      (i : ℕ)
      → i < n
      → (p : Pc) (bar : Bar) (code : ℕ) → (s.thread i).place ≡ running p
      → access kind p s.bar ≡ ret bar code
      → code ≡ (if behind_count p then last_result kind else 0)
  unfolding access
  access_result i lt (store old) bar code here e = by_kind kind e
    where
      by_kind :
          (kind : Kind) → access kind (store old) s.bar ≡ ret bar code → code ≡ last_result kind
      by_kind blocking e = ground arith
      by_kind interproc e = ground arith
  access_result i lt p bar code here e =
      let (cur, at, zero_code, _, _) = return-zero inv i lt p bar code here refl e in
      zero_code ∙ sym (ap (λ p. if behind_count p then last_result kind else 0) at)

  wake_result :
      (i : ℕ)
      → i < n
      → (p : Pc) {count code : ℕ} → (s.thread i).place ≡ running p
      → access kind p s.bar ≡ futex_wake count code
      → code ≡ (if behind_count p then last_result kind else 0)
  wake_result i lt p {code} here e =
      let (at, _, code_serial) = wake-place kind p s e in
      let blocks : kind ≡ blocking = ground (arith, inv.local i lt) in rw (at, blocks) code_serial

-- In every reachable state of a barrier, of threads that block or of groups that bring counts by
-- fastsynt_barrier_wait_interproc, with or without a parent whose wait takes any time, and with
-- counts that sum up to INT_MAX at most, no caller has returned from its r-th wait before every
-- caller has arrived for the r-th time, and no caller is more than one arrival ahead of another.
pub rendezvous :
    {k : Futex} {kind : Kind} {n : ℕ} {weights : ℕ → ℕ} {s : System}
    → Counts kind n weights
    → Reach k kind n weights s
    → (i j : ℕ) → i < n
    → j < n
    → ((s.thread i).left ≤ (s.thread j).arrived) × ((s.thread i).arrived ≤ (s.thread j).arrived + 1)
rendezvous {s} counts r i j lt_i lt_j =
    let inv = Reach-Inv counts r in
    let in_i = thread-InRound inv i lt_i in let in_j = thread-InRound inv j lt_j in omega arith

-- Whenever every thread of a barrier that blocks, for at most INT_MAX threads and with or without
-- a parent, is outside, the number of calls that have returned PTHREAD_BARRIER_SERIAL_THREAD is
-- the number of times that each thread has returned.
pub one_serial_per_round :
    {k : Futex} {n : ℕ} {weights : ℕ → ℕ} {s : System}
    → Counts blocking n weights
    → Reach k blocking n weights s
    → ((i : ℕ) → i < n → (s.thread i).place ≡ outside)
    → (i : ℕ) → i < n
    → s.serials ≡ (s.thread i).left
one_serial_per_round {n} {s} counts r all_out i lt =
    let inv = Reach-Inv counts r in
    let quiet = tally-zero notifies n s.thread (λ j lt_j. ap notifying (all_out j lt_j)) in
    let back : s.round ≡ (s.thread i).left = ground (arith, inv.local i lt, all_out i lt) in
    omega (arith, inv.one_serial)

-- In every reachable state of a barrier, of either kind, with or without a parent, and with counts
-- that sum up to INT_MAX at most, seq is the number of resets modulo 2 ^ 32, and waiting is the
-- sum of the counts of the callers that have arrived in the present round, at most the sum of all.
pub barrier_words :
    {k : Futex} {kind : Kind} {n : ℕ} {weights : ℕ → ℕ} {s : System}
    → Counts kind n weights
    → Reach k kind n weights s
    → (s.bar.seq ≡ s.round % 2 ^ 32)
      × (s.bar.waiting ≡ tally (ahead s.round) n s.thread)
      × (s.bar.waiting ≤ sum n weights)
barrier_words {n} {weights} {s} counts r =
    let inv = Reach-Inv counts r in
    (
      inv.seq,
      omega (arith, inv.counted),
      omega (
        arith,
        inv.counted,
        inv.weighs,
        tally-below (ahead s.round) brings (ahead_le s.round) n s.thread,
      ),
    )

-- In every reachable state of a barrier, of either kind, with or without a parent, and with counts
-- that sum up to INT_MAX at most, a caller at the test of its waiting loop returns 0 at this
-- access exactly when the round that it waits for is over, also where seq wraps around.
pub released_iff :
    {k : Futex} {kind : Kind} {n : ℕ} {weights : ℕ → ℕ} {s : System}
    → Counts kind n weights
    → Reach k kind n weights s
    → (i : ℕ) {cur : ℕ} → i < n
    → (s.thread i).place ≡ running (test cur)
    → (access kind (test cur) s.bar ≡ ret s.bar 0) ↔ ((s.thread i).left < s.round)
unfolding access
released_iff {kind} {n} {weights} {s} counts r i {cur} lt here =
    elim (Bool-cases (cur == s.bar.seq)) [
      | inl same ↦ rw same (λ never. cc, λ over. absurd (over-seq inv i lt cur here over same))
      | inr other ↦ rw other (λ _. seq-over inv i lt cur here other, λ _. refl)
    ]
  where
    inv : Inv kind n (sum n weights) s
    inv = Reach-Inv counts r

-- In every reachable state of a barrier, of either kind, with or without a parent, and with counts
-- that sum up to INT_MAX at most, a wait that returns, be it at an access or behind FUTEX_WAKE,
-- returns PTHREAD_BARRIER_SERIAL_THREAD (0 from fastsynt_barrier_wait_interproc) where its caller
-- is past count == barrier->total_count, and 0 elsewhere, never the 1 of the code that the source
-- calls unreachable.
pub wait_result :
    {k : Futex} {kind : Kind} {n : ℕ} {weights : ℕ → ℕ} {s : System}
    → Counts kind n weights
    → Reach k kind n weights s
    → (i : ℕ) {p : Pc} {code : ℕ} → i < n
    → (s.thread i).place ≡ running p
    → Returns kind p s.bar code
    → code ≡ (if behind_count p then last_result kind else 0)
wait_result counts r i {p} {code} lt here (at_access {bar'} e) =
    access_result (Reach-Inv counts r) i lt p bar' code here e
wait_result counts r i {p} lt here (after_wake e) = wake_result (Reach-Inv counts r) i lt p here e

-- In every reachable state of a barrier, with or without a parent whose wait takes any time, and
-- with counts that sum up to INT_MAX at most, in which a thread sleeps in FUTEX_WAIT, some caller
-- does not sleep; and if the round that the sleeper waits for is over, some caller is about to
-- call FUTEX_WAKE.
pub sleeper_covered :
    {k : Futex} {kind : Kind} {n : ℕ} {weights : ℕ → ℕ} {s : System}
    → Counts kind n weights
    → Reach k kind n weights s
    → (i : ℕ) → i < n
    → is_asleep (s.thread i).place ≡ true
    → ((j : ℕ) × (j < n) × (is_asleep (s.thread j).place ≡ false))
      × ((s.thread i).left < s.round → (j : ℕ) × (j < n) × ((s.thread j).place ≡ running notify))
sleeper_covered {n} {s} counts r i lt a =
    let inv = Reach-Inv counts r in (someone_awake inv, λ over. notifier inv i lt a over)
