-- ===== src/Fastsync/Barrier/Invariant/Reset.antt =====
-- The write to `barrier->reset`, which ends a round: the invariant is kept.
use reeact_v.Prelude.{
  ℕ, ◌+◌, ◌%◌, ◌^◌, ◌≤◌, ◌<◌, ◌≡◌, ◌≢◌, inl, inr, refl, arith, assign, tally, tally-assign, ◌⊎◌,
  tally-zero, tally_equal, le-tally, add-le-tally, ℕ_discrete,
}
use reeact_v.Fastsync.Barrier.{
  Kind, interproc, Bar, write_reset, blocking, Pc, store, notify, go, ret, access, serial_thread,
}
use reeact_v.Fastsync.Barrier.System.{
  Place, outside, running, asleep, above, Thread, System, advanced, returned, serial,
}
use reeact_v.Fastsync.Barrier.Invariant.Defs.{
  AtPlace, Local, ahead_le, brings, served, ahead, stale, closing, closes, notifies, Inv,
}

-- What a round leaves a thread that waits becomes what the next round finds.
next_local :
    (kind : Kind) (round weight arrived left : ℕ) (place : Place)
    → AtPlace kind round weight arrived left place
    → round < arrived
    → closing place ≡ 0
    → AtPlace kind (round + 1) weight arrived left place
next_local kind round weight arrived left outside at gone open_place = absurd (ground arith)
next_local kind round weight arrived left (running p) at gone open_place = ground arith
next_local kind round weight arrived left (asleep p) at gone open_place = ground arith
next_local kind round weight arrived left (above p q) at gone open_place = absurd (ground arith)

next_ahead :
    (kind : Kind) (round weight arrived left : ℕ) (place : Place)
    → AtPlace kind round weight arrived left place
    → arrived ≤ round + 1
next_ahead kind round weight arrived left outside at = ground arith
next_ahead kind round weight arrived left (running p) at = ground arith
next_ahead kind round weight arrived left (asleep p) at = ground arith
next_ahead kind round weight arrived left (above p q) at = ground arith

module _ {kind : Kind} {n total : ℕ} {s : System} (inv : Inv kind n total s) (i : ℕ) (lt : i < n)
    {old : ℕ} (here : (s.thread i).place ≡ running (store old)) where
  open inv use {
    fits, count, weighs, seq, counted, one_closes, closes_full, covered, one_serial, local,
  }

  closer : closes (s.thread i) ≡ 1
  closer = ground arith

  not_notifying : notifies (s.thread i) ≡ 0
  not_notifying = ground arith

  -- Everybody has arrived.
  all_ahead : (j : ℕ) → j < n → ahead s.round (s.thread j) ≡ brings (s.thread j)
  all_ahead = tally_equal (ahead s.round) brings (ahead_le s.round) n s.thread (
      omega (
        arith,
        counted,
        weighs,
        closes_full (omega (arith, le-tally closes n s.thread i lt, closer)),
      ))

  arrived_all : (j : ℕ) → j < n → s.round < (s.thread j).arrived
  arrived_all j lt_j = ground (arith, all_ahead j lt_j, (local j lt_j).0)

  -- Nobody else has arrived last.
  others_open : (j : ℕ) → j < n → i ≢ j → closes (s.thread j) ≡ 0
  others_open j lt_j apart =
      omega (arith, one_closes, closer, add-le-tally closes n s.thread i j lt lt_j apart)

  abbrev next_bar : Bar
  next_bar = write_reset ((old + 1) % 2 ^ 32) s.bar

  -- The new round, whatever thread `i` does next.
  module _ (t' : Thread) (open_t' : closes t' ≡ 0) (behind : ahead (s.round + 1) t' ≡ 0)
      (same_weight : t'.weight ≡ (s.thread i).weight) where
    abbrev after : ℕ → Thread
    after = assign s.thread i t'

    nobody_ahead : (j : ℕ) → j < n → ahead (s.round + 1) (after j) ≡ 0
    nobody_ahead j lt_j = elim (ℕ_discrete i j) [
      | yes same ↦ ground arith
      | no apart ↦ ground (
        arith,
        next_ahead kind s.round (s.thread j).weight (s.thread j).arrived (s.thread j).left
            (s.thread j).place (local j lt_j).2,
      )
    ]

    nobody_closes : (j : ℕ) → j < n → closes (after j) ≡ 0
    nobody_closes j lt_j = elim (ℕ_discrete i j) [
      | yes same ↦ ground arith
      | no apart ↦ ground (arith, others_open j lt_j apart)
    ]

    next_round :
        (serials : ℕ)
        → serials + tally notifies n after ≡ served kind (s.round + 1)
        → (0 < tally (stale (s.round + 1)) n after → 0 < tally notifies n after)
        → Local kind (s.round + 1) t'
        → Inv kind n total
            (record { bar = next_bar; thread = after; round = s.round + 1; serials = serials })
    unfolding write_reset
    next_round serials one cover local' = record {
      some_thread = inv.some_thread;
      fits = fits;
      count = count;
      weighs = omega (arith, weighs, tally-assign brings n s.thread i t' lt, same_weight);
      seq = ground (arith, local i lt);
      counted = omega (arith, tally-zero (ahead (s.round + 1)) n after nobody_ahead);
      one_closes = omega (arith, tally-zero closes n after nobody_closes);
      closes_full = λ some. absurd (omega (arith, tally-zero closes n after nobody_closes));
      full_closes =
          λ full. absurd (ground (arith, weighs, (local i lt).0, le-tally brings n s.thread i lt));
      covered = cover;
      one_serial = one;
      local = λ j lt_j. elim (ℕ_discrete i j) [
        | yes same ↦ ground arith
        | no apart ↦ ground (
          arith,
          local j lt_j,
          next_local kind s.round (s.thread j).weight (s.thread j).arrived (s.thread j).left
              (s.thread j).place (local j lt_j).2 (arrived_all j lt_j) (others_open j lt_j apart),
        )
      ];
    }

  pub reset-notify :
      (q : Pc) (bar : Bar)
      → access kind (store old) s.bar ≡ go bar q
      → Inv kind n total (record {
        bar = bar;
        thread = assign s.thread i (advanced (s.thread i) (store old) q);
        round = s.round + 1;
        serials = s.serials;
      })
  unfolding access
  reset-notify q bar e =
      let notified : Thread = advanced (s.thread i) (store old) notify in
      let one_more = tally-assign notifies n s.thread i notified lt in
      let blocks : kind ≡ blocking = ground arith in
      let to_notify : (q ≡ notify) × (bar ≡ next_bar) = ground (arith, blocks) in
      let due : served kind (s.round + 1) ≡ served kind s.round + 1 = ground (arith, blocks) in
      rw (to_notify.0, to_notify.1)
        (next_round notified refl (ground (arith, local i lt)) refl s.serials
          (omega (arith, one_more, not_notifying, one_serial, due))
          (λ _. omega (arith, one_more, not_notifying)) (ground (arith, local i lt, blocks)))

  -- Nobody else brings anything where the closer returns at once from a barrier that blocks.
  alone : total ≤ 1 → (j : ℕ) → j < n → i ≡ j
  alone small j lt_j = elim (ℕ_discrete i j) [
    | yes same ↦ same
    | no apart ↦ absurd (
        omega (
          arith,
          add-le-tally brings n s.thread i j lt lt_j apart,
          weighs,
          (local i lt).0,
          (local j lt_j).0,
        ))
  ]

  -- The closer returns at once only from a barrier for one thread, or one that does not block.
  return-alone :
      (bar : Bar) (code : ℕ)
      → access kind (store old) s.bar ≡ ret bar code
      → ((kind ≡ blocking) × (total ≤ 1) × (code ≡ serial_thread) × (bar ≡ next_bar))
        ⊎ ((kind ≡ interproc) × (code ≡ 0) × (bar ≡ next_bar))
  unfolding access write_reset
  return-alone bar code e = by_kind kind e
    where
      by_kind :
          (kind : Kind)
          → access kind (store old) s.bar ≡ ret bar code
          → ((kind ≡ blocking) × (total ≤ 1) × (code ≡ serial_thread) × (bar ≡ next_bar))
            ⊎ ((kind ≡ interproc) × (code ≡ 0) × (bar ≡ next_bar))
      by_kind blocking e = inl (ground (arith, count))
      by_kind interproc e = inr (ground arith)

  -- Nobody sleeps after it.
  nobody_sleeps :
      (bar : Bar) (code : ℕ)
      → access kind (store old) s.bar ≡ ret bar code
      → (j : ℕ) → j < n
      → stale (s.round + 1) (assign s.thread i (returned (s.thread i) (store old)) j) ≡ 0
  nobody_sleeps bar code e j lt_j = elim (return-alone bar code e) [
    | inl (blocks, small, r, r') ↦ let same : i ≡ j = alone small j lt_j in ground (arith, same)
    | inr (spins, r, r') ↦ ground (arith, spins, local j lt_j)
  ]

  pub reset-return :
      (bar : Bar) (code : ℕ)
      → access kind (store old) s.bar ≡ ret bar code
      → Inv kind n total (record {
        bar = bar;
        thread = assign s.thread i (returned (s.thread i) (store old));
        round = s.round + 1;
        serials = s.serials + serial code;
      })
  unfolding access
  reset-return bar code e =
      let done : Thread = returned (s.thread i) (store old) in
      let same = tally-assign notifies n s.thread i done lt in
      let quiet =
        tally-zero (stale (s.round + 1)) n (assign s.thread i done) (nobody_sleeps bar code e) in
      let result : (serial code + served kind s.round ≡ served kind (s.round + 1))
          × (bar ≡ next_bar) =
        elim (return-alone bar code e) [ inl r ↦ ground (arith, r) | inr r ↦ ground (arith, r) ] in
      rw (result.1) (
        next_round done refl (ground (arith, local i lt)) refl (s.serials + serial code)
          (omega (arith, same, not_notifying, one_serial, result.0))
          (λ some. absurd (omega (arith, quiet))) (ground (arith, local i lt)))
