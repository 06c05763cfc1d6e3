-- ===== src/Fastsync/Barrier/Invariant/Wake.antt =====
-- FUTEX_WAKE_PRIVATE at the end of `fastsync_barrier_wait`: the invariant is kept.
use mathlib.Core.Path.{subst}
use reeact_v.Prelude.{
  ℕ, ◌+◌, ◌<◌, ◌≡◌, ◌∙◌, ap, Bool, true, false, arith, assign, tally, tally-ext, tally-assign,
  tally-zero, tally_pos_le, ◌≤◌, Bool-cases, inl, inr, ◌==◌,
}
use reeact_v.Fastsync.Futex.{Futex}
use reeact_v.Fastsync.Barrier.{
  int_max, serial_thread, Kind, blocking, Pc, enter, notify, test, futex_wake, access,
}
use reeact_v.Fastsync.Barrier.System.{
  Place, outside, running, asleep, above, Thread, System, returned, serial, is_asleep, sleepers,
  wake, rouse,
}
use reeact_v.Fastsync.Barrier.Invariant.Defs.{
  AtPlace, Local, brings, ahead, dozes, stale, closing, closes, notifying, notifies, Inv,
}

-- Where FUTEX_WAKE is called, and what it is called with.
pub wake-place :
    (kind : Kind) (p : Pc) (s : System) {count code : ℕ}
    → access kind p s.bar ≡ futex_wake count code
    → (p ≡ notify) × (count ≡ int_max) × (code ≡ serial_thread)
unfolding access
wake-place kind (enter inc) s e = ground arith
wake-place kind p s e = ground arith

-- What waking leaves alone.
record Roused (kind : Kind) (round weight arrived left : ℕ) (place place' : Place) : Type 0 where
  local : AtPlace kind round weight arrived left place'
  closing_same : closing place' ≡ closing place
  notifying_same : notifying place' ≡ notifying place
  awake : dozes place' ≡ 0

rouse_one :
    (kind : Kind) (round weight arrived left : ℕ) (place : Place)
    → AtPlace kind round weight arrived left place
    → Roused kind round weight arrived left place (wake place)
rouse_one kind round weight arrived left outside at = ground arith
rouse_one kind round weight arrived left (running p) at = ground arith
rouse_one kind round weight arrived left (asleep (test cur)) at = ground arith
rouse_one kind round weight arrived left (asleep p) at = ground arith
rouse_one kind round weight arrived left (above p q) at = ground arith

still :
    (kind : Kind) (round weight arrived left : ℕ) (place : Place)
    → AtPlace kind round weight arrived left place
    → is_asleep place ≡ false
    → Roused kind round weight arrived left place place
still kind round weight arrived left outside at awake = ground arith
still kind round weight arrived left (running p) at awake = ground arith
still kind round weight arrived left (asleep p) at awake = ground arith
still kind round weight arrived left (above p q) at awake = ground arith

module _ (k : Futex) {kind : Kind} {n total : ℕ} {s : System} (inv : Inv kind n total s) (i : ℕ)
    (lt : i < n) (here : (s.thread i).place ≡ running notify) {woken : ℕ → Bool}
    (wakes : k.Wakes int_max (sleepers n s.thread) woken) where
  open inv use {fits, counted, weighs, local}

  -- Everybody brings something.
  few : n ≤ int_max
  few = omega (arith, tally_pos_le brings n s.thread (λ j lt_j. (local j lt_j).0), weighs)

  blocks : kind ≡ blocking
  blocks = ground (arith, local i lt)

  abbrev roused : ℕ → Thread
  roused = rouse woken s.thread

  abbrev after : ℕ → Thread
  after = assign roused i (returned (s.thread i) notify)

  -- Whoever sleeps is woken.
  all_woken : (j : ℕ) → sleepers n s.thread j ≡ true → woken j ≡ true
  all_woken = k.wakes_all wakes n few (λ j asleep_j. ground arith)

  roused-Roused :
      (j : ℕ)
      → j < n
      → Roused kind s.round
          (s.thread j).weight
          (s.thread j).arrived
          (s.thread j).left
          (s.thread j).place
          (roused j).place
  roused-Roused j lt_j = elim (Bool-cases (woken j)) [
    | inl w ↦ rw w (
        rouse_one kind s.round (s.thread j).weight (s.thread j).arrived (s.thread j).left
          (s.thread j).place (local j lt_j).2)
    | inr w ↦ rw w (
        still kind s.round (s.thread j).weight (s.thread j).arrived (s.thread j).left
          (s.thread j).place (local j lt_j).2 (ground (arith, all_woken j)))
  ]

  weigh :
      (w : Thread → ℕ)
      → tally w n after + w (roused i) ≡ w (returned (s.thread i) notify) + tally w n roused
  weigh w = tally-assign w n roused i (returned (s.thread i) notify) lt

  ahead_same : tally (ahead s.round) n roused ≡ tally (ahead s.round) n s.thread
  ahead_same = tally-ext (ahead s.round) n roused s.thread (λ j _. ground arith)

  weighs_same : tally brings n roused ≡ tally brings n s.thread
  weighs_same = tally-ext brings n roused s.thread (λ j _. ground arith)

  same_weight : (roused i).weight ≡ (s.thread i).weight
  same_weight = ground arith

  closes_same : tally closes n roused ≡ tally closes n s.thread
  closes_same = tally-ext closes n roused s.thread (λ j lt_j. (roused-Roused j lt_j).closing_same)

  notifies_same : tally notifies n roused ≡ tally notifies n s.thread
  notifies_same =
      tally-ext notifies n roused s.thread (λ j lt_j. (roused-Roused j lt_j).notifying_same)

  nobody_sleeps : tally (stale s.round) n after ≡ 0
  nobody_sleeps =
      tally-zero (stale s.round) n after (λ j lt_j. ground (arith, (roused-Roused j lt_j).awake))

  self :
      Roused kind s.round
        (s.thread i).weight
        (s.thread i).arrived
        (s.thread i).left
        (s.thread i).place
        (roused i).place
  self = roused-Roused i lt

  self_ahead : ahead s.round (roused i) ≡ 0
  self_ahead = ground (arith, local i lt)

  roused-Local : (j : ℕ) → j < n → Local kind s.round (roused j)
  roused-Local j lt_j = elim (Bool-cases (woken j)) [
    | inl w ↦ rw w (
      (local j lt_j).0,
      (local j lt_j).1,
      (rouse_one kind s.round (s.thread j).weight (s.thread j).arrived (s.thread j).left
          (s.thread j).place (local j lt_j).2).local,
    )
    | inr w ↦ rw w (local j lt_j)
  ]

  after-Local : (j : ℕ) → j < n → Local kind s.round (after j)
  after-Local j lt_j = elim (Bool-cases (i == j)) [
    | inl same ↦ rw same (ground (arith, local i lt))
    | inr apart ↦ rw apart (roused-Local j lt_j)
  ]

  self_closes : closes (roused i) ≡ 0
  self_closes = self.closing_same ∙ ap closing here

  self_notifies : notifies (roused i) ≡ 1
  self_notifies = self.notifying_same ∙ ap notifying here

  notify-Inv : Inv kind n total (record s { thread = after; serials = s.serials + 1 })
  notify-Inv = record {
    some_thread = inv.some_thread;
    fits = fits;
    count = inv.count;
    weighs = omega (arith, weighs, weighs_same, weigh brings, same_weight);
    seq = inv.seq;
    counted = omega (arith, weigh (ahead s.round), self_ahead, ahead_same, counted, back);
    one_closes = omega (arith, weigh closes, self_closes, closes_same, inv.one_closes);
    closes_full = λ some. inv.closes_full (omega (arith, weigh closes, self_closes, closes_same));
    full_closes =
        λ full. omega (arith, inv.full_closes full, weigh closes, self_closes, closes_same);
    covered = λ some. absurd (omega (arith, nobody_sleeps));
    one_serial = omega (arith, weigh notifies, self_notifies, notifies_same, inv.one_serial);
    local = after-Local;
  }
    where
      back : ahead s.round (returned (s.thread i) notify) ≡ 0
      back = ground (arith, local i lt)

pub wake_up-Inv :
    (k : Futex) {kind : Kind} {n total : ℕ} {s : System}
    → Inv kind n total s
    → (i : ℕ) (p : Pc) {count code : ℕ} {woken : ℕ → Bool} → i < n
    → (s.thread i).place ≡ running p
    → access kind p s.bar ≡ futex_wake count code
    → k.Wakes count (sleepers n s.thread) woken
    → Inv kind n total (record s {
      thread = assign (rouse woken s.thread) i (returned (s.thread i) p);
      serials = s.serials + serial code;
    })
wake_up-Inv k {kind} {n} {total} {s} inv i p {woken} lt here e wakes =
    let (at, full, code_serial) = wake-place kind p s e in
    rw (at, code_serial)
      (notify-Inv k inv i lt (here ∙ ap running at)
        (subst (λ c. k.Wakes c (sleepers n s.thread) woken) full wakes))
