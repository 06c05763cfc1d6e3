-- ===== src/Fastsync/Barrier/Invariant/Moves.antt =====
-- A step of src/fastsync/fastsync_barrier.c that leaves the round as it is: the invariant is kept.
use mathlib.Core.Path.{subst}
use reeact_v.Prelude.{
  ℕ, ◌+◌, ◌%◌, ◌^◌, ◌≤◌, ◌<◌, ◌≡◌, ◌≢◌, refl, arith, assign, tally, tally-assign, tally_room,
}
use reeact_v.Fastsync.Barrier.{
  Kind, complete, call_parent, Bar, Pc, enter, arrive, store, test, block, go, ret, futex_wait,
  access,
}
use reeact_v.Fastsync.Barrier.System.{
  outside, running, asleep, above, climbed, inc, Thread, System, move, advanced, returned, resets,
  serial,
}
use reeact_v.Fastsync.Barrier.Invariant.Defs.{
  Local, brings, ahead_le, served, ahead, stale, closes, notifies, Inv,
}

module _ {kind : Kind} {n total : ℕ} {s : System} (inv : Inv kind n total s) (i : ℕ)
    (lt : i < n) where
  open inv use {
    some_thread, fits, count, weighs, seq, counted, one_closes, closes_full, full_closes, covered,
    one_serial, local,
  }

  -- Thread `i` becomes `t'`.
  pub record Change (t' : Thread) : Type 0 where
    ahead_sum :
        tally (ahead s.round) n (assign s.thread i t') + ahead s.round (s.thread i)
        ≡ ahead s.round t' + tally (ahead s.round) n s.thread
    stale_sum :
        tally (stale s.round) n (assign s.thread i t') + stale s.round (s.thread i)
        ≡ stale s.round t' + tally (stale s.round) n s.thread
    closes_sum :
        tally closes n (assign s.thread i t') + closes (s.thread i)
        ≡ closes t' + tally closes n s.thread
    notifies_sum :
        tally notifies n (assign s.thread i t') + notifies (s.thread i)
        ≡ notifies t' + tally notifies n s.thread
    weighs_sum :
        tally brings n (assign s.thread i t') + brings (s.thread i)
        ≡ brings t' + tally brings n s.thread

  change : (t' : Thread) → Change t'
  change t' = record {
    ahead_sum = tally-assign (ahead s.round) n s.thread i t' lt;
    stale_sum = tally-assign (stale s.round) n s.thread i t' lt;
    closes_sum = tally-assign closes n s.thread i t' lt;
    notifies_sum = tally-assign notifies n s.thread i t' lt;
    weighs_sum = tally-assign brings n s.thread i t' lt;
  }

  -- While caller `i` has not arrived, there is room for its count.
  room : ahead s.round (s.thread i) ≡ 0 → s.bar.waiting + (s.thread i).weight ≤ total
  room absent =
      let rest = tally_room (ahead s.round) brings (ahead_le s.round) n s.thread i lt absent in
      omega (arith, counted, weighs)

  -- The fields of `Inv` that a step of one thread may touch, in a round that goes on.
  pub record Numbers (bar : Bar) (serials : ℕ) (t' : Thread) : Type 0 where
    count' : bar.total_count ≡ total
    weighs' : tally brings n (assign s.thread i t') ≡ total
    seq' : bar.seq ≡ s.round % 2 ^ 32
    counted' : tally (ahead s.round) n (assign s.thread i t') ≡ bar.waiting
    one_closes' : tally closes n (assign s.thread i t') ≤ 1
    closes_full' : 0 < tally closes n (assign s.thread i t') → bar.waiting ≡ total
    full_closes' : bar.waiting ≡ total → 0 < tally closes n (assign s.thread i t')
    covered' :
        0 < tally (stale s.round) n (assign s.thread i t')
        → 0 < tally notifies n (assign s.thread i t')
    one_serial' : serials + tally notifies n (assign s.thread i t') ≡ served kind s.round
    local' : Local kind s.round t'

  pub from_Numbers :
      {bar : Bar} {serials : ℕ} {t' : Thread}
      → Numbers bar serials t'
      → Inv kind n total
          (record { bar = bar; thread = assign s.thread i t'; round = s.round; serials = serials })
  from_Numbers f = record {
    some_thread = some_thread;
    fits = fits;
    count = f.count';
    weighs = f.weighs';
    seq = f.seq';
    counted = f.counted';
    one_closes = f.one_closes';
    closes_full = f.closes_full';
    full_closes = f.full_closes';
    covered = f.covered';
    one_serial = f.one_serial';
    local = λ j lt_j. ground (arith, local j lt_j, f.local');
  }

  -- The step relation adds the resets of the access, here none, to the round.
  pub same_round :
      {bar : Bar} {serials resets : ℕ} {t' : Thread}
      → resets ≡ 0
      → Numbers bar serials t'
      → Inv kind n total (record {
        bar = bar;
        thread = assign s.thread i t';
        round = s.round + resets;
        serials = serials;
      })
  same_round {bar} {serials} {t'} none_reset f =
      let kept : s.round ≡ s.round + _ = omega (arith, none_reset) in
      subst
        (λ r.
          Inv kind n total
            (record { bar = bar; thread = assign s.thread i t'; round = r; serials = serials }))
        kept (from_Numbers f)

  pub advance-Numbers :
      (p : Pc) (q : Pc) (bar : Bar)
      → (s.thread i).place ≡ running p
      → resets p ≡ 0
      → access kind p s.bar ≡ go bar q
      → Numbers bar s.serials (advanced (s.thread i) p q)
  unfolding access
  advance-Numbers (enter inc) q bar here same e =
      ground (arith, local i lt, change (advanced (s.thread i) (enter inc) q))
  advance-Numbers (arrive inc cur) q bar here same e =
      ground (arith, local i lt, change (advanced (s.thread i) (arrive inc cur) q), room)
  advance-Numbers (store old) q bar here same e = absurd (omega arith)
  advance-Numbers p q bar here same e =
      ground (arith, local i lt, change (advanced (s.thread i) p q))

  -- A call that returns has waited, and found a new sequence number: it returns 0.
  pub return-zero :
      (p : Pc) (bar : Bar) (code : ℕ)
      → (s.thread i).place ≡ running p
      → resets p ≡ 0
      → access kind p s.bar ≡ ret bar code
      → (cur : ℕ) × (p ≡ test cur) × (code ≡ 0) × (bar ≡ s.bar) × (cur ≢ s.bar.seq)
  unfolding access
  return-zero (test cur) bar code here same e =
      (cur, refl, ground arith, ground arith, ground arith)
  return-zero (arrive inc cur) bar code here same e = absurd (ground (arith, local i lt, room))
  return-zero (store old) bar code here same e = absurd (omega arith)
  return-zero p bar code here same e = absurd (ground (arith, local i lt))

  pub return-Numbers :
      (p : Pc) (bar : Bar) (code : ℕ)
      → (s.thread i).place ≡ running p
      → resets p ≡ 0
      → access kind p s.bar ≡ ret bar code
      → Numbers bar (s.serials + serial code) (returned (s.thread i) p)
  return-Numbers p bar code here same e = go p here (return-zero p bar code here same e)
    where
      go :
          (p : Pc)
          → (s.thread i).place ≡ running p
          → (cur : ℕ) × (p ≡ test cur) × (code ≡ 0) × (bar ≡ s.bar) × (cur ≢ s.bar.seq)
          → Numbers bar (s.serials + serial code) (returned (s.thread i) p)
      go (test cur) here f = ground (arith, local i lt, change (returned (s.thread i) (test cur)))
      go p here f = absurd (ground arith)

  pub climb-Numbers :
      (p : Pc) (q : Pc) (bar : Bar) (parent count : ℕ)
      → (s.thread i).place ≡ running p
      → access kind p s.bar ≡ call_parent bar parent count q
      → Numbers bar s.serials (climbed (s.thread i) p count q)
  unfolding access
  climb-Numbers (arrive inc cur) q bar parent count here e =
      ground (arith, local i lt, change (climbed (s.thread i) (arrive inc cur) count q), room)
  climb-Numbers p q bar parent count here e = absurd (ground (arith, local i lt))

  pub stay-Numbers :
      (p q : Pc) (p' : Pc)
      → (s.thread i).place ≡ above p q
      → Numbers s.bar s.serials (move (s.thread i) (above p' q))
  stay-Numbers p q p' here = ground (arith, local i lt, change (move (s.thread i) (above p' q)))

  pub descend-Numbers :
      (p q : Pc)
      → (s.thread i).place ≡ above p q
      → Numbers s.bar s.serials (move (s.thread i) (running q))
  descend-Numbers p complete here =
      ground (arith, local i lt, change (move (s.thread i) (running complete)))
  descend-Numbers p q here = absurd (ground (arith, local i lt))

  pub call-Numbers :
      (s.thread i).place ≡ outside
      → Numbers s.bar s.serials (move (s.thread i) (running (enter (inc kind (s.thread i).weight))))
  call-Numbers here = ground (
    arith,
    local i lt,
    change (move (s.thread i) (running (enter (inc kind (s.thread i).weight)))),
  )

  pub sleep-Numbers :
      (p q : Pc) (val : ℕ)
      → (s.thread i).place ≡ running p
      → access kind p s.bar ≡ futex_wait val q
      → s.bar.seq ≡ val
      → Numbers s.bar s.serials (move (s.thread i) (asleep q))
  unfolding access
  sleep-Numbers (block cur) q val here e match =
      ground (arith, local i lt, change (move (s.thread i) (asleep q)))
  sleep-Numbers p q val here e match = absurd (ground arith)

  pub wait_returns-Numbers :
      (p q : Pc) (val : ℕ)
      → (s.thread i).place ≡ running p
      → access kind p s.bar ≡ futex_wait val q
      → Numbers s.bar s.serials (move (s.thread i) (running q))
  unfolding access
  wait_returns-Numbers (block cur) q val here e =
      ground (arith, local i lt, change (move (s.thread i) (running q)))
  wait_returns-Numbers p q val here e = absurd (ground arith)

  pub interrupt-Numbers :
      (q : Pc)
      → (s.thread i).place ≡ asleep q
      → Numbers s.bar s.serials (move (s.thread i) (running q))
  interrupt-Numbers (test cur) here =
      ground (arith, local i lt, change (move (s.thread i) (running (test cur))))
  interrupt-Numbers q here = absurd (ground (arith, local i lt))
