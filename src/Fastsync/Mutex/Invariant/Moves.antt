-- ===== src/Fastsync/Mutex/Invariant/Moves.antt =====
-- One thread of src/fastsync/fastsync_mutex.c moves, the others stay: the invariant is kept.
use reeact_v.Prelude.{ℕ, zero, ◌+◌, ◌%◌, ◌≤◌, ◌<◌, ◌≡◌, ◌⊎◌, arith, assign, tally, tally-assign, ap}
use reeact_v.Fastsync.Atomic.{low_bit, set_low, clear_low, clear_high}
use reeact_v.Fastsync.Mutex.{Pc, spin, contend, go, ret, futex_wait, access}
use reeact_v.Fastsync.Mutex.System.{Thread, outside, running, asleep, dormant, resume}
use reeact_v.Fastsync.Mutex.Invariant.Defs.{holds, settles, helps, dozes, Inv}

module _ {n state : ℕ} {thread : ℕ → Thread} (inv : Inv n state thread) (i : ℕ) (lt : i < n) where
  open inv use {small, owned, settling, covered, parked}

  -- Thread `i` goes from `t` to `t'`.
  record Change (t t' : Thread) : Type 0 where
    holders : tally holds n (assign thread i t') + holds t ≡ holds t' + tally holds n thread
    settlers :
        tally settles n (assign thread i t') + settles t ≡ settles t' + tally settles n thread
    helpers : tally helps n (assign thread i t') + helps t ≡ helps t' + tally helps n thread
    dozers : tally dozes n (assign thread i t') + dozes t ≡ dozes t' + tally dozes n thread

  change : {t : Thread} → thread i ≡ t → (t' : Thread) → Change t t'
  change {t} here t' = record {
    holders = weigh holds;
    settlers = weigh settles;
    helpers = weigh helps;
    dozers = weigh dozes;
  }
    where
      weigh : (w : Thread → ℕ) → tally w n (assign thread i t') + w t ≡ w t' + tally w n thread
      weigh w = omega (arith, tally-assign w n thread i t' lt, ap w here)

  parked-assign :
      {t' : Thread}
      → ((q : Pc) → t' ≡ asleep q → q ≡ contend)
      → (j : ℕ) (q : Pc) → assign thread i t' j ≡ asleep q
      → q ≡ contend
  parked-assign new j q e = ground (arith, new q, parked j q)

  -- The fields of `Inv` that do not speak of one thread.
  record Numbers (state' : ℕ) (t' : Thread) : Type 0 where
    small' : state' < 4
    owned' : tally holds n (assign thread i t') ≡ state' % 2
    settling' : state' ≡ 2 → 0 < tally settles n (assign thread i t')
    covered' :
        0 < tally dozes n (assign thread i t')
        → (2 ≤ state') ⊎ (0 < tally helps n (assign thread i t'))

  advance-Numbers :
      (p : Pc) {q : Pc} {state' : ℕ}
      → access p state ≡ go state' q
      → Change (running p) (running q)
      → Numbers state' (running q)
  unfolding access
  advance-Numbers (spin j) e c = ground (arith, low_bit state small, set_low state small)
  advance-Numbers p e c = ground (
    arith,
    low_bit state small,
    set_low state small,
    clear_low state small,
    clear_high state small,
  )

  return-Numbers :
      (p : Pc) {state' code : ℕ}
      → access p state ≡ ret state' code
      → Change (running p) (resume p code)
      → Numbers state' (resume p code)
  unfolding access
  return-Numbers (spin j) e c = ground (arith, low_bit state small, set_low state small)
  return-Numbers p e c = ground (arith, low_bit state small, set_low state small)

  call-Numbers :
      {t : Thread} {p : Pc}
      → holds t ≡ holds (running p)
      → settles t ≤ settles (running p)
      → helps t ≤ helps (running p)
      → dozes t ≡ 0
      → Change t (running p)
      → Numbers state (running p)
  call-Numbers owner settler helper awake c = ground arith

  -- The word held 3 when the kernel put the caller to sleep.
  sleep-Numbers :
      (p : Pc) {q : Pc} {val : ℕ}
      → access p state ≡ futex_wait val q
      → state ≡ val
      → Change (running p) (asleep q)
      → Numbers state (asleep q)
  unfolding access
  sleep-Numbers (spin j) e match c = ground arith
  sleep-Numbers p e match c = ground arith

  sleep-parked : (p : Pc) {q : Pc} {val : ℕ} → access p state ≡ futex_wait val q → q ≡ contend
  unfolding access
  sleep-parked (spin j) e = ground arith
  sleep-parked p e = ground arith

  wait_returns-Numbers :
      (p : Pc) {q : Pc} {val : ℕ}
      → access p state ≡ futex_wait val q
      → Change (running p) (running q)
      → Numbers state (running q)
  unfolding access
  wait_returns-Numbers (spin j) e c = ground arith
  wait_returns-Numbers p e c = ground arith

  interrupt-Numbers :
      {q : Pc} → q ≡ contend → Change (asleep q) (running q) → Numbers state (running q)
  interrupt-Numbers {q} e c = ground arith

  from_Numbers :
      {state' : ℕ} {t' : Thread}
      → ((q : Pc) → t' ≡ asleep q → q ≡ contend)
      → Numbers state' t'
      → Inv n state' (assign thread i t')
  from_Numbers new f = record {
    small = f.small';
    owned = f.owned';
    settling = f.settling';
    covered = f.covered';
    parked = parked-assign new;
  }

  pub advance-Inv :
      {p q : Pc} {state' : ℕ}
      → thread i ≡ running p
      → access p state ≡ go state' q
      → Inv n state' (assign thread i (running q))
  advance-Inv {p} {q} here e =
      from_Numbers (λ q' never. cc) (advance-Numbers p e (change here (running q)))

  resume-parked : (p : Pc) (code : ℕ) (q : Pc) → resume p code ≡ asleep q → q ≡ contend
  resume-parked (spin j) zero q e = cc
  resume-parked p c q e = ground arith

  pub return-Inv :
      {p : Pc} {state' code : ℕ}
      → thread i ≡ running p
      → access p state ≡ ret state' code
      → Inv n state' (assign thread i (resume p code))
  return-Inv {p} {code} here e =
      from_Numbers (resume-parked p code) (return-Numbers p e (change here (resume p code)))

  pub call-Inv :
      {t : Thread} (p : Pc)
      → thread i ≡ t
      → holds t ≡ holds (running p)
      → settles t ≤ settles (running p)
      → helps t ≤ helps (running p)
      → dozes t ≡ 0
      → Inv n state (assign thread i (running p))
  call-Inv p here owner settler helper awake =
      from_Numbers (λ q never. cc)
        (call-Numbers owner settler helper awake (change here (running p)))

  pub sleep-Inv :
      {p q : Pc} {val : ℕ}
      → thread i ≡ running p
      → access p state ≡ futex_wait val q
      → state ≡ val
      → Inv n state (assign thread i (asleep q))
  sleep-Inv {p} {q} here e match =
      from_Numbers (λ q' same. cc (sleep-parked p e))
        (sleep-Numbers p e match (change here (asleep q)))

  pub wait_returns-Inv :
      {p q : Pc} {val : ℕ}
      → thread i ≡ running p
      → access p state ≡ futex_wait val q
      → Inv n state (assign thread i (running q))
  wait_returns-Inv {p} {q} here e =
      from_Numbers (λ q' never. cc) (wait_returns-Numbers p e (change here (running q)))

  pub interrupt-Inv : {q : Pc} → thread i ≡ asleep q → Inv n state (assign thread i (running q))
  interrupt-Inv {q} here =
      from_Numbers (λ q' never. cc) (interrupt-Numbers (parked i q here) (change here (running q)))

  await-Numbers : Change outside dormant → Numbers state dormant
  await-Numbers c = ground arith

  pub await-Inv : thread i ≡ outside → Inv n state (assign thread i dormant)
  await-Inv here = from_Numbers (λ q never. cc) (await-Numbers (change here dormant))
