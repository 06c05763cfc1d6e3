-- ===== src/Fastsync/Cond/Orphans/Sleep.antt =====
-- FUTEX_WAIT and FUTEX_REQUEUE on `seq` in Fastsync/Cond/System.antt, and who will release its sleepers.
use mathlib.Core.Path.{subst}
use reeact_v.Prelude.{
  ℕ, ◌+◌, ◌%◌, ◌^◌, ◌≤◌, ◌<◌, ◌≡◌, ◌≢◌, inl, inr, refl, ap, Bool, true, false, arith, assign,
  if◌then◌else◌, ℕ_discrete,
}
use reeact_v.Fastsync.Futex.{Futex}
use reeact_v.Fastsync.Barrier.{int_max}
use reeact_v.Fastsync.Cond.{Pc, relock, await, access}
use reeact_v.Fastsync.Cond.System.{
  relocking, Thread, calling, asleep_seq, asleep_word, System, is_asleep_seq, seq_sleepers,
  move_seq, at, Step, Reach,
}
use reeact_v.Fastsync.Cond.Invariant.Places.{eq_other, each, assign_all}
use reeact_v.Fastsync.Cond.Counts.{waiting, Locals}
use reeact_v.Fastsync.Cond.Counts.Steps.{Reach-Counts}
use reeact_v.Fastsync.Cond.Leaders.{view}
use reeact_v.Fastsync.Cond.Orphans.{
  urges, unraised, weigh, awake, Released, Orphans, KernelUrges, access-KernelUrges,
}
use reeact_v.Fastsync.Cond.Orphans.Persist.{Fine, weigh_up}
use reeact_v.Fastsync.Cond.Orphans.Calm.{unraised_weighs, Some-up, sleeper_up, waiter_up}

module _ {k : Futex} {n m : ℕ} {s : System} (r : Reach k n m s) (orphans : Orphans n s) where
  pub kernel :
      (i : ℕ) {held : Bool} {p : Pc} {a : _}
      → s.thread i ≡ calling held p
      → access m p (at s i) s.state ≡ a
      → KernelUrges p a
  kernel i {p} e a = access-KernelUrges m p (at s i) s.state a

  pub urges_up :
      {t : System} (step : Step k n m s t)
      → ((c : ℕ) → Fine urges c step)
      → (c j : ℕ) → weigh urges c (view s j) ≤ weigh urges c (view t j)
  urges_up step fine c = weigh_up urges c refl step (fine c)

  pub unraised_up :
      {t : System} (step : Step k n m s t)
      → ((c : ℕ) → Fine unraised c step)
      → (c j : ℕ) → weigh unraised c (view s j) ≤ weigh unraised c (view t j)
  unraised_up step fine c = weigh_up unraised c refl step (fine c)

  -- A thread falls asleep on a number that has wrapped around.
  pub wraps :
      (i : ℕ) {held : Bool} {val : ℕ}
      → i < n
      → s.thread i ≡ calling held (await val)
      → (at s i).seq % 2 ^ 32 ≡ val
      → s.noted i ≢ s.value (s.place i)
      → s.seen i + 2 ^ 32 ≤ s.raised (s.place i)
  wraps i lt e slept apart =
      let counts = Reach-Counts r in
      let mine = subst (λ t. Locals t (s.noted i)) e (counts.locals i) in
      let behind = counts.behind i lt (ap waiting e) in
      omega (arith, mine, behind.0, behind.1, apart, counts.counted (s.place i), slept)

  pub sleep-Orphans :
      (i : ℕ) {held : Bool} {val : ℕ}
      → i < n
      → s.thread i ≡ calling held (await val)
      → (at s i).seq % 2 ^ 32 ≡ val
      → ((c j : ℕ)
          → weigh urges c (view s j)
            ≤ weigh urges c (assign s.thread i asleep_seq j, s.place j, s.frames j))
      → ((c j : ℕ)
          → weigh unraised c (view s j)
            ≤ weigh unraised c (assign s.thread i asleep_seq j, s.place j, s.frames j))
      → Orphans n (record s { thread = assign s.thread i asleep_seq })
  sleep-Orphans i {held} {val} lt e slept up up' =
      let t : System = record s { thread = assign s.thread i asleep_seq } in
      let released : Released n t i = elim (ℕ_discrete (s.noted i) (s.value (s.place i))) [
        | yes now ↦ elim (orphans.waiter i lt (ap awake e) now) [
          | inl alone ↦ inl alone
          | inr one ↦ inr (
              inl (
                Some-up s t urges urges (s.place i) (up (s.place i)) (
                  Some-up s s unraised urges (s.place i)
                    (λ j. unraised_weighs (s.place i) (s.thread j) (s.place j) (s.frames j)) one)))
        ]
        | no apart ↦ inr (inr (wraps i lt e slept apart))
      ] in
      record {
        sleeper =
            each
              (λ j. j < n → is_asleep_seq (assign s.thread i asleep_seq j) ≡ true → Released n t j)
              i (λ _ _. released)
              (λ j other. rw (eq_other other) (λ lt' w.
                sleeper_up s t orphans j lt' refl refl w refl (omega arith) (up (s.place j))));
        waiter =
            λ j lt' w now. waiter_up s t orphans j lt' refl refl (stays j w) now (up' (s.place j));
      }
    where
      stays : (j : ℕ) → awake (assign s.thread i asleep_seq j) ≡ true → awake (s.thread j) ≡ true
      stays =
          assign_all (λ j x. awake x ≡ true → awake (s.thread j) ≡ true) s.thread i asleep_seq
            (λ j w. w) (λ w. cc)

  -- FUTEX_REQUEUE leaves nobody asleep at its object.
  pub none_left :
      n ≤ int_max
      → (i : ℕ) (t : Thread) {woken moved : ℕ → Bool} → is_asleep_seq t ≡ false
      → k.Requeues 1 int_max (seq_sleepers n s.thread s.place (s.place i)) woken moved
      → (j : ℕ) → is_asleep_seq (assign (move_seq woken moved s.thread) i t j) ≡ true
      → j < n
      → s.place i ≢ s.place j
  none_left few i t {woken} {moved = shifted} idle moves =
      assign_all (λ j x. is_asleep_seq x ≡ true → j < n → s.place i ≢ s.place j)
        (move_seq woken shifted s.thread) i t
        (λ j w lt same.
          let (none_woken, none_moved, before) = still (woken j) (shifted j) (s.thread j) w in
          let there : seq_sleepers n s.thread s.place (s.place i) j ≡ true =
            ground (arith, lt, before, same) in
          elim (k.requeue_leaves_none moves n (omega (arith, few))
            (λ j a. sleeper_lt (s.place i) j a) j there) [
              | inl up ↦ cc (up, none_woken)
              | inr up ↦ cc (up, none_moved)
            ])
        (λ w. cc (w, idle))
    where
      still :
          (b b' : Bool) (t : Thread)
          → is_asleep_seq
              (if b then calling true relock else if b' then asleep_word relocking else t)
            ≡ true
          → (b ≡ false) × (b' ≡ false) × (is_asleep_seq t ≡ true)
      still true b' t w = cc (w)
      still false true t w = cc (w)
      still false false t w = (refl, refl, w)

      sleeper_lt : (c j : ℕ) → seq_sleepers n s.thread s.place c j ≡ true → j < n
      sleeper_lt c j a = ground (arith, a)
