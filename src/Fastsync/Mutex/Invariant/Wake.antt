-- ===== src/Fastsync/Mutex/Invariant/Wake.antt =====
-- FUTEX_WAKE_PRIVATE at the end of `fastsync_mutex_unlock`: the invariant is kept.
use reeact_v.Prelude.{
  ℕ, ◌+◌, ◌≤◌, ◌<◌, ◌≡◌, ◌⊎◌, inl, refl, inr, Bool, true, false, arith, assign, if◌then◌else◌,
  tally, tally-ext, tally_mono, tally-assign, tally_pos, le-tally, ap, ◌∙◌,
}
use mathlib.Core.Path.{subst}
use reeact_v.Fastsync.Futex.{Futex}
use reeact_v.Fastsync.Mutex.{Pc, notify, spin, contend, futex_wake, access}
use reeact_v.Fastsync.Mutex.System.{
  Thread, outside, running, asleep, resume, sleepers, wake, rouse, dormant, is_dormant, dormants,
  requeue,
}
use reeact_v.Fastsync.Mutex.Invariant.Defs.{holds, settles, helps, dozes, Inv}

-- Where FUTEX_WAKE is called, and what it is called with.
wake-place :
    (p : Pc) (state : ℕ) {count code : ℕ}
    → access p state ≡ futex_wake count code
    → (p ≡ notify) × (count ≡ 1) × (code ≡ 0)
unfolding access
wake-place (spin j) state e = ground arith
wake-place p state e = ground arith

-- A thread that may be woken: the weights before and after.
record Roused (t t' : Thread) : Type 0 where
  holds_same : holds t' ≡ holds t
  settles_same : settles t' ≡ settles t
  helps_more : helps t ≤ helps t'
  dozes_less : dozes t' ≤ dozes t

rouse_one :
    (b : Bool) (t : Thread)
    → ((q : Pc) → t ≡ asleep q → q ≡ contend)
    → Roused t (if b then wake t else t)
rouse_one false t parked = ground arith
rouse_one true (asleep q) parked = ground (arith, parked q refl)
rouse_one true t parked = ground arith

module _ (k : Futex) {n state : ℕ} {thread : ℕ → Thread} (inv : Inv n state thread)
    {woken : ℕ → Bool} (wakes : k.Wakes 1 (sleepers n thread) woken) where
  roused : (j : ℕ) → Roused (thread j) (rouse woken thread j)
  roused j = rouse_one (woken j) (thread j) (inv.parked j)

  -- A thread that the kernel woke is about to set both bits of the word.
  woken-helps : (j : ℕ) → woken j ≡ true → (j < n) × (helps (rouse woken thread j) ≡ 1)
  woken-helps j w = go (thread j) refl (k.wakes_sleepers wakes j w)
    where
      go :
          (t : Thread)
          → thread j ≡ t
          → sleepers n thread j ≡ true
          → (j < n) × (helps (rouse woken thread j) ≡ 1)
      go (asleep q) e s = ground (arith, inv.parked j q)
      go outside e s = ground arith
      go t e s = ground arith

  module _ (i : ℕ) (lt : i < n) (here : thread i ≡ running notify) where
    abbrev after : ℕ → Thread
    after = assign (rouse woken thread) i outside

    weigh :
        (w : Thread → ℕ)
        → tally w n after + w (rouse woken thread i) ≡ w outside + tally w n (rouse woken thread)
    weigh w = tally-assign w n (rouse woken thread) i outside lt

    -- If anybody sleeps, a thread other than the one that wakes is woken.
    helped : 0 < tally dozes n thread → 0 < tally helps n after
    helped some_sleep =
        let (m, lt_m, dozing) = tally_pos dozes n thread some_sleep in
        let (j, w) = k.wakes_one wakes (omega arith) m (ground arith) in
        let (lt_j, one) = woken-helps j w in
        let asleep_j = k.wakes_sleepers wakes j w in
        let helps_j : helps (after j) ≡ 1 = ground arith in
        omega (arith, le-tally helps n after j lt_j)

    notify-Inv : Inv n state after
    notify-Inv = record {
      small = inv.small;
      owned = omega (
        arith,
        weigh holds,
        roused i,
        ap holds here,
        tally-ext holds n (rouse woken thread) thread (λ j _. (roused j).holds_same),
        inv.owned,
      );
      settling = λ two. omega (
        arith,
        weigh settles,
        roused i,
        ap settles here,
        tally-ext settles n (rouse woken thread) thread (λ j _. (roused j).settles_same),
        inv.settling two,
      );
      covered = λ some_sleep.
          let fewer =
            tally_mono dozes n (rouse woken thread) thread (λ j _. (roused j).dozes_less) in
          inr (helped (omega (arith, weigh dozes, fewer)));
      parked = λ j q e. ground (arith, inv.parked j q);
    }

pub wake_up-Inv :
    (k : Futex) {n state : ℕ} {thread : ℕ → Thread}
    → Inv n state thread
    → (i : ℕ) {p : Pc} {count code : ℕ} {woken : ℕ → Bool} → i < n
    → thread i ≡ running p
    → access p state ≡ futex_wake count code
    → k.Wakes count (sleepers n thread) woken
    → Inv n state (assign (rouse woken thread) i (resume p code))
wake_up-Inv k {n} {state} {thread} inv i {p} {count} {code} {woken} lt here e wakes =
    let (at, one, _) = wake-place p state e in
    rw at (
      notify-Inv k inv (subst (λ c. k.Wakes c (sleepers n thread) woken) one wakes) i lt
        (here ∙ ap running at))

-- A waiter of the condition variable that is woken or moved: the weights before and after.
requeue_one :
    (w m : Bool) (t : Thread)
    → (w ≡ true → is_dormant t ≡ true)
    → (m ≡ true → is_dormant t ≡ true)
    → let t' : Thread = if w then running contend else if m then asleep contend else t in
      (holds t' ≡ holds t) × (settles t' ≡ settles t) × (helps t ≤ helps t')
requeue_one w m dormant woken moved = ground arith
requeue_one w m t woken moved = ground arith

module _ (k : Futex) {n state : ℕ} {thread : ℕ → Thread} (inv : Inv n state thread) {limit : ℕ}
    {waiting woken moved : ℕ → Bool}
    (wait : (i : ℕ) → waiting i ≡ true → dormants n thread i ≡ true)
    (queued : k.Requeues 1 limit waiting woken moved) where
  abbrev queue : ℕ → Thread
  queue = requeue woken moved thread

  kept :
      (j : ℕ)
      → (holds (queue j) ≡ holds (thread j))
        × (settles (queue j) ≡ settles (thread j))
        × (helps (thread j) ≤ helps (queue j))
  kept j =
      requeue_one (woken j) (moved j) (thread j)
        (λ w. let d = wait j (k.requeue_wakes_sleepers queued j w) in ground arith)
        (λ m. let d = wait j (k.requeue_moves_sleepers queued j m) in ground arith)

  -- Who sleeps on the word slept there before, or somebody was woken.
  covers : 0 < tally dozes n queue → (2 ≤ state) ⊎ (0 < tally helps n queue)
  covers some_sleep =
      let (i, lt, dozing) = tally_pos dozes n queue some_sleep in split i lt dozing (moved i) refl
    where
      more_help : tally helps n thread ≤ tally helps n queue
      more_help = tally_mono helps n thread queue (λ j _. (kept j).2)

      woken-helps' : (j : ℕ) → woken j ≡ true → 0 < tally helps n queue
      woken-helps' j w =
          let d = wait j (k.requeue_wakes_sleepers queued j w) in
          let lt_j : j < n = ground arith in
          let one : helps (queue j) ≡ 1 = ground arith in
          omega (arith, le-tally helps n queue j lt_j)

      before : (2 ≤ state) ⊎ (0 < tally helps n thread) → (2 ≤ state) ⊎ (0 < tally helps n queue)
      before (inl contended) = inl contended
      before (inr helped) = inr (omega (arith, more_help))

      split :
          (i : ℕ)
          → i < n
          → 0 < dozes (queue i)
          → (m : Bool) → moved i ≡ m
          → (2 ≤ state) ⊎ (0 < tally helps n queue)
      split i lt dozing true m =
          let (j, w) = k.requeue_wakes_first queued (omega arith) i m in inr (woken-helps' j w)
      split i lt dozing false m =
          let old : 0 < dozes (thread i) = ground arith in
          before (inv.covered (omega (arith, le-tally dozes n thread i lt)))

  pub broadcast-Inv : Inv n state queue
  broadcast-Inv = record {
    small = inv.small;
    owned = tally-ext holds n queue thread (λ j _. (kept j).0) ∙ inv.owned;
    settling = λ two.
        omega (arith, inv.settling two, tally-ext settles n queue thread (λ j _. (kept j).1));
    covered = covers;
    parked = λ j q e. ground (arith, inv.parked j q);
  }
