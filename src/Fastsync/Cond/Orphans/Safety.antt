-- ===== src/Fastsync/Cond/Orphans/Safety.antt =====
-- Who goes on to the parent in fastsync_cond_wait of src/fastsync/fastsync_cond.c, and whom that
-- thread releases.
use reeact_v.Prelude.{
  ℕ, ◌+◌, ◌^◌, ◌≤◌, ◌<◌, ◌≡◌, ◌≢◌, ◌⊎◌, inl, inr, true, none, arith, ℕ_discrete, tally_pos,
  le-tally, add-le-tally,
}
use reeact_v.Fastsync.Futex.{Futex}
use reeact_v.Fastsync.Barrier.{int_max}
use reeact_v.Fastsync.Cond.System.{is_asleep_seq, System, at, Reach}
use reeact_v.Fastsync.Cond.Leaders.{leads, view}
use reeact_v.Fastsync.Cond.Leaders.Steps.{Reach-Leaders}
use reeact_v.Fastsync.Cond.Orphans.{urges, Some}
use reeact_v.Fastsync.Cond.Orphans.Steps.{Reach-Orphans}

-- In every reachable state, use_child of a condition variable is 0, and no wait at it has gone on
-- to the parent without having reset it, or it is 1, and exactly one such wait of exactly one
-- thread has.
pub one_leader :
    {k : Futex} {n m : ℕ} {s : System}
    → Reach k n m s
    → (c : ℕ)
    → (((s.cond c).use_child ≡ 0) × ((i : ℕ) → i < n → leads c (view s i) ≡ 0))
      ⊎ (((s.cond c).use_child ≡ 1)
          × ((i : ℕ) × (i < n)
              × (leads c (view s i) ≡ 1)
              × ((j : ℕ) → j < n → i ≢ j → leads c (view s j) ≡ 0)))
one_leader {n} {s} r c =
    let used = (Reach-Leaders r).used c in
    elim (ℕ_discrete (s.cond c).use_child 0) [
      | yes unused ↦
          inl (unused, λ i lt. omega (arith, le-tally (leads c) n (view s) i lt, used, unused))
      | no some_used ↦
          let one : (s.cond c).use_child ≡ 1 = omega (arith, some_used, (Reach-Leaders r).once c) in
          let (i, lt, more) = tally_pos (leads c) n (view s) (omega (arith, used, one)) in
          inr (
            one,
            (
              i,
              lt,
              omega (arith, le-tally (leads c) n (view s) i lt, used, one, more),
              λ j lt' other.
                  omega
                    (arith, add-le-tally (leads c) n (view s) i j lt lt' other, used, one, more),
            ),
          )
    ]

-- In every reachable state of up to INT_MAX threads, a thread that sleeps on seq of a condition
-- variable with a parent, which has been raised fewer than 2 ^ 32 times since the thread noted it, has
-- a thread whose wait there has gone on to the parent and has not yet called FUTEX_REQUEUE.
pub no_orphan :
    {k : Futex} {n m : ℕ} {s : System}
    → Reach k n m s
    → n ≤ int_max
    → (j : ℕ) → j < n
    → is_asleep_seq (s.thread j) ≡ true
    → (at s j).parent ≢ none
    → s.raised (s.place j) < s.seen j + 2 ^ 32
    → Some urges n s (s.place j)
no_orphan r few j lt a below soon = elim ((Reach-Orphans few r).sleeper j lt a) [
  | inl alone ↦ absurd (below alone)
  | inr (inl one) ↦ one
  | inr (inr wrapped) ↦ absurd (omega (arith, wrapped, soon))
]
