-- ===== src/Fastsync/Barrier/Tree/Moves.antt =====
-- The steps of a group to, in and from the parent's barrier (src/fastsync/fastsync_barrier.c).
use reeact_v.Prelude.{ℕ, ◌<◌, ◌≡◌, ap, arith, ℕ_discrete, tally, tally_room, le-tally}
use reeact_v.Fastsync.Barrier.{blocking, Bar, Pc, enter, arrive, complete, call_parent, access}
use reeact_v.Fastsync.Barrier.System.{
  running, above, Thread, System, move, advanced, returned, climbed,
}
use reeact_v.Fastsync.Barrier.Invariant.{Inv, ahead, ahead_le, brings, closing, closes}
use reeact_v.Fastsync.Barrier.Tree.{with_thread}
use reeact_v.Fastsync.Barrier.Tree.Levels.{level}
use reeact_v.Fastsync.Barrier.Tree.Coupling.{Coupled, shifted-Coupled, others-open}

module _ {n total : ℕ} {l : System} (inv : Inv blocking n total l) where
  -- A thread that has yet to arrive leaves nobody in the last thread's part.
  nobody-closes : (i : ℕ) → i < n → ahead l.round (l.thread i) ≡ 0 → tally closes n l.thread ≡ 0
  nobody-closes i lt absent =
      let room = tally_room (ahead l.round) brings (ahead_le l.round) n l.thread i lt absent in
      elim (ℕ_discrete (tally closes n l.thread) 0) [
        | yes none ↦ none
        | no some ↦ absurd (
            omega (
              arith,
              room,
              (inv.local i lt).0,
              inv.weighs,
              inv.counted,
              inv.closes_full (omega (arith, some)),
            ))
      ]

  -- It is the last of its group that calls the wait of the parent, with the group's count.
  pub ascend_lem :
      (i : ℕ) (p q : Pc) (bar : Bar) (parent count : ℕ)
      → i < n
      → (l.thread i).place ≡ running p
      → access blocking p l.bar ≡ call_parent bar parent count q
      → (count ≡ total) × (q ≡ complete) × (tally closes n l.thread ≡ 0)
  unfolding access
  ascend_lem i (arrive by cur) q bar parent count lt here e =
      let absent : ahead l.round (l.thread i) ≡ 0 = ground (arith, inv.local i lt) in
      (ground (arith, inv.count), ground arith, nobody-closes i lt absent)
  ascend_lem i p q bar parent count lt here e = absurd (ground arith)

  pub ascend-Coupled :
      {t : Thread}
      → Coupled n l t
      → (i : ℕ) (p q : Pc) (bar : Bar) (parent count : ℕ) → i < n
      → (l.thread i).place ≡ running p
      → access blocking p l.bar ≡ call_parent bar parent count q
      → Coupled n
          (with_thread (record l { bar = bar }) i (climbed (l.thread i) p count q))
          (move t (running (enter count)))
  ascend-Coupled c i p q bar parent count lt here e =
      let (full, last, quiet) = ascend_lem i p q bar parent count lt here e in
      let (out, level_with) = c.idle quiet in
      shifted-Coupled inv i lt
        (λ j lt_j other. omega (arith, le-tally closes n l.thread j lt_j, quiet))
        (λ j other. ground (arith, other)) (ground arith) (λ p' at. ground (arith, at, level_with))
        (λ at. absurd (ground (arith, at)))

  above-closes : (i : ℕ) (p q : Pc) → (l.thread i).place ≡ above p q → closes (l.thread i) ≡ 1
  above-closes i p q here = ap closing here

  -- The group is where its thread is.
  pub above_lem :
      {t : Thread}
      → Coupled n l t
      → (i : ℕ) (p q : Pc) → i < n
      → (l.thread i).place ≡ above p q
      → (t.place ≡ running p) × (t.left ≡ l.round) × (q ≡ complete)
  above_lem c i p q lt here =
      let (at, level_with) = c.busy i lt p (ap level here) in
      (at, level_with, ground (arith, inv.local i lt))

  pub aloft-Coupled :
      {t : Thread}
      → Coupled n l t
      → (i : ℕ) (p p' q : Pc) → i < n
      → (l.thread i).place ≡ above p q
      → Coupled n (with_thread l i (move (l.thread i) (above p' q))) (advanced t p p')
  aloft-Coupled c i p p' q lt here =
      shifted-Coupled inv i lt (others-open inv i lt (above-closes i p q here))
        (λ j other. ground (arith, other)) (ground arith)
        (λ p'' at. ground (arith, at, above_lem c i p q lt here))
        (λ at. absurd (ground (arith, at)))

  pub land-Coupled :
      {t : Thread}
      → Coupled n l t
      → (i : ℕ) (p q : Pc) → i < n
      → (l.thread i).place ≡ above p q
      → Coupled n (with_thread l i (move (l.thread i) (running q))) (returned t p)
  land-Coupled c i p q lt here =
      let (at, level_with, last) = above_lem c i p q lt here in
      shifted-Coupled inv i lt (others-open inv i lt (above-closes i p q here))
        (λ j other. ground (arith, other)) (ground (arith, last))
        (λ p'' at. absurd (ground (arith, at, last))) (λ at. ground (arith, level_with))
