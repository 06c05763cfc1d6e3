-- ===== src/Fastsync/Barrier/Tree/Coupling.antt =====
-- How a group of src/fastsync/fastsync_barrier.c and its part at the parent's barrier go together.
use reeact_v.Prelude.{
  ℕ, ◌+◌, ◌<◌, ◌≡◌, ◌≢◌, sym, ap, ◌∙◌, arith, ℕ_discrete, tally, tally-ext, le-tally, add-le-tally,
}
use reeact_v.Fastsync.Barrier.{blocking, Pc}
use reeact_v.Fastsync.Barrier.System.{Place, outside, running, Thread, System}
use reeact_v.Fastsync.Barrier.Invariant.{Inv, closing, closes}
use reeact_v.Fastsync.Barrier.Tree.Levels.{up, down, level, Kept, same, ended}

-- While no thread of the group is in the last thread's part, the group is outside the parent's
-- barrier and has left it in every round of the group. While one is in the wait of the parent, the
-- group is where it is. Behind that, the group has left once more.
pub record Coupled (n : ℕ) (l : System) (t : Thread) : Type 0 where
  pub idle : tally closes n l.thread ≡ 0 → (t.place ≡ outside) × (t.left ≡ l.round)
  pub busy :
      (i : ℕ)
      → i < n
      → (p : Pc) → level (l.thread i).place ≡ up p
      → (t.place ≡ running p) × (t.left ≡ l.round)
  pub done :
      (i : ℕ)
      → i < n
      → level (l.thread i).place ≡ down
      → (t.place ≡ outside) × (t.left ≡ l.round + 1)

closing-level : (a b : Place) → level a ≡ level b → closing a ≡ closing b
closing-level (running p) (running q) e = ground arith
closing-level a b e = ground arith

up-closes : (a : Place) (p : Pc) → level a ≡ up p → closing a ≡ 1
up-closes (running p) q e = ground arith
up-closes a q e = ground arith

down-closes : (a : Place) → level a ≡ down → closing a ≡ 1
down-closes (running p) e = ground arith
down-closes a e = ground arith

module _ {n total : ℕ} {l : System} (inv : Inv blocking n total l) where
  -- There is one last thread.
  pub only :
      (i j : ℕ)
      → i < n
      → j < n
      → closing (l.thread i).place ≡ 1
      → closing (l.thread j).place ≡ 1
      → i ≡ j
  only i j lt_i lt_j here there = elim (ℕ_discrete i j) [
    | yes e ↦ e
    | no apart ↦ absurd (
        omega
          (arith, add-le-tally closes n l.thread i j lt_i lt_j apart, here, there, inv.one_closes))
  ]

  -- A step of the group alone.
  pub Kept-Coupled : {l' : System} {t : Thread} → Kept n l l' → Coupled n l t → Coupled n l' t
  Kept-Coupled {l'} (same levels round) c =
      let closes_same =
        tally-ext closes n l'.thread l.thread
          (λ j lt. closing-level (l'.thread j).place (l.thread j).place (levels j)) in
      record {
        idle = λ none_closes. ground (arith, c.idle (sym closes_same ∙ none_closes), round);
        busy = λ i lt p e. ground (arith, c.busy i lt p (sym (levels i) ∙ e), round);
        done = λ i lt e. ground (arith, c.done i lt (sym (levels i) ∙ e), round);
      }
  Kept-Coupled {l'} {t} (ended i lt was levels round) c =
      let closer = down-closes (l.thread i).place was in
      record {
        idle = λ none_closes. ground (arith, c.done i lt was, round);
        busy = λ j lt_j p e. elim (ℕ_discrete i j) [
          | yes self ↦ absurd (ground (arith, levels j, self, e))
          | no other ↦
              let still : level (l.thread j).place ≡ up p = ground (arith, levels j, other, e) in
              absurd (other (only i j lt lt_j closer (up-closes (l.thread j).place p still)))
        ];
        done = λ j lt_j e. elim (ℕ_discrete i j) [
          | yes self ↦ absurd (ground (arith, levels j, self, e))
          | no other ↦
              let still : level (l.thread j).place ≡ down = ground (arith, levels j, other, e) in
              absurd (other (only i j lt lt_j closer (down-closes (l.thread j).place still)))
        ];
      }

  -- One thread moves to another level in the last thread's part, and the group with it.
  pub shifted-Coupled :
      {l' : System} {t' : Thread} (i : ℕ)
      → i < n
      → ((j : ℕ) → j < n → i ≢ j → closes (l.thread j) ≡ 0)
      → ((j : ℕ) → i ≢ j → l'.thread j ≡ l.thread j)
      → closes (l'.thread i) ≡ 1
      → ((p : Pc)
          → level (l'.thread i).place ≡ up p
          → (t'.place ≡ running p) × (t'.left ≡ l'.round))
      → (level (l'.thread i).place ≡ down → (t'.place ≡ outside) × (t'.left ≡ l'.round + 1))
      → Coupled n l' t'
  shifted-Coupled {l'} {t'} i lt others kept closer at_up at_down = record {
    idle = λ none_closes. absurd (omega (arith, le-tally closes n l'.thread i lt, closer));
    busy = λ j lt_j p e. elim (ℕ_discrete i j) [
      | yes self ↦ at_up p (ap (λ i. level (l'.thread i).place) self ∙ e)
      | no other ↦
          let still = ap (λ (t : Thread). level t.place) (sym (kept j other)) ∙ e in
          absurd (omega (arith, others j lt_j other, up-closes (l.thread j).place p still))
    ];
    done = λ j lt_j e. elim (ℕ_discrete i j) [
      | yes self ↦ at_down (ap (λ i. level (l'.thread i).place) self ∙ e)
      | no other ↦
          let still = ap (λ (t : Thread). level t.place) (sym (kept j other)) ∙ e in
          absurd (omega (arith, others j lt_j other, down-closes (l.thread j).place still))
    ];
  }

  -- The others are not in the last thread's part.
  pub others-open :
      (i : ℕ) → i < n → closes (l.thread i) ≡ 1 → (j : ℕ) → j < n → i ≢ j → closes (l.thread j) ≡ 0
  others-open i lt closer j lt_j apart =
      omega (arith, add-le-tally closes n l.thread i j lt lt_j apart, inv.one_closes, closer)
