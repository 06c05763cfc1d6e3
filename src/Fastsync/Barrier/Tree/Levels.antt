-- ===== src/Fastsync/Barrier/Tree/Levels.antt =====
-- Where the threads of a group stand towards the parent's barrier, and what the steps of the group
-- alone do to that (src/fastsync/fastsync_barrier.c).
use reeact_v.Prelude.{
  ℕ, ◌+◌, ◌<◌, ◌≡◌, inl, inr, refl, ap, some, Bool, true, arith, assign, ◌==◌, if◌then◌else◌,
  ℕ_discrete, Bool-cases,
}
use reeact_v.Fastsync.Futex.{Futex}
use reeact_v.Fastsync.Barrier.{
  blocking, Bar, Pc, arrive, complete, store, notify, test, block, go, ret, futex_wait, futex_wake,
  access,
}
use reeact_v.Fastsync.Barrier.System.{
  Place, running, asleep, above, System, move, advanced, returned, resets, is_asleep, sleepers,
  wake, rouse, Step, call, advance, climb, stay, descend, return, sleep, wait_returns, interrupt,
  wake_up,
}
use reeact_v.Fastsync.Barrier.Invariant.{AtPlace, Inv}
use reeact_v.Fastsync.Barrier.Tree.{own}

-- Not in the part of the wait that only the last thread comes to, in the wait of the parent, or
-- behind it.
pub data Level : Type 0 where
  ground_floor : Level
  up : (p : Pc) → Level
  down : Level

abbrev pub level : Place → Level
level (running complete) = down
level (running (store _)) = down
level (above p q) = up p
level _ = ground_floor

-- What a step of the group alone leaves of that: all, in the same round, or all but that the last
-- thread has ended the round.
pub data Kept (n : ℕ) (s t : System) : Type 0 where
  same :
      ((j : ℕ) → level (t.thread j).place ≡ level (s.thread j).place)
      → t.round ≡ s.round
      → Kept n s t
  ended :
      (i : ℕ)
      → i < n
      → level (s.thread i).place ≡ down
      → ((j : ℕ)
          → level (t.thread j).place ≡ (if i == j then ground_floor else level (s.thread j).place))
      → t.round ≡ s.round + 1
      → Kept n s t

wake-level :
    (round weight arrived left : ℕ) (place : Place)
    → is_asleep place ≡ true
    → AtPlace blocking round weight arrived left place
    → level (wake place) ≡ level place
wake-level round weight arrived left (asleep (test cur)) dozing at = refl
wake-level round weight arrived left (asleep p) dozing at = absurd (ground arith)
wake-level round weight arrived left place dozing at = absurd (ground arith)

module _ {n total : ℕ} {s : System} (inv : Inv blocking n total s) {parent : ℕ}
    (below : s.bar.parent_bar ≡ some parent) where
  advance-Kept :
      (i : ℕ) (p : Pc) (q : Pc) (bar : Bar)
      → i < n
      → (s.thread i).place ≡ running p
      → access blocking p s.bar ≡ go bar q
      → Kept n s (record s {
        bar = bar;
        thread = assign s.thread i (advanced (s.thread i) p q);
        round = s.round + resets p;
      })
  unfolding access
  advance-Kept i (store old) q bar lt here e = ended i lt (ground arith) (λ j. ground arith) refl
  advance-Kept i (arrive by cur) q bar lt here e = same (λ j. ground arith) (ground arith)
  advance-Kept i p q bar lt here e = same (λ j. ground arith) (ground arith)

  return-Kept :
      (i : ℕ) (p : Pc) (bar : Bar) (code serials : ℕ)
      → i < n
      → (s.thread i).place ≡ running p
      → access blocking p s.bar ≡ ret bar code
      → Kept n s (record {
        bar = bar;
        thread = assign s.thread i (returned (s.thread i) p);
        round = s.round + resets p;
        serials = serials;
      })
  unfolding access
  return-Kept i (store old) bar code serials lt here e =
      ended i lt (ground arith) (λ j. ground arith) refl
  return-Kept i p bar code serials lt here e = same (λ j. ground arith) (ground arith)

  wait-Kept :
      (i : ℕ) (p q : Pc) (val : ℕ)
      → i < n
      → (s.thread i).place ≡ running p
      → access blocking p s.bar ≡ futex_wait val q
      → Kept n s (record s { thread = assign s.thread i (move (s.thread i) (running q)) })
        × Kept n s (record s { thread = assign s.thread i (move (s.thread i) (asleep q)) })
  unfolding access
  wait-Kept i (block cur) q val lt here e =
      (same (λ j. ground arith) refl, same (λ j. ground arith) refl)
  wait-Kept i p q val lt here e = absurd (ground arith)

  interrupt-Kept :
      (i : ℕ) (q : Pc)
      → i < n
      → (s.thread i).place ≡ asleep q
      → Kept n s (record s { thread = assign s.thread i (move (s.thread i) (running q)) })
  interrupt-Kept i (test cur) lt here = same (λ j. ground arith) refl
  interrupt-Kept i q lt here = absurd (ground (arith, inv.local i lt))

  -- Only sleepers are woken.
  rouse-level :
      (woken : ℕ → Bool)
      → ((j : ℕ) → woken j ≡ true → (j < n) × (is_asleep (s.thread j).place ≡ true))
      → (j : ℕ) → level (rouse woken s.thread j).place ≡ level (s.thread j).place
  rouse-level woken asleep_only j = elim (Bool-cases (woken j)) [
    | inl w ↦
        let (lt, dozing) = asleep_only j w in
        rw w (
          wake-level s.round (s.thread j).weight (s.thread j).arrived (s.thread j).left
            (s.thread j).place dozing (inv.local j lt).2)
    | inr w ↦
        ap
          (λ b. level (if b then move (s.thread j) (wake (s.thread j).place) else s.thread j).place)
          w
  ]

  wake_up-Kept :
      (i : ℕ) (p : Pc) (count code serials : ℕ) (woken : ℕ → Bool)
      → i < n
      → (s.thread i).place ≡ running p
      → access blocking p s.bar ≡ futex_wake count code
      → ((j : ℕ) → woken j ≡ true → (j < n) × (is_asleep (s.thread j).place ≡ true))
      → Kept n s (record s {
        thread = assign (rouse woken s.thread) i (returned (s.thread i) p);
        serials = serials;
      })
  unfolding access
  wake_up-Kept i notify count code serials woken lt here e asleep_only =
      same
        (λ j. elim (ℕ_discrete i j) [
          | yes self ↦ ground (arith, self)
          | no other ↦ ground (arith, other, rouse-level woken asleep_only j)
        ])
        refl
  wake_up-Kept i p count code serials woken lt here e asleep_only = absurd (ground arith)

sleepers-only :
    (k : Futex) (n : ℕ) (s : System) {count : ℕ} {woken : ℕ → Bool}
    → k.Wakes count (sleepers n s.thread) woken
    → (j : ℕ) → woken j ≡ true
    → (j < n) × (is_asleep (s.thread j).place ≡ true)
sleepers-only k n s wakes j w = let dozing = k.wakes_sleepers wakes j w in ground (arith, dozing)

pub Step-Kept :
    {k : Futex} {n total : ℕ} {s t : System}
    → Inv blocking n total s
    → {parent : ℕ} → s.bar.parent_bar ≡ some parent
    → (st : Step k blocking n s t) → own st ≡ true
    → Kept n s t
Step-Kept inv below (call i lt here) own_step = same (λ j. ground arith) refl
Step-Kept inv below (advance i {p} {q} {bar} lt here e) own_step =
    advance-Kept inv below i p q bar lt here e
Step-Kept inv below (climb i lt here e) own_step = absurd (ground arith)
Step-Kept inv below (stay i p' lt here) own_step = absurd (ground arith)
Step-Kept inv below (descend i lt here) own_step = absurd (ground arith)
Step-Kept inv below (return i {p} {bar} {code} lt here e) own_step =
    return-Kept inv below i p bar code _ lt here e
Step-Kept inv below (sleep i {p} {q} {val} lt here e sleeps) own_step =
    (wait-Kept inv below i p q val lt here e).1
Step-Kept inv below (wait_returns i {p} {q} {val} lt here e) own_step =
    (wait-Kept inv below i p q val lt here e).0
Step-Kept inv below (interrupt i {q} lt here) own_step = interrupt-Kept inv below i q lt here
Step-Kept {k} {n} {s = s} inv below (wake_up i {p} {count} {code} {woken} lt here e wakes)
      own_step =
    wake_up-Kept inv below i p count code _ woken lt here e (sleepers-only k n s wakes)
