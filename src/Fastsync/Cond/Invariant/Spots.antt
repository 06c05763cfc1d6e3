-- ===== src/Fastsync/Cond/Invariant/Spots.antt =====
-- The invariant of Fastsync/Cond/System.antt, and what a step changes of it.
use reeact_v.Prelude.{ℕ, ◌≡◌, ◌⊎◌, inl, inr, refl, sym, Bool, true, List, arith, assign}
use mathlib.Core.Path.{subst}
use reeact_v.Fastsync.Cond.{Cond, Pc}
use reeact_v.Fastsync.Cond.System.{Thread, calling, System, all_sleepers, at}
use reeact_v.Fastsync.Cond.Invariant.{At, AtPlace, Bound, Stacked, in_wait, waits}
use reeact_v.Fastsync.Cond.Invariant.Places.{
  assign_all, Framed, stays-Framed, stays-AtPlace, asleep-bound,
}

-- A thread, its object and the objects that it comes back to.
abbrev pub Spot : (m : ℕ) → (ℕ → Cond) → Thread → (place : ℕ) → (frames : List ℕ) → Type 0
Spot m cond t place frames =
    AtPlace m t (cond place).mutex × Stacked t frames × Framed m cond frames

pub record Inv (m : ℕ) (s : System) : Type 0 where
  pub bound : (c : ℕ) → Bound m (s.cond c)
  pub spot : (j : ℕ) → Spot m s.cond (s.thread j) (s.place j) (s.frames j)

-- The numbers of `fastsync_cond_signal_count` do not count.
pub recount-Inv :
    {m : ℕ} {s : System} (count : ℕ → ℕ) → Inv m s → Inv m (record s { count = count })
recount-Inv count inv = record { bound = inv.bound; spot = inv.spot }

module _ {m : ℕ} {s : System} (inv : Inv m s) where
  pub calling-At :
      (i : ℕ) {held : Bool} {p : Pc} → s.thread i ≡ calling held p → At m held p (at s i).mutex
  calling-At i e = subst (λ t. AtPlace m t (at s i).mutex) e (inv.spot i).0

  pub Stacked-at : (i : ℕ) {t : Thread} → s.thread i ≡ t → Stacked t (s.frames i)
  Stacked-at i e = subst (λ t. Stacked t (s.frames i)) e (inv.spot i).1

  -- A thread goes on within its call.
  pub going_on :
      (i : ℕ) {held : Bool} {p : Pc} (held' : Bool) (q : Pc)
      → s.thread i ≡ calling held p
      → At m held' q (at s i).mutex
      → in_wait q ≡ in_wait p
      → Spot m s.cond (calling held' q) (s.place i) (s.frames i)
  going_on i {p} held' q e here stays =
      (here, ground (arith, Stacked-at i e, stays), (inv.spot i).2)

  -- Only threads change.
  pub moved :
      (thread : ℕ → Thread)
      → ((j : ℕ) → Spot m s.cond (thread j) (s.place j) (s.frames j))
      → Inv m (record s { thread = thread })
  moved thread spots = record { bound = inv.bound; spot = spots }

  pub changed :
      (thread : ℕ → Thread) (i : ℕ) (t : Thread)
      → ((j : ℕ) → Spot m s.cond (thread j) (s.place j) (s.frames j))
      → Spot m s.cond t (s.place i) (s.frames i)
      → Inv m (record s { thread = assign thread i t })
  changed thread i t all one =
      moved (assign thread i t)
        (assign_all (λ j t. Spot m s.cond t (s.place j) (s.frames j)) thread i t all one)

  pub one_moved :
      (i : ℕ) (t : Thread)
      → Spot m s.cond t (s.place i) (s.frames i)
      → Inv m (record s { thread = assign s.thread i t })
  one_moved i t = changed s.thread i t inv.spot

  -- An object changes.
  module _ (c : ℕ) (cond : Cond) (bound : Bound m cond)
      (once : (cond.mutex ≡ (s.cond c).mutex) ⊎ (cond.mutex ≡ m)) where
    pub onward :
        (d : ℕ)
        → ((assign s.cond c cond d).mutex ≡ (s.cond d).mutex) ⊎ ((assign s.cond c cond d).mutex ≡ m)
    onward =
        assign_all (λ d x. (x.mutex ≡ (s.cond d).mutex) ⊎ (x.mutex ≡ m)) s.cond c cond
          (λ d. inl refl) once

    pub all-Bound : (d : ℕ) → Bound m (assign s.cond c cond d)
    all-Bound = assign_all (λ d x. Bound m x) s.cond c cond inv.bound bound

    pub stays : (j : ℕ) → Spot m (assign s.cond c cond) (s.thread j) (s.place j) (s.frames j)
    stays j = (
      stays-AtPlace m (s.thread j) (onward (s.place j)) (inv.spot j).0,
      (inv.spot j).1,
      stays-Framed m s.cond (assign s.cond c cond) (s.frames j) onward (inv.spot j).2,
    )

    pub framed : (j : ℕ) → Framed m (assign s.cond c cond) (s.frames j)
    framed j = (stays j).2

  pub bound_by : (n i : ℕ) → all_sleepers n s.thread i ≡ true → (at s i).mutex ≡ m
  bound_by n i a = asleep-bound m (s.thread i) (at s i).mutex (inv.spot i).0 (ground (arith, a))

  -- A waiter on `seq` is woken, or moved to the mutex.
  pub roused :
      (n i : ℕ) (t : Thread)
      → all_sleepers n s.thread i ≡ true
      → AtPlace m t m
      → waits t ≡ true
      → Spot m s.cond t (s.place i) (s.frames i)
  roused n i t a there w = (subst (AtPlace m t) (sym (bound_by n i a)) there, inr w, (inv.spot i).2)
