-- ===== src/Fastsync/Barrier/Tree.antt =====
-- A tree of barriers of src/fastsync/fastsync_barrier.c with two levels: groups of threads, each at
-- its barrier, all with one parent, where the last thread of a group waits with the group's count.
pub mod Levels
pub mod Constants
pub mod Coupling
pub mod Moves
pub mod Groups
pub mod Refines
pub mod Parts
pub mod Safety
pub mod Progress
mod Examples
use reeact_v.Prelude.{ℕ, ◌+◌, ◌<◌, ◌≡◌, some, none, Bool, true, false, assign, tally}
use reeact_v.Fastsync.Futex.{Futex}
use reeact_v.Fastsync.Barrier.{
  Kind, blocking, interproc, Bar, fastsync_barrier_init, Pc, enter, go, ret, call_parent, access,
}
use reeact_v.Fastsync.Barrier.System.{
  Place, running, above, Thread, System, move, advanced, returned, climbed, resets, serial, fresh,
  Step, call, advance, climb, stay, descend, return, sleep, wait_returns, interrupt, wake_up,
}

-- The groups, and the parent, whose caller `g` stands for the thread of group `g` that is there. Its
-- place is that thread's, and it is not in the program.
pub record Tree : Type 0 where
  pub leaf : ℕ → System
  pub root : System

abbrev pub with_leaf : Tree → ℕ → System → Tree
with_leaf t g l = record t { leaf = assign t.leaf g l }

abbrev pub with_thread : System → ℕ → Thread → System
with_thread s i t = record s { thread = assign s.thread i t }

-- A step of a group in which its parent has no part.
abbrev pub own : {k : Futex} {kind : Kind} {n : ℕ} {s t : System} → Step k kind n s t → Bool
own (climb _ _ _ _) = false
own (stay _ _ _ _) = false
own (descend _ _ _) = false
own _ = true

pub data TreeStep (k : Futex) (groups : ℕ) (size : ℕ → ℕ) (t : Tree) : Tree → Type 0 where
  within :
      (g : ℕ) {l : System}
      → g < groups
      → (st : Step k blocking (size g) (t.leaf g) l) → own st ≡ true
      → TreeStep k groups size t (with_leaf t g l)
  -- The last thread of a group calls the wait of the parent.
  ascend :
      (g i : ℕ) {p q : Pc} {bar : Bar} {parent count : ℕ}
      → g < groups
      → i < size g
      → ((t.leaf g).thread i).place ≡ running p
      → access blocking p (t.leaf g).bar ≡ call_parent bar parent count q
      → TreeStep k groups size t (record {
        leaf = assign t.leaf g (
            with_thread
              (record (t.leaf g) { bar = bar })
              i
              (climbed ((t.leaf g).thread i) p count q));
        root = with_thread t.root g (move (t.root.thread g) (running (enter count)));
      })
  -- An access there.
  aloft :
      (g i : ℕ) {p p' q : Pc} {bar : Bar}
      → g < groups
      → i < size g
      → ((t.leaf g).thread i).place ≡ above p q
      → access interproc p t.root.bar ≡ go bar p'
      → TreeStep k groups size t (record {
        leaf = assign t.leaf g (with_thread (t.leaf g) i (move ((t.leaf g).thread i) (above p' q)));
        root = record t.root {
          bar = bar;
          thread = assign t.root.thread g (advanced (t.root.thread g) p p');
          round = t.root.round + resets p;
        };
      })
  -- The last access there; its result is not used.
  land :
      (g i : ℕ) {p q : Pc} {bar : Bar} {code : ℕ}
      → g < groups
      → i < size g
      → ((t.leaf g).thread i).place ≡ above p q
      → access interproc p t.root.bar ≡ ret bar code
      → TreeStep k groups size t (record {
        leaf = assign t.leaf g (with_thread (t.leaf g) i (move ((t.leaf g).thread i) (running q)));
        root = record t.root {
          bar = bar;
          thread = assign t.root.thread g (returned (t.root.thread g) p);
          round = t.root.round + resets p;
          serials = t.root.serials + serial code;
        };
      })

abbrev pub starting : Bar → (weights : ℕ → ℕ) → System
starting bar weights = record { bar = bar; thread = fresh weights; round = 0; serials = 0 }

-- Every barrier as `fastsync_barrier_init` leaves it, the parent's for all threads, and those of the
-- groups put below it.
pub data TreeReach (k : Futex) (groups : ℕ) (size : ℕ → ℕ) : Tree → Type 0 where
  start :
      (old : ℕ → Bar) (old_root : Bar) (parent : ℕ) {bars : ℕ → Bar} {bar : Bar}
      → ((g : ℕ) → fastsync_barrier_init false (old g) (size g) ≡ (0, bars g))
      → fastsync_barrier_init false old_root (tally (λ w. w) groups size) ≡ (0, bar)
      → TreeReach k groups size (record {
        leaf = λ g. starting (record (bars g) { parent_bar = some parent }) (λ _. 1);
        root = starting (record bar { parent_bar = none }) size;
      })
  later :
      {t t' : Tree}
      → TreeReach k groups size t
      → TreeStep k groups size t t'
      → TreeReach k groups size t'
