-- ===== src/Fastsync/Barrier/System.antt =====
-- `n` callers that meet at one barrier of src/fastsync/fastsync_barrier.c again and again,
-- interleaved in any order, over any kernel with futexes. They are threads at a barrier that blocks,
-- and groups of threads, each with its count, at a barrier between processors. The barrier may have
-- a parent, whose wait takes any time.
use reeact_v.Prelude.{
  Option, tally, ℕ, ◌+◌, ◌<◌, ◌≡◌, Bool, true, false, ◌&&◌, ltb, ◌==◌, if◌then◌else◌, assign,
}
use reeact_v.Fastsync.Futex.{Futex}
use reeact_v.Fastsync.Barrier.{
  Bar, fastsync_barrier_init, serial_thread, Kind, blocking, interproc, Pc, enter, arrive, store,
  go, ret, call_parent, futex_wait, futex_wake, access,
}

-- Outside the barrier, in its wait, asleep in the FUTEX_WAIT of `fastsync_barrier_wait`, or in the
-- wait of the parent (at `p`), to go on at `q` after it.
pub data Place : Type 0 where
  outside : Place
  running : Pc → Place
  asleep : Pc → Place
  above : (p q : Pc) → Place

-- A caller, with the count that it brings, and how often it has arrived (added its count to
-- `waiting`) and returned.
pub record Thread : Type 0 where
  pub place : Place
  pub weight : ℕ
  pub arrived : ℕ
  pub left : ℕ

-- The barrier, its threads, how often it has been reset, and how many calls have returned
-- PTHREAD_BARRIER_SERIAL_THREAD. The counts of rounds are not in the program.
pub record System : Type 0 where
  pub bar : Bar
  pub thread : ℕ → Thread
  pub round : ℕ
  pub serials : ℕ

abbrev pub move : Thread → Place → Thread
move t place = record t { place = place }

-- `fastsync_barrier_wait` adds 1, `fastsynt_barrier_wait_interproc` its argument.
abbrev pub inc : Kind → (weight : ℕ) → ℕ
inc blocking weight = 1
inc interproc weight = weight

abbrev pub arrivals : Pc → ℕ
arrivals (arrive _ _) = 1
arrivals _ = 0

abbrev pub resets : Pc → ℕ
resets (store _) = 1
resets _ = 0

abbrev pub serial : ℕ → ℕ
serial code = if code == serial_thread then 1 else 0

-- The thread after an access at `p` that goes on at `q`, and after one that returns.
abbrev pub advanced : Thread → (p q : Pc) → Thread
advanced t p q = record t { place = running q; arrived = t.arrived + arrivals p }

abbrev pub returned : Thread → Pc → Thread
returned t p = record t { place = outside; arrived = t.arrived + arrivals p; left = t.left + 1 }

-- The thread after an access at `p` that calls the wait of the parent with `count`.
abbrev pub climbed : Thread → (p : Pc) (count : ℕ) (q : Pc) → Thread
climbed t p count q = record t { place = above (enter count) q; arrived = t.arrived + arrivals p }

abbrev pub is_asleep : Place → Bool
is_asleep (asleep _) = true
is_asleep _ = false

abbrev pub sleepers : ℕ → (ℕ → Thread) → ℕ → Bool
sleepers n thread i = ltb i n && is_asleep (thread i).place

abbrev pub wake : Place → Place
wake (asleep p) = running p
wake p = p

abbrev pub rouse : (ℕ → Bool) → (ℕ → Thread) → ℕ → Thread
rouse woken thread i = if woken i then move (thread i) (wake (thread i).place) else thread i

pub data Step (k : Futex) (kind : Kind) (n : ℕ) (s : System) : System → Type 0 where
  call :
      (i : ℕ)
      → i < n
      → (s.thread i).place ≡ outside
      → Step k kind n s (record s {
        thread =
            assign s.thread i (move (s.thread i) (running (enter (inc kind (s.thread i).weight))));
      })
  advance :
      (i : ℕ) {p q : Pc} {bar : Bar}
      → i < n
      → (s.thread i).place ≡ running p
      → access kind p s.bar ≡ go bar q
      → Step k kind n s (record s {
        bar = bar;
        thread = assign s.thread i (advanced (s.thread i) p q);
        round = s.round + resets p;
      })
  climb :
      (i : ℕ) {p q : Pc} {bar : Bar} {parent count : ℕ}
      → i < n
      → (s.thread i).place ≡ running p
      → access kind p s.bar ≡ call_parent bar parent count q
      → Step k kind n s
          (record s { bar = bar; thread = assign s.thread i (climbed (s.thread i) p count q) })
  stay :
      (i : ℕ) {p q : Pc} (p' : Pc)
      → i < n
      → (s.thread i).place ≡ above p q
      → Step k kind n s (record s { thread = assign s.thread i (move (s.thread i) (above p' q)) })
  descend :
      (i : ℕ) {p q : Pc}
      → i < n
      → (s.thread i).place ≡ above p q
      → Step k kind n s (record s { thread = assign s.thread i (move (s.thread i) (running q)) })
  return :
      (i : ℕ) {p : Pc} {bar : Bar} {code : ℕ}
      → i < n
      → (s.thread i).place ≡ running p
      → access kind p s.bar ≡ ret bar code
      → Step k kind n s (record {
        bar = bar;
        thread = assign s.thread i (returned (s.thread i) p);
        round = s.round + resets p;
        serials = s.serials + serial code;
      })
  sleep :
      (i : ℕ) {p q : Pc} {val : ℕ}
      → i < n
      → (s.thread i).place ≡ running p
      → access kind p s.bar ≡ futex_wait val q
      → k.Sleeps s.bar.seq val
      → Step k kind n s (record s { thread = assign s.thread i (move (s.thread i) (asleep q)) })
  wait_returns :
      (i : ℕ) {p q : Pc} {val : ℕ}
      → i < n
      → (s.thread i).place ≡ running p
      → access kind p s.bar ≡ futex_wait val q
      → Step k kind n s (record s { thread = assign s.thread i (move (s.thread i) (running q)) })
  interrupt :
      (i : ℕ) {q : Pc}
      → i < n
      → (s.thread i).place ≡ asleep q
      → Step k kind n s (record s { thread = assign s.thread i (move (s.thread i) (running q)) })
  wake_up :
      (i : ℕ) {p : Pc} {count code : ℕ} {woken : ℕ → Bool}
      → i < n
      → (s.thread i).place ≡ running p
      → access kind p s.bar ≡ futex_wake count code
      → k.Wakes count (sleepers n s.thread) woken
      → Step k kind n s (record s {
        thread = assign (rouse woken s.thread) i (returned (s.thread i) p);
        serials = s.serials + serial code;
      })

-- Callers that have not called yet, with their counts.
abbrev pub fresh : (weights : ℕ → ℕ) → ℕ → Thread
fresh weights i = record { place = outside; weight = weights i; arrived = 0; left = 0 }

-- The barrier as `fastsync_barrier_init` leaves it for the sum of the counts, and as it is put below
-- a parent, if it is, with every caller outside.
pub data Reach (k : Futex) (kind : Kind) (n : ℕ) (weights : ℕ → ℕ) : System → Type 0 where
  start :
      (old : Bar) (parent : Option ℕ) {bar : Bar}
      → fastsync_barrier_init false old (tally (λ w. w) n weights) ≡ (0, bar)
      → Reach k kind n weights (record {
        bar = record bar { parent_bar = parent };
        thread = fresh weights;
        round = 0;
        serials = 0;
      })
  later : {s t : System} → Reach k kind n weights s → Step k kind n s t → Reach k kind n weights t
