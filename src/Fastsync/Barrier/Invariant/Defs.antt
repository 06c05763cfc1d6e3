-- ===== src/Fastsync/Barrier/Invariant/Defs.antt =====
-- What every reachable state of the barrier of src/fastsync/fastsync_barrier.c satisfies.
use reeact_v.Prelude.{ℕ, ◌+◌, ◌%◌, ◌^◌, ◌≤◌, ◌<◌, ◌≡◌, ◌⊎◌, arith, ltb, if◌then◌else◌, tally}
use reeact_v.Fastsync.Barrier.{
  Kind, blocking, interproc, int_max, enter, arrive, complete, store, notify, test, block,
}
use reeact_v.Fastsync.Barrier.System.{Place, outside, running, asleep, above, inc, Thread, System}

-- In the waiting loop of its call number `left`, which began in round `left`.
abbrev pub Waits : (round arrived left cur : ℕ) → Type 0
Waits round arrived left cur =
    (arrived ≡ left + 1) × (cur ≡ left % 2 ^ 32) × ((left ≡ round) ⊎ (arrived ≡ round))

-- What the place of a caller says about its counts and locals, after `round` resets.
abbrev pub AtPlace : Kind → (round weight arrived left : ℕ) → Place → Type 0
AtPlace kind round weight arrived left outside = (arrived ≡ round) × (left ≡ round)
AtPlace kind round weight arrived left (running (enter inc)) =
    (inc ≡ weight) × (arrived ≡ round) × (left ≡ round)
AtPlace kind round weight arrived left (running (arrive inc cur)) =
    (inc ≡ weight) × (cur ≡ round % 2 ^ 32) × (arrived ≡ round) × (left ≡ round)
AtPlace kind round weight arrived left (running complete) = (arrived ≡ round + 1) × (left ≡ round)
AtPlace kind round weight arrived left (running (store old)) =
    (old ≡ round % 2 ^ 32) × (arrived ≡ round + 1) × (left ≡ round)
AtPlace kind round weight arrived left (running notify) =
    (kind ≡ blocking) × (arrived ≡ round) × (left + 1 ≡ round)
AtPlace kind round weight arrived left (running (test cur)) = Waits round arrived left cur
AtPlace kind round weight arrived left (running (block cur)) =
    (kind ≡ blocking) × Waits round arrived left cur
AtPlace kind round weight arrived left (asleep (test cur)) =
    (kind ≡ blocking) × Waits round arrived left cur
AtPlace kind round weight arrived left (asleep _) = ⊥
AtPlace kind round weight arrived left (above p q) =
    (q ≡ complete) × (arrived ≡ round + 1) × (left ≡ round)

-- A caller brings a count above 0, and 1 to a barrier that blocks.
abbrev pub Local : Kind → ℕ → Thread → Type 0
Local kind round t =
    (0 < t.weight)
    × (inc kind t.weight ≡ t.weight)
    × AtPlace kind round t.weight t.arrived t.left t.place

abbrev pub brings : Thread → ℕ
brings t = t.weight

-- What a caller has added in the present round.
abbrev pub ahead : ℕ → Thread → ℕ
ahead round t = if ltb round t.arrived then t.weight else 0

pub ahead_le : (round : ℕ) (t : Thread) → ahead round t ≤ brings t
ahead_le round t = ground arith

abbrev pub dozes : Place → ℕ
dozes (asleep _) = 1
dozes _ = 0

-- The thread sleeps, and the round that it waits for is over.
abbrev pub stale : ℕ → Thread → ℕ
stale round t = if ltb round t.arrived then 0 else dozes t.place

abbrev pub closing : Place → ℕ
closing (running complete) = 1
closing (running (store _)) = 1
closing (above _ _) = 1
closing _ = 0

-- The thread arrived last, and has yet to write `reset`.
abbrev pub closes : Thread → ℕ
closes t = closing t.place

abbrev pub notifying : Place → ℕ
notifying (running notify) = 1
notifying _ = 0

-- The thread has written `reset`, and has yet to wake the others.
abbrev pub notifies : Thread → ℕ
notifies t = notifying t.place

-- How many calls of a barrier that blocks return PTHREAD_BARRIER_SERIAL_THREAD in so many rounds.
abbrev pub served : Kind → (round : ℕ) → ℕ
served blocking round = round
served interproc round = 0

pub record Inv (kind : Kind) (n total : ℕ) (s : System) : Type 0 where
  pub some_thread : 0 < n
  pub fits : total ≤ int_max
  pub count : s.bar.total_count ≡ total
  pub weighs : tally brings n s.thread ≡ total
  pub seq : s.bar.seq ≡ s.round % 2 ^ 32
  pub counted : tally (ahead s.round) n s.thread ≡ s.bar.waiting
  pub one_closes : tally closes n s.thread ≤ 1
  pub closes_full : 0 < tally closes n s.thread → s.bar.waiting ≡ total
  pub full_closes : s.bar.waiting ≡ total → 0 < tally closes n s.thread
  pub covered : 0 < tally (stale s.round) n s.thread → 0 < tally notifies n s.thread
  pub one_serial : s.serials + tally notifies n s.thread ≡ served kind s.round
  pub local : (i : ℕ) → i < n → Local kind s.round (s.thread i)
