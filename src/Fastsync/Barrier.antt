-- ===== src/Fastsync/Barrier.antt =====
-- src/fastsync/fastsync_barrier.c and the barrier of src/fastsync/fastsync.h, as it is built with
-- _FUTEX_BARRIER_: `fastsync_barrier_init`, `fastsync_barrier_wait` and
-- `fastsynt_barrier_wait_interproc`, one shared access at a time.
pub mod System
pub mod Invariant
pub mod Safety
pub mod Tree
mod Examples
use reeact_v.Prelude.{
  ℕ, ◌+◌, ◌-◌, ◌/◌, ◌%◌, ◌^◌, Bool, true, false, Option, none, some, ◌==◌, ltb, if◌then◌else◌,
}
use reeact_v.Fastsync.Atomic.{atomic_addf}

-- `fastsync_barrier`, without its padding. A pointer is a number.
pub record Bar : Type 0 where
  pub seq : ℕ  -- unsigned int
  pub waiting : ℕ  -- unsigned int
  pub total_count : ℕ  -- unsigned int
  pub parent_bar : Option ℕ

-- The 64-bit write to `reset`: on a little-endian machine its low half is `seq`, its high half
-- `waiting`.
unfoldable pub write_reset : ℕ → Bar → Bar
write_reset v bar = record bar { seq = v % 2 ^ 32; waiting = v / 2 ^ 32 % 2 ^ 32 }

-- The value that the call returns, and the barrier that it leaves, if the pointer is not NULL.
unfoldable pub fastsync_barrier_init : (null : Bool) → Bar → (count : ℕ) → ℕ × Bar
unfolding write_reset
fastsync_barrier_init null bar count =
    if null
    then (1, bar)
    else (0, record (write_reset 0 (record bar { total_count = count })) { parent_bar = none })

-- Leaves the barrier as it is.
unfoldable pub fastsync_barrier_destroy : Bar → ℕ × Bar
fastsync_barrier_destroy bar = (0, bar)

-- PTHREAD_BARRIER_SERIAL_THREAD, -1, as the pattern of an int
abbrev pub serial_thread : ℕ
serial_thread = 2 ^ 32 - 1

abbrev pub int_max : ℕ
int_max = 2 ^ 31 - 1

-- `fastsync_barrier_wait`, and `fastsynt_barrier_wait_interproc`
pub data Kind : Type 0 where
  blocking : Kind
  interproc : Kind

-- Where a call stands: before the access that is named, with the locals that are live there.
pub data Pc : Type 0 where
  enter : (inc : ℕ) → Pc  -- `cur_seq = atomic_read(barrier->seq)`
  arrive : (inc cur : ℕ) → Pc  -- `count = atomic_addf(&(barrier->waiting), inc)`
  complete : Pc  -- the read of `barrier->seq` in `barrier->seq + 1`
  store : (old : ℕ) → Pc  -- the write to `barrier->reset`
  notify : Pc  -- FUTEX_WAKE_PRIVATE
  test : (cur : ℕ) → Pc  -- `cur_seq == atomic_read(barrier->seq)`
  block : (cur : ℕ) → Pc  -- FUTEX_WAIT_PRIVATE

-- What one access does: go on, return, wait at the parent barrier first, or enter the kernel.
pub data Act : Type 0 where
  go : Bar → Pc → Act
  ret : Bar → (code : ℕ) → Act
  call_parent : Bar → (parent inc : ℕ) → Pc → Act
  futex_wait : (val : ℕ) → Pc → Act
  futex_wake : (count code : ℕ) → Act

-- The value of `ret_val` where the code falls off its two branches.
abbrev pub unreachable_code : Kind → ℕ
unreachable_code blocking = 1
unreachable_code interproc = 0

-- `if (barrier->parent_bar) fastsynt_barrier_wait_interproc(barrier->parent_bar, count)`
unfoldable pub at_parent : Bar → (count : ℕ) → Option ℕ → Act
at_parent bar count none = go bar complete
at_parent bar count (some parent) = call_parent bar parent count complete

-- behind the write to `reset`
unfoldable pub after_reset : Kind → Bar → Act
after_reset blocking bar = if ltb 1 bar.total_count then go bar notify else ret bar serial_thread
after_reset interproc bar = ret bar 0

-- the body of the waiting loop, after a test that found the old sequence number
unfoldable pub wait_body : Kind → (cur : ℕ) → Pc
wait_body blocking cur = block cur
wait_body interproc cur = test cur

unfoldable pub access : Kind → Pc → Bar → Act
unfolding atomic_addf at_parent after_reset wait_body
access kind (enter inc) bar = go bar (arrive inc bar.seq)
access kind (arrive inc cur) bar =
    let (count, new) = atomic_addf inc bar.waiting in
    let bar' : Bar = record bar { waiting = new } in
    if count == bar.total_count
    then at_parent bar' count bar.parent_bar
    else if ltb count bar.total_count
    then go bar' (test cur)
    else ret bar' (unreachable_code kind)
access kind complete bar = go bar (store bar.seq)
access kind (store old) bar = after_reset kind (write_reset ((old + 1) % 2 ^ 32) bar)
access kind notify bar = futex_wake int_max serial_thread
access kind (test cur) bar = if cur == bar.seq then go bar (wait_body kind cur) else ret bar 0
access kind (block cur) bar = futex_wait cur (test cur)
