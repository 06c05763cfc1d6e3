-- ===== src/Fastsync/Cond.antt =====
-- src/fastsync/fastsync_cond.c: `fastsync_cond_init`, `_destroy`, `_wait`, `_signal`,
-- `_signal_count` and `_broadcast`, one shared access at a time.
pub mod System
pub mod Sight
pub mod Invariant
pub mod Steps
pub mod Moves
pub mod Refines
pub mod Safety
pub mod Pointer
pub mod Claim
pub mod Counts
pub mod Leaders
pub mod Orphans
pub mod Alone
pub mod Signals
mod Runs
mod Examples
use reeact_v.Prelude.{
  ℕ, ◌+◌, ◌%◌, ◌^◌, bit_and, Bool, true, false, ◌||◌, Option, none, some, ◌==◌, if◌then◌else◌,
}
use reeact_v.Fastsync.Atomic.{atomic_addf_64, atomic_xchg, atomic_cmpxchg}
use reeact_v.Fastsync.Mutex.{Entry, returns, starts, fastsync_mutex_unlock}
use reeact_v.Fastsync.Mutex as Mutex
use reeact_v.Fastsync.Barrier.{int_max}

-- `fastsync_cond`, without its padding. A pointer is a number, 0 for NULL.
pub record Cond : Type 0 where
  pub use_child : ℕ  -- int
  pub mutex : ℕ  -- fastsync_mutex *
  pub seq : ℕ  -- unsigned long long
  pub parent : Option ℕ

-- The value that the call returns and the object that it leaves, if the pointer is not NULL.
unfoldable pub fastsync_cond_init : (null : Bool) → Cond → ℕ × Cond
fastsync_cond_init null cond = if null then (1, cond) else (0, record cond { seq = 0; mutex = 0 })

unfoldable pub fastsync_cond_destroy : (null : Bool) → Cond → ℕ × Cond
fastsync_cond_destroy null cond =
    if null then (1, cond) else (0, record cond { seq = 0; mutex = 0 })

-- `fastsync_cond_signal`, `fastsync_cond_signal_count`, `fastsync_cond_broadcast`
pub data Kind : Type 0 where
  signal signal_count broadcast : Kind

-- Where a call stands: before the access that is named, with the locals that are live there.
pub data Pc : Type 0 where
  -- `fastsync_cond_wait`
  check : Pc  -- the read in `cond->mutex != mutex`
  check_null : Pc  -- the read in `cond->mutex != NULL`
  claim : Pc  -- `atomic_cmpxchg(&(cond->mutex), NULL, mutex)`
  choose : Pc  -- the reads in `!cond->use_child && cond->parent`
  descend : Pc  -- the write of 1 to `use_child`, then the wait at the parent
  load : Pc  -- the read in `cond->seq++`
  store : (old : ℕ) → Pc  -- the write in `cond->seq++`
  move : Pc  -- FUTEX_REQUEUE_PRIVATE to the mutex
  clear : Pc  -- the write of 0 to `use_child`
  note : Pc  -- `cur_seq = cond->seq`
  unlock : (cur : ℕ) → Mutex.Pc → Pc  -- within `fastsync_mutex_unlock(mutex)`
  await : (cur : ℕ) → Pc  -- FUTEX_WAIT_PRIVATE on `seq`
  relock : Pc  -- `atomic_xchg` in the test of the `while`
  suspend : Pc  -- FUTEX_WAIT_PRIVATE in the body of the `while`
  -- `fastsync_cond_signal` and the like
  raise : Kind → Pc  -- `atomic_addf(&(cond->seq), 1)`
  wake : Kind → Pc  -- FUTEX_WAKE_PRIVATE, and `*count = ` its result in `signal_count`
  look : Pc  -- the read in `if(cond->mutex)`
  shift : Pc  -- FUTEX_REQUEUE_PRIVATE to the mutex read again
  finish : Pc  -- `return 0`
  -- a call of the mutex itself
  plain : Mutex.Pc → Pc
  answer : (code : ℕ) → Pc  -- its return after FUTEX_WAKE_PRIVATE

-- What one access does: go on, return, wait at the parent first, or enter the kernel, and go on
-- there when it returns. The kernel is called on `seq`, or on the word of the mutex.
pub data Act : Type 0 where
  go : Cond → (state : ℕ) → Pc → Act
  ret : Cond → (state code : ℕ) → Act
  call_parent : Cond → (parent : ℕ) → Pc → Act
  wait_seq : (val : ℕ) → Pc → Act
  wake_seq : (count : ℕ) → Pc → Act
  requeue : (count limit target : ℕ) → Pc → Act
  wait_word : (val : ℕ) → Pc → Act
  wake_word : (count : ℕ) → Pc → Act

-- The entry of a call, `none` for a return of 1 at once.
unfoldable pub fastsync_cond_wait : (cond_null mutex_null : Bool) → Option Pc
fastsync_cond_wait cond_null mutex_null = if cond_null || mutex_null then none else some check

unfoldable pub fastsync_cond_signal : (null : Bool) → Option Pc
fastsync_cond_signal null = if null then none else some (raise signal)

-- without a test of the pointer
unfoldable pub fastsync_cond_signal_count : Pc
fastsync_cond_signal_count = raise signal_count

unfoldable pub fastsync_cond_broadcast : (null : Bool) → Option Pc
fastsync_cond_broadcast null = if null then none else some (raise broadcast)

-- `fastsync_mutex_unlock(mutex)` within the wait
unfoldable pub within_unlock : (cur : ℕ) → Cond → Mutex.Act → Act
within_unlock cur cond (Mutex.Act.go state p) = go cond state (unlock cur p)
within_unlock cur cond (Mutex.Act.ret state code) = go cond state (await cur)
within_unlock cur cond (Mutex.Act.futex_wait val p) = wait_word val (unlock cur p)
within_unlock cur cond (Mutex.Act.futex_wake count code) = wake_word count (await cur)

unfoldable pub enter_unlock : (cur : ℕ) → Entry → Pc
enter_unlock cur (returns code) = await cur
enter_unlock cur (starts p) = unlock cur p

unfoldable pub within_call : Cond → Mutex.Act → Act
within_call cond (Mutex.Act.go state p) = go cond state (plain p)
within_call cond (Mutex.Act.ret state code) = ret cond state code
within_call cond (Mutex.Act.futex_wait val p) = wait_word val (plain p)
within_call cond (Mutex.Act.futex_wake count code) = wake_word count (answer code)

-- `if(!cond->use_child && cond->parent)`
unfoldable pub at_child : Cond → Option ℕ → Pc
at_child cond none = note
at_child cond (some parent) = if cond.use_child == 0 then descend else note

unfoldable pub at_parent : Cond → Option ℕ → (state : ℕ) → Act
at_parent cond none state = go cond state load
at_parent cond (some parent) state = call_parent cond parent load

unfoldable pub after_raise : Kind → Pc
after_raise signal = wake signal
after_raise signal_count = wake signal_count
after_raise broadcast = look

-- An access of a call with the mutex at the pointer `m`, whose word is `state`.
unfoldable pub access : (m : ℕ) → Pc → Cond → (state : ℕ) → Act
unfolding within_unlock within_call enter_unlock at_child at_parent after_raise
    fastsync_mutex_unlock Mutex.access atomic_addf_64 atomic_xchg atomic_cmpxchg
access m check cond state =
    if cond.mutex == m then go cond state choose else go cond state check_null
access m check_null cond state = if cond.mutex == 0 then go cond state claim else ret cond state 2
access m claim cond state =
    let (old, new) = atomic_cmpxchg 0 m cond.mutex in
    let claimed : Cond = record cond { mutex = new } in
    if old == 0 then go claimed state choose else ret claimed state 2
access m choose cond state = go cond state (at_child cond cond.parent)
access m descend cond state =
    let marked : Cond = record cond { use_child = 1 } in at_parent marked marked.parent state
access m load cond state = go cond state (store cond.seq)
access m (store old) cond state = go (record cond { seq = (old + 1) % 2 ^ 64 }) state move
access m move cond state = requeue 1 int_max m clear
access m clear cond state = ret (record cond { use_child = 0 }) state 0
access m note cond state =
    let cur = cond.seq % 2 ^ 32 in go cond state (enter_unlock cur (fastsync_mutex_unlock false))
access m (unlock cur p) cond state = within_unlock cur cond (Mutex.access p state)
access m (await cur) cond state = wait_seq cur relock
access m relock cond state =
    let (old, new) = atomic_xchg 3 state in
    if bit_and old 1 == 0 then ret cond new 0 else go cond new suspend
access m suspend cond state = wait_word 3 relock
access m (raise kind) cond state =
    let (count, new) = atomic_addf_64 1 cond.seq in
    go (record cond { seq = new }) state (after_raise kind)
access m (wake kind) cond state = wake_seq 1 finish
access m look cond state = if cond.mutex == 0 then ret cond state 0 else go cond state shift
access m shift cond state = requeue 1 int_max cond.mutex finish
access m finish cond state = ret cond state 0
access m (plain p) cond state = within_call cond (Mutex.access p state)
access m (answer code) cond state = ret cond state code
