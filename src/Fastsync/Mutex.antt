-- ===== src/Fastsync/Mutex.antt =====
-- src/fastsync/fastsync_mutex.c: `fastsync_mutex_init`, `_lock`, `_trylock` and `_unlock`, one
-- shared access at a time. `int state` is the word of the mutex, a native number.
pub mod System
pub mod Invariant
pub mod Safety
pub mod Solo
mod Examples
use reeact_v.Prelude.{ℕ, zero, suc, ◌+◌, bit_and, Bool, true, false, ◌≡◌, ◌==◌, ltb, if◌then◌else◌}
use reeact_v.Fastsync.Atomic.{atomic_for, atomic_fand, atomic_xchg, atomic_cmpxchg}

-- FASTSYNC_MUTEX_SPIN_LOCK_LOOPS
abbrev pub spin_lock_loops : ℕ
spin_lock_loops = 1

-- EBUSY of errno.h
abbrev pub ebusy : ℕ
ebusy = 16

-- Where a call stands: before the access that is named, with the loop counter where it is live.
pub data Pc : Type 0 where
  spin : (i : ℕ) → Pc  -- lock: head of the `for`, then `atomic_for`
  contend : Pc  -- lock: `atomic_xchg` in the test of the `while`
  suspend : Pc  -- lock: FUTEX_WAIT_PRIVATE in the body of the `while`
  attempt : Pc  -- trylock: `atomic_for`
  inspect : Pc  -- unlock: the read in `mutex->state == 1`
  surrender : Pc  -- unlock: `atomic_cmpxchg`
  release : Pc  -- unlock: `atomic_fand` with 0xFFFFFFFE
  watch : (i : ℕ) → Pc  -- unlock: head of the `for`, then the read in `mutex->state & 1`
  reset : Pc  -- unlock: `atomic_fand` with 0xFFFFFFFD
  notify : Pc  -- unlock: FUTEX_WAKE_PRIVATE

-- What one access does: go on, return, or enter the kernel.
pub data Act : Type 0 where
  go : (state : ℕ) → Pc → Act
  ret : (state code : ℕ) → Act
  futex_wait : (val : ℕ) → Pc → Act  -- and go on there when the call returns
  futex_wake : (count code : ℕ) → Act  -- and return the code

-- The entry of a call on a mutex at a pointer, `none` for NULL: a return at once, or the place of
-- the first access.
pub data Entry : Type 0 where
  returns : (code : ℕ) → Entry
  starts : Pc → Entry

-- The value that `fastsync_mutex_init` returns and the state that it leaves, if any.
unfoldable pub fastsync_mutex_init : (null : Bool) (state : ℕ) → ℕ × ℕ
fastsync_mutex_init null state = if null then (1, state) else (0, 0)

unfoldable pub fastsync_mutex_lock : (null : Bool) → Entry
fastsync_mutex_lock null = if null then returns 1 else starts (spin 0)

unfoldable pub fastsync_mutex_trylock : (null : Bool) → Entry
fastsync_mutex_trylock null = if null then returns 1 else starts attempt

unfoldable pub fastsync_mutex_unlock : (null : Bool) → Entry
fastsync_mutex_unlock null = if null then returns 1 else starts inspect

-- `for (i = 0; i < FASTSYNC_MUTEX_SPIN_LOCK_LOOPS; i++)` of lock, at its head or behind it
unfoldable pub spin_head : ℕ → Pc
spin_head i = if ltb i spin_lock_loops then spin i else contend

-- the same loop of unlock
unfoldable pub watch_head : ℕ → Pc
watch_head i = if ltb i spin_lock_loops then watch i else reset

unfoldable pub access : Pc → ℕ → Act
unfolding spin_head watch_head atomic_for atomic_fand atomic_xchg atomic_cmpxchg
access (spin i) state =
    let (old, new) = atomic_for 1 state in
    if bit_and old 1 == 0 then ret new 0 else go new (spin_head (i + 1))
access contend state =
    let (old, new) = atomic_xchg 3 state in if bit_and old 1 == 0 then ret new 0 else go new suspend
access suspend state = futex_wait 3 contend
access attempt state =
    let (old, new) = atomic_for 1 state in if bit_and old 1 == 0 then ret new 0 else ret new ebusy
access inspect state = if state == 1 then go state surrender else go state release
access surrender state =
    let (old, new) = atomic_cmpxchg 1 0 state in if old == 1 then ret new 0 else go new release
access release state = let (old, new) = atomic_fand 0xffff_fffe state in go new (watch_head 0)
access (watch i) state = if bit_and state 1 == 0 then go state (watch_head (i + 1)) else ret state 0
access reset state = let (old, new) = atomic_fand 0xffff_fffd state in go new notify
access notify state = futex_wake 1 0
