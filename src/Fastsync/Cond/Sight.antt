-- ===== src/Fastsync/Cond/Sight.antt =====
-- The threads of Fastsync/Cond/System.antt, seen as users of the mutex alone.
pub mod Access
pub mod Sets
use mathlib.Core.Path.{subst}
use reeact_v.Prelude.{
  ℕ, zero, Option, ◌≡◌, refl, sym, ap, Bool, true, false, none, some, arith, if◌then◌else◌, bit_and,
  ◌⊎◌, ◌&&◌, ◌==◌, Bool-cases, inl, inr,
}
use reeact_v.Fastsync.Mutex.{fastsync_mutex_unlock}
use reeact_v.Fastsync.Mutex as Mutex
use reeact_v.Fastsync.Mutex.System as Lock
use reeact_v.Fastsync.Cond.{
  Cond, Pc, Act, check, check_null, claim, choose, descend, load, store, move, clear, note, raise,
  look, shift, finish, signal, signal_count, broadcast, at_child, at_parent, after_raise,
  enter_unlock, within_unlock, within_call, relock, unlock, await, suspend, plain, answer, go, ret,
  wait_seq, wake_seq, requeue, wait_word, wake_word, call_parent, access,
}
use reeact_v.Fastsync.Cond.System.{
  relocking, unlocking, plainly, Thread, outside, critical, calling, asleep_seq, asleep_word, leave,
  resume, from_lock, System,
}

abbrev pub outside_or : (held : Bool) → Lock.Thread
outside_or true = Lock.critical
outside_or false = Lock.outside

abbrev pub to_lock : Thread → Lock.Thread
to_lock outside = Lock.outside
to_lock critical = Lock.critical
to_lock (calling held (plain p)) = Lock.running p
to_lock (calling held (unlock cur p)) = Lock.running p
to_lock (calling held (await cur)) = Lock.outside
to_lock (calling held relock) = Lock.running Mutex.contend
to_lock (calling held suspend) = Lock.running Mutex.suspend
to_lock (calling held (answer code)) = Lock.outside
to_lock (calling held p) = outside_or held
to_lock asleep_seq = Lock.dormant
to_lock (asleep_word relocking) = Lock.asleep Mutex.contend
to_lock (asleep_word (unlocking cur p)) = Lock.asleep p
to_lock (asleep_word (plainly p)) = Lock.asleep p

-- The places of unlock, and the places of a wait that are with the mutex.
abbrev pub in_unlock : Mutex.Pc → Bool
in_unlock (Mutex.spin _) = false
in_unlock Mutex.contend = false
in_unlock Mutex.suspend = false
in_unlock Mutex.attempt = false
in_unlock _ = true

abbrev pub sane : Thread → Bool
sane (calling held (unlock cur p)) = held && in_unlock p
sane (calling held check) = held
sane (calling held check_null) = held
sane (calling held claim) = held
sane (calling held choose) = held
sane (calling held descend) = held
sane (calling held load) = held
sane (calling held (store _)) = held
sane (calling held move) = held
sane (calling held clear) = held
sane (calling held note) = held
sane (calling held (await _)) = held
sane (calling held relock) = held
sane (calling held suspend) = held
sane (asleep_word (unlocking cur p)) = in_unlock p
sane _ = true

abbrev pub project : System → Lock.System
project s = record { state = s.state; thread = λ i. to_lock (s.thread i) }

-- What an access makes of the word and of the thread that does it, for the mutex: nothing, or what
-- an access of a mutex call makes of them.
pub data Local (state : ℕ) (t : Lock.Thread) (state' : ℕ) (t' : Lock.Thread) : Type 0 where
  still : state ≡ state' → t ≡ t' → Local state t state' t'
  advances :
      (p q : Mutex.Pc)
      → t ≡ Lock.running p
      → Mutex.access p state ≡ Mutex.Act.go state' q
      → t' ≡ Lock.running q
      → Local state t state' t'
  unlocks :
      (p : Mutex.Pc)
      → state ≡ state'
      → t ≡ Lock.critical
      → Mutex.fastsync_mutex_unlock false ≡ Mutex.starts p
      → t' ≡ Lock.running p
      → Local state t state' t'
  returns :
      (p : Mutex.Pc) (code : ℕ)
      → t ≡ Lock.running p
      → Mutex.access p state ≡ Mutex.Act.ret state' code
      → t' ≡ Lock.resume p code
      → Local state t state' t'

abbrev pub GoLocal : Bool → Pc → ℕ → Act → Type 0
GoLocal held p state (go cond' state' q) =
    Local state (to_lock (calling held p)) state' (to_lock (calling held q))
GoLocal held p state (ret cond' state' code) =
    Local state (to_lock (calling held p)) state' (to_lock (resume held p code))
-- FUTEX_WAIT on `seq` comes after the unlock, and the mutex is taken back behind it.
GoLocal held p state (wait_seq val q) = (to_lock (calling held p) ≡ Lock.outside) × (q ≡ relock)
GoLocal held p state (wake_seq count q) = to_lock (calling held p) ≡ to_lock (calling held q)
GoLocal held p state (requeue count limit target q) =
    (count ≡ 1) × (to_lock (calling held p) ≡ to_lock (calling held q))
GoLocal held p state (wait_word val q) =
    (p' q' : Mutex.Pc) × (to_lock (calling held p) ≡ Lock.running p')
    × (Mutex.access p' state ≡ Mutex.Act.futex_wait val q')
    × (to_lock (calling held q) ≡ Lock.running q')
GoLocal held p state (wake_word count q) =
    (p' : Mutex.Pc) × (code : ℕ) × (to_lock (calling held p) ≡ Lock.running p')
    × (Mutex.access p' state ≡ Mutex.Act.futex_wake count code)
    × (to_lock (calling held q) ≡ Lock.resume p' code)
-- The wait at the parent begins as a wait does.
GoLocal held p state (call_parent cond' parent q) = to_lock (calling held p) ≡ outside_or held
