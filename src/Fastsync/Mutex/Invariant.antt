-- ===== src/Fastsync/Mutex/Invariant.antt =====
-- The invariant of the mutex of src/fastsync/fastsync_mutex.c holds in every reachable state.
mod Defs
mod Moves
mod Wake
pub use Defs.*
use Moves.{call-Inv, advance-Inv, return-Inv, sleep-Inv, wait_returns-Inv, interrupt-Inv, await-Inv}
use Wake.{wake_up-Inv, broadcast-Inv}
use reeact_v.Prelude.{ℕ, ◌≤◌, ◌≡◌, refl, arith, tally, tally-zero, ap, false}
use reeact_v.Fastsync.Futex.{Futex}
use reeact_v.Fastsync.Mutex.{
  contend, spin, attempt, inspect, fastsync_mutex_init, fastsync_mutex_lock, fastsync_mutex_trylock,
  fastsync_mutex_unlock,
}
use reeact_v.Fastsync.Mutex.System.{
  Thread, outside, System, Step, call_lock, call_trylock, call_unlock, advance, return, sleep,
  wait_returns, interrupt, wake_up, await, resume_wait, broadcast, Reach, start, later,
}

idle-zero : (w : Thread → ℕ) (n : ℕ) → w outside ≡ 0 → tally w n (λ _. outside) ≡ 0
idle-zero w n none = tally-zero w n _ (λ _ _. none)

start-Inv :
    (n old : ℕ) {state : ℕ}
    → fastsync_mutex_init false old ≡ (0, state)
    → Inv n state (λ _. outside)
unfolding fastsync_mutex_init
start-Inv n old e = record {
  small = ground arith;
  owned = omega (arith, idle-zero holds n refl, ap (λ p. p.1) e);
  settling = λ never. absurd (ground arith);
  covered = λ some_sleep. absurd (omega (arith, idle-zero dozes n refl));
  parked = λ i q never. cc;
}

-- Every step of any thread keeps the invariant.
pub Step-Inv :
    {k : Futex} {n : ℕ} {s t : System}
    → Step k n s t
    → Inv n s.state s.thread
    → Inv n t.state t.thread
unfolding fastsync_mutex_lock fastsync_mutex_trylock fastsync_mutex_unlock
Step-Inv (call_lock i {p} lt here e) inv =
    call-Inv inv i lt p here (ground arith) (ground arith) (ground arith) refl
Step-Inv (call_trylock i {p} lt here e) inv =
    call-Inv inv i lt p here (ground arith) (ground arith) (ground arith) refl
Step-Inv (call_unlock i {p} lt here e) inv =
    call-Inv inv i lt p here (ground arith) (ground arith) (ground arith) refl
Step-Inv (advance i lt here e) inv = advance-Inv inv i lt here e
Step-Inv (return i lt here e) inv = return-Inv inv i lt here e
Step-Inv {k} (sleep i lt here e asleep) inv = sleep-Inv inv i lt here e (k.sleeps_on_match asleep)
Step-Inv (wait_returns i lt here e) inv = wait_returns-Inv inv i lt here e
Step-Inv (interrupt i lt here) inv = interrupt-Inv inv i lt here
Step-Inv {k} (wake_up i lt here e wakes) inv = wake_up-Inv k inv i lt here e wakes
Step-Inv (await i lt here) inv = await-Inv inv i lt here
Step-Inv (resume_wait i lt here) inv =
    call-Inv inv i lt contend here refl (omega arith) (omega arith) refl
Step-Inv {k} (broadcast wait queued) inv = broadcast-Inv k inv wait queued

pub Reach-Inv : {k : Futex} {n : ℕ} {s : System} → Reach k n s → Inv n s.state s.thread
Reach-Inv {n} (start old e) = start-Inv n old e
Reach-Inv (later r st) = Step-Inv st (Reach-Inv r)
