-- ===== src/Fastsync/Cond/Sight/Access.antt =====
-- What each access of src/fastsync/fastsync_cond.c is for the mutex.
use mathlib.Core.Path.{subst}
use reeact_v.Prelude.{
  ℕ, zero, Option, ◌≡◌, refl, sym, ap, Bool, true, false, none, some, arith, if◌then◌else◌, bit_and,
  ◌⊎◌, ◌&&◌, ◌==◌, Bool-cases, inl, inr,
}
use reeact_v.Fastsync.Mutex.{fastsync_mutex_unlock}
use reeact_v.Fastsync.Mutex as Mutex
use reeact_v.Fastsync.Mutex.System as Lock
use reeact_v.Fastsync.Cond.{
  Cond, Pc, Act, check, check_null, claim, choose, descend, load, store, move, clear, note, raise,
  look, shift, finish, signal, signal_count, broadcast, at_child, at_parent, after_raise,
  enter_unlock, within_unlock, within_call, relock, unlock, await, suspend, plain, answer, go, ret,
  access,
}
use reeact_v.Fastsync.Cond.System.{calling, leave, from_lock}
use reeact_v.Fastsync.Cond.Sight.{
  outside_or, to_lock, in_unlock, sane, still, advances, unlocks, returns, GoLocal,
}

if-GoLocal :
    (held : Bool) (p : Pc) (state : ℕ) (b : Bool) (x y : Act)
    → GoLocal held p state x
    → GoLocal held p state y
    → GoLocal held p state (if b then x else y)
if-GoLocal held p state true x y hx hy = hx
if-GoLocal held p state false x y hx hy = hy

pub leave_lem : (held : Bool) → outside_or held ≡ to_lock (leave held)
leave_lem true = refl
leave_lem false = refl

resume_lem :
    (p : Mutex.Pc) (code : ℕ) → Lock.resume p code ≡ to_lock (from_lock (Lock.resume p code))
resume_lem (Mutex.spin _) zero = refl
resume_lem Mutex.contend zero = refl
resume_lem Mutex.suspend zero = refl
resume_lem Mutex.attempt zero = refl
resume_lem _ _ = refl

unlock_returns : (p : Mutex.Pc) (code : ℕ) → in_unlock p ≡ true → Lock.resume p code ≡ Lock.outside
unlock_returns (Mutex.spin _) code u = cc
unlock_returns Mutex.contend code u = cc
unlock_returns Mutex.suspend code u = cc
unlock_returns Mutex.attempt code u = cc
unlock_returns _ code u = refl

pub and-right : (a b : Bool) → (a && b) ≡ true → b ≡ true
and-right true b e = e
and-right false b e = cc

-- Only unlock wakes.
waker_returns :
    (p : Mutex.Pc) (code state count : ℕ)
    → Mutex.access p state ≡ Mutex.Act.futex_wake count code
    → Lock.resume p code ≡ Lock.outside
unfolding Mutex.access
waker_returns (Mutex.spin i) code state count e = ground arith
waker_returns Mutex.contend code state count e = ground arith
waker_returns Mutex.suspend code state count e = cc
waker_returns Mutex.attempt code state count e = ground arith
waker_returns p code state count e = refl

unlock-GoLocal :
    (held : Bool) (cur : ℕ) (p : Mutex.Pc) (cond : Cond) (state : ℕ) (a : Mutex.Act)
    → Mutex.access p state ≡ a
    → in_unlock p ≡ true
    → GoLocal held (unlock cur p) state (within_unlock cur cond a)
unfolding within_unlock
unlock-GoLocal held cur p cond state (Mutex.Act.go state' q) e u = advances p q refl e refl
unlock-GoLocal held cur p cond state (Mutex.Act.ret state' code) e u =
    returns p code refl e (sym (unlock_returns p code u))
unlock-GoLocal held cur p cond state (Mutex.Act.futex_wait val q) e u = (p, q, refl, e, refl)
unlock-GoLocal held cur p cond state (Mutex.Act.futex_wake count code) e u =
    (p, code, refl, e, sym (unlock_returns p code u))

call-GoLocal :
    (held : Bool) (p : Mutex.Pc) (cond : Cond) (state : ℕ) (a : Mutex.Act)
    → Mutex.access p state ≡ a
    → GoLocal held (plain p) state (within_call cond a)
unfolding within_call
call-GoLocal held p cond state (Mutex.Act.go state' q) e = advances p q refl e refl
call-GoLocal held p cond state (Mutex.Act.ret state' code) e =
    returns p code refl e (sym (resume_lem p code))
call-GoLocal held p cond state (Mutex.Act.futex_wait val q) e = (p, q, refl, e, refl)
call-GoLocal held p cond state (Mutex.Act.futex_wake count code) e =
    (p, code, refl, e, sym (waker_returns p code state count e))

pub access-GoLocal :
    (m : ℕ) (held : Bool) (p : Pc) (cond : Cond) (state : ℕ)
    → sane (calling held p) ≡ true
    → GoLocal held p state (access m p cond state)
unfolding access at_child at_parent after_raise enter_unlock fastsync_mutex_unlock Mutex.access
access-GoLocal m held check cond state ok =
    if-GoLocal held check state (cond.mutex == m) _ _ (still refl refl) (still refl refl)
access-GoLocal m held check_null cond state ok =
    if-GoLocal held check_null state (cond.mutex == 0) _ _ (still refl refl)
      (still refl (leave_lem held))
access-GoLocal m held claim cond state ok =
    if-GoLocal held claim state (cond.mutex == 0) _ _ (still refl refl)
      (still refl (leave_lem held))
access-GoLocal m held choose cond state ok = chosen cond.parent
  where
    chosen : (o : Option ℕ) → GoLocal held choose state (go cond state (at_child cond o))
    chosen none = still refl refl
    chosen (some parent) = either (cond.use_child == 0)
      where
        either :
            (b : Bool) → GoLocal held choose state (go cond state (if b then descend else note))
        either true = still refl refl
        either false = still refl refl
access-GoLocal m held descend cond state ok = climbed cond.parent
  where
    climbed :
        (o : Option ℕ)
        → GoLocal held descend state (at_parent (record cond { use_child = 1 }) o state)
    climbed none = still refl refl
    climbed (some parent) = refl
access-GoLocal m held load cond state ok = still refl refl
access-GoLocal m held (store old) cond state ok = still refl refl
access-GoLocal m held move cond state ok = (refl, refl)
access-GoLocal m held clear cond state ok = still refl (leave_lem held)
access-GoLocal m held note cond state ok = unlocks Mutex.inspect refl (ap outside_or ok) refl refl
access-GoLocal m held (unlock cur p) cond state ok =
    unlock-GoLocal held cur p cond state (Mutex.access p state) refl
      (and-right held (in_unlock p) ok)
access-GoLocal m held (await cur) cond state ok = (refl, refl)
access-GoLocal m held relock cond state ok = contended (Bool-cases (bit_and state 1 == 0))
  where
    contended :
        ((bit_and state 1 == 0) ≡ true) ⊎ ((bit_and state 1 == 0) ≡ false)
        → GoLocal held relock state
            (if bit_and state 1 == 0 then ret cond 3 0 else go cond 3 suspend)
    contended (inl e) =
        subst (λ b. GoLocal held relock state (if b then ret cond 3 0 else go cond 3 suspend))
          (sym e)
          (returns Mutex.contend 0 refl
            (ap (λ b. if b then Mutex.Act.ret 3 0 else Mutex.Act.go 3 Mutex.suspend) e)
            (ap (λ h. to_lock (leave h)) ok))
    contended (inr e) =
        subst (λ b. GoLocal held relock state (if b then ret cond 3 0 else go cond 3 suspend))
          (sym e)
          (advances Mutex.contend Mutex.suspend refl
            (ap (λ b. if b then Mutex.Act.ret 3 0 else Mutex.Act.go 3 Mutex.suspend) e) refl)
access-GoLocal m held suspend cond state ok = (Mutex.suspend, Mutex.contend, refl, refl, refl)
access-GoLocal m held (raise signal) cond state ok = still refl refl
access-GoLocal m held (raise signal_count) cond state ok = still refl refl
access-GoLocal m held (raise broadcast) cond state ok = still refl refl
access-GoLocal m held (Pc.wake kind) cond state ok = refl
access-GoLocal m held look cond state ok =
    if-GoLocal held look state (cond.mutex == 0) _ _ (still refl (leave_lem held)) (still refl refl)
access-GoLocal m held shift cond state ok = (refl, refl)
access-GoLocal m held finish cond state ok = still refl (leave_lem held)
access-GoLocal m held (plain p) cond state ok =
    call-GoLocal held p cond state (Mutex.access p state) refl
access-GoLocal m held (answer code) cond state ok = still refl refl
