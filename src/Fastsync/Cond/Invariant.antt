-- ===== src/Fastsync/Cond/Invariant.antt =====
-- What holds of the threads of Fastsync/Cond/System.antt in every reachable state, thread by thread.
pub mod Places
pub mod Spots
use reeact_v.Prelude.{
  ℕ, ◌≡◌, ◌⊎◌, inl, inr, refl, Bool, true, false, none, some, Option, List, [], ◌∷◌, arith,
}
use reeact_v.Fastsync.Mutex.{fastsync_mutex_unlock}
use reeact_v.Fastsync.Mutex as Mutex
use reeact_v.Fastsync.Cond.{
  Cond, Pc, Act, check, check_null, claim, choose, descend, load, store, move, clear, note, unlock,
  await, relock, suspend, shift, at_child, at_parent, after_raise, within_unlock, within_call,
  enter_unlock, go, ret, wait_seq, wake_seq, requeue, wait_word, wake_word, call_parent, access,
}
use reeact_v.Fastsync.Cond.System.{
  relocking, unlocking, pc_of, Thread, calling, asleep_seq, asleep_word,
}
use reeact_v.Fastsync.Cond.Sight.{in_unlock, sane}

-- A thread in a call, with the pointer `mutex` of the object that the call is at.
abbrev pub At : (m : ℕ) (held : Bool) → Pc → (mutex : ℕ) → Type 0
At m held check mutex = held ≡ true
At m held check_null mutex = held ≡ true
At m held claim mutex = held ≡ true
At m held choose mutex = (held ≡ true) × (mutex ≡ m)
At m held descend mutex = (held ≡ true) × (mutex ≡ m)
At m held load mutex = (held ≡ true) × (mutex ≡ m)
At m held (store old) mutex = (held ≡ true) × (mutex ≡ m)
At m held move mutex = (held ≡ true) × (mutex ≡ m)
At m held clear mutex = (held ≡ true) × (mutex ≡ m)
At m held note mutex = (held ≡ true) × (mutex ≡ m)
At m held (unlock cur p) mutex = (held ≡ true) × (mutex ≡ m) × (in_unlock p ≡ true)
At m held (await cur) mutex = (held ≡ true) × (mutex ≡ m)
At m held relock mutex = (held ≡ true) × (mutex ≡ m)
At m held suspend mutex = (held ≡ true) × (mutex ≡ m)
At m held shift mutex = mutex ≡ m
At m held _ mutex = Unit

abbrev pub AtPlace : (m : ℕ) → Thread → (mutex : ℕ) → Type 0
AtPlace m (calling held p) mutex = At m held p mutex
AtPlace m asleep_seq mutex = mutex ≡ m
AtPlace m (asleep_word w) mutex = At m true (pc_of w) mutex
AtPlace m _ mutex = Unit

-- A thread in a wait, which may have been called by a wait at a child.
abbrev pub in_wait : Pc → Bool
in_wait check = true
in_wait check_null = true
in_wait claim = true
in_wait choose = true
in_wait descend = true
in_wait load = true
in_wait (store _) = true
in_wait move = true
in_wait clear = true
in_wait note = true
in_wait (unlock _ _) = true
in_wait (await _) = true
in_wait relock = true
in_wait suspend = true
in_wait _ = false

abbrev pub waits : Thread → Bool
waits (calling held p) = in_wait p
waits asleep_seq = true
waits (asleep_word w) = in_wait (pc_of w)
waits _ = false

abbrev pub Stacked : Thread → List ℕ → Type 0
Stacked t frames = (frames ≡ []) ⊎ (waits t ≡ true)

-- An object is bound to the mutex or to none.
abbrev pub Bound : (m : ℕ) → Cond → Type 0
Bound m cond = (cond.mutex ≡ 0) ⊎ (cond.mutex ≡ m)

-- Where an access goes on.
pub record Onward (m : ℕ) (held : Bool) (p q : Pc) (mutex : ℕ) (cond : Cond) : Type 0 where
  pub bound : Bound m cond
  pub bound_once : (cond.mutex ≡ mutex) ⊎ (cond.mutex ≡ m)
  pub at : At m held q cond.mutex
  pub stays : in_wait q ≡ in_wait p

choose-Onward :
    (m : ℕ) (held : Bool) (cond : Cond) (parent : Option ℕ)
    → Bound m cond
    → At m held choose cond.mutex
    → Onward m held choose (at_child cond parent) cond.mutex cond
unfolding at_child
choose-Onward m held cond none bound at = ground arith
choose-Onward m held cond (some parent) bound at = ground arith

pub go-Onward :
    (m : ℕ) (held : Bool) (p : Pc) {q : Pc} (cond : Cond) {cond' : Cond} (state : ℕ) {state' : ℕ}
    → Bound m cond
    → At m held p cond.mutex
    → access m p cond state ≡ go cond' state' q
    → Onward m held p q cond.mutex cond'
unfolding access at_parent after_raise within_unlock within_call enter_unlock fastsync_mutex_unlock
    Mutex.access
go-Onward m held check cond state bound at e = ground arith
go-Onward m held choose cond state bound at e =
    ground (arith, choose-Onward m held cond cond.parent bound at)
go-Onward m held p cond state bound at e = ground arith

pub return-Bound :
    (m : ℕ) (held : Bool) (p : Pc) (cond : Cond) {cond' : Cond} (state : ℕ) {state' code : ℕ}
    → Bound m cond
    → At m held p cond.mutex
    → access m p cond state ≡ ret cond' state' code
    → cond'.mutex ≡ cond.mutex
unfolding access at_parent after_raise within_unlock within_call enter_unlock fastsync_mutex_unlock
    Mutex.access
return-Bound m held check cond state bound at e = ground arith
return-Bound m held p cond state bound at e = ground arith

-- A wait calls the wait at the parent behind its choice only.
pub call-At :
    (m : ℕ) (held : Bool) (p : Pc) {q : Pc} (cond : Cond) {cond' : Cond} (state : ℕ) {parent : ℕ}
    → At m held p cond.mutex
    → access m p cond state ≡ call_parent cond' parent q
    → (p ≡ descend) × (held ≡ true) × (cond.mutex ≡ m) × (cond' ≡ record cond { use_child = 1 })
unfolding access at_parent after_raise within_unlock within_call enter_unlock fastsync_mutex_unlock
    Mutex.access
call-At m held check cond state at e = ground arith
call-At m held p cond state at e = ground arith

-- What a call of the kernel is for, and where it goes on.
abbrev pub KernelAt : (m : ℕ) (held : Bool) (p : Pc) (mutex : ℕ) → Act → Type 0
KernelAt m held p mutex (wait_seq val q) =
    (p ≡ await val) × (q ≡ relock) × (held ≡ true) × (mutex ≡ m)
KernelAt m held p mutex (wait_word val q) = At m held q mutex × (in_wait q ≡ in_wait p)
KernelAt m held p mutex (wake_seq count q) = At m held q mutex × (in_wait q ≡ in_wait p)
KernelAt m held p mutex (wake_word count q) = At m held q mutex × (in_wait q ≡ in_wait p)
KernelAt m held p mutex (requeue count limit target q) =
    (target ≡ m) × At m held q mutex × (in_wait q ≡ in_wait p)
KernelAt m held p mutex _ = Unit

pub access-KernelAt :
    (m : ℕ) (held : Bool) (p : Pc) (cond : Cond) (state : ℕ) {a : Act}
    → At m held p cond.mutex
    → access m p cond state ≡ a
    → KernelAt m held p cond.mutex a
unfolding access at_parent after_raise within_unlock within_call enter_unlock fastsync_mutex_unlock
    Mutex.access
access-KernelAt m held check cond state at e = ground arith
access-KernelAt m held p cond state at e = ground arith

pub AtPlace-sane : (m : ℕ) (t : Thread) (mutex : ℕ) → AtPlace m t mutex → sane t ≡ true
AtPlace-sane m (calling held check) mutex at = ground arith
AtPlace-sane m (calling held p) mutex at = ground arith
AtPlace-sane m (asleep_word (unlocking cur p)) mutex at = ground arith
AtPlace-sane m t mutex at = refl

pub in_wait-held :
    (m : ℕ) (held : Bool) (p : Pc) (mutex : ℕ) → At m held p mutex → in_wait p ≡ true → held ≡ true
in_wait-held m held check mutex at w = at
in_wait-held m held check_null mutex at w = at
in_wait-held m held claim mutex at w = at
in_wait-held m held p mutex at w = ground arith
