-- ===== src/Fastsync/Cond/Pointer.antt =====
-- The binding of a condition variable to its mutex in `fastsync_cond_wait` of
-- src/fastsync/fastsync_cond.c: two reads and a compare-and-exchange, which the mutex protects.
use mathlib.Core.Path.{subst}
use reeact_v.Prelude.{ℕ, Option, none, some, ◌≡◌, ◌⊎◌, inl, sym, ap, Bool, true, arith}
use reeact_v.Fastsync.Mutex.{
  fastsync_mutex_init, fastsync_mutex_lock, fastsync_mutex_trylock, fastsync_mutex_unlock,
}
use reeact_v.Fastsync.Mutex as Mutex
use reeact_v.Fastsync.Cond.{
  Cond, Pc, Act, check, check_null, claim, choose, at_child, at_parent, after_raise, within_unlock,
  within_call, enter_unlock, go, wait_seq, wake_seq, requeue, wait_word, wake_word, access,
}
use reeact_v.Fastsync.Cond.System.{
  Waiter, relocking, unlocking, plainly, pc_of, Thread, calling, asleep_word, resume, wake, Begins,
}
use reeact_v.Fastsync.Cond.Invariant.{At, AtPlace, Bound}
use reeact_v.Fastsync.Cond.Invariant.Places.{resume_all, begins_all}
use reeact_v.Fastsync.Cond.Safety.{has_mutex}

-- Between the read that found NULL and the compare-and-exchange the pointer is NULL.
abbrev pub Free : Pc → (mutex : ℕ) → Type 0
Free check_null mutex = mutex ≡ 0
Free claim mutex = mutex ≡ 0
Free _ mutex = Unit

abbrev pub FreeAt : Thread → (mutex : ℕ) → Type 0
FreeAt (calling held p) mutex = Free p mutex
FreeAt _ mutex = Unit

choose-Free :
    (m : ℕ) (held : Bool) (cond : Cond) (parent : Option ℕ) → Free (at_child cond parent) cond.mutex
unfolding at_child
choose-Free m held cond none = tt
choose-Free m held cond (some parent) = ground arith

pub go-Free :
    (m : ℕ) (held : Bool) (p : Pc) {q : Pc} (cond : Cond) {cond' : Cond} (state : ℕ) {state' : ℕ}
    → Bound m cond
    → At m held p cond.mutex
    → Free p cond.mutex
    → access m p cond state ≡ go cond' state' q
    → Free q cond'.mutex × ((cond'.mutex ≡ cond.mutex) ⊎ (p ≡ claim))
unfolding access at_parent after_raise within_unlock within_call enter_unlock fastsync_mutex_unlock
    Mutex.access
go-Free m held check cond state bound at free e = ground arith
go-Free m held choose cond state bound at free e =
    ground (arith, choose-Free m held cond cond.parent)
go-Free m held p cond state bound at free e = ground arith

abbrev pub KernelFree : (mutex : ℕ) → Act → Type 0
KernelFree mutex (wait_seq val q) = Free q mutex
KernelFree mutex (wait_word val q) = Free q mutex
KernelFree mutex (wake_seq count q) = Free q mutex
KernelFree mutex (wake_word count q) = Free q mutex
KernelFree mutex (requeue count limit target q) = Free q mutex
KernelFree mutex _ = Unit

pub access-KernelFree :
    (m : ℕ) (held : Bool) (p : Pc) (cond : Cond) (state : ℕ) {a : Act}
    → At m held p cond.mutex
    → access m p cond state ≡ a
    → KernelFree cond.mutex a
unfolding access at_parent after_raise within_unlock within_call enter_unlock fastsync_mutex_unlock
    Mutex.access
access-KernelFree m held check cond state at e = ground arith
access-KernelFree m held p cond state at e = ground arith

pub Begins-Free : {held : Bool} {p : Pc} (mutex : ℕ) → Begins held p → Free p mutex
Begins-Free mutex = begins_all (λ p. Free p mutex) (λ p. tt) tt (λ kind. tt)

pub resume-FreeAt : (held : Bool) (p : Pc) (code mutex : ℕ) → FreeAt (resume held p code) mutex
resume-FreeAt held p code mutex = resume_all (λ t. FreeAt t mutex) tt tt held p code

pub waiter-Free : (w : Waiter) (mutex : ℕ) → Free (pc_of w) mutex
waiter-Free relocking mutex = tt
waiter-Free (unlocking cur p) mutex = tt
waiter-Free (plainly p) mutex = tt

pub wake-FreeAt : (t : Thread) (mutex : ℕ) → FreeAt t mutex → FreeAt (wake t) mutex
wake-FreeAt (asleep_word w) mutex free = waiter-Free w mutex
wake-FreeAt t mutex free = free

-- A thread that the pointer concerns has the mutex.
pub concerned :
    (m : ℕ) (t : Thread) (mutex mutex' : ℕ)
    → AtPlace m t mutex
    → (FreeAt t mutex') ⊎ (has_mutex t ≡ true)
concerned m (calling held check_null) mutex mutex' at = ground arith
concerned m (calling held claim) mutex mutex' at = ground arith
concerned m (calling held p) mutex mutex' at = inl tt
concerned m t mutex mutex' at = inl tt

pub claimer :
    (m : ℕ) (held : Bool) (p : Pc) (mutex : ℕ)
    → p ≡ claim
    → At m held p mutex
    → has_mutex (calling held p) ≡ true
claimer m held p mutex claims =
    subst (λ x. At m held x mutex → has_mutex (calling held x) ≡ true) (sym claims)
      (λ owns. ap (λ b. has_mutex (calling b claim)) owns)
