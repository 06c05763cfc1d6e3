-- ===== src/Fastsync/Cond/Sight/Sets.antt =====
-- Sets of threads that FUTEX_WAKE and FUTEX_REQUEUE change, for the condition variable and for the
-- mutex.
use mathlib.Core.Path.{fun_ext}
use reeact_v.Prelude.{
  ℕ, ◌≡◌, inl, inr, refl, sym, ap, ◌∙◌, Bool, true, false, arith, if◌then◌else◌, Bool-cases, ltb,
  ◌&&◌,
}
use reeact_v.Fastsync.Mutex as Mutex
use reeact_v.Fastsync.Mutex.System as Lock
use reeact_v.Fastsync.Cond.{Pc, Kind, raise, relock}
use reeact_v.Fastsync.Cond.System.{
  Waiter, relocking, unlocking, plainly, pc_of, Thread, calling, asleep_word, leave, is_asleep_seq,
  all_sleepers, word_sleepers, wake, rouse_word, move_seq,
}
use reeact_v.Fastsync.Cond.Sight.{to_lock}
use reeact_v.Fastsync.Cond.Sight.Access.{leave_lem}
use reeact_v.Fastsync.Cond.Moves.{dormant_lem, asleep_lem, wake_lem, if_ap}

pub sleeping_not_calling :
    (n : ℕ) (thread : ℕ → Thread) (i : ℕ) {held : Bool} {p : Pc}
    → thread i ≡ calling held p
    → all_sleepers n thread i ≡ false
sleeping_not_calling n thread i e = ground (arith, ap is_asleep_seq e)

pub signalled :
    (held : Bool) (p : Pc) (kind : Kind)
    → raise kind ≡ p
    → to_lock (leave held) ≡ to_lock (calling held p)
signalled held p kind e = sym (leave_lem held) ∙ ap (λ x. to_lock (calling held x)) e

-- Where a sleeper on the word stands in the mutex.
pub waiter_pc :
    (w : Waiter)
    → (q : Mutex.Pc) × (to_lock (asleep_word w) ≡ Lock.asleep q)
      × (to_lock (calling true (pc_of w)) ≡ Lock.running q)
waiter_pc relocking = (Mutex.contend, refl, refl)
waiter_pc (unlocking cur p) = (p, refl, refl)
waiter_pc (plainly p) = (p, refl, refl)

pub waiter_asleep :
    (w : Waiter) (held : Bool) (q : Mutex.Pc)
    → to_lock (calling held (pc_of w)) ≡ Lock.running q
    → to_lock (asleep_word w) ≡ Lock.asleep q
waiter_asleep relocking held q e = cc
waiter_asleep (unlocking cur p) held q e = cc
waiter_asleep (plainly p) held q e = cc

pub rouse_lem :
    (woken : ℕ → Bool) (thread : ℕ → Thread) (j : ℕ)
    → Lock.rouse woken (λ j. to_lock (thread j)) j ≡ to_lock (rouse_word woken thread j)
rouse_lem woken thread j =
    ap (λ t. if woken j then t else to_lock (thread j)) (wake_lem (thread j))
    ∙ if_ap to_lock (woken j) (wake (thread j)) (thread j)

pub move_lem :
    (woken moved : ℕ → Bool) (thread : ℕ → Thread) (j : ℕ)
    → Lock.requeue woken moved (λ j. to_lock (thread j)) j ≡ to_lock (move_seq woken moved thread j)
move_lem woken moved thread j =
    ap (λ t. if woken j then Lock.running Mutex.contend else t)
      (if_ap to_lock (moved j) (asleep_word relocking) (thread j))
    ∙ if_ap to_lock (woken j) (calling true relock)
        (if moved j then asleep_word relocking else thread j)

pub sleepers_lem :
    (n : ℕ) (thread : ℕ → Thread)
    → word_sleepers n thread ≡ Lock.sleepers n (λ j. to_lock (thread j))
sleepers_lem n thread = fun_ext (λ j. ap (λ b. ltb j n && b) (asleep_lem (thread j)))

pub dormants_lem :
    (n : ℕ) (thread : ℕ → Thread)
    → all_sleepers n thread ≡ Lock.dormants n (λ j. to_lock (thread j))
dormants_lem n thread = fun_ext (λ j. ap (λ b. ltb j n && b) (dormant_lem (thread j)))

pub unwoken :
    (n : ℕ) (thread : ℕ → Thread) (woken : ℕ → Bool) (i : ℕ) {held : Bool} {p : Pc}
    → ((j : ℕ) → woken j ≡ true → all_sleepers n thread j ≡ true)
    → thread i ≡ calling held p
    → woken i ≡ false
unwoken n thread woken i asleep at = elim (Bool-cases (woken i)) [
  | inl w ↦ cc (asleep i w, sleeping_not_calling n thread i at)
  | inr w ↦ w
]
