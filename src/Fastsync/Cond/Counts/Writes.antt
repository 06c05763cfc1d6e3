-- ===== src/Fastsync/Cond/Counts/Writes.antt =====
-- What one access of Fastsync/Cond/System.antt makes of the numbers that a thread has noted.
use reeact_v.Prelude.{ℕ, ◌+◌, ◌≤◌, ◌≡◌, ◌⊎◌, refl, ap, true, false, arith}
use reeact_v.Fastsync.Cond.{Pc, load, note, store}
use reeact_v.Fastsync.Cond.System.{Thread, calling, at, raises, value_after, notes}
use reeact_v.Fastsync.Cond.Invariant.{AtPlace}
use reeact_v.Fastsync.Cond.Safety.{has_mutex}
use reeact_v.Fastsync.Cond.Counts.{awaits, stores, storing, Behind}

pub storing_owns :
    (m : ℕ) (t : Thread) (mutex : ℕ) → AtPlace m t mutex → storing t ≡ true → has_mutex t ≡ true
storing_owns m (calling held (store old)) mutex at w = ap (λ b. has_mutex (calling b load)) at.0
storing_owns m t mutex at w = cc

pub notes_awaits : (p : Pc) (now before : ℕ) → awaits p ≡ true → notes p now before ≡ before
notes_awaits note now before w = cc
notes_awaits load now before w = cc
notes_awaits p now before w = refl

-- The thread that makes the access, where it waits behind it.
pub self-Behind :
    (p : Pc) (value raised noted seen : ℕ)
    → (p ≡ note) ⊎ ((awaits p ≡ true) × Behind value raised noted seen)
    → Behind
        (value_after p value noted)
        (raised + raises p)
        (notes p value noted)
        (notes p raised seen)
self-Behind note value raised noted seen h = (omega arith, omega arith, λ lt. omega arith)
self-Behind p value raised noted seen h = ground arith

pub value_up : (p : Pc) (value noted : ℕ) → stores p ≡ false → value ≤ value_after p value noted
value_up (Pc.raise k) value noted w = omega arith
value_up (store old) value noted w = cc
value_up p value noted w = omega arith

pub not_both : (q : Pc) → stores q ≡ true → awaits q ≡ true → ⊥
not_both (store old) w w' = cc
not_both q w w' = cc
