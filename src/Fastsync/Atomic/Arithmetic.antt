-- ===== src/Fastsync/Atomic/Arithmetic.antt =====
-- The arithmetic of the atomic macros of src/fastsync/fastsync.h.
use reeact_v.Prelude.{ℕ, ◌^◌, ◌<◌, ◌≡◌, ◌↔◌, refl, arith}
use reeact_v.Fastsync.Atomic.{
  atomic_addf, atomic_fadd, atomic_subf, atomic_fsub, atomic_cmpxchg, atomic_bool_cmpxchg,
}

-- Adding and subtracting a word undo each other, the forms that return the old value leave the same
-- word as those that return the new one, and each result is a word.
add_sub_lem :
    (v x : ℕ)
    → v < 2 ^ 32
    → x < 2 ^ 32
    → ((atomic_subf v (atomic_addf v x).1).1 ≡ x)
      × ((atomic_addf v (atomic_subf v x).1).1 ≡ x)
      × ((atomic_fsub v (atomic_fadd v x).1).1 ≡ x)
      × ((atomic_fadd v x).0 ≡ (atomic_subf v (atomic_addf v x).1).0)
      × ((atomic_addf v x).1 < 2 ^ 32)
      × ((atomic_subf v x).1 < 2 ^ 32)
unfolding atomic_addf atomic_fadd atomic_subf atomic_fsub
add_sub_lem v x lt_v lt_x =
    (omega arith, omega arith, omega arith, omega arith, omega arith, omega arith)

-- Both forms of the compare and exchange leave the same word, and tell alike whether they have
-- exchanged.
cmpxchg_lem :
    (old new x : ℕ)
    → ((atomic_bool_cmpxchg old new x).1 ≡ (atomic_cmpxchg old new x).1)
      × (((atomic_bool_cmpxchg old new x).0 ≡ 1) ↔ ((atomic_cmpxchg old new x).0 ≡ old))
unfolding atomic_cmpxchg atomic_bool_cmpxchg
cmpxchg_lem old new x = (refl, ground arith)
