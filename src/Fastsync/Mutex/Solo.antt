-- ===== src/Fastsync/Mutex/Solo.antt =====
-- One call of src/fastsync/fastsync_mutex.c followed to its end, among other threads and alone.
use reeact_v.Prelude.{
  ℕ, zero, suc, ◌+◌, ◌%◌, ◌<◌, ◌≡◌, Option, none, some, arith, ◌==◌, if◌then◌else◌, refl, bit_and,
  Bool-cases, inl, inr,
}
use reeact_v.Fastsync.Mutex.{
  Pc, spin, inspect, surrender, release, watch, reset, notify, Act, go, ret, futex_wake, access,
}

-- `env t` is the word that access number `t` finds, whatever other threads have made of it. The
-- result is the access that ends the run of plain accesses, `none` if there are more than the fuel.
pub drive : ℕ → (ℕ → ℕ) → Pc → Option Act
drive zero env p = none
drive (suc fuel) env p = elim (access p (env 0)) [
  | go state q ↦ drive fuel (λ t. env (suc t)) q
  | a ↦ some a
]

-- The same with no other thread about, and the word that is left.
pub alone : ℕ → Pc → ℕ → Option (ℕ × Act)
alone zero p state = none
alone (suc fuel) p state = elim (access p state) [
  | go state' q ↦ alone fuel q state'
  | ret state' code ↦ some (state', ret state' code)
  | a ↦ some (state, a)
]

-- Returned 0, or woke one thread and then returns 0.
abbrev pub Finished : Act → Type 0
Finished (ret state code) = code ≡ 0
Finished (futex_wake count code) = (count ≡ 1) × (code ≡ 0)
Finished _ = ⊥

abbrev pub Finishes : ℕ → Pc → Type 0
Finishes fuel p = (env : ℕ → ℕ) → (a : Act) × (drive fuel env p ≡ some a) × Finished a

-- Each place of unlock, with at least as much fuel as it has accesses before it.
module _ (f : ℕ) where
  notify-Finishes : Finishes (suc f) notify
  unfolding drive access
  notify-Finishes env = (futex_wake 1 0, refl, (refl, refl))

  reset-Finishes : Finishes (suc (suc f)) reset
  unfolding drive access
  reset-Finishes env = notify-Finishes (λ t. env (suc t))

  watch-Finishes : Finishes (suc (suc (suc f))) (watch 0)
  unfolding drive access
  watch-Finishes env = elim (Bool-cases (bit_and (env 0) 1 == 0)) [
    | inl free ↦ rw (drive, free) (reset-Finishes (λ t. env (suc t)))
    | inr taken ↦ rw (drive, taken) (ret (env 0) 0, refl, refl)
  ]

  release-Finishes : Finishes (suc (suc (suc (suc f)))) release
  unfolding drive access
  release-Finishes env = watch-Finishes (λ t. env (suc t))

  surrender-Finishes : Finishes (suc (suc (suc (suc (suc f))))) surrender
  unfolding drive access
  surrender-Finishes env = elim (Bool-cases (env 0 == 1)) [
    | inl mine ↦ rw (drive, mine) (ret 0 0, refl, refl)
    | inr contended ↦ rw (drive, contended) (release-Finishes (λ t. env (suc t)))
  ]

-- Whatever words its accesses find, an unlock ends within six accesses: it returns 0, or its last
-- access wakes one sleeper and it returns 0 after that.
pub unlock_wait_free : Finishes 6 inspect
unfolding drive access
unlock_wait_free env = elim (Bool-cases (env 0 == 1)) [
  | inl one ↦ rw (drive, one) (surrender-Finishes 0 (λ t. env (suc t)))
  | inr other ↦ rw (drive, other) (release-Finishes 1 (λ t. env (suc t)))
]

-- With no other thread about, a lock of a free mutex whose word is below 4 takes it at its first
-- access and adds 1 to the word, and the unlock that follows leaves the word 0 and enters the
-- kernel exactly if the contended bit was set.
pub lock_unlock_alone :
    (state : ℕ)
    → state < 4
    → state % 2 ≡ 0
    → (alone 1 (spin 0) state ≡ some (state + 1, ret (state + 1) 0))
      × (alone 6 inspect (state + 1) ≡ some (0, if state == 0 then ret 0 0 else futex_wake 1 0))
unfolding alone access
lock_unlock_alone zero small free = (refl, refl)
lock_unlock_alone (suc zero) small free = absurd (omega arith)
lock_unlock_alone (suc (suc zero)) small free = (refl, refl)
lock_unlock_alone (suc (suc (suc state))) small free = absurd (omega arith)
