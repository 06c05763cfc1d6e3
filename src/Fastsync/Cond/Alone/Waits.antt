-- ===== src/Fastsync/Cond/Alone/Waits.antt =====
-- What a call of fastsync_cond_wait of src/fastsync/fastsync_cond.c does on a path of condition
-- variables up to one without a parent: the first thread sleeps at the top, and releases the others
-- on its way back; those sleep where the path is in use.
use reeact_v.Prelude.{
  ℕ, suc, ◌+◌, ◌%◌, ◌^◌, ◌≡◌, ◌≢◌, ◌⊎◌, inl, inr, refl, ◌∙◌, Option, none, some, Bool, true, false,
  List, [], ◌∷◌, ◌==◌, if◌then◌else◌, arith, length,
}
use reeact_v.Fastsync.Barrier.{int_max}
use reeact_v.Fastsync.Mutex as Mutex
use reeact_v.Fastsync.Mutex.{fastsync_mutex_unlock}
use reeact_v.Fastsync.Cond.{
  Cond, check, choose, note, load, relock, at_child, at_parent, within_unlock, enter_unlock, access,
  fastsync_cond_wait,
}
use reeact_v.Fastsync.Cond.Alone.{
  Kernel, woke_word, moved, Frame, Scene, returns, sleeps, come_back, follow, alone,
}

same_self : (m : ℕ) → (m == m) ≡ true
same_self m = ground arith

different : {x y : ℕ} → x ≢ y → (x == y) ≡ false
different {x} {y} ne = ground arith

null_differs : {m : ℕ} → m ≢ 0 → (0 == m) ≡ false
null_differs {m} ne = ground arith

-- The word of a mutex that is held, and of one that is free.
abbrev pub held_word : (contended : Bool) → ℕ
held_word contended = if contended then 3 else 1

abbrev pub free_word : (contended : Bool) → ℕ
free_word contended = if contended then 2 else 0

abbrev pub unlock_call : (contended : Bool) → List Kernel → List Kernel
unlock_call contended calls = if contended then woke_word 1 ∷ calls else calls

-- An object that a mutex is bound to.
abbrev pub bound_at : (m use_child seq : ℕ) → Option ℕ → Cond
bound_at m use_child seq above = record {
  use_child = use_child;
  mutex = m;
  seq = seq;
  parent = above;
}

abbrev pub scene : Cond → List Cond → List Frame → (word : ℕ) → List Kernel → Scene
scene current above below word calls = record {
  current = current;
  above = above;
  below = below;
  word = word;
  calls = calls;
}

-- From the read of `seq` to the sleep there.
module _ (m : ℕ) (current : Cond) (above : List Cond) (below : List Frame)
    (calls : List Kernel) where
  pub sleep_lem :
      (contended : Bool)
      → alone m 7 note (scene current above below (held_word contended) calls)
        ≡ some (sleeps, scene current above below 0 (unlock_call contended calls))
  unfolding alone access within_unlock enter_unlock fastsync_mutex_unlock Mutex.access
  sleep_lem false = rw (same_self (current.seq % 2 ^ 32)) refl
  sleep_lem true = rw (same_self (current.seq % 2 ^ 32)) refl

-- An object below `stop`: whether no mutex is bound to it yet, its `seq`, and its pointer to the
-- parent.
pub record Level : Type 0 where
  pub fresh : Bool
  pub seq : ℕ
  pub pointer : ℕ

-- An object that is bound to the mutex at `m`, or to none yet.
abbrev pub with_mutex : (m : ℕ) (fresh : Bool) → Cond → Cond
with_mutex m fresh cond = record cond { mutex = if fresh then 0 else m }

abbrev pub bind_steps : (fresh : Bool) (rest : ℕ) → ℕ
bind_steps fresh rest = if fresh then suc (suc (suc rest)) else suc rest

-- The tests of `cond->mutex`.
bind_lem :
    (m : ℕ)
    → m ≢ 0
    → (cond : Cond) (above : List Cond) (below : List Frame) (word : ℕ) (calls : List Kernel)
      (fresh : Bool) (rest : ℕ)
    → alone m (bind_steps fresh rest) check (scene (with_mutex m fresh cond) above below word calls)
      ≡ alone m rest choose (scene (with_mutex m false cond) above below word calls)
unfolding alone access
bind_lem m ne cond above below word calls false rest = rw (same_self m) refl
bind_lem m ne cond above below word calls true rest = rw (null_differs ne) refl

-- The calls at the objects of the path, in use, with the innermost one at `stop`.
abbrev pub climbed : (m : ℕ) → List Level → List Frame → List Frame
climbed m [] below = below
climbed m (l ∷ levels) below =
    climbed m levels (record { object = bound_at m 1 l.seq (some l.pointer); next = load } ∷ below)

at_child-note :
    (cond : Cond) (parent : Option ℕ)
    → (cond.use_child ≢ 0) ⊎ (parent ≡ none)
    → at_child cond parent ≡ note
unfolding at_child
at_child-note cond none halts = refl
at_child-note cond (some p) (inl used) = rw (different used) refl
at_child-note cond (some p) (inr e) = cc e

module _ (m : ℕ) (fresh : Bool) (stop : Cond) (rest_above : List Cond) where
  abbrev pub first_object : List Level → Cond
  first_object [] = with_mutex m fresh stop
  first_object (l ∷ levels) = with_mutex m l.fresh (bound_at m 0 l.seq (some l.pointer))

  -- The objects above the lowest one, none in use below `stop`.
  abbrev pub path_above : List Level → List Cond
  path_above [] = rest_above
  path_above (l ∷ []) = first_object [] ∷ rest_above
  path_above (l ∷ k ∷ levels) = first_object (k ∷ levels) ∷ path_above (k ∷ levels)

  abbrev pub climb_steps : List Level → ℕ
  climb_steps [] = bind_steps fresh 8
  climb_steps (l ∷ levels) = bind_steps l.fresh (suc (suc (climb_steps levels)))

  -- A call of fastsync_cond_wait by itself, with the mutex held, on a path of condition variables
  -- that are not in use and have parents, up to one that is in use or has no parent, each bound to
  -- the mutex or to none yet, with the mutex not at NULL, binds all of them to the mutex, marks
  -- those below that one as in use, releases the mutex, with a FUTEX_WAKE of one thread if it is
  -- contended, and sleeps on seq of that one, within a total number of accesses that is three for
  -- each of them below it (five where no mutex is bound) plus nine for it (eleven); a path of that
  -- one alone is the wait of a thread that is not the first.
  pub path_waits :
      m ≢ 0
      → (stop.use_child ≢ 0) ⊎ (stop.parent ≡ none)
      → (levels : List Level) (contended : Bool) (below : List Frame) (calls : List Kernel)
      → alone m
          (climb_steps levels)
          check
          (scene (first_object levels) (path_above levels) below (held_word contended) calls)
        ≡ some (
          sleeps,
          scene
              (with_mutex m false stop)
              rest_above
              (climbed m levels below)
              0
              (unlock_call contended calls),
        )
  unfolding alone access at_child at_parent fastsync_cond_wait
  path_waits ne halts [] contended below calls =
      bind_lem m ne stop rest_above below (held_word contended) calls fresh 8
      ∙ (rw (at_child-note stop stop.parent halts)
          (sleep_lem m (with_mutex m false stop) rest_above below calls contended))
  path_waits ne halts (l ∷ []) contended below calls =
      bind_lem m ne (bound_at m 0 l.seq (some l.pointer)) _ below _ calls l.fresh _
      ∙ (path_waits ne halts [] contended _ calls)
  path_waits ne halts (l ∷ k ∷ levels) contended below calls =
      bind_lem m ne (bound_at m 0 l.seq (some l.pointer)) _ below _ calls l.fresh _
      ∙ (path_waits ne halts (k ∷ levels) contended _ calls)

module _ (m : ℕ) (stop : Cond) (rest_above : List Cond) where
  abbrev raised : Level → Cond
  raised l = bound_at m 0 ((l.seq + 1) % 2 ^ 64) (some l.pointer)

  -- The path after the return: `seq` raised by one below `stop`.
  abbrev pub raised_path : List Level → List Cond
  raised_path [] = stop ∷ rest_above
  raised_path (l ∷ levels) = raised l ∷ raised_path levels

  abbrev pub raised_lowest : List Level → Cond
  raised_lowest [] = stop
  raised_lowest (l ∷ levels) = raised l

  abbrev pub raised_above : List Level → List Cond
  raised_above [] = rest_above
  raised_above (l ∷ levels) = raised_path levels

  -- One FUTEX_REQUEUE at each object below `stop`, that at the lowest last.
  abbrev pub release_calls : List Level → (height : ℕ) → List Kernel → List Kernel
  release_calls [] height calls = calls
  release_calls (l ∷ levels) height calls =
      moved height 1 int_max m ∷ release_calls levels (suc height) calls

  abbrev pub return_steps : List Level → (rest : ℕ) → ℕ
  return_steps [] rest = suc rest
  return_steps (l ∷ levels) rest = return_steps levels (suc (suc (suc (suc rest))))

  -- The call at the lowest object comes back to the call that it was called from.
  unwind_lem :
      (levels : List Level) (contended : Bool) (below : List Frame) (calls : List Kernel) (rest : ℕ)
      → alone m
          (return_steps levels rest)
          relock
          (scene stop rest_above (climbed m levels below) (free_word contended) calls)
        ≡ follow (alone m rest) (
            come_back below 0 (
              scene
                (raised_lowest levels)
                (raised_above levels)
                below
                3
                (release_calls levels (length below) calls)))
  unfolding alone access
  unwind_lem [] false below calls rest = refl
  unwind_lem [] true below calls rest = refl
  unwind_lem (l ∷ []) contended below calls rest =
      unwind_lem [] contended _ calls (suc (suc (suc (suc rest))))
  unwind_lem (l ∷ k ∷ levels) contended below calls rest =
      unwind_lem (k ∷ levels) contended _ calls (suc (suc (suc (suc rest))))

  -- That call, when FUTEX_WAIT returns and the mutex is free, takes the mutex with the contended
  -- bit, and at each condition variable of the path below the one that it slept on, the lowest
  -- last, raises seq by one modulo 2 ^ 64, wakes one thread of those that sleep there, moves up to
  -- INT_MAX to the mutex, and marks it as not in use; it returns 0 and holds the mutex.
  pub path_returns :
      (levels : List Level) (contended : Bool) (calls : List Kernel)
      → alone m
          (return_steps levels 0)
          relock
          (scene stop rest_above (climbed m levels []) (free_word contended) calls)
        ≡ some (
          returns 0,
          scene (raised_lowest levels) (raised_above levels) [] 3 (release_calls levels 0 calls),
        )
  path_returns levels contended calls = unwind_lem levels contended [] calls 0

module _ (m seq pointer : ℕ) (above : List Cond) (calls : List Kernel) where
  -- A call of fastsync_cond_wait by itself at a condition variable that is bound to the mutex, is
  -- not in use, and has a parent that is bound to another mutex, returns 0 after nine accesses
  -- without having released the mutex or slept: it only raises seq by one modulo 2 ^ 64 and calls
  -- FUTEX_REQUEUE there.
  pub wait_skipped :
      (parent : Cond) (word : ℕ)
      → parent.mutex ≢ m
      → parent.mutex ≢ 0
      → alone m 9 check (scene (bound_at m 0 seq (some pointer)) (parent ∷ above) [] word calls)
        ≡ some (
          returns 0,
          scene
              (bound_at m 0 ((seq + 1) % 2 ^ 64) (some pointer))
              (parent ∷ above)
              []
              word
              (moved 0 1 int_max m ∷ calls),
        )
  unfolding alone access at_child at_parent fastsync_cond_wait
  wait_skipped parent word ne_m ne_null = rw (same_self m, different ne_m, different ne_null) refl
