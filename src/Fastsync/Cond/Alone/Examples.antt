-- ===== src/Fastsync/Cond/Alone/Examples.antt =====
-- The theorems on a path of condition variables of src/fastsync/fastsync_cond.c at three levels, with
-- a contended mutex and a `seq` that wraps around.
use reeact_v.Prelude.{◌-◌, ◌^◌, ◌≡◌, inl, true, false, none, some, List, [], ◌∷◌, arith}
use reeact_v.Fastsync.Barrier.{int_max}
use reeact_v.Fastsync.Cond.{Cond, check, load, relock}
use reeact_v.Fastsync.Cond.Alone.{woke_word, moved, Frame, returns, sleeps, alone}
use reeact_v.Fastsync.Cond.Alone.Waits.{
  bound_at, scene, Level, path_waits, path_returns, wait_skipped,
}

-- The object at 4 below the one at 6, which is below the one at 8; the latter in use by its own waiters.
abbrev level_4 : Level
level_4 = record { fresh = true; seq = 5; pointer = 6 }

abbrev level_6 : Level
level_6 = record { fresh = false; seq = 2 ^ 64 - 1; pointer = 8 }

abbrev object_8 : Cond
object_8 = bound_at 0 1 7 (some 10)

abbrev root : Cond
root = bound_at 9 1 3 none

abbrev frames : List Frame
frames =
    record { object = bound_at 9 1 (2 ^ 64 - 1) (some 8); next = load }
    ∷ record { object = bound_at 9 1 5 (some 6); next = load }
    ∷ []

path_waits_example :
    alone 9 19 check (
      scene
        (bound_at 0 0 5 (some 6))
        (bound_at 9 0 (2 ^ 64 - 1) (some 8) ∷ object_8 ∷ root ∷ [])
        []
        3
        [])
    ≡ some (sleeps, scene (bound_at 9 1 7 (some 10)) (root ∷ []) frames 0 (woke_word 1 ∷ []))
path_waits_example =
    path_waits 9 true object_8 (root ∷ []) (omega arith) (inl (omega arith))
      (level_4 ∷ level_6 ∷ []) true [] []

path_returns_example :
    alone 9 9 relock (scene (bound_at 9 1 7 (some 10)) (root ∷ []) frames 2 [])
    ≡ some (
      returns 0,
      scene
          (bound_at 9 0 6 (some 6))
          (bound_at 9 0 0 (some 8) ∷ bound_at 9 1 7 (some 10) ∷ root ∷ [])
          []
          3
          (moved 0 1 int_max 9 ∷ moved 1 1 int_max 9 ∷ []),
    )
path_returns_example =
    path_returns 9 (bound_at 9 1 7 (some 10)) (root ∷ []) (level_4 ∷ level_6 ∷ []) true []

wait_skipped_example :
    alone 9 9 check (scene (bound_at 9 0 5 (some 4)) (bound_at 8 0 7 none ∷ []) [] 1 [])
    ≡ some (
      returns 0,
      scene (bound_at 9 0 6 (some 4)) (bound_at 8 0 7 none ∷ []) [] 1 (moved 0 1 int_max 9 ∷ []),
    )
wait_skipped_example = wait_skipped 9 5 4 [] [] (bound_at 8 0 7 none) 1 (omega arith) (omega arith)
