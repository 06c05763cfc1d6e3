-- ===== src/Fastsync/Cond/Alone.antt =====
-- A call of `fastsync_cond_wait` of src/fastsync/fastsync_cond.c with its calls at the ancestors of
-- the condition variable, followed by itself to its return or to where it sleeps.
mod Waits
mod Examples
use reeact_v.Prelude.{
  ℕ, zero, suc, ◌%◌, ◌^◌, Option, none, some, false, List, [], ◌∷◌, ◌==◌, if◌then◌else◌, length,
}
use reeact_v.Fastsync.Cond.{
  Cond, Pc, Act, go, ret, call_parent, wait_seq, wake_seq, requeue, wait_word, wake_word, access,
  fastsync_cond_wait,
}

-- A call of FUTEX_WAKE on `seq`, of FUTEX_REQUEUE from it, of FUTEX_WAKE on the word of the mutex. A
-- condition variable is known by its height, 0 for the one that the thread waits on.
pub data Kernel : Type 0 where
  woke : (height count : ℕ) → Kernel
  moved : (height count limit target : ℕ) → Kernel
  woke_word : (count : ℕ) → Kernel

-- A call at an object, which goes on at a place when the call at the parent returns.
pub record Frame : Type 0 where
  pub object : Cond
  pub next : Pc

-- The object of the innermost call, its ancestors, the calls that it was called from, the word of
-- the mutex, and the calls of the kernel so far, the last one first.
pub record Scene : Type 0 where
  pub current : Cond
  pub above : List Cond
  pub below : List Frame
  pub word : ℕ
  pub calls : List Kernel

pub data Ending : Type 0 where
  returns : (code : ℕ) → Ending
  sleeps : Ending  -- on `seq` of the current object
  blocks : Ending  -- on the word of the mutex
  dangles : Ending  -- at a parent that is not there

pub data Next : Type 0 where
  goes : Pc → Scene → Next
  ends : Ending → Scene → Next

abbrev put : Cond → ℕ → Scene → Scene
put cond word s = record s { current = cond; word = word }

abbrev note_call : Kernel → Scene → Scene
note_call call s = record s { calls = call ∷ s.calls }

-- The return of the innermost call.
abbrev pub come_back : List Frame → (code : ℕ) → Scene → Next
come_back [] code s = ends (returns code) s
come_back (frame ∷ below) code s =
    goes frame.next
      (record s { current = frame.object; above = s.current ∷ s.above; below = below })

-- The entry of the call at the parent.
abbrev pub enter : List Cond → Option Pc → (q : Pc) → Scene → Next
enter above none q s = goes q s
enter [] (some p) q s = ends dangles s
enter (cond ∷ above) (some p) q s = goes p (record s {
  current = cond;
  above = above;
  below = record { object = s.current; next = q } ∷ s.below;
})

-- FUTEX_WAIT sleeps if the word has the value.
abbrev pub next : Act → Scene → Next
next (go cond word q) s = goes q (put cond word s)
next (ret cond word code) s = come_back s.below code (put cond word s)
next (call_parent cond pointer q) s =
    enter s.above (fastsync_cond_wait false false) q (put cond s.word s)
next (wait_seq val q) s = if val == s.current.seq % 2 ^ 32 then ends sleeps s else goes q s
next (wake_seq count q) s = goes q (note_call (woke (length s.below) count) s)
next (requeue count limit target q) s =
    goes q (note_call (moved (length s.below) count limit target) s)
next (wait_word val q) s = if val == s.word then ends blocks s else goes q s
next (wake_word count q) s = goes q (note_call (woke_word count) s)

abbrev pub follow : (Pc → Scene → Option (Ending × Scene)) → Next → Option (Ending × Scene)
follow rest (goes p s) = rest p s
follow rest (ends e s) = some (e, s)

-- At most `fuel` accesses.
unfoldable pub alone : (m fuel : ℕ) → Pc → Scene → Option (Ending × Scene)
unfolding access fastsync_cond_wait
alone m zero p s = none
alone m (suc fuel) p s = follow (alone m fuel) (next (access m p s.current s.word) s)
