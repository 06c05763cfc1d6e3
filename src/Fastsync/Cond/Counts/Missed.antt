-- ===== src/Fastsync/Cond/Counts/Missed.antt =====
-- No wait of src/fastsync/fastsync_cond.c sleeps through a signal.
use mathlib.Core.Path.{subst}
use reeact_v.Prelude.{ℕ, ◌+◌, ◌%◌, ◌^◌, ◌<◌, ◌≡◌, Bool, ap, arith}
use reeact_v.Fastsync.Futex.{Futex}
use reeact_v.Fastsync.Cond.{await}
use reeact_v.Fastsync.Cond.System.{calling, System, at, Reach}
use reeact_v.Fastsync.Cond.Counts.{waiting, Locals}
use reeact_v.Fastsync.Cond.Counts.Steps.{Reach-Counts}

-- In every reachable state of threads that use a mutex and condition variables, some of them
-- parents of others, a thread that stands before FUTEX_WAIT in fastsync_cond_wait, after which seq
-- of its condition variable has been raised at least once (by a signal, a broadcast, or a wait
-- that has come back from the parent) and fewer than 2 ^ 32 times since the thread noted it, is
-- not put to sleep; a raise may be lost where a wait reads and writes seq.
pub no_missed_signal :
    {k : Futex} {n m : ℕ} {s : System}
    → Reach k n m s
    → (i : ℕ) {held : Bool} {cur : ℕ} → i < n
    → s.thread i ≡ calling held (await cur)
    → s.seen i < s.raised (s.place i)
    → s.raised (s.place i) < s.seen i + 2 ^ 32
    → ¬ k.Sleeps ((at s i).seq % 2 ^ 32) cur
no_missed_signal {k} {s} r i lt here later soon slept =
    let counts = Reach-Counts r in
    let mine = subst (λ t. Locals t (s.noted i)) here (counts.locals i) in
    let behind = counts.behind i lt (ap waiting here) in
    let more = behind.2 later in
    omega
      (arith, mine, behind.0, behind.1, more, counts.counted (s.place i), k.sleeps_on_match slept)
