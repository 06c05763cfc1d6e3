-- ===== src/Fastsync/Cond/Refines.antt =====
-- The condition variable of src/fastsync/fastsync_cond.c uses its mutex as the threads of
-- Fastsync/Mutex/System.antt do.
use mathlib.Core.Path.{subst}
use reeact_v.Prelude.{
  ℕ, some, ◌<◌, ◌≡◌, refl, sym, ap, ◌∙◌, Bool, true, false, arith, if◌then◌else◌, assign, ◌==◌,
}
use reeact_v.Fastsync.Futex.{Futex}
use reeact_v.Fastsync.Mutex.System as Lock
use reeact_v.Fastsync.Cond.{
  Pc, Act, signal, signal_count, broadcast, relock, load, access, fastsync_cond_wait,
  fastsync_cond_signal, fastsync_cond_signal_count, fastsync_cond_broadcast,
}
use reeact_v.Fastsync.Cond.System.{
  Waiter, relocking, unlocking, plainly, pc_of, Thread, outside, critical, calling, asleep_seq,
  asleep_word, leave, resume, System, is_asleep_seq, all_sleepers, seq_sleepers, at, call_up,
  come_back, word_sleepers, rouse_seq, wake, rouse_word, move_seq, Begins, lock, trylock, unlock_it,
  wait, signal_it, signal_counted, broadcast_it, Step, call, advance, return, sleep_seq,
  wait_seq_returns, interrupt_seq, sleep_word, wait_word_returns, interrupt_word, wake_seq_up,
  wake_word_up, requeue_up, Reach, start,
}
use reeact_v.Fastsync.Cond.System as Cond
use reeact_v.Fastsync.Cond.Sight.{to_lock, project, sane, outside_or, Local, still, GoLocal}
use reeact_v.Fastsync.Cond.Sight.Access.{access-GoLocal, leave_lem}
use reeact_v.Fastsync.Cond.Invariant.{AtPlace-sane}
use reeact_v.Fastsync.Cond.Invariant.Places.{resume-leave}
use reeact_v.Fastsync.Cond.Invariant.Spots.{Inv, Stacked-at}
use reeact_v.Fastsync.Cond.Steps.{Reach-Inv}
use reeact_v.Fastsync.Cond.Moves.{settle, becomes, push, placed, rouse_all}
use reeact_v.Fastsync.Cond.Sight.Sets.{
  signalled, waiter_pc, waiter_asleep, rouse_lem, move_lem, sleepers_lem, dormants_lem, unwoken,
}

module _ {k : Futex} {n m : ℕ} {s : System} (inv : Inv m s) (r : Lock.Reach k n (project s)) where
  -- What the mutex sees of an access of thread `i`.
  seen_by :
      (i : ℕ) {held : Bool} {p : Pc} {a : Act}
      → s.thread i ≡ calling held p
      → access m p (at s i) s.state ≡ a
      → GoLocal held p s.state a
  seen_by i {held} {p} here e = subst (GoLocal held p s.state) e (
      access-GoLocal m held p (at s i) s.state
        (ap sane (sym here) ∙ AtPlace-sane m (s.thread i) (at s i).mutex (inv.spot i).0))

  -- Thread `i` becomes `x` by an access that the mutex sees so.
  pushed :
      (i : ℕ) {held : Bool} {p : Pc} (x : Thread) {state : ℕ}
      → i < n
      → s.thread i ≡ calling held p
      → Local s.state (to_lock (calling held p)) state (to_lock x)
      → Lock.Reach k n (record { state = state; thread = λ j. to_lock (assign s.thread i x j) })
  pushed i {held} {p} x lt here l =
      placed s.thread i x
        (push (λ j. to_lock (s.thread j)) i (to_lock (calling held p)) lt (ap to_lock here) l r)

  -- A call of the condition variable begins as the thread is.
  stood :
      (i : ℕ) (held : Bool) (p : Pc)
      → i < n
      → s.thread i ≡ leave held
      → to_lock (leave held) ≡ to_lock (calling held p)
      → Lock.Reach k n
          (record { state = s.state; thread = λ j. to_lock (assign s.thread i (calling held p) j) })
  stood i held p lt here e = placed s.thread i (calling held p) (
      push (λ j. to_lock (s.thread j)) i (to_lock (leave held)) lt (ap to_lock here) (still refl e)
        r)

  begun :
      (i : ℕ) (held : Bool) {p : Pc}
      → i < n
      → s.thread i ≡ leave held
      → Begins held p
      → Lock.Reach k n
          (record { state = s.state; thread = λ j. to_lock (assign s.thread i (calling held p) j) })
  unfolding fastsync_cond_wait fastsync_cond_signal fastsync_cond_signal_count
      fastsync_cond_broadcast
  begun i held {p} lt here (lock e) =
      placed s.thread i (calling held p) (Lock.later r (Lock.call_lock i lt (ap to_lock here) e))
  begun i held {p} lt here (trylock e) =
      placed s.thread i (calling held p) (Lock.later r (Lock.call_trylock i lt (ap to_lock here) e))
  begun i held {p} lt here (unlock_it e) =
      placed s.thread i (calling held p) (Lock.later r (Lock.call_unlock i lt (ap to_lock here) e))
  begun i held {p} lt here (wait e) = stood i held p lt here (ground arith)
  begun i held {p} lt here (signal_it _ e) =
      stood i held p lt here (signalled held p signal (ground arith))
  begun i held {p} lt here (signal_counted _) =
      stood i held p lt here (signalled held p signal_count refl)
  begun i held {p} lt here (broadcast_it _ e) =
      stood i held p lt here (signalled held p broadcast (ground arith))

  begun_as :
      (held : Bool) (p : Pc)
      → fastsync_cond_wait false false ≡ some p
      → outside_or held ≡ to_lock (calling held p)
  unfolding fastsync_cond_wait
  begun_as held p begins = ground arith

  asleep_there :
      (c j : ℕ) → seq_sleepers n s.thread s.place c j ≡ true → all_sleepers n s.thread j ≡ true
  asleep_there c j a = ground arith

  unmoved :
      (woken moved : ℕ → Bool) (i : ℕ) {held : Bool} {p : Pc}
      → s.thread i ≡ calling held p
      → woken i ≡ false
      → moved i ≡ false
      → move_seq woken moved s.thread i ≡ calling held p
  unmoved woken moved i here w m = ground (arith, here, w, m)

  Step-Reach : {t : System} → Step k n m s t → Lock.Reach k n (project t)
  Step-Reach (call i c held lt here begins) = begun i held lt here begins
  Step-Reach (advance i {held} {p} {q} lt here e) =
      pushed i (calling held q) lt here (seen_by i here e)
  Step-Reach (return i {held} {p} {cond} {state} {code} lt here e none_below) =
      pushed i (resume held p code) lt here (seen_by i here e)
  Step-Reach (call_up i {held} {p} {p'} lt here e begins) =
      pushed i (calling held p') lt here (still refl (seen_by i here e ∙ begun_as held p' begins))
  Step-Reach (come_back i {held} {p} {cond} {state} {code} lt here e below) =
      pushed i (calling held load) lt here (
        subst (Local s.state (to_lock (calling held p)) state)
          (ap to_lock (resume-leave held p code (ground (arith, Stacked-at inv i here, below)))
            ∙ sym (leave_lem held))
          (seen_by i here e))
  Step-Reach (sleep_seq i lt here e slept) =
      placed s.thread i asleep_seq
        (Lock.later r (Lock.await i lt (ap to_lock here ∙ (seen_by i here e).0)))
  Step-Reach (wait_seq_returns i {held} {p} {q} lt here e) =
      let (from, next) = seen_by i here e in
      placed s.thread i (calling held q) (
        becomes (λ j. to_lock (s.thread j)) i (ap (λ x. to_lock (calling held x)) next)
          (settle (λ j. ground arith)
            (Lock.later (Lock.later r (Lock.await i lt (ap to_lock here ∙ from)))
              (Lock.resume_wait i lt (ground arith)))))
  Step-Reach (interrupt_seq i lt here) =
      placed s.thread i (calling true relock)
        (Lock.later r (Lock.resume_wait i lt (ap to_lock here)))
  Step-Reach (sleep_word i {held} w lt here e slept) =
      let (p', q', from, a, onto) = seen_by i here e in
      placed s.thread i (asleep_word w) (
        becomes (λ j. to_lock (s.thread j)) i (waiter_asleep w held q' onto)
          (Lock.later r (Lock.sleep i lt (ap to_lock here ∙ from) a slept)))
  Step-Reach (wait_word_returns i {held} {p} {q} lt here e) =
      let (p', q', from, a, onto) = seen_by i here e in
      placed s.thread i (calling held q) (
        becomes (λ j. to_lock (s.thread j)) i onto
          (Lock.later r (Lock.wait_returns i lt (ap to_lock here ∙ from) a)))
  Step-Reach (interrupt_word i {w} lt here) =
      let (q, from, onto) = waiter_pc w in
      placed s.thread i (calling true (pc_of w)) (
        becomes (λ j. to_lock (s.thread j)) i onto
          (Lock.later r (Lock.interrupt i lt (ap to_lock here ∙ from))))
  Step-Reach (wake_seq_up i {held} {p} {q} {count} {woken} lt here e woke) =
      placed (rouse_seq woken s.thread) i (calling held q) (
        push (λ j. to_lock (rouse_seq woken s.thread j)) i (to_lock (calling held p)) lt
          (ap to_lock (
            ap (λ b. if b then calling true relock else s.thread i)
              (unwoken n s.thread woken i
                (λ j w. asleep_there (s.place i) j (k.wakes_sleepers woke j w)) here)
            ∙ here))
          (still refl (seen_by i here e))
          (rouse_all s.thread woken (λ j w. asleep_there (s.place i) j (k.wakes_sleepers woke j w))
            r))
  Step-Reach (wake_word_up i {held} {p} {q} {count} {woken} lt here e woke) =
      let (p', code, from, a, onto) = seen_by i here e in
      placed (rouse_word woken s.thread) i (calling held q) (
        becomes (λ j. to_lock (rouse_word woken s.thread j)) i onto
          (settle
            (λ j. ap (λ t. if i == j then Lock.resume p' code else t) (rouse_lem woken s.thread j))
            (Lock.later r (
              Lock.wake_up i lt (ap to_lock here ∙ from) a
                (subst (λ f. k.Wakes count f woken) (sleepers_lem n s.thread) woke)))))
  Step-Reach (requeue_up i {held} {p} {q} {count} {limit} {woken} {moved = shifted} lt here e q') =
      let (one, same) = seen_by i here e in
      placed (move_seq woken shifted s.thread) i (calling held q) (
        push (λ j. to_lock (move_seq woken shifted s.thread j)) i (to_lock (calling held p)) lt
          (ap to_lock (
            unmoved woken shifted i here
              (unwoken n s.thread woken i
                (λ j w. asleep_there (s.place i) j (k.requeue_wakes_sleepers q' j w)) here)
              (unwoken n s.thread shifted i
                (λ j w. asleep_there (s.place i) j (k.requeue_moves_sleepers q' j w)) here)))
          (still refl same)
          (settle (move_lem woken shifted s.thread) (
            Lock.later r (
              Lock.broadcast {limit = limit}
                (λ j w.
                  ap (λ f. f j) (sym (dormants_lem n s.thread)) ∙ asleep_there (s.place i) j w)
                (subst
                  (λ c.
                    k.Requeues c limit (seq_sleepers n s.thread s.place (s.place i)) woken shifted)
                  one q')))))

-- Every reachable state of threads that use a mutex and any number of condition variables, each
-- with a parent or without, by lock, trylock, unlock, wait, signal and broadcast over any kernel,
-- is, seen from the mutex, a reachable state of threads that use the mutex alone, where a waiter
-- is outside, in an unlock, dormant, or in the waiting loop of a lock.
pub Cond-refines : {k : Futex} {n m : ℕ} {s : System} → Reach k n m s → Lock.Reach k n (project s)
Cond-refines (start old first fresh) = Lock.start old first
Cond-refines (Cond.later r step) = Step-Reach (Reach-Inv r) (Cond-refines r) step
