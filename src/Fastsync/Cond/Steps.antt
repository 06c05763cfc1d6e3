-- ===== src/Fastsync/Cond/Steps.antt =====
-- The steps of Fastsync/Cond/System.antt keep the invariant.
use reeact_v.Prelude.{ℕ, ◌≡◌, inl, inr, refl, ap, ◌∙◌, true, ◌∷◌, arith, assign}
use mathlib.Core.Path.{subst}
use reeact_v.Fastsync.Futex.{Futex}
use reeact_v.Fastsync.Cond.{relock, load, check, fastsync_cond_init, fastsync_cond_wait}
use reeact_v.Fastsync.Cond.System.{
  relocking, pc_of, calling, asleep_seq, asleep_word, resume, System, rouse_seq, rouse_word,
  move_seq, at, Step, call, advance, return, call_up, come_back, sleep_seq, wait_seq_returns,
  interrupt_seq, sleep_word, wait_word_returns, interrupt_word, wake_seq_up, wake_word_up,
  requeue_up, Reach, start, later,
}
use reeact_v.Fastsync.Cond.Invariant.{
  AtPlace, Bound, in_wait, go-Onward, return-Bound, call-At, access-KernelAt, in_wait-held,
}
use reeact_v.Fastsync.Cond.Invariant.Places.{
  eq_self, eq_other, each, assign_all, rouse_all, wake_all, move_all, Framed, Begins-At,
  resume-AtPlace, leave-frames, wake-AtPlace, waits-wake, waiter-At,
}
use reeact_v.Fastsync.Cond.Invariant.Spots.{
  recount-Inv, Spot, Inv, calling-At, Stacked-at, going_on, changed, one_moved, all-Bound, stays,
  framed, roused,
}

module _ {m : ℕ} {s : System} (inv : Inv m s) where
  Step-Inv : (k : Futex) (n : ℕ) {t : System} → Step k n m s t → Inv m t
  unfolding fastsync_cond_wait
  Step-Inv k n (call i c held {p} lt e begins) =
      let none_below = leave-frames held (s.frames i) (Stacked-at inv i e) in
      record {
        bound = inv.bound;
        spot =
            each
              (λ j.
                Spot m s.cond (assign s.thread i (calling held p) j) (assign s.place i c j)
                  (s.frames j))
              i
              (rw (eq_self i) (Begins-At m (s.cond c).mutex begins, inl none_below, (inv.spot i).2))
              (λ j other. rw (eq_other other) (inv.spot j));
      }
  Step-Inv k n (advance i {held} {p} {q} {cond} lt e a) =
      let onto =
        go-Onward m held p (at s i) s.state (inv.bound (s.place i)) (calling-At inv i e) a in
      record {
        bound = all-Bound inv (s.place i) cond onto.bound onto.bound_once;
        spot =
            assign_all (λ j t. Spot m (assign s.cond (s.place i) cond) t (s.place j) (s.frames j))
              s.thread i (calling held q) (stays inv (s.place i) cond onto.bound onto.bound_once)
              (
                rw (eq_self (s.place i)) onto.at,
                ground (arith, Stacked-at inv i e, onto.stays),
                framed inv (s.place i) cond onto.bound onto.bound_once i,
              );
      }
  Step-Inv k n (return i {held} {p} {cond} {state} {code} lt e a none_below) =
      let same =
        return-Bound m held p (at s i) s.state (inv.bound (s.place i)) (calling-At inv i e) a in
      let bound : Bound m cond = ground (arith, same, inv.bound (s.place i)) in
      record {
        bound = all-Bound inv (s.place i) cond bound (inl same);
        spot =
            assign_all (λ j t. Spot m (assign s.cond (s.place i) cond) t (s.place j) (s.frames j))
              s.thread i (resume held p code) (stays inv (s.place i) cond bound (inl same))
              (
                resume-AtPlace m held p code _,
                inl none_below,
                framed inv (s.place i) cond bound (inl same) i,
              );
      }
  Step-Inv k n (call_up i {held} {p} {p'} {cond} {parent} lt e a begins) =
      let (descends, owns, ours, marked) =
        call-At m held p (at s i) s.state (calling-At inv i e) a in
      let same : cond.mutex ≡ (at s i).mutex = ap (λ x. x.mutex) marked in
      let bound : Bound m cond = ground (arith, same, inv.bound (s.place i)) in
      let first : p' ≡ check = ground (arith, begins) in
      record {
        bound = all-Bound inv (s.place i) cond bound (inl same);
        spot =
            each
              (λ j.
                Spot m (assign s.cond (s.place i) cond) (assign s.thread i (calling held p') j)
                  (assign s.place i parent j) (assign s.frames i (s.place i ∷ s.frames i) j))
              i
              (rw (eq_self i) (
                rw first (
                  owns,
                  inr refl,
                  (
                    rw (eq_self (s.place i)) (same ∙ ours),
                    framed inv (s.place i) cond bound (inl same) i,
                  ),
                )))
              (λ j other. rw (eq_other other) (stays inv (s.place i) cond bound (inl same) j));
      }
  Step-Inv k n (come_back i {held} {p} {cond} {state} {code} {c} {rest} lt e a below) =
      let same =
        return-Bound m held p (at s i) s.state (inv.bound (s.place i)) (calling-At inv i e) a in
      let bound : Bound m cond = ground (arith, same, inv.bound (s.place i)) in
      let waiting : in_wait p ≡ true = ground (arith, Stacked-at inv i e, below) in
      let owns = in_wait-held m held p (at s i).mutex (calling-At inv i e) waiting in
      let under =
        subst (Framed m (assign s.cond (s.place i) cond)) below
          (framed inv (s.place i) cond bound (inl same) i) in
      record {
        bound = all-Bound inv (s.place i) cond bound (inl same);
        spot =
            each
              (λ j.
                Spot m (assign s.cond (s.place i) cond) (assign s.thread i (calling held load) j)
                  (assign s.place i c j) (assign s.frames i rest j))
              i (rw (eq_self i) ((owns, under.0), inr refl, under.1))
              (λ j other. rw (eq_other other) (stays inv (s.place i) cond bound (inl same) j));
      }
  Step-Inv k n (sleep_seq i {held} {p} lt e a slept) =
      let here = access-KernelAt m held p (at s i) s.state (calling-At inv i e) a in
      one_moved inv i asleep_seq (here.3, inr refl, (inv.spot i).2)
  Step-Inv k n (wait_seq_returns i {held} {p} {q} lt e a) =
      let (await, onto, owns, ours) =
        access-KernelAt m held p (at s i) s.state (calling-At inv i e) a in
      one_moved inv i (calling held q) (rw onto ((owns, ours), inr refl, (inv.spot i).2))
  Step-Inv k n (interrupt_seq i lt e) =
      one_moved inv i (calling true relock)
        ((refl, subst (λ t. AtPlace m t (at s i).mutex) e (inv.spot i).0), inr refl, (inv.spot i).2)
  Step-Inv k n (sleep_word i {held} {p} w lt e a slept) =
      let here = access-KernelAt m held p (at s i) s.state (calling-At inv i e) a in
      one_moved inv i (asleep_word w) (
        waiter-At m held w (at s i).mutex here.0,
        ground (arith, Stacked-at inv i e, here.1),
        (inv.spot i).2,
      )
  Step-Inv k n (wait_word_returns i {held} {p} {q} lt e a) =
      let here = access-KernelAt m held p (at s i) s.state (calling-At inv i e) a in
      one_moved inv i (calling held q) (going_on inv i held q e here.0 here.1)
  Step-Inv k n (interrupt_word i {w} lt e) =
      one_moved inv i (calling true (pc_of w)) (
        subst (λ t. AtPlace m t (at s i).mutex) e (inv.spot i).0,
        Stacked-at inv i e,
        (inv.spot i).2,
      )
  Step-Inv k n (wake_seq_up i {held} {p} {q} {count} {woken} lt e a woke) =
      let here = access-KernelAt m held p (at s i) s.state (calling-At inv i e) a in
      recount-Inv _ (
        changed inv (rouse_seq woken s.thread) i (calling held q)
          (rouse_all (λ j t. Spot m s.cond t (s.place j) (s.frames j)) s.thread inv.spot woken
            (λ j w.
              roused inv n j (calling true relock) (ground (arith, k.wakes_sleepers woke j w))
                (refl, refl) refl))
          (going_on inv i held q e here.0 here.1))
  Step-Inv k n (wake_word_up i {held} {p} {q} {count} {woken} lt e a woke) =
      let here = access-KernelAt m held p (at s i) s.state (calling-At inv i e) a in
      changed inv (rouse_word woken s.thread) i (calling held q)
        (wake_all (λ j t. Spot m s.cond t (s.place j) (s.frames j)) s.thread inv.spot woken
          (λ j. (
            wake-AtPlace m (s.thread j) (at s j).mutex (inv.spot j).0,
            ground (arith, (inv.spot j).1, waits-wake (s.thread j)),
            (inv.spot j).2,
          )))
        (going_on inv i held q e here.0 here.1)
  Step-Inv k n (requeue_up i {held} {p} {q} {count} {limit} {woken} {moved = shifted} lt e a r) =
      let here = access-KernelAt m held p (at s i) s.state (calling-At inv i e) a in
      changed inv (move_seq woken shifted s.thread) i (calling held q)
        (move_all (λ j t. Spot m s.cond t (s.place j) (s.frames j)) s.thread inv.spot woken shifted
          (λ j w.
            roused inv n j (calling true relock) (ground (arith, k.requeue_wakes_sleepers r j w))
              (refl, refl) refl)
          (λ j w.
            roused inv n j (asleep_word relocking) (ground (arith, k.requeue_moves_sleepers r j w))
              (refl, refl) refl))
        (going_on inv i held q e here.1 here.2)

pub Reach-Inv : {k : Futex} {n m : ℕ} {s : System} → Reach k n m s → Inv m s
unfolding fastsync_cond_init
Reach-Inv {m} (start old first fresh) = record {
  bound = λ c. ground (arith, (fresh c).made);
  spot = λ j. (tt, inl refl, tt);
}
Reach-Inv {k} {n} (later r step) = Step-Inv (Reach-Inv r) k n step
