-- ===== src/Fastsync/Cond/Counts/Calm.antt =====
-- Steps of Fastsync/Cond/System.antt that leave every `seq` as it is.
use mathlib.Core.Path.{subst}
use reeact_v.Prelude.{ℕ, ◌≤◌, ◌≡◌, refl, sym, ◌∙◌, Bool, true, false, List, arith, assign}
use reeact_v.Fastsync.Cond.{
  Cond, Pc, Act, check, relock, wait_seq, wake_seq, requeue, wait_word, wake_word, access,
  at_parent, after_raise, within_unlock, within_call, enter_unlock,
}
use reeact_v.Fastsync.Mutex.{fastsync_mutex_unlock}
use reeact_v.Fastsync.Mutex as Mutex
use reeact_v.Fastsync.Cond.System.{
  Waiter, relocking, pc_of, Thread, calling, asleep_word, resume, System, wake, Begins,
}
use reeact_v.Fastsync.Cond.Invariant.Places.{resume_all, begins_all, assign_all}
use reeact_v.Fastsync.Cond.Counts.{awaits, waiting, stores, storing, Local, Locals, Behind, Counts}

-- A thread that does not begin to wait or to write.
abbrev pub Calm : (t : Thread) (place : ℕ) (t' : Thread) (place' : ℕ) → Type 0
Calm t place t' place' =
    (waiting t' ≡ true → (waiting t ≡ true) × (place' ≡ place))
    × (storing t' ≡ true → (storing t ≡ true) × (place' ≡ place))
    × ((noted : ℕ) → Locals t noted → Locals t' noted)

abbrev pub Idle : Thread → Type 0
Idle t = (waiting t ≡ false) × (storing t ≡ false) × ((noted : ℕ) → Locals t noted)

pub Idle-Calm : (t t' : Thread) (place place' : ℕ) → Idle t' → Calm t place t' place'
Idle-Calm t t' place place' idle =
    (λ w. cc (w, idle.0), λ w. cc (w, idle.1), λ noted _. idle.2 noted)

pub Calm-refl : (t : Thread) (place : ℕ) → Calm t place t place
Calm-refl t place = (λ w. (w, refl), λ w. (w, refl), λ noted l. l)

pub resume-Idle : (held : Bool) (p : Pc) (code : ℕ) → Idle (resume held p code)
resume-Idle = resume_all Idle (refl, refl, λ noted. tt) (refl, refl, λ noted. tt)

pub Begins-Idle : {held : Bool} {p : Pc} → Begins held p → Idle (calling held p)
Begins-Idle {held} =
    begins_all (λ p. Idle (calling held p)) (λ p. (refl, refl, λ noted. tt))
      (refl, refl, λ noted. tt) (λ kind. (refl, refl, λ noted. tt))

pub wake-Calm : (t : Thread) (place : ℕ) → Calm t place (wake t) place
wake-Calm (asleep_word w) place = (λ a. (a, refl), λ a. cc (a, not_storing w), λ noted l. l)
  where
    not_storing : (w : Waiter) → stores (pc_of w) ≡ false
    not_storing Waiter.relocking = refl
    not_storing (Waiter.unlocking cur p) = refl
    not_storing (Waiter.plainly p) = refl
wake-Calm t place = Calm-refl t place

-- Where an access that enters the kernel goes on.
abbrev pub KernelCalm : Pc → Act → Type 0
KernelCalm p (wait_word val q) =
    (awaits q ≡ true → awaits p ≡ true)
    × (stores q ≡ false)
    × ((noted : ℕ) → Local p noted → Local q noted)
KernelCalm p (wake_seq count q) =
    (awaits q ≡ false) × (stores q ≡ false) × ((noted : ℕ) → Local q noted)
KernelCalm p (wake_word count q) =
    (awaits q ≡ true → awaits p ≡ true)
    × (stores q ≡ false)
    × ((noted : ℕ) → Local p noted → Local q noted)
KernelCalm p (requeue count limit target q) =
    (awaits q ≡ false) × (stores q ≡ false) × ((noted : ℕ) → Local q noted)
KernelCalm p (wait_seq val q) = (awaits p ≡ true) × (q ≡ relock)
KernelCalm p _ = Unit

pub access-KernelCalm :
    (m : ℕ) (p : Pc) (cond : Cond) (state : ℕ) {a : Act}
    → access m p cond state ≡ a
    → KernelCalm p a
unfolding access at_parent after_raise within_unlock within_call enter_unlock fastsync_mutex_unlock
    Mutex.access
access-KernelCalm m check cond state e = ground arith
access-KernelCalm m p cond state e = ground arith

module _ {n : ℕ} {s : System} (counts : Counts n s) where
  -- No access to `seq`.
  pub quiet :
      (cond : ℕ → Cond) (state : ℕ) (thread : ℕ → Thread) (place : ℕ → ℕ) (frames : ℕ → List ℕ)
      → ((c : ℕ) → (cond c).seq ≡ (s.cond c).seq)
      → ((j : ℕ) → Calm (s.thread j) (s.place j) (thread j) (place j))
      → Counts n
          (record s { cond = cond; state = state; thread = thread; place = place; frames = frames })
  quiet cond state thread place frames same calm = record {
    counted = λ c. same c ∙ counts.counted c;
    locals = λ j. (calm j).2 (s.noted j) (counts.locals j);
    behind = λ j lt w.
        let (before, here) = (calm j).0 w in
        subst (λ c. Behind (s.value c) (s.raised c) (s.noted j) (s.seen j)) (sym here)
          (counts.behind j lt before);
    loaded = λ i lt w.
        let (before, here) = (calm i).1 w in
        subst (λ c. s.noted i ≤ s.value c) (sym here) (counts.loaded i lt before);
    latest = λ i j lt lt' w w' together.
        let (before, here) = (calm i).1 w in
        let (before', here') = (calm j).0 w' in
        counts.latest i j lt lt' before before' (sym here ∙ together ∙ here');
  }

  -- Only threads change.
  pub threads_quiet :
      (thread : ℕ → Thread)
      → ((j : ℕ) → Calm (s.thread j) (s.place j) (thread j) (s.place j))
      → Counts n (record s { thread = thread })
  threads_quiet thread calm = quiet s.cond s.state thread s.place s.frames (λ c. refl) calm

  pub same_seq :
      (c : ℕ) (cond : Cond)
      → cond.seq ≡ (s.cond c).seq
      → (d : ℕ) → (assign s.cond c cond d).seq ≡ (s.cond d).seq
  same_seq c cond same = assign_all (λ d x. x.seq ≡ (s.cond d).seq) s.cond c cond (λ d. refl) same

  -- One thread changes, others as they are.
  pub only :
      (i : ℕ) (t : Thread)
      → Calm (s.thread i) (s.place i) t (s.place i)
      → (j : ℕ) → Calm (s.thread j) (s.place j) (assign s.thread i t j) (s.place j)
  only i t calm =
      assign_all (λ j x. Calm (s.thread j) (s.place j) x (s.place j)) s.thread i t
        (λ j. Calm-refl (s.thread j) (s.place j)) calm

  pub on_top :
      (thread : ℕ → Thread) (i : ℕ) (t : Thread)
      → ((j : ℕ) → Calm (s.thread j) (s.place j) (thread j) (s.place j))
      → Calm (s.thread i) (s.place i) t (s.place i)
      → Counts n (record s { thread = assign thread i t })
  on_top thread i t all one =
      threads_quiet (assign thread i t)
        (assign_all (λ j x. Calm (s.thread j) (s.place j) x (s.place j)) thread i t all one)

  pub kernel-Calm :
      (i : ℕ) {held : Bool} {p : Pc} (q : Pc) (t' : Thread)
      → s.thread i ≡ calling held p
      → (waiting t' ≡ awaits q)
        × (storing t' ≡ false)
        × ((noted : ℕ) → Local q noted → Locals t' noted)
      → (awaits q ≡ true → awaits p ≡ true)
      → ((noted : ℕ) → Local p noted → Local q noted)
      → Calm (s.thread i) (s.place i) t' (s.place i)
  kernel-Calm i q t' e (same, none_stored, locals) goes keeps = rw e (
    λ w. (goes (sym same ∙ w), refl),
    λ w. cc (w, none_stored),
    λ noted l. locals noted (keeps noted l),
  )

pub roused-Calm : (t : Thread) (place : ℕ) → Calm t place (calling true relock) place
roused-Calm t place = Idle-Calm t (calling true relock) place place (refl, refl, λ noted. tt)

pub moved-Calm : (t : Thread) (place : ℕ) → Calm t place (asleep_word relocking) place
moved-Calm t place = Idle-Calm t (asleep_word relocking) place place (refl, refl, λ noted. tt)

pub asleep_word_waits :
    (w : Waiter)
    → (waiting (asleep_word w) ≡ awaits (pc_of w))
      × (storing (asleep_word w) ≡ false)
      × ((noted : ℕ) → Local (pc_of w) noted → Locals (asleep_word w) noted)
asleep_word_waits w = (refl, refl, λ noted l. l)
