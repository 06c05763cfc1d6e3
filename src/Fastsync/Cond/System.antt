-- ===== src/Fastsync/Cond/System.antt =====
-- `n` threads that use condition variables, some of them the parents of others, and one mutex,
-- interleaved in any order, over any kernel with futexes.
use reeact_v.Prelude.{
  ℕ, ◌+◌, ◌%◌, ◌^◌, ◌<◌, ◌≡◌, Bool, true, false, ◌&&◌, some, ltb, List, [], ◌∷◌, ◌==◌,
  if◌then◌else◌, assign, tally,
}
use reeact_v.Fastsync.Futex.{Futex}
use reeact_v.Fastsync.Mutex.{
  starts, fastsync_mutex_init, fastsync_mutex_lock, fastsync_mutex_trylock, fastsync_mutex_unlock,
}
use reeact_v.Fastsync.Mutex as Mutex
use reeact_v.Fastsync.Mutex.System as Lock
use reeact_v.Fastsync.Cond.{
  Cond, Pc, signal_count, relock, unlock, note, raise, plain, answer, go, ret, wait_seq, wake_seq,
  requeue, wait_word, wake_word, call_parent, load, fastsync_cond_init, fastsync_cond_wait,
  fastsync_cond_signal, fastsync_cond_signal_count, fastsync_cond_broadcast, access,
}

-- Where a call that sleeps on the word of the mutex goes on.
pub data Waiter : Type 0 where
  relocking : Waiter
  unlocking : (cur : ℕ) → Mutex.Pc → Waiter
  plainly : Mutex.Pc → Waiter

abbrev pub pc_of : Waiter → Pc
pc_of relocking = relock
pc_of (unlocking cur p) = unlock cur p
pc_of (plainly p) = plain p

-- A thread outside, in its critical section, in a call that it began with or without the mutex,
-- asleep in FUTEX_WAIT on `seq`, or asleep on the word of the mutex.
pub data Thread : Type 0 where
  outside critical : Thread
  calling : (held : Bool) → Pc → Thread
  asleep_seq : Thread
  asleep_word : Waiter → Thread

abbrev pub leave : (held : Bool) → Thread
leave true = critical
leave false = outside

abbrev pub from_lock : Lock.Thread → Thread
from_lock Lock.critical = critical
from_lock _ = outside

-- What a thread is when its call returns. Every return of a wait is with the mutex. Of the mutex
-- calls only unlock calls FUTEX_WAKE.
abbrev pub resume : (held : Bool) → Pc → (code : ℕ) → Thread
resume held (plain p) code = from_lock (Lock.resume p code)
resume held (answer _) code = outside
resume held _ code = leave held

-- The objects by their addresses; for each thread the object that its call is at, and those of the
-- waits that its call at the parent comes back to, the innermost first; for each thread the number
-- at the pointer `count` of its `fastsync_cond_signal_count`. The rest are ghosts: how often `seq`
-- of each object has been raised, and its value without the wrap-around; and both of them when a
-- thread last read it in a wait.
pub record System : Type 0 where
  pub cond : ℕ → Cond
  pub state : ℕ
  pub thread : ℕ → Thread
  pub place : ℕ → ℕ
  pub frames : ℕ → List ℕ
  pub count : ℕ → ℕ
  pub raised : ℕ → ℕ
  pub value : ℕ → ℕ
  pub seen : ℕ → ℕ
  pub noted : ℕ → ℕ

-- The object that the call of a thread is at.
abbrev pub at : System → (i : ℕ) → Cond
at s i = s.cond (s.place i)

abbrev pub raises : Pc → ℕ
raises (raise _) = 1
raises (Pc.store _) = 1
raises _ = 0

-- The value that an access leaves, from the value and what the thread noted.
abbrev pub value_after : Pc → (value noted : ℕ) → ℕ
value_after (raise _) value noted = value + 1
value_after (Pc.store _) value noted = noted + 1
value_after _ value noted = value

-- What a thread notes by an access.
abbrev pub notes : Pc → (now before : ℕ) → ℕ
notes note now before = now
notes load now before = now
notes _ now before = before

-- What `fastsync_cond_signal_count` stores at its pointer `count`: the result of FUTEX_WAKE, which is
-- the number of threads that it has woken.
abbrev pub number : (n : ℕ) → (ℕ → Bool) → ℕ
number n set = tally (λ b. if b then 1 else 0) n set

abbrev pub stores_count : Pc → (result before : ℕ) → ℕ
stores_count (Pc.wake signal_count) result before = result
stores_count _ result before = before

abbrev pub is_asleep_seq : Thread → Bool
is_asleep_seq asleep_seq = true
is_asleep_seq _ = false

abbrev pub is_asleep_word : Thread → Bool
is_asleep_word (asleep_word _) = true
is_asleep_word _ = false

-- The sleepers on `seq` of any object, and of the one at `c`.
abbrev pub all_sleepers : ℕ → (ℕ → Thread) → ℕ → Bool
all_sleepers n thread i = ltb i n && is_asleep_seq (thread i)

abbrev pub seq_sleepers : ℕ → (ℕ → Thread) → (place : ℕ → ℕ) → (c : ℕ) → ℕ → Bool
seq_sleepers n thread place c i = all_sleepers n thread i && place i == c

abbrev pub word_sleepers : ℕ → (ℕ → Thread) → ℕ → Bool
word_sleepers n thread i = ltb i n && is_asleep_word (thread i)

abbrev pub rouse_seq : (ℕ → Bool) → (ℕ → Thread) → ℕ → Thread
rouse_seq woken thread i = if woken i then calling true relock else thread i

abbrev pub wake : Thread → Thread
wake (asleep_word w) = calling true (pc_of w)
wake t = t

abbrev pub rouse_word : (ℕ → Bool) → (ℕ → Thread) → ℕ → Thread
rouse_word woken thread i = if woken i then wake (thread i) else thread i

abbrev pub move_seq : (woken moved : ℕ → Bool) → (ℕ → Thread) → ℕ → Thread
move_seq woken moved thread i =
    if woken i then calling true relock else if moved i then asleep_word relocking else thread i

-- A call that a thread begins, with or without the mutex, and the place of its first access.
pub data Begins : (held : Bool) → Pc → Type 0 where
  lock : {p : Mutex.Pc} → fastsync_mutex_lock false ≡ starts p → Begins false (plain p)
  trylock : {p : Mutex.Pc} → fastsync_mutex_trylock false ≡ starts p → Begins false (plain p)
  unlock_it : {p : Mutex.Pc} → fastsync_mutex_unlock false ≡ starts p → Begins true (plain p)
  wait : {p : Pc} → fastsync_cond_wait false false ≡ some p → Begins true p
  signal_it : (held : Bool) {p : Pc} → fastsync_cond_signal false ≡ some p → Begins held p
  signal_counted : (held : Bool) → Begins held fastsync_cond_signal_count
  broadcast_it : (held : Bool) {p : Pc} → fastsync_cond_broadcast false ≡ some p → Begins held p

-- Every operation of a thread, one access to a step. FUTEX_WAIT may return at once, whatever the
-- word holds, and a sleeper may be interrupted. FUTEX_WAIT on `seq` looks at its low half.
pub data Step (k : Futex) (n m : ℕ) (s : System) : System → Type 0 where
  call :
      (i c : ℕ) (held : Bool) {p : Pc}
      → i < n
      → s.thread i ≡ leave held
      → Begins held p
      → Step k n m s
          (record s { thread = assign s.thread i (calling held p); place = assign s.place i c })
  advance :
      (i : ℕ) {held : Bool} {p q : Pc} {cond : Cond} {state : ℕ}
      → i < n
      → s.thread i ≡ calling held p
      → access m p (at s i) s.state ≡ go cond state q
      → Step k n m s (record {
        cond = assign s.cond (s.place i) cond;
        state = state;
        thread = assign s.thread i (calling held q);
        place = s.place;
        frames = s.frames;
        raised = assign s.raised (s.place i) (s.raised (s.place i) + raises p);
        value = assign s.value (s.place i) (value_after p (s.value (s.place i)) (s.noted i));
        seen = assign s.seen i (notes p (s.raised (s.place i)) (s.seen i));
        noted = assign s.noted i (notes p (s.value (s.place i)) (s.noted i));
        count = s.count;
      })
  return :
      (i : ℕ) {held : Bool} {p : Pc} {cond : Cond} {state code : ℕ}
      → i < n
      → s.thread i ≡ calling held p
      → access m p (at s i) s.state ≡ ret cond state code
      → s.frames i ≡ []
      → Step k n m s (record s {
        cond = assign s.cond (s.place i) cond;
        state = state;
        thread = assign s.thread i (resume held p code);
      })
  -- `fastsync_cond_wait(cond->parent, mutex)` within the wait, and its return
  call_up :
      (i : ℕ) {held : Bool} {p p' : Pc} {cond : Cond} {parent : ℕ}
      → i < n
      → s.thread i ≡ calling held p
      → access m p (at s i) s.state ≡ call_parent cond parent load
      → fastsync_cond_wait false false ≡ some p'
      → Step k n m s (record s {
        cond = assign s.cond (s.place i) cond;
        thread = assign s.thread i (calling held p');
        place = assign s.place i parent;
        frames = assign s.frames i (s.place i ∷ s.frames i);
      })
  come_back :
      (i : ℕ) {held : Bool} {p : Pc} {cond : Cond} {state code c : ℕ} {rest : List ℕ}
      → i < n
      → s.thread i ≡ calling held p
      → access m p (at s i) s.state ≡ ret cond state code
      → s.frames i ≡ c ∷ rest
      → Step k n m s (record s {
        cond = assign s.cond (s.place i) cond;
        state = state;
        thread = assign s.thread i (calling held load);
        place = assign s.place i c;
        frames = assign s.frames i rest;
      })
  sleep_seq :
      (i : ℕ) {held : Bool} {p : Pc} {val : ℕ}
      → i < n
      → s.thread i ≡ calling held p
      → access m p (at s i) s.state ≡ wait_seq val relock
      → k.Sleeps ((at s i).seq % 2 ^ 32) val
      → Step k n m s (record s { thread = assign s.thread i asleep_seq })
  wait_seq_returns :
      (i : ℕ) {held : Bool} {p q : Pc} {val : ℕ}
      → i < n
      → s.thread i ≡ calling held p
      → access m p (at s i) s.state ≡ wait_seq val q
      → Step k n m s (record s { thread = assign s.thread i (calling held q) })
  interrupt_seq :
      (i : ℕ)
      → i < n
      → s.thread i ≡ asleep_seq
      → Step k n m s (record s { thread = assign s.thread i (calling true relock) })
  sleep_word :
      (i : ℕ) {held : Bool} {p : Pc} (w : Waiter) {val : ℕ}
      → i < n
      → s.thread i ≡ calling held p
      → access m p (at s i) s.state ≡ wait_word val (pc_of w)
      → k.Sleeps s.state val
      → Step k n m s (record s { thread = assign s.thread i (asleep_word w) })
  wait_word_returns :
      (i : ℕ) {held : Bool} {p q : Pc} {val : ℕ}
      → i < n
      → s.thread i ≡ calling held p
      → access m p (at s i) s.state ≡ wait_word val q
      → Step k n m s (record s { thread = assign s.thread i (calling held q) })
  interrupt_word :
      (i : ℕ) {w : Waiter}
      → i < n
      → s.thread i ≡ asleep_word w
      → Step k n m s (record s { thread = assign s.thread i (calling true (pc_of w)) })
  wake_seq_up :
      (i : ℕ) {held : Bool} {p q : Pc} {count : ℕ} {woken : ℕ → Bool}
      → i < n
      → s.thread i ≡ calling held p
      → access m p (at s i) s.state ≡ wake_seq count q
      → k.Wakes count (seq_sleepers n s.thread s.place (s.place i)) woken
      → Step k n m s (record s {
        thread = assign (rouse_seq woken s.thread) i (calling held q);
        count = assign s.count i (stores_count p (number n woken) (s.count i));
      })
  wake_word_up :
      (i : ℕ) {held : Bool} {p q : Pc} {count : ℕ} {woken : ℕ → Bool}
      → i < n
      → s.thread i ≡ calling held p
      → access m p (at s i) s.state ≡ wake_word count q
      → k.Wakes count (word_sleepers n s.thread) woken
      → Step k n m s (record s { thread = assign (rouse_word woken s.thread) i (calling held q) })
  requeue_up :
      (i : ℕ) {held : Bool} {p q : Pc} {count limit : ℕ} {woken moved : ℕ → Bool}
      → i < n
      → s.thread i ≡ calling held p
      → access m p (at s i) s.state ≡ requeue count limit m q
      → k.Requeues count limit (seq_sleepers n s.thread s.place (s.place i)) woken moved
      → Step k n m s
          (record s { thread = assign (move_seq woken moved s.thread) i (calling held q) })

-- An object as its initialization leaves it. `fastsync_cond_init` leaves the other fields as they
-- are, and is called on an object that is not in use.
pub record Fresh (cond : Cond) : Type 0 where
  pub blank : Cond
  pub unused : blank.use_child ≡ 0
  pub made : fastsync_cond_init false blank ≡ (0, cond)

-- The mutex and the condition variables as their initializations leave them, with every thread
-- outside.
pub data Reach (k : Futex) (n m : ℕ) : System → Type 0 where
  start :
      (old : ℕ) {state : ℕ} {cond : ℕ → Cond} {count : ℕ → ℕ}
      → fastsync_mutex_init false old ≡ (0, state)
      → ((c : ℕ) → Fresh (cond c))
      → Reach k n m (record {
        cond = cond;
        state = state;
        thread = λ _. outside;
        place = λ _. 0;
        frames = λ _. [];
        raised = λ _. 0;
        value = λ _. 0;
        seen = λ _. 0;
        noted = λ _. 0;
        count = count;
      })
  later : {s t : System} → Reach k n m s → Step k n m s t → Reach k n m t
