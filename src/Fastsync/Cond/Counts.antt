-- ===== src/Fastsync/Cond/Counts.antt =====
-- The values of `seq` that the threads of Fastsync/Cond/System.antt note, and its raises. The wait
-- of a child raises it by a read and a write, between which a signal may raise it as well.
pub mod Calm
pub mod Writes
pub mod Advance
pub mod Steps
pub mod Missed
use reeact_v.Prelude.{
  ℕ, ◌+◌, ◌%◌, ◌^◌, ◌<◌, ◌≤◌, ◌≡◌, ◌⊎◌, inl, inr, refl, Bool, true, false, none, some, Option,
  arith,
}
use reeact_v.Fastsync.Mutex.{fastsync_mutex_unlock}
use reeact_v.Fastsync.Mutex as Mutex
use reeact_v.Fastsync.Cond.{
  Cond, Pc, check, choose, descend, load, store, note, unlock, await, raise, at_child, at_parent,
  after_raise, within_unlock, within_call, enter_unlock, go, ret, access,
}
use reeact_v.Fastsync.Cond.System.{
  unlocking, pc_of, Thread, calling, asleep_seq, asleep_word, System, raises, value_after, notes,
}

-- A thread that waits for `seq` to leave the value that it noted.
abbrev pub awaits : Pc → Bool
awaits (unlock _ _) = true
awaits (await _) = true
awaits _ = false

abbrev pub waiting : Thread → Bool
waiting (calling held p) = awaits p
waiting asleep_seq = true
waiting (asleep_word w) = awaits (pc_of w)
waiting _ = false

abbrev pub stores : Pc → Bool
stores (store _) = true
stores _ = false

abbrev pub storing : Thread → Bool
storing (calling held p) = stores p
storing _ = false

-- What a thread has in its local variable.
abbrev pub Local : Pc → (noted : ℕ) → Type 0
Local (unlock cur _) noted = cur ≡ noted % 2 ^ 32
Local (await cur) noted = cur ≡ noted % 2 ^ 32
Local (store old) noted = old ≡ noted % 2 ^ 64
Local _ noted = Unit

abbrev pub Locals : Thread → (noted : ℕ) → Type 0
Locals (calling held p) noted = Local p noted
Locals (asleep_word w) noted = Local (pc_of w) noted
Locals _ noted = Unit

-- What a waiter noted, against the value and the raises of its object.
abbrev pub Behind : (value raised noted seen : ℕ) → Type 0
Behind value raised noted seen =
    (noted ≤ value) × (value + seen ≤ noted + raised) × (seen < raised → noted < value)

pub record Counts (n : ℕ) (s : System) : Type 0 where
  pub counted : (c : ℕ) → (s.cond c).seq ≡ s.value c % 2 ^ 64
  pub locals : (j : ℕ) → Locals (s.thread j) (s.noted j)
  pub behind :
      (j : ℕ)
      → j < n
      → waiting (s.thread j) ≡ true
      → Behind (s.value (s.place j)) (s.raised (s.place j)) (s.noted j) (s.seen j)
  pub loaded : (i : ℕ) → i < n → storing (s.thread i) ≡ true → s.noted i ≤ s.value (s.place i)
  -- A thread that is about to write `seq` has read it after every waiter.
  pub latest :
      (i j : ℕ)
      → i < n
      → j < n
      → storing (s.thread i) ≡ true
      → waiting (s.thread j) ≡ true
      → s.place i ≡ s.place j
      → s.noted j ≤ s.noted i

choose-seq :
    (cond : Cond) (parent : Option ℕ) (value noted now : ℕ)
    → Local (at_child cond parent) noted
      × (awaits (at_child cond parent) ≡ false)
      × (stores (at_child cond parent) ≡ false)
unfolding at_child
choose-seq cond none value noted now = ground arith
choose-seq cond (some parent) value noted now = ground arith

-- What an access makes of `seq` and of the locals.
pub record Onto (p q : Pc) (value noted : ℕ) (cond : Cond) : Type 0 where
  pub counted : cond.seq ≡ value_after p value noted % 2 ^ 64
  pub locals : Local q (notes p value noted)
  pub awaited : awaits q ≡ true → (p ≡ note) ⊎ (awaits p ≡ true)
  pub stored : stores q ≡ true → p ≡ load

pub go-Onto :
    (m : ℕ) (p : Pc) {q : Pc} (cond : Cond) {cond' : Cond} (state value noted : ℕ) {state' : ℕ}
    → cond.seq ≡ value % 2 ^ 64
    → Local p noted
    → access m p cond state ≡ go cond' state' q
    → Onto p q value noted cond'
unfolding access at_parent after_raise within_unlock within_call enter_unlock fastsync_mutex_unlock
    Mutex.access
go-Onto m check cond state value noted counted locals e = ground arith
go-Onto m choose cond state value noted counted locals e =
    ground (arith, choose-seq cond cond.parent value noted value)
go-Onto m p cond state value noted counted locals e = ground arith

pub return-seq :
    (m : ℕ) (p : Pc) (cond : Cond) {cond' : Cond} (state : ℕ) {state' code : ℕ}
    → access m p cond state ≡ ret cond' state' code
    → cond'.seq ≡ cond.seq
unfolding access at_parent after_raise within_unlock within_call enter_unlock fastsync_mutex_unlock
    Mutex.access
return-seq m check cond state e = ground arith
return-seq m p cond state e = ground arith

-- A waiter, after an access at its object.
pub go-Behind :
    (p : Pc) (value raised noted : ℕ) {mine seen : ℕ}
    → Behind value raised mine seen
    → (stores p ≡ true → (mine ≤ noted) × (noted ≤ value))
    → Behind (value_after p value noted) (raised + raises p) mine seen
go-Behind (raise k) value raised noted behind bound = ground arith
go-Behind (store old) value raised noted behind bound = ground (arith, bound refl)
go-Behind p value raised noted behind bound = ground arith

-- The numbers of `fastsync_cond_signal_count` do not count.
pub recount-Counts :
    {n : ℕ} {s : System} (count : ℕ → ℕ) → Counts n s → Counts n (record s { count = count })
recount-Counts count before = record {
  counted = before.counted;
  locals = before.locals;
  behind = before.behind;
  loaded = before.loaded;
  latest = before.latest;
}
