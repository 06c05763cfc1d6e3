-- ===== src/Fastsync/Barrier/Tree/Constants.antt =====
-- What no step at a barrier of src/fastsync/fastsync_barrier.c changes: its parent, and the counts of
-- its callers.
use reeact_v.Prelude.{ℕ, ◌≡◌, refl, ◌∙◌, none, arith}
use reeact_v.Fastsync.Futex.{Futex}
use reeact_v.Fastsync.Barrier.{
  Kind, Bar, Pc, enter, arrive, store, go, ret, call_parent, access, write_reset,
}
use reeact_v.Fastsync.Barrier.System.{
  System, Step, call, advance, climb, stay, descend, return, sleep, wait_returns, interrupt,
  wake_up, Reach, start, later,
}

go-parent :
    (kind : Kind) (p q : Pc) (bar bar' : Bar)
    → access kind p bar ≡ go bar' q
    → bar'.parent_bar ≡ bar.parent_bar
unfolding access write_reset
go-parent kind (enter inc) q bar bar' e = ground arith
go-parent kind (arrive inc cur) q bar bar' e = ground arith
go-parent kind (store old) q bar bar' e = ground arith
go-parent kind p q bar bar' e = ground arith

ret-parent :
    (kind : Kind) (p : Pc) (bar bar' : Bar) (code : ℕ)
    → access kind p bar ≡ ret bar' code
    → bar'.parent_bar ≡ bar.parent_bar
unfolding access write_reset
ret-parent kind (arrive inc cur) bar bar' code e = ground arith
ret-parent kind (store old) bar bar' code e = ground arith
ret-parent kind p bar bar' code e = ground arith

-- A barrier without a parent calls none.
pub root-call_parent :
    (kind : Kind) (p q : Pc) (bar bar' : Bar) (parent count : ℕ)
    → bar.parent_bar ≡ none
    → access kind p bar ≡ call_parent bar' parent count q
    → ⊥
unfolding access write_reset
root-call_parent kind (arrive inc cur) q bar bar' parent count no_parent e = ground arith
root-call_parent kind p q bar bar' parent count no_parent e = ground arith

climb-parent :
    (kind : Kind) (p q : Pc) (bar bar' : Bar) (parent count : ℕ)
    → access kind p bar ≡ call_parent bar' parent count q
    → bar'.parent_bar ≡ bar.parent_bar
unfolding access write_reset
climb-parent kind (arrive inc cur) q bar bar' parent count e = ground arith
climb-parent kind p q bar bar' parent count e = ground arith

pub Step-parent :
    {k : Futex} {kind : Kind} {n : ℕ} {s t : System}
    → Step k kind n s t
    → t.bar.parent_bar ≡ s.bar.parent_bar
Step-parent (call i lt here) = refl
Step-parent {kind} {s} (advance i {p} {q} {bar} lt here e) = go-parent kind p q s.bar bar e
Step-parent {kind} {s} (climb i {p} {q} {bar} {parent} {count} lt here e) =
    climb-parent kind p q s.bar bar parent count e
Step-parent (stay i p' lt here) = refl
Step-parent (descend i lt here) = refl
Step-parent {kind} {s} (return i {p} {bar} {code} lt here e) = ret-parent kind p s.bar bar code e
Step-parent (sleep i lt here e sleeps) = refl
Step-parent (wait_returns i lt here e) = refl
Step-parent (interrupt i lt here) = refl
Step-parent (wake_up i lt here e wakes) = refl

pub Step-weight :
    {k : Futex} {kind : Kind} {n : ℕ} {s t : System}
    → Step k kind n s t
    → (j : ℕ) → (t.thread j).weight ≡ (s.thread j).weight
Step-weight (call i lt here) j = ground arith
Step-weight (advance i lt here e) j = ground arith
Step-weight (climb i lt here e) j = ground arith
Step-weight (stay i p' lt here) j = ground arith
Step-weight (descend i lt here) j = ground arith
Step-weight (return i lt here e) j = ground arith
Step-weight (sleep i lt here e sleeps) j = ground arith
Step-weight (wait_returns i lt here e) j = ground arith
Step-weight (interrupt i lt here) j = ground arith
Step-weight (wake_up i lt here e wakes) j = ground arith

pub Reach-weight :
    {k : Futex} {kind : Kind} {n : ℕ} {weights : ℕ → ℕ} {s : System}
    → Reach k kind n weights s
    → (j : ℕ) → (s.thread j).weight ≡ weights j
Reach-weight (start old parent e) j = refl
Reach-weight (later r st) j = Step-weight st j ∙ Reach-weight r j
