-- ===== src/Fastsync/Cond/Leaders/Calm.antt =====
-- Threads of Fastsync/Cond/System.antt that neither lead nor begin to lead.
use reeact_v.Prelude.{
  ℕ, ◌+◌, ◌≡◌, refl, sym, ap, ◌∙◌, Bool, true, false, List, arith, assign, ◌==◌, if◌then◌else◌,
}
use reeact_v.Fastsync.Cond.{Pc, descend, note}
use reeact_v.Fastsync.Cond.System.{
  Waiter, Thread, calling, asleep_seq, asleep_word, leave, resume, System, is_asleep_seq, wake, at,
  Begins,
}
use reeact_v.Fastsync.Cond.Invariant.{AtPlace}
use reeact_v.Fastsync.Cond.Invariant.Places.{leave_all, resume_all, begins_all, assign_all}
use reeact_v.Fastsync.Cond.Safety.{has_mutex}
use reeact_v.Fastsync.Cond.Leaders.{times, releasing, leads, descending, noting, relies, Leaders}
use reeact_v.Fastsync.Cond.Leaders.Single.{quiet}

-- A thread that leads nothing by where it stands, and relies on nothing.
abbrev pub Plain : Thread → Type 0
Plain t = (releasing t ≡ 0) × (descending t ≡ false) × (noting t ≡ false)

pub leave-Plain : (held : Bool) → Plain (leave held)
leave-Plain = leave_all Plain (refl, refl, refl) (refl, refl, refl)

pub resume-Plain : (held : Bool) (p : Pc) (code : ℕ) → Plain (resume held p code)
resume-Plain = resume_all Plain (refl, refl, refl) (refl, refl, refl)

pub Begins-Plain : {held : Bool} {p : Pc} → Begins held p → Plain (calling held p)
Begins-Plain {held} =
    begins_all (λ p. Plain (calling held p)) (λ p. (refl, refl, refl)) (refl, refl, refl)
      (λ kind. (refl, refl, refl))

pub asleep_releases : (t : Thread) → is_asleep_seq t ≡ true → releasing t ≡ 0
asleep_releases asleep_seq a = refl
asleep_releases t a = cc

pub descending_only : (held : Bool) (q : Pc) → descending (calling held q) ≡ true → q ≡ descend
descending_only held descend w = refl
descending_only held q w = cc

pub noting_only : (held : Bool) (q : Pc) → noting (calling held q) ≡ true → q ≡ note
noting_only held note w = refl
noting_only held q w = cc

pub relies_not :
    (held : Bool) (q : Pc)
    → relies q ≡ false
    → (descending (calling held q) ≡ false) × (noting (calling held q) ≡ false)
relies_not held descend e = cc (e)
relies_not held note e = (refl, cc (e))
relies_not held q e = (refl, refl)

pub owns_there :
    (m : ℕ) (t : Thread) (mutex : ℕ)
    → AtPlace m t mutex
    → (descending t ≡ true → has_mutex t ≡ true) × (noting t ≡ true → has_mutex t ≡ true)
owns_there m (calling held descend) mutex at =
    (λ _. ap (λ b. has_mutex (calling b descend)) at.0, λ w. cc (w))
owns_there m (calling held note) mutex at =
    (λ w. cc (w), λ _. ap (λ b. has_mutex (calling b note)) at.0)
owns_there m t mutex at = (λ w. cc, λ w. cc)

pub lead_idle :
    (d c : ℕ) (frames : List ℕ) (t : Thread)
    → releasing t ≡ 0
    → leads d (t, c, frames) ≡ times d frames
lead_idle d c frames t e = ground (arith, e)

-- What a change of a thread keeps.
abbrev pub Keeps : Thread → Thread → Type 0
Keeps t t' =
    (releasing t' ≡ releasing t)
    × (descending t' ≡ true → descending t ≡ true)
    × (noting t' ≡ true → noting t ≡ true)

pub Keeps-refl : (t : Thread) → Keeps t t
Keeps-refl t = (refl, λ w. w, λ w. w)

pub Plain-Keeps : (t t' : Thread) → releasing t ≡ 0 → Plain t' → Keeps t t'
Plain-Keeps t t' idle p = (p.0 ∙ sym idle, λ w. cc (w, p.1), λ w. cc (w, p.2))

pub wake-Keeps : (t : Thread) → Keeps t (wake t)
wake-Keeps (asleep_word Waiter.relocking) = (refl, λ w. w, λ w. w)
wake-Keeps (asleep_word (Waiter.unlocking cur p)) = (refl, λ w. w, λ w. w)
wake-Keeps (asleep_word (Waiter.plainly p)) = (refl, λ w. w, λ w. w)
wake-Keeps t = (refl, λ w. w, λ w. w)

module _ {n : ℕ} {s : System} (leaders : Leaders n s) where
  pub threads :
      (thread : ℕ → Thread)
      → ((j : ℕ) → Keeps (s.thread j) (thread j))
      → Leaders n (record s { thread = thread })
  threads thread keeps =
      quiet leaders s.cond s.state thread s.place (λ c. (refl, refl))
        (λ j c. ap (λ x. times c (s.frames j) + (if s.place j == c then x else 0)) (keeps j).0)
        (λ j. (λ w. ((keeps j).1 w, refl), λ w. ((keeps j).2 w, refl)))

  pub on_top :
      (thread : ℕ → Thread) (i : ℕ) (t : Thread)
      → ((j : ℕ) → Keeps (s.thread j) (thread j))
      → Keeps (s.thread i) t
      → Leaders n (record s { thread = assign thread i t })
  on_top thread i t all one =
      threads (assign thread i t) (assign_all (λ j x. Keeps (s.thread j) x) thread i t all one)

  pub only :
      (i : ℕ) (t : Thread)
      → Keeps (s.thread i) t
      → Leaders n (record s { thread = assign s.thread i t })
  only i t = on_top s.thread i t (λ j. Keeps-refl (s.thread j))
