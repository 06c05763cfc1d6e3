-- ===== src/Fastsync/Cond/Orphans/Noter.antt =====
-- A thread that is about to read `seq` in Fastsync/Cond/System.antt, and who leads there.
use mathlib.Core.Path.{subst}
use reeact_v.Prelude.{
  ℕ, ◌≤◌, ◌<◌, ◌≡◌, ◌≢◌, ◌⊎◌, inl, inr, refl, ap, ◌∙◌, Bool, true, false, List, arith, ℕ_discrete,
  tally_pos,
}
use reeact_v.Fastsync.Futex.{Futex}
use reeact_v.Fastsync.Cond.{Pc, load, note, raise}
use reeact_v.Fastsync.Cond.System.{
  Thread, calling, asleep_word, System, at, raises, value_after, Reach,
}
use reeact_v.Fastsync.Cond.Invariant.{AtPlace}
use reeact_v.Fastsync.Cond.Steps.{Reach-Inv}
use reeact_v.Fastsync.Cond.Safety.{has_mutex, cond_mutual_exclusion}
use reeact_v.Fastsync.Cond.Counts.{awaits, waiting, stores}
use reeact_v.Fastsync.Cond.Leaders.{releasing, leads, view}
use reeact_v.Fastsync.Cond.Leaders.Steps.{Reach-Leaders}
use reeact_v.Fastsync.Cond.Orphans.{unraised, weigh, Some, awake}

pub raises-cases :
    (p : Pc) (value noted : ℕ)
    → ((raises p ≡ 1) × (awaits p ≡ false))
      ⊎ ((value_after p value noted ≡ value) × (stores p ≡ false))
raises-cases (raise k) value noted = inl (refl, refl)
raises-cases (Pc.store old) value noted = inl (refl, refl)
raises-cases p value noted = inr (refl, refl)

pub awake-waiting : (t : Thread) → awake t ≡ true → waiting t ≡ true
awake-waiting (calling held p) a = a
awake-waiting (asleep_word w) a = a
awake-waiting t a = cc

releasing_owns :
    (m : ℕ) (t : Thread) (mutex : ℕ) → AtPlace m t mutex → 0 < releasing t → has_mutex t ≡ true
releasing_owns m (calling held load) mutex at more = ap (λ b. has_mutex (calling b load)) at.0
releasing_owns m (calling held (Pc.store old)) mutex at more =
    ap (λ b. has_mutex (calling b load)) at.0
releasing_owns m (calling held Pc.move) mutex at more = ap (λ b. has_mutex (calling b load)) at.0
releasing_owns m (calling held Pc.clear) mutex at more = ap (λ b. has_mutex (calling b load)) at.0
releasing_owns m t mutex at more = ground arith

-- A lead of a thread that releases nothing by where it stands is among the calls below.
leads-weigh :
    (f : Pc → ℕ) (c : ℕ) (t : Thread) (place : ℕ) (frames : List ℕ)
    → releasing t ≡ 0
    → leads c (t, place, frames) ≤ weigh f c (t, place, frames)
leads-weigh f c t place frames idle = ground (arith, idle)

module _ {k : Futex} {n m : ℕ} {s : System} (r : Reach k n m s) where
  -- A thread that is about to read `seq` does not lead.
  pub noter_leads :
      (i : ℕ) {held : Bool}
      → i < n
      → s.thread i ≡ calling held note
      → (at s i).use_child ≢ 0
      → Some unraised n s (s.place i)
  noter_leads i {held} lt e used =
      let leaders = Reach-Leaders r in
      let (x, lt', more) =
        tally_pos (leads (s.place i)) n (view s) (omega (arith, leaders.used (s.place i), used)) in
      let idle : releasing (s.thread x) ≡ 0 = elim (ℕ_discrete (releasing (s.thread x)) 0) [
        | yes z ↦ z
        | no some_lead ↦
            let owns =
              releasing_owns m (s.thread x) (at s x).mutex ((Reach-Inv r).spot x).0
                (omega (arith, some_lead)) in
            let mine : has_mutex (s.thread i) ≡ true = rw e (
              noter_owns held
                (subst (λ t. AtPlace m t (at s i).mutex) e ((Reach-Inv r).spot i).0).0) in
            let same = cond_mutual_exclusion r x i lt' lt owns mine in
            ap (λ x. releasing (s.thread x)) same ∙ ap releasing e
      ] in
      (
        x,
        lt',
        omega (
          arith,
          more,
          leads-weigh unraised (s.place i) (s.thread x) (s.place x) (s.frames x) idle,
        ),
      )
    where
      noter_owns : (held : Bool) → held ≡ true → has_mutex (calling held note) ≡ true
      noter_owns held owns = ap (λ b. has_mutex (calling b note)) owns
