-- ===== src/Fastsync/Barrier/Tree/Groups.antt =====
-- A tree of barriers of src/fastsync/fastsync_barrier.c as its groups, each in step with its part at
-- the parent.
use mathlib.Core.Path.{subst}
use reeact_v.Prelude.{
  ℕ, ◌<◌, ◌≡◌, refl, ap, ◌∙◌, none, some, arith, assign, ◌==◌, ℕ_discrete, le-tally, Bool, true,
}
use reeact_v.Fastsync.Futex.{Futex}
use reeact_v.Fastsync.Barrier.{blocking, interproc, Bar, fastsync_barrier_init}
use reeact_v.Fastsync.Barrier.System.{Thread, System, Step, Reach}
use reeact_v.Fastsync.Barrier.Invariant.{Counts, ones, sum-ones, sum}
use reeact_v.Fastsync.Barrier.Tree.{Tree, starting}
use reeact_v.Fastsync.Barrier.Tree.Constants.{Step-parent}
use reeact_v.Fastsync.Barrier.Tree.Coupling.{Coupled}

pub leaf-Counts :
    {groups : ℕ} {size : ℕ → ℕ}
    → Counts interproc groups size
    → (g : ℕ) → g < groups
    → Counts blocking (size g) ones
leaf-Counts {groups} {size} counts g lt = record {
  some_thread = counts.positive g lt;
  positive = λ i _. omega arith;
  own = λ i _. refl;
  fits = omega (arith, sum-ones (size g), le-tally (λ (w : ℕ). w) groups size g lt, counts.fits);
}

-- A group that is a barrier by itself, below a parent, in step with its part there.
pub record Group (k : Futex) (n : ℕ) (l : System) (t : Thread) : Type 0 where
  pub reach : Reach k blocking n ones l
  pub parent : ℕ
  pub below : l.bar.parent_bar ≡ some parent
  pub coupled : Coupled n l t

pub record TreeInv (k : Futex) (groups : ℕ) (size : ℕ → ℕ) (t : Tree) : Type 0 where
  pub root : Reach k interproc groups size t.root
  pub group : (g : ℕ) → g < groups → Group k (size g) (t.leaf g) (t.root.thread g)

pub next_Group :
    {k : Futex} {n : ℕ} {l l' : System} {t t' : Thread}
    → Group k n l t
    → Step k blocking n l l'
    → Coupled n l' t'
    → Group k n l' t'
next_Group h st c = record {
  reach = Reach.later h.reach st;
  parent = h.parent;
  below = Step-parent st ∙ h.below;
  coupled = c;
}

-- One group and its part at the parent change.
pub next_groups :
    {k : Futex} {groups : ℕ} {size : ℕ → ℕ} (leaf : ℕ → System) (part : ℕ → Thread)
    → ((h : ℕ) → h < groups → Group k (size h) (leaf h) (part h))
    → (g : ℕ) (l : System) (c : Thread) → Group k (size g) l c
    → (h : ℕ) → h < groups
    → Group k (size h) (assign leaf g l h) (assign part g c h)
next_groups {k} {size = size} leaf part group g l c changed h lt = elim (ℕ_discrete g h) [
  | yes same ↦
      let here : (g == h) ≡ true = ground (arith, same) in
      rw here (subst (λ h. Group k (size h) l c) same changed)
  | no other ↦ let there : (g == h) ≡ Bool.false = ground (arith, other) in rw there (group h lt)
]

pub assign_self : (f : ℕ → Thread) (g h : ℕ) → assign f g (f g) h ≡ f h
assign_self f g h = ground arith

pub start-TreeInv :
    (k : Futex) (groups : ℕ) (size : ℕ → ℕ) (old : ℕ → Bar) (old_root : Bar) (parent : ℕ)
    {bars : ℕ → Bar} {bar : Bar}
    → ((g : ℕ) → fastsync_barrier_init Bool.false (old g) (size g) ≡ (0, bars g))
    → fastsync_barrier_init Bool.false old_root (sum groups size) ≡ (0, bar)
    → TreeInv k groups size (record {
      leaf = λ g. starting (record (bars g) { parent_bar = some parent }) ones;
      root = starting (record bar { parent_bar = none }) size;
    })
start-TreeInv k groups size old old_root parent {bars} {bar} leaves_set root_set = record {
  root = Reach.start old_root none root_set;
  group = λ g lt. record {
    reach =
        Reach.start (old g) (some parent)
          (ap (fastsync_barrier_init Bool.false (old g)) (sum-ones (size g)) ∙ leaves_set g);
    parent = parent;
    below = refl;
    coupled = record {
      idle = λ _. (refl, refl);
      busy = λ i lt_i p e. absurd (ground (arith, e));
      done = λ i lt_i e. absurd (ground (arith, e));
    };
  };
}
