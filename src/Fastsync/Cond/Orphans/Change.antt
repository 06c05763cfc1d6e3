-- ===== src/Fastsync/Cond/Orphans/Change.antt =====
-- Steps of Fastsync/Cond/System.antt that change threads only, none of which begins to wait.
use reeact_v.Prelude.{ℕ, ◌≤◌, ◌<◌, ◌≡◌, refl, true, List, assign}
use reeact_v.Fastsync.Cond.{Cond}
use reeact_v.Fastsync.Cond.System.{Thread, System, is_asleep_seq}
use reeact_v.Fastsync.Cond.Invariant.Places.{eq_self, eq_other, each, assign_all}
use reeact_v.Fastsync.Cond.Leaders.{view}
use reeact_v.Fastsync.Cond.Orphans.{urges, unraised, weigh, awake, Orphans}
use reeact_v.Fastsync.Cond.Orphans.Calm.{Lulls, Idle, Lulls-refl, Idle-Lulls, calm}

module _ {n : ℕ} {s : System} (orphans : Orphans n s) where
  -- Only threads change, and none of them begins to wait.
  pub threads :
      (thread : ℕ → Thread)
      → ((j : ℕ) → Lulls (s.thread j) (thread j))
      → ((j : ℕ)
          → j < n
          → is_asleep_seq (thread j) ≡ true
          → (i : ℕ)
          → weigh urges (s.place j) (view s i)
            ≤ weigh urges (s.place j) (thread i, s.place i, s.frames i))
      → ((c i : ℕ)
          → weigh unraised c (view s i) ≤ weigh unraised c (thread i, s.place i, s.frames i))
      → Orphans n (record s { thread = thread })
  threads thread lulls up up' =
      calm orphans s.cond s.state thread s.place s.frames (λ c. refl)
        (λ j. (λ w. ((lulls j).0 w, refl), λ w. ((lulls j).1 w, refl))) up up'

  -- One thread goes elsewhere, and does not wait there.
  pub elsewhere :
      (cond : ℕ → Cond) (state i : ℕ) (t : Thread) (place : ℕ) (frames : ℕ → List ℕ)
      → ((c : ℕ) → (cond c).parent ≡ (s.cond c).parent)
      → Idle t
      → ((c j : ℕ)
          → weigh urges c (view s j)
            ≤ weigh urges c (assign s.thread i t j, assign s.place i place j, frames j))
      → ((c j : ℕ)
          → weigh unraised c (view s j)
            ≤ weigh unraised c (assign s.thread i t j, assign s.place i place j, frames j))
      → Orphans n (record s {
        cond = cond;
        state = state;
        thread = assign s.thread i t;
        place = assign s.place i place;
        frames = frames;
      })
  elsewhere cond state i t place frames parents idle up up' =
      calm orphans cond state (assign s.thread i t) (assign s.place i place) frames parents
        (each
          (λ j.
            (is_asleep_seq (assign s.thread i t j) ≡ true
              → (is_asleep_seq (s.thread j) ≡ true) × (assign s.place i place j ≡ s.place j))
            × (awake (assign s.thread i t j) ≡ true
                → (awake (s.thread j) ≡ true) × (assign s.place i place j ≡ s.place j)))
          i (rw (eq_self i) (λ w. cc (w, idle.0), λ w. cc (w, idle.1)))
          (λ j other. rw (eq_other other) (λ w. (w, refl), λ w. (w, refl))))
        (λ j lt a. up (s.place j)) up'

  pub only :
      (i : ℕ) (t : Thread)
      → Lulls (s.thread i) t
      → (j : ℕ) → Lulls (s.thread j) (assign s.thread i t j)
  only i t lulls =
      assign_all (λ j x. Lulls (s.thread j) x) s.thread i t (λ j. Lulls-refl (s.thread j)) lulls

  -- One thread changes, and does not begin to wait.
  pub one-Lulls :
      (i : ℕ) (t : Thread)
      → Lulls (s.thread i) t
      → ((c j : ℕ)
          → weigh urges c (view s j) ≤ weigh urges c (assign s.thread i t j, s.place j, s.frames j))
      → ((c j : ℕ)
          → weigh unraised c (view s j)
            ≤ weigh unraised c (assign s.thread i t j, s.place j, s.frames j))
      → Orphans n (record s { thread = assign s.thread i t })
  one-Lulls i t lulls up up' =
      threads (assign s.thread i t) (only i t lulls) (λ j lt a. up (s.place j)) up'

  pub one-Idle :
      (i : ℕ) (t : Thread)
      → Idle t
      → ((c j : ℕ)
          → weigh urges c (view s j) ≤ weigh urges c (assign s.thread i t j, s.place j, s.frames j))
      → ((c j : ℕ)
          → weigh unraised c (view s j)
            ≤ weigh unraised c (assign s.thread i t j, s.place j, s.frames j))
      → Orphans n (record s { thread = assign s.thread i t })
  one-Idle i t idle = one-Lulls i t (Idle-Lulls (s.thread i) t idle)
