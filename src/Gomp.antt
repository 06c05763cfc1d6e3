-- ===== src/Gomp.antt =====
-- src/policies/reeact_policy.c: the barrier functions that a changed libgomp asks first, and
-- src/hooks/gomp_hooks/gomp_hooks.c.
use reeact_v.Prelude.{ℕ, Option, none, some, if◌then◌else◌}
use reeact_v.Pthread.Policy.{Build}

-- A pointer is a number. `return 1` in the default policy. `none` is a `return;` without a value,
-- which is what most of the functions have in any other policy.
unfoldable pub reeact_gomp_barrier_init : Build → (bar count : ℕ) → Option ℕ
reeact_gomp_barrier_init b bar count = if b.default_policy_ then some 1 else none

unfoldable pub reeact_gomp_barrier_reinit : Build → (bar count : ℕ) → Option ℕ
reeact_gomp_barrier_reinit b bar count = if b.default_policy_ then some 1 else none

unfoldable pub reeact_gomp_barrier_destroy : Build → (bar : ℕ) → Option ℕ
reeact_gomp_barrier_destroy b bar = if b.default_policy_ then some 1 else none

unfoldable pub reeact_gomp_barrier_wait : Build → (bar : ℕ) → Option ℕ
reeact_gomp_barrier_wait b bar = if b.default_policy_ then some 1 else none

unfoldable pub reeact_gomp_barrier_wait_last : Build → (bar : ℕ) → Option ℕ
reeact_gomp_barrier_wait_last b bar = if b.default_policy_ then some 1 else none

unfoldable pub reeact_gomp_barrier_wait_end : Build → (bar state : ℕ) → Option ℕ
reeact_gomp_barrier_wait_end b bar state = if b.default_policy_ then some 1 else none

unfoldable pub reeact_gomp_team_barrier_wait : Build → (bar : ℕ) → Option ℕ
reeact_gomp_team_barrier_wait b bar = if b.default_policy_ then some 1 else none

unfoldable pub reeact_gomp_team_barrier_wait_end : Build → (bar state : ℕ) → Option ℕ
reeact_gomp_team_barrier_wait_end b bar state = if b.default_policy_ then some 1 else none

unfoldable pub reeact_gomp_team_barrier_wake : Build → (bar count : ℕ) → Option ℕ
reeact_gomp_team_barrier_wake b bar count = if b.default_policy_ then some 1 else none

unfoldable pub reeact_gomp_team_barrier_set_task_pending : Build → (bar : ℕ) → Option ℕ
reeact_gomp_team_barrier_set_task_pending b bar = if b.default_policy_ then some 1 else none

unfoldable pub reeact_gomp_team_barrier_clear_task_pending : Build → (bar : ℕ) → Option ℕ
reeact_gomp_team_barrier_clear_task_pending b bar = if b.default_policy_ then some 1 else none

unfoldable pub reeact_gomp_team_barrier_set_waiting_for_tasks : Build → (bar : ℕ) → Option ℕ
reeact_gomp_team_barrier_set_waiting_for_tasks b bar = if b.default_policy_ then some 1 else none

unfoldable pub reeact_gomp_team_barrier_done : Build → (bar state : ℕ) → Option ℕ
reeact_gomp_team_barrier_done b bar state = if b.default_policy_ then some 1 else some 0

unfoldable pub reeact_gomp_team_barrier_waiting_for_tasks : Build → (bar ret_val : ℕ) → Option ℕ
reeact_gomp_team_barrier_waiting_for_tasks b bar ret_val =
    if b.default_policy_ then some 1 else some 0

unfoldable pub reeact_gomp_barrier_last_thread : Build → (state ret_val : ℕ) → Option ℕ
reeact_gomp_barrier_last_thread b state ret_val = if b.default_policy_ then some 1 else some 0

unfoldable pub reeact_gomp_barrier_wait_start : Build → (bar ret_val : ℕ) → Option ℕ
reeact_gomp_barrier_wait_start b bar ret_val = if b.default_policy_ then some 1 else some 0

-- Both return 0, whatever the data.
unfoldable pub reeact_gomp_hooks_init : (data_pointer : ℕ) → ℕ
reeact_gomp_hooks_init data_pointer = 0

unfoldable pub reeact_gomp_hooks_cleanup : (data_pointer : ℕ) → ℕ
reeact_gomp_hooks_cleanup data_pointer = 0
