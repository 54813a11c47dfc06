-- ===== src/Tasks/Claim/Served.antt =====
-- core/runtime.go: when ClaimRuntimeTask hands out work, and which.
use memgov.Base.{
  eq_iff, ◌≤◌, ◌≡◌, refl, ap, ◌∙◌, String, Bool, true, false, ◌&&◌, some, [], ◌∷◌, ◌++◌, ok,
  count_rows, select_rows, has_row, find_row, update_rows, str_eq, eq_refl, arith, Clock, Any, All,
  ◌==◌, find_row-member, select_rows-member, select_rows-from, select_rows-All,
}
use memgov.Base.Table.{find_row-update}
use memgov.Base.Counts.{count_rows-key}
use memgov.Schema.{Db}
use memgov.Schema.Runtimes.{Runtime}
use memgov.Schema.Tasks.{Task, TaskAttempt}
use memgov.Policy.{Digests, read_runtime}
use memgov.Work.{is_lease}
use memgov.Work.Capacity.{has_capacity}
use memgov.Work.Capacity.Results.{claim_work-ok, read_applied-ok}
use memgov.Tasks.{is_task}
use memgov.Tasks.Claim.{
  Worker, claim_task, start_work, new_attempt, start_task, is_at, is_full, is_claimable,
  comes_before, next_task,
}
use memgov.Tasks.Claim.Order.{first_of-IsFirst, first_of-some}

-- A task that may be claimed, and that no other such task comes before.
pub record IsNext (db : Db) (c : Runtime) (t : Task) : Type 0 where
  pub claimable : is_claimable db c t ≡ true
  pub stored : Any (λ u. u ≡ t) db.runtime_tasks
  pub first : All (λ u. is_claimable db c u ≡ true → comes_before db u t ≡ false) db.runtime_tasks

-- Wherever a task may be claimed, the next one is defined.
next_task-IsNext :
    (db : Db) (c : Runtime) (u : Task)
    → Any (λ t. t ≡ u) db.runtime_tasks
    → is_claimable db c u ≡ true
    → (t : Task) × (next_task db c ≡ some t) × IsNext db c t
unfolding next_task
next_task-IsNext db c u member h =
    let waiting = select_rows (is_claimable db c) db.runtime_tasks in
    let (t, e) =
      first_of-some db waiting u
        (select_rows-member (is_claimable db c) db.runtime_tasks u h member) in
    let (one, none_before) = first_of-IsFirst db waiting t e in
    let (claimable, stored) = select_rows-from (is_claimable db c) db.runtime_tasks t one in
    (
      t,
      e,
      record {
        claimable = claimable;
        stored = stored;
        first =
            select_rows-All (is_claimable db c) (λ v. comes_before db v t ≡ false) db.runtime_tasks
              none_before;
      },
    )

claimable-pending :
    (db : Db) (c : Runtime) (t : Task)
    → is_claimable db c t ≡ true
    → str_eq t.status "pending" ≡ true
unfolding is_claimable
claimable-pending db c t h = ground arith

-- A task that is handed out is a stored one of the runtime.
pub next_task-own :
    (db : Db) (c : Runtime) (t : Task)
    → next_task db c ≡ some t
    → Any (λ u. u ≡ t) db.runtime_tasks × (t.runtime_id ≡ c.id)
unfolding next_task is_claimable
next_task-own db c t h =
    let waiting = select_rows (is_claimable db c) db.runtime_tasks in
    let (one, _) = first_of-IsFirst db waiting t h in
    let (claimable, stored) = select_rows-from (is_claimable db c) db.runtime_tasks t one in
    (stored, ground (arith, eq_iff t.runtime_id c.id))

-- Ids of tasks are unique.
abbrev pub OneEach : Db → Type 0
OneEach db = (id : String) → count_rows (is_task id) db.runtime_tasks ≤ 1

own_id : (t : Task) → is_task t.id t ≡ true
unfolding is_task
own_id t = eq_refl t.id

is_at-split :
    (t u : Task)
    → is_at t.id t.version "pending" u
      ≡ (is_task t.id u && (u.version == t.version && str_eq u.status "pending"))
unfolding is_at is_task
is_at-split t u = ground arith

at_one_row :
    (db : Db) (t : Task)
    → OneEach db
    → Any (λ u. u ≡ t) db.runtime_tasks
    → str_eq t.status "pending" ≡ true
    → count_rows (is_at t.id t.version "pending") db.runtime_tasks ≡ 1
at_one_row db t one member pending =
    ap (λ q. count_rows q db.runtime_tasks) (λ i u. is_at-split t u i)
    ∙ count_rows-key (is_task t.id) (λ u. u.version == t.version && str_eq u.status "pending")
        db.runtime_tasks (one t.id)
    ∙ rw (find_row-member (is_task t.id) db.runtime_tasks t (one t.id) (own_id t) member)
        (ground arith)

started_row :
    (clock : Clock) (db : Db) (t : Task)
    → OneEach db
    → Any (λ u. u ≡ t) db.runtime_tasks
    → str_eq t.status "pending" ≡ true
    → find_row
        (is_task t.id)
        (update_rows (is_at t.id t.version "pending") (start_task clock) db.runtime_tasks)
      ≡ some (start_task clock t)
unfolding is_at is_task start_task
started_row clock db t one member pending =
    find_row-update (is_task t.id) (is_at t.id t.version "pending") (start_task clock)
      db.runtime_tasks (λ r. refl)
    ∙ rw (find_row-member (is_task t.id) db.runtime_tasks t (one t.id) (own_id t) member)
        (ground (arith, eq_refl t.id))

module _ (digests : Digests) (task_digest : Task → String) where
  start_work-ok :
      (clock : Clock) (c : Runtime) (w : Worker) (t : Task) (db : Db)
      → has_row (is_lease w.attempt_id) db.runtime_work_leases ≡ false
      → has_row (λ (a : TaskAttempt). str_eq a.id w.attempt_id) db.runtime_attempts ≡ false
      → (db' : Db) × (start_work digests task_digest clock c w t db
          ≡ ok (some (record t { status = "running" }), db'))
        × (db'.runtime_tasks
            ≡ update_rows (is_at t.id t.version "pending") (start_task clock) db.runtime_tasks)
  unfolding start_work
  start_work-ok clock c w t db lease_fresh fresh =
      let started = record db {
        runtime_tasks =
            update_rows (is_at t.id t.version "pending") (start_task clock) db.runtime_tasks;
      } in
      let (leases, e) =
        claim_work-ok digests clock c "execution" w.attempt_id t.route_id t.id t.version started
          lease_fresh in
      let leased = record started { runtime_work_leases = leases } in
      let (applied, p) = read_applied-ok leased in
      (
        record leased {
          runtime_attempts =
              leased.runtime_attempts
              ++ new_attempt digests task_digest clock c w t applied.version ∷ [];
        },
        rw (e, p, fresh) refl,
        refl,
      )

  -- Where a runtime runs with room for another worker, and one of its tasks may be claimed, the
  -- worker gets a task: one that may be claimed and that no other such task comes before. (Ids of
  -- tasks are unique, and the worker's id is not used yet.) The task's row is then running.
  pub waiting_task_is_started :
      (clock : Clock) (in_memory : Bool) (runtime : String) (w : Worker) (db : Db) (c : Runtime)
      (u : Task)
      → read_runtime db runtime ≡ ok c
      → str_eq c.status "running" ≡ true
      → is_full db c ≡ false
      → has_capacity in_memory db c "execution" ≡ true
      → OneEach db
      → Any (λ t. t ≡ u) db.runtime_tasks
      → is_claimable db c u ≡ true
      → has_row (is_lease w.attempt_id) db.runtime_work_leases ≡ false
      → has_row (λ (a : TaskAttempt). str_eq a.id w.attempt_id) db.runtime_attempts ≡ false
      → (t : Task) × (db' : Db) × (claim_task digests task_digest clock in_memory runtime w db
          ≡ ok (some (record t { status = "running" }), db'))
        × IsNext db c t
        × (find_row (is_task t.id) db'.runtime_tasks ≡ some (start_task clock t))
  unfolding claim_task
  waiting_task_is_started clock in_memory runtime w db c u found running room free one member may
        lease_fresh fresh =
      let (t, e, next) = next_task-IsNext db c u member may in
      let pending = claimable-pending db c t next.claimable in
      let (db', started, rows) = start_work-ok clock c w t db lease_fresh fresh in
      (
        t,
        db',
        rw (found, running, room, free, e, at_one_row db t one next.stored pending) started,
        next,
        ap (find_row (is_task t.id)) rows ∙ started_row clock db t one next.stored pending,
      )
