-- ===== src/Tasks/Claim.antt =====
-- core/runtime.go: ClaimRuntimeTask: which pending task a worker gets.
pub mod Results
pub mod Order
pub mod Served
pub mod Tests
use memgov.Base.{
  ℕ, String, Bool, true, false, not, ◌&&◌, ◌||◌, Option, none, some, List, [], ◌∷◌, ◌++◌, Result,
  ok, ◌>>=◌, ◌>>◌, fail_if, internal, or_new, has_row, count_rows, select_rows, update_rows, str_eq,
  str_lt, ltb, leb, ◌==◌, if◌then◌else◌, contains, Clock, now,
}
use memgov.Schema.{Db}
use memgov.Schema.Channels.{Route}
use memgov.Schema.Leases.{WorkLease}
use memgov.Schema.Runtimes.{Runtime, AppliedConfig}
use memgov.Schema.Tasks.{Task, TaskAttempt}
use memgov.Policy.{Digests, read_runtime, read_applied}
use memgov.Work.Capacity.{active_attempts, has_capacity, claim_work}
use memgov.Work.Lanes.{lane_free}

-- A worker of a runtime that is not a pool waits for every other; none exceeds the limit.
unfoldable pub is_full : Db → Runtime → Bool
is_full db c =
    (not (contains ("proactive" ∷ "group_mention" ∷ []) c.application_mode)
      && ltb 0 (active_attempts db c.id))
    || leb c.concurrency (active_attempts db c.id)

-- The route is one of the runtime's, and still open.
pub route_open : Db → Runtime → String → Bool
route_open db c route =
    contains c.route_ids route
    && has_row
        (λ (r : Route).
          str_eq r.id route
          && str_eq r.channel_id c.channel_id
          && str_eq r.status "active"
          && not (str_eq r.mode "ignore"))
        db.channel_routes

pub is_leased : Db → String → Bool
is_leased db task =
    has_row (λ (l : WorkLease). str_eq l.task_id task && not l.released) db.runtime_work_leases

pub is_claimable : Db → Runtime → Task → Bool
is_claimable db c t =
    str_eq t.runtime_id c.id
    && str_eq t.status "pending"
    && route_open db c t.route_id
    && not (is_leased db t.id)
    && not (str_eq t.kind "memory")
    && lane_free db c true t

-- SELECT max(started_at) of the attempts on the route.
pub last_start : List Task → Task → List TaskAttempt → String
last_start tasks t [] = ""
last_start tasks t (a ∷ others) =
    let rest = last_start tasks t others in
    if has_row
        (λ (o : Task).
          str_eq o.id a.task_id && str_eq o.runtime_id t.runtime_id && str_eq o.route_id t.route_id)
        tasks
      && str_lt rest a.started_at
    then a.started_at
    else rest

-- A route whose turn was long ago comes first.
pub turn : Db → Task → String
turn db t =
    let last = last_start db.runtime_tasks t db.runtime_attempts in
    if str_lt t.updated_at last then last else t.updated_at

-- ORDER BY turn, updated_at, id
pub comes_before : Db → Task → Task → Bool
comes_before db a b =
    str_lt (turn db a) (turn db b)
    || (str_eq (turn db a) (turn db b)
        && (str_lt a.updated_at b.updated_at
            || (str_eq a.updated_at b.updated_at && str_lt a.id b.id)))

-- ORDER BY … LIMIT 1
pub first_of : Db → List Task → Option Task
first_of db [] = none
first_of db (t ∷ ts) = elim (first_of db ts) [
  | none ↦ some t
  | some u ↦ if comes_before db u t then some u else some t
]

pub next_task : Db → Runtime → Option Task
next_task db c = first_of db (select_rows (is_claimable db c) db.runtime_tasks)

-- The row of the task in this version and state.
unfoldable pub is_at : String → ℕ → String → Task → Bool
is_at id version status t = str_eq t.id id && t.version == version && str_eq t.status status

unfoldable pub start_task : Clock → Task → Task
start_task clock t = record t { status = "running"; updated_at = now clock }

-- What the worker brings: its id, model, preset, commit and directory.
pub record Worker : Type 0 where
  pub attempt_id : String
  pub model : String
  pub preset : String
  pub commit : String
  pub workspace : String

module _ (digests : Digests) (task_digest : Task → String) where
  pub new_attempt : Clock → Runtime → Worker → Task → ℕ → TaskAttempt
  new_attempt clock c w t applied = record {
    id = w.attempt_id;
    task_id = t.id;
    task_version = t.version;
    applied_config_version = applied;
    status = "running";
    model = if str_eq w.model "" then c.execution_model else w.model;
    preset_name = w.preset;
    preset_commit = w.commit;
    workspace_dir = w.workspace;
    input_digest = task_digest t;
    output = "";
    summary = "";
    artifacts = [];
    tool_kinds = [];
    error_code = "";
    started_at = now clock;
    finished_at = "";
  }

  pub start_work : Clock → Runtime → Worker → Task → Db → Result (Option Task × Db)
  start_work clock c w t db = do
    let started = record db {
      runtime_tasks =
          update_rows (is_at t.id t.version "pending") (start_task clock) db.runtime_tasks;
    }
    leased ← claim_work digests clock c "execution" w.attempt_id t.route_id t.id t.version started
    applied ← read_applied leased 0
    fail_if (has_row (λ (a : TaskAttempt). str_eq a.id w.attempt_id) leased.runtime_attempts)
        internal
    ok (
      some (record t { status = "running" }),
      record leased {
        runtime_attempts = leased.runtime_attempts ++ new_attempt clock c w t applied.version ∷ [];
      },
    )

  -- `none` where there is nothing to do. (An attempt without an id gets a NewID, which is the
  -- worker's here.)
  pub claim_task : Clock → Bool → String → Worker → Db → Result (Option Task × Db)
  claim_task clock in_memory runtime w db = do
    c ← read_runtime db runtime
    if not (str_eq c.status "running")
          || is_full db c
          || not (has_capacity in_memory db c "execution")
        then ok (none, db)
        else elim (next_task db c) [
          | none ↦ ok (none, db)
          | some t ↦
              if count_rows (is_at t.id t.version "pending") db.runtime_tasks == 1
              then start_work clock c w t db
              else ok (none, db)
        ]
