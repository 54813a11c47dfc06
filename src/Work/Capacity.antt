-- ===== src/Work/Capacity.antt =====
-- core/runtime_scheduling.go: PoolAvailable and claimWork: how many workers a runtime may have, and
-- the lease that a new one gets. The process's own number and start time are not kept.
pub mod Results
use memgov.Base.{
  ℕ, suc, ◌+◌, ◌*◌, String, Bool, true, false, not, ◌&&◌, ◌||◌, Option, none, some, List, [], ◌∷◌,
  ◌++◌, map, Result, ok, ◌>>=◌, ◌>>◌, fail_if, internal, or_new, count_rows, select_rows, has_row,
  str_eq, ltb, contains, if◌then◌else◌, Clock, format_nano, now, second,
}
use memgov.Schema.{Db}
use memgov.Schema.Runtimes.{Runtime}
use memgov.Schema.Leases.{WorkLease}
use memgov.Schema.Tasks.{Task, TaskAttempt, ActionAttempt}
use memgov.Policy.{Digests, read_applied, policy_digest}
use memgov.Work.{is_lease}

-- The join with `runtime_tasks`: the task belongs to the runtime.
unfoldable pub of_runtime : List Task → String → String → Bool
of_runtime tasks runtime id =
    has_row (λ (t : Task). str_eq t.id id && str_eq t.runtime_id runtime) tasks

unfoldable pub is_running : List Task → String → TaskAttempt → Bool
is_running tasks runtime a = of_runtime tasks runtime a.task_id && str_eq a.status "running"

unfoldable pub is_executing : List Task → String → ActionAttempt → Bool
is_executing tasks runtime a = of_runtime tasks runtime a.task_id && str_eq a.status "running"

-- The running attempts at tasks and at actions of a runtime.
unfoldable pub active_attempts : Db → String → ℕ
active_attempts db runtime =
    count_rows (is_running db.runtime_tasks runtime) db.runtime_attempts
    + count_rows (is_executing db.runtime_tasks runtime) db.runtime_action_attempts

-- SELECT count(*) of a UNION.
pub count_distinct : List String → ℕ
count_distinct [] = 0
count_distinct (s ∷ ss) = let rest = count_distinct ss in if contains ss s then rest else suc rest

pub is_held : String → String → WorkLease → Bool
is_held runtime kind l = str_eq l.runtime_id runtime && str_eq l.kind kind && not l.released

-- The workers of a group's runtime that execute: a worker is counted once.
pub executing_ids : Db → String → List String
executing_ids db runtime =
    map (λ (l : WorkLease). l.id) (select_rows (is_held runtime "execution") db.runtime_work_leases)
    ++ (map (λ (a : TaskAttempt). a.id)
          (select_rows (is_running db.runtime_tasks runtime) db.runtime_attempts)
        ++ map (λ (a : ActionAttempt). a.id)
            (select_rows (is_executing db.runtime_tasks runtime) db.runtime_action_attempts))

-- SELECT min(f)
pub least : (Runtime → ℕ) → List Runtime → Option ℕ
least f [] = none
least f (c ∷ cs) = elim (least f cs) [
  | none ↦ some (f c)
  | some n ↦ some (if ltb (f c) n then f c else n)
]

pub is_declared : Runtime → Bool
is_declared c =
    str_eq c.application_mode "proactive"
    && contains ("running" ∷ "paused" ∷ "degraded" ∷ []) c.status

pub is_proactive : Db → String → Bool
is_proactive db runtime =
    has_row (λ (c : Runtime). str_eq c.id runtime && str_eq c.application_mode "proactive")
      db.runtime_configs

pub limit_of : String → Runtime → ℕ
limit_of kind c =
    if str_eq kind "analysis" then c.scheduling.analysis_concurrency else c.concurrency

-- The pool that proactive runtimes share: the smallest limit among them counts.
pub shared_pool : Db → String → Bool
shared_pool db kind =
    ltb
      (count_rows
        (λ (l : WorkLease). str_eq l.kind kind && not l.released && is_proactive db l.runtime_id)
        db.runtime_work_leases)
      (or_new (least (limit_of kind) (select_rows is_declared db.runtime_configs)) 1)

pub group_pool : Db → Runtime → String → Bool
group_pool db c kind =
    ltb
      (if str_eq kind "analysis"
        then count_rows (is_held c.id kind) db.runtime_work_leases
        else count_distinct (executing_ids db c.id))
      (limit_of kind c)

pub pool_available : Db → Runtime → String → Bool
pool_available db c kind =
    if str_eq c.application_mode "group_mention"
    then group_pool db c kind
    else if str_eq c.application_mode "proactive"
    then shared_pool db kind
    else true

-- The durable check, which a runtime that counts its own workers goes without.
unfoldable pub has_capacity : Bool → Db → Runtime → String → Bool
has_capacity in_memory db c kind =
    (not (str_eq c.application_mode "group_mention") && in_memory) || pool_available db c kind

pub timeout_of : String → Runtime → ℕ
timeout_of kind c =
    (if str_eq kind "analysis"
      then c.scheduling.analysis_timeout_seconds
      else c.scheduling.execution_timeout_seconds)
    * second

module _ (digests : Digests) where
  pub new_lease : Clock → Runtime → String → String → String → String → ℕ → ℕ → WorkLease
  new_lease clock c kind id route task version applied = record {
    id = id;
    runtime_id = c.id;
    kind = kind;
    route_id = route;
    task_id = task;
    task_version = version;
    policy_version = applied;
    runtime_policy_digest = policy_digest digests c;
    owner = id;
    process_pid = 0;
    process_started = "";
    phase = "preparing";
    deadline_at = format_nano clock (clock.time + timeout_of kind c);
    heartbeat_at = now clock;
    activity_at = "";
    lease_until = format_nano clock (clock.time + timeout_of kind c);
    released = false;
  }

  -- A direct runtime has no leases.
  pub claim_rows :
      Clock → Runtime → String → String → String → String → ℕ → Db → Result (List WorkLease)
  claim_rows clock c kind id route task version db =
      if contains ("proactive" ∷ "group_mention" ∷ []) c.application_mode
      then (read_applied db 0 >>= λ applied.
          fail_if (has_row (is_lease id) db.runtime_work_leases) internal
          >> ok (
              db.runtime_work_leases
              ++ new_lease clock c kind id route task version applied.version ∷ []))
      else ok db.runtime_work_leases

  pub claim_work : Clock → Runtime → String → String → String → String → ℕ → Db → Result Db
  claim_work clock c kind id route task version db = do
    leases ← claim_rows clock c kind id route task version db
    ok (record db { runtime_work_leases = leases })
