-- ===== src/Tasks/Recovery.antt =====
-- core/runtime.go: FailRuntimeBatch and RecoverRuntime: what a restarted process makes of the work
-- that it finds under way.
pub mod Results
pub mod Idle
mod Tests
use memgov.Base.{
  ℕ, ◌+◌, ◌*◌, ◌%◌, String, Bool, true, false, not, ◌&&◌, ◌||◌, Option, none, some, List, [], ◌∷◌,
  map, length, Result, ok, err, ◌>>=◌, ◌>>◌, fail_if, or_fail, internal, find_row, has_row,
  count_rows, select_rows, update_rows, str_eq, ltb, ◌==◌, if◌then◌else◌, contains, Clock, now,
  format_nano, second,
}
use memgov.Schema.{Db}
use memgov.Schema.Leases.{WorkLease}
use memgov.Schema.Drafts.{Draft, Attempt}
use memgov.Schema.Runtimes.{Runtime}
use memgov.Schema.Tasks.{
  Task, TaskAttempt, PendingAction, ActionAttempt, MessageAction, Batch, MessageState,
}
use memgov.Policy.{read_runtime}
use memgov.Work.{is_lease, release_work_lease}
use memgov.Work.Capacity.{of_runtime, is_running, is_executing}
use memgov.Tasks.{mark_action, end_action_attempt, end_attempt}
use memgov.Tasks.Outcome.{fail_row, lose_message, code_or}

unfoldable pub is_batch : String → Batch → Bool
is_batch id b = str_eq b.id id

pub is_analyzing : String → Batch → Bool
is_analyzing id b = str_eq b.id id && str_eq b.status "analyzing"

pub is_batched : String → MessageState → Bool
is_batched id s = str_eq s.batch_id id && str_eq s.state "batched"

pub record Retry : Type 0 where
  pub state : String
  pub next_run_at : String

-- 5 seconds after the first attempt, 30 later, and up to a second more.
pub delay : Clock → ℕ → ℕ
delay clock attempt =
    (if ltb 1 attempt then 30 * second else 5 * second) + (clock.time % 1000) * 1_000_000

-- What becomes of the messages of a batch that a managed worker failed.
pub retry_of : Clock → String → ℕ → String → Retry
retry_of clock code attempt mode =
    if str_eq code "conflict"
    then record { state = "pending"; next_run_at = "" }
    else if contains ("unavailable" ∷ "analysis_timeout" ∷ "runtime_restarted" ∷ []) code
        && ltb attempt 3
    then record {
      state = "pending";
      next_run_at =
          if str_eq mode "group_mention" && str_eq code "runtime_restarted"
          then ""
          else format_nano clock (clock.time + delay clock attempt);
    }
    else record { state = "analysis_failed"; next_run_at = "" }

pub unbatch : Retry → MessageState → MessageState
unbatch r s = record s {
  state = r.state;
  batch_id = "";
  retry_count = s.retry_count + 1;
  next_run_at = r.next_run_at;
}

pub fail_batch_row : Clock → String → Batch → Batch
fail_batch_row clock code b = record b {
  status = "failed";
  error_code = code;
  finished_at = now clock;
}

-- A worker with a lease: its messages are retried later, or given up.
pub retry_batch : Clock → String → String → Db → Result Db
retry_batch clock id code db = do
  b ← or_fail (find_row (is_batch id) db.runtime_batches) internal
  c ← or_fail (find_row (λ (c : Runtime). str_eq c.id b.runtime_id) db.runtime_configs) internal
  let r = retry_of clock code b.attempt c.application_mode
  ok (record db {
    runtime_batches =
        update_rows (is_batch id) (λ b. record b { next_run_at = r.next_run_at })
          db.runtime_batches;
    runtime_message_states = update_rows (is_batched id) (unbatch r) db.runtime_message_states;
  })

pub fail_batch : Clock → String → String → Db → Result (Unit {0} × Db)
fail_batch clock id given_code db =
    if count_rows (is_analyzing id) db.runtime_batches == 0
    then ok (tt, db)
    else (let code = code_or given_code "internal" in
        let failed = record db {
          runtime_batches =
              update_rows (is_analyzing id) (fail_batch_row clock code) db.runtime_batches;
        } in
        if has_row (is_lease id) db.runtime_work_leases
        then (retry_batch clock id code failed >>= λ next. ok (tt, next))
        else ok (
          tt,
          record failed {
            runtime_message_states =
                update_rows (is_batched id) (λ s. record s { state = "pending"; batch_id = "" })
                  db.runtime_message_states;
          },
        ))

pub fail_batches : Clock → List String → Db → Result (Unit {0} × Db)
fail_batches clock [] db = ok (tt, db)
fail_batches clock (id ∷ ids) db = do
  failed ← fail_batch clock id "runtime_restarted" db
  released ← release_work_lease id (failed.1)
  fail_batches clock ids (released.1)

pub record Recovered : Type 0 where
  pub batches : ℕ
  pub actions_unknown : ℕ
  pub deliveries_unknown : ℕ
  pub failed_task_ids : List String

pub is_analyzed_by : String → Batch → Bool
is_analyzed_by runtime b = str_eq b.runtime_id runtime && str_eq b.status "analyzing"

unfoldable pub is_task_in : String → String → Task → Bool
is_task_in status runtime t = str_eq t.runtime_id runtime && str_eq t.status status

pub is_sending_message : List Task → String → MessageAction → Bool
is_sending_message tasks runtime m = of_runtime tasks runtime m.task_id && str_eq m.state "sending"

pub is_executing_action : List Task → String → PendingAction → Bool
is_executing_action tasks runtime a =
    of_runtime tasks runtime a.task_id && str_eq a.status "executing"

pub is_sending_draft : List Task → String → Draft → Bool
is_sending_draft tasks runtime d = of_runtime tasks runtime d.job_id && str_eq d.state "sending"

pub is_sending_of : List Task → String → List Draft → Attempt → Bool
is_sending_of tasks runtime outbox a =
    str_eq a.state "sending"
    && has_row (λ (d : Draft). str_eq d.id a.outbox_id && of_runtime tasks runtime d.job_id) outbox

abbrev pub restarted : String
restarted = "runtime_restarted"

-- The tasks: running ones have failed, those with an action under way do not know its outcome.
unfoldable pub recover_tasks : Clock → String → Bool → List Task → List Task
recover_tasks clock runtime lost tasks =
    let failed =
      update_rows (is_task_in "running" runtime) (fail_row clock "failed" restarted) tasks in
    if lost
    then update_rows (is_task_in "awaiting_confirmation" runtime)
        (fail_row clock "action_unknown" restarted) failed
    else failed

pub lose_draft : Clock → Draft → Draft
lose_draft clock d = record d { state = "unknown"; updated_at = now clock }

pub lose_attempt : Clock → Attempt → Attempt
lose_attempt clock a = record a { state = "unknown"; finished_at = now clock }

unfoldable pub recover_rows : Clock → String → Db → Db
recover_rows clock runtime db =
    let tasks = db.runtime_tasks in
    record db {
      runtime_message_actions =
          update_rows (is_sending_message tasks runtime) (lose_message clock restarted)
            db.runtime_message_actions;
      runtime_attempts =
          update_rows (is_running tasks runtime) (end_attempt "failed" restarted clock)
            db.runtime_attempts;
      runtime_pending_actions =
          update_rows (is_executing_action tasks runtime) (mark_action "unknown" clock)
            db.runtime_pending_actions;
      runtime_action_attempts =
          update_rows (is_executing tasks runtime) (end_action_attempt "unknown" restarted clock)
            db.runtime_action_attempts;
      runtime_tasks =
          recover_tasks clock runtime
            (has_row (is_executing_action tasks runtime) db.runtime_pending_actions) tasks;
      outbox = update_rows (is_sending_draft tasks runtime) (lose_draft clock) db.outbox;
      delivery_attempts =
          update_rows (is_sending_of tasks runtime db.outbox) (lose_attempt clock)
            db.delivery_attempts;
    }

pub recover_runtime : Clock → String → Db → Result (Recovered × Db)
recover_runtime clock value db = do
  c ← read_runtime db value
  let ids = map (λ (b : Batch). b.id) (select_rows (is_analyzed_by c.id) db.runtime_batches)
  failed ← fail_batches clock ids db
  let old = failed.1
  ok (
    record {
      batches = length ids;
      actions_unknown =
          count_rows (is_executing_action old.runtime_tasks c.id) old.runtime_pending_actions;
      deliveries_unknown = count_rows (is_sending_draft old.runtime_tasks c.id) old.outbox;
      failed_task_ids =
          map (λ (t : Task). t.id) (select_rows (is_task_in "running" c.id) old.runtime_tasks);
    },
    recover_rows clock c.id old,
  )
