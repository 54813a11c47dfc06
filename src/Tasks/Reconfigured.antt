-- ===== src/Tasks/Reconfigured.antt =====
-- core/runtime_config_guard.go: InvalidateRuntimeConfigWork: a changed configuration ends the work that
-- was claimed under the old one.
pub mod Results
use memgov.Base.{
  ℕ, ◌+◌, String, Bool, true, false, ◌&&◌, List, [], ◌∷◌, map, Result, ok, ◌>>=◌, has_row,
  select_rows, update_rows, str_eq, if◌then◌else◌, contains, Clock, now,
}
use memgov.Schema.{Db}
use memgov.Schema.Drafts.{Draft, Attempt}
use memgov.Schema.Tasks.{Task, PendingAction, Batch}
use memgov.Policy.{read_runtime}
use memgov.Work.Capacity.{of_runtime, is_running, is_executing}
use memgov.Tasks.{mark_action, end_action_attempt, end_attempt}
use memgov.Tasks.Outcome.{lose_message}
use memgov.Tasks.Recovery.{
  fail_batch, is_analyzed_by, is_sending_message, is_executing_action, is_sending_draft,
  is_sending_of, lose_attempt,
}

abbrev pub changed : String
changed = "configuration_changed"

pub end_batches : Clock → List String → Db → Result (Unit {0} × Db)
end_batches clock [] db = ok (tt, db)
end_batches clock (id ∷ ids) db = do
  failed ← fail_batch clock id changed db
  end_batches clock ids (failed.1)

-- The states of a task in which it is not over, or could be taken up again.
abbrev pub unfinished : List String
unfinished =
    "pending" ∷ "running" ∷ "clarification" ∷ "blocked" ∷ "awaiting_confirmation" ∷ "failed"
    ∷ "action_failed" ∷ []

unfoldable pub is_unfinished : String → Task → Bool
is_unfinished runtime t = str_eq t.runtime_id runtime && contains unfinished t.status

unfoldable pub outdate : Clock → Task → Task
outdate clock t = record t {
  status = "stale";
  version = t.version + 1;
  error_code = changed;
  updated_at = now clock;
}

pub is_open_of : List Task → String → PendingAction → Bool
is_open_of tasks runtime a =
    contains ("pending" ∷ "confirmed" ∷ []) a.status && of_runtime tasks runtime a.task_id

pub is_unsent_draft : List Task → String → Draft → Bool
is_unsent_draft tasks runtime d =
    contains ("draft" ∷ "ready" ∷ []) d.state && of_runtime tasks runtime d.job_id

-- The reasons by which a draft on a task is found again.
abbrev pub purposes : List String
purposes =
    "runtime_receipt" ∷ "runtime_processing_receipt" ∷ "runtime_completion_receipt"
    ∷ "runtime_failure_receipt" ∷ "result" ∷ "confirmation" ∷ []

pub mark_draft : Clock → String → Draft → Draft
mark_draft clock state d = record d {
  state = state;
  reason = if contains purposes d.reason then d.reason else changed;
  updated_at = now clock;
}

unfoldable pub end_work : Clock → String → Db → Db
end_work clock runtime db =
    let tasks = update_rows (is_unfinished runtime) (outdate clock) db.runtime_tasks in
    let outbox =
      update_rows (is_sending_draft tasks runtime) (mark_draft clock "unknown")
        (update_rows (is_unsent_draft tasks runtime) (mark_draft clock "stale") db.outbox) in
    record db {
      runtime_tasks = tasks;
      runtime_attempts =
          update_rows (is_running tasks runtime) (end_attempt "stale" changed clock)
            db.runtime_attempts;
      runtime_pending_actions =
          update_rows (is_executing_action tasks runtime) (mark_action "unknown" clock) (
            update_rows (is_open_of tasks runtime) (mark_action "stale" clock)
              db.runtime_pending_actions);
      runtime_action_attempts =
          update_rows (is_executing tasks runtime) (end_action_attempt "unknown" changed clock)
            db.runtime_action_attempts;
      outbox = outbox;
      delivery_attempts =
          update_rows (is_sending_of tasks runtime outbox) (lose_attempt clock)
            db.delivery_attempts;
      runtime_message_actions =
          update_rows (is_sending_message tasks runtime) (lose_message clock changed)
            db.runtime_message_actions;
    }

pub invalidate : Clock → String → Db → Result (Unit {0} × Db)
invalidate clock value db = do
  c ← read_runtime db value
  ended ←
      end_batches clock
        (map (λ (b : Batch). b.id) (select_rows (is_analyzed_by c.id) db.runtime_batches)) db
  ok (tt, end_work clock c.id (ended.1))
