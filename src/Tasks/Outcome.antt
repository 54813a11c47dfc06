-- ===== src/Tasks/Outcome.antt =====
-- core/runtime.go with core/runtime_policy_epoch.go: CompleteRuntimeTask, FailRuntimeTask and
-- SetRuntimeTaskStatus: how the work on a task ends.
pub mod Results
use memgov.Base.{
  ℕ, suc, ◌+◌, String, Bool, true, false, not, ◌&&◌, ◌||◌, Option, none, some, List, [], ◌∷◌, ◌++◌,
  Result, ok, err, ◌>>=◌, ◌>>◌, fail_if, or_fail, conflict, denied, invalid_input, internal,
  find_row, has_row, count_rows, update_rows, select_rows, str_eq, ltb, ◌==◌, if◌then◌else◌,
  contains, is_blank, rune_count, starts_with, length, Clock, now,
}
use memgov.Schema.{Db}
use memgov.Schema.Runtimes.{Runtime}
use memgov.Schema.Tasks.{Task, TaskAttempt, PendingAction, MessageAction}
use memgov.Policy.{Digests, read_runtime, check_epoch}
use memgov.Work.{check_work_lease, release_work_lease}
use memgov.Tasks.{
  Evidence, Formats, Proposal, read_task, is_task, messages_current, stale_task_work, end_attempt,
}
use memgov.Tasks.Claim.{is_at}
use memgov.Tasks.Proposed.{
  AttemptResult, too_large, kept_actions, is_prepared, final_status, insert_actions,
}

module _ (julianday : String → Option ℕ) (digests : Digests) where
  -- RuntimeAttemptPolicyCurrent
  pub check_attempt : Clock → String → String → ℕ → Db → Result (Unit {0})
  check_attempt clock attempt task version db = do
    check_work_lease julianday digests clock db attempt
    a ←
        or_fail
          (find_row (λ (a : TaskAttempt). str_eq a.id attempt && str_eq a.task_id task)
            db.runtime_attempts)
          internal
    fail_if (not (a.task_version == version) || not (str_eq a.status "running")) conflict
    check_epoch digests db a.applied_config_version

unfoldable pub finish_task : Clock → String → AttemptResult → Task → Task
finish_task clock status r t = record t {
  status = status;
  result = r.result;
  result_summary = r.summary;
  error_code = "";
  updated_at = now clock;
}

unfoldable pub finish_attempt : Clock → AttemptResult → TaskAttempt → TaskAttempt
finish_attempt clock r a = record a {
  status = "completed";
  output = r.result;
  summary = r.summary;
  artifacts = r.artifacts;
  tool_kinds = r.tool_kinds;
  finished_at = now clock;
}

module _ (julianday : String → Option ℕ) (digests : Digests) (evidence : Evidence)
    (formats : Formats) where
  pub complete_task :
      Clock → (ℕ → String) → String → ℕ → String → AttemptResult → Db → Result (Task × Db)
  complete_task clock new_id task version attempt r db = do
    t ← read_task db task
    fail_if (not (t.version == version) || not (str_eq t.status "running")) conflict
    check_attempt julianday digests clock attempt task version db
    current ← messages_current evidence db task
    fail_if (not current) conflict
    fail_if (too_large r) invalid_input
    c ← read_runtime db t.runtime_id
    let kept = kept_actions c r.actions
    status ←
        final_status formats c (count_rows (is_prepared task version) db.runtime_pending_actions)
          kept
    fail_if (not (count_rows (is_at task version "running") db.runtime_tasks == 1)) conflict
    actions ← insert_actions formats clock new_id 0 task version kept db.runtime_pending_actions
    released ← release_work_lease attempt (record db {
      runtime_tasks =
          update_rows (is_at task version "running") (finish_task clock status r) db.runtime_tasks;
      runtime_attempts =
          update_rows (λ (a : TaskAttempt). str_eq a.id attempt && a.task_version == version)
            (finish_attempt clock r) db.runtime_attempts;
      runtime_pending_actions = actions;
    })
    done ← read_task (released.1) task
    ok (done, released.1)

-- `if code == "" { code = d }`
abbrev pub code_or : String → String → String
code_or code d = if str_eq code "" then d else code

unfoldable pub fail_row : Clock → String → String → Task → Task
fail_row clock status code t = record t {
  status = status;
  error_code = code;
  updated_at = now clock;
}

pub is_unsettled_of : String → String → MessageAction → Bool
is_unsettled_of task attempt m =
    str_eq m.task_id task && str_eq m.attempt_id attempt && str_eq m.state "sending"

unfoldable pub lose_message : Clock → String → MessageAction → MessageAction
lose_message clock code m = record m { state = "unknown"; detail = code; updated_at = now clock }

pub fail_task : Clock → String → ℕ → String → String → Db → Result (Task × Db)
fail_task clock task version attempt given_code db = do
  let code = code_or given_code "internal"
  fail_if (not (count_rows (is_at task version "running") db.runtime_tasks == 1)) conflict
  let failed = record db {
    runtime_tasks =
        update_rows (is_at task version "running") (fail_row clock "failed" code) db.runtime_tasks;
    runtime_attempts =
        update_rows (λ (a : TaskAttempt). str_eq a.id attempt) (end_attempt "failed" code clock)
          db.runtime_attempts;
    runtime_message_actions =
        update_rows (is_unsettled_of task attempt) (lose_message clock code)
          db.runtime_message_actions;
  }
  t ← read_task failed task
  ok (t, failed)

abbrev pub retriable : List String
retriable =
    "failed" ∷ "stale" ∷ "cancelled" ∷ "clarification" ∷ "blocked" ∷ "action_failed"
    ∷ "action_unknown" ∷ []

pub is_uncertain : String → MessageAction → Bool
is_uncertain task m = str_eq m.task_id task && contains ("sending" ∷ "unknown" ∷ []) m.state

-- The `switch` of SetRuntimeTaskStatus.
unfoldable pub check_transition : Db → Task → String → Result (Unit {0})
check_transition db t status =
    if str_eq status "cancelled"
    then fail_if (str_eq t.status "completed") conflict
    else if str_eq status "pending"
    then (fail_if (not (contains retriable t.status)) conflict
        >> fail_if (has_row (is_uncertain t.id) db.runtime_message_actions) conflict)
    else err invalid_input

unfoldable pub reset_task : Clock → String → Task → Task
reset_task clock status t = record t {
  status = status;
  needs_clarification = false;
  version = t.version + 1;
  error_code = if str_eq status "cancelled" then "cancelled" else "";
  resume = "";
  updated_at = now clock;
}

unfoldable pub set_status : Clock → String → String → Db → Result (Task × Db)
set_status clock id status db = do
  t ← read_task db id
  fail_if (str_eq status "pending" && str_eq t.kind "memory") denied
  check_transition db t status
  let reset = stale_task_work clock id (record db {
    runtime_tasks = update_rows (is_task id) (reset_task clock status) db.runtime_tasks;
  })
  done ← read_task reset id
  ok (done, reset)
