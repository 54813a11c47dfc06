-- ===== src/Tasks/Revised.antt =====
-- core/runtime.go, core/runtime_card.go, core/runtime_task_resume.go and core/direct_retention.go: what
-- the rest of the program does to a task that is stored: an edit or a recall of its messages, the
-- decisions of a batch on it, the rejection of a card, its resumption, and the retention of texts.
-- What these calls check before (who may decide, what a card showed, whether a task may be resumed)
-- is left out, so here each may come at any time; making a task is left out as well.
pub mod Steps
pub mod Erasures
use memgov.Base.{
  ℕ, ◌+◌, String, Bool, true, false, not, ◌&&◌, ◌||◌, List, [], ◌∷◌, Result, ok, ◌>>=◌, ◌>>◌,
  fail_if, denied, invalid_input, conflict, has_row, count_rows, update_rows, upsert_row, str_eq,
  ◌==◌, if◌then◌else◌, contains, concat, is_blank, Clock, now,
}
use memgov.Schema.{Db}
use memgov.Schema.Tasks.{
  Task, TaskMessage, TaskAttempt, PendingAction, ActionAttempt, MessageAction,
}
use memgov.Outbox.Redaction.{redacted}
use memgov.Tasks.{is_task, read_task, stale_task_work}
use memgov.Tasks.Claim.{is_at}
use memgov.Tasks.Confirm.{is_pending_action}

-- SyncRuntimeMessages, for one task that a changed message is linked to: after an edit it is stale,
-- after a recall cancelled.
unfoldable pub is_live : String → Task → Bool
is_live id t = str_eq t.id id && not (str_eq t.status "cancelled")

unfoldable pub revise_row : Clock → Bool → Task → Task
revise_row clock recalled t = record t {
  status = if recalled then "cancelled" else "stale";
  version = t.version + 1;
  updated_at = now clock;
}

unfoldable pub revise_task : Clock → Bool → String → Db → Db
revise_task clock recalled id db =
    if has_row (is_live id) db.runtime_tasks
    then stale_task_work clock id (record db {
      runtime_tasks = update_rows (is_live id) (revise_row clock recalled) db.runtime_tasks;
    })
    else db

-- What an agent decides about a stored task; `messages` with their revisions.
pub record Decision : Type 0 where
  pub kind : String
  pub title : String
  pub instructions : String
  pub unclear : Bool
  pub messages : List (String × ℕ)

unfoldable pub link_all : String → String → List (String × ℕ) → List TaskMessage → List TaskMessage
link_all task role [] links = links
link_all task role ((m, revision) ∷ ms) links = link_all task role ms (
    upsert_row (λ (k : TaskMessage). str_eq k.task_id task && str_eq k.message_id m)
      (record { task_id = task; message_id = m; revision = revision; role = role })
      (λ k. record k { revision = revision }) links)

unfoldable pub closes : Decision → Task → Bool
closes d t =
    str_eq d.kind "cancel"
    || str_eq d.kind "complete"
    || (str_eq t.status "completed" && str_eq d.kind "task")

unfoldable pub closed_as : Decision → String
closed_as d = if str_eq d.kind "cancel" then "cancelled" else "completed"

unfoldable pub close_row : Clock → Decision → Task → Task
close_row clock d t = record t {
  status = closed_as d;
  version = t.version + 1;
  result_summary =
      if str_eq d.kind "complete" && not (str_eq d.instructions "")
      then d.instructions
      else t.result_summary;
  updated_at = now clock;
}

unfoldable pub planned_as : Bool → Decision → String
planned_as proactive d = if d.unclear && not proactive then "clarification" else "pending"

unfoldable pub plan_row : Clock → String → Bool → Decision → Task → Task
plan_row clock route proactive d t = record t {
  route_id = route;
  kind =
      if str_eq d.kind "update"
      then (if str_eq t.kind "" then "task" else t.kind)
      else if str_eq d.kind ""
      then "task"
      else d.kind;
  title = d.title;
  instructions = d.instructions;
  status = planned_as proactive d;
  needs_clarification = d.unclear;
  version = t.version + 1;
  result = "";
  result_summary =
      if str_eq (planned_as proactive d) "clarification"
      then concat ("需要补充信息：" ∷ d.instructions ∷ [])
      else t.result_summary;
  error_code = "";
  updated_at = now clock;
}

-- CompleteRuntimeBatch, for one decision on a task that is there.
unfoldable pub decide_task : Clock → String → Bool → Decision → String → Db → Result (Task × Db)
decide_task clock route proactive d id db = do
  t ← read_task db id
  fail_if (str_eq t.kind "memory") denied
  if closes d t
      then ok (
        t,
        if str_eq t.status (closed_as d)
            then record db {
              runtime_task_messages = link_all id "followup" d.messages db.runtime_task_messages;
            }
            else stale_task_work clock id (record db {
              runtime_tasks = update_rows (is_task id) (close_row clock d) db.runtime_tasks;
              runtime_task_messages = link_all id "followup" d.messages db.runtime_task_messages;
            }),
      )
      else (fail_if (is_blank d.title || is_blank d.instructions) invalid_input
          >> ok (
            t,
            stale_task_work clock id (record db {
              runtime_tasks =
                  update_rows (is_task id) (plan_row clock route proactive d) db.runtime_tasks;
              runtime_task_messages = link_all id "trigger" d.messages db.runtime_task_messages;
            }),
          ))

-- ConfirmRuntimeCard, where the owner rejects: each of the card's actions that still wait, `ids`, and
-- the task. (The code has stopped before where none waits.)
unfoldable pub reject_row : Clock → String → String → PendingAction → PendingAction
reject_row clock owner origin a = record a {
  status = "rejected";
  confirmed_by = owner;
  confirmation_origin = origin;
  updated_at = now clock;
}

unfoldable pub reject_actions :
    Clock → String → String → List String → List PendingAction → Result (List PendingAction)
reject_actions clock owner origin [] table = ok table
reject_actions clock owner origin (id ∷ ids) table = do
  fail_if (not (count_rows (is_pending_action id) table == 1)) conflict
  reject_actions clock owner origin ids
      (update_rows (is_pending_action id) (reject_row clock owner origin) table)

unfoldable pub drop_row : Clock → Task → Task
drop_row clock t = record t {
  status = "cancelled";
  error_code = "owner_rejected";
  updated_at = now clock;
}

unfoldable pub reject_card :
    Clock → String → String → List String → String → ℕ → Db → Result (Unit {0} × Db)
reject_card clock owner origin ids task version db = do
  actions ← reject_actions clock owner origin ids db.runtime_pending_actions
  fail_if (not (count_rows (is_at task version "awaiting_confirmation") db.runtime_tasks == 1))
      conflict
  ok (
    tt,
    record db {
      runtime_pending_actions = actions;
      runtime_tasks =
          update_rows (is_at task version "awaiting_confirmation") (drop_row clock)
            db.runtime_tasks;
    },
  )

-- ResumeRuntimeTask, with the JSON of where it resumes. (The SetRuntimeStatus at its end is
-- Configure's.)
unfoldable pub resume_row : Clock → String → Task → Task
resume_row clock resume t = record t {
  status = "pending";
  needs_clarification = false;
  version = t.version + 1;
  error_code = "";
  resume = resume;
  updated_at = now clock;
}

unfoldable pub resume_task : Clock → String → String → ℕ → Db → Result (Unit {0} × Db)
resume_task clock resume id version db = do
  fail_if (not (count_rows (is_at id version "failed") db.runtime_tasks == 1)) conflict
  ok (
    tt,
    stale_task_work clock id (record db {
      runtime_tasks =
          update_rows (is_at id version "failed") (resume_row clock resume) db.runtime_tasks;
    }),
  )

-- ApplyDataSourceRetention, for one message whose text expires: what its tasks keep of it.
unfoldable pub is_about : Db → String → String → Bool
is_about db message task =
    has_row (λ (k : TaskMessage). str_eq k.message_id message && str_eq k.task_id task)
      db.runtime_task_messages

unfoldable pub expire_action : PendingAction → PendingAction
expire_action a = record a {
  payload = "";
  payload_digest = "";
  status =
      if contains ("pending" ∷ "confirmed" ∷ []) a.status
      then "stale"
      else if str_eq a.status "executing"
      then "unknown"
      else a.status;
}

unfoldable pub expire_row : Task → Task
expire_row t = record t { instructions = ""; result = "" }

-- `cites`: whether the message is among the evidence of what an agent sent.
unfoldable pub expire_tasks : (MessageAction → Bool) → String → Db → Db
expire_tasks cites message db = record db {
  runtime_attempts =
      update_rows (λ (a : TaskAttempt). is_about db message a.task_id)
        (λ a. record a { output = "" }) db.runtime_attempts;
  runtime_tasks = update_rows (λ (t : Task). is_about db message t.id) expire_row db.runtime_tasks;
  runtime_pending_actions =
      update_rows (λ (a : PendingAction). is_about db message a.task_id) expire_action
        db.runtime_pending_actions;
  runtime_action_attempts =
      update_rows (λ (a : ActionAttempt). is_about db message a.task_id)
        (λ a. record a { result = "" }) db.runtime_action_attempts;
  runtime_message_actions =
      update_rows (λ (m : MessageAction). is_about db message m.task_id || cites m)
        (λ m. record m { detail = "source evidence unavailable" }) db.runtime_message_actions;
}

-- redactRuntimeConclusions, on tasks and attempts; `f` as in Outbox.Redaction.
unfoldable pub redact_row : (String → String) → Task → Task
redact_row f t = record t {
  result_summary = redacted f t.result_summary;
  result = redacted f t.result;
}

unfoldable pub redact_work : (String → String) → Db → Db
redact_work f db = record db {
  runtime_tasks = update_rows (λ _. true) (redact_row f) db.runtime_tasks;
  runtime_attempts =
      update_rows (λ _. true)
        (λ (a : TaskAttempt). record a { summary = redacted f a.summary; output = "" })
        db.runtime_attempts;
  runtime_action_attempts =
      update_rows (λ _. true) (λ (a : ActionAttempt). record a { summary = redacted f a.summary })
        db.runtime_action_attempts;
}
