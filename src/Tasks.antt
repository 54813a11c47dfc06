-- ===== src/Tasks.antt =====
-- core/runtime.go: reading a task, and withdrawing the work on it. What ReadRuntimeTask adds to the
-- row (messages, attempts, actions, redaction) is only shown.
pub mod Proposed
pub mod Claim
pub mod Outcome
pub mod Approval
pub mod Confirm
pub mod Actions
pub mod Recovery
pub mod Reconfigured
pub mod Revised
pub mod Once
pub mod Moves
pub mod Acts
pub mod History
pub mod Samples
use memgov.Base.{
  ℕ, String, Bool, not, ◌&&◌, ◌||◌, Result, ok, err, ◌>>=◌, ◌>>◌, fail_if, or_fail, not_found,
  conflict, find_row, has_row, count_rows, update_rows, str_eq, ◌==◌, if◌then◌else◌, contains, List,
  [], ◌∷◌, Clock, now, ◌≡◌, fail_if-elim, ok-state, Option, none, some, true, false,
}
use memgov.Schema.{Db}
use memgov.Schema.People.{Message}
use memgov.Schema.Channels.{Route}
use memgov.Schema.Runtimes.{Runtime}
use memgov.Schema.Tasks.{Task, TaskMessage, TaskAttempt, PendingAction, ActionAttempt}
use memgov.Channel.{read_route}

-- What is read of parts that are not modelled: retained message predicates (direct_retention.go),
-- the sessions of direct chats (runtime_direct_session.go), and forwards by the bot
-- (runtime_bot_forward.go).
pub record Evidence : Type 0 where
  pub retained : Db → Message → Bool
  pub turn_current : Db → String → Result Bool
  pub forward_current : Db → String → Result (Unit {0})

-- What the agent proposes to destroy.
pub record Proposal : Type 0 where
  pub operation : String
  pub impact : String
  pub recovery : String

-- An action as a card shows it.
pub record CardAction : Type 0 where
  pub id : String
  pub digest : String
  pub kind : String
  pub target : String

pub record Card : Type 0 where
  pub task_version : ℕ
  pub template_id : String
  pub actions : List CardAction

-- SHA-256, json.Unmarshal and time.Parse of RFC 3339 with nanoseconds; `none` is their error.
pub record Formats : Type 0 where
  pub hash : String → String
  pub proposal : String → Option Proposal
  pub card : String → Option Card
  pub time : String → Option ℕ

unfoldable pub is_task : String → Task → Bool
is_task id t = str_eq t.id id

unfoldable pub read_task : Db → String → Result Task
unfolding is_task
read_task db id = or_fail (find_row (is_task id) db.runtime_tasks) not_found

pub is_open_action : String → PendingAction → Bool
is_open_action task a = str_eq a.task_id task && contains ("pending" ∷ "confirmed" ∷ []) a.status

pub is_started_action : String → PendingAction → Bool
is_started_action task a = str_eq a.task_id task && str_eq a.status "executing"

pub is_action_run : String → ActionAttempt → Bool
is_action_run task a = str_eq a.task_id task && str_eq a.status "running"

pub is_task_run : String → TaskAttempt → Bool
is_task_run task a = str_eq a.task_id task && str_eq a.status "running"

unfoldable pub mark_action : String → Clock → PendingAction → PendingAction
mark_action status clock a = record a { status = status; updated_at = now clock }

unfoldable pub end_action_attempt : String → String → Clock → ActionAttempt → ActionAttempt
end_action_attempt status code clock a = record a {
  status = status;
  error_code = code;
  finished_at = now clock;
}

unfoldable pub end_attempt : String → String → Clock → TaskAttempt → TaskAttempt
end_attempt status code clock a = record a {
  status = status;
  error_code = code;
  finished_at = now clock;
}

-- staleRuntimeTaskWork: what may have reached the outside is unknown, the rest is stale.
unfoldable pub stale_task_work : Clock → String → Db → Db
stale_task_work clock id db = record db {
  runtime_pending_actions =
      update_rows (is_started_action id) (mark_action "unknown" clock)
        (update_rows (is_open_action id) (mark_action "stale" clock) db.runtime_pending_actions);
  runtime_action_attempts =
      update_rows (is_action_run id) (end_action_attempt "unknown" "task_changed" clock)
        db.runtime_action_attempts;
  runtime_attempts =
      update_rows (is_task_run id) (end_attempt "stale" "task_changed" clock) db.runtime_attempts;
}

-- A link whose message is not the one that the task was made from any more.
pub is_outdated : Evidence → Db → TaskMessage → Bool
is_outdated evidence db k =
    has_row
      (λ (m : Message).
        str_eq m.id k.message_id
        && (not (m.current_revision == k.revision)
            || not (str_eq m.availability "available")
            || not (evidence.retained db m)))
      db.messages

-- runtimeTaskMessagesCurrent
pub messages_current : Evidence → Db → String → Result Bool
messages_current evidence db id =
    if has_row (λ (k : TaskMessage). str_eq k.task_id id && is_outdated evidence db k)
      db.runtime_task_messages
    then ok false
    else evidence.turn_current db id

-- runtimeTaskTriggerAdmitted
pub trigger_admitted : Db → Runtime → Task → Bool
trigger_admitted db c t =
    str_eq t.runtime_id c.id && contains c.route_ids t.route_id && elim (read_route db t.route_id) [
      | err e ↦ false
      | ok r ↦
          str_eq r.channel_id c.channel_id
          && str_eq r.status "active"
          && not (str_eq r.mode "ignore")
    ]

-- SetRuntimeAttemptWorkspace
pub set_workspace : String → String → Db → Result (Unit {0} × Db)
set_workspace id dir db = do
  let running = λ (a : TaskAttempt). str_eq a.id id && str_eq a.status "running"
  fail_if (not (count_rows running db.runtime_attempts == 1)) conflict
  ok (
    tt,
    record db {
      runtime_attempts =
          update_rows running (λ a. record a { workspace_dir = dir }) db.runtime_attempts;
    },
  )

pub set_workspace-inv :
    (id dir : String) (db : Db) (u : Unit {0}) (db' : Db)
    → set_workspace id dir db ≡ ok (u, db')
    → db' ≡ record db {
      runtime_attempts =
          update_rows
            (λ (a : TaskAttempt). str_eq a.id id && str_eq a.status "running")
            (λ a. record a { workspace_dir = dir })
            db.runtime_attempts;
    }
unfolding set_workspace
set_workspace-inv id dir db u db' h =
    fail_if-elim
      (not (
        count_rows (λ (a : TaskAttempt). str_eq a.id id && str_eq a.status "running")
          db.runtime_attempts
        == 1))
      conflict _ h λ _ h. ok-state h
