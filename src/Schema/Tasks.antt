-- ===== src/Schema/Tasks.antt =====
-- core/runtime.go: tasks, the attempts at them, and the actions that wait for a confirmation.
use memgov.Base.{ℕ, String, Bool, List}

pub record Task : Type 0 where
  pub id : String
  pub runtime_id : String
  pub route_id : String
  pub canonical_key : String
  pub kind : String
  pub title : String
  pub instructions : String
  pub status : String
  pub needs_clarification : Bool
  pub version : ℕ
  pub result : String
  pub result_summary : String
  pub error_code : String
  pub resume : String
  pub created_at : String
  pub updated_at : String

pub record TaskMessage : Type 0 where
  pub task_id : String
  pub message_id : String
  pub revision : ℕ
  pub role : String

pub record TaskAttempt : Type 0 where
  pub id : String
  pub task_id : String
  pub task_version : ℕ
  pub applied_config_version : ℕ
  pub status : String
  pub model : String
  pub preset_name : String
  pub preset_commit : String
  pub workspace_dir : String
  pub input_digest : String
  pub output : String
  pub summary : String
  pub artifacts : List String
  pub tool_kinds : List String
  pub error_code : String
  pub started_at : String
  pub finished_at : String

pub record PendingAction : Type 0 where
  pub id : String
  pub task_id : String
  pub task_version : ℕ
  pub kind : String
  pub target : String
  pub payload : String
  pub payload_digest : String
  pub status : String
  pub confirmed_by : String
  pub confirmation_origin : String
  pub created_at : String
  pub updated_at : String

pub record ActionAttempt : Type 0 where
  pub id : String
  pub action_id : String
  pub task_id : String
  pub task_version : ℕ
  pub applied_config_version : ℕ
  pub status : String
  pub model : String
  pub result : String
  pub summary : String
  pub tool_kinds : List String
  pub error_code : String
  pub started_at : String
  pub finished_at : String

-- A message that an agent sent for a task, as far as the task's life depends on it.
pub record MessageAction : Type 0 where
  pub id : String
  pub task_id : String
  pub attempt_id : String
  pub state : String
  pub detail : String
  pub updated_at : String

pub record Batch : Type 0 where
  pub id : String
  pub runtime_id : String
  pub route_id : String
  pub status : String
  pub input_digest : String
  pub message_count : ℕ
  pub model : String
  pub attempt : ℕ
  pub retry_key : String
  pub next_run_at : String
  pub error_code : String
  pub created_at : String
  pub started_at : String
  pub finished_at : String

pub record BatchMessage : Type 0 where
  pub batch_id : String
  pub message_id : String
  pub revision : ℕ
  pub ordinal : ℕ

-- The primary key is the runtime with the message.
pub record MessageState : Type 0 where
  pub runtime_id : String
  pub route_id : String
  pub message_id : String
  pub revision : ℕ
  pub state : String
  pub batch_id : String
  pub first_seen_at : String
  pub processed_at : String
  pub retry_count : ℕ
  pub next_run_at : String
