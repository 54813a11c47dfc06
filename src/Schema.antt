-- ===== src/Schema.antt =====
-- The tables of state.db that the model reads and writes.
pub mod Samples
pub mod Channels
pub mod Windows
pub mod Drafts
pub mod Leases
pub mod People
pub mod Runtimes
pub mod Tasks
pub mod Inbox
use memgov.Base.{List, []}
use Channels.{Channel, Route, Lease, Workspace, Conversation}
use Windows.{Watermark, CoverageWindow}
use Leases.{WorkLease, ResourceLock}
use People.{Principal, IdentityAlias, Message}
use Drafts.{RequestContext, Draft, Attempt}
use Runtimes.{Runtime, AppliedConfig}
use Tasks.{
  Task, TaskMessage, TaskAttempt, PendingAction, ActionAttempt, MessageAction, Batch, BatchMessage,
  MessageState,
}
use Inbox.{
  InboxEvent, Revision, Recall, AttachmentRow, Observation, RelationRow, SourceOrigin,
  SourceAvailability,
}

pub record Db : Type 0 where
  pub channels : List Channel
  pub channel_routes : List Route
  pub workspaces : List Workspace
  pub conversations : List Conversation
  pub channel_leases : List Lease
  pub channel_watermarks : List Watermark
  pub coverage_windows : List CoverageWindow
  pub request_contexts : List RequestContext
  pub outbox : List Draft
  pub delivery_attempts : List Attempt
  pub principals : List Principal
  pub identity_aliases : List IdentityAlias
  pub messages : List Message
  pub runtime_work_leases : List WorkLease
  pub runtime_resource_locks : List ResourceLock
  pub message_revisions : List Revision
  pub message_recalls : List Recall
  pub message_attachments : List AttachmentRow
  pub message_observations : List Observation
  pub message_relations : List RelationRow
  pub inbox_events : List InboxEvent
  pub source_origins : List SourceOrigin
  pub source_availability : List SourceAvailability
  pub runtime_configs : List Runtime
  pub applied_configs : List AppliedConfig
  pub runtime_tasks : List Task
  pub runtime_task_messages : List TaskMessage
  pub runtime_attempts : List TaskAttempt
  pub runtime_pending_actions : List PendingAction
  pub runtime_action_attempts : List ActionAttempt
  pub runtime_message_actions : List MessageAction
  pub runtime_batches : List Batch
  pub runtime_batch_messages : List BatchMessage
  pub runtime_message_states : List MessageState

unfoldable pub empty : Db
empty = record {
  channels = [];
  channel_routes = [];
  workspaces = [];
  conversations = [];
  channel_leases = [];
  channel_watermarks = [];
  coverage_windows = [];
  request_contexts = [];
  outbox = [];
  delivery_attempts = [];
  principals = [];
  identity_aliases = [];
  messages = [];
  runtime_work_leases = [];
  runtime_resource_locks = [];
  message_revisions = [];
  message_recalls = [];
  message_attachments = [];
  message_observations = [];
  message_relations = [];
  inbox_events = [];
  source_origins = [];
  source_availability = [];
  runtime_configs = [];
  applied_configs = [];
  runtime_tasks = [];
  runtime_task_messages = [];
  runtime_attempts = [];
  runtime_pending_actions = [];
  runtime_action_attempts = [];
  runtime_message_actions = [];
  runtime_batches = [];
  runtime_batch_messages = [];
  runtime_message_states = [];
}
