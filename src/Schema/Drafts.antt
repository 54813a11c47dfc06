-- ===== src/Schema/Drafts.antt =====
-- core/outbox.go and core/dispatch.go: request contexts, drafts and delivery attempts.
use memgov.Base.{ℕ, String, Bool, List}

pub record Sender : Type 0 where
  pub id_type : String
  pub id_value : String
  pub display_name : String
  pub self_author : Bool

-- A row of `request_contexts`, joined with the name of its channel. The table has the sender's
-- identifier only, so a stored row has "" for the name and `false` for `self_author`; the answer of
-- OpenContext has both.
pub record RequestContext : Type 0 where
  pub id : String
  pub channel_id : String
  pub channel_name : String
  pub route_id : String
  pub route_version : ℕ
  pub conversation_id : String
  pub audience_key : String
  pub workspace_id : String
  pub principal_id : String
  pub sender : Sender
  pub trigger_message : String
  pub intent : String
  pub query : String
  pub origin : String
  pub reply_transport : String
  pub reply_expires_at : String
  pub expires_at : String
  pub created_at : String

-- A row of `outbox`: a draft, with the task that it reports on (`job_id`, "" for none).
pub record Draft : Type 0 where
  pub id : String
  pub channel_id : String
  pub channel_name : String
  pub route_id : String
  pub route_version : ℕ
  pub context_id : String
  pub job_id : String
  pub conversation_id : String
  pub audience_key : String
  pub sender_identity : String
  pub transport : String
  pub content : String
  pub format : String
  pub citations : List String
  pub input_digest : String
  pub display_digest : String
  pub send_policy : String
  pub state : String
  pub reason : String
  pub created_at : String
  pub updated_at : String

-- A row of `delivery_attempts`.
pub record Attempt : Type 0 where
  pub id : String
  pub outbox_id : String
  pub attempt : ℕ
  pub transport : String
  pub idempotency_key : String
  pub state : String
  pub receipt : String
  pub error : String
  pub started_at : String
  pub finished_at : String
