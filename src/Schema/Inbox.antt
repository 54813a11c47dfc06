-- ===== src/Schema/Inbox.antt =====
-- core/message.go: what was taken in from the platforms.
use memgov.Base.{ℕ, String}

-- A row of `inbox_events`, less the payload and its digest.
pub record InboxEvent : Type 0 where
  pub id : String
  pub channel_id : String
  pub dedupe_key : String
  pub event_kind : String
  pub provider_event_id : String
  pub provider_message_id : String
  pub conversation_id : String
  pub event_at : String
  pub received_at : String
  pub adapter : String
  pub parse_version : String
  pub origin : String
  pub status : String
  pub message_id : String
  pub source_time_raw : String

pub record Revision : Type 0 where
  pub message_id : String
  pub revision : ℕ
  pub body : String
  pub body_digest : String
  pub format : String
  pub edited_at : String
  pub ordering : String
  pub created_at : String

pub record Recall : Type 0 where
  pub message_key : String
  pub recalled_at : String
  pub inbox_event_id : String
  pub created_at : String

pub record AttachmentRow : Type 0 where
  pub message_id : String
  pub revision : ℕ
  pub ordinal : ℕ
  pub name : String
  pub media_type : String
  pub resource_id : String

pub record Observation : Type 0 where
  pub message_id : String
  pub revision : ℕ
  pub channel_id : String
  pub adapter : String
  pub inbox_event_id : String
  pub observed_at : String

pub record RelationRow : Type 0 where
  pub src_message_id : String
  pub kind : String
  pub dst_provider_message_id : String
  pub dst_message_id : String
  pub origin_sender : String
  pub confidence : String

pub record SourceOrigin : Type 0 where
  pub source_id : String
  pub channel_id : String
  pub message_id : String
  pub revision : ℕ
  pub route_id : String
  pub created_at : String

pub record SourceAvailability : Type 0 where
  pub source_id : String
  pub state : String
  pub reason : String
  pub change_seq : ℕ
  pub updated_at : String
