-- ===== src/Schema/People.antt =====
-- core/message.go: principals, their identifiers on the platforms, and stored messages.
use memgov.Base.{ℕ, String, Bool}

pub record Principal : Type 0 where
  pub id : String
  pub tenant : String
  pub id_type : String
  pub id_value : String
  pub created_at : String

pub record IdentityAlias : Type 0 where
  pub tenant : String
  pub id_type : String
  pub id_value : String
  pub principal_id : String
  pub basis : String
  pub verified : Bool
  pub created_at : String

pub record Message : Type 0 where
  pub id : String
  pub channel_id : String
  pub message_key : String
  pub conversation_id : String
  pub provider_message_id : String
  pub sender_principal : String
  pub sender_id_type : String
  pub sender_id_value : String
  pub sent_at : String
  pub current_revision : ℕ
  pub availability : String
  pub availability_reason : String
  pub weak_identity : Bool
  pub self_authored : Bool
  pub addressed : Bool
  pub context_only : Bool
  pub created_at : String
  pub updated_at : String
