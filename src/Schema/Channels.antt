-- ===== src/Schema/Channels.antt =====
-- core/channel.go: channels, routes and receiver leases.
use memgov.Base.{ℕ, String, Bool, List}

pub record ChannelIdentity : Type 0 where
  pub profile : String
  pub expected_corp_id : String
  pub expected_user_id : String
  pub client_id : String
  pub robot_code : String
  pub delivery_robot_code : String
  pub delivery_robot_name : String
  pub history_channel : String
  pub confirmation_card_template : String

pub record Capabilities : Type 0 where
  pub verified : List (String × Bool)
  pub unverified : List String
  pub checked_at : String
  pub tool : String

-- `Routes` is not a column: it is read by `route_list`.
pub record Channel : Type 0 where
  pub id : String
  pub name : String
  pub kind : String
  pub provider : String
  pub tenant : String
  pub auth_namespace : String
  pub id_namespace : String
  pub identity : ChannelIdentity
  pub credential_ref : String
  pub capabilities : Capabilities
  pub tool_version : String
  pub config_version : ℕ
  pub status : String
  pub created_at : String
  pub updated_at : String

pub record Route : Type 0 where
  pub id : String
  pub channel_id : String
  pub conversation_id : String
  pub conversation_type : String
  pub workspace_id : String
  pub mode : String
  pub triggers : List String
  pub audience_policy : String
  pub audience_key : String
  pub memory_policy : String
  pub send_policy : String
  pub approval_display : String
  pub retention : String
  pub version : ℕ
  pub status : String
  pub created_at : String
  pub updated_at : String

-- A row of `channel_leases`; `held` is computed on reading.
pub record Lease : Type 0 where
  pub channel_id : String
  pub holder : String
  pub token : String
  pub fence : ℕ
  pub until : String
  pub updated_at : String
  pub held : Bool

pub record Workspace : Type 0 where
  pub id : String
  pub name : String
  pub path : String

pub record Conversation : Type 0 where
  pub id : String
  pub channel_id : String
  pub provider_conversation_id : String
  pub kind : String
  pub created_at : String
