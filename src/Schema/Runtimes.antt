-- ===== src/Schema/Runtimes.antt =====
-- core/runtime.go, core/runtime_scheduling.go and core/applied_config.go: what is configured.
use memgov.Base.{ℕ, String, Bool, List}

pub record Scheduling : Type 0 where
  pub analysis_concurrency : ℕ
  pub execution_concurrency : ℕ
  pub analysis_timeout_seconds : ℕ
  pub execution_timeout_seconds : ℕ
  pub review_timeout_seconds : ℕ

-- A row of `runtime_configs`; `memory_scope`, which nothing reads, is left out.
pub record Runtime : Type 0 where
  pub scheduling : Scheduling
  pub id : String
  pub name : String
  pub channel_id : String
  pub route_ids : List String
  pub delivery_route_id : String
  pub owner_principal_id : String
  pub owner_id_type : String
  pub owner_id_value : String
  pub application_mode : String
  pub context_channel_id : String
  pub agent_capabilities : List String
  pub agent_bash : Bool
  pub external_actions : String
  pub claude_profile : String
  pub analysis_model : String
  pub execution_model : String
  pub agent_preset : String
  pub item_threshold : ℕ
  pub max_wait_seconds : ℕ
  pub reconcile_seconds : ℕ
  pub concurrency : ℕ
  pub status : String
  pub degraded_reason : String
  pub version : ℕ
  pub bootstrap_at : String
  pub last_started_at : String
  pub last_stopped_at : String
  pub created_at : String
  pub updated_at : String

-- A row of `applied_configs`, less the objects and the digest.
pub record AppliedConfig : Type 0 where
  pub version : ℕ
  pub schema_version : ℕ
  pub declaration : String
