-- ===== src/Schema/Leases.antt =====
-- core/runtime_scheduling.go: a worker's lease, and the directories that it writes to.
use memgov.Base.{ℕ, String, Bool}

pub record WorkLease : Type 0 where
  pub id : String
  pub runtime_id : String
  pub kind : String
  pub route_id : String
  pub task_id : String
  pub task_version : ℕ
  pub policy_version : ℕ
  pub runtime_policy_digest : String
  pub owner : String
  pub process_pid : ℕ
  pub process_started : String
  pub phase : String
  pub deadline_at : String
  pub heartbeat_at : String
  pub activity_at : String
  pub lease_until : String
  pub released : Bool

-- The primary key is the pair.
pub record ResourceLock : Type 0 where
  pub root : String
  pub lease_id : String
