-- ===== src/Schema/Windows.antt =====
-- core/coverage.go: watermarks and coverage windows.
use memgov.Base.{ℕ, String, Bool}

pub record Watermark : Type 0 where
  pub channel_id : String
  pub conversation_id : String
  pub observed_at : String
  pub covered_until : String
  pub gap_unresolved : Bool
  pub updated_at : String

-- `resolved_at` is the column that schema version 20 adds.
pub record CoverageWindow : Type 0 where
  pub id : String
  pub channel_id : String
  pub conversation_id : String
  pub start_at : String
  pub end_at : String
  pub complete : Bool
  pub messages : ℕ
  pub stop_reason : String
  pub cursor : String
  pub gap : String
  pub created_at : String
  pub resolved_at : String
