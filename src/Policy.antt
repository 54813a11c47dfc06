-- ===== src/Policy.antt =====
-- core/applied_config.go, core/runtime_policy_epoch.go and core/runtime_scheduling.go: which
-- configuration a piece of work was claimed under, and whether that still holds.
pub mod Samples
use memgov.Base.{
  ℕ, String, Bool, true, false, ◌&&◌, ◌||◌, Option, none, some, List, [], ◌∷◌, Result, ok, err,
  ◌>>=◌, ◌>>◌, or_fail, or_new, fail_if, not, conflict, not_found, find_row, str_eq, ltb, ◌==◌,
  if◌then◌else◌,
}
use mathlib.Core.Option
use memgov.Schema.{Db}
use memgov.Schema.Runtimes.{Runtime, AppliedConfig, Scheduling}

-- Digest of the JSON text of a runtime, and of a declaration less its operational keys.
pub record Digests : Type 0 where
  pub runtime : Runtime → String
  pub declaration : String → String

-- scanRuntimeConfig: a proactive runtime has no delivery route, and the concurrency is stored once.
unfoldable pub scanned : Runtime → Runtime
scanned c = record c {
  scheduling = record c.scheduling { execution_concurrency = c.concurrency };
  delivery_route_id = if str_eq c.application_mode "proactive" then "" else c.delivery_route_id;
}

unfoldable pub read_runtime : Db → String → Result Runtime
unfolding scanned
read_runtime db value =
    or_fail
      (Option.map scanned
        (find_row (λ c. str_eq c.id value || str_eq c.name value) db.runtime_configs))
      not_found

-- The row with the highest version.
pub newest : List AppliedConfig → Option AppliedConfig
newest [] = none
newest (c ∷ cs) = elim (newest cs) [
  | none ↦ some c
  | some d ↦ if ltb c.version d.version then some d else some c
]

pub nothing_applied : AppliedConfig
nothing_applied = record { version = 0; schema_version = 0; declaration = "" }

unfoldable pub read_applied : Db → ℕ → Result AppliedConfig
unfolding newest nothing_applied
read_applied db version =
    if ltb 0 version
    then or_fail (find_row (λ c. c.version == version) db.applied_configs) not_found
    else ok (or_new (newest db.applied_configs) nothing_applied)

module _ (digests : Digests) where
  -- The declaration of the claim differs from the latest one in operational keys at most.
  unfoldable pub unchanged : Db → ℕ → AppliedConfig → Result (Unit {0})
  unfolding read_applied
  unchanged db version latest = do
    fail_if (not (ltb 0 version)) conflict
    prior ← read_applied db version
    fail_if
        (not (
          prior.schema_version == latest.schema_version
          && str_eq (digests.declaration prior.declaration)
              (digests.declaration latest.declaration)))
        conflict

  -- checkAppliedPolicyEpoch
  unfoldable pub check_epoch : Db → ℕ → Result (Unit {0})
  unfolding read_applied unchanged
  check_epoch db version = do
    latest ← read_applied db 0
    (if latest.version == version then ok tt else unchanged db version latest)

  -- runtimePolicyDigest: what only concerns the operation of a runtime is left out.
  unfoldable pub policy_digest : Runtime → String
  policy_digest c = digests.runtime (record c {
    scheduling = record {
      analysis_concurrency = 0;
      execution_concurrency = 0;
      analysis_timeout_seconds = 0;
      execution_timeout_seconds = 0;
      review_timeout_seconds = 0;
    };
    concurrency = 0;
    item_threshold = 0;
    max_wait_seconds = 0;
    reconcile_seconds = 0;
    version = 0;
    updated_at = "";
    last_started_at = "";
    last_stopped_at = "";
    status = "";
    degraded_reason = "";
  })
