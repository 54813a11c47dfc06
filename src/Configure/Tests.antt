-- ===== src/Configure/Tests.antt =====
-- A running runtime is configured anew.
use memgov.Base.{
  ◌*◌, ◌≡◌, refl, true, false, some, [], ◌∷◌, ok, Clock, second, find_row, update_rows, trim_space,
  is_identifier, is_identifier_char, all_chars, rune_count,
}
use memgov.Schema.{Db, empty}
use memgov.Schema.Runtimes.{Runtime}
use memgov.Schema.Samples.{clock_at, one_route}
use memgov.Channel.{read_channel, read_route}
use memgov.Channel.Normalize.{is_channel_name, is_lower, is_digit, first_is}
use memgov.Identity.{principal_for, is_weak, is_alias, is_verified_alias}
use memgov.Policy.{read_runtime, scanned, policy_digest}
use memgov.Policy.Samples.{digests}
use memgov.Work.Limits.{normalize, with_defaults, check_limits}
use memgov.Tasks.Samples
use memgov.Configure.{
  Input, normalize_input, with_defaults_of, check_identity, check_actions, check_models, all_unique,
  default_actions, bash_of, out_of_range, supported,
}
use memgov.Configure.Checks.{check_routes, for_mode, for_owner}
use memgov.Configure.Store.{
  configure_runtime, change_runtime, scheduling_only, same_list, configured, is_version,
}
use memgov.Configure.Running.{running_policy_stays}

abbrev clock : Clock
clock = clock_at (20 * second)

abbrev runs : Runtime
runs = record Samples.runtime {
  application_mode = "proactive";
  delivery_route_id = "";
  agent_capabilities = supported;
  agent_bash = true;
  external_actions = "owner_delegated";
  analysis_model = "haiku";
  agent_preset = "claude-default";
}

abbrev store : Db
store = record one_route { runtime_configs = runs ∷ []; identity_aliases = Samples.owner ∷ [] }

-- Twice as many workers.
abbrev asked : Input
asked = record {
  scheduling = record {
    analysis_concurrency = 2;
    execution_concurrency = 2;
    analysis_timeout_seconds = 600;
    execution_timeout_seconds = 3600;
    review_timeout_seconds = 600;
  };
  name = "team";
  channel = "c1";
  route_ids = "r1" ∷ [];
  delivery_route_id = "r1";
  owner = record { id_type = "user_id"; id_value = "ann"; display_name = ""; self_author = false };
  application_mode = "proactive";
  context_channel = "";
  agent_capabilities = some supported;
  agent_bash = some true;
  external_actions = "owner_delegated";
  claude_profile = "";
  analysis_model = "haiku";
  execution_model = "m";
  agent_preset = "claude-default";
  item_threshold = 1;
  max_wait_seconds = 60;
  reconcile_seconds = 60;
  concurrency = 2;
  expected_version = 1;
}

abbrev changed_row : Runtime
changed_row = configured clock asked "c1" "p1" runs

abbrev changed_store : Db
changed_store = record store { runtime_configs = changed_row ∷ [] }

changes : configure_runtime clock "rt2" "p2" asked store ≡ ok (scanned changed_row, changed_store)
unfolding configure_runtime normalize_input with_defaults_of check_identity is_channel_name is_lower
    is_digit first_is all_unique is_identifier is_identifier_char all_chars rune_count trim_space
    check_actions check_models supported bash_of default_actions normalize with_defaults
    check_limits out_of_range read_channel read_route find_row empty check_routes for_mode for_owner
    principal_for is_weak is_alias is_verified_alias read_runtime scanned change_runtime
    scheduling_only same_list update_rows is_version configured
changes = refl

by_name : read_runtime store (trim_space "team") ≡ ok (scanned runs)
unfolding read_runtime find_row trim_space
by_name = refl

by_id : read_runtime store (scanned runs).id ≡ ok (scanned runs)
unfolding read_runtime find_row scanned
by_id = refl

status_runs : (scanned runs).status ≡ "running"
unfolding scanned
status_runs = refl

running_policy_stays_example :
    (policy_digest digests (scanned changed_row) ≡ policy_digest digests (scanned runs))
    × (changed_store.runtime_tasks ≡ store.runtime_tasks)
    × (changed_store.runtime_attempts ≡ store.runtime_attempts)
    × (changed_store.runtime_pending_actions ≡ store.runtime_pending_actions)
    × (changed_store.runtime_work_leases ≡ store.runtime_work_leases)
running_policy_stays_example =
    running_policy_stays digests clock "rt2" "p2" asked store (scanned runs) (scanned changed_row)
      changed_store changes by_name by_id status_runs
