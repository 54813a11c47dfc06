-- ===== src/Configure/Store.antt =====
-- core/runtime.go and core/runtime_scheduling.go: ConfigureRuntime, saveScheduling and SetRuntimeStatus.
-- Two JSON texts of lists are equal where the lists are.
use memgov.Base.{
  ℕ, ◌+◌, String, Bool, true, false, not, ◌&&◌, ◌||◌, List, [], ◌∷◌, ◌++◌, Result, ok, err, ◌>>=◌,
  ◌>>◌, fail_if, or_new, invalid_input, denied, conflict, internal, str_eq, ltb, ◌==◌,
  if◌then◌else◌, contains, has_row, update_rows, Clock, now,
}
use memgov.Schema.{Db}
use memgov.Schema.Runtimes.{Runtime}
use memgov.Channel.{read_channel, read_route}
use memgov.Identity.{principal_for}
use memgov.Policy.{read_runtime}
use memgov.Tasks.Reconfigured.{invalidate}
use memgov.Configure.{Input, bash_of, normalize_input}
use memgov.Configure.Checks.{check_routes, for_mode, owner_routes}

unfoldable pub same_list : List String → List String → Bool
same_list [] [] = true
same_list [] (y ∷ ys) = false
same_list (x ∷ xs) [] = false
same_list (x ∷ xs) (y ∷ ys) = str_eq x y && same_list xs ys

-- schedulingOnlyChange
unfoldable pub scheduling_only : Runtime → Input → String → String → Bool
scheduling_only c i channel owner =
    str_eq c.channel_id channel
    && str_eq c.owner_principal_id owner
    && str_eq c.owner_id_type i.owner.id_type
    && str_eq c.owner_id_value i.owner.id_value
    && (str_eq c.application_mode "proactive" || str_eq c.delivery_route_id i.delivery_route_id)
    && same_list c.route_ids i.route_ids
    && str_eq c.claude_profile i.claude_profile
    && str_eq c.analysis_model i.analysis_model
    && str_eq c.execution_model i.execution_model
    && str_eq c.agent_preset i.agent_preset
    && str_eq c.application_mode i.application_mode
    && str_eq c.context_channel_id i.context_channel
    && same_list c.agent_capabilities (or_new i.agent_capabilities [])
    && (if c.agent_bash then bash_of "" i.agent_bash else not (bash_of "" i.agent_bash))
    && str_eq c.external_actions i.external_actions

-- The row as the input says it is.
unfoldable pub configured : Clock → Input → String → String → Runtime → Runtime
configured clock i channel owner c = record c {
  scheduling = i.scheduling;
  channel_id = channel;
  route_ids = i.route_ids;
  delivery_route_id = i.delivery_route_id;
  owner_principal_id = owner;
  owner_id_type = i.owner.id_type;
  owner_id_value = i.owner.id_value;
  claude_profile = i.claude_profile;
  analysis_model = i.analysis_model;
  execution_model = i.execution_model;
  agent_preset = i.agent_preset;
  item_threshold = i.item_threshold;
  max_wait_seconds = i.max_wait_seconds;
  reconcile_seconds = i.reconcile_seconds;
  concurrency = i.concurrency;
  application_mode = i.application_mode;
  context_channel_id = i.context_channel;
  agent_capabilities = or_new i.agent_capabilities [];
  agent_bash = bash_of "" i.agent_bash;
  external_actions = i.external_actions;
  degraded_reason = "";
  version = c.version + 1;
  updated_at = now clock;
}

unfoldable pub is_version : String → ℕ → Runtime → Bool
is_version id version c = str_eq c.id id && c.version == version

-- A known runtime that is configured anew. One that runs may only change in how it is scheduled.
unfoldable pub change_runtime :
    Clock → Input → String → String → Runtime → Db → Result (Runtime × Db)
change_runtime clock i channel owner current db = do
  let only = scheduling_only current i channel owner
  fail_if (str_eq current.status "running" && not only) conflict
  fail_if (ltb i.expected_version 1 || not (i.expected_version == current.version)) conflict
  kept ← if only then ok (tt, db) else invalidate clock current.id db
  let old = kept.1
  let stored = record old {
    runtime_configs =
        update_rows (is_version current.id current.version) (configured clock i channel owner)
          old.runtime_configs;
  }
  c ← read_runtime stored current.id
  ok (c, stored)

unfoldable pub new_runtime : Clock → String → Input → String → String → Runtime
new_runtime clock id i channel owner = record {
  scheduling = i.scheduling;
  id = id;
  name = i.name;
  channel_id = channel;
  route_ids = i.route_ids;
  delivery_route_id = i.delivery_route_id;
  owner_principal_id = owner;
  owner_id_type = i.owner.id_type;
  owner_id_value = i.owner.id_value;
  application_mode = i.application_mode;
  context_channel_id = i.context_channel;
  agent_capabilities = or_new i.agent_capabilities [];
  agent_bash = bash_of "" i.agent_bash;
  external_actions = i.external_actions;
  claude_profile = i.claude_profile;
  analysis_model = i.analysis_model;
  execution_model = i.execution_model;
  agent_preset = i.agent_preset;
  item_threshold = i.item_threshold;
  max_wait_seconds = i.max_wait_seconds;
  reconcile_seconds = i.reconcile_seconds;
  concurrency = i.concurrency;
  status = "configured";
  degraded_reason = "";
  version = 1;
  bootstrap_at = now clock;
  last_started_at = "";
  last_stopped_at = "";
  created_at = now clock;
  updated_at = now clock;
}

pub add_runtime : Clock → String → Input → String → String → Db → Result (Runtime × Db)
add_runtime clock id i channel owner db = do
  fail_if (has_row (λ (c : Runtime). str_eq c.id id || str_eq c.name i.name) db.runtime_configs)
      internal
  let stored = record db {
    runtime_configs = db.runtime_configs ++ new_runtime clock id i channel owner ∷ [];
  }
  c ← read_runtime stored id
  ok (c, stored)

-- `new_id` and `new_principal` are the NewIDs of the call.
unfoldable pub configure_runtime : Clock → String → String → Input → Db → Result (Runtime × Db)
configure_runtime clock new_id new_principal given db = do
  normal ← normalize_input given
  channel ← read_channel db normal.channel
  let asked = record normal {
    delivery_route_id =
        if str_eq normal.application_mode "proactive"
        then elim normal.route_ids [ [] ↦ "" | id ∷ _ ↦ id ]
        else normal.delivery_route_id;
  }
  check_routes db asked channel (asked.route_ids ++ asked.delivery_route_id ∷ [])
  delivery ← read_route db asked.delivery_route_id
  i ← for_mode db asked channel delivery
  owner ← principal_for clock new_principal channel.tenant i.owner db
  fail_if owner.0.weak denied
  let met = owner.1
  (if str_eq i.application_mode "direct"
      then owner_routes met i channel owner.0.id i.route_ids
      else ok tt)
  fail_if
      (str_eq channel.kind "dws_personal"
        && not (str_eq i.owner.id_type "user_id")
        && not (str_eq i.owner.id_type "staff_id"))
      invalid_input
  elim (read_runtime met i.name) [
    | ok current ↦ change_runtime clock i channel.id owner.0.id current met
    | err e ↦ add_runtime clock new_id i channel.id owner.0.id met
  ]

-- SetRuntimeStatus
unfoldable pub with_status : Clock → String → String → Runtime → Runtime
with_status clock status reason c = record c {
  status = status;
  degraded_reason = if str_eq status "degraded" then reason else "";
  bootstrap_at =
      if str_eq status "running" && str_eq c.last_started_at "" then now clock else c.bootstrap_at;
  last_started_at = if str_eq status "running" then now clock else c.last_started_at;
  last_stopped_at = if str_eq status "stopped" then now clock else c.last_stopped_at;
  updated_at = now clock;
}

pub set_runtime_status : Clock → String → String → String → Db → Result (Runtime × Db)
set_runtime_status clock value status reason db = do
  c ← read_runtime db value
  fail_if
      (not (contains ("configured" ∷ "running" ∷ "paused" ∷ "stopped" ∷ "degraded" ∷ []) status))
      invalid_input
  fail_if (str_eq status "running" && elim c.route_ids [ [] ↦ true | _ ∷ _ ↦ false ]) denied
  let stored = record db {
    runtime_configs =
        update_rows (λ (o : Runtime). str_eq o.id c.id) (with_status clock status reason)
          db.runtime_configs;
  }
  after ← read_runtime stored c.id
  ok (after, stored)
