-- ===== src/Tasks/Samples.antt =====
-- A runtime of a direct chat with one task, whose action waits for the owner.
use memgov.Base.{String, true, false, none, some, [], ◌∷◌, ok, Clock, ◌*◌, second}
use memgov.Schema.{Db, empty}
use memgov.Schema.Channels.{Route}
use memgov.Schema.People.{Message, IdentityAlias}
use memgov.Schema.Inbox.{Revision}
use memgov.Schema.Runtimes.{Runtime}
use memgov.Schema.Tasks.{Task, PendingAction}
use memgov.Schema.Samples.{clock_at, group_channel, group_route}
use memgov.Policy.Samples.{digests}
use memgov.Tasks.{Evidence, Formats}
use memgov.Tasks.Proposed.{AttemptResult}
use memgov.Tasks.History.{Outside}

abbrev pub clock : Clock
clock = clock_at (20 * second)

abbrev pub evidence : Evidence
evidence = record {
  retained = λ db m. true;
  turn_current = λ db id. ok true;
  forward_current = λ db id. ok tt;
}

abbrev pub formats : Formats
formats = record { hash = λ s. s; proposal = λ s. none; card = λ s. none; time = λ s. some 5 }

abbrev pub outside : Outside
outside = record {
  julianday = λ s. some 5;
  digests = digests;
  task_digest = λ t. t.instructions;
  evidence = evidence;
  formats = formats;
}

abbrev pub inbox : Route
inbox = record group_route {
  id = "r2";
  conversation_id = "d1";
  conversation_type = "direct";
  send_policy = "dispatch_only";
}

abbrev pub runtime : Runtime
runtime = record {
  scheduling = record {
    analysis_concurrency = 1;
    execution_concurrency = 1;
    analysis_timeout_seconds = 600;
    execution_timeout_seconds = 3600;
    review_timeout_seconds = 600;
  };
  id = "rt1";
  name = "team";
  channel_id = "c1";
  route_ids = "r1" ∷ [];
  delivery_route_id = "r2";
  owner_principal_id = "p1";
  owner_id_type = "user_id";
  owner_id_value = "ann";
  application_mode = "";
  context_channel_id = "";
  agent_capabilities = [];
  agent_bash = false;
  external_actions = "";
  claude_profile = "";
  analysis_model = "m";
  execution_model = "m";
  agent_preset = "";
  item_threshold = 1;
  max_wait_seconds = 60;
  reconcile_seconds = 60;
  concurrency = 1;
  status = "running";
  degraded_reason = "";
  version = 1;
  bootstrap_at = "";
  last_started_at = "";
  last_stopped_at = "";
  created_at = "";
  updated_at = "";
}

abbrev pub task : String → Task
task status = record {
  id = "t1";
  runtime_id = "rt1";
  route_id = "r1";
  canonical_key = "k";
  kind = "task";
  title = "deploy";
  instructions = "deploy the service";
  status = status;
  needs_clarification = false;
  version = 1;
  result = "";
  result_summary = "";
  error_code = "";
  resume = "";
  created_at = "";
  updated_at = "";
}

abbrev pub action : PendingAction
action = record {
  id = "a1";
  task_id = "t1";
  task_version = 1;
  kind = "deploy";
  target = "service";
  payload = "{}";
  payload_digest = "{}";
  status = "pending";
  confirmed_by = "";
  confirmation_origin = "";
  created_at = "";
  updated_at = "";
}

-- The owner's answer, in the inbox.
abbrev pub answer : Message
answer = record {
  id = "m1";
  channel_id = "c1";
  message_key = "key";
  conversation_id = "d1";
  provider_message_id = "x1";
  sender_principal = "p1";
  sender_id_type = "user_id";
  sender_id_value = "ann";
  sent_at = "later";
  current_revision = 1;
  availability = "available";
  availability_reason = "";
  weak_identity = false;
  self_authored = false;
  addressed = false;
  context_only = false;
  created_at = "";
  updated_at = "";
}

abbrev pub approval : Revision
approval = record {
  message_id = "m1";
  revision = 1;
  body = "确认操作 a1 {}";
  body_digest = "";
  format = "text";
  edited_at = "";
  ordering = "";
  created_at = "";
}

abbrev pub owner : IdentityAlias
owner = record {
  tenant = "corp";
  id_type = "user_id";
  id_value = "ann";
  principal_id = "p1";
  basis = "operator_confirmed";
  verified = true;
  created_at = "";
}

abbrev pub with_task : Task → Db
with_task t = record empty {
  channels = group_channel ∷ [];
  channel_routes = group_route ∷ inbox ∷ [];
  runtime_configs = runtime ∷ [];
  identity_aliases = owner ∷ [];
  messages = answer ∷ [];
  message_revisions = approval ∷ [];
  runtime_tasks = t ∷ [];
  runtime_pending_actions = action ∷ [];
}

abbrev pub waiting : Db
waiting = with_task (task "awaiting_confirmation")

abbrev pub result : AttemptResult
result = record { result = "done"; summary = "done"; artifacts = []; tool_kinds = []; actions = [] }
