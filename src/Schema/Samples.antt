-- ===== src/Schema/Samples.antt =====
-- Rows that the tests of several modules run on.
use Prim.Native.String.{◌++◌}
use memgov.Base.{ℕ, ◌/◌, ◌%◌, true, [], ◌∷◌, Clock, digit}
use memgov.Schema.{Db, empty}
use memgov.Schema.Channels.{Channel, Route}

-- A clock whose texts are seconds, with two digits for each.
abbrev pub clock_at : ℕ → Clock
clock_at t = record {
  time = t;
  stamp = λ n. "2026-01-01T00:00:" ++ (digit (n / 10) ++ digit (n % 10));
}

abbrev pub group_channel : Channel
group_channel = record {
  id = "c1";
  name = "team";
  kind = "dingtalk";
  provider = "dws";
  tenant = "corp";
  auth_namespace = "robot";
  id_namespace = "dingtalk";
  identity = record {
    profile = "";
    expected_corp_id = "corp";
    expected_user_id = "";
    client_id = "";
    robot_code = "";
    delivery_robot_code = "";
    delivery_robot_name = "";
    history_channel = "";
    confirmation_card_template = "";
  };
  credential_ref = "";
  capabilities = record {
    verified = ("read", true) ∷ ("send", true) ∷ [];
    unverified = [];
    checked_at = "";
    tool = "";
  };
  tool_version = "";
  config_version = 1;
  status = "active";
  created_at = "";
  updated_at = "";
}

abbrev pub group_route : Route
group_route = record {
  id = "r1";
  channel_id = "c1";
  conversation_id = "g1";
  conversation_type = "group";
  workspace_id = "w1";
  mode = "assistant";
  triggers = "mention" ∷ [];
  audience_policy = "conversation";
  audience_key = "conversation:c1:g1";
  memory_policy = "";
  send_policy = "reply_to_trigger";
  approval_display = "display_only";
  retention = "{}";
  version = 1;
  status = "active";
  created_at = "";
  updated_at = "";
}

-- A store with one channel, bound to one conversation.
abbrev pub one_route : Db
one_route = record empty { channels = group_channel ∷ []; channel_routes = group_route ∷ [] }
