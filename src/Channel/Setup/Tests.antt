-- ===== src/Channel/Setup/Tests.antt =====
-- A channel with a first route.
use memgov.Base.{
  ◌≡◌, refl, String, none, some, [], ◌∷◌, ok, after, find_row, count_rows, insert_ignore,
  is_identifier, all_chars, is_identifier_char, rune_count, trim_space, trim_start, trim_end,
  is_blank, is_space,
}
use memgov.Schema.{Db, empty}
use memgov.Schema.Channels.{Channel, Route}
use memgov.Channel.{read_channel, route_for, audience_key}
use memgov.Channel.Routes.{RouteInput, add_route, new_route, check_new_route, all_triggers}
use memgov.Channel.Setup.{Fresh, add_subscription, add_first_route, add_channel}
use memgov.Channel.Normalize.{
  ChannelInput, normalize_channel, tenancy, check_kind, check_subscription, new_channel,
  is_channel_name, is_kind_name, validate_credential_ref, namespaces, is_personal, is_app,
  personal_identity, first_is, is_lower, is_digit, is_kind_char,
}
use memgov.Channel.Setup.Lookup.{add_channel-route_for}
use memgov.Outbox.Dispatch.Samples.{clock, json_valid}

abbrev first_route : RouteInput
first_route = record {
  conversation_id = "g9";
  conversation_type = "";
  workspace = "";
  mode = "";
  triggers = some ("mention" ∷ []);
  audience_policy = "conversation";
  send_policy = "";
  retention = "";
}

abbrev start : Db
start = record empty { workspaces = record { id = "w1"; name = "main"; path = "" } ∷ [] }

abbrev to_lower : String → String
to_lower s = s

abbrev input : ChannelInput
input = record {
  schema_version = 1;
  name = "team-2";
  kind = "slack";
  provider = "";
  tenant = "acme";
  identity = record {
    profile = "";
    expected_corp_id = "";
    expected_user_id = "";
    client_id = "";
    robot_code = "";
    delivery_robot_code = "";
    delivery_robot_name = "";
    history_channel = "";
    confirmation_card_template = "";
  };
  credential_ref = "";
  transport = "";
  subscription = none;
  route = some first_route;
}

abbrev fresh : Fresh
fresh = record { channel = "c9"; route = "r9"; subscribed = "v8"; bound = "v9"; scope = "w1" }

abbrev added : Channel
added = new_channel clock "c9" input ("slack", "acme")

abbrev bound : Db
bound = after start (add_channel to_lower json_valid clock fresh input start)

add : add_channel to_lower json_valid clock fresh input start ≡ ok (added, bound)
unfolding add_channel normalize_channel tenancy check_kind check_subscription new_channel
    is_channel_name is_kind_name validate_credential_ref namespaces is_personal is_app
    personal_identity first_is is_lower is_digit is_kind_char add_subscription add_first_route
    read_channel add_route new_route check_new_route all_triggers find_row count_rows insert_ignore
    is_identifier all_chars is_identifier_char rune_count trim_space trim_start trim_end is_blank
    is_space audience_key empty
add = refl

add_channel-route_for_example : (r : Route) × (route_for bound "c9" "g9" ≡ ok r) × (r.version ≡ 1)
unfolding new_channel
add_channel-route_for_example =
    add_channel-route_for to_lower json_valid clock fresh input first_route start added bound refl
      add
