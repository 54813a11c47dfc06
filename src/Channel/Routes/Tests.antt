-- ===== src/Channel/Routes/Tests.antt =====
-- Routes on concrete changes.
use memgov.Base.{
  String, [], ◌∷◌, ok, ◌⊎◌, is_identifier, all_chars, rune_count, insert_ignore, is_identifier_char,
  ◌≡◌, ◌≢◌, refl, none, some, count_rows, find_row, update_rows, now, format_nano, digit, str_eq,
}
use memgov.Schema.{Db, empty}
use memgov.Schema.Channels.{Route}
use memgov.Schema.Samples.{group_channel, group_route, one_route}
use memgov.Channel.Routes.Lookup.{add_route-route_for}
use memgov.Channel.{route_for, read_channel, audience_key, read_route}
use memgov.Channel.Routes.{
  add_route, new_route, check_new_route, RouteInput, update_route, changed_route, store_route,
  mark_stale, is_pending_on, check_policies, all_triggers,
}
use memgov.Outbox.Dispatch.{authorize_dispatch}
use memgov.Outbox.Dispatch.Samples.{reply, with_reply, no_tasks, json_valid, itoa, clock}
use memgov.Outbox.Safety.{route_change_stops_drafts}

-- Replies go out as drafts only from now on.
abbrev input : RouteInput
input = record {
  conversation_id = "";
  conversation_type = "";
  workspace = "";
  mode = "";
  triggers = none;
  audience_policy = "";
  send_policy = "draft_only";
  retention = "";
}

abbrev updated : Route
updated = changed_route clock group_route input

abbrev after_change : Db
after_change = record (with_reply "ready") {
  channel_routes = store_route updated group_route ∷ [];
  outbox = mark_stale itoa clock 2 (reply "ready") ∷ [];
}

change :
    update_route json_valid itoa clock "r1" 1 input "stop" (with_reply "ready")
    ≡ ok (updated, after_change)
unfolding update_route read_route check_policies changed_route all_triggers count_rows update_rows
    find_row store_route mark_stale is_pending_on empty now format_nano digit
change = refl

stale_reply :
    find_row (λ d. str_eq d.id "d1") after_change.outbox
    ≡ some (mark_stale itoa clock 2 (reply "ready"))
unfolding find_row mark_stale empty
stale_reply = refl

own : (mark_stale itoa clock 2 (reply "ready")).route_id ≡ "r1"
unfolding mark_stale
own = refl

route_change_stops_drafts_example :
    authorize_dispatch no_tasks clock "a1" "d1" "shown" after_change
    ≢ ok (reply "sending", after_change)
route_change_stops_drafts_example =
    route_change_stops_drafts json_valid itoa no_tasks clock clock "r1" 1 input "stop"
      (with_reply "ready") updated after_change "d1" (mark_stale itoa clock 2 (reply "ready")) "a1"
      "shown" (reply "sending", after_change) change stale_reply own

abbrev second_input : RouteInput
second_input = record {
  conversation_id = "g2";
  conversation_type = "";
  workspace = "";
  mode = "";
  triggers = some ("mention" ∷ []);
  audience_policy = "conversation";
  send_policy = "";
  retention = "";
}

abbrev with_workspace : Db
with_workspace = record one_route {
  workspaces = record { id = "w1"; name = "main"; path = "" } ∷ [];
}

abbrev second_route : Route
second_route =
    let r = new_route clock "r2" group_channel second_input in record r { workspace_id = "w1" }

abbrev two_routes : Db
two_routes = record with_workspace {
  channel_routes = group_route ∷ second_route ∷ [];
  conversations =
      record {
        id = "v2";
        channel_id = "c1";
        provider_conversation_id = "g2";
        kind = "group";
        created_at = now clock;
      }
      ∷ [];
}

add_second :
    add_route json_valid clock "r2" "v2" "w1" "c1" second_input with_workspace
    ≡ ok (second_route, two_routes)
unfolding add_route read_channel find_row is_identifier all_chars is_identifier_char rune_count
    new_route check_new_route all_triggers count_rows insert_ignore audience_key empty now
    format_nano digit
add_second = refl

add_route-route_for_example :
    (route_for two_routes "c1" "g2" ≡ ok second_route)
    × (second_route.version ≡ 1)
    × ((c d : String)
        → (c ≢ "c1") ⊎ (d ≢ "g2")
        → route_for two_routes c d ≡ route_for with_workspace c d)
unfolding new_route
add_route-route_for_example =
    add_route-route_for json_valid clock "r2" "v2" "w1" "c1" second_input with_workspace
      second_route two_routes add_second
