-- ===== src/Channel/Routes.antt =====
-- core/channel.go: binding a conversation to a route, and changing the route's policy.
-- NewID and the scope of the request are arguments; json.Valid is a parameter.
pub mod Stale
pub mod Lookup
pub mod Tests
use memgov.Base.{
  ℕ, suc, ◌+◌, String, Bool, true, false, not, ◌&&◌, ◌||◌, Option, none, some, List, [], ◌∷◌, ◌++◌,
  Result, ok, err, ◌>>=◌, ◌>>◌, fail_if, or_fail, invalid_input, conflict, not_found, find_row,
  update_rows, count_rows, insert_ignore, str_eq, ltb, ◌==◌, if◌then◌else◌, contains, is_identifier,
  concat, Clock, now,
}
use memgov.Schema.{Db}
use memgov.Schema.Channels.{Workspace, Channel, Route, Conversation}
use memgov.Schema.Drafts.{Draft}
use memgov.Channel.{read_channel, read_route, audience_key}

-- `Triggers` is `none` where the source has a nil slice.
pub record RouteInput : Type 0 where
  pub conversation_id : String
  pub conversation_type : String
  pub workspace : String
  pub mode : String
  pub triggers : Option (List String)
  pub audience_policy : String
  pub send_policy : String
  pub retention : String

-- `if x == "" { x = d }`
abbrev pub default_to : String → String → String
default_to x d = if str_eq x "" then d else x

abbrev pub given : Option (List String) → List String → List String
given none d = d
given (some t) d = t

abbrev pub modes : List String
modes = "collect" ∷ "assistant" ∷ "notify" ∷ "ignore" ∷ []

abbrev pub audience_policies : List String
audience_policies = "local_private" ∷ "conversation" ∷ []

abbrev pub send_policies : List String
send_policies = "draft_only" ∷ "dispatch_only" ∷ "reply_to_trigger" ∷ []

unfoldable pub all_triggers : List String → Bool
all_triggers [] = true
all_triggers (t ∷ ts) = contains ("mention" ∷ "direct" ∷ []) t && all_triggers ts

-- The route that AddRoute fills in from its input.
unfoldable pub new_route : Clock → String → Channel → RouteInput → Route
new_route clock id c input = record {
  id = id;
  channel_id = c.id;
  conversation_id = input.conversation_id;
  conversation_type = default_to input.conversation_type "group";
  workspace_id = "";
  mode = default_to input.mode (if str_eq c.kind "dws_personal" then "collect" else "assistant");
  triggers = given input.triggers [];
  audience_policy = default_to input.audience_policy "local_private";
  audience_key =
      audience_key (default_to input.audience_policy "local_private") c.id input.conversation_id;
  memory_policy = "";
  send_policy = default_to input.send_policy "draft_only";
  approval_display = "display_only";
  retention = default_to input.retention "{}";
  version = 1;
  status = "active";
  created_at = now clock;
  updated_at = now clock;
}

-- AddRoute: the values of the route, filled in.
unfoldable pub check_new_route : (String → Bool) → Route → Result (Unit {0})
check_new_route json_valid r = do
  fail_if (not (contains ("group" ∷ "direct" ∷ []) r.conversation_type)) invalid_input
  fail_if (not (contains modes r.mode)) invalid_input
  fail_if (not (all_triggers r.triggers)) invalid_input
  fail_if (not (contains audience_policies r.audience_policy)) invalid_input
  fail_if (not (contains send_policies r.send_policy)) invalid_input
  fail_if (not (json_valid r.retention)) invalid_input
  ok tt

abbrev pub names_workspace : String → Workspace → Bool
names_workspace wanted w = str_eq w.id wanted || str_eq w.name wanted

module _ (json_valid : String → Bool) where
  unfoldable pub add_route :
      Clock → String → String → String → String → RouteInput → Db → Result (Route × Db)
  add_route clock id conversation_row scope channel input db = do
    c ← read_channel db channel
    fail_if (not (is_identifier input.conversation_id)) invalid_input
    let r = new_route clock id c input
    check_new_route json_valid r
    let wanted = default_to input.workspace scope
    w ← or_fail (find_row (names_workspace wanted) db.workspaces) not_found
    let route = record r { workspace_id = w.id }
    fail_if
        (ltb 0 (
          count_rows
            (λ o.
              str_eq o.id route.id
              || (str_eq o.channel_id route.channel_id
                  && str_eq o.conversation_id route.conversation_id))
            db.channel_routes))
        conflict
    ok (
      route,
      record db {
        channel_routes = db.channel_routes ++ route ∷ [];
        conversations =
            insert_ignore
              (λ o.
                str_eq o.channel_id c.id && str_eq o.provider_conversation_id route.conversation_id)
              (record {
                id = conversation_row;
                channel_id = c.id;
                provider_conversation_id = route.conversation_id;
                kind = route.conversation_type;
                created_at = now clock;
              })
              db.conversations;
      },
    )

-- The input's fields over the stored route.
pub changed_route : Clock → Route → RouteInput → Route
changed_route clock r input =
    let policy = default_to input.audience_policy r.audience_policy in
    record r {
      mode = default_to input.mode r.mode;
      audience_policy = policy;
      audience_key = audience_key policy r.channel_id r.conversation_id;
      send_policy = default_to input.send_policy r.send_policy;
      triggers = given input.triggers r.triggers;
      retention = default_to input.retention r.retention;
      version = r.version + 1;
      updated_at = now clock;
    }

-- The columns that UpdateRoute sets.
pub store_route : Route → Route → Route
store_route next o = record o {
  mode = next.mode;
  triggers = next.triggers;
  audience_policy = next.audience_policy;
  audience_key = next.audience_key;
  memory_policy = next.memory_policy;
  send_policy = next.send_policy;
  retention = next.retention;
  version = next.version;
  updated_at = next.updated_at;
}

-- A draft of the route that has not been handed over.
pub is_pending_on : String → Draft → Bool
is_pending_on route d = str_eq d.route_id route && contains ("draft" ∷ "ready" ∷ []) d.state

pub mark_stale : (ℕ → String) → Clock → ℕ → Draft → Draft
mark_stale itoa clock version d = record d {
  state = "stale";
  reason = concat ("route policy changed to version " ∷ itoa version ∷ []);
  updated_at = now clock;
}

-- UpdateRoute: the values of a route that is written.
check_policies : (String → Bool) → Route → Result (Unit {0})
check_policies json_valid next = do
  fail_if (not (contains modes next.mode)) invalid_input
  fail_if (not (contains audience_policies next.audience_policy)) invalid_input
  fail_if (not (contains send_policies next.send_policy)) invalid_input
  fail_if (not (all_triggers next.triggers)) invalid_input
  fail_if (not (json_valid next.retention)) invalid_input
  ok tt

module _ (json_valid : String → Bool) (itoa : ℕ → String) where
  -- Drafts of the old policy become stale.
  pub update_route : Clock → String → ℕ → RouteInput → String → Db → Result (Route × Db)
  update_route clock id expected input reason db = do
    fail_if (str_eq reason "") invalid_input
    r ← read_route db id
    fail_if (ltb expected 1 || not (r.version == expected)) conflict
    let next = changed_route clock r input
    fail_if
        (not (str_eq input.conversation_id "")
          && not (str_eq input.conversation_id r.conversation_id))
        invalid_input
    check_policies json_valid next
    fail_if (not (count_rows (λ o. str_eq o.id id && o.version == expected) db.channel_routes == 1))
        conflict
    ok (
      next,
      record db {
        channel_routes =
            update_rows (λ o. str_eq o.id id && o.version == expected) (store_route next)
              db.channel_routes;
        outbox = update_rows (is_pending_on id) (mark_stale itoa clock next.version) db.outbox;
      },
    )
