-- ===== src/Configure/Checks.antt =====
-- core/runtime.go: the checks of ConfigureRuntime on routes, channels and the owner.
use memgov.Base.{
  String, not, ◌&&◌, ◌||◌, some, List, [], ◌∷◌, Result, ok, err, ◌>>=◌, ◌>>◌, fail_if, or_fail,
  or_new, invalid_input, denied, str_eq, if◌then◌else◌, contains, find_row,
}
use memgov.Schema.{Db}
use memgov.Schema.Channels.{Channel, Route}
use memgov.Schema.People.{IdentityAlias}
use memgov.Channel.{read_channel, read_route, route_for}
use memgov.Tasks.Approval.{is_usable, is_group_reply}
use memgov.Configure.{Input, supported}

-- The routes that are configured, each active on the channel; a group's runtime answers on all.
unfoldable pub check_routes : Db → Input → Channel → List String → Result (Unit {0})
check_routes db i c [] = ok tt
check_routes db i c (id ∷ ids) = do
  r ← read_route db id
  fail_if (not (str_eq r.channel_id c.id) || not (str_eq r.status "active")) denied
  fail_if
      (str_eq i.application_mode "group_mention"
        && contains i.route_ids id
        && not (is_group_reply r))
      denied
  check_routes db i c ids

-- The channel that a group's history is read from, bound to the same group and workspace.
pub context_of : Db → Input → Channel → Route → Result String
context_of db i c delivery =
    if str_eq i.context_channel "" then ok "" else elim (read_channel db i.context_channel) [
      | err e ↦ err denied
      | ok h ↦
          fail_if (not (str_eq h.kind "dws_personal") || not (str_eq h.tenant c.tenant)) denied
          >> elim (route_for db h.id delivery.conversation_id) [
            | err e ↦ err denied
            | ok r ↦
                fail_if
                  (not (str_eq r.workspace_id delivery.workspace_id) || str_eq r.mode "ignore")
                  denied
                >> ok h.id
          ]
    ]

-- What the mode adds to the input: that of a group, and the others.
unfoldable pub for_group : Db → Input → Channel → Route → Result Input
for_group db i c delivery = do
  fail_if (not (str_eq c.kind "dingtalk_app") || not (is_group_reply delivery)) denied
  fail_if (not (contains i.route_ids delivery.id)) invalid_input
  context ← context_of db i c delivery
  ok (record i {
    context_channel = context;
    item_threshold = 1;
    agent_capabilities =
        some (or_new i.agent_capabilities ("conversation_history_read" ∷ "artifact_create" ∷ []));
  })

unfoldable pub for_owner : Input → Route → Result Input
for_owner i delivery = do
  fail_if
      (str_eq i.application_mode "direct"
        && (not (str_eq delivery.conversation_type "direct")
            || not (str_eq delivery.send_policy "dispatch_only")))
      denied
  ok (record i {
    context_channel = "";
    agent_capabilities = some (or_new i.agent_capabilities supported);
  })

unfoldable pub for_mode : Db → Input → Channel → Route → Result Input
for_mode db i c delivery =
    if str_eq i.application_mode "group_mention"
    then for_group db i c delivery
    else for_owner i delivery

-- RuntimeOwnerDirectProcessingRoute, for a runtime that is being configured.
pub owner_route : Db → Input → Channel → String → String → Result Route
owner_route db i c owner id = do
  fail_if (str_eq owner "" || str_eq i.owner.id_value "" || not (contains i.route_ids id)) denied
  app ← read_channel db c.id
  fail_if
      (not (str_eq app.kind "dingtalk_app")
        || str_eq app.tenant ""
        || str_eq app.identity.robot_code ""
        || not (is_usable app))
      denied
  history ← elim (read_channel db app.identity.history_channel) [ ok h ↦ ok h | err e ↦ err denied ]
  fail_if
      (not (str_eq history.kind "dws_personal")
        || not (str_eq history.tenant app.tenant)
        || not (is_usable history)
        || not (str_eq i.owner.id_type "user_id")
        || not (str_eq i.owner.id_value history.identity.expected_user_id))
      denied
  alias ←
      or_fail
        (find_row
          (λ (a : IdentityAlias).
            str_eq a.tenant app.tenant
            && str_eq a.id_type i.owner.id_type
            && str_eq a.id_value i.owner.id_value
            && a.verified
            && str_eq a.basis "authenticated_dws_profile")
          db.identity_aliases)
        denied
  fail_if (not (str_eq alias.principal_id owner)) denied
  delivery ← read_route db i.delivery_route_id
  fail_if
      (not (str_eq delivery.channel_id app.id)
        || not (str_eq delivery.status "active")
        || str_eq delivery.mode "ignore"
        || not (str_eq delivery.conversation_type "direct")
        || not (str_eq delivery.send_policy "dispatch_only")
        || not (str_eq delivery.conversation_id i.owner.id_value))
      denied
  r ← read_route db id
  fail_if
      (not (str_eq r.channel_id app.id)
        || not (str_eq r.status "active")
        || str_eq r.mode "ignore"
        || not (str_eq r.conversation_type "direct")
        || str_eq r.conversation_id ""
        || not (
            str_eq r.send_policy
              (if str_eq r.id delivery.id then "dispatch_only" else "draft_only")))
      denied
  ok r

pub owner_routes : Db → Input → Channel → String → List String → Result (Unit {0})
owner_routes db i c owner [] = ok tt
owner_routes db i c owner (id ∷ ids) = do
  r ← owner_route db i c owner id
  owner_routes db i c owner ids
