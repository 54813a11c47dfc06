-- ===== src/Tasks/Approval/Inbox.antt =====
-- core/runtime_confirmation.go: the routes on which an action may be approved.
use memgov.Base.{
  String, Bool, false, not, ◌&&◌, ◌||◌, none, some, List, [], ◌∷◌, Result, ok, err, ◌>>=◌, denied,
  find_row, select_rows, str_eq, if◌then◌else◌, contains,
}
use memgov.Schema.{Db}
use memgov.Schema.Channels.{Channel, Route}
use memgov.Schema.People.{IdentityAlias}
use memgov.Schema.Runtimes.{Runtime}
use memgov.Channel.{read_channel, read_route}

unfoldable pub is_usable : Channel → Bool
is_usable c = contains ("configured" ∷ "active" ∷ []) c.status

-- A group's route on which the Agent is addressed and answers.
pub is_group_reply : Route → Bool
is_group_reply r =
    str_eq r.conversation_type "group"
    && str_eq r.mode "assistant"
    && str_eq r.send_policy "reply_to_trigger"
    && contains r.triggers "mention"

is_group_inbox : Runtime → Route → Bool
is_group_inbox c r =
    str_eq r.channel_id c.channel_id && str_eq r.status "active" && is_group_reply r

pub group_routes : Db → Runtime → List String → Result (List Route)
group_routes db c [] = ok []
group_routes db c (id ∷ ids) = do
  r ← read_route db id
  rest ← group_routes db c ids
  ok (if is_group_inbox c r then r ∷ rest else rest)

-- The configured inbox of a direct runtime.
unfoldable pub legacy_inbox : Runtime → Route → List Route
legacy_inbox c r =
    if str_eq r.channel_id c.channel_id
      && str_eq r.status "active"
      && not (str_eq r.mode "ignore")
      && str_eq r.conversation_type "direct"
      && str_eq r.send_policy "dispatch_only"
    then r ∷ []
    else []

-- runtimeOwnerDeliveryRoute
owner_delivery_route : Db → String → Result Route
owner_delivery_route db channel =
    elim (select_rows
      (λ (r : Route).
        str_eq r.channel_id channel
        && str_eq r.conversation_type "direct"
        && str_eq r.send_policy "dispatch_only"
        && str_eq r.status "active")
      db.channel_routes) [
        | [] ↦ err denied
        | r ∷ others ↦ elim others [ [] ↦ ok r | _ ∷ _ ↦ err denied ]
      ]

-- The app reads its history through the owner's channel, and is the owner's robot.
is_bound_app : Db → Channel → Channel → Bool
is_bound_app db dws app =
    not (str_eq app.identity.history_channel "")
    && elim (read_channel db app.identity.history_channel) [
      | err e ↦ false
      | ok history ↦ str_eq history.id dws.id
    ]
    && (str_eq dws.identity.delivery_robot_code ""
        || str_eq app.identity.robot_code dws.identity.delivery_robot_code)

bound_apps : Db → Channel → List Channel → Result (List Channel)
bound_apps db dws [] = ok []
bound_apps db dws (c ∷ cs) = do
  app ← read_channel db c.id
  rest ← bound_apps db dws cs
  ok (if is_bound_app db dws app then app ∷ rest else rest)

is_app_of : String → Channel → Bool
is_app_of tenant c = str_eq c.kind "dingtalk_app" && str_eq c.tenant tenant && is_usable c

-- The owner is the one whom the channel's profile authenticated.
is_authenticated_owner : Db → Channel → Runtime → Bool
is_authenticated_owner db dws c =
    elim (find_row
      (λ (a : IdentityAlias).
        str_eq a.tenant dws.tenant
        && str_eq a.id_type "user_id"
        && str_eq a.id_value c.owner_id_value
        && a.verified
        && str_eq a.basis "authenticated_dws_profile")
      db.identity_aliases) [ none ↦ false | some a ↦ str_eq a.principal_id c.owner_principal_id ]

-- The inbox of the one robot that is bound; more than one is none.
robot_inbox : Db → List Channel → Result (List Route)
robot_inbox db [] = ok []
robot_inbox db (app ∷ apps) = elim apps [
  | _ ∷ _ ↦ ok []
  | [] ↦ elim (owner_delivery_route db app.id) [
    | err e ↦ ok []
    | ok inbox ↦ ok (if str_eq inbox.mode "ignore" then [] else inbox ∷ [])
  ]
]

pub proactive_routes : Db → Runtime → Channel → Result (List Route)
proactive_routes db c dws =
    if not (str_eq dws.kind "dws_personal")
      || not (is_usable dws)
      || not (str_eq c.owner_id_type "user_id")
      || not (str_eq c.owner_id_value dws.identity.expected_user_id)
      || not (is_authenticated_owner db dws c)
    then ok []
    else (bound_apps db dws (select_rows (is_app_of dws.tenant) db.channels) >>= robot_inbox db)

-- runtimeConfirmationRoutes
unfoldable pub confirmation_routes : Db → Runtime → Result (List Route)
confirmation_routes db c =
    if str_eq c.application_mode "group_mention"
    then group_routes db c c.route_ids
    else if str_eq c.application_mode "proactive"
    then (read_channel db c.channel_id >>= proactive_routes db c)
    else (read_route db c.delivery_route_id >>= λ r.
        read_channel db c.channel_id >>= λ _. ok (legacy_inbox c r))
