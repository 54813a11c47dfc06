-- ===== src/Tasks/Approval.antt =====
-- core/runtime_confirmation.go, core/runtime_destructive.go and core/runtime_card.go: who may approve
-- an action, where, and whether an approval still holds. A text that json.Unmarshal refuses lists no
-- actions.
pub mod Inbox
use memgov.Base.{
  String, Bool, false, not, ◌&&◌, ◌||◌, Option, none, some, List, [], ◌∷◌, Result, ok, err, ◌>>=◌,
  ◌>>◌, fail_if, or_fail, conflict, denied, find_row, has_row, count_rows, select_rows, str_eq, ltb,
  ◌==◌, if◌then◌else◌, contains, concat, starts_with, trim_space, cut, trim_prefix, take_chars,
  byte_count,
}
use memgov.Schema.{Db}
use memgov.Schema.Channels.{Channel, Route}
use memgov.Schema.People.{Message, IdentityAlias}
use memgov.Schema.Inbox.{Revision}
use memgov.Schema.Drafts.{Draft}
use memgov.Schema.Runtimes.{Runtime}
use memgov.Schema.Tasks.{Task, PendingAction}
use memgov.Channel.{read_channel, read_route}
use memgov.Policy.{read_runtime}
use memgov.Tasks.{Evidence, Formats, CardAction, read_task, messages_current, trigger_admitted}
use memgov.Tasks.Proposed.{destructive}
unfoldable pub use Inbox.{is_usable, legacy_inbox, confirmation_routes}
pub use Inbox.{is_group_reply}

-- ConfirmationToken: the action, and what its payload digests to.
unfoldable pub confirmation_token : PendingAction → String
confirmation_token a = concat ("确认操作 " ∷ a.id ∷ " " ∷ take_chars 12 a.payload_digest ∷ [])

-- runtimeGroupConfirmationBody: one `@label ` that the platform addressed is taken off.
unfoldable pub group_body : String → Bool → String
group_body body addressed =
    let trimmed = trim_space body in
    if addressed && starts_with "@" trimmed
    then elim (cut 32 trimmed) [
      | none ↦ trimmed
      | some p ↦ if ltb 1 (byte_count p.0) then trim_space p.1 else trimmed
    ]
    else trimmed

unfoldable pub is_sender_alias : String → Message → String → IdentityAlias → Bool
is_sender_alias tenant m owner a =
    str_eq a.tenant tenant
    && str_eq a.id_type m.sender_id_type
    && str_eq a.id_value m.sender_id_value
    && str_eq a.principal_id owner
    && a.verified

unfoldable pub is_message_on : String → String → String → Message → Bool
is_message_on id channel owner m =
    str_eq m.id id && str_eq m.channel_id channel && str_eq m.sender_principal owner

-- runtimeConfirmationSenderCurrent: the sender's identifier is the owner's, verified, now.
unfoldable pub sender_current : Db → String → String → String → Bool
sender_current db channel message owner =
    elim (find_row (is_message_on message channel owner) db.messages) [
      | none ↦ false
      | some m ↦ elim (find_row (λ (c : Channel). str_eq c.id channel && is_usable c) db.channels) [
        | none ↦ false
        | some c ↦ count_rows (is_sender_alias c.tenant m owner) db.identity_aliases == 1
      ]
    ]

-- The body of the message's current revision.
unfoldable pub current_revision : Db → Message → Option Revision
current_revision db m =
    find_row (λ (r : Revision). str_eq r.message_id m.id && r.revision == m.current_revision)
      db.message_revisions

pub is_available : String → Message → Bool
is_available id m = str_eq m.id id && str_eq m.availability "available" && not m.context_only

unfoldable pub by_message : String
by_message = "dingtalk_message:"

-- The message that an approval names still says so, in an inbox that may approve.
pub still_approves : Db → Runtime → PendingAction → String → Result (Unit {0})
still_approves db c a id = do
  m ← or_fail (find_row (is_available id) db.messages) denied
  r ← or_fail (current_revision db m) denied
  fail_if (not (str_eq (trim_space r.body) (confirmation_token a))) denied
  fail_if (not (sender_current db m.channel_id id c.owner_principal_id)) denied
  routes ← confirmation_routes db c
  fail_if
      (not (
        has_row
          (λ (o : Route).
            str_eq o.channel_id m.channel_id && str_eq o.conversation_id m.conversation_id)
          routes))
      denied

-- destructiveApprovalCurrent
pub destructive_current : Db → PendingAction → Result (Unit {0})
destructive_current db a =
    if not (str_eq a.kind destructive)
    then ok tt
    else (read_task db a.task_id >>= λ t. read_runtime db t.runtime_id >>= λ c.
        if not (str_eq c.application_mode "proactive")
        then ok tt
        else (fail_if (not (starts_with by_message a.confirmation_origin)) denied
            >> still_approves db c a (trim_prefix by_message a.confirmation_origin)))

-- runtimeCardOwner, as far as it is checked.
pub card_owner : Db → Runtime → Result (Unit {0})
card_owner db c = do
  history ← read_channel db c.context_channel_id
  app ← read_channel db c.channel_id
  bound ← elim (read_channel db app.identity.history_channel) [ ok b ↦ ok b | err e ↦ err denied ]
  fail_if
      (not (str_eq bound.id history.id)
        || not (str_eq app.kind "dingtalk_app")
        || not (is_usable app))
      denied
  fail_if
      (not (str_eq history.kind "dws_personal")
        || not (str_eq history.tenant app.tenant)
        || not (is_usable history)
        || str_eq history.identity.expected_user_id "")
      denied
  fail_if
      (not (
        count_rows
          (λ (a : IdentityAlias).
            str_eq a.tenant app.tenant
            && str_eq a.id_type "user_id"
            && str_eq a.id_value history.identity.expected_user_id
            && a.verified
            && str_eq a.basis "authenticated_dws_profile"
            && str_eq a.principal_id c.owner_principal_id)
          db.identity_aliases
        == 1))
      denied

pub is_card : String → Task → Runtime → Route → Draft → Bool
is_card card t c r d =
    str_eq d.id card
    && str_eq d.job_id t.id
    && str_eq d.channel_id c.channel_id
    && str_eq d.route_id r.id
    && str_eq d.conversation_id r.conversation_id
    && str_eq d.format "confirmation_card"
    && str_eq d.state "accepted"

module _ (formats : Formats) where
  -- What the card shows is what is stored.
  pub shows : PendingAction → CardAction → Bool
  shows a shown =
      str_eq shown.id a.id
      && str_eq shown.digest a.payload_digest
      && str_eq (formats.hash a.payload) shown.digest
      && str_eq shown.kind a.kind
      && str_eq shown.target a.target

  pub is_displayed : Channel → Task → PendingAction → String → Bool
  is_displayed app t a content = elim (formats.card content) [
    | none ↦ false
    | some card ↦
        card.task_version == t.version
        && str_eq card.template_id app.identity.confirmation_card_template
        && has_row (shows a) card.actions
  ]

  module _ (evidence : Evidence) where
    -- runtimeCardActionCurrent
    pub card_current : Db → Runtime → PendingAction → Result (Unit {0})
    card_current db c a = do
      card_owner db c
      card ← or_fail (cut 58 (trim_prefix "dingtalk_card:" a.confirmation_origin)) denied
      fail_if
          (not (str_eq a.confirmed_by c.owner_principal_id)
            || not (str_eq c.status "running")
            || not (str_eq c.application_mode "group_mention"))
          denied
      t ← read_task db a.task_id
      current ← messages_current evidence db t.id
      r ← read_route db t.route_id
      d ← or_fail (find_row (is_card card.0 t c r) db.outbox) conflict
      app ← read_channel db c.channel_id
      fail_if
          (not current
            || not (trigger_admitted db c t)
            || not (str_eq t.status "awaiting_confirmation")
            || not (a.task_version == t.version)
            || not (is_group_reply r)
            || not (is_displayed app t a d.content))
          conflict
