-- ===== src/Tasks/Confirm.antt =====
-- core/runtime.go: ConfirmRuntimeActionFromMessage: the owner approves an action by a message.
pub mod Results
pub mod Owner
mod Tests
use memgov.Base.{
  ℕ, String, Bool, true, false, not, ◌&&◌, ◌||◌, Option, none, some, List, [], ◌∷◌, Result, ok, err,
  ◌>>=◌, ◌>>◌, fail_if, or_fail, conflict, denied, not_found, find_row, has_row, count_rows,
  select_rows, update_rows, upsert_row, str_eq, str_lt, ltb, ◌==◌, if◌then◌else◌, concat,
  trim_space, Clock, now,
}
use memgov.Schema.{Db}
use memgov.Schema.Channels.{Route}
use memgov.Schema.People.{Message}
use memgov.Schema.Inbox.{InboxEvent, Revision}
use memgov.Schema.Drafts.{Draft}
use memgov.Schema.Runtimes.{Runtime}
use memgov.Schema.Tasks.{Task, PendingAction, MessageState}
use memgov.Coverage.{julian_le}
use memgov.Policy.{read_runtime}
use memgov.Tasks.{
  Evidence, Formats, Card, CardAction, read_task, messages_current, trigger_admitted,
}
use memgov.Tasks.Proposed.{destructive}
use memgov.Tasks.Approval.{
  confirmation_token, group_body, confirmation_routes, sender_current, current_revision, by_message,
}

unfoldable pub is_action : String → PendingAction → Bool
is_action id a = str_eq a.id id

unfoldable pub is_message : String → Message → Bool
is_message id m = str_eq m.id id

-- The route of the message, which in a group is the task's own.
pub is_inbox_of : Runtime → Task → Message → Route → Bool
is_inbox_of c t m r =
    str_eq r.channel_id m.channel_id
    && str_eq r.conversation_id m.conversation_id
    && (not (str_eq c.application_mode "group_mention") || str_eq r.id t.route_id)

-- ORDER BY received_at, rowid LIMIT 1
pub first_event : String → List InboxEvent → Option InboxEvent
first_event message [] = none
first_event message (e ∷ es) =
    let rest = first_event message es in
    if str_eq e.message_id message
    then elim rest [
      | none ↦ some e
      | some f ↦ if str_lt f.received_at e.received_at then some f else some e
    ]
    else rest

module _ (julianday : String → Option ℕ) where
  -- The message came in live, and after the action was shown.
  pub is_fresh : Db → Message → PendingAction → Bool
  is_fresh db m a =
      elim (first_event m.id db.inbox_events) [ none ↦ false | some e ↦ str_eq e.origin "stream" ]
      && not m.context_only
      && julian_le julianday a.created_at m.created_at

module _ (formats : Formats) where
  pub lists_action : Task → PendingAction → Draft → Bool
  lists_action t a d =
      str_eq d.job_id t.id && str_eq d.format "confirmation_card" && elim (formats.card d.content) [
        | none ↦ false
        | some card ↦ has_row (λ (shown : CardAction). str_eq shown.id a.id) card.actions
      ]

  -- The message is not older than the action. (A time that cannot be read is neither.)
  pub sent_after : Message → PendingAction → Bool
  sent_after m a = elim (formats.time m.sent_at) [
    | none ↦ false
    | some sent ↦ elim (formats.time a.created_at) [
      | none ↦ false
      | some created ↦ not (ltb sent created)
    ]
  ]

  pub is_unchanged : Task → PendingAction → Bool
  is_unchanged t a =
      str_eq a.status "pending"
      && str_eq t.status "awaiting_confirmation"
      && a.task_version == t.version
      && str_eq (formats.hash a.payload) a.payload_digest

  -- The checks on the task and its runtime.
  pub find_action : String → Db → Result (PendingAction × Task × Runtime)
  find_action id db = do
    a ← or_fail (find_row (is_action id) db.runtime_pending_actions) not_found
    t ← read_task db a.task_id
    c ← read_runtime db t.runtime_id
    fail_if
        (str_eq c.application_mode "proactive"
          && (not (str_eq t.status "awaiting_confirmation") || not (str_eq a.kind destructive)))
        denied
    fail_if (has_row (lists_action t a) db.outbox) denied
    fail_if (not (trigger_admitted db c t)) conflict
    ok (a, t, c)

pub said : Runtime → Message → Revision → String
said c m r =
    if str_eq c.application_mode "group_mention" then group_body r.body m.addressed else r.body

unfoldable pub confirm_row : Clock → String → String → PendingAction → PendingAction
confirm_row clock principal message a = record a {
  status = "confirmed";
  confirmed_by = principal;
  confirmation_origin = concat (by_message ∷ message ∷ []);
  updated_at = now clock;
}

unfoldable pub is_pending_action : String → PendingAction → Bool
is_pending_action id a = str_eq a.id id && str_eq a.status "pending"

pub is_state_of : String → String → MessageState → Bool
is_state_of runtime message s = str_eq s.runtime_id runtime && str_eq s.message_id message

pub mark_processed : Clock → Runtime → Route → Message → List MessageState → List MessageState
mark_processed clock c r m states =
    upsert_row (is_state_of c.id m.id)
      (record {
        runtime_id = c.id;
        route_id = r.id;
        message_id = m.id;
        revision = m.current_revision;
        state = "processed";
        batch_id = "";
        first_seen_at = now clock;
        processed_at = now clock;
        retry_count = 0;
        next_run_at = "";
      })
      (λ s. record s {
        state = "processed";
        revision = m.current_revision;
        processed_at = now clock;
      })
      states

-- What stands behind a confirmation.
pub record Confirmation : Type 0 where
  pub action : PendingAction
  pub task : Task
  pub runtime : Runtime
  pub message : Message
  pub revision : Revision
  pub inbox : Route

module _ (julianday : String → Option ℕ) (evidence : Evidence) (formats : Formats) where
  -- The checks on the message and its sender.
  pub check_confirmation : String → String → Db → Result Confirmation
  check_confirmation id message db = do
    found ← find_action formats id db
    let a = found.0
    let t = found.1
    let c = found.2
    routes ← confirmation_routes db c
    m ← or_fail (find_row (is_message message) db.messages) not_found
    r ← or_fail (current_revision db m) not_found
    inbox ← or_fail (find_row (is_inbox_of c t m) routes) denied
    fail_if
        (str_eq inbox.id ""
          || not (str_eq m.sender_principal c.owner_principal_id)
          || not (str_eq m.availability "available")
          || not (sender_current db m.channel_id message c.owner_principal_id))
        denied
    fail_if (str_eq c.application_mode "proactive" && not (is_fresh julianday db m a)) denied
    fail_if
        (not (sent_after formats m a)
          || not (str_eq (trim_space (said c m r)) (confirmation_token a)))
        denied
    fail_if (not (is_unchanged formats t a)) conflict
    current ← messages_current evidence db t.id
    fail_if (not current) conflict
    ok (record { action = a; task = t; runtime = c; message = m; revision = r; inbox = inbox })

  pub confirm_action : Clock → String → String → Db → Result (PendingAction × Db)
  confirm_action clock id message db = do
    k ← check_confirmation id message db
    fail_if (not (count_rows (is_pending_action id) db.runtime_pending_actions == 1)) conflict
    ok (
      confirm_row clock k.message.sender_principal message k.action,
      record db {
        runtime_pending_actions =
            update_rows (is_pending_action id)
              (confirm_row clock k.message.sender_principal message) db.runtime_pending_actions;
        runtime_message_states =
            mark_processed clock k.runtime k.inbox k.message db.runtime_message_states;
      },
    )
