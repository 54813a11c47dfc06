-- ===== src/Intake/Receive.antt =====
-- core/message.go and core/history_time_recovery.go: Intake and correctDWSHistoryTime.
use memgov.Base.{
  ◌+◌, ◌*◌, String, Bool, true, false, not, ◌&&◌, ◌||◌, none, some, List, [], ◌∷◌, ◌++◌, Result, ok,
  ◌>>=◌, ◌>>◌, fail_if, internal, denied, invalid_input, find_row, has_row, update_rows, str_eq,
  ◌==◌, if◌then◌else◌, second, Clock, now,
}
use memgov.Schema.{Db}
use memgov.Schema.Channels.{Channel, Route}
use memgov.Schema.Windows.{Watermark}
use memgov.Schema.People.{Message}
use memgov.Schema.Inbox.{InboxEvent, Revision}
use memgov.Channel.{read_channel, route_for}
use memgov.Coverage.{str_max}
use memgov.Identity.{is_verified_alias}
use memgov.Intake.{Event, Received, Contents, recall, message_key, check_event, dedupe_key}
use memgov.Intake.Store.{Ids, is_revision}
use memgov.Intake.Apply.{apply_message, apply_recall, mark_event}

abbrev pub nothing_yet : Received
nothing_yet = record {
  inbox_event_id = "";
  channel_id = "";
  duplicate = false;
  message_id = "";
  message_key = "";
  revision = 0;
  new_revision = false;
  source_id = "";
  availability = "";
  status = "";
}

-- SELECT coalesce(max(sent_at),'') of a conversation.
pub last_sent : String → String → List Message → String
last_sent channel conversation [] = ""
last_sent channel conversation (m ∷ ms) =
    let rest = last_sent channel conversation ms in
    if str_eq m.channel_id channel && str_eq m.conversation_id conversation
    then str_max m.sent_at rest
    else rest

-- An event of the first version of the adapter, whose time the message has.
pub is_old_reading : Message → InboxEvent → Bool
is_old_reading m i =
    str_eq i.message_id m.id
    && str_eq i.channel_id m.channel_id
    && str_eq i.adapter "dws"
    && str_eq i.parse_version "dws/1"
    && str_eq i.origin "history"
    && str_eq i.event_at m.sent_at

-- The message as it was taken in, with the same content and sender.
pub is_same_message : Contents → Db → Channel → Event → String → Message → Bool
is_same_message o db c e id m =
    str_eq m.id id
    && str_eq m.channel_id c.id
    && str_eq m.conversation_id e.conversation_id
    && str_eq m.provider_message_id e.provider_message_id
    && str_eq m.sender_id_type e.sender.id_type
    && str_eq m.sender_id_value e.sender.id_value
    && has_row
        (λ (r : Revision).
          is_revision m.id m.current_revision r && str_eq r.body_digest (o.hash (e.body ∷ [])))
        db.message_revisions
    && has_row (is_old_reading m) db.inbox_events

unfoldable pub has_dedupe : String → InboxEvent → Bool
has_dedupe key i = str_eq i.dedupe_key key

-- A file may not speak for an identity that is not verified.
unfoldable pub may_import : Channel → Event → Db → Bool
may_import c e db =
    not (str_eq e.origin "import")
    || str_eq e.sender.id_type "unknown"
    || has_row (is_verified_alias c.tenant e.sender) db.identity_aliases

unfoldable pub with_origin : Event → Event
with_origin e = record e { origin = if str_eq e.origin "" then "stream" else e.origin }

pub is_late_by_8_hours : Contents → Event → Bool
is_late_by_8_hours o e = elim (o.nano e.history_previous_sent_at) [
  | none ↦ false
  | some old ↦ elim (o.nano e.sent_at) [
    | none ↦ false
    | some fresh ↦ old == fresh + 28_800 * second
  ]
]

module _ (clock : Clock) where
  -- The time that the first version read eight hours late.
  unfoldable pub correct_time : Channel → Event → String → String → Db → Db
  correct_time c e id stored db =
      let messages =
        update_rows (λ (m : Message). str_eq m.id id && str_eq m.sent_at stored)
          (λ m. record m { sent_at = e.sent_at; updated_at = now clock }) db.messages in
      record db {
        messages = messages;
        channel_watermarks =
            update_rows
              (λ (w : Watermark).
                str_eq w.channel_id c.id
                && str_eq w.conversation_id e.conversation_id
                && str_eq w.observed_at stored)
              (λ w. record w {
                observed_at = last_sent c.id e.conversation_id messages;
                updated_at = now clock;
              })
              db.channel_watermarks;
      }

  unfoldable pub correct_history_time : Contents → Channel → Event → Received → Db → Result Db
  correct_history_time o c e r db =
      if not (str_eq c.kind "dws_personal")
        || not (str_eq e.adapter "dws")
        || not (str_eq e.parse_version "dws-history/2")
        || not (str_eq e.origin "history")
        || str_eq e.history_previous_sent_at ""
        || str_eq r.message_id ""
        || r.new_revision
      then ok db
      else (fail_if (not (is_late_by_8_hours o e)) invalid_input
          >> elim (find_row (is_same_message o db c e r.message_id) db.messages) [
            | none ↦ ok db
            | some m ↦ ok (
                if str_eq m.sent_at e.history_previous_sent_at
                then correct_time c e r.message_id m.sent_at db
                else db)
          ])

  unfoldable pub new_event : Ids → Channel → Event → String → InboxEvent
  new_event ids c e dedupe = record {
    id = ids.event;
    channel_id = c.id;
    dedupe_key = dedupe;
    event_kind = e.kind;
    provider_event_id = e.provider_event_id;
    provider_message_id = e.provider_message_id;
    conversation_id = e.conversation_id;
    event_at = e.event_at;
    received_at = now clock;
    adapter = e.adapter;
    parse_version = e.parse_version;
    origin = e.origin;
    status = "received";
    message_id = "";
    source_time_raw = e.source_time_raw;
  }

  -- An event that is seen for the first time.
  unfoldable pub take_in :
      Contents → Ids → Channel → Route → Event → String → Db → Result (Received × Db)
  take_in o ids c route e dedupe db = do
    fail_if (has_row (λ (i : InboxEvent). str_eq i.id ids.event) db.inbox_events) internal
    let key = message_key c.id_namespace e.conversation_id e.provider_message_id
    let noted = record db { inbox_events = db.inbox_events ++ new_event ids c e dedupe ∷ [] }
    let out = record nothing_yet {
      inbox_event_id = ids.event;
      channel_id = c.id;
      message_key = key;
    }
    if str_eq e.kind recall
        then ok (apply_recall clock e key out noted)
        else (let timed = record e {
          sent_at = if str_eq e.sent_at "" then e.event_at else e.sent_at;
        } in
            apply_message clock o ids c route timed key out noted >>= λ applied.
            correct_history_time o c timed (applied.0) (record applied.1 {
              inbox_events =
                  mark_event clock ids.event "applied" applied.0.message_id applied.1.inbox_events;
            })
            >>= λ corrected. ok (record applied.0 { status = "applied" }, corrected))

  unfoldable pub intake : Contents → Ids → String → Event → Db → Result (Received × Db)
  intake o ids channel given db = do
    c ← read_channel db channel
    check_event o given
    fail_if (not (str_eq given.tenant "") && not (str_eq given.tenant c.tenant)) denied
    route ← route_for db c.id given.conversation_id
    if str_eq route.mode "ignore"
        then ok (record nothing_yet { channel_id = c.id; status = "ignored" }, db)
        else (let e = with_origin given in
            let dedupe = dedupe_key o c e in
            fail_if (not (may_import c e db)) denied
            >> elim (find_row (has_dedupe dedupe) db.inbox_events) [
              | some i ↦ ok (
                record nothing_yet {
                  inbox_event_id = i.id;
                  channel_id = c.id;
                  duplicate = true;
                  message_id = i.message_id;
                  message_key = message_key c.id_namespace e.conversation_id e.provider_message_id;
                  status = i.status;
                },
                db,
              )
              | none ↦ take_in o ids c route e dedupe db
            ])
