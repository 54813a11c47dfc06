-- ===== src/Intake/Store.antt =====
-- core/message.go: applyMessage, settleAvailability, applyRecall and markRecalled: what a platform
-- event makes of a message. The snapshot of a revision and its attachments' state are not kept.
use memgov.Base.{
  ℕ, suc, String, Bool, true, false, not, ◌&&◌, ◌||◌, none, some, List, [], ◌∷◌, ◌++◌, Result, ok,
  ◌>>=◌, ◌>>◌, fail_if, internal, find_row, has_row, update_rows, insert_ignore, str_eq, ◌==◌,
  if◌then◌else◌, is_blank, Clock, now,
}
use memgov.Schema.{Db}
use memgov.Schema.Channels.{Channel, Route, Conversation}
use memgov.Schema.People.{Message}
use memgov.Schema.Inbox.{Revision, Recall, AttachmentRow, SourceOrigin, SourceAvailability}
use memgov.Identity.{Person}
use memgov.Intake.{Attachment, Event, Contents}

-- The NewIDs of one call.
pub record Ids : Type 0 where
  pub event : String
  pub message : String
  pub conversation : String
  pub principal : String

unfoldable pub has_key : String → Message → Bool
has_key key m = str_eq m.message_key key

unfoldable pub is_recall : String → Recall → Bool
is_recall key r = str_eq r.message_key key

unfoldable pub has_id : String → Message → Bool
has_id id m = str_eq m.id id

pub is_self : Channel → Event → Bool
is_self c e =
    e.sender.self_author
    || (if str_eq c.kind "dws_personal"
        then not (str_eq e.sender.id_value "")
          && str_eq e.sender.id_value c.identity.expected_user_id
        else str_eq c.kind "dingtalk_app"
          && not (str_eq c.identity.robot_code "")
          && str_eq e.sender.id_value c.identity.robot_code)

pub is_addressed : Route → Event → Bool
is_addressed route e = e.mentioned || str_eq route.conversation_type "direct"

pub is_revision : String → ℕ → Revision → Bool
is_revision message n r = str_eq r.message_id message && r.revision == n

-- Attachments of one revision, numbered from `n`.
pub add_attachments : String → ℕ → ℕ → List Attachment → List AttachmentRow → List AttachmentRow
add_attachments message revision n [] rows = rows
add_attachments message revision n (a ∷ others) rows =
    add_attachments message revision (suc n) others (
      insert_ignore
        (λ (o : AttachmentRow).
          str_eq o.message_id message && o.revision == revision && o.ordinal == n)
        (record {
          message_id = message;
          revision = revision;
          ordinal = n;
          name = a.name;
          media_type = a.media_type;
          resource_id = a.resource_id;
        })
        rows)

module _ (clock : Clock) where
  pub add_conversation : Ids → Channel → Route → Event → List Conversation → List Conversation
  add_conversation ids c route e rows =
      insert_ignore
        (λ (o : Conversation).
          str_eq o.id ids.conversation
          || (str_eq o.channel_id c.id && str_eq o.provider_conversation_id e.conversation_id))
        (record {
          id = ids.conversation;
          channel_id = c.id;
          provider_conversation_id = e.conversation_id;
          kind = route.conversation_type;
          created_at = now clock;
        })
        rows

  unfoldable pub new_message : Ids → Channel → Route → Event → String → Person → Message
  new_message ids c route e key p = record {
    id = ids.message;
    channel_id = c.id;
    message_key = key;
    conversation_id = e.conversation_id;
    provider_message_id = e.provider_message_id;
    sender_principal = p.id;
    sender_id_type = e.sender.id_type;
    sender_id_value = e.sender.id_value;
    sent_at = e.sent_at;
    current_revision = 1;
    availability = "available";
    availability_reason = "";
    weak_identity = p.weak;
    self_authored = is_self c e;
    addressed = is_addressed route e;
    context_only = false;
    created_at = now clock;
    updated_at = now clock;
  }

  -- The message under the key, new where there is none; with its table.
  unfoldable pub find_or_add :
      Ids
      → Channel
      → Route
      → Event
      → String
      → Person
      → List Message
      → Result (Message × List Message)
  find_or_add ids c route e key p rows = elim (find_row (has_key key) rows) [
    | some m ↦ ok (m, rows)
    | none ↦
        let m = new_message ids c route e key p in
        fail_if (has_row (has_id ids.message) rows) internal >> ok (m, rows ++ m ∷ [])
  ]

  unfoldable pub set_sender : Channel → Event → Person → Message → Message
  set_sender c e p m = record m {
    sender_principal = p.id;
    sender_id_type = e.sender.id_type;
    sender_id_value = e.sender.id_value;
    self_authored = is_self c e;
    updated_at = now clock;
  }

  unfoldable pub address : Message → Message
  address m = record m { addressed = true; updated_at = now clock }

  -- What a later sight of a message says about its sender, and that it is for the Agent.
  unfoldable pub see_again : Channel → Route → Event → Person → String → List Message → List Message
  see_again c route e p id rows =
      let known =
        if str_eq e.origin "history"
          && str_eq route.conversation_type "direct"
          && str_eq e.sender.id_type "open_id"
        then update_rows (has_id id) (set_sender c e p) rows
        else rows in
      if is_addressed route e
      then update_rows (λ (m : Message). has_id id m && not m.addressed) address known
      else known

  unfoldable pub set_revision : ℕ → Message → Message
  set_revision n m = record m { current_revision = n; updated_at = now clock }

  -- The source that keeps the evidence of a revision (ingestMessageSnapshot).
  unfoldable pub add_source : Channel → Route → String → ℕ → String → Db → Db
  add_source c route message revision source db = record db {
    source_origins =
        insert_ignore (λ (o : SourceOrigin). str_eq o.source_id source)
          (record {
            source_id = source;
            channel_id = c.id;
            message_id = message;
            revision = revision;
            route_id = route.id;
            created_at = now clock;
          })
          db.source_origins;
    source_availability =
        insert_ignore (λ (o : SourceAvailability). str_eq o.source_id source)
          (record {
            source_id = source;
            state = "available";
            reason = "";
            change_seq = 1;
            updated_at = now clock;
          })
          db.source_availability;
  }

  -- `none` is the source of a message without text.
  unfoldable pub take_source :
      Contents → Channel → Route → Event → String → ℕ → Db → Result (String × Db)
  take_source o c route e message revision db =
      if is_blank e.body
      then ok ("", db)
      else (o.ingest c route e message revision >>= λ source.
          ok (source, add_source c route message revision source db))
