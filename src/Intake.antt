-- ===== src/Intake.antt =====
-- core/message.go with core/message_quote.go: what an adapter hands in, and what identifies it.
pub mod People
pub mod Store
pub mod Apply
pub mod Receive
pub mod Touched
pub mod Results
pub mod Applied
pub mod Kept
pub mod History
use memgov.Base.{
  ℕ, String, Bool, true, false, not, ◌&&◌, ◌||◌, Option, none, some, List, [], ◌∷◌, Result, ok, err,
  ◌>>=◌, ◌>>◌, fail_if, invalid_input, str_eq, if◌then◌else◌, contains, concat, is_identifier,
}
use memgov.Schema.Channels.{Channel, Route}
use memgov.Schema.Drafts.{Sender}
use memgov.Identity.{validate}

pub record Attachment : Type 0 where
  pub name : String
  pub media_type : String
  pub resource_id : String

pub record Relation : Type 0 where
  pub kind : String
  pub provider_message_id : String
  pub origin_sender : String
  pub confidence : String

-- NormalizedEvent, with the quote as its JSON text.
pub record Event : Type 0 where
  pub kind : String
  pub adapter : String
  pub parse_version : String
  pub origin : String
  pub provider_event_id : String
  pub provider_message_id : String
  pub conversation_id : String
  pub tenant : String
  pub sender : Sender
  pub body : String
  pub quote : Option String
  pub format : String
  pub sent_at : String
  pub source_time_raw : String
  pub edited_at : String
  pub event_at : String
  pub recalled_at : String
  pub ordering : String
  pub mentioned : Bool
  pub attachments : List Attachment
  pub relations : List Relation
  pub payload : String
  pub history_previous_sent_at : String

pub record Received : Type 0 where
  pub inbox_event_id : String
  pub channel_id : String
  pub duplicate : Bool
  pub message_id : String
  pub message_key : String
  pub revision : ℕ
  pub new_revision : Bool
  pub source_id : String
  pub availability : String
  pub status : String

-- Hash (of texts joined by a zero byte), the digest of a body with its quote, and the checks of the
-- time, JSON and UTF-8 packages; what storing a revision as a source answers (Tx.Ingest).
pub record Contents : Type 0 where
  pub hash : List String → String
  pub quoted : String → String → String
  pub is_quote : String → Bool
  pub is_time : String → Bool
  pub nano : String → Option ℕ
  pub is_json : String → Bool
  pub is_utf8 : String → Bool
  pub ingest : Channel → Route → Event → String → ℕ → Result String

abbrev pub recall : String
recall = "recall"

-- messageKey
unfoldable pub message_key : String → String → String → String
message_key namespace conversation message =
    concat (namespace ∷ "|" ∷ conversation ∷ "|" ∷ message ∷ [])

pub check_relations : List Relation → Result (Unit {0})
check_relations [] = ok tt
check_relations (r ∷ rs) = do
  fail_if (not (contains ("reply" ∷ "quote" ∷ "forward" ∷ []) r.kind)) invalid_input
  fail_if (not (is_identifier r.provider_message_id)) invalid_input
  check_relations rs

module _ (o : Contents) where
  pub check_times : List String → Result (Unit {0})
  check_times [] = ok tt
  check_times (t ∷ ts) = do
    fail_if (not (str_eq t "") && not (o.is_time t)) invalid_input
    check_times ts

  -- NormalizedEvent.validate
  pub check_event : Event → Result (Unit {0})
  check_event e = do
    fail_if (not (contains ("message" ∷ "edit" ∷ recall ∷ []) e.kind)) invalid_input
    fail_if (str_eq e.adapter "" || str_eq e.parse_version "") invalid_input
    fail_if (not (contains ("" ∷ "stream" ∷ "history" ∷ "import" ∷ []) e.origin)) invalid_input
    fail_if (not (is_identifier e.provider_message_id)) invalid_input
    fail_if (not (is_identifier e.conversation_id)) invalid_input
    (if str_eq e.kind recall
        then ok tt
        else (validate e.sender >> fail_if (not (o.is_utf8 e.body)) invalid_input))
    check_relations e.relations
    (elim e.quote [ none ↦ ok tt | some q ↦ fail_if (not (o.is_quote q)) invalid_input ])
    check_times (e.sent_at ∷ e.edited_at ∷ e.event_at ∷ e.recalled_at ∷ [])
    fail_if (not (str_eq e.payload "") && not (o.is_json e.payload)) invalid_input

  -- messageContentDigest
  pub content_digest : Event → String
  content_digest e = elim e.quote [ none ↦ o.hash (e.body ∷ []) | some q ↦ o.quoted e.body q ]

  -- dedupeKey: the event's own id, where it has one, else its content.
  pub dedupe_key : Channel → Event → String
  dedupe_key c e =
      let base =
        concat
          (c.provider ∷ "|" ∷ c.id_namespace ∷ "|" ∷ c.auth_namespace ∷ "|" ∷ e.kind ∷ "|" ∷ []) in
      if not (str_eq e.provider_event_id "")
      then concat (base ∷ "event:" ∷ e.provider_event_id ∷ [])
      else concat (
          base
          ∷ "content:"
          ∷ o.hash (
              message_key c.id_namespace e.conversation_id e.provider_message_id
              ∷ concat (e.sender.id_type ∷ ":" ∷ e.sender.id_value ∷ [])
              ∷ e.sent_at
              ∷ e.edited_at
              ∷ content_digest e
              ∷ [])
          ∷ [])
