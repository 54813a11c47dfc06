-- ===== src/Intake/Apply.antt =====
-- core/message.go: applyMessage, settleAvailability, applyRecall and markRecalled.
use memgov.Base.{
  ℕ, ◌+◌, String, Bool, true, false, not, ◌&&◌, none, some, List, [], ◌∷◌, ◌++◌, Result, ok, ◌>>=◌,
  ◌>>◌, fail_if, internal, find_row, has_row, select_rows, update_rows, upsert_row, insert_ignore,
  str_eq, ◌==◌, if◌then◌else◌, concat, map, Clock, now,
}
use memgov.Schema.{Db}
use memgov.Schema.Channels.{Channel, Route}
use memgov.Schema.People.{Message}
use memgov.Schema.Inbox.{
  InboxEvent, Revision, Observation, RelationRow, SourceOrigin, SourceAvailability,
}
use memgov.Identity.{principal_for}
use memgov.Intake.{Relation, Event, Received, Contents, message_key, content_digest}
use memgov.Intake.Store.{
  Ids, has_key, is_recall, has_id, add_conversation, find_or_add, see_again, set_revision,
  is_revision, add_attachments, take_source,
}

module _ (clock : Clock) where
  unfoldable pub new_revision : Event → String → ℕ → String → Revision
  new_revision e message n digest = record {
    message_id = message;
    revision = n;
    body = e.body;
    body_digest = digest;
    format = if str_eq e.format "" then "text" else e.format;
    edited_at = e.edited_at;
    ordering = e.ordering;
    created_at = now clock;
  }

  -- A new revision with what belongs to it; the answer is its source.
  unfoldable pub add_revision :
      Contents → Channel → Route → Event → String → ℕ → String → Db → Result (String × Db)
  add_revision o c route e message n digest db = do
    fail_if (has_row (is_revision message n) db.message_revisions) internal
    taken ← take_source clock o c route e message n (record db {
      message_revisions = db.message_revisions ++ new_revision e message n digest ∷ [];
      messages = update_rows (has_id message) (set_revision clock n) db.messages;
    })
    let kept = taken.1
    ok (
      taken.0,
      record kept {
        message_attachments = add_attachments message n 0 e.attachments kept.message_attachments;
      },
    )

  -- The content is new where it is not that of the current revision; the answer is the revision that
  -- holds it, whether it is new, and its source.
  unfoldable pub revise :
      Contents → Channel → Route → Event → String → ℕ → Db → Result ((ℕ × Bool × String) × Db)
  revise o c route e message current db =
      let digest = content_digest o e in
      elim (find_row (is_revision message current) db.message_revisions) [
        | none ↦ add_revision o c route e message current digest db >>= λ added.
            ok ((current, true, added.0), added.1)
        | some r ↦
            if str_eq r.body_digest digest
            then ok ((current, false, ""), db)
            else (add_revision o c route e message (current + 1) digest db >>= λ added.
                ok ((current + 1, true, added.0), added.1))
      ]

  pub observe : Channel → Event → String → ℕ → String → List Observation → List Observation
  observe c e message n event rows =
      insert_ignore
        (λ (o : Observation).
          str_eq o.message_id message
          && o.revision == n
          && str_eq o.channel_id c.id
          && str_eq o.adapter e.adapter
          && str_eq o.inbox_event_id event)
        (record {
          message_id = message;
          revision = n;
          channel_id = c.id;
          adapter = e.adapter;
          inbox_event_id = event;
          observed_at = now clock;
        })
        rows

  -- The message a relation points at may not be known yet.
  pub relate :
      Channel → Event → String → List Message → List Relation → List RelationRow → List RelationRow
  relate c e message messages [] rows = rows
  relate c e message messages (r ∷ rs) rows = relate c e message messages rs (
      insert_ignore
        (λ (o : RelationRow).
          str_eq o.src_message_id message
          && str_eq o.kind r.kind
          && str_eq o.dst_provider_message_id r.provider_message_id)
        (record {
          src_message_id = message;
          kind = r.kind;
          dst_provider_message_id = r.provider_message_id;
          dst_message_id =
              elim (find_row
                (has_key (message_key c.id_namespace e.conversation_id r.provider_message_id))
                messages) [ none ↦ "" | some m ↦ m.id ];
          origin_sender = r.origin_sender;
          confidence = if str_eq r.confidence "" then "provider" else r.confidence;
        })
        rows)

  -- Relations that pointed at the message before it was known.
  pub resolve : String → String → List RelationRow → List RelationRow
  resolve provider_id message rows =
      update_rows
        (λ (r : RelationRow).
          str_eq r.dst_provider_message_id provider_id && str_eq r.dst_message_id "")
        (λ r. record r { dst_message_id = message }) rows

  pub withdraw_source : String → List SourceAvailability → String → List SourceAvailability
  withdraw_source reason rows source =
      upsert_row (λ (a : SourceAvailability). str_eq a.source_id source)
        (record {
          source_id = source;
          state = "recalled";
          reason = reason;
          change_seq = 1;
          updated_at = now clock;
        })
        (λ a. record a {
          state = "recalled";
          reason = reason;
          change_seq = a.change_seq + 1;
          updated_at = now clock;
        })
        rows

  pub withdraw_sources : String → List String → List SourceAvailability → List SourceAvailability
  withdraw_sources reason [] rows = rows
  withdraw_sources reason (s ∷ ss) rows = withdraw_sources reason ss (withdraw_source reason rows s)

  unfoldable pub recalled_row : String → Message → Message
  recalled_row at_ m = record m {
    availability = "recalled";
    availability_reason = concat ("recalled at " ∷ at_ ∷ []);
    updated_at = now clock;
  }

  pub is_origin_of : String → SourceOrigin → Bool
  is_origin_of message o = str_eq o.message_id message && not (str_eq o.source_id "")

  -- markRecalled: the message, and every source made of it.
  unfoldable pub mark_recalled : String → String → Db → Db
  mark_recalled message at_ db = record db {
    messages = update_rows (has_id message) (recalled_row at_) db.messages;
    source_availability =
        withdraw_sources (concat ("source message recalled at " ∷ at_ ∷ []))
          (map (λ (o : SourceOrigin). o.source_id)
            (select_rows (is_origin_of message) db.source_origins))
          db.source_availability;
  }

  -- settleAvailability: a recall that came before the message.
  unfoldable pub settle_availability : String → String → Received → Db → Received × Db
  settle_availability message key r db = elim (find_row (is_recall key) db.message_recalls) [
    | none ↦ (record r { availability = "available" }, db)
    | some known ↦
        (record r { availability = "recalled" }, mark_recalled message known.recalled_at db)
  ]

  unfoldable pub apply_message :
      Contents → Ids → Channel → Route → Event → String → Received → Db → Result (Received × Db)
  apply_message o ids c route e key out db = do
    who ← principal_for clock ids.principal c.tenant e.sender db
    let met = who.1
    found ← find_or_add clock ids c route e key (who.0) met.messages
    let m = found.0
    revised ← revise o c route e m.id m.current_revision (record met {
      conversations = add_conversation clock ids c route e met.conversations;
      messages = see_again clock c route e (who.0) m.id (found.1);
    })
    let stored = revised.1
    ok (
        settle_availability m.id key
          (record out {
            message_id = m.id;
            revision = revised.0.0;
            new_revision = revised.0.1;
            source_id = revised.0.2;
          })
          (record stored {
            message_observations =
                observe c e m.id (revised.0.0) out.inbox_event_id stored.message_observations;
            message_relations =
                resolve e.provider_message_id m.id
                  (relate c e m.id stored.messages e.relations stored.message_relations);
          }))

  -- What becomes of the event itself.
  unfoldable pub mark_event : String → String → String → List InboxEvent → List InboxEvent
  mark_event id status message rows =
      update_rows (λ (i : InboxEvent). str_eq i.id id)
        (λ i. record i { status = status; message_id = message }) rows

  -- applyRecall. The recall of a message that is not known yet waits for it.
  unfoldable pub apply_recall : Event → String → Received → Db → Received × Db
  apply_recall e key out db =
      let at_ = if str_eq e.recalled_at "" then e.event_at else e.recalled_at in
      let noted = record db {
        message_recalls =
            upsert_row (is_recall key)
              (record {
                message_key = key;
                recalled_at = at_;
                inbox_event_id = out.inbox_event_id;
                created_at = now clock;
              })
              (λ r. record r { recalled_at = at_ }) db.message_recalls;
      } in
      elim (find_row (has_key key) db.messages) [
        | none ↦ (
          record out { status = "pending_original"; availability = "recalled" },
          record noted {
            inbox_events =
                update_rows (λ (i : InboxEvent). str_eq i.id out.inbox_event_id)
                  (λ i. record i { status = "pending_original" }) noted.inbox_events;
          },
        )
        | some m ↦
            let marked = mark_recalled m.id at_ noted in
            (
              record out { message_id = m.id; status = "applied"; availability = "recalled" },
              record marked {
                inbox_events = mark_event out.inbox_event_id "applied" m.id marked.inbox_events;
              },
            )
      ]
