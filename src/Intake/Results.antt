-- ===== src/Intake/Results.antt =====
-- core/message.go: which tables the parts of Intake change, and how.
use memgov.Base.{
  ℕ, ◌+◌, ◌≡◌, refl, sym, ap, ◌∙◌, subst, String, Bool, true, false, ◌&&◌, none, some, List, [],
  ◌∷◌, ◌++◌, ok, Clock, find_row, has_row, update_rows, str_eq, eq_refl, Bool-cases, Option-cases,
  inl, inr, ◌⊎◌, >>=-elim, fail_if-elim, ok-state, ok_inj, internal, if◌then◌else◌, is_blank, ◌>>◌,
  fail_if,
}
use memgov.Base.Table.{find_row-append}
use memgov.Schema.{Db}
use memgov.Schema.Channels.{Channel, Route}
use memgov.Schema.People.{Message}
use memgov.Schema.Inbox.{Revision, AttachmentRow, SourceOrigin, SourceAvailability}
use memgov.Identity.{Person}
use memgov.Intake.{Event, Contents, content_digest}
use memgov.Intake.Store.{
  Ids, has_key, has_id, find_or_add, new_message, see_again, set_sender, address, set_revision,
  is_revision, take_source, add_source, add_attachments, is_addressed,
}
use memgov.Intake.Apply.{add_revision, revise}
use memgov.Intake.Touched.{Touched, rest, touch, Keeps}

-- The message that is found or added is the first under its key.
pub record Known (key : String) (s u : List Message) (m : Message) : Type 0 where
  pub found : find_row (has_key key) u ≡ some m
  pub shape : (u ≡ s) ⊎ ((m.message_key ≡ key) × (u ≡ s ++ m ∷ []))

found_new :
    (key : String) (s : List Message) (new : Message)
    → find_row (has_key key) s ≡ none
    → new.message_key ≡ key
    → find_row (has_key key) (s ++ new ∷ []) ≡ some new
unfolding has_key find_row
found_new key s new none_yet own =
    rw (find_row-append (has_key key) s (new ∷ []), none_yet) (rw (own, eq_refl key) refl)

pub find_or_add-Known :
    (clock : Clock) (ids : Ids) (c : Channel) (route : Route) (e : Event) (key : String)
    (p : Person) (s : List Message) (m : Message) (u : List Message)
    → find_or_add clock ids c route e key p s ≡ ok (m, u)
    → Known key s u m
unfolding find_or_add new_message
find_or_add-Known clock ids c route e key p s m u h =
    elim (Option-cases (find_row (has_key key) s)) [
      | inr (k, found) ↦
          let r : ok (k, s) ≡ ok (m, u) = rw (found, find_or_add) at h in
          let same : (k, s) ≡ (m, u) = ok_inj r in
          let a : k ≡ m = ap (λ (x : Message × List Message). x.0) same in
          let b : s ≡ u = ap (λ (x : Message × List Message). x.1) same in
          record { found = rw (← a, ← b) found; shape = inl (sym b) }
      | inl none_yet ↦
          let new = new_message clock ids c route e key p in
          let added : (fail_if (has_row (has_id ids.message) s) internal >> ok (new, s ++ new ∷ []))
              ≡ ok (m, u) =
            rw (none_yet, find_or_add) at h in
          fail_if-elim (has_row (has_id ids.message) s) internal _ added λ _ h.
            let same : (new, s ++ new ∷ []) ≡ (m, u) = ok_inj h in
            let a : new ≡ m = ap (λ (x : Message × List Message). x.0) same in
            let b : s ++ new ∷ [] ≡ u = ap (λ (x : Message × List Message). x.1) same in
            record {
              found = rw (← a, ← b) (found_new key s new none_yet refl);
              shape = inr (rw (← a) refl, rw (← a, ← b) refl);
            }
    ]

set_sender-Keeps :
    (clock : Clock) (c : Channel) (e : Event) (p : Person) → Keeps (set_sender clock c e p)
unfolding set_sender
set_sender-Keeps clock c e p = record { key = λ m. refl; id = λ m. refl; recalled = λ m h. h }

address-Keeps : (clock : Clock) → Keeps (address clock)
unfolding address
address-Keeps clock = record { key = λ m. refl; id = λ m. refl; recalled = λ m h. h }

set_revision-Keeps : (clock : Clock) (n : ℕ) → Keeps (set_revision clock n)
unfolding set_revision
set_revision-Keeps clock n = record { key = λ m. refl; id = λ m. refl; recalled = λ m h. h }

-- One of two, either of which is fine.
either-Touched :
    (s : List Message) (c : Bool) (u v : List Message)
    → Touched s u
    → Touched s v
    → Touched s (if c then u else v)
either-Touched s true u v a b = a
either-Touched s false u v a b = b

pub see_again-Touched :
    (clock : Clock) (c : Channel) (route : Route) (e : Event) (p : Person) (id : String)
    (s : List Message)
    → Touched s (see_again clock c route e p id s)
unfolding see_again
see_again-Touched clock c route e p id s =
    let known =
      either-Touched s
        (str_eq e.origin "history"
          && str_eq route.conversation_type "direct"
          && str_eq e.sender.id_type "open_id")
        _ s (touch (has_id id) (set_sender clock c e p) (set_sender-Keeps clock c e p) rest) rest in
    either-Touched s (is_addressed route e) _ _
      (touch _ (address clock) (address-Keeps clock) known) known

-- A revision touches its message, and adds to the tables that hang on it.
pub record Revised (db db' : Db) : Type 0 where
  pub revisions : List Revision
  pub attachments : List AttachmentRow
  pub origins : List SourceOrigin
  pub availability : List SourceAvailability
  pub messages : List Message
  pub touched : Touched db.messages messages
  pub same : db' ≡ record db {
    message_revisions = revisions;
    message_attachments = attachments;
    source_origins = origins;
    source_availability = availability;
    messages = messages;
  }

take_source-cases :
    (clock : Clock) (o : Contents) (c : Channel) (route : Route) (e : Event) (message : String)
    (n : ℕ) (db : Db) (s : String) (db' : Db)
    → take_source clock o c route e message n db ≡ ok (s, db')
    → (origins : List SourceOrigin) × (availability : List SourceAvailability) × (db'
        ≡ record db { source_origins = origins; source_availability = availability })
unfolding take_source add_source
take_source-cases clock o c route e message n db s db' h = elim (Bool-cases (is_blank e.body)) [
  | inl b ↦ (db.source_origins, db.source_availability, ok-state (rw b at h))
  | inr b ↦ >>=-elim (o.ingest c route e message n) _ (rw b at h) λ source _ h. (_, _, ok-state h)
]

add_revision-Revised :
    (clock : Clock) (o : Contents) (c : Channel) (route : Route) (e : Event) (message : String)
    (n : ℕ) (digest : String) (db : Db) (s : String) (db' : Db)
    → add_revision clock o c route e message n digest db ≡ ok (s, db')
    → Revised db db'
unfolding add_revision
add_revision-Revised clock o c route e message n digest db s db' h =
    fail_if-elim (has_row (is_revision message n) db.message_revisions) internal _ h λ _ h.
      >>=-elim (take_source clock o c route e message n _) _ h λ taken k h.
        let (origins, availability, same) =
          take_source-cases clock o c route e message n _ (taken.0) (taken.1) k in
        record {
          revisions = _;
          attachments = _;
          origins = origins;
          availability = availability;
          messages = update_rows (has_id message) (set_revision clock n) db.messages;
          touched = touch (has_id message) (set_revision clock n) (set_revision-Keeps clock n) rest;
          same =
              ok-state h
              ∙ ap
                  (λ (x : Db). record x {
                    message_attachments =
                        add_attachments message n 0 e.attachments taken.1.message_attachments;
                  })
                  same;
        }

pub revise-Revised :
    (clock : Clock) (o : Contents) (c : Channel) (route : Route) (e : Event) (message : String)
    (current : ℕ) (db : Db) (r : ℕ × Bool × String) (db' : Db)
    → revise clock o c route e message current db ≡ ok (r, db')
    → Revised db db'
unfolding revise
revise-Revised clock o c route e message current db r db' h =
    let digest = content_digest o e in
    elim (Option-cases (find_row (is_revision message current) db.message_revisions)) [
      | inl k ↦
          >>=-elim (add_revision clock o c route e message current digest db) _
            (rw (k, revise) at h)
            λ added a h. subst (Revised db) (sym (ok-state h)) (
              add_revision-Revised clock o c route e message current digest db (added.0) (added.1)
                a)
      | inr (row, k) ↦ elim (Bool-cases (str_eq row.body_digest digest)) [
        | inl same ↦ record {
          revisions = db.message_revisions;
          attachments = db.message_attachments;
          origins = db.source_origins;
          availability = db.source_availability;
          messages = db.messages;
          touched = rest;
          same = ok-state (rw same at (rw (k, revise) at h));
        }
        | inr other ↦
            >>=-elim (add_revision clock o c route e message (current + 1) digest db) _
              (rw other at (rw (k, revise) at h))
              λ added a h. subst (Revised db) (sym (ok-state h)) (
                add_revision-Revised clock o c route e message (current + 1) digest db (added.0)
                  (added.1) a)
      ]
    ]
