-- ===== src/Intake/Kept.antt =====
-- core/message.go: what one call of Intake keeps.
use memgov.Base.{
  ◌≤◌, ◌≡◌, refl, sym, ap, ◌∙◌, subst, String, Bool, false, none, some, List, [], ◌∷◌, ◌++◌, Clock,
  now, find_row, count_rows, update_rows, upsert_row, str_eq, eq_iff, eq_refl, Bool-cases,
  Option-cases, inl, inr, arith, if◌then◌else◌,
}
use mathlib.Core.Option
use memgov.Base.Table.{find_row-upsert_other, find_row-upsert, find_row-update, find_row-append}
use memgov.Schema.{Db}
use memgov.Schema.Drafts.{Sender}
use memgov.Schema.People.{Message}
use memgov.Schema.Inbox.{Recall, InboxEvent}
use memgov.Identity.{is_verified_alias}
use memgov.Intake.{Event, Received}
use memgov.Intake.Store.{has_key, is_recall}
use memgov.Intake.Apply.{mark_recalled, apply_recall, mark_event}
use memgov.Intake.Receive.{has_dedupe}
use memgov.Intake.Touched.{
  Touched, rest, IsSettled, Touched-IsSettled, marked-Touched, marked-IsSettled,
}
use memgov.Intake.Applied.{Applied}

-- Channels and routes stay; verified identifiers, recalls and events stay known; and messages whose
-- recall is known stay recalled.
pub record Kept (db db' : Db) : Type 0 where
  pub channels : db'.channels ≡ db.channels
  pub routes : db'.channel_routes ≡ db.channel_routes
  pub more :
      (tenant : String) (s : Sender)
      → count_rows (is_verified_alias tenant s) db.identity_aliases
        ≤ count_rows (is_verified_alias tenant s) db'.identity_aliases
  pub recalls :
      (key : String) (r : Recall)
      → find_row (is_recall key) db.message_recalls ≡ some r
      → (r' : Recall) × (find_row (is_recall key) db'.message_recalls ≡ some r')
  pub events :
      (key : String) (i : InboxEvent)
      → find_row (has_dedupe key) db.inbox_events ≡ some i
      → (i' : InboxEvent) × (find_row (has_dedupe key) db'.inbox_events ≡ some i')
  pub settled :
      (key : String)
      → IsSettled key db.message_recalls db.messages
      → IsSettled key db'.message_recalls db'.messages

pub Kept-refl : (db db' : Db) → db' ≡ db → Kept db db'
Kept-refl db db' e = subst (Kept db) (sym e) (record {
  channels = refl;
  routes = refl;
  more = λ t s. omega arith;
  recalls = λ k r h. (r, h);
  events = λ k i h. (i, h);
  settled = λ k w. w;
})

pub Kept-trans : (a b c : Db) → Kept a b → Kept b c → Kept a c
Kept-trans a b c p q = record {
  channels = q.channels ∙ p.channels;
  routes = q.routes ∙ p.routes;
  more = λ t s. omega (arith, p.more t s, q.more t s);
  recalls = λ k r h. let (r', h') = p.recalls k r h in q.recalls k r' h';
  events = λ k i h. let (i', h') = p.events k i h in q.events k i' h';
  settled = λ k w. q.settled k (p.settled k w);
}

pub Applied-Kept : (db db' : Db) → Applied db db' → Kept db db'
Applied-Kept db db' k = record {
  channels = k.channels;
  routes = k.routes;
  more = k.more;
  recalls = λ key r h. (r, ap (find_row (is_recall key)) k.recalls ∙ h);
  events = λ key i h. (i, ap (find_row (has_dedupe key)) k.events ∙ h);
  settled = k.settled;
}

-- Updates of events that keep their keys.
events-updated :
    (q : InboxEvent → Bool) (f : InboxEvent → InboxEvent) (rows : List InboxEvent)
    → ((i : InboxEvent) → (f i).dedupe_key ≡ i.dedupe_key)
    → (key : String) (i : InboxEvent) → find_row (has_dedupe key) rows ≡ some i
    → (i' : InboxEvent) × (find_row (has_dedupe key) (update_rows q f rows) ≡ some i')
unfolding has_dedupe
events-updated q f rows same key i h =
    let e = find_row-update (has_dedupe key) q f rows (λ x. ap (λ y. str_eq y key) (same x)) in
    ((if q i then f i else i), e ∙ ap (Option.map (λ r. if q r then f r else r)) h)

pub events-Kept :
    (q : InboxEvent → Bool) (f : InboxEvent → InboxEvent) (db : Db)
    → ((i : InboxEvent) → (f i).dedupe_key ≡ i.dedupe_key)
    → Kept db (record db { inbox_events = update_rows q f db.inbox_events })
events-Kept q f db same = record {
  channels = refl;
  routes = refl;
  more = λ t s. omega arith;
  recalls = λ k r h. (r, h);
  events = events-updated q f db.inbox_events same;
  settled = λ k w. w;
}

pub appended-Kept :
    (db : Db) (new : InboxEvent)
    → Kept db (record db { inbox_events = db.inbox_events ++ new ∷ [] })
appended-Kept db new = record {
  channels = refl;
  routes = refl;
  more = λ t s. omega arith;
  recalls = λ k r h. (r, h);
  events = λ k i h. (i, rw (find_row-append (has_dedupe k) db.inbox_events (new ∷ []), h) refl);
  settled = λ k w. w;
}

-- A recall is noted, and the message, if it is known, is marked.
noted_other :
    (key k at_ : String) (new : Recall) (rows : List Recall)
    → new.message_key ≡ key
    → str_eq key k ≡ false
    → find_row
        (is_recall k)
        (upsert_row (is_recall key) new (λ r. record r { recalled_at = at_ }) rows)
      ≡ find_row (is_recall k) rows
unfolding is_recall
noted_other key k at_ new rows own other =
    find_row-upsert_other (is_recall key) (is_recall k) new (λ r. record r { recalled_at = at_ })
      rows (rw own other)
      (λ r h. let e = (eq_iff r.message_key key).0 h in (rw e other, rw e other))

noted_known :
    (key k at_ : String) (new : Recall) (rows : List Recall) (r : Recall)
    → new.message_key ≡ key
    → find_row (is_recall k) rows ≡ some r
    → (r' : Recall) × (find_row
          (is_recall k)
          (upsert_row (is_recall key) new (λ r. record r { recalled_at = at_ }) rows)
        ≡ some r')
unfolding is_recall
noted_known key k at_ new rows r own h = elim (Bool-cases (str_eq key k)) [
  | inr other ↦ (r, noted_other key k at_ new rows own other ∙ h)
  | inl same ↦
      let e = (eq_iff key k).0 same in
      let there : find_row (is_recall key) rows ≡ some r = rw e h in
      let up =
        find_row-upsert (is_recall key) new (λ r. record r { recalled_at = at_ }) rows
          (rw own (eq_refl key)) (λ x y. y) in
      (record r { recalled_at = at_ }, rw (← e) (rw (up, there) refl))
]

module _ (clock : Clock) (e : Event) (key : String) (out : Received) (db : Db) where
  abbrev time_of : String
  time_of = if str_eq e.recalled_at "" then e.event_at else e.recalled_at

  abbrev new_recall : Recall
  new_recall = record {
    message_key = key;
    recalled_at = time_of;
    inbox_event_id = out.inbox_event_id;
    created_at = now clock;
  }

  abbrev recalls_after : List Recall
  recalls_after =
      upsert_row (is_recall key) new_recall (λ r. record r { recalled_at = time_of })
        db.message_recalls

  -- The recalled message is settled, and those under other keys stay settled.
  noted-IsSettled :
      (marked : List Message)
      → Touched db.messages marked
      → IsSettled key recalls_after marked
      → (k : String) → IsSettled k db.message_recalls db.messages
      → IsSettled k recalls_after marked
  noted-IsSettled marked moved own k w = elim (Bool-cases (str_eq key k)) [
    | inl same ↦ subst (λ x. IsSettled x recalls_after marked) ((eq_iff key k).0 same) own
    | inr other ↦
        let before = Touched-IsSettled k db.message_recalls db.messages marked moved w in
        λ r m h found.
          before r m (sym (noted_other key k time_of new_recall db.message_recalls refl other) ∙ h)
            found
  ]

  noted-Kept :
      (marked : List Message) (events : List InboxEvent) (db' : Db)
      → Touched db.messages marked
      → IsSettled key recalls_after marked
      → ((k : String) (i : InboxEvent)
          → find_row (has_dedupe k) db.inbox_events ≡ some i
          → (i' : InboxEvent) × (find_row (has_dedupe k) events ≡ some i'))
      → db'.channels ≡ db.channels
      → db'.channel_routes ≡ db.channel_routes
      → db'.identity_aliases ≡ db.identity_aliases
      → db'.message_recalls ≡ recalls_after
      → db'.inbox_events ≡ events
      → db'.messages ≡ marked
      → Kept db db'
  noted-Kept marked events db' moved own known channels routes aliases recalls at_events messages =
      record {
        channels = channels;
        routes = routes;
        more = λ t s. rw aliases (omega arith);
        recalls = λ k r h.
            let (r', h') = noted_known key k time_of new_recall db.message_recalls r refl h in
            (r', ap (find_row (is_recall k)) recalls ∙ h');
        events = λ k i h.
            let (i', h') = known k i h in (i', ap (find_row (has_dedupe k)) at_events ∙ h');
        settled = λ k w. rw (recalls, messages) (noted-IsSettled marked moved own k w);
      }

  pub apply_recall-Kept : Kept db ((apply_recall clock e key out db).1)
  unfolding mark_recalled mark_event apply_recall
  apply_recall-Kept = elim (Option-cases (find_row (has_key key) db.messages)) [
    | inl none_yet ↦
        rw (none_yet, apply_recall)
          (noted-Kept db.messages _ _ rest
            (λ r m _ h. absurd (let c : none ≡ some m = sym none_yet ∙ h in cc))
            (events-updated _ _ db.inbox_events (λ i. refl)) refl refl refl refl refl refl)
    | inr (m, found) ↦
        rw (found, apply_recall)
          (noted-Kept _ _ _ (marked-Touched clock m.id time_of db.messages)
            (marked-IsSettled clock key time_of recalls_after db.messages m found)
            (events-updated _ _ db.inbox_events (λ i. refl)) refl refl refl refl refl refl)
  ]
