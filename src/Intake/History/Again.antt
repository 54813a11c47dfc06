-- ===== src/Intake/History/Again.antt =====
-- core/message.go: an event that comes in again.
use memgov.Base.{
  ◌≡◌, ◌≢◌, refl, ap, ◌∙◌, String, true, some, List, [], ◌∷◌, ok, Clock, find_row, eq_refl, inl,
  inr, arith,
}
use memgov.Base.Table.{find_row-append}
use memgov.Schema.{Db}
use memgov.Schema.Channels.{Channel, Route}
use memgov.Schema.Inbox.{InboxEvent}
use memgov.Channel.{read_channel, route_for}
use memgov.Intake.{Event, Received, Contents, message_key, dedupe_key}
use memgov.Intake.Store.{Ids}
use memgov.Intake.Receive.{intake, has_dedupe, new_event, may_import, with_origin, nothing_yet}
use memgov.Intake.Kept.{Kept, Kept-trans}
use memgov.Intake.History.{
  Delivery, run, run-Kept, Accepted, intake-Accepted, intake-Kept, take_in-Kept,
}

channel-Kept :
    (db db' : Db) (channel : String) (c : Channel)
    → Kept db db'
    → read_channel db channel ≡ ok c
    → read_channel db' channel ≡ ok c
unfolding read_channel
channel-Kept db db' channel c k h = rw (k.channels) h

route-Kept :
    (db db' : Db) (channel conversation : String) (r : Route)
    → Kept db db'
    → route_for db channel conversation ≡ ok r
    → route_for db' channel conversation ≡ ok r
unfolding route_for
route-Kept db db' channel conversation r k h = rw (k.routes) h

import-Kept :
    (db db' : Db) (c : Channel) (e : Event)
    → Kept db db'
    → may_import c e db ≡ true
    → may_import c e db' ≡ true
unfolding may_import
import-Kept db db' c e k h = let more = k.more c.tenant e.sender in ground arith

module _ (o : Contents) where
  -- The event is on record after it has been accepted.
  recorded :
      (clock : Clock) (ids : Ids) (channel : String) (e : Event) (db : Db) (r : Received) (db' : Db)
      (a : Accepted o clock ids channel e db r db')
      → (i : InboxEvent) × (find_row
            (has_dedupe (dedupe_key o a.c (with_origin e)))
            db'.inbox_events
          ≡ some i)
  unfolding has_dedupe find_row new_event
  recorded clock ids channel e db r db' a = elim a.outcome [
    | inl (i, found, same) ↦ (
      i,
      ap (λ (x : Db). find_row (has_dedupe (dedupe_key o a.c (with_origin e))) x.inbox_events) same
          ∙ found,
    )
    | inr (none_yet, taken) ↦
        let key = dedupe_key o a.c (with_origin e) in
        let new = new_event clock ids a.c (with_origin e) key in
        (take_in-Kept o clock ids a.c a.route (with_origin e) key db r db' taken).events key new (
          rw (find_row-append (has_dedupe key) db.inbox_events (new ∷ []), none_yet)
            (rw (eq_refl key) refl))
  ]

  again :
      (clock : Clock) (ids ids' : Ids) (channel : String) (e : Event) (db : Db) (r : Received)
      (db' last : Db) (clock' : Clock) (a : Accepted o clock ids channel e db r db')
      (i : InboxEvent)
      → Kept db last
      → find_row (has_dedupe (dedupe_key o a.c (with_origin e))) last.inbox_events ≡ some i
      → (r' : Received) × (intake clock' o ids' channel e last ≡ ok (r', last))
        × (r'.duplicate ≡ true)
  unfolding intake with_origin
  again clock ids ids' channel e db r db' last clock' a i k known =
      let c = channel-Kept db last channel a.c k a.found in
      let route = route-Kept db last a.c.id e.conversation_id a.route k a.bound in
      let allowed = import-Kept db last a.c (with_origin e) k a.imported in
      (
        record nothing_yet {
          inbox_event_id = i.id;
          channel_id = a.c.id;
          duplicate = true;
          message_id = i.message_id;
          message_key = message_key a.c.id_namespace e.conversation_id e.provider_message_id;
          status = i.status;
        },
        rw (c, a.valid, a.tenant, route, a.watched, allowed, known) refl,
        refl,
      )

  -- Once an event has been accepted (on a conversation that is not ignored), the same event, redelivered
  -- at any later time after any other events, is accepted as a duplicate and leaves the store as it is.
  pub redelivery_changes_nothing :
      (clock clock' : Clock) (ids ids' : Ids) (channel : String) (e : Event) (db : Db)
      (r : Received) (db' : Db) (ds : List Delivery)
      → intake clock o ids channel e db ≡ ok (r, db')
      → r.status ≢ "ignored"
      → (r' : Received) × (intake clock' o ids' channel e (run o db' ds) ≡ ok (r', run o db' ds))
        × (r'.duplicate ≡ true)
  redelivery_changes_nothing clock clock' ids ids' channel e db r db' ds h watched =
      elim (intake-Accepted o clock ids channel e db r db' h) [
        | inl (ignored, _) ↦ absurd (watched ignored)
        | inr a ↦
            let (i, known) = recorded clock ids channel e db r db' a in
            let later = run-Kept o db' ds in
            let (i', known') = later.events (dedupe_key o a.c (with_origin e)) i known in
            again clock ids ids' channel e db r db' (run o db' ds) clock' a i'
              (Kept-trans db db' (run o db' ds) (intake-Kept o clock ids channel e db r db' h)
                later)
              known'
      ]
