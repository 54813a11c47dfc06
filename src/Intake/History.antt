-- ===== src/Intake/History.antt =====
-- core/message.go: events that come in one after another.
pub mod Recalled
pub mod Again
mod Tests
use memgov.Base.{
  ℕ, ◌≡◌, ◌≢◌, refl, sym, ap, ◌∙◌, subst, String, Bool, true, false, not, ◌&&◌, ◌||◌, Option, none,
  some, List, [], ◌∷◌, ◌++◌, Result, ok, Clock, now, find_row, has_row, str_eq, Bool-cases,
  Option-cases, inl, inr, ◌⊎◌, >>=-elim, fail_if-elim, or_fail-elim, ok-state, ok_inj, internal,
  denied, invalid_input, after, after-elim, update_rows, if◌then◌else◌, arith,
}
use memgov.Schema.{Db}
use memgov.Schema.Channels.{Channel, Route}
use memgov.Schema.People.{Message}
use memgov.Schema.Inbox.{InboxEvent}
use memgov.Schema.Windows.{Watermark}
use memgov.Channel.{read_channel, route_for}
use memgov.Intake.{Event, Received, Contents, recall, message_key, check_event, dedupe_key}
use memgov.Intake.Store.{Ids}
use memgov.Intake.Apply.{apply_message, apply_recall, mark_event}
use memgov.Intake.Receive.{
  intake, take_in, new_event, has_dedupe, correct_history_time, correct_time, is_late_by_8_hours,
  is_same_message, nothing_yet, may_import, with_origin,
}
use memgov.Intake.Touched.{Touched, rest, touch, Keeps, Touched-IsSettled}
use memgov.Intake.Applied.{apply_message-Applied}
use memgov.Intake.Kept.{
  Kept, Kept-refl, Kept-trans, Applied-Kept, events-Kept, appended-Kept, apply_recall-Kept,
}

module _ (clock : Clock) (c : Channel) (e : Event) (id stored : String) (db : Db) where
  corrected-Kept : Kept db (correct_time clock c e id stored db)
  unfolding correct_time
  corrected-Kept = record {
    channels = refl;
    routes = refl;
    more = λ t s. omega arith;
    recalls = λ k r h. (r, h);
    events = λ k i h. (i, h);
    settled = λ k w.
        Touched-IsSettled k db.message_recalls db.messages _
          (touch (λ (m : Message). str_eq m.id id && str_eq m.sent_at stored)
            (λ m. record m { sent_at = e.sent_at; updated_at = now clock })
            (record { key = λ m. refl; id = λ m. refl; recalled = λ m h. h }) rest)
          w;
  }

correct_history_time-Kept :
    (clock : Clock) (o : Contents) (c : Channel) (e : Event) (r : Received) (db db' : Db)
    → correct_history_time clock o c e r db ≡ ok db'
    → Kept db db'
unfolding correct_history_time
correct_history_time-Kept clock o c e r db db' h =
    elim (Bool-cases (
      not (str_eq c.kind "dws_personal")
      || not (str_eq e.adapter "dws")
      || not (str_eq e.parse_version "dws-history/2")
      || not (str_eq e.origin "history")
      || str_eq e.history_previous_sent_at ""
      || str_eq r.message_id ""
      || r.new_revision)) [
        | inl k ↦ Kept-refl db db' (sym (ok_inj (rw k at h)))
        | inr k ↦ fail_if-elim (not (is_late_by_8_hours o e)) invalid_input _ (rw k at h) λ _ h.
            elim (Option-cases (find_row (is_same_message o db c e r.message_id) db.messages)) [
              | inl n ↦ Kept-refl db db' (sym (ok_inj (rw n at h)))
              | inr (m, n) ↦ elim (Bool-cases (str_eq m.sent_at e.history_previous_sent_at)) [
                | inl late ↦
                    subst (Kept db) (ok_inj (rw late at (rw n at h)))
                      (corrected-Kept clock c e r.message_id m.sent_at db)
                | inr right ↦ Kept-refl db db' (sym (ok_inj (rw right at (rw n at h))))
              ]
            ]
      ]

module _ (o : Contents) where
  pub take_in-Kept :
      (clock : Clock) (ids : Ids) (c : Channel) (route : Route) (e : Event) (dedupe : String)
      (db : Db) (r : Received) (db' : Db)
      → take_in clock o ids c route e dedupe db ≡ ok (r, db')
      → Kept
          (record db { inbox_events = db.inbox_events ++ new_event clock ids c e dedupe ∷ [] })
          db'
  unfolding take_in mark_event
  take_in-Kept clock ids c route e dedupe db r db' h =
      fail_if-elim (has_row (λ (i : InboxEvent). str_eq i.id ids.event) db.inbox_events) internal _
        h
        λ _ h. elim (Bool-cases (str_eq e.kind recall)) [
          | inl k ↦
              subst (Kept _) (ap (λ (x : Received × Db). x.1) (ok_inj (rw k at h)))
                (apply_recall-Kept clock e _ _ _)
          | inr k ↦
              >>=-elim (apply_message clock o ids c route _ _ _ _) _ (rw k at h) λ applied a h.
                >>=-elim (correct_history_time clock o c _ (applied.0) _) _ h λ corrected b h.
                  subst (Kept _) (sym (ok-state h)) (
                    Kept-trans _ _ _
                      (Applied-Kept _ _ (
                        apply_message-Applied clock o ids c route _ _ _ _ (applied.0) (applied.1)
                          a))
                      (Kept-trans _ _ _
                        (events-Kept (λ (i : InboxEvent). str_eq i.id ids.event)
                          (λ i. record i { status = "applied"; message_id = applied.0.message_id })
                          (applied.1) (λ i. refl))
                        (correct_history_time-Kept clock o c _ (applied.0) _ corrected b)))
        ]

  -- An event that was accepted: what was checked, and what came of it.
  pub record Accepted (clock : Clock) (ids : Ids) (channel : String) (e : Event) (db : Db)
      (r : Received) (db' : Db) : Type 0 where
    pub c : Channel
    pub route : Route
    pub found : read_channel db channel ≡ ok c
    pub valid : check_event o e ≡ ok tt
    pub tenant : (not (str_eq e.tenant "") && not (str_eq e.tenant c.tenant)) ≡ false
    pub bound : route_for db c.id e.conversation_id ≡ ok route
    pub watched : str_eq route.mode "ignore" ≡ false
    pub imported : may_import c (with_origin e) db ≡ true
    pub outcome :
        ((i : InboxEvent) × (find_row (has_dedupe (dedupe_key o c (with_origin e))) db.inbox_events
            ≡ some i)
          × (db' ≡ db))
        ⊎ ((find_row (has_dedupe (dedupe_key o c (with_origin e))) db.inbox_events ≡ none)
            × (take_in clock o ids c route (with_origin e) (dedupe_key o c (with_origin e)) db
                ≡ ok (r, db')))

  pub intake-Accepted :
      (clock : Clock) (ids : Ids) (channel : String) (e : Event) (db : Db) (r : Received) (db' : Db)
      → intake clock o ids channel e db ≡ ok (r, db')
      → ((r.status ≡ "ignored") × (db' ≡ db)) ⊎ Accepted clock ids channel e db r db'
  unfolding intake
  intake-Accepted clock ids channel e db r db' h =
      >>=-elim (read_channel db channel) _ h λ c found h.
        >>=-elim (check_event o e) _ h λ _ valid h.
          fail_if-elim (not (str_eq e.tenant "") && not (str_eq e.tenant c.tenant)) denied _ h
            λ tenant h. >>=-elim (route_for db c.id e.conversation_id) _ h λ route bound h.
              elim (Bool-cases (str_eq route.mode "ignore")) [
                | inl k ↦
                    let same : ok (record nothing_yet { channel_id = c.id; status = "ignored" }, db)
                        ≡ ok (r, db') =
                      rw k at h in
                    inl (sym (ap (λ (x : Received × Db). x.0.status) (ok_inj same)), ok-state same)
                | inr k ↦
                    fail_if-elim (not (may_import c (with_origin e) db)) denied _ (rw k at h)
                      λ imported h. inr (record {
                        c = c;
                        route = route;
                        found = found;
                        valid = valid;
                        tenant = tenant;
                        bound = bound;
                        watched = k;
                        imported = ground arith;
                        outcome =
                            elim (Option-cases (
                              find_row (has_dedupe (dedupe_key o c (with_origin e)))
                                db.inbox_events)) [
                                  | inl n ↦ inr (n, rw n at h)
                                  | inr (i, n) ↦ inl (i, n, ok-state (rw n at h))
                                ];
                      })
              ]

  pub intake-Kept :
      (clock : Clock) (ids : Ids) (channel : String) (e : Event) (db : Db) (r : Received) (db' : Db)
      → intake clock o ids channel e db ≡ ok (r, db')
      → Kept db db'
  intake-Kept clock ids channel e db r db' h =
      elim (intake-Accepted clock ids channel e db r db' h) [
        | inl (_, same) ↦ Kept-refl db db' same
        | inr a ↦ elim a.outcome [
          | inl (_, _, same) ↦ Kept-refl db db' same
          | inr (_, taken) ↦
              Kept-trans _ _ _ (appended-Kept db (new_event clock ids a.c (with_origin e) _))
                (take_in-Kept clock ids a.c a.route (with_origin e) _ db r db' taken)
        ]
      ]

-- One event that an adapter hands in.
pub record Delivery : Type 0 where
  pub clock : Clock
  pub ids : Ids
  pub channel : String
  pub event : Event

module _ (o : Contents) where
  pub step : Db → Delivery → Db
  step db d = after db (intake d.clock o d.ids d.channel d.event db)

  unfoldable pub run : Db → List Delivery → Db
  run db [] = db
  run db (d ∷ ds) = run (step db d) ds

  pub run-Kept : (db : Db) (ds : List Delivery) → Kept db (run db ds)
  unfolding run step
  run-Kept db [] = Kept-refl db db refl
  run-Kept db (d ∷ ds) =
      Kept-trans db (step db d) _
        (after-elim (Kept db) db (intake d.clock o d.ids d.channel d.event db)
          (Kept-refl db db refl)
          λ r db' h. intake-Kept o d.clock d.ids d.channel d.event db r db' h)
        (run-Kept (step db d) ds)
