-- ===== src/Intake/Applied.antt =====
-- core/message.go: what applyMessage and applyRecall leave as it was, and which messages are recalled
-- after them.
use memgov.Base.{
  ◌≤◌, ◌≡◌, refl, sym, ap, ◌∙◌, subst, String, false, none, some, List, ok, Clock, find_row,
  count_rows, update_rows, str_eq, eq_iff, Bool-cases, Option-cases, inl, inr, ◌⊎◌, >>=-elim,
  ok_inj,
}
use memgov.Schema.{Db}
use memgov.Schema.Channels.{Channel, Route}
use memgov.Schema.Drafts.{Sender}
use memgov.Schema.People.{Message}
use memgov.Schema.Inbox.{Recall}
use memgov.Identity.{principal_for, is_verified_alias}
use memgov.Intake.{Event, Received, Contents}
use memgov.Intake.Store.{Ids, has_id, is_recall, find_or_add}
use memgov.Intake.Apply.{
  revise, settle_availability, mark_recalled, recalled_row, apply_message, observe, resolve, relate,
}
use memgov.Intake.Touched.{
  Touched, rest, IsSettled, Touched-trans, found-Touched, Touched-IsSettled, appended-IsSettled,
  marked-Touched, marked-IsSettled,
}
use memgov.Intake.Results.{Known, find_or_add-Known, see_again-Touched, revise-Revised}
use memgov.Intake.People.{principal_for-Met}

-- A message is settled where its recall is not known, or it is marked.
settle_availability-cases :
    (clock : Clock) (message key : String) (r : Received) (db : Db)
    → ((find_row (is_recall key) db.message_recalls ≡ none)
        × ((settle_availability clock message key r db).1 ≡ db))
      ⊎ ((known : Recall) × ((settle_availability clock message key r db).1
            ≡ mark_recalled clock message known.recalled_at db))
unfolding settle_availability
settle_availability-cases clock message key r db =
    elim (Option-cases (find_row (is_recall key) db.message_recalls)) [
      | inl e ↦ inl (e, rw (e, settle_availability) refl)
      | inr (known, e) ↦ inr (known, rw (e, settle_availability) refl)
    ]

-- What a message that was taken in leaves as it was.
pub record Applied (db db' : Db) : Type 0 where
  pub channels : db'.channels ≡ db.channels
  pub routes : db'.channel_routes ≡ db.channel_routes
  pub recalls : db'.message_recalls ≡ db.message_recalls
  pub events : db'.inbox_events ≡ db.inbox_events
  pub more :
      (tenant : String) (s : Sender)
      → count_rows (is_verified_alias tenant s) db.identity_aliases
        ≤ count_rows (is_verified_alias tenant s) db'.identity_aliases
  pub settled :
      (key : String)
      → IsSettled key db.message_recalls db.messages
      → IsSettled key db'.message_recalls db'.messages

-- Settling, after the message under the key has been found or added and touched.
module _ (clock : Clock) (key : String) (r : Received) (s u : List Message) (m : Message)
    (known : Known key s u m) (old : Db) (moved : Touched u old.messages) where
  abbrev end_ : Db
  end_ = (settle_availability clock m.id key r old).1

  end-Touched : Touched old.messages end_.messages
  unfolding mark_recalled
  end-Touched = elim (settle_availability-cases clock m.id key r old) [
    | inl (_, e) ↦ subst (λ (x : Db). Touched old.messages x.messages) (sym e) rest
    | inr (k, e) ↦
        subst (λ (x : Db). Touched old.messages x.messages) (sym e)
          (marked-Touched clock m.id k.recalled_at old.messages)
  ]

  end-recalls : end_.message_recalls ≡ old.message_recalls
  unfolding mark_recalled
  end-recalls = elim (settle_availability-cases clock m.id key r old) [
    | inl (_, e) ↦ ap (λ (x : Db). x.message_recalls) e
    | inr (k, e) ↦ ap (λ (x : Db). x.message_recalls) e
  ]

  own-IsSettled : IsSettled key old.message_recalls end_.messages
  unfolding mark_recalled
  own-IsSettled = elim (settle_availability-cases clock m.id key r old) [
    | inl (none_known, _) ↦ λ a b h _. absurd (let c : none ≡ some a = sym none_known ∙ h in cc)
    | inr (k, e) ↦
        let (v, found, same) = found-Touched key u old.messages m moved known.found in
        subst (λ (x : Db). IsSettled key old.message_recalls x.messages) (sym e)
          (subst
            (λ id.
              IsSettled key old.message_recalls
                (update_rows (has_id id) (recalled_row clock k.recalled_at) old.messages))
            same
            (marked-IsSettled clock key k.recalled_at old.message_recalls old.messages v found))
  ]

  other-IsSettled :
      (k : String)
      → str_eq key k ≡ false
      → IsSettled k old.message_recalls s
      → IsSettled k old.message_recalls end_.messages
  other-IsSettled k other w =
      let at_u : IsSettled k old.message_recalls u = elim known.shape [
        | inl e ↦ subst (IsSettled k old.message_recalls) (sym e) w
        | inr (own, e) ↦
            subst (IsSettled k old.message_recalls) (sym e)
              (appended-IsSettled k old.message_recalls s m (rw own other) w)
      ] in
      Touched-IsSettled k old.message_recalls u end_.messages
        (Touched-trans u old.messages end_.messages moved end-Touched) at_u

  pub all-IsSettled :
      (k : String)
      → IsSettled k old.message_recalls s
      → IsSettled k end_.message_recalls end_.messages
  all-IsSettled k w =
      subst (λ t. IsSettled k t end_.messages) (sym end-recalls)
        (elim (Bool-cases (str_eq key k)) [
          | inl same ↦
              subst (λ x. IsSettled x old.message_recalls end_.messages) ((eq_iff key k).0 same)
                own-IsSettled
          | inr other ↦ other-IsSettled k other w
        ])

  pub end-same :
      (end_.channels ≡ old.channels)
      × (end_.channel_routes ≡ old.channel_routes)
      × (end_.inbox_events ≡ old.inbox_events)
      × (end_.identity_aliases ≡ old.identity_aliases)
      × (end_.message_recalls ≡ old.message_recalls)
  unfolding mark_recalled
  end-same = elim (settle_availability-cases clock m.id key r old) [
    | inl (_, e) ↦ (
      ap (λ (x : Db). x.channels) e,
      ap (λ (x : Db). x.channel_routes) e,
      ap (λ (x : Db). x.inbox_events) e,
      ap (λ (x : Db). x.identity_aliases) e,
      ap (λ (x : Db). x.message_recalls) e,
    )
    | inr (k, e) ↦ (
      ap (λ (x : Db). x.channels) e,
      ap (λ (x : Db). x.channel_routes) e,
      ap (λ (x : Db). x.inbox_events) e,
      ap (λ (x : Db). x.identity_aliases) e,
      ap (λ (x : Db). x.message_recalls) e,
    )
  ]

  pub end-Applied :
      (db : Db)
      → s ≡ db.messages
      → old.channels ≡ db.channels
      → old.channel_routes ≡ db.channel_routes
      → old.message_recalls ≡ db.message_recalls
      → old.inbox_events ≡ db.inbox_events
      → ((tenant : String) (p : Sender)
          → count_rows (is_verified_alias tenant p) db.identity_aliases
            ≤ count_rows (is_verified_alias tenant p) old.identity_aliases)
      → Applied db end_
  end-Applied db messages channels routes recalls events more =
      let (a, b, c, d, e) = end-same in
      record {
        channels = a ∙ channels;
        routes = b ∙ routes;
        recalls = e ∙ recalls;
        events = c ∙ events;
        more = λ t p. rw d (more t p);
        settled = λ k w. all-IsSettled k (rw (messages, recalls) w);
      }

pub apply_message-Applied :
    (clock : Clock) (o : Contents) (ids : Ids) (c : Channel) (route : Route) (e : Event)
    (key : String) (out : Received) (db : Db) (r : Received) (db' : Db)
    → apply_message clock o ids c route e key out db ≡ ok (r, db')
    → Applied db db'
unfolding apply_message
apply_message-Applied clock o ids c route e key out db r db' h =
    >>=-elim (principal_for clock ids.principal c.tenant e.sender db) _ h λ who p h.
      >>=-elim (find_or_add clock ids c route e key (who.0) who.1.messages) _ h λ found q h.
        >>=-elim (revise clock o c route e found.0.id found.0.current_revision _) _ h λ revised a h.
          let met = principal_for-Met clock ids.principal c.tenant e.sender db (who.0) (who.1) p in
          let stored =
            revise-Revised clock o c route e found.0.id found.0.current_revision _ (revised.0)
              (revised.1) a in
          let moved : Touched (found.1) revised.1.messages =
            subst (λ (x : Db). Touched (found.1) x.messages) (sym stored.same)
              (Touched-trans _ _ _ (see_again-Touched clock c route e (who.0) found.0.id (found.1))
                stored.touched) in
          let old = record revised.1 {
            message_observations =
                observe clock c e found.0.id revised.0.0 out.inbox_event_id
                  revised.1.message_observations;
            message_relations = resolve clock e.provider_message_id found.0.id (
                relate clock c e found.0.id revised.1.messages e.relations
                  revised.1.message_relations);
          } in
          subst (Applied db) (ap (λ (x : Received × Db). x.1) (ok_inj h)) (
            end-Applied clock key _ who.1.messages (found.1) (found.0)
              (find_or_add-Known clock ids c route e key (who.0) who.1.messages (found.0) (found.1)
                q)
              old moved db (ap (λ (x : Db). x.messages) met.same)
              (ap (λ (x : Db). x.channels) stored.same ∙ ap (λ (x : Db). x.channels) met.same)
              (ap (λ (x : Db). x.channel_routes) stored.same
                ∙ ap (λ (x : Db). x.channel_routes) met.same)
              (ap (λ (x : Db). x.message_recalls) stored.same
                ∙ ap (λ (x : Db). x.message_recalls) met.same)
              (ap (λ (x : Db). x.inbox_events) stored.same
                ∙ ap (λ (x : Db). x.inbox_events) met.same)
              (λ t s.
                subst
                  (λ rows.
                    count_rows (is_verified_alias t s) db.identity_aliases
                    ≤ count_rows (is_verified_alias t s) rows)
                  (sym (
                    ap (λ (x : Db). x.identity_aliases) stored.same
                    ∙ ap (λ (x : Db). x.identity_aliases) met.same))
                  (met.more t s)))
