-- ===== src/Outbox/Safety.antt =====
-- core/dispatch.go with core/channel.go: the terms on which a draft is sent.
use memgov.Base.{
  true_ne_false, ℕ, ◌≡◌, ◌≢◌, refl, sym, ap, ◌∙◌, String, Bool, true, false, some, [], ◌∷◌, ok,
  find_row, contains, Clock, inl, inr, Bool-cases, Option-cases,
}
use memgov.Base.Table.{find_row-update}
use memgov.Schema.{Db}
use memgov.Schema.Channels.{Channel, Route}
use memgov.Schema.Drafts.{Draft}
use memgov.Channel.{read_channel, route_for}
use memgov.Channel.Routes.{RouteInput, update_route, is_pending_on, mark_stale}
use memgov.Channel.Routes.Stale.{update_route-inv, mark_stale-state, mark_stale-message, stale-idle}
use memgov.Outbox.{TaskView, redact_draft}
use memgov.Outbox.Dispatch.{authorize_dispatch, is_row, task_current}
use memgov.Outbox.Dispatch.Results.{authorize_dispatch-inv}
use memgov.Outbox.Dispatch.Sendable.{IsSendable, preview-IsSendable}

module _ (tasks : TaskView) where
  -- When a dispatch is authorized, the expected digest is the display digest of the stored draft,
  -- and at that moment: the conversation has an active route, of the draft's route version and
  -- with a policy that is not draft_only; the channel's send capability is verified; the draft
  -- is in state draft or ready, cites nothing and has at most 4000 characters; and a task that it
  -- reports on still admits it.
  pub dispatch_checks_everything :
      (clock : Clock) (attempt_id id expected : String) (db : Db) (sent : Draft) (db' : Db)
      → authorize_dispatch tasks clock attempt_id id expected db ≡ ok (sent, db')
      → (d : Draft) × (c : Channel) × (current : Bool) × (find_row (is_row id) db.outbox ≡ some d)
        × (expected ≡ d.display_digest)
        × (read_channel db d.channel_id ≡ ok c)
        × (task_current tasks db (redact_draft tasks db d) ≡ ok current)
        × IsSendable
            (route_for db d.channel_id d.conversation_id)
            c
            (redact_draft tasks db d)
            current
  dispatch_checks_everything clock attempt_id id expected db sent db' h =
      let (p, shown, bound, sendable, _, _) =
        authorize_dispatch-inv tasks clock attempt_id id expected db sent db' h in
      let (d, c, b, found, _, digest, channel, current, all) =
        preview-IsSendable tasks db id p shown sendable in
      (d, c, b, found, bound ∙ digest, channel, current, all)

module _ (json_valid : String → Bool) (itoa : ℕ → String) where
  stale-found :
      (clock : Clock) (id : String) (expected : ℕ) (input : RouteInput) (reason : String) (db : Db)
      (r : Route) (db' : Db)
      → update_route json_valid itoa clock id expected input reason db ≡ ok (r, db')
      → (key : String) (d : Draft) → find_row (is_row key) db'.outbox ≡ some d
      → d.route_id ≡ id
      → contains ("draft" ∷ "ready" ∷ []) d.state ≡ false
  stale-found clock id expected input reason db r db' h key d found own =
      let (_, _, _, _, e) =
        update_route-inv json_valid itoa clock id expected input reason db r db' h in
      let f = mark_stale itoa clock r.version in
      let found' =
        sym found
        ∙ ap (λ (x : Db). find_row (is_row key) x.outbox) e
        ∙ find_row-update (is_row key) (is_pending_on id) f db.outbox
            (λ x. rw ((mark_stale-message itoa clock r.version x).0)) in
      elim (Option-cases (find_row (is_row key) db.outbox)) [
        | inl n ↦ absurd (let q = rw n at found' in cc)
        | inr (o, k) ↦ elim (Bool-cases (is_pending_on id o)) [
          | inl pending ↦
              let q : some d ≡ some (f o) = rw (k, pending) at found' in
              let same : d ≡ f o = cc q in
              rw same (rw (mark_stale-state itoa clock r.version o) refl)
          | inr idle ↦
              let q : some d ≡ some o = rw (k, idle) at found' in
              let same : d ≡ o = cc q in rw same (stale-idle id o idle (rw same at own))
        ]
      ]

  -- After a route has been changed, no draft that was made for the route can be sent any more:
  -- whatever digest is expected, its dispatch is refused.
  pub route_change_stops_drafts :
      (tasks : TaskView) (clock later : Clock) (id : String) (expected : ℕ) (input : RouteInput)
      (reason : String) (db : Db) (r : Route) (db' : Db) (key : String) (d : Draft)
      (attempt_id digest : String) (result : Draft × Db)
      → update_route json_valid itoa clock id expected input reason db ≡ ok (r, db')
      → find_row (is_row key) db'.outbox ≡ some d
      → d.route_id ≡ id
      → authorize_dispatch tasks later attempt_id key digest db' ≢ ok result
  unfolding redact_draft
  route_change_stops_drafts tasks clock later id expected input reason db r db' key d attempt_id
        digest (sent, db'') h found own sends =
      let idle = stale-found clock id expected input reason db r db' h key d found own in
      let (o, _, _, found', _, _, _, all) =
        dispatch_checks_everything tasks later attempt_id key digest db' sent db'' sends in
      let here : some d ≡ some o = sym found ∙ found' in
      let same : d ≡ o = cc here in
      let pending : contains ("draft" ∷ "ready" ∷ []) o.state ≡ true = all.pending in
      true_ne_false (sym pending ∙ (rw same at idle))
