-- ===== src/Outbox/History.antt =====
-- The outbox over any history of calls: how often a draft is handed to the platform.
use memgov.Base.{
  ℕ, ◌≤◌, ◌≡◌, refl, sym, ap, subst, String, Bool, List, [], ◌∷◌, ok, arith, Clock, count_rows, inl,
  inr, after, after-elim, count_rows-found,
}
use memgov.Schema.{Db}
use memgov.Schema.Channels.{Route}
use memgov.Schema.Drafts.{Draft}
use memgov.Channel.Routes.{RouteInput, update_route}
use memgov.Channel.Routes.Stale.{update_route-inv, mark_stale-state, mark_stale-message}
use memgov.Outbox.{TaskView, Json}
use memgov.Outbox.Drafts.{DraftInput, Drafted, create_draft}
use memgov.Outbox.Drafts.Results.{create_draft-Inserted}
use memgov.Outbox.Dispatch.{
  authorize_dispatch, record_delivery, cancel_draft, reconcile, begin_delivery, finish_delivery,
  is_row, is_in, is_pending, mark_sending, is_attempt_of,
}
use memgov.Outbox.Dispatch.Results.{
  authorize_dispatch-inv, begin_delivery-inv, authorize-Sends, begin-Sends,
}
use memgov.Outbox.Dispatch.Marked.{
  cancel_draft-Marked, record_delivery-Marked, reconcile-Marked, finish_delivery-Marked,
}
use memgov.Outbox.Dispatch.Sendable.{preview-pending}
use memgov.Outbox.Redaction.{redact_drafts, redact_drafts-WellFormed}
use memgov.Outbox.Once.{
  WellFormed, SameDrafts-SameCount, Marked-WellFormed, Sends-WellFormed, Added-WellFormed,
  handed_le_rows,
}

pub data Call : Type 0 where
  create : Clock → String → DraftInput → Call
  dispatch : Clock → String → String → String → Call
  deliver : Clock → String → String → String → String → Call
  cancel : Clock → String → String → Call
  conclude : Clock → String → String → String → String → Call
  begin : Clock → String → String → Call
  finish : Clock → String → ℕ → String → String → Call
  change_route : Clock → String → ℕ → RouteInput → String → Call
  redact : (String → String) → Call

module _ (digest : List (String × Json) → String) (tasks : TaskView) (json_valid : String → Bool)
    (itoa : ℕ → String) where
  abbrev pub step : Db → Call → Db
  step db (create clock id input) = after db (create_draft digest tasks clock id input db)
  step db (dispatch clock attempt_id id expected) =
      after db (authorize_dispatch tasks clock attempt_id id expected db)
  step db (deliver clock id state receipt detail) =
      after db (record_delivery tasks clock id state receipt detail db)
  step db (cancel clock id reason) = after db (cancel_draft tasks clock id reason db)
  step db (conclude clock id outcome receipt evidence) =
      after db (reconcile tasks clock id outcome receipt evidence db)
  step db (begin clock attempt_id id) = after db (begin_delivery tasks clock attempt_id id db)
  step db (finish clock id attempt state receipt) =
      after db (finish_delivery clock id attempt state receipt db)
  step db (change_route clock id expected input reason) =
      after db (update_route json_valid itoa clock id expected input reason db)
  step db (redact f) = redact_drafts f db

  unfoldable pub run : Db → List Call → Db
  run db [] = db
  run db (c ∷ cs) = run (step db c) cs

  create-WellFormed :
      (clock : Clock) (id : String) (input : DraftInput) (db : Db) (r : Drafted) (db' : Db)
      → create_draft digest tasks clock id input db ≡ ok (r, db')
      → WellFormed db
      → WellFormed db'
  create-WellFormed clock id input db r db' h w =
      elim (create_draft-Inserted digest tasks clock id input db r db' h) [
        | inl (d, same, _, _) ↦ subst WellFormed (sym same) w
        | inr (d, key, _, fresh, e, _, _) ↦
            Added-WellFormed db db' d
              (subst (λ x. count_rows (is_row x) db.outbox ≡ 0) (sym key) fresh)
              (ap (λ (x : Db). x.outbox) e)
              (λ x. ap (λ (y : Db). count_rows (is_attempt_of x) y.delivery_attempts) e) w
      ]

  dispatch-WellFormed :
      (clock : Clock) (attempt_id id expected : String) (db : Db) (d : Draft) (db' : Db)
      → authorize_dispatch tasks clock attempt_id id expected db ≡ ok (d, db')
      → WellFormed db
      → WellFormed db'
  dispatch-WellFormed clock attempt_id id expected db d db' h w =
      let (p, shown, _, sendable, e, _) =
        authorize_dispatch-inv tasks clock attempt_id id expected db d db' h in
      let (r, found, pending) = preview-pending tasks db id p shown sendable in
      Sends-WellFormed db db' id (is_pending id) (mark_sending clock) (authorize-Sends clock id) _
        refl (ap (λ (x : Db). x.outbox) e) (ap (λ (x : Db). x.delivery_attempts) e)
        (count_rows-found (is_row id) (is_pending id) (mark_sending clock) db.outbox r found
          pending)
        w

  begin-WellFormed :
      (clock : Clock) (attempt_id id : String) (db : Db) (n : ℕ) (db' : Db)
      → begin_delivery tasks clock attempt_id id db ≡ ok (n, db')
      → WellFormed db
      → WellFormed db'
  begin-WellFormed clock attempt_id id db n db' h w =
      let (one, outbox, (a, own, attempts)) =
        begin_delivery-inv tasks clock attempt_id id db n db' h in
      Sends-WellFormed db db' id (is_in "ready" id) _ (begin-Sends clock id) a own outbox attempts
        (rw one (omega arith)) w

  route-WellFormed :
      (clock : Clock) (id : String) (expected : ℕ) (input : RouteInput) (reason : String) (db : Db)
      (r : Route) (db' : Db)
      → update_route json_valid itoa clock id expected input reason db ≡ ok (r, db')
      → WellFormed db
      → WellFormed db'
  route-WellFormed clock id expected input reason db r db' h w =
      let (o, _, _, _, e) =
        update_route-inv json_valid itoa clock id expected input reason db r db' h in
      Marked-WellFormed db db' w
        (
          _,
          _,
          λ d. (mark_stale-message itoa clock r.version d).0,
          λ d. rw (mark_stale-state itoa clock r.version d) refl,
          ap (λ (x : Db). x.outbox) e,
        )
        (λ x. ap (λ (y : Db). count_rows (is_attempt_of x) y.delivery_attempts) e)

  step-WellFormed : (db : Db) (c : Call) → WellFormed db → WellFormed (step db c)
  step-WellFormed db (create clock id input) w =
      after-elim WellFormed db (create_draft digest tasks clock id input db) w
        λ r db' h. create-WellFormed clock id input db r db' h w
  step-WellFormed db (dispatch clock attempt_id id expected) w =
      after-elim WellFormed db (authorize_dispatch tasks clock attempt_id id expected db) w
        λ r db' h. dispatch-WellFormed clock attempt_id id expected db r db' h w
  step-WellFormed db (deliver clock id state receipt detail) w =
      after-elim WellFormed db (record_delivery tasks clock id state receipt detail db) w λ r db' h.
        let (m, s) = record_delivery-Marked tasks clock id state receipt detail db r db' h in
        Marked-WellFormed db db' w m (SameDrafts-SameCount db db' s)
  step-WellFormed db (cancel clock id reason) w =
      after-elim WellFormed db (cancel_draft tasks clock id reason db) w λ r db' h.
        let (m, s) = cancel_draft-Marked tasks clock id reason db r db' h in
        Marked-WellFormed db db' w m (λ x. ap (λ t. count_rows (is_attempt_of x) t) s)
  step-WellFormed db (conclude clock id outcome receipt evidence) w =
      after-elim WellFormed db (reconcile tasks clock id outcome receipt evidence db) w λ r db' h.
        let (m, s) = reconcile-Marked tasks clock id outcome receipt evidence db r db' h in
        Marked-WellFormed db db' w m (SameDrafts-SameCount db db' s)
  step-WellFormed db (begin clock attempt_id id) w =
      after-elim WellFormed db (begin_delivery tasks clock attempt_id id db) w
        λ r db' h. begin-WellFormed clock attempt_id id db r db' h w
  step-WellFormed db (finish clock id attempt state receipt) w =
      after-elim WellFormed db (finish_delivery clock id attempt state receipt db) w λ r db' h.
        let (m, s) = finish_delivery-Marked clock id attempt state receipt db r db' h in
        Marked-WellFormed db db' w m (SameDrafts-SameCount db db' s)
  step-WellFormed db (change_route clock id expected input reason) w =
      after-elim WellFormed db (update_route json_valid itoa clock id expected input reason db) w
        λ r db' h. route-WellFormed clock id expected input reason db r db' h w
  step-WellFormed db (redact f) w = redact_drafts-WellFormed f db w

  run-WellFormed : (db : Db) (cs : List Call) → WellFormed db → WellFormed (run db cs)
  unfolding run
  run-WellFormed db [] w = w
  run-WellFormed db (c ∷ cs) w = run-WellFormed (step db c) cs (step-WellFormed db c w)

  -- From a store in which ids of drafts are unique and no draft has more rows in
  -- `delivery_attempts` than rows that have left the states `draft` and `ready` (so that a draft
  -- which was not sent yet has no attempt; the empty store is one), over any sequence of the outbox
  -- calls, route changes and redactions of stored drafts, a draft is handed to the platform at most
  -- once: it has at most one attempt.
  pub at_most_one_attempt :
      (db : Db) (calls : List Call) (id : String)
      → WellFormed db
      → count_rows (is_attempt_of id) (run db calls).delivery_attempts ≤ 1
  at_most_one_attempt db calls id w =
      let (rows, attempts) = run-WellFormed db calls w id in
      let handed = handed_le_rows id (run db calls).outbox in omega arith
