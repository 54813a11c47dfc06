-- ===== src/Outbox/Dispatch/Results.antt =====
-- core/dispatch.go, core/runtime.go: what a call that succeeds has found, and what it has written.
use memgov.Base.{
  ℕ, ◌+◌, ◌≡◌, refl, ap, String, Bool, true, some, [], ◌∷◌, ◌++◌, ok, find_row, internal, or_fail,
  str_eq, eq_iff, arith, contains, Clock, count_rows, length, update_rows, >>=-eq-ok,
}
use memgov.Schema.{Db}
use memgov.Schema.Channels.{Channel}
use memgov.Channel.{read_channel, route_for}
use memgov.Schema.Drafts.{Draft, Attempt}
use memgov.Outbox.{TaskView, read_draft, redact_draft}
use memgov.Outbox.Dispatch.{
  preview_draft, authorize_dispatch, begin_delivery, is_row, is_in, is_pending, mark_sending,
  mark_begun, new_attempt, Preview, task_current, may_begin, max_attempt, attempts_for,
}
use memgov.Outbox.Checks.{all_passed, all_checks}

pub read_draft-inv :
    (tasks : TaskView) (db : Db) (id : String) (d : Draft)
    → read_draft tasks db id ≡ ok d
    → (r : Draft) × (find_row (λ d. str_eq d.id id) db.outbox ≡ some r)
      × (d ≡ redact_draft tasks db r)
unfolding read_draft
read_draft-inv tasks db id d h = ground arith

module _ (tasks : TaskView) where
  -- A sending is authorized on a preview that passes and that shows the expected digest.
  pub authorize_dispatch-inv :
      (clock : Clock) (attempt_id id expected : String) (db : Db) (d : Draft) (db' : Db)
      → authorize_dispatch tasks clock attempt_id id expected db ≡ ok (d, db')
      → (p : Preview) × (preview_draft tasks db id ≡ ok p)
        × (expected ≡ p.display_digest)
        × (p.sendable ≡ true)
        × (db' ≡ record db {
          outbox = update_rows (is_pending id) (mark_sending clock) db.outbox;
          delivery_attempts =
              db.delivery_attempts
              ++ new_attempt clock attempt_id id
                  (length p.attempts + 1)
                  p.draft.transport
                  p.draft.input_digest
                ∷ [];
        })
        × (d ≡ (let e = p.draft in record e { state = "sending" }))
  unfolding authorize_dispatch
  authorize_dispatch-inv clock attempt_id id expected db d db' h =
      let (p, e, k) = >>=-eq-ok (preview_draft tasks db id) _ h in
      ground (arith, eq_iff expected p.display_digest)

  pub preview_draft-inv :
      (db : Db) (id : String) (p : Preview)
      → preview_draft tasks db id ≡ ok p
      → (d : Draft) × (c : Channel) × (b : Bool) × (read_draft tasks db id ≡ ok d)
        × (read_channel db d.channel_id ≡ ok c)
        × (task_current tasks db d ≡ ok b)
        × (p.draft ≡ d)
        × (p.display_digest ≡ d.display_digest)
        × (p.sendable ≡ all_passed (all_checks (route_for db d.channel_id d.conversation_id) c d b))
  unfolding preview_draft
  preview_draft-inv db id p h =
      let (d, e, k) = >>=-eq-ok (read_draft tasks db id) _ h in
      let (c, e', k') = >>=-eq-ok (read_channel db d.channel_id) _ k in
      let (b, e'', k'') = >>=-eq-ok (task_current tasks db d) _ k' in
      let (q, q', q'') : (p.draft ≡ d)
          × (p.display_digest ≡ d.display_digest)
          × (p.sendable
              ≡ all_passed (all_checks (route_for db d.channel_id d.conversation_id) c d b)) =
        ground arith in
      (d, c, b, e, e', e'', q, q', q'')

  pub begin_delivery-inv :
      (clock : Clock) (attempt_id id : String) (db : Db) (n : ℕ) (db' : Db)
      → begin_delivery tasks clock attempt_id id db ≡ ok (n, db')
      → (count_rows (is_in "ready" id) db.outbox ≡ 1)
        × (db'.outbox ≡ update_rows (is_in "ready" id) (mark_begun clock) db.outbox)
        × ((a : Attempt) × (a.outbox_id ≡ id)
            × (db'.delivery_attempts ≡ db.delivery_attempts ++ a ∷ []))
  unfolding begin_delivery
  begin_delivery-inv clock attempt_id id db n db' h =
      let (d, e, k) = >>=-eq-ok (or_fail (find_row (is_row id) db.outbox) internal) _ h in
      let (u, e', k') = >>=-eq-ok (may_begin tasks db d) _ k in
      let a =
        new_attempt clock attempt_id id (max_attempt (attempts_for db id) + 1) d.transport "" in
      let (count, same) : (count_rows (is_in "ready" id) db.outbox ≡ 1)
          × (db' ≡ record db {
            outbox = update_rows (is_in "ready" id) (mark_begun clock) db.outbox;
            delivery_attempts = db.delivery_attempts ++ a ∷ [];
          }) =
        ground arith in
      (count, ap (λ (x : Db). x.outbox) same, (a, refl, ap (λ (x : Db). x.delivery_attempts) same))

-- How a row is handed over, by either way.
abbrev pub Sends : String → (Draft → Bool) → (Draft → Draft) → Type 0
Sends id q f =
    ((d : Draft) → q d ≡ true → (d.id ≡ id) × (contains ("draft" ∷ "ready" ∷ []) d.state ≡ true))
    × ((d : Draft) → (f d).id ≡ d.id)
    × ((d : Draft) → (f d).state ≡ "sending")

pub authorize-Sends : (clock : Clock) (id : String) → Sends id (is_pending id) (mark_sending clock)
unfolding is_pending mark_sending
authorize-Sends clock id = (λ d h. ground (arith, eq_iff d.id id), λ d. refl, λ d. refl)

pub begin-Sends : (clock : Clock) (id : String) → Sends id (is_in "ready" id) (mark_begun clock)
unfolding is_in mark_begun
begin-Sends clock id = (
  λ d h. ground (arith, eq_iff d.id id, eq_iff d.state "ready", eq_iff "ready" d.state),
  λ d. refl,
  λ d. refl,
)
