-- ===== src/Outbox/Dispatch/Refusals.antt =====
-- core/dispatch.go: what the errors of AuthorizeDispatch stand for.
use memgov.Base.{
  true_ne_false, ◌+◌, update_rows, if◌then◌else◌, ◌≡◌, ◌≢◌, refl, String, Bool, true, false, not,
  List, [], ◌∷◌, ◌++◌, Result, ok, err, length, ==_iff, str_eq, eq_iff, arith, ◌↔◌, inl, inr,
  find_row, some, sym, ◌∙◌, Bool-cases, Clock, invalid_input, conflict, denied,
}
use memgov.Schema.{Db}
use memgov.Channel.{read_channel, route_for}
use memgov.Outbox.{TaskView, redact_draft, read_draft}
use memgov.Schema.Channels.{Channel, Route}
use memgov.Schema.Drafts.{Draft}
use memgov.Outbox.Dispatch.Sendable.{IsSendable, all_passed-IsSendable}
use memgov.Outbox.Dispatch.{
  Preview, preview_draft, authorize_dispatch, is_pending, mark_sending, new_attempt, is_row,
  task_current, attempts_for,
}
use memgov.Outbox.Checks.{
  Check, check, all_passed, all_checks, draft_checks, policy_checks, route_check, task_checks,
  current_policy, is_verified,
}

append-passed :
    (xs ys : List Check)
    → all_passed xs ≡ true
    → all_passed ys ≡ true
    → all_passed (xs ++ ys) ≡ true
unfolding all_passed
append-passed [] ys h k = k
append-passed (x ∷ xs) ys h k = ground (arith, append-passed xs ys)

route_checks-passed :
    (route : Result Route) (c : Channel) (d : Draft) (b : Bool)
    → IsSendable route c d b
    → all_passed (route_check route d ∷ task_checks d.job_id b) ≡ true
unfolding all_passed route_check task_checks check
route_checks-passed route c d b s =
    let (r, e, same, _) = s.bound in
    rw e (ground (arith, s.task, eq_iff d.job_id "", (==_iff r.version d.route_version).1 same))

policy-passed :
    (route : Result Route) (c : Channel) (d : Draft) (b : Bool)
    → IsSendable route c d b
    → all_passed
        (policy_checks (current_policy route d) (is_verified c.capabilities.verified "send"))
      ≡ true
unfolding all_passed policy_checks current_policy check
policy-passed route c d b s =
    let (r, e, _, sends) = s.bound in
    rw (e, s.verified) (ground (arith, sends, eq_iff r.send_policy "draft_only"))

draft-passed :
    (route : Result Route) (c : Channel) (d : Draft) (b : Bool)
    → IsSendable route c d b
    → all_passed (draft_checks d) ≡ true
unfolding all_passed draft_checks check
draft-passed route c d b s = rw (s.pending) (ground (arith, s.uncited, s.short))

IsSendable-all_passed :
    (route : Result Route) (c : Channel) (d : Draft) (b : Bool)
    → IsSendable route c d b
    → all_passed (all_checks route c d b) ≡ true
unfolding all_checks
IsSendable-all_passed route c d b s =
    append-passed (route_check route d ∷ task_checks d.job_id b) _
      (route_checks-passed route c d b s)
      (append-passed (draft_checks d) _ (draft-passed route c d b s) (policy-passed route c d b s))

not_true : (b : Bool) → ¬ (b ≡ true) → b ≡ false
not_true b h = elim (Bool-cases b) [ inl y ↦ absurd (h y) | inr n ↦ n ]

-- The answer to a dispatch, by the checks.
module _ (tasks : TaskView) (clock : Clock) (attempt_id id expected : String) (db : Db) (d : Draft)
    (c : Channel) (b : Bool) where
  abbrev read : Draft
  read = redact_draft tasks db d

  abbrev passed : Bool
  passed = all_passed (all_checks (route_for db read.channel_id read.conversation_id) c read b)

  -- A draft, its channel and its task that can be read.
  abbrev CanRead : Type 0
  CanRead =
      (find_row (is_row id) db.outbox ≡ some d)
      × (read_channel db d.channel_id ≡ ok c)
      × (task_current tasks db read ≡ ok b)

  preview-reads :
      CanRead
      → (p : Preview) × (preview_draft tasks db id ≡ ok p)
        × (p.draft ≡ read)
        × (p.display_digest ≡ d.display_digest)
        × (p.sendable ≡ passed)
  unfolding preview_draft read_draft redact_draft
  preview-reads (found, channel, current) = (
    record {
      draft = read;
      checks = all_checks (route_for db read.channel_id read.conversation_id) c read b;
      display_digest = read.display_digest;
      send_policy = read.send_policy;
      delivery_state = read.state;
      sendable = passed;
      attempts = attempts_for db id;
    },
    rw (found, channel, current) refl,
    refl,
    refl,
    refl,
  )

  -- The guards of the dispatch in their order.
  preview-answer :
      (p : Preview)
      → preview_draft tasks db id ≡ ok p
      → (db' : Db) × (authorize_dispatch tasks clock attempt_id id expected db ≡ (
          if str_eq expected ""
          then err invalid_input
          else if not (str_eq expected p.display_digest)
          then err conflict
          else if not p.sendable
          then err denied
          else ok (record p.draft { state = "sending" }, db')))
  unfolding authorize_dispatch
  preview-answer p shown = (
    record db {
      outbox = update_rows (is_pending id) (mark_sending clock) db.outbox;
      delivery_attempts =
          db.delivery_attempts
          ++ new_attempt clock attempt_id id (length p.attempts + 1) p.draft.transport
              p.draft.input_digest
            ∷ [];
    },
    rw shown (ground arith),
  )

  abbrev Sendable : Type 0
  Sendable = IsSendable (route_for db read.channel_id read.conversation_id) c read b

  passed_iff : (passed ≡ true) ↔ Sendable
  passed_iff = (all_passed-IsSendable _ c read b, IsSendable-all_passed _ c read b)

  -- A refusal by its reason; a dispatch that is not refused goes through.
  abbrev pub Answers : Result (Draft × Db) → Type 0
  Answers r =
      ((r ≡ err invalid_input) ↔ (expected ≡ ""))
      × ((r ≡ err conflict) ↔ ((expected ≢ "") × (expected ≢ d.display_digest)))
      × ((r ≡ err denied) ↔ ((expected ≢ "") × (expected ≡ d.display_digest) × ¬ Sendable))
      × (((db' : Db) × (r ≡ ok (record read { state = "sending" }, db')))
          ↔ ((expected ≢ "") × (expected ≡ d.display_digest) × Sendable))

  denied_or_sent :
      CanRead
      → ((authorize_dispatch tasks clock attempt_id id expected db ≡ err denied)
          ↔ ((expected ≢ "") × (expected ≡ d.display_digest) × (passed ≡ false)))
        × (((db' : Db) × (authorize_dispatch tasks clock attempt_id id expected db
                ≡ ok (record read { state = "sending" }, db')))
            ↔ ((expected ≢ "") × (expected ≡ d.display_digest) × (passed ≡ true)))
  denied_or_sent can =
      let (p, shown, same, digest, sendable) = preview-reads can in
      let (db', e) = preview-answer p shown in
      let text = eq_iff expected "" in
      let bound = eq_iff expected p.display_digest in
      (
        ground (arith, e, text, bound, digest, sendable),
        (
          λ (_, h). ground (arith, e, text, bound, digest, sendable),
          λ k. (db', ground (arith, e, text, bound, digest, sendable, same)),
        ),
      )

  dispatch-Answers : CanRead → Answers (authorize_dispatch tasks clock attempt_id id expected db)
  dispatch-Answers can =
      let (p, shown, same, digest, sendable) = preview-reads can in
      let (db', e) = preview-answer p shown in
      let (sound, complete) = passed_iff in
      let (refused, sent) = denied_or_sent can in
      (
        ground (arith, e, eq_iff expected "", digest),
        ground (arith, e, eq_iff expected "", eq_iff expected p.display_digest, digest),
        (
          λ h.
              (let (named, bound, failed) = refused.0 h in
                (named, bound, λ s. true_ne_false (sym (complete s) ∙ failed))),
          λ (named, bound, unsendable).
              refused.1 (named, bound, not_true passed (λ t. unsendable (sound t))),
        ),
        (
          λ x. (let (named, bound, all) = sent.0 x in (named, bound, sound all)),
          λ (named, bound, s). sent.1 (named, bound, complete s),
        ),
      )

-- The answer to a dispatch of a stored draft whose channel, and task if it reports on one, can be
-- read: invalid_input exactly if no digest is expected; else conflict exactly if the expected digest
-- is not the draft's display digest; else denied exactly if one of the conditions on route, task,
-- citations, length, state and capability fails; else the dispatch goes through.
pub dispatch_refusals :
    (tasks : TaskView) (clock : Clock) (attempt_id id expected : String) (db : Db) (d : Draft)
    (c : Channel) (current : Bool)
    → find_row (is_row id) db.outbox ≡ some d
    → read_channel db d.channel_id ≡ ok c
    → task_current tasks db (redact_draft tasks db d) ≡ ok current
    → Answers tasks clock attempt_id id expected db d c current
        (authorize_dispatch tasks clock attempt_id id expected db)
dispatch_refusals tasks clock attempt_id id expected db d c current found channel admitted =
    dispatch-Answers tasks clock attempt_id id expected db d c current (found, channel, admitted)
