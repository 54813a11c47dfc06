-- ===== src/Outbox/Dispatch.antt =====
-- core/dispatch.go and the delivery of core/runtime.go (BeginDelivery, FinishDelivery): what has to
-- hold before a draft is sent, and what is recorded of the sending. NewID is an argument, `attempt_id`.
pub mod Settled
pub mod Marked
pub mod Results
pub mod Sendable
pub mod Refusals
pub mod Moves
pub mod Samples
pub mod Tests
use memgov.Base.{
  ℕ, ◌+◌, String, Bool, true, false, not, ◌&&◌, ◌||◌, Option, none, some, List, [], ◌∷◌, ◌++◌,
  Result, ok, err, ◌>>=◌, ◌>>◌, fail_if, or_fail, invalid_input, conflict, denied, internal,
  find_row, str_eq, ltb, leb, concat, ◌==◌, if◌then◌else◌, contains, is_blank, rune_count, Clock,
  now, count_rows, length, update_rows, select_rows,
}
use memgov.Schema.{Db}
use memgov.Schema.Channels.{Channel, Route}
use memgov.Schema.Drafts.{Draft, Attempt}
use memgov.Channel.{read_channel, route_for}
use memgov.Outbox.{TaskView, read_draft}
use memgov.Outbox.Drafts.{max_draft_chars}
use memgov.Outbox.Checks.{Check, all_checks, all_passed}

pub record Preview : Type 0 where
  pub draft : Draft
  pub checks : List Check
  pub display_digest : String
  pub send_policy : String
  pub delivery_state : String
  pub sendable : Bool
  pub attempts : List Attempt

-- The order of the rows is that of the attempts: each is appended with the next number.
pub attempts_for : Db → String → List Attempt
attempts_for db id = select_rows (λ a. str_eq a.outbox_id id) db.delivery_attempts

pub mark_sending : Clock → Draft → Draft
mark_sending clock d = record d { state = "sending"; reason = ""; updated_at = now clock }

pub mark_begun : Clock → Draft → Draft
mark_begun clock d = record d { state = "sending"; updated_at = now clock }

pub mark : String → String → Clock → Draft → Draft
mark state reason clock d = record d { state = state; reason = reason; updated_at = now clock }

pub mark_finished : String → Clock → Draft → Draft
mark_finished state clock d = record d { state = state; updated_at = now clock }

-- The state of one draft's rows.
abbrev pub is_row : String → Draft → Bool
is_row id d = str_eq d.id id

pub is_pending : String → Draft → Bool
is_pending id d = str_eq d.id id && contains ("draft" ∷ "ready" ∷ []) d.state

pub is_in : String → String → Draft → Bool
is_in state id d = str_eq d.id id && str_eq d.state state

abbrev pub is_attempt_of : String → Attempt → Bool
is_attempt_of id a = str_eq a.outbox_id id

is_sending_attempt : String → Attempt → Bool
is_sending_attempt id a = str_eq a.outbox_id id && str_eq a.state "sending"

max_attempt : List Attempt → ℕ
max_attempt [] = 0
max_attempt (a ∷ t) = let m = max_attempt t in if ltb m a.attempt then a.attempt else m

abbrev pub new_attempt : Clock → String → String → ℕ → String → String → Attempt
new_attempt clock attempt_id draft n transport key = record {
  id = attempt_id;
  outbox_id = draft;
  attempt = n;
  transport = transport;
  idempotency_key = key;
  state = "sending";
  receipt = "";
  error = "";
  started_at = now clock;
  finished_at = "";
}

settle_attempt : String → String → String → Clock → Attempt → Attempt
settle_attempt state receipt detail clock a = record a {
  state = state;
  receipt = receipt;
  error = detail;
  finished_at = now clock;
}

finish_attempt : String → String → Clock → Attempt → Attempt
finish_attempt state receipt clock a = record a {
  state = state;
  receipt = receipt;
  finished_at = now clock;
}

-- Reconcile: the state that an outcome stands for.
pub conclude : String → String → Result String
conclude outcome receipt =
    if str_eq outcome "accepted"
    then (if str_eq receipt "" then err invalid_input else ok "accepted")
    else if str_eq outcome "not_sent"
    then ok "retryable_failed"
    else err invalid_input

module _ (tasks : TaskView) where
  pub task_current : Db → Draft → Result Bool
  task_current db d = if str_eq d.job_id "" then ok true else tasks.trigger_current db d

  -- `evidence_seq`, which only labels citations, and the target are not kept.
  pub preview_draft : Db → String → Result Preview
  preview_draft db id = do
    d ← read_draft tasks db id
    c ← read_channel db d.channel_id
    current ← task_current db d
    let checks = all_checks (route_for db d.channel_id d.conversation_id) c d current
    ok (record {
      draft = d;
      checks = checks;
      display_digest = d.display_digest;
      send_policy = d.send_policy;
      delivery_state = d.state;
      sendable = all_passed checks;
      attempts = attempts_for db id;
    })

  -- The attempt is recorded before the platform is contacted.
  pub authorize_dispatch : Clock → String → String → String → Db → Result (Draft × Db)
  authorize_dispatch clock attempt_id id expected db = do
    p ← preview_draft db id
    fail_if (str_eq expected "") invalid_input
    fail_if (not (str_eq expected p.display_digest)) conflict
    fail_if (not p.sendable) denied
    let d = p.draft
    ok (
      record d { state = "sending" },
      record db {
        outbox = update_rows (is_pending id) (mark_sending clock) db.outbox;
        delivery_attempts =
            db.delivery_attempts
            ++ new_attempt clock attempt_id id (length p.attempts + 1) d.transport d.input_digest
              ∷ [];
      },
    )

  pub record_delivery : Clock → String → String → String → String → Db → Result (Unit {0} × Db)
  record_delivery clock id state receipt detail db = do
    fail_if
        (not
          (contains ("accepted" ∷ "retryable_failed" ∷ "delivery_unknown" ∷ "failed" ∷ []) state))
        invalid_input
    d ← read_draft tasks db id
    fail_if (not (str_eq d.state "sending")) conflict
    fail_if (str_eq state "accepted" && str_eq receipt "") invalid_input
    ok (
      tt,
      record db {
        outbox = update_rows (is_row id) (mark state detail clock) db.outbox;
        delivery_attempts =
            update_rows (is_sending_attempt id) (settle_attempt state receipt detail clock)
              db.delivery_attempts;
      },
    )

  pub cancel_draft : Clock → String → String → Db → Result (Unit {0} × Db)
  cancel_draft clock id reason db = do
    fail_if (is_blank reason) invalid_input
    d ← read_draft tasks db id
    fail_if (not (contains ("draft" ∷ "ready" ∷ "stale" ∷ "blocked" ∷ []) d.state)) conflict
    ok (
      tt,
      record db { outbox = update_rows (is_row id) (mark "cancelled" reason clock) db.outbox },
    )

  pub reconcile : Clock → String → String → String → String → Db → Result (Unit {0} × Db)
  reconcile clock id outcome receipt evidence db = do
    d ← read_draft tasks db id
    fail_if (not (str_eq d.state "delivery_unknown")) conflict
    fail_if (is_blank evidence) invalid_input
    state ← conclude outcome receipt
    let why = concat ("reconciled: " ∷ evidence ∷ [])
    let last = max_attempt (attempts_for db id)
    ok (
      tt,
      record db {
        outbox = update_rows (is_row id) (mark state why clock) db.outbox;
        delivery_attempts =
            update_rows (λ a. str_eq a.outbox_id id && a.attempt == last)
              (settle_attempt state receipt why clock) db.delivery_attempts;
      },
    )

  -- A draft that reports on a task is handed over only as the task admits it now.
  pub may_begin : Db → Draft → Result (Unit {0})
  may_begin db d = if str_eq d.job_id "" then ok tt else tasks.may_begin db d

  pub begin_delivery : Clock → String → String → Db → Result (ℕ × Db)
  begin_delivery clock attempt_id id db = do
    d ← or_fail (find_row (is_row id) db.outbox) internal
    may_begin db d
    let attempt = max_attempt (attempts_for db id) + 1
    fail_if (not (count_rows (is_in "ready" id) db.outbox == 1)) conflict
    ok (
      attempt,
      record db {
        outbox = update_rows (is_in "ready" id) (mark_begun clock) db.outbox;
        delivery_attempts =
            db.delivery_attempts ++ new_attempt clock attempt_id id attempt d.transport "" ∷ [];
      },
    )

pub finish_delivery : Clock → String → ℕ → String → String → Db → Result (Unit {0} × Db)
finish_delivery clock id attempt state receipt db = do
  fail_if (not (contains ("accepted" ∷ "failed" ∷ "unknown" ∷ []) state)) invalid_input
  ok (
    tt,
    record db {
      outbox = update_rows (is_in "sending" id) (mark_finished state clock) db.outbox;
      delivery_attempts =
          update_rows
            (λ a. str_eq a.outbox_id id && a.attempt == attempt && str_eq a.state "sending")
            (finish_attempt state receipt clock) db.delivery_attempts;
    },
  )
