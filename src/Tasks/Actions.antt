-- ===== src/Tasks/Actions.antt =====
-- core/runtime.go with core/runtime_policy_epoch.go: ClaimRuntimeAction, CompleteRuntimeAction,
-- FailRuntimeAction and UnknownRuntimeAction: a confirmed action is executed.
pub mod Results
pub mod Due
use memgov.Base.{
  ℕ, String, Bool, true, false, not, ◌&&◌, ◌||◌, Option, none, some, List, [], ◌∷◌, ◌++◌, Result,
  ok, err, ◌>>=◌, ◌>>◌, fail_if, or_fail, conflict, denied, internal, find_row, has_row, count_rows,
  select_rows, update_rows, str_eq, str_lt, ltb, ◌==◌, if◌then◌else◌, concat, starts_with,
  trim_space, Clock, now,
}
use memgov.Schema.{Db}
use memgov.Schema.Runtimes.{Runtime, AppliedConfig}
use memgov.Schema.Tasks.{Task, PendingAction, ActionAttempt}
use memgov.Policy.{Digests, read_runtime, read_applied, check_epoch}
use memgov.Work.{check_work_lease}
use memgov.Work.Capacity.{has_capacity, claim_work}
use memgov.Work.Lanes.{lane_free}
use memgov.Tasks.{Evidence, Formats, read_task, is_task, mark_action, end_action_attempt}
use memgov.Tasks.Claim.{is_full, route_open, is_leased, is_at, Worker}
use memgov.Tasks.Outcome.{fail_row, code_or}
use memgov.Tasks.Proposed.{AttemptResult, destructive, bot_forward}
use memgov.Tasks.Approval.{destructive_current, card_current, by_message}
use memgov.Tasks.Confirm.{is_action}

-- The join with the task, which waits for its actions in the version that they were made in.
pub is_due : Db → Runtime → PendingAction → Task → Bool
is_due db c a t =
    str_eq t.id a.task_id
    && str_eq t.runtime_id c.id
    && str_eq t.status "awaiting_confirmation"
    && t.version == a.task_version
    && not (is_leased db t.id)
    && route_open db c t.route_id
    && lane_free db c false t

pub is_ready_action : Db → Runtime → PendingAction → Bool
is_ready_action db c a = str_eq a.status "confirmed" && has_row (is_due db c a) db.runtime_tasks

-- ORDER BY updated_at, id LIMIT 1
pub first_action : List PendingAction → Option PendingAction
first_action [] = none
first_action (a ∷ others) = elim (first_action others) [
  | none ↦ some a
  | some b ↦
      if str_lt b.updated_at a.updated_at || (str_eq b.updated_at a.updated_at && str_lt b.id a.id)
      then some b
      else some a
]

pub next_action : Db → Runtime → Option PendingAction
next_action db c = first_action (select_rows (is_ready_action db c) db.runtime_pending_actions)

pub by_card : String
by_card = "dingtalk_card:"

unfoldable pub is_action_in : String → String → PendingAction → Bool
is_action_in status id a = str_eq a.id id && str_eq a.status status

unfoldable pub is_run_in : String → String → ActionAttempt → Bool
is_run_in status id a = str_eq a.id id && str_eq a.status status

pub new_run : Clock → Runtime → Worker → PendingAction → ℕ → ActionAttempt
new_run clock c w a applied = record {
  id = w.attempt_id;
  action_id = a.id;
  task_id = a.task_id;
  task_version = a.task_version;
  applied_config_version = applied;
  status = "running";
  model = if str_eq w.model "" then c.execution_model else w.model;
  result = "";
  summary = "";
  tool_kinds = [];
  error_code = "";
  started_at = now clock;
  finished_at = "";
}

unfoldable pub finish_run : Clock → AttemptResult → ActionAttempt → ActionAttempt
finish_run clock r a = record a {
  status = "completed";
  result = r.result;
  summary = r.summary;
  tool_kinds = r.tool_kinds;
  finished_at = now clock;
}

pub addition : AttemptResult → String
addition r = let text = trim_space r.result in if str_eq text "" then trim_space r.summary else text

unfoldable pub add_result : Clock → AttemptResult → Task → Task
add_result clock r t = record t {
  status = "completed";
  result = concat (t.result ∷ (if str_eq t.result "" then "" else "\n\n") ∷ addition r ∷ []);
  result_summary = r.summary;
  updated_at = now clock;
}

pub is_left : String → ℕ → PendingAction → Bool
is_left task version a =
    str_eq a.task_id task && a.task_version == version && not (str_eq a.status "executed")

module _ (digests : Digests) (evidence : Evidence) (formats : Formats) where
  -- An approval by a card is checked against the card.
  pub approval_current : Db → Runtime → PendingAction → Result (Unit {0})
  approval_current db c a = do
    fail_if (str_eq c.application_mode "proactive" && not (str_eq a.kind destructive)) denied
    destructive_current db a
    (if starts_with by_card a.confirmation_origin
        then card_current formats evidence db c a
        else ok tt)

  pub start_action :
      Clock → Runtime → Worker → PendingAction → Db → Result (Option PendingAction × Db)
  start_action clock c w a db = do
    let started = record db {
      runtime_pending_actions =
          update_rows (is_action_in "confirmed" a.id) (mark_action "executing" clock)
            db.runtime_pending_actions;
    }
    leased ← claim_work digests clock c "execution" w.attempt_id "" a.task_id a.task_version started
    applied ← read_applied leased 0
    fail_if
        (has_row (λ (o : ActionAttempt). str_eq o.id w.attempt_id) leased.runtime_action_attempts)
        internal
    ok (
      some (record a { status = "executing" }),
      record leased {
        runtime_action_attempts =
            leased.runtime_action_attempts ++ new_run clock c w a applied.version ∷ [];
      },
    )

  -- `none` where there is nothing to do.
  pub claim_action : Clock → Bool → String → Worker → Db → Result (Option PendingAction × Db)
  claim_action clock in_memory runtime w db = do
    c ← read_runtime db runtime
    if not (str_eq c.status "running")
          || not (has_capacity in_memory db c "execution")
          || is_full db c
        then ok (none, db)
        else elim (next_action db c) [
          | none ↦ ok (none, db)
          | some a ↦
              approval_current db c a
              >> (if count_rows (is_action_in "confirmed" a.id) db.runtime_pending_actions == 1
                  then start_action clock c w a db
                  else ok (none, db))
        ]

  module _ (julianday : String → Option ℕ) where
    -- An approval is checked again by how it was given. The check of a card looks the action up among
    -- the task's, where it is.
    pub origin_current : Db → PendingAction → Result (Unit {0})
    origin_current db a =
        (if starts_with by_message a.confirmation_origin
          then (destructive_current db a
              >> (if str_eq a.kind bot_forward then evidence.forward_current db a.id else ok tt))
          else ok tt)
        >> (if starts_with by_card a.confirmation_origin
            then (read_task db a.task_id >>= λ t.
                read_runtime db t.runtime_id >>= λ c. card_current formats evidence db c a)
            else ok tt)

    -- RuntimeActionAttemptPolicyCurrent
    pub check_run : Clock → String → String → ℕ → Db → Result (Unit {0})
    check_run clock attempt id version db = do
      check_work_lease julianday digests clock db attempt
      r ←
          or_fail
            (find_row (λ (r : ActionAttempt). str_eq r.id attempt && str_eq r.action_id id)
              db.runtime_action_attempts)
            internal
      fail_if (not (r.task_version == version) || not (str_eq r.status "running")) conflict
      check_epoch digests db r.applied_config_version
      a ← or_fail (find_row (is_action id) db.runtime_pending_actions) internal
      origin_current db a

    -- The last action completes the task.
    pub complete_action : Clock → String → String → ℕ → AttemptResult → Db → Result (Task × Db)
    complete_action clock id attempt version r db = do
      a ← or_fail (find_row (is_action id) db.runtime_pending_actions) internal
      o ←
          or_fail
            (find_row (λ (o : ActionAttempt). str_eq o.id attempt && str_eq o.action_id id)
              db.runtime_action_attempts)
            internal
      fail_if
          (not (a.task_version == version)
            || not (str_eq a.status "executing")
            || not (str_eq o.status "running"))
          conflict
      check_run clock attempt id version db
      let actions =
          update_rows (is_action_in "executing" id) (mark_action "executed" clock)
            db.runtime_pending_actions
      let done = record db {
        runtime_action_attempts =
            update_rows (is_run_in "running" attempt) (finish_run clock r)
              db.runtime_action_attempts;
        runtime_pending_actions = actions;
        runtime_tasks =
            if has_row (is_left a.task_id version) actions
            then db.runtime_tasks
            else update_rows (is_at a.task_id version "awaiting_confirmation") (add_result clock r)
                db.runtime_tasks;
      }
      t ← read_task done a.task_id
      ok (t, done)

-- What FailRuntimeAction and UnknownRuntimeAction have in common.
pub end_action : String → String → Clock → String → String → ℕ → String → Db → Result (Task × Db)
end_action status task_status clock id attempt version code db = do
  a ← or_fail (find_row (is_action_in "executing" id) db.runtime_pending_actions) internal
  fail_if (not (a.task_version == version)) conflict
  let done = record db {
    runtime_action_attempts =
        update_rows (is_run_in "running" attempt) (end_action_attempt status code clock)
          db.runtime_action_attempts;
    runtime_pending_actions =
        update_rows (is_action_in "executing" id) (mark_action status clock)
          db.runtime_pending_actions;
    runtime_tasks =
        update_rows (is_at a.task_id version "awaiting_confirmation")
          (fail_row clock task_status code) db.runtime_tasks;
  }
  t ← read_task done a.task_id
  ok (t, done)

unfoldable pub fail_action : Clock → String → String → ℕ → String → Db → Result (Task × Db)
fail_action clock id attempt version code =
    end_action "failed" "action_failed" clock id attempt version (code_or code "internal")

unfoldable pub unknown_action : Clock → String → String → ℕ → String → Db → Result (Task × Db)
unknown_action clock id attempt version code =
    end_action "unknown" "action_unknown" clock id attempt version (code_or code "unavailable")
