-- ===== src/Tasks/Recovery/Idle.antt =====
-- core/runtime.go: what RecoverRuntime leaves under way.
use memgov.Base.{
  ◌≡◌, refl, sym, ◌∙◌, subst, String, Bool, List, [], ◌∷◌, ok, Clock, count_rows, has_row,
  update_rows, str_eq, inl, inr, Bool-cases, arith, count_rows-update_eq, count_rows-update_fewer,
  count_rows-update_none, ◌&&◌,
}
use memgov.Schema.{Db}
use memgov.Schema.Runtimes.{Runtime}
use memgov.Schema.Tasks.{Task, TaskAttempt, PendingAction, ActionAttempt, MessageAction}
use memgov.Schema.Drafts.{Draft}
use memgov.Policy.{read_runtime}
use memgov.Work.Capacity.{of_runtime, is_running, is_executing, active_attempts}
use memgov.Tasks.{mark_action, end_action_attempt, end_attempt}
use memgov.Tasks.Outcome.{fail_row, lose_message}
use memgov.Tasks.Recovery.{
  recover_runtime, recover_rows, recover_tasks, Recovered, is_task_in, is_sending_message,
  is_executing_action, is_sending_draft, lose_draft, restarted,
}
use memgov.Tasks.Recovery.Results.{recover_runtime-inv}

-- No task, attempt, action or delivery of the runtime is under way.
pub record IsIdle (db : Db) (runtime : String) : Type 0 where
  pub tasks : count_rows (is_task_in "running" runtime) db.runtime_tasks ≡ 0
  pub attempts : active_attempts db runtime ≡ 0
  pub actions :
      count_rows (is_executing_action db.runtime_tasks runtime) db.runtime_pending_actions ≡ 0
  pub messages :
      count_rows (is_sending_message db.runtime_tasks runtime) db.runtime_message_actions ≡ 0
  pub drafts : count_rows (is_sending_draft db.runtime_tasks runtime) db.outbox ≡ 0

-- The tasks of the runtime stay its tasks.
of_runtime-recover :
    (clock : Clock) (runtime : String) (lost : Bool) (tasks : List Task) (id : String)
    → of_runtime (recover_tasks clock runtime lost tasks) runtime id ≡ of_runtime tasks runtime id
unfolding of_runtime recover_tasks fail_row
of_runtime-recover clock runtime lost tasks id =
    let p = λ (t : Task). str_eq t.id id && str_eq t.runtime_id runtime in
    let once = λ (q : Task → Bool) (status : String) (ts : List Task).
      count_rows-update_eq p q (fail_row clock status restarted) ts (λ t. refl) in
    elim (Bool-cases lost) [
      | inr e ↦ rw e (rw (once (is_task_in "running" runtime) "failed" tasks) refl)
      | inl e ↦ rw e (
          rw
            (
              once (is_task_in "awaiting_confirmation" runtime) "action_unknown" _,
              once (is_task_in "running" runtime) "failed" tasks,
            )
            refl)
    ]

none_running :
    (clock : Clock) (runtime : String) (lost : Bool) (tasks : List Task)
    → count_rows (is_task_in "running" runtime) (recover_tasks clock runtime lost tasks) ≡ 0
unfolding recover_tasks fail_row is_task_in
none_running clock runtime lost tasks =
    let failed =
      count_rows-update_none (is_task_in "running" runtime) (fail_row clock "failed" restarted)
        tasks (λ t. ground arith) in
    elim (Bool-cases lost) [
      | inr e ↦ rw e failed
      | inl e ↦
          let fewer =
            count_rows-update_fewer (is_task_in "running" runtime)
              (is_task_in "awaiting_confirmation" runtime)
              (fail_row clock "action_unknown" restarted)
              (update_rows (is_task_in "running" runtime) (fail_row clock "failed" restarted) tasks)
              (λ t h k. ground arith) in
          rw e (omega (arith, fewer, failed))
    ]

-- Rows of a table that belong to the runtime by their task, before and after.
same_rows :
    (A : Type 0) (task_of : A → String) (test : A → Bool) (runtime : String) (old new : List Task)
    (rows : List A)
    → ((id : String) → of_runtime new runtime id ≡ of_runtime old runtime id)
    → count_rows (λ a. of_runtime new runtime (task_of a) && test a) rows
      ≡ count_rows (λ a. of_runtime old runtime (task_of a) && test a) rows
unfolding count_rows
same_rows A task_of test runtime old new [] h = refl
same_rows A task_of test runtime old new (r ∷ rows) h =
    rw (h (task_of r), same_rows A task_of test runtime old new rows h) refl

module _ (clock : Clock) (runtime : String) (db : Db) where
  abbrev after_tasks : List Task
  after_tasks =
      recover_tasks clock runtime
        (has_row (is_executing_action db.runtime_tasks runtime) db.runtime_pending_actions)
        db.runtime_tasks

  same_of :
      (id : String) → of_runtime after_tasks runtime id ≡ of_runtime db.runtime_tasks runtime id
  same_of id = of_runtime-recover clock runtime _ db.runtime_tasks id

  recover_rows-IsIdle : IsIdle (recover_rows clock runtime db) runtime
  unfolding recover_rows active_attempts is_running is_executing is_executing_action
      is_sending_message is_sending_draft mark_action end_action_attempt end_attempt lose_message
      lose_draft
  recover_rows-IsIdle =
      let attempts =
        same_rows TaskAttempt (λ a. a.task_id) (λ a. str_eq a.status "running") runtime
          db.runtime_tasks after_tasks _ same_of
        ∙ count_rows-update_none (is_running db.runtime_tasks runtime)
            (end_attempt "failed" restarted clock) db.runtime_attempts (λ r. ground arith) in
      let runs =
        same_rows ActionAttempt (λ a. a.task_id) (λ a. str_eq a.status "running") runtime
          db.runtime_tasks after_tasks _ same_of
        ∙ count_rows-update_none (is_executing db.runtime_tasks runtime)
            (end_action_attempt "unknown" restarted clock) db.runtime_action_attempts
            (λ r. ground arith) in
      record {
        tasks = none_running clock runtime _ db.runtime_tasks;
        attempts = omega (arith, attempts, runs);
        actions =
            same_rows PendingAction (λ a. a.task_id) (λ a. str_eq a.status "executing") runtime
              db.runtime_tasks after_tasks _ same_of
            ∙ count_rows-update_none (is_executing_action db.runtime_tasks runtime)
                (mark_action "unknown" clock) db.runtime_pending_actions (λ r. ground arith);
        messages =
            same_rows MessageAction (λ a. a.task_id) (λ a. str_eq a.state "sending") runtime
              db.runtime_tasks after_tasks _ same_of
            ∙ count_rows-update_none (is_sending_message db.runtime_tasks runtime)
                (lose_message clock restarted) db.runtime_message_actions (λ r. ground arith);
        drafts =
            same_rows Draft (λ a. a.job_id) (λ a. str_eq a.state "sending") runtime db.runtime_tasks
              after_tasks _ same_of
            ∙ count_rows-update_none (is_sending_draft db.runtime_tasks runtime) (lose_draft clock)
                db.outbox (λ r. ground arith);
      }

-- After a restarted process has recovered a runtime, none of its tasks is running, none of the
-- attempts at its tasks or at their actions is running, none of their actions is executing, and
-- none of their messages and drafts is being sent.
pub recover_runtime-IsIdle :
    (clock : Clock) (value : String) (db : Db) (r : Recovered) (db' : Db)
    → recover_runtime clock value db ≡ ok (r, db')
    → (c : Runtime) × (read_runtime db value ≡ ok c) × IsIdle db' c.id
recover_runtime-IsIdle clock value db r db' h =
    let (c, old, found, _, e) = recover_runtime-inv clock value db r db' h in
    (c, found, subst (λ (x : Db). IsIdle x c.id) (sym e) (recover_rows-IsIdle clock c.id old))
