-- ===== src/Tasks/Actions/Results.antt =====
-- core/runtime.go: what ClaimRuntimeAction, CompleteRuntimeAction, FailRuntimeAction and
-- UnknownRuntimeAction change.
use memgov.Base.{
  ℕ, ◌≡◌, refl, ap, ◌∙◌, String, Bool, false, not, ◌&&◌, ◌||◌, Option, some, List, [], ◌∷◌, ◌++◌,
  ok, conflict, internal, find_row, has_row, count_rows, update_rows, str_eq, eq_iff, ◌==◌, arith,
  Clock, ◌⊎◌, inl, inr, Bool-cases, Option-cases, >>=-elim, fail_if-elim, or_fail-elim, ok-state,
  if◌then◌else◌,
}
use memgov.Schema.{Db}
use memgov.Schema.Leases.{WorkLease}
use memgov.Schema.Runtimes.{Runtime}
use memgov.Schema.Tasks.{Task, PendingAction, ActionAttempt}
use memgov.Policy.{Digests, read_runtime, read_applied}
use memgov.Work.Capacity.{claim_work, has_capacity}
use memgov.Work.Capacity.Results.{claim_work-inv}
use memgov.Tasks.{Evidence, Formats, read_task, mark_action, end_action_attempt}
use memgov.Tasks.Claim.{is_full, is_at, Worker}
use memgov.Tasks.Outcome.{fail_row}
use memgov.Tasks.Proposed.{AttemptResult}
use memgov.Tasks.Confirm.{is_action}
use memgov.Tasks.Actions.{
  claim_action, start_action, new_run, next_action, approval_current, is_action_in, is_run_in,
  complete_action, check_run, finish_run, add_result, is_left, end_action,
}

-- The action is executing, and a running attempt at it is recorded.
pub record Started (a : PendingAction) (clock : Clock) (db db' : Db) : Type 0 where
  pub leases : List WorkLease
  pub run : ActionAttempt
  pub of_action : run.action_id ≡ a.id
  pub of_task : run.task_id ≡ a.task_id
  pub changed : db' ≡ record db {
    runtime_work_leases = leases;
    runtime_pending_actions =
        update_rows
          (is_action_in "confirmed" a.id)
          (mark_action "executing" clock)
          db.runtime_pending_actions;
    runtime_action_attempts = db.runtime_action_attempts ++ run ∷ [];
  }

module _ (digests : Digests) (evidence : Evidence) (formats : Formats) where
  start_action-Started :
      (clock : Clock) (c : Runtime) (w : Worker) (a : PendingAction) (db : Db)
      (r : Option PendingAction) (db' : Db)
      → start_action digests evidence formats clock c w a db ≡ ok (r, db')
      → Started a clock db db'
  unfolding start_action new_run
  start_action-Started clock c w a db r db' h =
      let started = record db {
        runtime_pending_actions =
            update_rows (is_action_in "confirmed" a.id) (mark_action "executing" clock)
              db.runtime_pending_actions;
      } in
      >>=-elim
        (claim_work digests clock c "execution" w.attempt_id "" a.task_id a.task_version started) _
        h
        λ leased p h. >>=-elim (read_applied leased 0) _ h λ applied _ h.
          fail_if-elim
            (has_row (λ (o : ActionAttempt). str_eq o.id w.attempt_id)
              leased.runtime_action_attempts)
            internal _ h
            λ _ h.
              let (leases, e) =
                claim_work-inv digests clock c "execution" w.attempt_id "" a.task_id a.task_version
                  started leased p in
              let run = new_run clock c w a applied.version in
              record {
                leases = leases;
                run = run;
                of_action = refl;
                of_task = refl;
                changed =
                    ok-state h
                    ∙ ap
                        (λ (x : Db). record x {
                          runtime_action_attempts = x.runtime_action_attempts ++ run ∷ [];
                        })
                        e;
              }

  -- Nothing changes, or the next action, which is confirmed, is started.
  pub claim_action-inv :
      (clock : Clock) (in_memory : Bool) (runtime : String) (w : Worker) (db : Db)
      (r : Option PendingAction) (db' : Db)
      → claim_action digests evidence formats clock in_memory runtime w db ≡ ok (r, db')
      → (db' ≡ db)
        ⊎ ((c : Runtime) × (a : PendingAction) × (read_runtime db runtime ≡ ok c)
            × (is_full db c ≡ false)
            × (next_action db c ≡ some a)
            × (approval_current digests evidence formats db c a ≡ ok tt)
            × (count_rows (is_action_in "confirmed" a.id) db.runtime_pending_actions ≡ 1)
            × Started a clock db db')
  unfolding claim_action
  claim_action-inv clock in_memory runtime w db r db' h =
      >>=-elim (read_runtime db runtime) _ h λ c found h.
        elim (Bool-cases (
          not (str_eq c.status "running")
          || not (has_capacity in_memory db c "execution")
          || is_full db c)) [
            | inl e ↦ inl (ok-state (rw e at h))
            | inr e ↦ elim (Option-cases (next_action db c)) [
              | inl n ↦ inl (ok-state (rw (e, n) at h))
              | inr (a, n) ↦
                  >>=-elim (approval_current digests evidence formats db c a) _ (rw (e, n) at h)
                    λ _ approved h.
                      elim (Bool-cases (
                        count_rows (is_action_in "confirmed" a.id) db.runtime_pending_actions
                        == 1)) [
                          | inr m ↦ inl (ok-state (rw m at h))
                          | inl m ↦ inr (
                            c,
                            a,
                            found,
                            ground arith,
                            n,
                            approved,
                            ground arith,
                            start_action-Started clock c w a db r db' (rw m at h),
                          )
                        ]
            ]
          ]

  pub complete_action-inv :
      (julianday : String → Option ℕ) (clock : Clock) (id attempt : String) (version : ℕ)
      (r : AttemptResult) (db : Db) (t : Task) (db' : Db)
      → complete_action digests evidence formats julianday clock id attempt version r db
        ≡ ok (t, db')
      → (a : PendingAction) × (find_row (is_action id) db.runtime_pending_actions ≡ some a)
        × (a.status ≡ "executing")
        × (a.task_version ≡ version)
        × (check_run digests evidence formats julianday clock attempt id version db ≡ ok tt)
        × (db' ≡ record db {
          runtime_action_attempts =
              update_rows
                (is_run_in "running" attempt)
                (finish_run clock r)
                db.runtime_action_attempts;
          runtime_pending_actions =
              update_rows
                (is_action_in "executing" id)
                (mark_action "executed" clock)
                db.runtime_pending_actions;
          runtime_tasks =
              if has_row (is_left a.task_id version) (
                update_rows
                  (is_action_in "executing" id)
                  (mark_action "executed" clock)
                  db.runtime_pending_actions)
              then db.runtime_tasks
              else update_rows
                  (is_at a.task_id version "awaiting_confirmation")
                  (add_result clock r)
                  db.runtime_tasks;
        })
  unfolding complete_action
  complete_action-inv julianday clock id attempt version r db t db' h =
      or_fail-elim (find_row (is_action id) db.runtime_pending_actions) internal _ h λ a found h.
        or_fail-elim
          (find_row (λ (o : ActionAttempt). str_eq o.id attempt && str_eq o.action_id id)
            db.runtime_action_attempts)
          internal _ h
          λ o _ h.
            fail_if-elim
              (not (a.task_version == version)
                || not (str_eq a.status "executing")
                || not (str_eq o.status "running"))
              conflict _ h
              λ same h.
                >>=-elim (check_run digests evidence formats julianday clock attempt id version db)
                  _ h
                  λ _ checked h. >>=-elim (read_task _ a.task_id) _ h λ _ _ h. (
                    a,
                    found,
                    ground (arith, eq_iff a.status "executing"),
                    ground arith,
                    checked,
                    ok-state h,
                  )

pub end_action-inv :
    (status task_status : String) (clock : Clock) (id attempt : String) (version : ℕ)
    (code : String) (db : Db) (t : Task) (db' : Db)
    → end_action status task_status clock id attempt version code db ≡ ok (t, db')
    → (a : PendingAction) × (find_row (is_action_in "executing" id) db.runtime_pending_actions
        ≡ some a)
      × (a.task_version ≡ version)
      × (db' ≡ record db {
        runtime_action_attempts =
            update_rows
              (is_run_in "running" attempt)
              (end_action_attempt status code clock)
              db.runtime_action_attempts;
        runtime_pending_actions =
            update_rows
              (is_action_in "executing" id)
              (mark_action status clock)
              db.runtime_pending_actions;
        runtime_tasks =
            update_rows
              (is_at a.task_id version "awaiting_confirmation")
              (fail_row clock task_status code)
              db.runtime_tasks;
      })
unfolding end_action
end_action-inv status task_status clock id attempt version code db t db' h =
    or_fail-elim (find_row (is_action_in "executing" id) db.runtime_pending_actions) internal _ h
      λ a found h.
        fail_if-elim (not (a.task_version == version)) conflict _ h λ same h.
          >>=-elim (read_task _ a.task_id) _ h λ _ _ h. (a, found, ground arith, ok-state h)
