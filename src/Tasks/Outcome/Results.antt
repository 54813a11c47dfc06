-- ===== src/Tasks/Outcome/Results.antt =====
-- core/runtime.go: what CompleteRuntimeTask, FailRuntimeTask and SetRuntimeTaskStatus change.
use memgov.Base.{
  ℕ, ◌≡◌, String, true, false, not, ◌||◌, Option, List, ok, conflict, denied, invalid_input,
  count_rows, update_rows, str_eq, eq_iff, arith, ◌==◌, Clock, >>=-elim, fail_if-elim, ok-state,
  ◌&&◌,
}
use memgov.Schema.{Db}
use memgov.Schema.Leases.{WorkLease, ResourceLock}
use memgov.Schema.Runtimes.{Runtime}
use memgov.Schema.Tasks.{Task, TaskAttempt, PendingAction}
use memgov.Policy.{Digests, read_runtime}
use memgov.Work.{release_work_lease}
use memgov.Tasks.{
  Evidence, Formats, read_task, is_task, messages_current, stale_task_work, end_attempt,
}
use memgov.Tasks.Claim.{is_at}
use memgov.Tasks.Outcome.{
  complete_task, fail_task, set_status, check_attempt, finish_task, finish_attempt, fail_row,
  code_or, is_unsettled_of, lose_message, check_transition, reset_task,
}
use memgov.Tasks.Proposed.{
  AttemptResult, too_large, kept_actions, is_prepared, final_status, insert_actions,
}

-- A result that was accepted: what was checked, and what was stored.
pub record Completed (julianday : String → Option ℕ) (digests : Digests) (evidence : Evidence)
    (formats : Formats) (clock : Clock) (new_id : ℕ → String) (task : String) (version : ℕ)
    (attempt : String) (r : AttemptResult) (db db' : Db) : Type 0 where
  pub old : Task
  pub runtime : Runtime
  pub status : String
  pub actions : List PendingAction
  pub locks : List ResourceLock
  pub leases : List WorkLease
  pub found : read_task db task ≡ ok old
  pub current : old.version ≡ version
  pub running : old.status ≡ "running"
  pub admitted : check_attempt julianday digests clock attempt task version db ≡ ok tt
  pub sources : messages_current evidence db task ≡ ok true
  pub small : too_large r ≡ false
  pub configured : read_runtime db old.runtime_id ≡ ok runtime
  pub ends :
      final_status formats runtime
        (count_rows (is_prepared task version) db.runtime_pending_actions)
        (kept_actions runtime r.actions)
      ≡ ok status
  pub one : count_rows (is_at task version "running") db.runtime_tasks ≡ 1
  pub inserted :
      insert_actions formats clock new_id 0 task version
        (kept_actions runtime r.actions)
        db.runtime_pending_actions
      ≡ ok actions
  pub changed : db' ≡ record db {
    runtime_tasks =
        update_rows (is_at task version "running") (finish_task clock status r) db.runtime_tasks;
    runtime_attempts =
        update_rows
          (λ (a : TaskAttempt). str_eq a.id attempt && a.task_version == version)
          (finish_attempt clock r)
          db.runtime_attempts;
    runtime_pending_actions = actions;
    runtime_resource_locks = locks;
    runtime_work_leases = leases;
  }

module _ (julianday : String → Option ℕ) (digests : Digests) (evidence : Evidence)
    (formats : Formats) where
  pub complete_task-Completed :
      (clock : Clock) (new_id : ℕ → String) (task : String) (version : ℕ) (attempt : String)
      (r : AttemptResult) (db : Db) (t : Task) (db' : Db)
      → complete_task julianday digests evidence formats clock new_id task version attempt r db
        ≡ ok (t, db')
      → Completed julianday digests evidence formats clock new_id task version attempt r db db'
  unfolding complete_task release_work_lease
  complete_task-Completed clock new_id task version attempt r db t db' h =
      >>=-elim (read_task db task) _ h λ old found h.
        fail_if-elim (not (old.version == version) || not (str_eq old.status "running")) conflict _
          h
          λ same h.
            >>=-elim (check_attempt julianday digests clock attempt task version db) _ h
              λ _ admitted h. >>=-elim (messages_current evidence db task) _ h λ current sources h.
                fail_if-elim (not current) conflict _ h λ fresh h.
                  fail_if-elim (too_large r) invalid_input _ h λ small h.
                    >>=-elim (read_runtime db old.runtime_id) _ h λ c configured h.
                      >>=-elim
                        (final_status formats c
                          (count_rows (is_prepared task version) db.runtime_pending_actions)
                          (kept_actions c r.actions))
                        _ h
                        λ status ends h.
                          fail_if-elim
                            (not (count_rows (is_at task version "running") db.runtime_tasks == 1))
                            conflict _ h
                            λ one h.
                              >>=-elim
                                (insert_actions formats clock new_id 0 task version
                                  (kept_actions c r.actions) db.runtime_pending_actions)
                                _ h
                                λ actions inserted h. >>=-elim (read_task _ task) _ h λ done _ h.
                                  record {
                                    old = old;
                                    runtime = c;
                                    status = status;
                                    actions = actions;
                                    locks = _;
                                    leases = _;
                                    found = found;
                                    current = ground (arith);
                                    running = ground (arith, eq_iff old.status "running");
                                    admitted = admitted;
                                    sources = ground arith;
                                    small = small;
                                    configured = configured;
                                    ends = ends;
                                    one = ground arith;
                                    inserted = inserted;
                                    changed = ok-state h;
                                  }

pub fail_task-inv :
    (clock : Clock) (task : String) (version : ℕ) (attempt code : String) (db : Db) (t : Task)
    (db' : Db)
    → fail_task clock task version attempt code db ≡ ok (t, db')
    → (count_rows (is_at task version "running") db.runtime_tasks ≡ 1)
      × (db' ≡ record db {
        runtime_tasks =
            update_rows
              (is_at task version "running")
              (fail_row clock "failed" (code_or code "internal"))
              db.runtime_tasks;
        runtime_attempts =
            update_rows
              (λ (a : TaskAttempt). str_eq a.id attempt)
              (end_attempt "failed" (code_or code "internal") clock)
              db.runtime_attempts;
        runtime_message_actions =
            update_rows
              (is_unsettled_of task attempt)
              (lose_message clock (code_or code "internal"))
              db.runtime_message_actions;
      })
unfolding fail_task
fail_task-inv clock task version attempt code db t db' h =
    fail_if-elim (not (count_rows (is_at task version "running") db.runtime_tasks == 1)) conflict _
      h λ one h. >>=-elim (read_task _ task) _ h λ done _ h. (ground arith, ok-state h)

pub set_status-inv :
    (clock : Clock) (id status : String) (db : Db) (t : Task) (db' : Db)
    → set_status clock id status db ≡ ok (t, db')
    → (old : Task) × (read_task db id ≡ ok old)
      × (check_transition db old status ≡ ok tt)
      × (db'
          ≡ stale_task_work clock id (record db {
            runtime_tasks = update_rows (is_task id) (reset_task clock status) db.runtime_tasks;
          }))
unfolding set_status
set_status-inv clock id status db t db' h = >>=-elim (read_task db id) _ h λ old found h.
    fail_if-elim (str_eq status "pending" && str_eq old.kind "memory") denied _ h λ _ h.
      >>=-elim (check_transition db old status) _ h
        λ _ allowed h. >>=-elim (read_task _ id) _ h λ done _ h. (old, found, allowed, ok-state h)
