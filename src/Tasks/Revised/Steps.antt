-- ===== src/Tasks/Revised/Steps.antt =====
-- core/runtime.go and its neighbours: what the calls of Tasks.Revised do to tasks, actions and attempts.
use memgov.Base.{
  ℕ, ◌+◌, ◌≡◌, refl, sym, subst, String, Bool, true, false, ◌&&◌, List, ok, Clock, contains,
  has_row, update_rows, count_rows, str_eq, inl, inr, ◌==◌, not, fail_if-elim, >>=-elim, ok-state,
  Bool-cases, arith, if◌then◌else◌,
}
use memgov.Schema.{Db}
use memgov.Schema.Tasks.{Task, TaskMessage}
use memgov.Tasks.{
  is_task, read_task, stale_task_work, is_started_action, is_open_action, is_action_run,
  is_task_run, end_action_attempt, end_attempt,
}
use memgov.Tasks.Claim.{is_at}
use memgov.Tasks.Moves.{SameTask, Moves, stay, move, starts}
use memgov.Tasks.Acts.{ActsTo, rest, close, settle}
use memgov.Tasks.History.Ends.{EndsTo, same_rows, end_tasks, end_actions}
use memgov.Tasks.Revised.{
  Decision, revise_task, revise_row, is_live, decide_task, close_row, closed_as, closes, plan_row,
  planned_as, link_all, resume_task, resume_row,
}

-- Rows that start another version.
abbrev pub Restarts : (Task → Task) → Type 0
Restarts f =
    (t : Task)
    → SameTask t (f t) × ((f t).version ≡ t.version + 1) × (contains starts (f t).status ≡ true)

pub restart-Moves :
    (q : Task → Bool) (f : Task → Task) (tasks : List Task)
    → Restarts f
    → Moves true false tasks (update_rows q f tasks)
restart-Moves q f tasks k = move q f (λ t. (k t).0) (λ t _. inr (inl (refl, (k t).1, (k t).2))) stay

-- Withdrawing the work on a task, whatever else is written to other tables.
module _ (clock : Clock) (id : String) (db : Db) where
  pub stale-Acts : (may : String → Bool) → ActsTo may db (stale_task_work clock id db)
  unfolding stale_task_work end_action_attempt
  stale-Acts may = close (is_started_action id) "unknown" clock refl (
      close (is_open_action id) "stale" clock refl (
        settle (is_action_run id) (end_action_attempt "unknown" "task_changed" clock) (λ r. refl)
          rest))

  pub stale-EndsTo : EndsTo db (stale_task_work clock id db)
  unfolding stale_task_work end_action_attempt end_attempt
  stale-EndsTo = (
    refl,
    end_tasks (is_task_run id) (end_attempt "stale" "task_changed" clock) (λ a. (refl, λ x. cc))
        (end_actions (is_action_run id) (end_action_attempt "unknown" "task_changed" clock)
          (λ a. (refl, λ x. cc)) same_rows),
  )

-- A call that restarts tasks and withdraws the work on one, or writes links only.
pub data Reworks (clock : Clock) (id : String) (db : Db) : Db → Type 0 where
  links_only :
      (links : List TaskMessage) → Reworks clock id db (record db { runtime_task_messages = links })
  restarted :
      (q : Task → Bool) (f : Task → Task) (links : List TaskMessage)
      → Restarts f
      → Reworks clock id db (
          stale_task_work clock id (record db {
            runtime_tasks = update_rows q f db.runtime_tasks;
            runtime_task_messages = links;
          }))

module _ (clock : Clock) (id : String) (db : Db) where
  pub Reworks-Moves :
      (db' : Db) → Reworks clock id db db' → Moves true false db.runtime_tasks db'.runtime_tasks
  unfolding stale_task_work
  Reworks-Moves _ (links_only links) = stay
  Reworks-Moves _ (restarted q f links k) = restart-Moves q f db.runtime_tasks k

  pub Reworks-Acts : (may : String → Bool) (db' : Db) → Reworks clock id db db' → ActsTo may db db'
  Reworks-Acts may _ (links_only links) = rest
  Reworks-Acts may _ (restarted q f links k) =
      stale-Acts clock id
        (record db {
          runtime_tasks = update_rows q f db.runtime_tasks;
          runtime_task_messages = links;
        })
        may

  pub Reworks-EndsTo : (db' : Db) → Reworks clock id db db' → EndsTo db db'
  Reworks-EndsTo _ (links_only links) = (refl, same_rows)
  Reworks-EndsTo _ (restarted q f links k) = stale-EndsTo clock id (record db {
    runtime_tasks = update_rows q f db.runtime_tasks;
    runtime_task_messages = links;
  })

either_starts :
    (b : Bool) (x y : String)
    → contains starts x ≡ true
    → contains starts y ≡ true
    → contains starts (if b then x else y) ≡ true
either_starts true x y p q = p
either_starts false x y p q = q

revise-Restarts : (clock : Clock) (recalled : Bool) → Restarts (revise_row clock recalled)
unfolding revise_row
revise-Restarts clock recalled t =
    (record { id = refl; runtime = refl; key = refl }, refl, either_starts recalled _ _ refl refl)

pub revise-Reworks :
    (clock : Clock) (recalled : Bool) (id : String) (db : Db)
    → Reworks clock id db (revise_task clock recalled id db)
unfolding revise_task
revise-Reworks clock recalled id db = elim (Bool-cases (has_row (is_live id) db.runtime_tasks)) [
  | inr e ↦ rw e (links_only db.runtime_task_messages)
  | inl e ↦ rw e (
      restarted (is_live id) (revise_row clock recalled) db.runtime_task_messages
        (revise-Restarts clock recalled))
]

close-Restarts : (clock : Clock) (d : Decision) → Restarts (close_row clock d)
unfolding close_row closed_as
close-Restarts clock d t = (
  record { id = refl; runtime = refl; key = refl },
  refl,
  either_starts (str_eq d.kind "cancel") _ _ refl refl,
)

plan-Restarts :
    (clock : Clock) (route : String) (proactive : Bool) (d : Decision)
    → Restarts (plan_row clock route proactive d)
unfolding plan_row planned_as
plan-Restarts clock route proactive d t = (
  record { id = refl; runtime = refl; key = refl },
  refl,
  either_starts (d.unclear && not proactive) _ _ refl refl,
)

pub decide-Reworks :
    (clock : Clock) (route : String) (proactive : Bool) (d : Decision) (id : String) (db : Db)
    (t : Task) (db' : Db)
    → decide_task clock route proactive d id db ≡ ok (t, db')
    → Reworks clock id db db'
unfolding decide_task
decide-Reworks clock route proactive d id db t db' h = >>=-elim (read_task db id) _ h λ old _ h.
    fail_if-elim (str_eq old.kind "memory") _ _ h λ _ h. elim (Bool-cases (closes d old)) [
      | inr e ↦
          let same : db'
              ≡ stale_task_work clock id (record db {
                runtime_tasks =
                    update_rows (is_task id) (plan_row clock route proactive d) db.runtime_tasks;
                runtime_task_messages = link_all id "trigger" d.messages db.runtime_task_messages;
              }) =
            ground arith in
          subst (Reworks clock id db) (sym same) (
            restarted (is_task id) (plan_row clock route proactive d) _
              (plan-Restarts clock route proactive d))
      | inl e ↦ elim (Bool-cases (str_eq old.status (closed_as d))) [
        | inl k ↦
            let same : db' ≡ record db {
              runtime_task_messages = link_all id "followup" d.messages db.runtime_task_messages;
            } =
              ground arith in
            subst (Reworks clock id db) (sym same) (links_only _)
        | inr k ↦
            let same : db'
                ≡ stale_task_work clock id (record db {
                  runtime_tasks = update_rows (is_task id) (close_row clock d) db.runtime_tasks;
                  runtime_task_messages =
                      link_all id "followup" d.messages db.runtime_task_messages;
                }) =
              ground arith in
            subst (Reworks clock id db) (sym same)
              (restarted (is_task id) (close_row clock d) _ (close-Restarts clock d))
      ]
    ]

resume-Restarts : (clock : Clock) (text : String) → Restarts (resume_row clock text)
unfolding resume_row
resume-Restarts clock text t = (record { id = refl; runtime = refl; key = refl }, refl, refl)

pub resume-Reworks :
    (clock : Clock) (text id : String) (version : ℕ) (db : Db) (u : Unit {0}) (db' : Db)
    → resume_task clock text id version db ≡ ok (u, db')
    → Reworks clock id db db'
unfolding resume_task
resume-Reworks clock text id version db u db' h =
    fail_if-elim (not (count_rows (is_at id version "failed") db.runtime_tasks == 1)) _ _ h λ _ e.
      subst (Reworks clock id db) (sym (ok-state e)) (
        restarted (is_at id version "failed") (resume_row clock text) db.runtime_task_messages
          (resume-Restarts clock text))
