-- ===== src/Tasks/History/Active.antt =====
-- core/runtime_scheduling.go: the count of active attempts through the changes of tasks and attempts.
use memgov.Base.{
  ℕ, ◌+◌, ◌≤◌, ◌≡◌, refl, ap, ◌∙◌, String, Bool, ◌&&◌, List, [], ◌∷◌, ◌++◌, str_eq, eq_refl, arith,
  Any, count_rows, ltb, find_row-member, if◌then◌else◌,
}
use memgov.Base.Table.{count_rows-append}
use memgov.Base.Counts.{count_rows-key, count_rows-update_eq, count_rows-update_fewer}
use memgov.Schema.{Db}
use memgov.Schema.Tasks.{Task, TaskAttempt, ActionAttempt}
use memgov.Work.Capacity.{of_runtime, is_running, is_executing}
use memgov.Tasks.{is_task}
use memgov.Tasks.Claim.Served.{OneEach}
use memgov.Tasks.Moves.{Moves, stay, move}
use memgov.Tasks.History.Ends.{Ends, same_rows, end_tasks, end_actions}

-- Tasks stay with their runtimes, and their ids stay unique.
Moves-of_runtime :
    (b er : Bool) (s u : List Task) (runtime id : String)
    → Moves b er s u
    → of_runtime u runtime id ≡ of_runtime s runtime id
unfolding of_runtime
Moves-of_runtime b er s _ runtime id stay = refl
Moves-of_runtime b er s _ runtime id (move {u} q f same edge m) =
    ap (ltb 0) (
      count_rows-update_eq (λ (t : Task). str_eq t.id id && str_eq t.runtime_id runtime) q f u
        (λ t. rw ((same t).id, (same t).runtime) refl))
    ∙ Moves-of_runtime b er s u runtime id m

pub Moves-count :
    (b er : Bool) (s u : List Task) (id : String)
    → Moves b er s u
    → count_rows (is_task id) u ≡ count_rows (is_task id) s
unfolding is_task
Moves-count b er s _ id stay = refl
Moves-count b er s _ id (move {u} q f same edge m) =
    count_rows-update_eq (is_task id) q f u (λ t. rw ((same t).id) refl) ∙ Moves-count b er s u id m

abbrev pub active : List Task → String → List TaskAttempt → List ActionAttempt → ℕ
active tasks runtime s r =
    count_rows (is_running tasks runtime) s + count_rows (is_executing tasks runtime) r

pub active-Moves :
    (b er : Bool) (t u : List Task) (runtime : String) (s : List TaskAttempt)
    (r : List ActionAttempt)
    → Moves b er t u
    → active u runtime s r ≡ active t runtime s r
unfolding is_running is_executing
active-Moves b er t u runtime s r m =
    let e : of_runtime u runtime ≡ of_runtime t runtime =
      λ i id. Moves-of_runtime b er t u runtime id m i in
    ap
      (λ (p : String → Bool).
        count_rows (λ (a : TaskAttempt). p a.task_id && str_eq a.status "running") s
        + count_rows (λ (a : ActionAttempt). p a.task_id && str_eq a.status "running") r)
      e

-- Attempts that end are not more.
pub Ends-le :
    (tasks : List Task) (runtime : String) (s : List TaskAttempt) (r : List ActionAttempt)
    (u : List TaskAttempt) (v : List ActionAttempt)
    → Ends s r u v
    → active tasks runtime u v ≤ active tasks runtime s r
unfolding is_running is_executing
Ends-le tasks runtime s r _ _ same_rows = omega arith
Ends-le tasks runtime s r _ v (end_tasks {u} q f k m) = omega (
  arith,
  Ends-le tasks runtime s r u v m,
  count_rows-update_fewer (is_running tasks runtime) q f u
      (λ a _ h. let (same, over) = k a in ground (arith, ap (of_runtime tasks runtime) same)),
)
Ends-le tasks runtime s r u _ (end_actions {v = v} q f k m) = omega (
  arith,
  Ends-le tasks runtime s r u v m,
  count_rows-update_fewer (is_executing tasks runtime) q f v
      (λ a _ h. let (same, over) = k a in ground (arith, ap (of_runtime tasks runtime) same)),
)

-- The task of a new attempt belongs to one runtime.
of_runtime-own :
    (db : Db) (t : Task) (runtime : String)
    → OneEach db
    → Any (λ u. u ≡ t) db.runtime_tasks
    → of_runtime db.runtime_tasks runtime t.id ≡ str_eq t.runtime_id runtime
unfolding of_runtime is_task
of_runtime-own db t runtime one member =
    let n : count_rows (λ (u : Task). str_eq u.id t.id && str_eq u.runtime_id runtime)
          db.runtime_tasks
        ≡ (if str_eq t.runtime_id runtime then 1 else 0) =
      count_rows-key (is_task t.id) (λ u. str_eq u.runtime_id runtime) db.runtime_tasks (one t.id)
      ∙ rw (find_row-member (is_task t.id) db.runtime_tasks t (one t.id) (eq_refl t.id) member)
          refl in
    ap (ltb 0) n ∙ ground arith

-- A new attempt counts for its task's runtime alone.
pub begun_le :
    (db : Db) (t : Task) (runtime : String) (s : List TaskAttempt) (r : List ActionAttempt)
    → OneEach db
    → Any (λ u. u ≡ t) db.runtime_tasks
    → ((a : TaskAttempt)
        → a.task_id ≡ t.id
        → active db.runtime_tasks runtime (s ++ a ∷ []) r
          ≤ active db.runtime_tasks runtime s r + (if str_eq t.runtime_id runtime then 1 else 0))
      × ((a : ActionAttempt)
          → a.task_id ≡ t.id
          → active db.runtime_tasks runtime s (r ++ a ∷ [])
            ≤ active db.runtime_tasks runtime s r + (if str_eq t.runtime_id runtime then 1 else 0))
unfolding is_running is_executing count_rows
begun_le db t runtime s r one member =
    let own = of_runtime-own db t runtime one member in
    (
      λ a e. ground (
        arith,
        count_rows-append (is_running db.runtime_tasks runtime) s (a ∷ []),
        ap (of_runtime db.runtime_tasks runtime) e,
        own,
      ),
      λ a e. ground (
        arith,
        count_rows-append (is_executing db.runtime_tasks runtime) r (a ∷ []),
        ap (of_runtime db.runtime_tasks runtime) e,
        own,
      ),
    )
