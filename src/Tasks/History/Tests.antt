-- ===== src/Tasks/History/Tests.antt =====
-- Histories of calls on concrete tasks.
use memgov.Base.{
  ℕ, ◌≤◌, ◌≡◌, refl, String, false, some, List, [], ◌∷◌, ok, Clock, arith, find_row, count_rows,
  update_rows, ◌⊎◌, Bool-cases, str_eq,
}
use memgov.Schema.{Db, empty}
use memgov.Schema.Tasks.{Task}
use memgov.Tasks.{is_task, read_task, stale_task_work}
use memgov.Tasks.Samples.{clock, outside, waiting, with_task, task}
use memgov.Tasks.Claim.{Worker}
use memgov.Tasks.Outcome.{complete_task, fail_task, set_status, check_transition, reset_task}
use memgov.Tasks.Proposed.{AttemptResult}
use memgov.Tasks.Confirm.{is_action}
use memgov.Tasks.Actions.{is_action_in}
use memgov.Tasks.Once.{WellFormed, is_run_of, is_unstarted}
use memgov.Tasks.Moves.{SameTask}
use memgov.Tasks.History.{
  Call, claim, set, confirm, begin, recover, revise, decide, reject, redact, run,
}
use memgov.Tasks.History.Steps.{confirms}
use memgov.Tasks.History.Single.{action_runs_once}
use memgov.Tasks.History.Confirmed.{nothing_runs_unconfirmed}
use memgov.Tasks.History.States.{Continues, task_follows_edges}
use memgov.Tasks.History.Edges.{Along, erases}
use memgov.Tasks.History.Completed.{completed_for_good}
use memgov.Policy.{read_runtime, scanned}
use memgov.Work.Capacity.{active_attempts}
use memgov.Tasks.Claim.Served.{OneEach}
use memgov.Tasks.History.Limit.{LimitedBy, runtime_stays_within_limit}
use memgov.Tasks.History.Fence.{earlier_version_refused}

abbrev worker : Worker
worker = record { attempt_id = "w1"; model = "m"; preset = ""; commit = ""; workspace = "" }

-- A worker takes the action and its process dies; the restarted one looks for work again.
abbrev interrupted : List Call
interrupted =
    begin clock false "rt1" worker
    ∷ recover clock "rt1"
    ∷ set clock "t1" "pending"
    ∷ claim clock false "rt1" worker
    ∷ begin clock false "rt1" worker
    ∷ []

abbrev confirmed : List Call
confirmed = confirm clock "a1" "m1" ∷ interrupted

waiting-WellFormed : WellFormed waiting.runtime_pending_actions waiting.runtime_action_attempts
unfolding empty is_action is_unstarted is_run_of count_rows
waiting-WellFormed id = ground (arith, Bool-cases (str_eq "a1" id))

action_runs_once_example :
    count_rows (is_run_of "a1") (run outside waiting confirmed).runtime_action_attempts ≤ 1
action_runs_once_example = action_runs_once outside waiting confirmed "a1" waiting-WellFormed

not_confirmed_yet : count_rows (is_action_in "confirmed" "a1") waiting.runtime_pending_actions ≡ 0
unfolding empty is_action_in count_rows
not_confirmed_yet = refl

not_run_yet : count_rows (is_run_of "a1") waiting.runtime_action_attempts ≡ 0
unfolding empty count_rows
not_run_yet = refl

never_confirmed : count_rows (confirms "a1") interrupted ≡ 0
unfolding confirms count_rows
never_confirmed = refl

nothing_runs_unconfirmed_example :
    count_rows (is_run_of "a1") (run outside waiting interrupted).runtime_action_attempts ≡ 0
nothing_runs_unconfirmed_example =
    nothing_runs_unconfirmed outside waiting interrupted "a1" not_confirmed_yet not_run_yet
      never_confirmed

stored : (s : String) → find_row (is_task "t1") (with_task (task s)).runtime_tasks ≡ some (task s)
unfolding empty is_task find_row
stored s = refl

-- A card is rejected, and then a batch plans the task anew.
abbrev rejected : List Call
rejected =
    reject clock "p1" "card" [] "t1" 1
    ∷ decide clock "r1" false
        (record {
          kind = "update";
          title = "again";
          instructions = "once more";
          unclear = false;
          messages = ("m2", 1) ∷ [];
        })
        "t1"
    ∷ []

task_follows_edges_example :
    (u : Task) × (find_row
        (is_task "t1")
        (run outside (with_task (task "awaiting_confirmation")) rejected).runtime_tasks
      ≡ some u)
    × SameTask (task "awaiting_confirmation") u
    × Continues (task "awaiting_confirmation") u
    × Along (task "awaiting_confirmation") u
task_follows_edges_example =
    task_follows_edges outside (with_task (task "awaiting_confirmation")) rejected "t1"
      (task "awaiting_confirmation") (stored "awaiting_confirmation")

-- The texts of a completed task are redacted, and then a message of it is edited.
abbrev edited : List Call
edited = redact (λ t. "expired") ∷ revise clock false "t1" ∷ []

completed_for_good_example :
    (u : Task) × (find_row
        (is_task "t1")
        (run outside (with_task (task "completed")) edited).runtime_tasks
      ≡ some u)
    × ((2 ≤ u.version)
        ⊎ ((u.version ≡ 1)
            × (u.status ≡ "completed")
            × ((u ≡ task "completed") ⊎ (1 ≤ count_rows erases edited))))
completed_for_good_example =
    completed_for_good outside (with_task (task "completed")) edited "t1" (task "completed")
      (stored "completed") refl

abbrev cancelled_db : Db
cancelled_db = stale_task_work clock "t1" (record (with_task (task "running")) {
  runtime_tasks = reset_task clock "cancelled" (task "running") ∷ [];
})

cancels :
    set_status clock "t1" "cancelled" (with_task (task "running"))
    ≡ ok (reset_task clock "cancelled" (task "running"), cancelled_db)
unfolding set_status read_task is_task empty find_row check_transition reset_task update_rows
    stale_task_work
cancels = refl

one_row : count_rows (is_task "t1") (with_task (task "running")).runtime_tasks ≤ 1
unfolding empty is_task count_rows
one_row = omega arith

earlier_version_refused_example :
    ((at_ : Clock) (new_id : ℕ → String) (attempt : String) (r : AttemptResult) (p : Task × Db)
      → ¬ (
          complete_task outside.julianday outside.digests outside.evidence outside.formats at_
            new_id "t1" 1 attempt r
            (run outside cancelled_db interrupted)
          ≡ ok p))
    × ((at_ : Clock) (attempt code : String) (p : Task × Db)
        → ¬ (fail_task at_ "t1" 1 attempt code (run outside cancelled_db interrupted) ≡ ok p))
earlier_version_refused_example =
    earlier_version_refused outside clock "t1" "cancelled" (with_task (task "running"))
      (task "running") (reset_task clock "cancelled" (task "running")) cancelled_db interrupted 1
      (stored "running") one_row cancels (omega arith)

tasks_apart : OneEach waiting
unfolding empty is_task count_rows
tasks_apart id = ground arith

for_one : LimitedBy 1 "rt1" waiting
unfolding read_runtime scanned find_row empty
for_one value c found same = ground arith

none_active : active_attempts waiting "rt1" ≤ 1
unfolding active_attempts empty count_rows
none_active = omega arith

runtime_stays_within_limit_example : active_attempts (run outside waiting confirmed) "rt1" ≤ 1
runtime_stays_within_limit_example =
    runtime_stays_within_limit outside 1 "rt1" waiting confirmed tasks_apart for_one none_active
