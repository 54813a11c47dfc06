-- ===== src/Tasks/Moves.antt =====
-- core/runtime.go: what each call does to the rows of `runtime_tasks`: a few updates, each of which
-- keeps what a task is and takes it along an edge.
use memgov.Base.{
  ℕ, ◌+◌, ◌≡◌, refl, String, Bool, true, false, List, [], ◌∷◌, ok, arith, Clock, contains,
  update_rows, str_eq, eq_iff, ◌⊎◌, inl, inr, Bool-cases, if◌then◌else◌,
}
use memgov.Schema.Runtimes.{Runtime}
use memgov.Schema.Tasks.{Task}
use memgov.Tasks.{Formats, is_task}
use memgov.Tasks.Claim.{is_at, start_task}
use memgov.Tasks.Outcome.{finish_task, fail_row, reset_task}
use memgov.Tasks.Proposed.{ActionInput, AttemptResult, final_status}
use memgov.Tasks.Actions.{add_result}
use memgov.Tasks.Reconfigured.{unfinished, is_unfinished, outdate}
use memgov.Tasks.Recovery.{is_task_in, recover_tasks, restarted}

-- Where a task may go in the same version.
abbrev pub forward : String → List String
forward s =
    if str_eq s "pending"
    then "running" ∷ []
    else if str_eq s "running"
    then "completed" ∷ "awaiting_confirmation" ∷ "blocked" ∷ "failed" ∷ []
    else if str_eq s "awaiting_confirmation"
    then "completed" ∷ "action_failed" ∷ "action_unknown" ∷ "cancelled" ∷ []
    else []

-- It stays the task of its runtime, under its key.
pub record SameTask (t u : Task) : Type 0 where
  pub id : u.id ≡ t.id
  pub runtime : u.runtime_id ≡ t.runtime_id
  pub key : u.canonical_key ≡ t.canonical_key

-- Route, kind and title stay.
abbrev pub SameOrder : Task → Task → Type 0
SameOrder t u = (u.route_id ≡ t.route_id) × (u.kind ≡ t.kind) × (u.title ≡ t.title)

-- How a task may start another version.
abbrev pub starts : List String
starts = "pending" ∷ "cancelled" ∷ "stale" ∷ "completed" ∷ "clarification" ∷ []

-- In its version a task goes along an edge and stays what it is. Where a call may reset tasks, one
-- starts a new version; so does an unfinished one that has become stale. Where a call may erase
-- texts, the instructions and the result may change in the same version and state.
abbrev pub Edge : Bool → Bool → Task → Task → Type 0
Edge resets erases t u =
    ((u.version ≡ t.version)
      × SameOrder t u
      × (u.instructions ≡ t.instructions)
      × (contains (forward t.status) u.status ≡ true))
    ⊎ ((resets ≡ true) × (u.version ≡ t.version + 1) × (contains starts u.status ≡ true))
    ⊎ ((contains unfinished t.status ≡ true) × (u.version ≡ t.version + 1) × (u.status ≡ "stale"))
    ⊎ ((erases ≡ true) × (u.version ≡ t.version) × SameOrder t u × (u.status ≡ t.status))

-- Updates that go along edges.
pub data Moves (resets erases : Bool) (s : List Task) : List Task → Type 0 where
  stay : Moves resets erases s s
  move :
      {u : List Task} (q : Task → Bool) (f : Task → Task)
      → ((t : Task) → SameTask t (f t))
      → ((t : Task) → q t ≡ true → Edge resets erases t (f t))
      → Moves resets erases s u
      → Moves resets erases s (update_rows q f u)

pub start-Moves :
    (clock : Clock) (id : String) (version : ℕ) (tasks : List Task)
    → Moves false false tasks (update_rows (is_at id version "pending") (start_task clock) tasks)
unfolding is_at start_task
start-Moves clock id version tasks =
    move (is_at id version "pending") (start_task clock)
      (λ t. record { id = refl; runtime = refl; key = refl })
      (λ t h. inl (refl, (refl, refl, refl), refl, ground (arith, eq_iff t.status "pending"))) stay

-- How a task ends when an attempt is completed.
final_status-cases :
    (formats : Formats) (c : Runtime) (prepared : ℕ) (actions : List ActionInput) (s : String)
    → final_status formats c prepared actions ≡ ok s
    → (s ≡ "completed") ⊎ (s ≡ "awaiting_confirmation") ⊎ (s ≡ "blocked")
unfolding final_status
final_status-cases formats c prepared actions s h = ground arith

final_status-forward :
    (formats : Formats) (c : Runtime) (prepared : ℕ) (actions : List ActionInput) (s : String)
    → final_status formats c prepared actions ≡ ok s
    → contains (forward "running") s ≡ true
final_status-forward formats c prepared actions s h =
    elim (final_status-cases formats c prepared actions s h) [
      | inl e ↦ rw e refl
      | inr r ↦ elim r [ inl e ↦ rw e refl | inr e ↦ rw e refl ]
    ]

-- A row at a version and state goes along an edge from that state.
row-Moves :
    (id : String) (version : ℕ) (status next : String) (f : Task → Task) (tasks : List Task)
    → ((t : Task) → SameTask t (f t))
    → ((t : Task)
        → ((f t).version ≡ t.version)
          × ((f t).status ≡ next)
          × SameOrder t (f t)
          × ((f t).instructions ≡ t.instructions))
    → contains (forward status) next ≡ true
    → Moves false false tasks (update_rows (is_at id version status) f tasks)
unfolding is_at
row-Moves id version status next f tasks same goes edge =
    move (is_at id version status) f same
      (λ t h.
        let here : t.status ≡ status = ground (arith, eq_iff t.status status) in
        let (version_same, goes_to, order, text) = goes t in
        inl (version_same, order, text, rw (goes_to, here) edge))
      stay

pub finish-Moves :
    (formats : Formats) (c : Runtime) (prepared : ℕ) (actions : List ActionInput) (clock : Clock)
    (id : String) (version : ℕ) (status : String) (r : AttemptResult) (tasks : List Task)
    → final_status formats c prepared actions ≡ ok status
    → Moves false false tasks
        (update_rows (is_at id version "running") (finish_task clock status r) tasks)
unfolding finish_task
finish-Moves formats c prepared actions clock id version status r tasks h =
    row-Moves id version "running" status (finish_task clock status r) tasks
      (λ t. record { id = refl; runtime = refl; key = refl })
      (λ t. (refl, refl, (refl, refl, refl), refl))
      (final_status-forward formats c prepared actions status h)

fail-SameTask :
    (clock : Clock) (status code : String) (t : Task) → SameTask t (fail_row clock status code t)
unfolding fail_row
fail-SameTask clock status code t = record { id = refl; runtime = refl; key = refl }

pub fail-Moves :
    (clock : Clock) (id : String) (version : ℕ) (status next code : String) (tasks : List Task)
    → contains (forward status) next ≡ true
    → Moves false false tasks
        (update_rows (is_at id version status) (fail_row clock next code) tasks)
unfolding fail_row
fail-Moves clock id version status next code tasks edge =
    row-Moves id version status next (fail_row clock next code) tasks
      (fail-SameTask clock next code) (λ t. (refl, refl, (refl, refl, refl), refl)) edge

pub add_result-Moves :
    (clock : Clock) (id : String) (version : ℕ) (r : AttemptResult) (tasks : List Task)
    → Moves false false tasks
        (update_rows (is_at id version "awaiting_confirmation") (add_result clock r) tasks)
unfolding add_result
add_result-Moves clock id version r tasks =
    row-Moves id version "awaiting_confirmation" "completed" (add_result clock r) tasks
      (λ t. record { id = refl; runtime = refl; key = refl })
      (λ t. (refl, refl, (refl, refl, refl), refl)) refl

pub reset-Moves :
    (clock : Clock) (id status : String) (tasks : List Task)
    → contains starts status ≡ true
    → Moves true false tasks (update_rows (is_task id) (reset_task clock status) tasks)
unfolding reset_task
reset-Moves clock id status tasks h =
    move (is_task id) (reset_task clock status)
      (λ t. record { id = refl; runtime = refl; key = refl }) (λ t _. inr (inl (refl, refl, h)))
      stay

pub recover-Moves :
    (clock : Clock) (runtime : String) (lost : Bool) (tasks : List Task)
    → Moves false false tasks (recover_tasks clock runtime lost tasks)
unfolding recover_tasks is_task_in fail_row
recover-Moves clock runtime lost tasks =
    let failed : Moves false false tasks
        (update_rows (is_task_in "running" runtime) (fail_row clock "failed" restarted) tasks) =
      move (is_task_in "running" runtime) (fail_row clock "failed" restarted)
        (fail-SameTask clock "failed" restarted)
        (λ t h.
          let here : t.status ≡ "running" = ground (arith, eq_iff t.status "running") in
          inl (refl, (refl, refl, refl), refl, rw here refl))
        stay in
    elim (Bool-cases lost) [
      | inr e ↦ rw e failed
      | inl e ↦ rw e (
          move (is_task_in "awaiting_confirmation" runtime)
            (fail_row clock "action_unknown" restarted)
            (fail-SameTask clock "action_unknown" restarted)
            (λ t h.
              let here : t.status ≡ "awaiting_confirmation" =
                ground (arith, eq_iff t.status "awaiting_confirmation") in
              inl (refl, (refl, refl, refl), refl, rw here refl))
            failed)
    ]

pub outdate-Moves :
    (clock : Clock) (runtime : String) (tasks : List Task)
    → Moves false false tasks (update_rows (is_unfinished runtime) (outdate clock) tasks)
unfolding outdate is_unfinished
outdate-Moves clock runtime tasks =
    move (is_unfinished runtime) (outdate clock)
      (λ t. record { id = refl; runtime = refl; key = refl })
      (λ t h. inr (inr (inl (ground arith, refl, refl)))) stay
