-- ===== src/Tasks/History.antt =====
-- core/runtime.go: the calls on tasks and their actions, as a history. The last six are what the rest
-- of the program does to tasks that are there (Tasks.Revised).
pub mod Edges
pub mod Steps
pub mod Ends
pub mod Counted
pub mod Active
pub mod Limit
pub mod Single
pub mod Fence
pub mod States
pub mod Completed
pub mod Confirmed
mod Tests
use memgov.Base.{ℕ, String, Bool, Option, List, [], ◌∷◌, Clock, after}
use memgov.Schema.{Db}
use memgov.Schema.Tasks.{Task, MessageAction}
use memgov.Policy.{Digests}
use memgov.Tasks.{Evidence, Formats, set_workspace}
use memgov.Tasks.Claim.{Worker, claim_task}
use memgov.Tasks.Outcome.{complete_task, fail_task, set_status}
use memgov.Tasks.Proposed.{AttemptResult}
use memgov.Tasks.Confirm.{confirm_action}
use memgov.Tasks.Actions.{claim_action, complete_action, fail_action, unknown_action}
use memgov.Tasks.Recovery.{recover_runtime}
use memgov.Tasks.Reconfigured.{invalidate}
use memgov.Tasks.Revised.{
  Decision, revise_task, decide_task, reject_card, resume_task, expire_tasks, redact_work,
}

pub data Call : Type 0 where
  claim : Clock → Bool → String → Worker → Call
  workspace : String → String → Call
  complete : Clock → (ℕ → String) → String → ℕ → String → AttemptResult → Call
  fail : Clock → String → ℕ → String → String → Call
  set : Clock → String → String → Call
  confirm : Clock → String → String → Call
  begin : Clock → Bool → String → Worker → Call
  finish : Clock → String → String → ℕ → AttemptResult → Call
  give_up : Clock → String → String → ℕ → String → Call
  lose : Clock → String → String → ℕ → String → Call
  recover : Clock → String → Call
  reconfigure : Clock → String → Call
  revise : Clock → Bool → String → Call
  decide : Clock → String → Bool → Decision → String → Call
  reject : Clock → String → String → List String → String → ℕ → Call
  proceed : Clock → String → String → ℕ → Call
  expire : (MessageAction → Bool) → String → Call
  redact : (String → String) → Call

-- What the calls take from outside the model.
pub record Outside : Type 0 where
  pub julianday : String → Option ℕ
  pub digests : Digests
  pub task_digest : Task → String
  pub evidence : Evidence
  pub formats : Formats

module _ (o : Outside) where
  abbrev pub step : Db → Call → Db
  step db (claim clock in_memory runtime w) =
      after db (claim_task o.digests o.task_digest clock in_memory runtime w db)
  step db (workspace id dir) = after db (set_workspace id dir db)
  step db (complete clock new_id task version attempt r) = after db (
      complete_task o.julianday o.digests o.evidence o.formats clock new_id task version attempt r
        db)
  step db (fail clock task version attempt code) =
      after db (fail_task clock task version attempt code db)
  step db (set clock id status) = after db (set_status clock id status db)
  step db (confirm clock id message) =
      after db (confirm_action o.julianday o.evidence o.formats clock id message db)
  step db (begin clock in_memory runtime w) =
      after db (claim_action o.digests o.evidence o.formats clock in_memory runtime w db)
  step db (finish clock id attempt version r) =
      after db
        (complete_action o.digests o.evidence o.formats o.julianday clock id attempt version r db)
  step db (give_up clock id attempt version code) =
      after db (fail_action clock id attempt version code db)
  step db (lose clock id attempt version code) =
      after db (unknown_action clock id attempt version code db)
  step db (recover clock runtime) = after db (recover_runtime clock runtime db)
  step db (reconfigure clock runtime) = after db (invalidate clock runtime db)
  step db (revise clock recalled id) = revise_task clock recalled id db
  step db (decide clock route proactive d id) = after db (decide_task clock route proactive d id db)
  step db (reject clock owner origin ids task version) =
      after db (reject_card clock owner origin ids task version db)
  step db (proceed clock text id version) = after db (resume_task clock text id version db)
  step db (expire cites message) = expire_tasks cites message db
  step db (redact f) = redact_work f db

  unfoldable pub run : Db → List Call → Db
  run db [] = db
  run db (c ∷ cs) = run (step db c) cs

  -- What every call keeps, every history keeps.
  pub run-keeps :
      (P : Db → Type 0)
      → ((db : Db) (c : Call) → P db → P (step db c))
      → (db : Db) (cs : List Call) → P db
      → P (run db cs)
  unfolding run
  run-keeps P keep db [] p = p
  run-keeps P keep db (c ∷ cs) p = run-keeps P keep (step db c) cs (keep db c p)
