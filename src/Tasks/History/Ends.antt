-- ===== src/Tasks/History/Ends.antt =====
-- core/runtime.go: what each call does to the attempts, and which attempts it begins.
use memgov.Base.{
  ℕ, ◌≡◌, refl, sym, subst, String, Bool, true, false, Option, [], ◌∷◌, ok, Clock, str_eq, inl, inr,
  List, update_rows, ◌++◌, ◌⊎◌, ap, ◌∙◌, Any, true_ne_false,
}
use memgov.Schema.{Db}
use memgov.Schema.Tasks.{Task, PendingAction, TaskAttempt, ActionAttempt}
use memgov.Schema.Runtimes.{Runtime}
use memgov.Policy.{read_runtime}
use memgov.Tasks.Claim.Served.{next_task-own}
use memgov.Tasks.Actions.Due.{next_action-due}
use memgov.Tasks.{stale_task_work, end_action_attempt, end_attempt}
use memgov.Tasks.Claim.{Worker, claim_task, is_full}
use memgov.Tasks.Claim.Results.{claim_task-inv}
use memgov.Tasks.Outcome.{complete_task, fail_task, set_status, finish_attempt}
use memgov.Tasks.Proposed.{AttemptResult}
use memgov.Tasks.Outcome.Results.{complete_task-Completed, fail_task-inv, set_status-inv}
use memgov.Tasks.Actions.{claim_action, complete_action, end_action, finish_run}
use memgov.Tasks.Actions.Results.{claim_action-inv, complete_action-inv, end_action-inv}
use memgov.Tasks.Recovery.{recover_runtime, recover_rows, Recovered}
use memgov.Tasks.Recovery.Results.{recover_runtime-inv}
use memgov.Tasks.Reconfigured.{invalidate, end_work}
use memgov.Tasks.Reconfigured.Results.{invalidate-inv}
use memgov.Tasks.History.{Outside}

-- The attempts at tasks and at actions after a few updates, none of which makes one running.
module _ (s : List TaskAttempt) (r : List ActionAttempt) where
  pub data Ends : List TaskAttempt → List ActionAttempt → Type 0 where
    same_rows : Ends s r
    end_tasks :
        {u : List TaskAttempt} {v : List ActionAttempt} (q : TaskAttempt → Bool)
        (f : TaskAttempt → TaskAttempt)
        → ((a : TaskAttempt)
            → ((f a).task_id ≡ a.task_id)
              × (str_eq (f a).status "running" ≡ true → str_eq a.status "running" ≡ true))
        → Ends u v
        → Ends (update_rows q f u) v
    end_actions :
        {u : List TaskAttempt} {v : List ActionAttempt} (q : ActionAttempt → Bool)
        (f : ActionAttempt → ActionAttempt)
        → ((a : ActionAttempt)
            → ((f a).task_id ≡ a.task_id)
              × (str_eq (f a).status "running" ≡ true → str_eq a.status "running" ≡ true))
        → Ends u v
        → Ends u (update_rows q f v)

-- What a call that hands nothing out does to attempts; the configuration stays.
abbrev pub EndsTo : Db → Db → Type 0
EndsTo db db' =
    (db'.runtime_configs ≡ db.runtime_configs)
    × Ends db.runtime_attempts db.runtime_action_attempts db'.runtime_attempts
        db'.runtime_action_attempts

-- A runtime that is not full hands out one of its tasks.
pub record Starts (db db' : Db) : Type 0 where
  pub value : String
  pub runtime : Runtime
  pub task : Task
  pub configs : db'.runtime_configs ≡ db.runtime_configs
  pub found : read_runtime db value ≡ ok runtime
  pub room : is_full db runtime ≡ false
  pub stored : Any (λ t. t ≡ task) db.runtime_tasks
  pub own : task.runtime_id ≡ runtime.id
  pub attempts :
      ((a : TaskAttempt) × (a.task_id ≡ task.id)
        × (db'.runtime_attempts ≡ db.runtime_attempts ++ a ∷ [])
        × (db'.runtime_action_attempts ≡ db.runtime_action_attempts))
      ⊎ ((a : ActionAttempt) × (a.task_id ≡ task.id)
          × (db'.runtime_attempts ≡ db.runtime_attempts)
          × (db'.runtime_action_attempts ≡ db.runtime_action_attempts ++ a ∷ []))

abbrev pub Counted : Db → Db → Type 0
Counted db db' = EndsTo db db' ⊎ Starts db db'

pub idle : (db : Db) → Counted db db
idle db = inl (refl, same_rows)

unchanged : (db db' : Db) → db' ≡ db → EndsTo db db'
unchanged db db' e = subst (EndsTo db) (sym e) (refl, same_rows)

module _ (o : Outside) where
  pub claim-Counted :
      (clock : Clock) (in_memory : Bool) (runtime : String) (w : Worker) (db : Db) (r : Option Task)
      (db' : Db)
      → claim_task o.digests o.task_digest clock in_memory runtime w db ≡ ok (r, db')
      → Counted db db'
  claim-Counted clock in_memory runtime w db r db' h =
      elim (claim_task-inv o.digests o.task_digest clock in_memory runtime w db r db' h) [
        | inl e ↦ inl (unchanged db db' e)
        | inr (c, t, found, room, n, _, k) ↦ inr (
            let (member, own) = next_task-own db c t n in
            record {
              value = runtime;
              runtime = c;
              task = t;
              configs = ap (λ (x : Db). x.runtime_configs) k.changed;
              found = found;
              room = room;
              stored = member;
              own = own;
              attempts = inl (
                k.attempt,
                k.of_task,
                ap (λ (x : Db). x.runtime_attempts) k.changed,
                ap (λ (x : Db). x.runtime_action_attempts) k.changed,
              );
            })
      ]

  pub begin-Counted :
      (clock : Clock) (in_memory : Bool) (runtime : String) (w : Worker) (db : Db)
      (r : Option PendingAction) (db' : Db)
      → claim_action o.digests o.evidence o.formats clock in_memory runtime w db ≡ ok (r, db')
      → Counted db db'
  begin-Counted clock in_memory runtime w db r db' h =
      elim (claim_action-inv o.digests o.evidence o.formats clock in_memory runtime w db r db' h) [
        | inl e ↦ inl (unchanged db db' e)
        | inr (c, a, found, room, n, _, _, k) ↦ inr (
            let (t, member, same, own) = next_action-due db c a n in
            record {
              value = runtime;
              runtime = c;
              task = t;
              configs = ap (λ (x : Db). x.runtime_configs) k.changed;
              found = found;
              room = room;
              stored = member;
              own = own;
              attempts = inr (
                k.run,
                k.of_task ∙ sym same,
                ap (λ (x : Db). x.runtime_attempts) k.changed,
                ap (λ (x : Db). x.runtime_action_attempts) k.changed,
              );
            })
      ]

  pub complete-EndsTo :
      (clock : Clock) (new_id : ℕ → String) (task : String) (version : ℕ) (attempt : String)
      (r : AttemptResult) (db : Db) (t : Task) (db' : Db)
      → complete_task o.julianday o.digests o.evidence o.formats clock new_id task version attempt r
          db
        ≡ ok (t, db')
      → EndsTo db db'
  unfolding finish_attempt
  complete-EndsTo clock new_id task version attempt r db t db' h =
      let k =
        complete_task-Completed o.julianday o.digests o.evidence o.formats clock new_id task version
          attempt r db t db' h in
      subst (EndsTo db) (sym k.changed)
        (refl, end_tasks _ (finish_attempt clock r) (λ a. (refl, λ x. cc)) same_rows)

  pub fail-EndsTo :
      (clock : Clock) (task : String) (version : ℕ) (attempt code : String) (db : Db) (t : Task)
      (db' : Db)
      → fail_task clock task version attempt code db ≡ ok (t, db')
      → EndsTo db db'
  unfolding end_attempt
  fail-EndsTo clock task version attempt code db t db' h =
      subst (EndsTo db) (sym ((fail_task-inv clock task version attempt code db t db' h).1))
        (refl, end_tasks _ (end_attempt "failed" _ clock) (λ a. (refl, λ x. cc)) same_rows)

  pub set-EndsTo :
      (clock : Clock) (id status : String) (db : Db) (t : Task) (db' : Db)
      → set_status clock id status db ≡ ok (t, db')
      → EndsTo db db'
  unfolding stale_task_work end_action_attempt end_attempt
  set-EndsTo clock id status db t db' h =
      let (_, _, _, e) = set_status-inv clock id status db t db' h in
      subst (EndsTo db) (sym e) (
        refl,
        end_tasks _ (end_attempt "stale" "task_changed" clock) (λ a. (refl, λ x. cc))
            (end_actions _ (end_action_attempt "unknown" "task_changed" clock)
              (λ a. (refl, λ x. cc)) same_rows),
      )

  pub finish-EndsTo :
      (clock : Clock) (id attempt : String) (version : ℕ) (r : AttemptResult) (db : Db) (t : Task)
      (db' : Db)
      → complete_action o.digests o.evidence o.formats o.julianday clock id attempt version r db
        ≡ ok (t, db')
      → EndsTo db db'
  unfolding finish_run
  finish-EndsTo clock id attempt version r db t db' h =
      let (_, _, _, _, _, e) =
        complete_action-inv o.digests o.evidence o.formats o.julianday clock id attempt version r db
          t db' h in
      subst (EndsTo db) (sym e)
        (refl, end_actions _ (finish_run clock r) (λ a. (refl, λ x. cc)) same_rows)

  pub end-EndsTo :
      (status task_status : String) (clock : Clock) (id attempt : String) (version : ℕ)
      (code : String) (db : Db) (t : Task) (db' : Db)
      → str_eq status "running" ≡ false
      → end_action status task_status clock id attempt version code db ≡ ok (t, db')
      → EndsTo db db'
  unfolding end_action_attempt
  end-EndsTo status task_status clock id attempt version code db t db' over h =
      let (_, _, _, e) =
        end_action-inv status task_status clock id attempt version code db t db' h in
      subst (EndsTo db) (sym e) (
        refl,
        end_actions _ (end_action_attempt status code clock)
            (λ a. (refl, λ x. absurd (true_ne_false (sym x ∙ over)))) same_rows,
      )

  pub recover-EndsTo :
      (clock : Clock) (value : String) (db : Db) (r : Recovered) (db' : Db)
      → recover_runtime clock value db ≡ ok (r, db')
      → EndsTo db db'
  unfolding recover_rows end_action_attempt end_attempt
  recover-EndsTo clock value db r db' h =
      let (c, old, _, s, e) = recover_runtime-inv clock value db r db' h in
      subst (EndsTo db) (sym e) (
        subst (λ (x : Db). EndsTo db (recover_rows clock c.id x)) (sym s.same)
          (
            refl,
            end_tasks _ (end_attempt "failed" "runtime_restarted" clock) (λ a. (refl, λ x. cc))
                (end_actions _ (end_action_attempt "unknown" "runtime_restarted" clock)
                  (λ a. (refl, λ x. cc)) same_rows),
          ))

  pub invalidate-EndsTo :
      (clock : Clock) (value : String) (db : Db) (u : Unit {0}) (db' : Db)
      → invalidate clock value db ≡ ok (u, db')
      → EndsTo db db'
  unfolding end_work end_action_attempt end_attempt
  invalidate-EndsTo clock value db u db' h =
      let (c, old, _, s, e) = invalidate-inv clock value db u db' h in
      subst (EndsTo db) (sym e) (
        subst (λ (x : Db). EndsTo db (end_work clock c.id x)) (sym s.same)
          (
            refl,
            end_tasks _ (end_attempt "stale" "configuration_changed" clock) (λ a. (refl, λ x. cc))
                (end_actions _ (end_action_attempt "unknown" "configuration_changed" clock)
                  (λ a. (refl, λ x. cc)) same_rows),
          ))
