-- ===== src/Tasks/History/Limit.antt =====
-- core/runtime.go: how many attempts of a runtime run at the same time.
use memgov.Base.{
  ℕ, ◌+◌, ◌≤◌, ◌≡◌, refl, sym, subst, ◌∙◌, String, false, List, ok, str_eq, eq_iff, arith, inl, inr,
  Bool-cases, if◌then◌else◌,
}
use memgov.Schema.{Db}
use memgov.Schema.Runtimes.{Runtime}
use memgov.Policy.{read_runtime}
use memgov.Work.Capacity.{active_attempts}
use memgov.Tasks.Claim.{is_full}
use memgov.Tasks.Claim.Served.{OneEach}
use memgov.Tasks.History.{Call, Outside, step, run, run-keeps}
use memgov.Tasks.History.Edges.{resets, erases, step-Moves}
use memgov.Tasks.History.Counted.{step-Counted}
use memgov.Tasks.History.Active.{active, Moves-count, active-Moves, Ends-le, begun_le}
use memgov.Tasks.History.Ends.{Starts, Counted}

room_left :
    (db : Db) (c : Runtime) → is_full db c ≡ false → active_attempts db c.id + 1 ≤ c.concurrency
unfolding is_full
room_left db c h = ground arith

read_same :
    (db db' : Db) (value : String)
    → db'.runtime_configs ≡ db.runtime_configs
    → read_runtime db' value ≡ read_runtime db value
unfolding read_runtime
read_same db db' value e = rw e refl

-- The runtime's limit, under whatever name it is read.
abbrev pub LimitedBy : ℕ → String → Db → Type 0
LimitedBy limit runtime db =
    (value : String) (c : Runtime)
    → read_runtime db value ≡ ok c
    → c.id ≡ runtime
    → c.concurrency ≤ limit

abbrev Within : ℕ → String → Db → Type 0
Within limit runtime db =
    OneEach db × LimitedBy limit runtime db × (active_attempts db runtime ≤ limit)

-- The active attempts after a call begins one.
begun-active :
    (runtime : String) (db db' : Db) (k : Starts db db')
    → OneEach db
    → active db.runtime_tasks runtime db'.runtime_attempts db'.runtime_action_attempts
      ≤ active db.runtime_tasks runtime db.runtime_attempts db.runtime_action_attempts
        + (if str_eq k.task.runtime_id runtime then 1 else 0)
begun-active runtime db db' k one =
    let (tasks_le, actions_le) =
      begun_le db k.task runtime db.runtime_attempts db.runtime_action_attempts one k.stored in
    elim k.attempts [
      | inl (a, e, p, q) ↦ rw (p, q) (tasks_le a e)
      | inr (a, e, p, q) ↦ rw (p, q) (actions_le a e)
    ]

step-active :
    (limit : ℕ) (runtime : String) (db db' : Db)
    → Counted db db'
    → Within limit runtime db
    → active db.runtime_tasks runtime db'.runtime_attempts db'.runtime_action_attempts ≤ limit
unfolding active_attempts
step-active limit runtime db db' (inl (_, ends)) (one, limited, old) =
    omega (arith, Ends-le db.runtime_tasks runtime _ _ _ _ ends)
step-active limit runtime db db' (inr k) (one, limited, old) =
    let grown = begun-active runtime db db' k one in
    elim (Bool-cases (str_eq k.task.runtime_id runtime)) [
      | inr other ↦
          let few : active db.runtime_tasks runtime db'.runtime_attempts db'.runtime_action_attempts
              ≤ active db.runtime_tasks runtime db.runtime_attempts db.runtime_action_attempts + 0 =
            rw other at grown in
          omega arith
      | inl own ↦
          let same : k.runtime.id ≡ runtime =
            sym (k.own) ∙ (eq_iff k.task.runtime_id runtime).0 own in
          let few : active db.runtime_tasks runtime db'.runtime_attempts db'.runtime_action_attempts
              ≤ active db.runtime_tasks runtime db.runtime_attempts db.runtime_action_attempts + 1 =
            rw own at grown in
          let room : active_attempts db runtime + 1 ≤ k.runtime.concurrency =
            subst (λ x. active_attempts db x + 1 ≤ k.runtime.concurrency) same
              (room_left db k.runtime k.room) in
          omega (arith, limited k.value k.runtime k.found same)
    ]

configs_kept : (db db' : Db) → Counted db db' → db'.runtime_configs ≡ db.runtime_configs
configs_kept db db' (inl (e, _)) = e
configs_kept db db' (inr k) = k.configs

module _ (o : Outside) (limit : ℕ) (runtime : String) where
  step-Within : (db : Db) (c : Call) → Within limit runtime db → Within limit runtime (step o db c)
  unfolding active_attempts
  step-Within db c (one, limited, old) =
      let counted = step-Counted o db c in
      let moves = step-Moves o db c in
      (
        λ id. omega (arith, one id, Moves-count (resets c) (erases c) _ _ id moves),
        λ value r found.
            limited value r
              (sym (read_same db (step o db c) value (configs_kept db _ counted)) ∙ found),
        omega (
          arith,
          step-active limit runtime db (step o db c) counted (one, limited, old),
          active-Moves (resets c) (erases c) _ _ runtime (step o db c).runtime_attempts
              (step o db c).runtime_action_attempts moves,
        ),
      )

  -- Where ids of tasks are unique, and a runtime, by whatever name it is read, is configured for at
  -- most `limit` attempts: if no more of its attempts are running, at tasks and at their actions
  -- together, no more ever are, whatever of these calls are made in whatever order.
  pub runtime_stays_within_limit :
      (db : Db) (calls : List Call)
      → OneEach db
      → LimitedBy limit runtime db
      → active_attempts db runtime ≤ limit
      → active_attempts (run o db calls) runtime ≤ limit
  runtime_stays_within_limit db calls one limited old =
      (run-keeps o (Within limit runtime) step-Within db calls (one, limited, old)).2
