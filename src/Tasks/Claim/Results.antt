-- ===== src/Tasks/Claim/Results.antt =====
-- core/runtime.go: what ClaimRuntimeTask changes.
use memgov.Base.{
  ◌≡◌, refl, sym, ap, ◌∙◌, String, Bool, false, not, ◌||◌, Option, none, some, List, [], ◌∷◌, ◌++◌,
  ok, fail_if, internal, count_rows, has_row, update_rows, str_eq, arith, ◌⊎◌, inl, inr,
  Option-cases, Bool-cases, ◌==◌, Clock, >>=-eq-ok,
}
use memgov.Schema.{Db}
use memgov.Schema.Leases.{WorkLease}
use memgov.Schema.Runtimes.{Runtime}
use memgov.Schema.Tasks.{Task, TaskAttempt}
use memgov.Policy.{Digests, read_runtime, read_applied}
use memgov.Work.Capacity.{claim_work, has_capacity}
use memgov.Work.Capacity.Results.{claim_work-inv}
use memgov.Tasks.Claim.{
  Worker, claim_task, start_work, new_attempt, start_task, is_at, is_full, next_task,
}

-- The task is running, and a running attempt at it in its version is recorded.
pub record Started (c : Runtime) (t : Task) (clock : Clock) (db db' : Db) : Type 0 where
  pub leases : List WorkLease
  pub attempt : TaskAttempt
  pub of_task : attempt.task_id ≡ t.id
  pub same_version : attempt.task_version ≡ t.version
  pub changed : db' ≡ record db {
    runtime_work_leases = leases;
    runtime_tasks =
        update_rows (is_at t.id t.version "pending") (start_task clock) db.runtime_tasks;
    runtime_attempts = db.runtime_attempts ++ attempt ∷ [];
  }

module _ (digests : Digests) (task_digest : Task → String) where
  start_work-inv :
      (clock : Clock) (c : Runtime) (w : Worker) (t : Task) (db : Db) (r : Option Task) (db' : Db)
      → start_work digests task_digest clock c w t db ≡ ok (r, db')
      → Started c t clock db db'
  unfolding start_work new_attempt
  start_work-inv clock c w t db r db' h =
      let started = record db {
        runtime_tasks =
            update_rows (is_at t.id t.version "pending") (start_task clock) db.runtime_tasks;
      } in
      let (leased, p, h1) =
        >>=-eq-ok
          (claim_work digests clock c "execution" w.attempt_id t.route_id t.id t.version started) _
          h in
      let (applied, _, h2) = >>=-eq-ok (read_applied leased 0) _ h1 in
      let (_, _, h3) =
        >>=-eq-ok
          (fail_if (has_row (λ (a : TaskAttempt). str_eq a.id w.attempt_id) leased.runtime_attempts)
            internal)
          _ h2 in
      let (leases, e) =
        claim_work-inv digests clock c "execution" w.attempt_id t.route_id t.id t.version started
          leased p in
      let a = new_attempt digests task_digest clock c w t applied.version in
      let k : record leased { runtime_attempts = leased.runtime_attempts ++ a ∷ [] } ≡ db' =
        cc h3 in
      record {
        leases = leases;
        attempt = a;
        of_task = refl;
        same_version = refl;
        changed =
            sym k ∙ ap (λ (x : Db). record x { runtime_attempts = x.runtime_attempts ++ a ∷ [] }) e;
      }

  -- Nothing changes, or a task that may be claimed is started.
  pub claim_task-inv :
      (clock : Clock) (in_memory : Bool) (runtime : String) (w : Worker) (db : Db) (r : Option Task)
      (db' : Db)
      → claim_task digests task_digest clock in_memory runtime w db ≡ ok (r, db')
      → (db' ≡ db)
        ⊎ ((c : Runtime) × (t : Task) × (read_runtime db runtime ≡ ok c)
            × (is_full db c ≡ false)
            × (next_task db c ≡ some t)
            × (count_rows (is_at t.id t.version "pending") db.runtime_tasks ≡ 1)
            × Started c t clock db db')
  unfolding claim_task
  claim_task-inv clock in_memory runtime w db r db' h =
      let (c, found, h1) = >>=-eq-ok (read_runtime db runtime) _ h in
      elim (Bool-cases (
        not (str_eq c.status "running")
        || is_full db c
        || not (has_capacity in_memory db c "execution"))) [
          | inl e ↦ inl (let k : ok (none, db) ≡ ok (r, db') = rw e at h1 in cc)
          | inr e ↦ elim (Option-cases (next_task db c)) [
            | inl n ↦ inl (let k : ok (none, db) ≡ ok (r, db') = rw (e, n) at h1 in cc)
            | inr (t, n) ↦
                elim (Bool-cases
                  (count_rows (is_at t.id t.version "pending") db.runtime_tasks == 1)) [
                    | inr m ↦ inl (let k : ok (none, db) ≡ ok (r, db') = rw (e, n, m) at h1 in cc)
                    | inl m ↦ inr (
                      c,
                      t,
                      found,
                      ground arith,
                      n,
                      ground arith,
                      start_work-inv clock c w t db r db' (rw (e, n, m) at h1),
                    )
                  ]
          ]
        ]
