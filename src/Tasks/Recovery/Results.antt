-- ===== src/Tasks/Recovery/Results.antt =====
-- core/runtime.go: what FailRuntimeBatch and RecoverRuntime change.
use memgov.Base.{
  ◌≡◌, refl, ap, ◌∙◌, sym, String, List, [], ◌∷◌, ok, count_rows, has_row, update_rows, ◌==◌, Clock,
  Bool-cases, inl, inr, >>=-elim, or_fail-elim, ok-state, ok_inj, map, select_rows, find_row,
  internal, str_eq, subst,
}
use memgov.Schema.{Db}
use memgov.Schema.Leases.{WorkLease, ResourceLock}
use memgov.Schema.Runtimes.{Runtime}
use memgov.Schema.Tasks.{Batch, MessageState}
use memgov.Policy.{read_runtime}
use memgov.Work.{is_lease, release_work_lease}
use memgov.Tasks.Outcome.{code_or}
use memgov.Tasks.Recovery.{
  is_batch, is_analyzing, fail_batch, retry_batch, fail_batches, fail_batch_row, recover_runtime,
  recover_rows, Recovered, is_analyzed_by,
}

-- The states differ in batches, in the messages' states and in leases.
pub record SameTasks (db db' : Db) : Type 0 where
  pub batches : List Batch
  pub states : List MessageState
  pub leases : List WorkLease
  pub locks : List ResourceLock
  pub same : db' ≡ record db {
    runtime_batches = batches;
    runtime_message_states = states;
    runtime_work_leases = leases;
    runtime_resource_locks = locks;
  }

pub SameTasks-trans : (a b c : Db) → SameTasks a b → SameTasks b c → SameTasks a c
SameTasks-trans a b c p q = record {
  batches = q.batches;
  states = q.states;
  leases = q.leases;
  locks = q.locks;
  same =
      q.same
      ∙ ap
          (λ (x : Db). record x {
            runtime_batches = q.batches;
            runtime_message_states = q.states;
            runtime_work_leases = q.leases;
            runtime_resource_locks = q.locks;
          })
          p.same;
}

retry_batch-SameTasks :
    (clock : Clock) (id code : String) (db db' : Db)
    → retry_batch clock id code db ≡ ok db'
    → SameTasks db db'
unfolding retry_batch
retry_batch-SameTasks clock id code db db' h =
    or_fail-elim (find_row (is_batch id) db.runtime_batches) internal _ h λ b _ h.
      or_fail-elim (find_row (λ (c : Runtime). str_eq c.id b.runtime_id) db.runtime_configs)
        internal _ h
        λ c _ h. record {
          batches = _;
          states = _;
          leases = db.runtime_work_leases;
          locks = db.runtime_resource_locks;
          same = sym (ok_inj h);
        }

pub fail_batch-SameTasks :
    (clock : Clock) (id code : String) (db : Db) (u : Unit {0}) (db' : Db)
    → fail_batch clock id code db ≡ ok (u, db')
    → SameTasks db db'
unfolding fail_batch
fail_batch-SameTasks clock id code db u db' h =
    elim (Bool-cases (count_rows (is_analyzing id) db.runtime_batches == 0)) [
      | inl e ↦ record {
        batches = db.runtime_batches;
        states = db.runtime_message_states;
        leases = db.runtime_work_leases;
        locks = db.runtime_resource_locks;
        same = ok-state (rw e at h);
      }
      | inr e ↦ elim (Bool-cases (has_row (is_lease id) db.runtime_work_leases)) [
        | inl m ↦
            let failed : Db = record db {
              runtime_batches =
                  update_rows (is_analyzing id) (fail_batch_row clock (code_or code "internal"))
                    db.runtime_batches;
            } in
            >>=-elim (retry_batch clock id (code_or code "internal") failed) _ (rw (e, m) at h)
              λ next p h.
                SameTasks-trans db failed db'
                  (record {
                    batches = failed.runtime_batches;
                    states = db.runtime_message_states;
                    leases = db.runtime_work_leases;
                    locks = db.runtime_resource_locks;
                    same = refl;
                  })
                  (subst (SameTasks failed) (sym (ok-state h))
                    (retry_batch-SameTasks clock id (code_or code "internal") failed next p))
        | inr m ↦ record {
          batches = _;
          states = _;
          leases = db.runtime_work_leases;
          locks = db.runtime_resource_locks;
          same = ok-state (rw (e, m) at h);
        }
      ]
    ]

fail_batches-SameTasks :
    (clock : Clock) (ids : List String) (db : Db) (u : Unit {0}) (db' : Db)
    → fail_batches clock ids db ≡ ok (u, db')
    → SameTasks db db'
unfolding fail_batches release_work_lease
fail_batches-SameTasks clock [] db u db' h = record {
  batches = db.runtime_batches;
  states = db.runtime_message_states;
  leases = db.runtime_work_leases;
  locks = db.runtime_resource_locks;
  same = ok-state h;
}
fail_batches-SameTasks clock (id ∷ ids) db u db' h =
    >>=-elim (fail_batch clock id "runtime_restarted" db) _ h λ p failed h.
      SameTasks-trans db p.1 db'
        (fail_batch-SameTasks clock id "runtime_restarted" db p.0 p.1 failed)
        (SameTasks-trans p.1 _ db'
          (record {
            batches = p.1.runtime_batches;
            states = p.1.runtime_message_states;
            leases = _;
            locks = _;
            same = refl;
          })
          (fail_batches-SameTasks clock ids _ u db' h))

pub recover_runtime-inv :
    (clock : Clock) (value : String) (db : Db) (r : Recovered) (db' : Db)
    → recover_runtime clock value db ≡ ok (r, db')
    → (c : Runtime) × (old : Db) × (read_runtime db value ≡ ok c)
      × SameTasks db old
      × (db' ≡ recover_rows clock c.id old)
unfolding recover_runtime
recover_runtime-inv clock value db r db' h = >>=-elim (read_runtime db value) _ h λ c found h.
    let ids = map (λ (b : Batch). b.id) (select_rows (is_analyzed_by c.id) db.runtime_batches) in
    >>=-elim (fail_batches clock ids db) _ h
      λ p failed h. (c, p.1, found, fail_batches-SameTasks clock ids db p.0 p.1 failed, ok-state h)
