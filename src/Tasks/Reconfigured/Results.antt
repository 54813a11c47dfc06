-- ===== src/Tasks/Reconfigured/Results.antt =====
-- core/runtime_config_guard.go: what InvalidateRuntimeConfigWork changes.
use memgov.Base.{◌≡◌, String, List, [], ◌∷◌, ok, Clock, >>=-elim, ok-state, map, select_rows}
use memgov.Schema.{Db}
use memgov.Schema.Runtimes.{Runtime}
use memgov.Schema.Tasks.{Batch}
use memgov.Policy.{read_runtime}
use memgov.Tasks.Recovery.{fail_batch, is_analyzed_by}
use memgov.Tasks.Recovery.Results.{SameTasks, SameTasks-trans, fail_batch-SameTasks}
use memgov.Tasks.Reconfigured.{changed, end_batches, end_work, invalidate}

end_batches-SameTasks :
    (clock : Clock) (ids : List String) (db : Db) (u : Unit {0}) (db' : Db)
    → end_batches clock ids db ≡ ok (u, db')
    → SameTasks db db'
unfolding end_batches
end_batches-SameTasks clock [] db u db' h = record {
  batches = db.runtime_batches;
  states = db.runtime_message_states;
  leases = db.runtime_work_leases;
  locks = db.runtime_resource_locks;
  same = ok-state h;
}
end_batches-SameTasks clock (id ∷ ids) db u db' h =
    >>=-elim (fail_batch clock id changed db) _ h λ p failed h.
      SameTasks-trans db p.1 db' (fail_batch-SameTasks clock id changed db p.0 p.1 failed)
        (end_batches-SameTasks clock ids p.1 u db' h)

pub invalidate-inv :
    (clock : Clock) (value : String) (db : Db) (u : Unit {0}) (db' : Db)
    → invalidate clock value db ≡ ok (u, db')
    → (c : Runtime) × (old : Db) × (read_runtime db value ≡ ok c)
      × SameTasks db old
      × (db' ≡ end_work clock c.id old)
unfolding invalidate
invalidate-inv clock value db u db' h = >>=-elim (read_runtime db value) _ h λ c found h.
    let ids = map (λ (b : Batch). b.id) (select_rows (is_analyzed_by c.id) db.runtime_batches) in
    >>=-elim (end_batches clock ids db) _ h
      λ p ended h. (c, p.1, found, end_batches-SameTasks clock ids db p.0 p.1 ended, ok-state h)
