-- ===== src/Tasks/Claim/Tests.antt =====
-- A worker of a direct runtime asks for work.
use memgov.Base.{
  ◌≡◌, refl, true, false, some, ok, find_row, count_rows, has_row, arith, inl, str_eq,
}
use memgov.Schema.{Db, empty}
use memgov.Schema.Runtimes.{Runtime}
use memgov.Schema.Tasks.{Task, TaskAttempt}
use memgov.Policy.{read_runtime, scanned}
use memgov.Work.{is_lease}
use memgov.Work.Lanes.{lane_free}
use memgov.Work.Capacity.{active_attempts, has_capacity}
use memgov.Tasks.{is_task}
use memgov.Tasks.Samples.{clock, outside, runtime, task, with_task}
use memgov.Tasks.Claim.{
  Worker, claim_task, start_task, is_full, is_leased, is_claimable, route_open,
}
use memgov.Tasks.Claim.Served.{OneEach, IsNext, waiting_task_is_started}

abbrev worker : Worker
worker = record { attempt_id = "w1"; model = "m"; preset = ""; commit = ""; workspace = "" }

abbrev pending : Db
pending = with_task (task "pending")

abbrev team : Runtime
team = record runtime { delivery_route_id = "r2" }

found : read_runtime pending "rt1" ≡ ok team
unfolding read_runtime scanned empty find_row
found = refl

has_room : is_full pending team ≡ false
unfolding is_full active_attempts empty count_rows
has_room = refl

has_pool : has_capacity true pending team "execution" ≡ true
unfolding has_capacity
has_pool = refl

claimable : is_claimable pending team (task "pending") ≡ true
unfolding is_claimable route_open is_leased lane_free empty count_rows
claimable = refl

one_each : OneEach pending
unfolding empty is_task count_rows
one_each id = ground arith

new_lease_id : has_row (is_lease "w1") pending.runtime_work_leases ≡ false
unfolding empty count_rows
new_lease_id = refl

new_attempt_id : has_row (λ (a : TaskAttempt). str_eq a.id "w1") pending.runtime_attempts ≡ false
unfolding empty count_rows
new_attempt_id = refl

waiting_task_is_started_example :
    (t : Task) × (db' : Db) × (claim_task outside.digests outside.task_digest clock true "rt1"
        worker pending
      ≡ ok (some (record t { status = "running" }), db'))
    × IsNext pending team t
    × (find_row (is_task t.id) db'.runtime_tasks ≡ some (start_task clock t))
waiting_task_is_started_example =
    waiting_task_is_started outside.digests outside.task_digest clock true "rt1" worker pending team
      (task "pending") found refl has_room has_pool one_each (inl refl) claimable new_lease_id
      new_attempt_id
