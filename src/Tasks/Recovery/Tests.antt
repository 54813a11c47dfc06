-- ===== src/Tasks/Recovery/Tests.antt =====
-- A restart while a task runs.
use memgov.Base.{◌≡◌, refl, ok, [], ◌∷◌, find_row, count_rows, select_rows}
use memgov.Schema.{Db, empty}
use memgov.Schema.Runtimes.{Runtime}
use memgov.Schema.Tasks.{TaskAttempt}
use memgov.Policy.{read_runtime}
use memgov.Work.Capacity.{of_runtime}
use memgov.Tasks.Samples.{clock, with_task, task}
use memgov.Tasks.Recovery.{
  Recovered, recover_runtime, recover_rows, fail_batches, is_task_in, is_executing_action,
  is_sending_draft,
}
use memgov.Tasks.Recovery.Idle.{IsIdle, recover_runtime-IsIdle}

abbrev attempt : TaskAttempt
attempt = record {
  id = "w1";
  task_id = "t1";
  task_version = 1;
  applied_config_version = 0;
  status = "running";
  model = "m";
  preset_name = "";
  preset_commit = "";
  workspace_dir = "";
  input_digest = "";
  output = "";
  summary = "";
  artifacts = [];
  tool_kinds = [];
  error_code = "";
  started_at = "";
  finished_at = "";
}

abbrev busy : Db
busy = record (with_task (task "running")) { runtime_attempts = attempt ∷ [] }

abbrev report : Recovered
report = record {
  batches = 0;
  actions_unknown = 0;
  deliveries_unknown = 0;
  failed_task_ids = "t1" ∷ [];
}

recovers : recover_runtime clock "rt1" busy ≡ ok (report, recover_rows clock "rt1" busy)
unfolding recover_runtime read_runtime empty find_row count_rows select_rows fail_batches is_task_in
    is_executing_action is_sending_draft of_runtime
recovers = refl

recover_runtime-IsIdle_example :
    (c : Runtime) × (read_runtime busy "rt1" ≡ ok c) × IsIdle (recover_rows clock "rt1" busy) c.id
recover_runtime-IsIdle_example =
    recover_runtime-IsIdle clock "rt1" busy report (recover_rows clock "rt1" busy) recovers
