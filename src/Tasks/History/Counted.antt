-- ===== src/Tasks/History/Counted.antt =====
-- core/runtime.go: what every call does to the attempts.
use memgov.Base.{refl, sym, subst, inl, after-elim}
use memgov.Schema.{Db}
use memgov.Tasks.{set_workspace, set_workspace-inv}
use memgov.Tasks.Claim.{claim_task}
use memgov.Tasks.Outcome.{complete_task, fail_task, set_status}
use memgov.Tasks.Confirm.{confirm_action}
use memgov.Tasks.Confirm.Results.{confirm_action-inv}
use memgov.Tasks.Actions.{claim_action, complete_action, fail_action, unknown_action}
use memgov.Tasks.Recovery.{recover_runtime}
use memgov.Tasks.Reconfigured.{invalidate}
use memgov.Tasks.Revised.{decide_task, reject_card, resume_task}
use memgov.Tasks.Revised.Steps.{Reworks-EndsTo, revise-Reworks, decide-Reworks, resume-Reworks}
use memgov.Tasks.Revised.Erasures.{reject-EndsTo, expire-EndsTo, redact-EndsTo}
use memgov.Tasks.History.{
  claim, workspace, complete, fail, set, confirm, begin, finish, give_up, lose, recover,
  reconfigure, revise, decide, reject, proceed, expire, redact, Call, Outside, step,
}
use memgov.Tasks.History.Ends.{
  same_rows, end_tasks, EndsTo, Counted, idle, claim-Counted, begin-Counted, complete-EndsTo,
  fail-EndsTo, set-EndsTo, finish-EndsTo, end-EndsTo, recover-EndsTo, invalidate-EndsTo,
}

module _ (o : Outside) where
  pub step-Counted : (db : Db) (c : Call) → Counted db (step o db c)
  unfolding fail_action unknown_action
  step-Counted db (claim clock in_memory runtime w) =
      after-elim (Counted db) db (claim_task o.digests o.task_digest clock in_memory runtime w db)
        (idle db) λ r db' h. claim-Counted o clock in_memory runtime w db r db' h
  step-Counted db (workspace id dir) =
      after-elim (Counted db) db (set_workspace id dir db) (idle db) λ r db' h. inl (
        subst (EndsTo db) (sym (set_workspace-inv id dir db r db' h)) (
          refl,
          end_tasks _ (λ a. record a { workspace_dir = dir }) (λ a. (refl, λ x. x)) same_rows,
        ))
  step-Counted db (complete clock new_id task version attempt r) =
      after-elim (Counted db) db
        (complete_task o.julianday o.digests o.evidence o.formats clock new_id task version attempt
          r db)
        (idle db) λ t db' h. inl (complete-EndsTo o clock new_id task version attempt r db t db' h)
  step-Counted db (fail clock task version attempt code) =
      after-elim (Counted db) db (fail_task clock task version attempt code db) (idle db)
        λ t db' h. inl (fail-EndsTo o clock task version attempt code db t db' h)
  step-Counted db (set clock id status) =
      after-elim (Counted db) db (set_status clock id status db) (idle db)
        λ t db' h. inl (set-EndsTo o clock id status db t db' h)
  step-Counted db (confirm clock id message) =
      after-elim (Counted db) db
        (confirm_action o.julianday o.evidence o.formats clock id message db) (idle db)
        λ a db' h.
          let (_, _, e) =
            confirm_action-inv o.julianday o.evidence o.formats clock id message db a db' h in
          inl (subst (EndsTo db) (sym e) (refl, same_rows))
  step-Counted db (begin clock in_memory runtime w) =
      after-elim (Counted db) db
        (claim_action o.digests o.evidence o.formats clock in_memory runtime w db) (idle db)
        λ r db' h. begin-Counted o clock in_memory runtime w db r db' h
  step-Counted db (finish clock id attempt version r) =
      after-elim (Counted db) db
        (complete_action o.digests o.evidence o.formats o.julianday clock id attempt version r db)
        (idle db) λ t db' h. inl (finish-EndsTo o clock id attempt version r db t db' h)
  step-Counted db (give_up clock id attempt version code) =
      after-elim (Counted db) db (fail_action clock id attempt version code db) (idle db) λ t db' h.
        inl (end-EndsTo o "failed" "action_failed" clock id attempt version _ db t db' refl h)
  step-Counted db (lose clock id attempt version code) =
      after-elim (Counted db) db (unknown_action clock id attempt version code db) (idle db)
        λ t db' h.
          inl (end-EndsTo o "unknown" "action_unknown" clock id attempt version _ db t db' refl h)
  step-Counted db (recover clock runtime) =
      after-elim (Counted db) db (recover_runtime clock runtime db) (idle db)
        λ r db' h. inl (recover-EndsTo o clock runtime db r db' h)
  step-Counted db (reconfigure clock runtime) =
      after-elim (Counted db) db (invalidate clock runtime db) (idle db)
        λ u db' h. inl (invalidate-EndsTo o clock runtime db u db' h)
  step-Counted db (revise clock recalled id) =
      inl (Reworks-EndsTo clock id db _ (revise-Reworks clock recalled id db))
  step-Counted db (decide clock route proactive d id) =
      after-elim (Counted db) db (decide_task clock route proactive d id db) (idle db) λ t db' h.
        inl (Reworks-EndsTo clock id db db' (decide-Reworks clock route proactive d id db t db' h))
  step-Counted db (reject clock owner origin ids task version) =
      after-elim (Counted db) db (reject_card clock owner origin ids task version db) (idle db)
        λ u db' h. inl (reject-EndsTo clock owner origin ids task version db u db' h)
  step-Counted db (proceed clock text id version) =
      after-elim (Counted db) db (resume_task clock text id version db) (idle db) λ u db' h.
        inl (Reworks-EndsTo clock id db db' (resume-Reworks clock text id version db u db' h))
  step-Counted db (expire cites message) = inl (expire-EndsTo cites message db)
  step-Counted db (redact f) = inl (redact-EndsTo f db)
