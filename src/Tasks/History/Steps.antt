-- ===== src/Tasks/History/Steps.antt =====
-- core/runtime.go: what each call does to pending actions and the attempts at them.
use memgov.Base.{
  ℕ, ◌≡◌, refl, sym, subst, String, Bool, true, false, Option, [], ◌∷◌, ok, Clock, contains, str_eq,
  eq_iff, inl, inr, after-elim,
}
use memgov.Schema.{Db}
use memgov.Schema.Tasks.{Task, PendingAction}
use memgov.Tasks.{
  set_workspace, set_workspace-inv, stale_task_work, end_action_attempt, is_started_action,
  is_open_action, is_action_run,
}
use memgov.Tasks.Claim.{Worker, claim_task}
use memgov.Tasks.Claim.Results.{claim_task-inv}
use memgov.Tasks.Outcome.{complete_task, fail_task, set_status}
use memgov.Tasks.Proposed.{AttemptResult}
use memgov.Tasks.Outcome.Results.{complete_task-Completed, fail_task-inv, set_status-inv}
use memgov.Tasks.Confirm.{confirm_action}
use memgov.Tasks.Confirm.Results.{confirm_action-inv}
use memgov.Tasks.Actions.{
  claim_action, complete_action, fail_action, unknown_action, end_action, is_action_in, is_run_in,
  finish_run,
}
use memgov.Tasks.Actions.Results.{claim_action-inv, complete_action-inv, end_action-inv}
use memgov.Tasks.Recovery.{recover_runtime, recover_rows, Recovered}
use memgov.Tasks.Recovery.Results.{recover_runtime-inv}
use memgov.Tasks.Reconfigured.{invalidate, end_work}
use memgov.Tasks.Reconfigured.Results.{invalidate-inv}
use memgov.Tasks.Revised.{decide_task, reject_card, resume_task}
use memgov.Tasks.Revised.Steps.{Reworks-Acts, revise-Reworks, decide-Reworks, resume-Reworks}
use memgov.Tasks.Revised.Erasures.{reject-Acts, expire-Acts, redact-Acts}
use memgov.Tasks.Acts.{ActsTo, rest, close, settle, approve, start, insert_actions-Acts}
use memgov.Tasks.History.{
  claim, workspace, complete, fail, set, confirm, begin, finish, give_up, lose, recover,
  reconfigure, revise, decide, reject, proceed, expire, redact, Call, Outside, step,
}

-- Whether the call is a confirmation of the action.
unfoldable pub confirms : String → Call → Bool
confirms x (confirm clock id message) = str_eq id x
confirms x (set clock id status) = false
confirms x (claim clock in_memory runtime w) = false
confirms x (workspace id dir) = false
confirms x (complete clock new_id task version attempt r) = false
confirms x (fail clock task version attempt code) = false
confirms x (begin clock in_memory runtime w) = false
confirms x (finish clock id attempt version r) = false
confirms x (give_up clock id attempt version code) = false
confirms x (lose clock id attempt version code) = false
confirms x (recover clock runtime) = false
confirms x (reconfigure clock runtime) = false
confirms x (revise clock recalled id) = false
confirms x (decide clock route proactive d id) = false
confirms x (reject clock owner origin ids task version) = false
confirms x (proceed clock text id version) = false
confirms x (expire cites message) = false
confirms x (redact f) = false

module _ (o : Outside) (may : String → Bool) where
  complete-Acts :
      (clock : Clock) (new_id : ℕ → String) (task : String) (version : ℕ) (attempt : String)
      (r : AttemptResult) (db : Db) (t : Task) (db' : Db)
      → complete_task o.julianday o.digests o.evidence o.formats clock new_id task version attempt r
          db
        ≡ ok (t, db')
      → ActsTo may db db'
  complete-Acts clock new_id task version attempt r db t db' h =
      let k =
        complete_task-Completed o.julianday o.digests o.evidence o.formats clock new_id task version
          attempt r db t db' h in
      subst (ActsTo may db) (sym k.changed) (
        insert_actions-Acts may _ _ o.formats clock new_id 0 task version _
          db.runtime_pending_actions k.actions k.inserted (rest))

  set-Acts :
      (clock : Clock) (id status : String) (db : Db) (t : Task) (db' : Db)
      → set_status clock id status db ≡ ok (t, db')
      → ActsTo may db db'
  unfolding stale_task_work end_action_attempt
  set-Acts clock id status db t db' h =
      let (_, _, _, e) = set_status-inv clock id status db t db' h in
      subst (ActsTo may db) (sym e) (
        close (is_started_action id) "unknown" clock refl (
          close (is_open_action id) "stale" clock refl (
            settle (is_action_run id) (end_action_attempt "unknown" "task_changed" clock)
              (λ r. refl) rest)))

  confirm-Acts :
      (clock : Clock) (id message : String) (db : Db) (a : PendingAction) (db' : Db)
      → may id ≡ true
      → confirm_action o.julianday o.evidence o.formats clock id message db ≡ ok (a, db')
      → ActsTo may db db'
  confirm-Acts clock id message db a db' allowed h =
      let (k, _, e) =
        confirm_action-inv o.julianday o.evidence o.formats clock id message db a db' h in
      subst (ActsTo may db) (sym e)
        (approve id k.message.sender_principal message clock allowed rest)

  begin-Acts :
      (clock : Clock) (in_memory : Bool) (runtime : String) (w : Worker) (db : Db)
      (r : Option PendingAction) (db' : Db)
      → claim_action o.digests o.evidence o.formats clock in_memory runtime w db ≡ ok (r, db')
      → ActsTo may db db'
  begin-Acts clock in_memory runtime w db r db' h =
      elim (claim_action-inv o.digests o.evidence o.formats clock in_memory runtime w db r db' h) [
        | inl e ↦ subst (ActsTo may db) (sym e) rest
        | inr (c, a, _, _, _, _, one, s) ↦
            subst (ActsTo may db) (sym s.changed) (start a.id clock s.run s.of_action one rest)
      ]

  finish-Acts :
      (clock : Clock) (id attempt : String) (version : ℕ) (r : AttemptResult) (db : Db) (t : Task)
      (db' : Db)
      → complete_action o.digests o.evidence o.formats o.julianday clock id attempt version r db
        ≡ ok (t, db')
      → ActsTo may db db'
  unfolding finish_run
  finish-Acts clock id attempt version r db t db' h =
      let (_, _, _, _, _, e) =
        complete_action-inv o.digests o.evidence o.formats o.julianday clock id attempt version r db
          t db' h in
      subst (ActsTo may db) (sym e) (
        close (is_action_in "executing" id) "executed" clock refl
          (settle (is_run_in "running" attempt) (finish_run clock r) (λ x. refl) rest))

  end-Acts :
      (status task_status : String) (clock : Clock) (id attempt : String) (version : ℕ)
      (code : String) (db : Db) (t : Task) (db' : Db)
      → contains ("pending" ∷ "confirmed" ∷ []) status ≡ false
      → end_action status task_status clock id attempt version code db ≡ ok (t, db')
      → ActsTo may db db'
  unfolding end_action_attempt
  end-Acts status task_status clock id attempt version code db t db' apart h =
      let (_, _, _, e) =
        end_action-inv status task_status clock id attempt version code db t db' h in
      subst (ActsTo may db) (sym e) (
        close (is_action_in "executing" id) status clock apart (
          settle (is_run_in "running" attempt) (end_action_attempt status code clock) (λ x. refl)
            rest))

  recover-Acts :
      (clock : Clock) (value : String) (db : Db) (r : Recovered) (db' : Db)
      → recover_runtime clock value db ≡ ok (r, db')
      → ActsTo may db db'
  unfolding recover_rows end_action_attempt
  recover-Acts clock value db r db' h =
      let (c, old, _, s, e) = recover_runtime-inv clock value db r db' h in
      subst (ActsTo may db) (sym e) (
        subst (λ (x : Db). ActsTo may db (recover_rows clock c.id x)) (sym s.same)
          (close _ "unknown" clock refl
            (settle _ (end_action_attempt "unknown" "runtime_restarted" clock) (λ x. refl) rest)))

  invalidate-Acts :
      (clock : Clock) (value : String) (db : Db) (u : Unit {0}) (db' : Db)
      → invalidate clock value db ≡ ok (u, db')
      → ActsTo may db db'
  unfolding end_work end_action_attempt
  invalidate-Acts clock value db u db' h =
      let (c, old, _, s, e) = invalidate-inv clock value db u db' h in
      subst (ActsTo may db) (sym e) (
        subst (λ (x : Db). ActsTo may db (end_work clock c.id x)) (sym s.same)
          (close _ "unknown" clock refl (
            close _ "stale" clock refl (
              settle _ (end_action_attempt "unknown" "configuration_changed" clock) (λ x. refl)
                rest))))

module _ (o : Outside) where
  pub step-Acts : (db : Db) (c : Call) → ActsTo (λ x. confirms x c) db (step o db c)
  unfolding confirms fail_action unknown_action
  step-Acts db (claim clock in_memory runtime w) =
      after-elim (ActsTo _ db) db (claim_task o.digests o.task_digest clock in_memory runtime w db)
        rest
        λ r db' h.
          elim (claim_task-inv o.digests o.task_digest clock in_memory runtime w db r db' h) [
            | inl e ↦ subst (ActsTo _ db) (sym e) rest
            | inr (c, t, _, _, _, _, k) ↦ subst (ActsTo _ db) (sym k.changed) rest
          ]
  step-Acts db (workspace id dir) =
      after-elim (ActsTo _ db) db (set_workspace id dir db) rest
        λ r db' h. subst (ActsTo _ db) (sym (set_workspace-inv id dir db r db' h)) rest
  step-Acts db (complete clock new_id task version attempt r) =
      after-elim (ActsTo _ db) db
        (complete_task o.julianday o.digests o.evidence o.formats clock new_id task version attempt
          r db)
        rest λ t db' h. complete-Acts o _ clock new_id task version attempt r db t db' h
  step-Acts db (fail clock task version attempt code) =
      after-elim (ActsTo _ db) db (fail_task clock task version attempt code db) rest λ t db' h.
        subst (ActsTo _ db) (sym ((fail_task-inv clock task version attempt code db t db' h).1))
          rest
  step-Acts db (set clock id status) =
      after-elim (ActsTo _ db) db (set_status clock id status db) rest
        λ t db' h. set-Acts o _ clock id status db t db' h
  step-Acts db (confirm clock id message) =
      after-elim (ActsTo _ db) db
        (confirm_action o.julianday o.evidence o.formats clock id message db) rest
        λ a db' h. confirm-Acts o _ clock id message db a db' ((eq_iff id id).1 refl) h
  step-Acts db (begin clock in_memory runtime w) =
      after-elim (ActsTo _ db) db
        (claim_action o.digests o.evidence o.formats clock in_memory runtime w db) rest
        λ r db' h. begin-Acts o _ clock in_memory runtime w db r db' h
  step-Acts db (finish clock id attempt version r) =
      after-elim (ActsTo _ db) db
        (complete_action o.digests o.evidence o.formats o.julianday clock id attempt version r db)
        rest λ t db' h. finish-Acts o _ clock id attempt version r db t db' h
  step-Acts db (give_up clock id attempt version code) =
      after-elim (ActsTo _ db) db (fail_action clock id attempt version code db) rest
        λ t db' h. end-Acts o _ "failed" "action_failed" clock id attempt version _ db t db' refl h
  step-Acts db (lose clock id attempt version code) =
      after-elim (ActsTo _ db) db (unknown_action clock id attempt version code db) rest λ t db' h.
        end-Acts o _ "unknown" "action_unknown" clock id attempt version _ db t db' refl h
  step-Acts db (recover clock runtime) =
      after-elim (ActsTo _ db) db (recover_runtime clock runtime db) rest
        λ r db' h. recover-Acts o _ clock runtime db r db' h
  step-Acts db (reconfigure clock runtime) =
      after-elim (ActsTo _ db) db (invalidate clock runtime db) rest
        λ u db' h. invalidate-Acts o _ clock runtime db u db' h
  step-Acts db (revise clock recalled id) =
      Reworks-Acts clock id db _ _ (revise-Reworks clock recalled id db)
  step-Acts db (decide clock route proactive d id) =
      after-elim (ActsTo _ db) db (decide_task clock route proactive d id db) rest λ t db' h.
        Reworks-Acts clock id db _ db' (decide-Reworks clock route proactive d id db t db' h)
  step-Acts db (reject clock owner origin ids task version) =
      after-elim (ActsTo _ db) db (reject_card clock owner origin ids task version db) rest
        λ u db' h. reject-Acts clock owner origin ids task version db u db' h _
  step-Acts db (proceed clock text id version) =
      after-elim (ActsTo _ db) db (resume_task clock text id version db) rest
        λ u db' h. Reworks-Acts clock id db _ db' (resume-Reworks clock text id version db u db' h)
  step-Acts db (expire cites message) = expire-Acts cites message db _
  step-Acts db (redact f) = redact-Acts f db _
