-- ===== src/Tasks/History/Edges.antt =====
-- core/runtime.go: each call moves a task along the edges of its states.
use memgov.Base.{
  ℕ, ◌≡◌, refl, sym, ap, subst, String, Bool, true, false, some, List, ok, err, invalid_input,
  Clock, contains, find_row, update_rows, str_eq, eq_iff, has_row, inl, inr, after-elim, Bool-cases,
}
use memgov.Base.Table.{find_row-update}
use memgov.Schema.{Db}
use memgov.Schema.Tasks.{Task}
use memgov.Tasks.{is_task, set_workspace, set_workspace-inv, stale_task_work, mark_action}
use memgov.Tasks.Claim.{claim_task}
use memgov.Tasks.Claim.Results.{claim_task-inv}
use memgov.Tasks.Outcome.{complete_task, fail_task, set_status, check_transition}
use memgov.Tasks.Outcome.Results.{complete_task-Completed, fail_task-inv, set_status-inv}
use memgov.Tasks.Confirm.{confirm_action}
use memgov.Tasks.Confirm.Results.{confirm_action-inv}
use memgov.Tasks.Actions.{
  claim_action, complete_action, fail_action, unknown_action, is_left, end_action, is_action_in,
}
use memgov.Tasks.Actions.Results.{claim_action-inv, complete_action-inv, end_action-inv}
use memgov.Tasks.Recovery.{recover_runtime, recover_rows}
use memgov.Tasks.Recovery.Results.{recover_runtime-inv}
use memgov.Tasks.Reconfigured.{invalidate, end_work}
use memgov.Tasks.Reconfigured.Results.{invalidate-inv}
use memgov.Tasks.Revised.{decide_task, reject_card, resume_task}
use memgov.Tasks.Revised.Steps.{Reworks-Moves, revise-Reworks, decide-Reworks, resume-Reworks}
use memgov.Tasks.Revised.Erasures.{reject-Moves, expire-Moves, redact-Moves}
use memgov.Tasks.Moves.{
  SameTask, Edge, starts, forward, Moves, stay, move, start-Moves, finish-Moves, fail-Moves,
  add_result-Moves, reset-Moves, recover-Moves, outdate-Moves,
}
use memgov.Tasks.History.{
  claim, workspace, complete, fail, set, confirm, begin, finish, give_up, lose, recover,
  reconfigure, revise, decide, reject, proceed, expire, redact, Call, Outside, step,
}

-- The calls that may start a new version of a task, whatever its state.
unfoldable pub resets : Call → Bool
resets (set clock id status) = true
resets (claim clock in_memory runtime w) = false
resets (workspace id dir) = false
resets (complete clock new_id task version attempt r) = false
resets (fail clock task version attempt code) = false
resets (confirm clock id message) = false
resets (begin clock in_memory runtime w) = false
resets (finish clock id attempt version r) = false
resets (give_up clock id attempt version code) = false
resets (lose clock id attempt version code) = false
resets (recover clock runtime) = false
resets (reconfigure clock runtime) = false
resets (revise clock recalled id) = true
resets (decide clock route proactive d id) = true
resets (reject clock owner origin ids task version) = false
resets (proceed clock text id version) = true
resets (expire cites message) = false
resets (redact f) = false

-- The calls that erase texts.
unfoldable pub erases : Call → Bool
erases (revise clock recalled id) = false
erases (decide clock route proactive d id) = false
erases (reject clock owner origin ids task version) = false
erases (proceed clock text id version) = false
erases (expire cites message) = true
erases (redact f) = true
erases (set clock id status) = false
erases (claim clock in_memory runtime w) = false
erases (workspace id dir) = false
erases (complete clock new_id task version attempt r) = false
erases (fail clock task version attempt code) = false
erases (confirm clock id message) = false
erases (begin clock in_memory runtime w) = false
erases (finish clock id attempt version r) = false
erases (give_up clock id attempt version code) = false
erases (lose clock id attempt version code) = false
erases (recover clock runtime) = false
erases (reconfigure clock runtime) = false

-- Along edges, any number of them.
pub data Along (t : Task) : Task → Type 0 where
  here : Along t t
  next : {u v : Task} → Along t u → SameTask u v → Edge true true u v → Along t v

allowed-status :
    (db : Db) (t : Task) (status : String)
    → check_transition db t status ≡ ok tt
    → contains starts status ≡ true
unfolding check_transition
allowed-status db t status h = elim (Bool-cases (str_eq status "cancelled")) [
  | inl e ↦ rw ((eq_iff status "cancelled").0 e) refl
  | inr e ↦ elim (Bool-cases (str_eq status "pending")) [
    | inl p ↦ rw ((eq_iff status "pending").0 p) refl
    | inr p ↦ absurd (let k : err invalid_input ≡ ok tt = rw (e, p) at h in cc)
  ]
]

weaken : (resets erases : Bool) (t u : Task) → Edge resets erases t u → Edge true true t u
weaken resets erases t u (inl e) = inl e
weaken resets erases t u (inr (inl (_, v, s))) = inr (inl (refl, v, s))
weaken resets erases t u (inr (inr (inl s))) = inr (inr (inl s))
weaken resets erases t u (inr (inr (inr (_, v, o, s)))) = inr (inr (inr (refl, v, o, s)))

-- Through one list of moves the first row of an id is the same task, further along.
found-Along :
    (resets erases : Bool) (id : String) (s u : List Task) (t : Task)
    → Moves resets erases s u
    → find_row (is_task id) s ≡ some t
    → (v : Task) × (find_row (is_task id) u ≡ some v) × Along t v
unfolding is_task
found-Along resets erases id s _ t stay found = (t, found, here)
found-Along resets erases id s _ t (move {u} q f same edge m) found =
    let (v, k, a) = found-Along resets erases id s u t m found in
    let e = find_row-update (is_task id) q f u (λ x. ap (λ y. str_eq y id) ((same x).id)) in
    elim (Bool-cases (q v)) [
      | inl h ↦ (f v, rw (e, k, h) refl, next a (same v) (weaken resets erases v (f v) (edge v h)))
      | inr h ↦ (v, rw (e, k, h) refl, a)
    ]

module _ (o : Outside) where
  abbrev pub MovesTo : Bool → Bool → Db → Db → Type 0
  MovesTo resets erases db db' = Moves resets erases db.runtime_tasks db'.runtime_tasks

  end-Moves :
      (status task_status : String) (clock : Clock) (id attempt : String) (version : ℕ)
      (code : String) (db : Db) (t : Task) (db' : Db)
      → contains (forward "awaiting_confirmation") task_status ≡ true
      → end_action status task_status clock id attempt version code db ≡ ok (t, db')
      → MovesTo false false db db'
  end-Moves status task_status clock id attempt version code db t db' edge h =
      let (a, _, _, e) =
        end_action-inv status task_status clock id attempt version code db t db' h in
      subst (MovesTo false false db) (sym e) (
        fail-Moves clock a.task_id version "awaiting_confirmation" task_status code db.runtime_tasks
          edge)

  pub step-Moves : (db : Db) (c : Call) → MovesTo (resets c) (erases c) db (step o db c)
  unfolding resets erases stale_task_work recover_rows end_work fail_action unknown_action
  step-Moves db (claim clock in_memory runtime w) =
      after-elim (MovesTo false false db) db
        (claim_task o.digests o.task_digest clock in_memory runtime w db) stay
        λ r db' h.
          elim (claim_task-inv o.digests o.task_digest clock in_memory runtime w db r db' h) [
            | inl e ↦ subst (MovesTo false false db) (sym e) stay
            | inr (c, t, _, _, _, _, k) ↦
                subst (MovesTo false false db) (sym k.changed)
                  (start-Moves clock t.id t.version db.runtime_tasks)
          ]
  step-Moves db (workspace id dir) =
      after-elim (MovesTo false false db) db (set_workspace id dir db) stay
        λ r db' h. subst (MovesTo false false db) (sym (set_workspace-inv id dir db r db' h)) stay
  step-Moves db (complete clock new_id task version attempt r) =
      after-elim (MovesTo false false db) db
        (complete_task o.julianday o.digests o.evidence o.formats clock new_id task version attempt
          r db)
        stay
        λ t db' h.
          let k =
            complete_task-Completed o.julianday o.digests o.evidence o.formats clock new_id task
              version attempt r db t db' h in
          subst (MovesTo false false db) (sym k.changed) (
            finish-Moves o.formats k.runtime _ _ clock task version k.status r db.runtime_tasks
              k.ends)
  step-Moves db (fail clock task version attempt code) =
      after-elim (MovesTo false false db) db (fail_task clock task version attempt code db) stay
        λ t db' h.
          subst (MovesTo false false db)
            (sym ((fail_task-inv clock task version attempt code db t db' h).1))
            (fail-Moves clock task version "running" "failed" _ db.runtime_tasks refl)
  step-Moves db (set clock id status) =
      after-elim (MovesTo true false db) db (set_status clock id status db) stay λ t db' h.
        let (old, _, allowed, e) = set_status-inv clock id status db t db' h in
        subst (MovesTo true false db) (sym e)
          (reset-Moves clock id status db.runtime_tasks (allowed-status db old status allowed))
  step-Moves db (confirm clock id message) =
      after-elim (MovesTo false false db) db
        (confirm_action o.julianday o.evidence o.formats clock id message db) stay
        λ a db' h.
          subst (MovesTo false false db)
            (sym
              ((confirm_action-inv o.julianday o.evidence o.formats clock id message db a db' h).2))
            stay
  step-Moves db (begin clock in_memory runtime w) =
      after-elim (MovesTo false false db) db
        (claim_action o.digests o.evidence o.formats clock in_memory runtime w db) stay
        λ r db' h.
          elim (claim_action-inv o.digests o.evidence o.formats clock in_memory runtime w db r db'
            h) [
              | inl e ↦ subst (MovesTo false false db) (sym e) stay
              | inr (c, a, _, _, _, _, _, k) ↦ subst (MovesTo false false db) (sym k.changed) stay
            ]
  step-Moves db (finish clock id attempt version r) =
      after-elim (MovesTo false false db) db
        (complete_action o.digests o.evidence o.formats o.julianday clock id attempt version r db)
        stay
        λ t db' h.
          let (a, _, _, _, _, e) =
            complete_action-inv o.digests o.evidence o.formats o.julianday clock id attempt version
              r db t db' h in
          subst (MovesTo false false db) (sym e) (
            let moved = add_result-Moves clock a.task_id version r db.runtime_tasks in
            elim (Bool-cases (
              has_row (is_left a.task_id version) (
                update_rows (is_action_in "executing" id) (mark_action "executed" clock)
                  db.runtime_pending_actions))) [
                    | inl left ↦ rw left stay
                    | inr over ↦ rw over moved
                  ])
  step-Moves db (give_up clock id attempt version code) =
      after-elim (MovesTo false false db) db (fail_action clock id attempt version code db) stay
        λ t db' h. end-Moves "failed" "action_failed" clock id attempt version _ db t db' refl h
  step-Moves db (lose clock id attempt version code) =
      after-elim (MovesTo false false db) db (unknown_action clock id attempt version code db) stay
        λ t db' h. end-Moves "unknown" "action_unknown" clock id attempt version _ db t db' refl h
  step-Moves db (recover clock runtime) =
      after-elim (MovesTo false false db) db (recover_runtime clock runtime db) stay λ r db' h.
        let (c, old, _, s, e) = recover_runtime-inv clock runtime db r db' h in
        subst (MovesTo false false db) (sym e) (
          subst
            (λ (x : Db).
              Moves false false db.runtime_tasks (recover_rows clock c.id x).runtime_tasks)
            (sym s.same) (recover-Moves clock c.id _ db.runtime_tasks))
  step-Moves db (reconfigure clock runtime) =
      after-elim (MovesTo false false db) db (invalidate clock runtime db) stay λ r db' h.
        let (c, old, _, s, e) = invalidate-inv clock runtime db r db' h in
        subst (MovesTo false false db) (sym e) (
          subst
            (λ (x : Db). Moves false false db.runtime_tasks (end_work clock c.id x).runtime_tasks)
            (sym s.same) (outdate-Moves clock c.id db.runtime_tasks))
  step-Moves db (revise clock recalled id) =
      Reworks-Moves clock id db _ (revise-Reworks clock recalled id db)
  step-Moves db (decide clock route proactive d id) =
      after-elim (MovesTo true false db) db (decide_task clock route proactive d id db) stay
        λ t db' h.
          Reworks-Moves clock id db db' (decide-Reworks clock route proactive d id db t db' h)
  step-Moves db (reject clock owner origin ids task version) =
      after-elim (MovesTo false false db) db (reject_card clock owner origin ids task version db)
        stay λ u db' h. reject-Moves clock owner origin ids task version db u db' h
  step-Moves db (proceed clock text id version) =
      after-elim (MovesTo true false db) db (resume_task clock text id version db) stay
        λ u db' h. Reworks-Moves clock id db db' (resume-Reworks clock text id version db u db' h)
  step-Moves db (expire cites message) = expire-Moves cites message db
  step-Moves db (redact f) = redact-Moves f db

  pub step-Along :
      (db : Db) (c : Call) (id : String) (t : Task)
      → find_row (is_task id) db.runtime_tasks ≡ some t
      → (u : Task) × (find_row (is_task id) (step o db c).runtime_tasks ≡ some u) × Along t u
  step-Along db c id t found =
      found-Along (resets c) (erases c) id db.runtime_tasks (step o db c).runtime_tasks t
        (step-Moves db c) found
