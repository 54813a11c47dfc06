-- ===== src/Tasks/History/Fence.antt =====
-- core/runtime.go: results for an earlier version of a task.
use memgov.Base.{
  ℕ, suc, ◌+◌, ◌≤◌, ◌≡◌, refl, sym, subst, String, Bool, true, false, ◌&&◌, some, List, [], ◌∷◌, ok,
  Clock, find_row, count_rows, update_rows, str_eq, inl, inr, ltb, Bool-cases, arith,
  count_rows-update_fewer, count_rows-weaken, count_rows-update_eq,
}
use memgov.Base.Table.{find_row-update, find_row-holds}
use memgov.Schema.{Db}
use memgov.Schema.Tasks.{Task}
use memgov.Tasks.{is_task, stale_task_work}
use memgov.Tasks.Claim.{is_at}
use memgov.Tasks.Outcome.{complete_task, fail_task, set_status, reset_task}
use memgov.Tasks.Proposed.{AttemptResult}
use memgov.Tasks.Outcome.Results.{complete_task-Completed, fail_task-inv, set_status-inv}
use memgov.Tasks.Moves.{SameTask, Moves, stay, move}
use memgov.Tasks.History.{Call, Outside, step, run}
use memgov.Tasks.History.Edges.{resets, erases, step-Moves}

-- A row of the task from before the version.
abbrev is_before : String → ℕ → Task → Bool
is_before id n t = str_eq t.id id && ltb t.version n

-- Where one row has the id, and is not from before the version, none is.
count_rows-only :
    (id : String) (n : ℕ) (rows : List Task) (t : Task)
    → count_rows (is_task id) rows ≤ 1
    → find_row (is_task id) rows ≡ some t
    → ltb t.version n ≡ false
    → count_rows (is_before id n) rows ≡ 0
unfolding count_rows find_row is_task
count_rows-only id n [] t one found over = cc
count_rows-only id n (r ∷ rows) t one found over = elim (Bool-cases (str_eq r.id id)) [
  | inr h ↦ rw h (count_rows-only id n rows t (rw h at one) (rw h at found) over)
  | inl h ↦
      let here : some r ≡ some t = rw h at found in
      let over' : ltb r.version n ≡ false = let e : r ≡ t = cc in rw e over in
      let rest =
        count_rows-weaken (is_before id n) (is_task id) (λ x. x) rows (λ x h. ground arith) in
      let one' : suc (count_rows (is_task id) rows) ≤ 1 = rw h at one in
      rw (h, over') (omega (arith, rest, one'))
]

later :
    (id : String) (n : ℕ) (t u : Task)
    → SameTask t u
    → t.version ≤ u.version
    → is_before id n u ≡ true
    → is_before id n t ≡ true
later id n t u same le h =
    let k : is_before id n (record u { id = t.id }) ≡ true =
      subst (λ x. is_before id n (record u { id = x }) ≡ true) same.id h in
    ground arith

Moves-later :
    (may_reset may_erase : Bool) (id : String) (n : ℕ) (s u : List Task)
    → Moves may_reset may_erase s u
    → count_rows (is_before id n) u ≤ count_rows (is_before id n) s
Moves-later may_reset may_erase id n s _ stay = omega arith
Moves-later may_reset may_erase id n s _ (move {u} q f same edge m) =
    let rest = Moves-later may_reset may_erase id n s u m in
    let fewer = count_rows-update_fewer (is_before id n) q f u (λ t h k.
      let le : t.version ≤ (f t).version = elim (edge t h) [
        | inl (v, _, _, _) ↦ omega (arith, v)
        | inr newer ↦ elim newer [
          | inl (_, v, _) ↦ omega (arith, v)
          | inr last ↦ elim last [
            | inl (_, v, _) ↦ omega (arith, v)
            | inr (_, v, _, _) ↦ omega (arith, v)
          ]
        ]
      ] in
      later id n t (f t) (same t) le k) in
    omega (arith, fewer, rest)

at-later :
    (id : String) (n v : ℕ) (tasks : List Task)
    → v + 1 ≤ n
    → count_rows (is_before id n) tasks ≡ 0
    → count_rows (is_at id v "running") tasks ≡ 0
unfolding is_at
at-later id n v tasks le none_left =
    let k =
      count_rows-weaken (is_at id v "running") (is_before id n) (λ x. x) tasks
        (λ x h. ground arith) in
    omega (arith, k, none_left)

module _ (o : Outside) where
  run-later :
      (db : Db) (calls : List Call) (id : String) (n : ℕ)
      → count_rows (is_before id n) db.runtime_tasks ≡ 0
      → count_rows (is_before id n) (run o db calls).runtime_tasks ≡ 0
  unfolding run
  run-later db [] id n h = h
  run-later db (c ∷ calls) id n h =
      let k =
        Moves-later (resets c) (erases c) id n db.runtime_tasks (step o db c).runtime_tasks
          (step-Moves o db c) in
      run-later (step o db c) calls id n (omega (arith, k, h))

  set-later :
      (clock : Clock) (id status : String) (db : Db) (u : Task) (db' : Db) (t : Task)
      → set_status clock id status db ≡ ok (u, db')
      → find_row (is_task id) db.runtime_tasks ≡ some t
      → count_rows (is_task id) db.runtime_tasks ≤ 1
      → count_rows (is_before id (t.version + 1)) db'.runtime_tasks ≡ 0
  unfolding stale_task_work is_task reset_task
  set-later clock id status db u db' t h found one =
      let (_, _, _, e) = set_status-inv clock id status db u db' h in
      let rows = update_rows (is_task id) (reset_task clock status) db.runtime_tasks in
      let moved =
        find_row-update (is_task id) (is_task id) (reset_task clock status) db.runtime_tasks
          (λ x. refl) in
      let same =
        count_rows-update_eq (is_task id) (is_task id) (reset_task clock status) db.runtime_tasks
          (λ x. refl) in
      let own = find_row-holds (is_task id) db.runtime_tasks t found in
      subst (λ (d : Db). count_rows (is_before id (t.version + 1)) d.runtime_tasks ≡ 0) (sym e)
        (count_rows-only id (t.version + 1) rows (reset_task clock status t)
          (omega (arith, same, one)) (rw (moved, found, own) refl) (ground arith))

  -- Once a stored task (under an id that one row has) has been cancelled or set back, a result or a
  -- failure that is handed in for the version it had then, or for an earlier one, is refused for
  -- good, whatever calls come in between: an agent that still runs cannot overwrite what follows.
  pub earlier_version_refused :
      (clock : Clock) (id status : String) (db : Db) (t u : Task) (db' : Db) (calls : List Call)
      (v : ℕ)
      → find_row (is_task id) db.runtime_tasks ≡ some t
      → count_rows (is_task id) db.runtime_tasks ≤ 1
      → set_status clock id status db ≡ ok (u, db')
      → v ≤ t.version
      → ((at_ : Clock) (new_id : ℕ → String) (attempt : String) (r : AttemptResult) (p : Task × Db)
          → ¬ (
              complete_task o.julianday o.digests o.evidence o.formats at_ new_id id v attempt r
                (run o db' calls)
              ≡ ok p))
        × ((at_ : Clock) (attempt code : String) (p : Task × Db)
            → ¬ (fail_task at_ id v attempt code (run o db' calls) ≡ ok p))
  earlier_version_refused clock id status db t u db' calls v found one h le =
      let gone = at-later id (t.version + 1) v _ (omega (arith, le)) (
        run-later db' calls id (t.version + 1)
          (set-later clock id status db u db' t h found one)) in
      (
        λ at_ new_id attempt r p k.
            let c =
              complete_task-Completed o.julianday o.digests o.evidence o.formats at_ new_id id v
                attempt r (run o db' calls) p.0 p.1 k in
            let d = c.one in omega (arith, d, gone),
        λ at_ attempt code p k.
            let (d, _) = fail_task-inv at_ id v attempt code (run o db' calls) p.0 p.1 k in
            omega (arith, d, gone),
      )
