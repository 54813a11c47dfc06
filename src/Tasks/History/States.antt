-- ===== src/Tasks/History/States.antt =====
-- core/runtime.go: the states of a task over any history of calls.
use memgov.Base.{
  ◌+◌, ◌≤◌, ◌≡◌, refl, ◌∙◌, String, some, List, [], ◌∷◌, arith, find_row, ◌⊎◌, inl, inr, true,
}
use memgov.Schema.{Db}
use memgov.Schema.Tasks.{Task}
use memgov.Tasks.{is_task}
use memgov.Tasks.Moves.{SameTask, SameOrder, Edge}
use memgov.Tasks.History.{Call, Outside, step, run}
use memgov.Tasks.History.Edges.{Along, here, next, step-Along}

Along-trans : (t u v : Task) → Along t u → Along u v → Along t v
Along-trans t u _ a here = a
Along-trans t u _ a (next b same edge) = next (Along-trans t u _ a b) same edge

SameTask-trans : (t u v : Task) → SameTask t u → SameTask u v → SameTask t v
SameTask-trans t u v p q = record {
  id = q.id ∙ p.id;
  runtime = q.runtime ∙ p.runtime;
  key = q.key ∙ p.key;
}

Along-SameTask : (t u : Task) → Along t u → SameTask t u
Along-SameTask t _ here = record { id = refl; runtime = refl; key = refl }
Along-SameTask t _ (next {u} {v} a same edge) = SameTask-trans t u v (Along-SameTask t u a) same

-- A later version, or the same one of the same route, kind and title.
abbrev pub Continues : Task → Task → Type 0
Continues t u = (t.version + 1 ≤ u.version) ⊎ ((u.version ≡ t.version) × SameOrder t u)

SameOrder-trans : (t u v : Task) → SameOrder t u → SameOrder u v → SameOrder t v
SameOrder-trans t u v (a, b, c) (x, y, z) = (x ∙ a, y ∙ b, z ∙ c)

edge-Continues : (u v : Task) → Edge true true u v → Continues u v
edge-Continues u v (inl (e, order, _, _)) = inr (e, order)
edge-Continues u v (inr (inl (_, e, _))) = inl (omega (arith, e))
edge-Continues u v (inr (inr (inl (_, e, _)))) = inl (omega (arith, e))
edge-Continues u v (inr (inr (inr (_, e, order, _)))) = inr (e, order)

Continues-trans : (t u v : Task) → Continues t u → Continues u v → Continues t v
Continues-trans t u v (inl p) (inl q) = inl (omega (arith, p, q))
Continues-trans t u v (inl p) (inr (q, _)) = inl (omega (arith, p, q))
Continues-trans t u v (inr (p, _)) (inl q) = inl (omega (arith, p, q))
Continues-trans t u v (inr (p, a)) (inr (q, b)) = inr (q ∙ p, SameOrder-trans t u v a b)

Along-Continues : (t u : Task) → Along t u → Continues t u
Along-Continues t _ here = inr (refl, (refl, refl, refl))
Along-Continues t _ (next {u} {v} a same edge) =
    Continues-trans t u v (Along-Continues t u a) (edge-Continues u v edge)

module _ (o : Outside) where
  -- Over any sequence of the calls that claim, complete, fail, reset or resume tasks, that confirm,
  -- start and end their actions, that recover or configure a runtime anew, that edit or recall
  -- messages, decide on tasks in batches, reject cards, and expire or redact texts, a stored task
  -- stays stored, with its runtime and its key; either it is in a later version then, or in the
  -- same one with the same route, kind and title; and it goes along edges: in one version from
  -- `pending` to `running`, from there to `completed`, `awaiting_confirmation`, `blocked` or
  -- `failed`, and from `awaiting_confirmation` to `completed`, `action_failed`, `action_unknown` or
  -- `cancelled`, with the same instructions; another version is the next one, and starts as
  -- `pending`, `cancelled`, `stale`, `completed` or `clarification`; and where texts are erased,
  -- version, state, route, kind and title stay.
  pub task_follows_edges :
      (db : Db) (calls : List Call) (id : String) (t : Task)
      → find_row (is_task id) db.runtime_tasks ≡ some t
      → (u : Task) × (find_row (is_task id) (run o db calls).runtime_tasks ≡ some u)
        × SameTask t u
        × Continues t u
        × Along t u
  unfolding run
  task_follows_edges db [] id t found =
      (t, found, Along-SameTask t t here, Along-Continues t t here, here)
  task_follows_edges db (c ∷ calls) id t found =
      let (u, k, a) = step-Along o db c id t found in
      let (v, k', _, _, b) = task_follows_edges (step o db c) calls id u k in
      let all = Along-trans t u v a b in
      (v, k', Along-SameTask t v all, Along-Continues t v all, all)
