-- ===== src/Tasks/History/Completed.antt =====
-- core/runtime.go: a completed task under further calls.
use memgov.Base.{
  ◌+◌, ◌≤◌, ◌≡◌, refl, ap, ◌∙◌, String, Bool, true, false, some, List, [], ◌∷◌, find_row,
  count_rows, str_eq, ◌⊎◌, inl, inr, Bool-cases, arith,
}
use memgov.Base.Table.{find_row-update}
use memgov.Schema.{Db}
use memgov.Schema.Tasks.{Task}
use memgov.Tasks.{is_task}
use memgov.Tasks.Moves.{Edge, Moves, stay, move}
use memgov.Tasks.History.{Call, Outside, step, run}
use memgov.Tasks.History.Edges.{resets, erases, step-Moves}
use memgov.Tasks.History.States.{task_follows_edges}

-- Past the version of `t`, or completed in it, and the same row if nothing was erased.
abbrev pub Done : Bool → Task → Task → Type 0
Done erased t u =
    (t.version + 1 ≤ u.version)
    ⊎ ((u.version ≡ t.version) × (u.status ≡ "completed") × ((u ≡ t) ⊎ (erased ≡ true)))

-- A completed task is on no edge of its version, and its texts may be erased.
edge-Done :
    (resets erases : Bool) (t u : Task)
    → Edge resets erases t u
    → t.status ≡ "completed"
    → Done erases t u
edge-Done resets erases t u (inl (_, _, _, c)) over =
    absurd (let d : false ≡ true = rw over at c in cc)
edge-Done resets erases t u (inr (inl (_, e, _))) over = inl (omega (arith, e))
edge-Done resets erases t u (inr (inr (inl (_, e, _)))) over = inl (omega (arith, e))
edge-Done resets erases t u (inr (inr (inr (b, e, _, s)))) over = inr (e, s ∙ over, inr b)

-- One more edge.
Done-edge :
    (resets erases : Bool) (t u v : Task)
    → Done erases t u
    → Edge resets erases u v
    → Done erases t v
Done-edge resets erases t u v (inl p) (inl (e, _, _, _)) = inl (omega (arith, p, e))
Done-edge resets erases t u v (inl p) (inr (inl (_, e, _))) = inl (omega (arith, p, e))
Done-edge resets erases t u v (inl p) (inr (inr (inl (_, e, _)))) = inl (omega (arith, p, e))
Done-edge resets erases t u v (inl p) (inr (inr (inr (_, e, _, _)))) = inl (omega (arith, p, e))
Done-edge resets erases t u v (inr (p, s, same)) edge = elim (edge-Done resets erases u v edge s) [
  | inl q ↦ inl (omega (arith, p, q))
  | inr (q, s', kept) ↦ inr (
    q ∙ p,
    s',
    elim kept [ inr b ↦ inr b | inl e ↦ elim same [ inr b ↦ inr b | inl e' ↦ inl (e ∙ e') ] ],
  )
]

found-Done :
    (resets erases : Bool) (id : String) (s u : List Task) (t : Task)
    → Moves resets erases s u
    → find_row (is_task id) s ≡ some t
    → t.status ≡ "completed"
    → (v : Task) × (find_row (is_task id) u ≡ some v) × Done erases t v
unfolding is_task
found-Done resets erases id s _ t stay found over = (t, found, inr (refl, over, inl refl))
found-Done resets erases id s _ t (move {u} q f same edge m) found over =
    let (v, k, done) = found-Done resets erases id s u t m found over in
    let e = find_row-update (is_task id) q f u (λ x. ap (λ y. str_eq y id) ((same x).id)) in
    elim (Bool-cases (q v)) [
      | inl h ↦ (f v, rw (e, k, h) refl, Done-edge resets erases t v (f v) done (edge v h))
      | inr h ↦ (v, rw (e, k, h) refl, done)
    ]

module _ (o : Outside) where
  -- Over any sequence of the calls that claim, complete, fail, reset or resume tasks, that confirm,
  -- start and end their actions, that recover or configure a runtime anew, that edit or recall
  -- messages, decide on tasks in batches, reject cards, and expire or redact texts, a completed
  -- task stays stored, and either it is in a later version then, or in the same one, completed, and
  -- with the same row if no text was expired or redacted.
  pub completed_for_good :
      (db : Db) (calls : List Call) (id : String) (t : Task)
      → find_row (is_task id) db.runtime_tasks ≡ some t
      → t.status ≡ "completed"
      → (u : Task) × (find_row (is_task id) (run o db calls).runtime_tasks ≡ some u)
        × ((t.version + 1 ≤ u.version)
            ⊎ ((u.version ≡ t.version)
                × (u.status ≡ "completed")
                × ((u ≡ t) ⊎ (1 ≤ count_rows erases calls))))
  unfolding run count_rows
  completed_for_good db [] id t found over = (t, found, inr (refl, over, inl refl))
  completed_for_good db (c ∷ calls) id t found over =
      let (u, k, done) =
        found-Done (resets c) (erases c) id db.runtime_tasks _ t (step-Moves o db c) found over in
      elim done [
        | inl later ↦
            let (v, k', _, on, _) = task_follows_edges o (step o db c) calls id u k in
            (
              v,
              k',
              inl (elim on [
                | inl more ↦ omega (arith, later, more)
                | inr (same, _) ↦ omega (arith, later, same)
              ]),
            )
        | inr (same, over', kept) ↦
            let (v, k', rest) = completed_for_good (step o db c) calls id u k over' in
            (
              v,
              k',
              elim rest [
                | inl later ↦ inl (omega (arith, later, same))
                | inr (same', over'', kept') ↦ inr (
                  same' ∙ same,
                  over'',
                  elim kept [
                    | inr erased ↦ inr (rw erased (omega arith))
                    | inl e ↦ elim kept' [
                      | inl e' ↦ inl (e' ∙ e)
                      | inr more ↦ inr (ground (arith, more))
                    ]
                  ],
                )
              ],
            )
      ]
