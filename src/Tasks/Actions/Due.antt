-- ===== src/Tasks/Actions/Due.antt =====
-- core/runtime.go: the action that ClaimRuntimeAction finds, and its task.
use memgov.Base.{
  ◌≡◌, ◌⊎◌, subst, Bool, some, List, [], ◌∷◌, find_row, eq_iff, arith, inl, inr, Bool-cases,
  Option-cases, Any, select_rows-from,
}
use memgov.Base.Table.{find_row-holds, count_rows-zero}
use memgov.Schema.{Db}
use memgov.Schema.Runtimes.{Runtime}
use memgov.Schema.Tasks.{Task, PendingAction}
use memgov.Tasks.Actions.{is_due, is_ready_action, first_action, next_action}

first_action-member :
    (actions : List PendingAction) (a : PendingAction)
    → first_action actions ≡ some a
    → Any (λ b. b ≡ a) actions
unfolding first_action
first_action-member [] a h = cc
first_action-member (b ∷ actions) a h = elim (Option-cases (first_action actions)) [
  | inl n ↦ let e : some b ≡ some a = rw n at h in inl (cc e)
  | inr (c, n) ↦
      let e : (c ≡ a) ⊎ (b ≡ a) = ground arith in
      elim e [
        | inl same ↦
            inr (subst (λ x. Any (λ d. d ≡ x) actions) same (first_action-member actions c n))
        | inr same ↦ inl same
      ]
]

-- A row that satisfies the test is a member.
found_member :
    {A : Type 0} (p : A → Bool) (t : List A) (r : A) → find_row p t ≡ some r → Any (λ x. x ≡ r) t
unfolding find_row
found_member p [] r h = cc
found_member p (x ∷ t) r h = elim (Bool-cases (p x)) [
  | inl y ↦ (let e : some x ≡ some r = rw y at h in inl (cc e))
  | inr n ↦ inr (found_member p t r (rw n at h))
]

-- It belongs to a task of the runtime.
pub next_action-due :
    (db : Db) (c : Runtime) (a : PendingAction)
    → next_action db c ≡ some a
    → (t : Task) × Any (λ u. u ≡ t) db.runtime_tasks × (t.id ≡ a.task_id) × (t.runtime_id ≡ c.id)
unfolding next_action is_ready_action is_due
next_action-due db c a h =
    let (ready, _) =
      select_rows-from (is_ready_action db c) db.runtime_pending_actions a
        (first_action-member _ a h) in
    elim (Option-cases (find_row (is_due db c a) db.runtime_tasks)) [
      | inl n ↦ absurd (
          let z = count_rows-zero (is_due db c a) db.runtime_tasks n in
          let k : ⊥ = ground arith in k)
      | inr (t, e) ↦
          let due = find_row-holds (is_due db c a) db.runtime_tasks t e in
          (
            t,
            found_member (is_due db c a) db.runtime_tasks t e,
            ground (arith, eq_iff t.id a.task_id),
            ground (arith, eq_iff t.runtime_id c.id),
          )
    ]
