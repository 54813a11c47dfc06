-- ===== src/Tasks/Acts.antt =====
-- core/runtime.go: what each call does to pending actions and to the attempts at them: a few
-- changes, among which only a confirmation makes an action confirmed.
use memgov.Base.{
  ℕ, suc, ◌≡◌, refl, String, Bool, true, false, List, [], ◌∷◌, ◌++◌, ok, Clock, contains,
  count_rows, has_row, update_rows, str_eq, >>=-elim, fail_if-elim, ok_inj, subst, arith, internal,
}
use memgov.Schema.{Db}
use memgov.Schema.Tasks.{PendingAction, ActionAttempt}
use memgov.Tasks.{Formats, mark_action}
use memgov.Tasks.Proposed.{ActionInput, insert_actions, new_action, check_action}
use memgov.Tasks.Confirm.{is_action, is_pending_action, confirm_row}
use memgov.Tasks.Actions.{is_action_in}

module _ (may_confirm : String → Bool) (s : List PendingAction) (r : List ActionAttempt) where
  pub data Acts : List PendingAction → List ActionAttempt → Type 0 where
    rest : Acts s r
    close :
        {u : List PendingAction} {v : List ActionAttempt} (q : PendingAction → Bool)
        (status : String) (clock : Clock)
        → contains ("pending" ∷ "confirmed" ∷ []) status ≡ false
        → Acts u v
        → Acts (update_rows q (mark_action status clock) u) v
    retire :
        {u : List PendingAction} {v : List ActionAttempt} (q : PendingAction → Bool)
        (f : PendingAction → PendingAction)
        → ((a : PendingAction)
            → ((f a).id ≡ a.id) × (contains ("pending" ∷ "confirmed" ∷ []) (f a).status ≡ false))
        → Acts u v
        → Acts (update_rows q f u) v
    settle :
        {u : List PendingAction} {v : List ActionAttempt} (q : ActionAttempt → Bool)
        (f : ActionAttempt → ActionAttempt)
        → ((a : ActionAttempt) → (f a).action_id ≡ a.action_id)
        → Acts u v
        → Acts u (update_rows q f v)
    approve :
        {u : List PendingAction} {v : List ActionAttempt} (id who message : String) (clock : Clock)
        → may_confirm id ≡ true
        → Acts u v
        → Acts (update_rows (is_pending_action id) (confirm_row clock who message) u) v
    start :
        {u : List PendingAction} {v : List ActionAttempt} (id : String) (clock : Clock)
        (attempt : ActionAttempt)
        → attempt.action_id ≡ id
        → count_rows (is_action_in "confirmed" id) u ≡ 1
        → Acts u v
        → Acts
            (update_rows (is_action_in "confirmed" id) (mark_action "executing" clock) u)
            (v ++ attempt ∷ [])
    propose :
        {u : List PendingAction} {v : List ActionAttempt} (a : PendingAction)
        → a.status ≡ "pending"
        → count_rows (is_action a.id) u ≡ 0
        → Acts u v
        → Acts (u ++ a ∷ []) v

module _ (may_confirm : String → Bool) (s : List PendingAction) (r : List ActionAttempt) where
  -- Every action that is inserted waits, with an id of its own.
  pub insert_actions-Acts :
      (formats : Formats) (clock : Clock) (new_id : ℕ → String) (n : ℕ) (task : String)
      (version : ℕ) (inputs : List ActionInput) (table actions : List PendingAction)
      → insert_actions formats clock new_id n task version inputs table ≡ ok actions
      → Acts may_confirm s r table r
      → Acts may_confirm s r actions r
  unfolding insert_actions new_action is_action
  insert_actions-Acts formats clock new_id n task version [] table actions h k =
      subst (λ t. Acts may_confirm s r t r) (ok_inj h) k
  insert_actions-Acts formats clock new_id n task version (a ∷ inputs) table actions h k =
      >>=-elim (check_action formats a) _ h λ _ _ h.
        fail_if-elim (has_row (λ (p : PendingAction). str_eq p.id (new_id n)) table) internal _ h
          λ fresh h.
            insert_actions-Acts formats clock new_id (suc n) task version inputs _ actions h
              (propose (new_action formats clock (new_id n) task version a) refl (ground arith) k)

abbrev pub ActsTo : (String → Bool) → Db → Db → Type 0
ActsTo may_confirm db db' =
    Acts may_confirm db.runtime_pending_actions db.runtime_action_attempts
      db'.runtime_pending_actions db'.runtime_action_attempts
