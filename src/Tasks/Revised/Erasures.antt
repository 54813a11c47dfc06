-- ===== src/Tasks/Revised/Erasures.antt =====
-- core/runtime_card.go and core/direct_retention.go: what a rejected card and the retention of texts do
-- to tasks, actions and attempts.
use memgov.Base.{
  ℕ, ◌≡◌, refl, sym, subst, String, Bool, true, false, List, [], ◌∷◌, ok, Clock, contains,
  update_rows, count_rows, str_eq, inl, inr, ◌==◌, not, conflict, fail_if-elim, >>=-elim, ok-state,
  ok_inj, arith, eq_iff, if◌then◌else◌,
}
use memgov.Schema.{Db}
use memgov.Schema.Tasks.{PendingAction, ActionAttempt, MessageAction}
use memgov.Tasks.Claim.{is_at}
use memgov.Tasks.Confirm.{is_pending_action}
use memgov.Tasks.Moves.{Moves, stay, move}
use memgov.Tasks.Acts.{ActsTo, Acts, rest, retire, settle}
use memgov.Tasks.History.Ends.{EndsTo, same_rows, end_tasks, end_actions}
use memgov.Tasks.Revised.{
  reject_card, reject_actions, reject_row, drop_row, expire_tasks, expire_action, expire_row,
  redact_work, redact_row,
}

reject_actions-Acts :
    (may : String → Bool) (clock : Clock) (owner origin : String) (ids : List String)
    (s : List PendingAction) (r : List ActionAttempt) (table actions : List PendingAction)
    → reject_actions clock owner origin ids table ≡ ok actions
    → Acts may s r table r
    → Acts may s r actions r
unfolding reject_actions reject_row
reject_actions-Acts may clock owner origin [] s r table actions h k =
    subst (λ t. Acts may s r t r) (ok_inj h) k
reject_actions-Acts may clock owner origin (id ∷ ids) s r table actions h k =
    fail_if-elim (not (count_rows (is_pending_action id) table == 1)) conflict _ h λ _ h.
      reject_actions-Acts may clock owner origin ids s r _ actions h
        (retire (is_pending_action id) (reject_row clock owner origin) (λ a. (refl, refl)) k)

-- The rejection of a card, on actions and on the task.
module _ (clock : Clock) (owner origin : String) (ids : List String) (task : String) (version : ℕ)
    (db : Db) (u : Unit {0}) (db' : Db)
    (h : reject_card clock owner origin ids task version db ≡ ok (u, db')) where
  reject_card-inv :
      (actions : List PendingAction) × (reject_actions clock owner origin ids
          db.runtime_pending_actions
        ≡ ok actions)
      × (db' ≡ record db {
        runtime_pending_actions = actions;
        runtime_tasks =
            update_rows
              (is_at task version "awaiting_confirmation")
              (drop_row clock)
              db.runtime_tasks;
      })
  unfolding reject_card
  reject_card-inv =
      >>=-elim (reject_actions clock owner origin ids db.runtime_pending_actions) _ h λ actions e k.
        fail_if-elim
          (not (count_rows (is_at task version "awaiting_confirmation") db.runtime_tasks == 1)) _ _
          k λ _ k. (actions, e, ok-state k)

  pub reject-Moves : Moves false false db.runtime_tasks db'.runtime_tasks
  unfolding is_at drop_row
  reject-Moves =
      let (_, _, e) = reject_card-inv in
      subst (λ (d : Db). Moves false false db.runtime_tasks d.runtime_tasks) (sym e)
        (move (is_at task version "awaiting_confirmation") (drop_row clock)
          (λ t. record { id = refl; runtime = refl; key = refl })
          (λ t k.
            let here : t.status ≡ "awaiting_confirmation" =
              ground (arith, eq_iff t.status "awaiting_confirmation") in
            inl (refl, (refl, refl, refl), refl, rw here refl))
          stay)

  pub reject-Acts : (may : String → Bool) → ActsTo may db db'
  reject-Acts may =
      let (actions, k, e) = reject_card-inv in
      subst (ActsTo may db) (sym e) (
        reject_actions-Acts may clock owner origin ids _ _ db.runtime_pending_actions actions k
          rest)

  pub reject-EndsTo : EndsTo db db'
  reject-EndsTo = let (_, _, e) = reject_card-inv in subst (EndsTo db) (sym e) (refl, same_rows)

closed_status :
    (b c : Bool) (s : String)
    → contains ("pending" ∷ "confirmed" ∷ []) s ≡ b
    → contains ("pending" ∷ "confirmed" ∷ []) (if b then "stale" else if c then "unknown" else s)
      ≡ false
closed_status true c s e = refl
closed_status false true s e = refl
closed_status false false s e = e

-- An action whose text has expired waits no more.
expired_apart :
    (a : PendingAction) → contains ("pending" ∷ "confirmed" ∷ []) (expire_action a).status ≡ false
unfolding expire_action
expired_apart a = closed_status _ (str_eq a.status "executing") a.status refl

module _ (cites : MessageAction → Bool) (message : String) (db : Db) where
  pub expire-Moves : Moves false true db.runtime_tasks (expire_tasks cites message db).runtime_tasks
  unfolding expire_tasks expire_row
  expire-Moves =
      move _ expire_row (λ t. record { id = refl; runtime = refl; key = refl })
        (λ t _. inr (inr (inr (refl, refl, (refl, refl, refl), refl)))) stay

  pub expire-Acts : (may : String → Bool) → ActsTo may db (expire_tasks cites message db)
  unfolding expire_tasks
  expire-Acts may =
      retire _ expire_action (λ a. (unfold expire_action in refl, expired_apart a))
        (settle _ (λ a. record a { result = "" }) (λ a. refl) rest)

  pub expire-EndsTo : EndsTo db (expire_tasks cites message db)
  unfolding expire_tasks
  expire-EndsTo = (
    refl,
    end_tasks _ (λ a. record a { output = "" }) (λ a. (refl, λ x. x))
        (end_actions _ (λ a. record a { result = "" }) (λ a. (refl, λ x. x)) same_rows),
  )

module _ (f : String → String) (db : Db) where
  pub redact-Moves : Moves false true db.runtime_tasks (redact_work f db).runtime_tasks
  unfolding redact_work redact_row
  redact-Moves =
      move _ (redact_row f) (λ t. record { id = refl; runtime = refl; key = refl })
        (λ t _. inr (inr (inr (refl, refl, (refl, refl, refl), refl)))) stay

  pub redact-Acts : (may : String → Bool) → ActsTo may db (redact_work f db)
  unfolding redact_work
  redact-Acts may = settle _ _ (λ a. refl) rest

  pub redact-EndsTo : EndsTo db (redact_work f db)
  unfolding redact_work
  redact-EndsTo =
      (refl, end_tasks _ _ (λ a. (refl, λ x. x)) (end_actions _ _ (λ a. (refl, λ x. x)) same_rows))
