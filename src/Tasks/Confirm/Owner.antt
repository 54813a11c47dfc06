-- ===== src/Tasks/Confirm/Owner.antt =====
-- core/runtime.go: who approves an action.
use memgov.Base.{ℕ, ◌≡◌, refl, ap, ◌∙◌, String, Option, some, ok, Clock, find_row, update_rows}
use memgov.Base.Table.{find_row-update, find_row-holds}
use memgov.Schema.{Db}
use memgov.Schema.Tasks.{PendingAction}
use memgov.Tasks.{Evidence, Formats}
use memgov.Tasks.Confirm.{Confirmation, confirm_action, is_action, is_pending_action, confirm_row}
use memgov.Tasks.Confirm.Results.{IsApproved, confirm_action-inv}

module _ (julianday : String → Option ℕ) (evidence : Evidence) (formats : Formats) where
  confirmed_row :
      (clock : Clock) (id who message : String) (db : Db) (a : PendingAction)
      → find_row (is_action id) db.runtime_pending_actions ≡ some a
      → a.status ≡ "pending"
      → find_row (is_action id) (
          update_rows
            (is_pending_action id)
            (confirm_row clock who message)
            db.runtime_pending_actions)
        ≡ some (confirm_row clock who message a)
  unfolding is_action is_pending_action confirm_row
  confirmed_row clock id who message db a found waits =
      let moved =
        find_row-update (is_action id) (is_pending_action id) (confirm_row clock who message)
          db.runtime_pending_actions (λ x. refl) in
      let own = find_row-holds (is_action id) db.runtime_pending_actions a found in
      rw (moved, found) (rw (own, waits) refl)

  -- When a message has confirmed an action, what is said under IsApproved held: the action was pending,
  -- in the version of its task and with the payload that was shown, and the message, later than it and
  -- from an inbox that may approve, is its token, sent by the runtime's owner with a verified
  -- identifier. The stored action names that owner and the message, and no task and no attempt changed.
  pub confirmed_by_owner :
      (clock : Clock) (id message : String) (db : Db) (a : PendingAction) (db' : Db)
      → confirm_action julianday evidence formats clock id message db ≡ ok (a, db')
      → (k : Confirmation) × IsApproved julianday evidence formats db id message k
        × (find_row (is_action id) db'.runtime_pending_actions
            ≡ some (confirm_row clock k.runtime.owner_principal_id message k.action))
        × (db'.runtime_tasks ≡ db.runtime_tasks)
        × (db'.runtime_action_attempts ≡ db.runtime_action_attempts)
  confirmed_by_owner clock id message db a db' h =
      let (k, ok_, e) = confirm_action-inv julianday evidence formats clock id message db a db' h in
      let row =
        confirmed_row clock id k.message.sender_principal message db k.action ok_.found
          ok_.pending in
      (
        k,
        ok_,
        ap (λ (d : Db). find_row (is_action id) d.runtime_pending_actions) e
            ∙ row
            ∙ ap (λ who. some (confirm_row clock who message k.action)) ok_.owner,
        ap (λ (d : Db). d.runtime_tasks) e,
        ap (λ (d : Db). d.runtime_action_attempts) e,
      )
