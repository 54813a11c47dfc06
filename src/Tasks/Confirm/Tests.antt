-- ===== src/Tasks/Confirm/Tests.antt =====
-- The owner confirms an action, on concrete rows.
use memgov.Base.{
  ◌≡◌, refl, ok, some, [], ◌∷◌, trim_space, find_row, count_rows, update_rows, take_chars,
}
use memgov.Schema.{Db, empty}
use memgov.Schema.Tasks.{PendingAction}
use memgov.Channel.{read_channel, read_route}
use memgov.Policy.{read_runtime}
use memgov.Tasks.{read_task, is_task, trigger_admitted, messages_current, is_outdated}
use memgov.Tasks.Samples.{
  clock, evidence, formats, outside, waiting, action, runtime, inbox, answer,
}
use memgov.Tasks.Approval.{
  confirmation_token, confirmation_routes, legacy_inbox, is_usable, sender_current, is_message_on,
  is_sender_alias, current_revision,
}
use memgov.Tasks.Confirm.{
  Confirmation, confirm_action, check_confirmation, find_action, is_action, is_message, is_inbox_of,
  sent_after, said, is_unchanged, lists_action, confirm_row, is_pending_action, mark_processed,
}
use memgov.Tasks.Confirm.Results.{IsApproved}
use memgov.Tasks.Confirm.Owner.{confirmed_by_owner}

abbrev confirmed : PendingAction
confirmed = confirm_row clock "p1" "m1" action

abbrev confirmed_db : Db
confirmed_db = record waiting {
  runtime_pending_actions = confirmed ∷ [];
  runtime_message_states = mark_processed clock runtime inbox answer [];
}

confirms_it :
    confirm_action outside.julianday evidence formats clock "a1" "m1" waiting
    ≡ ok (confirmed, confirmed_db)
unfolding confirm_action check_confirmation find_action is_action find_row empty read_task is_task
    read_runtime trigger_admitted read_route messages_current is_outdated confirmation_routes
    legacy_inbox read_channel is_message current_revision is_inbox_of sender_current is_message_on
    is_usable is_sender_alias count_rows sent_after said confirmation_token lists_action
    is_pending_action update_rows is_unchanged trim_space take_chars
confirms_it = refl

confirmed_by_owner_example :
    (k : Confirmation) × IsApproved outside.julianday evidence formats waiting "a1" "m1" k
    × (find_row (is_action "a1") confirmed_db.runtime_pending_actions
        ≡ some (confirm_row clock k.runtime.owner_principal_id "m1" k.action))
    × (confirmed_db.runtime_tasks ≡ waiting.runtime_tasks)
    × (confirmed_db.runtime_action_attempts ≡ waiting.runtime_action_attempts)
confirmed_by_owner_example =
    confirmed_by_owner outside.julianday evidence formats clock "a1" "m1" waiting confirmed
      confirmed_db confirms_it
