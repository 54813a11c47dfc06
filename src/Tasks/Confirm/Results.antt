-- ===== src/Tasks/Confirm/Results.antt =====
-- core/runtime.go: what ConfirmRuntimeActionFromMessage checks and changes.
use memgov.Base.{
  ℕ, ◌≡◌, String, true, false, not, ◌&&◌, ◌||◌, Option, some, List, ok, conflict, denied, find_row,
  has_row, count_rows, update_rows, str_eq, eq_iff, ◌==◌, arith, Clock, trim_space, not_found,
  >>=-elim, fail_if-elim, or_fail-elim, ok_inj, subst, ok-state,
}
use memgov.Schema.{Db}
use memgov.Schema.Channels.{Route}
use memgov.Schema.Runtimes.{Runtime}
use memgov.Schema.Tasks.{Task, PendingAction}
use memgov.Policy.{read_runtime}
use memgov.Tasks.{Evidence, Formats, read_task, messages_current, trigger_admitted}
use memgov.Tasks.Proposed.{destructive}
use memgov.Tasks.Approval.{
  confirmation_token, confirmation_routes, sender_current, current_revision,
}
use memgov.Tasks.Confirm.{
  Confirmation, confirm_action, check_confirmation, find_action, is_action, is_message, is_inbox_of,
  is_fresh, sent_after, is_unchanged, said, lists_action, confirm_row, is_pending_action,
  mark_processed,
}

-- What a confirmation rests on: a pending action of a waiting task, in the task's version and with
-- the payload that was shown; and a message of the owner, verified now, not older than the action, in
-- an inbox that may approve, which is exactly the action's token.
pub record IsApproved (julianday : String → Option ℕ) (evidence : Evidence) (formats : Formats)
    (db : Db) (id message : String) (k : Confirmation) : Type 0 where
  pub found : find_row (is_action id) db.runtime_pending_actions ≡ some k.action
  pub of_task : read_task db k.action.task_id ≡ ok k.task
  pub of_runtime : read_runtime db k.task.runtime_id ≡ ok k.runtime
  pub pending : k.action.status ≡ "pending"
  pub waiting : k.task.status ≡ "awaiting_confirmation"
  pub same_version : k.action.task_version ≡ k.task.version
  pub same_payload : formats.hash k.action.payload ≡ k.action.payload_digest
  pub admitted : trigger_admitted db k.runtime k.task ≡ true
  pub sources : messages_current evidence db k.task.id ≡ ok true
  pub no_card : has_row (lists_action formats k.task k.action) db.outbox ≡ false
  pub stored : find_row (is_message message) db.messages ≡ some k.message
  pub text : current_revision db k.message ≡ some k.revision
  pub owner : k.message.sender_principal ≡ k.runtime.owner_principal_id
  pub available : k.message.availability ≡ "available"
  pub verified : sender_current db k.message.channel_id message k.runtime.owner_principal_id ≡ true
  pub inboxes :
      (routes : List Route) × (confirmation_routes db k.runtime ≡ ok routes)
      × (find_row (is_inbox_of k.runtime k.task k.message) routes ≡ some k.inbox)
  pub later : sent_after formats k.message k.action ≡ true
  pub token : trim_space (said k.runtime k.message k.revision) ≡ confirmation_token k.action
  pub live :
      k.runtime.application_mode ≡ "proactive"
      → (k.action.kind ≡ destructive) × (is_fresh julianday db k.message k.action ≡ true)

-- What the checks on the action establish.
record IsOpen (formats : Formats) (id : String) (db : Db) (a : PendingAction) (t : Task)
    (c : Runtime) : Type 0 where
  found : find_row (is_action id) db.runtime_pending_actions ≡ some a
  of_task : read_task db a.task_id ≡ ok t
  of_runtime : read_runtime db t.runtime_id ≡ ok c
  concrete :
      (str_eq c.application_mode "proactive"
        && (not (str_eq t.status "awaiting_confirmation") || not (str_eq a.kind destructive)))
      ≡ false
  no_card : has_row (lists_action formats t a) db.outbox ≡ false
  admitted : trigger_admitted db c t ≡ true

module _ (formats : Formats) where
  find_action-IsOpen :
      (id : String) (db : Db) (p : PendingAction × Task × Runtime)
      → find_action formats id db ≡ ok p
      → IsOpen formats id db p.0 p.1 p.2
  unfolding find_action
  find_action-IsOpen id db p h =
      or_fail-elim (find_row (is_action id) db.runtime_pending_actions) not_found _ h λ a0 found h.
        >>=-elim (read_task db a0.task_id) _ h λ t0 of_task h.
          >>=-elim (read_runtime db t0.runtime_id) _ h λ c0 of_runtime h.
            fail_if-elim
              (str_eq c0.application_mode "proactive"
                && (not (str_eq t0.status "awaiting_confirmation")
                    || not (str_eq a0.kind destructive)))
              denied _ h
              λ concrete h.
                fail_if-elim (has_row (lists_action formats t0 a0) db.outbox) denied _ h
                  λ no_card h.
                    fail_if-elim (not (trigger_admitted db c0 t0)) conflict _ h λ admitted h.
                      subst
                        (λ (p : PendingAction × Task × Runtime). IsOpen formats id db p.0 p.1 p.2)
                        (ok_inj h)
                        (record {
                          found = found;
                          of_task = of_task;
                          of_runtime = of_runtime;
                          concrete = concrete;
                          no_card = no_card;
                          admitted = ground arith;
                        })

module _ (julianday : String → Option ℕ) (evidence : Evidence) (formats : Formats) where
  pub check_confirmation-IsApproved :
      (id message : String) (db : Db) (k : Confirmation)
      → check_confirmation julianday evidence formats id message db ≡ ok k
      → IsApproved julianday evidence formats db id message k
  unfolding check_confirmation is_unchanged
  check_confirmation-IsApproved id message db k h =
      >>=-elim (find_action formats id db) _ h λ p opened h.
        let open_ = find_action-IsOpen formats id db p opened in
        >>=-elim (confirmation_routes db p.2) _ h λ routes inboxes h.
          or_fail-elim (find_row (is_message message) db.messages) not_found _ h λ m stored h.
            or_fail-elim (current_revision db m) not_found _ h λ r text h.
              or_fail-elim (find_row (is_inbox_of p.2 p.1 m) routes) denied _ h λ inbox listed h.
                fail_if-elim
                  (str_eq inbox.id ""
                    || not (str_eq m.sender_principal p.2.owner_principal_id)
                    || not (str_eq m.availability "available")
                    || not (sender_current db m.channel_id message p.2.owner_principal_id))
                  denied _ h
                  λ owned h.
                    fail_if-elim
                      (str_eq p.2.application_mode "proactive" && not (is_fresh julianday db m p.0))
                      denied _ h
                      λ live h.
                        fail_if-elim
                          (not (sent_after formats m p.0)
                            || not (str_eq (trim_space (said p.2 m r)) (confirmation_token p.0)))
                          denied _ h
                          λ said_so h.
                            fail_if-elim (not (is_unchanged formats p.1 p.0)) conflict _ h
                              λ unchanged h.
                                >>=-elim (messages_current evidence db p.1.id) _ h
                                  λ current sources h.
                                    fail_if-elim (not current) conflict _ h λ fresh h.
                                      subst (IsApproved julianday evidence formats db id message)
                                        (ok_inj h)
                                        (record {
                                          found = open_.found;
                                          of_task = open_.of_task;
                                          of_runtime = open_.of_runtime;
                                          pending = ground (arith, eq_iff p.0.status "pending");
                                          waiting =
                                              ground
                                                (arith, eq_iff p.1.status "awaiting_confirmation");
                                          same_version = ground arith;
                                          same_payload = ground (
                                            arith,
                                            eq_iff (formats.hash p.0.payload) p.0.payload_digest,
                                          );
                                          admitted = open_.admitted;
                                          sources = ground arith;
                                          no_card = open_.no_card;
                                          stored = stored;
                                          text = text;
                                          owner = ground (
                                            arith,
                                            eq_iff m.sender_principal p.2.owner_principal_id,
                                          );
                                          available =
                                              ground (arith, eq_iff m.availability "available");
                                          verified = ground arith;
                                          inboxes = (routes, inboxes, listed);
                                          later = ground arith;
                                          token = ground (
                                            arith,
                                            eq_iff (trim_space (said p.2 m r))
                                                (confirmation_token p.0),
                                          );
                                          live = λ e.
                                              let b =
                                                (eq_iff p.2.application_mode "proactive").1 e in
                                              let c = open_.concrete in
                                              (
                                                ground (arith, eq_iff p.0.kind destructive),
                                                ground arith,
                                              );
                                        })

  pub confirm_action-inv :
      (clock : Clock) (id message : String) (db : Db) (a : PendingAction) (db' : Db)
      → confirm_action julianday evidence formats clock id message db ≡ ok (a, db')
      → (k : Confirmation) × IsApproved julianday evidence formats db id message k
        × (db' ≡ record db {
          runtime_pending_actions =
              update_rows
                (is_pending_action id)
                (confirm_row clock k.message.sender_principal message)
                db.runtime_pending_actions;
          runtime_message_states =
              mark_processed clock k.runtime k.inbox k.message db.runtime_message_states;
        })
  unfolding confirm_action
  confirm_action-inv clock id message db a db' h =
      >>=-elim (check_confirmation julianday evidence formats id message db) _ h λ k checked h.
        fail_if-elim (not (count_rows (is_pending_action id) db.runtime_pending_actions == 1))
          conflict _ h λ _ h. (k, check_confirmation-IsApproved id message db k checked, ok-state h)
