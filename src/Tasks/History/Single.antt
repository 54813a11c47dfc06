-- ===== src/Tasks/History/Single.antt =====
-- core/runtime.go: how often an action is handed out.
use memgov.Base.{◌≤◌, refl, String, Bool, List, count_rows, eq_iff, arith}
use memgov.Schema.{Db}
use memgov.Schema.Tasks.{PendingAction, ActionAttempt}
use memgov.Tasks.{mark_action}
use memgov.Tasks.Confirm.{confirm_row, is_pending_action}
use memgov.Tasks.Acts.{Acts, rest, close, retire, settle, approve, start, propose}
use memgov.Tasks.Once.{
  WellFormed, actions-WellFormed, runs-WellFormed, started-WellFormed, added-WellFormed,
  run_at_most_once, is_run_of,
}
use memgov.Tasks.History.{Call, Outside, step, run, run-keeps}
use memgov.Tasks.History.Steps.{confirms, step-Acts}

abbrev pub Sound : Db → Type 0
Sound db = WellFormed db.runtime_pending_actions db.runtime_action_attempts

Acts-WellFormed :
    (may : String → Bool) (s : List PendingAction) (r : List ActionAttempt) (u : List PendingAction)
    (v : List ActionAttempt)
    → Acts may s r u v
    → WellFormed s r
    → WellFormed u v
unfolding mark_action confirm_row is_pending_action
Acts-WellFormed may s r _ _ rest w = w
Acts-WellFormed may s r _ v (close {u} q status clock apart k) w =
    actions-WellFormed q (mark_action status clock) u v (λ a. (refl, λ _ h. cc))
      (Acts-WellFormed may s r u v k w)
Acts-WellFormed may s r _ v (retire {u} q f apart k) w =
    actions-WellFormed q f u v (λ a. ((apart a).0, λ _ h. cc ((apart a).1)))
      (Acts-WellFormed may s r u v k w)
Acts-WellFormed may s r u _ (settle {u = w0} {v} q f same k) w =
    runs-WellFormed q f u v same (Acts-WellFormed may s r u v k w)
Acts-WellFormed may s r _ v (approve {u} id who message clock _ k) w =
    actions-WellFormed (is_pending_action id) (confirm_row clock who message) u v
      (λ a. (refl, λ p _. ground (arith, eq_iff a.status "pending")))
      (Acts-WellFormed may s r u v k w)
Acts-WellFormed may s r _ _ (start {u} {v} id clock attempt own one k) w =
    started-WellFormed u v id (mark_action "executing" clock) attempt own (λ a. refl) (λ a. refl)
      one (Acts-WellFormed may s r u v k w)
Acts-WellFormed may s r _ v (propose {u} a _ fresh k) w =
    added-WellFormed a u v fresh (Acts-WellFormed may s r u v k w)

module _ (o : Outside) where
  step-Sound : (db : Db) (c : Call) → Sound db → Sound (step o db c)
  step-Sound db c w = Acts-WellFormed (λ x. confirms x c) _ _ _ _ (step-Acts o db c) w

  -- From a store in which ids of actions are unique and no open action has an attempt (such as the
  -- empty one), whatever of these calls are made in whatever order, with failures, retries, restarts
  -- and changes of the task among them, an action is handed to an agent at most once: there is at
  -- most one row of `runtime_action_attempts` for it.
  pub action_runs_once :
      (db : Db) (calls : List Call) (id : String)
      → Sound db
      → count_rows (is_run_of id) (run o db calls).runtime_action_attempts ≤ 1
  action_runs_once db calls id s = run_at_most_once _ _ id (run-keeps o Sound step-Sound db calls s)
