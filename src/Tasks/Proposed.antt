-- ===== src/Tasks/Proposed.antt =====
-- core/runtime.go: what an agent hands in, and the actions that it proposes. `new_id n` is the n-th
-- NewID of a call.
use memgov.Base.{
  ℕ, suc, ◌+◌, String, Bool, true, false, not, ◌&&◌, ◌||◌, none, some, List, [], ◌∷◌, ◌++◌, Result,
  ok, ◌>>=◌, ◌>>◌, fail_if, denied, invalid_input, internal, has_row, select_rows, str_eq, ltb,
  ◌==◌, if◌then◌else◌, is_blank, rune_count, starts_with, length, Clock, now,
}
use memgov.Schema.Runtimes.{Runtime}
use memgov.Schema.Tasks.{PendingAction}
use memgov.Tasks.{Formats}

abbrev pub destructive : String
destructive = "destructive_operation"

abbrev pub bot_forward : String
bot_forward = "bot_forward_message"

pub record ActionInput : Type 0 where
  pub kind : String
  pub target : String
  pub payload : String

-- What an agent hands in, less the usage counters.
pub record AttemptResult : Type 0 where
  pub result : String
  pub summary : String
  pub artifacts : List String
  pub tool_kinds : List String
  pub actions : List ActionInput

pub too_large : AttemptResult → Bool
too_large r =
    ltb 200000 (rune_count r.result)
    || ltb 2000 (rune_count r.summary)
    || ltb 32 (length r.artifacts)
    || ltb 32 (length r.tool_kinds)
    || ltb 20 (length r.actions)

-- What the bot sends is not an action in a group's runtime.
pub kept_actions : Runtime → List ActionInput → List ActionInput
kept_actions c actions =
    if str_eq c.application_mode "group_mention"
    then select_rows (λ (a : ActionInput). not (starts_with "bot_" a.kind)) actions
    else actions

pub is_prepared : String → ℕ → PendingAction → Bool
is_prepared task version a =
    str_eq a.task_id task && a.task_version == version && str_eq a.status "pending"

module _ (formats : Formats) where
  -- validateDestructiveAction
  pub is_concrete : ActionInput → Bool
  is_concrete a = elim (formats.proposal a.payload) [
    | none ↦ false
    | some p ↦ not (is_blank p.operation || is_blank p.impact || is_blank p.recovery)
  ]

  -- Whether all actions are destructive ones; one that is must be concrete.
  pub all_destructive : List ActionInput → Result Bool
  all_destructive [] = ok true
  all_destructive (a ∷ actions) = do
    fail_if (str_eq a.kind destructive && not (is_concrete a)) invalid_input
    rest ← all_destructive actions
    ok (str_eq a.kind destructive && rest)

  -- The state in which the task waits or ends.
  unfoldable pub final_status : Runtime → ℕ → List ActionInput → Result String
  final_status c prepared actions =
      if length actions + prepared == 0
      then ok "completed"
      else if str_eq c.application_mode "proactive"
      then (all_destructive actions >>= λ all. ok (
          if all && prepared == 0 && ltb 0 (length actions)
          then "awaiting_confirmation"
          else "blocked"))
      else ok "awaiting_confirmation"

  unfoldable pub new_action : Clock → String → String → ℕ → ActionInput → PendingAction
  new_action clock id task version a = record {
    id = id;
    task_id = task;
    task_version = version;
    kind = a.kind;
    target = a.target;
    payload = a.payload;
    payload_digest = formats.hash a.payload;
    status = "pending";
    confirmed_by = "";
    confirmation_origin = "";
    created_at = now clock;
    updated_at = now clock;
  }

  pub check_action : ActionInput → Result (Unit {0})
  check_action a = do
    fail_if (str_eq a.kind bot_forward) denied
    fail_if (is_blank a.kind || is_blank a.target || is_blank a.payload) invalid_input
    fail_if
        (ltb 64 (rune_count a.kind)
          || ltb 2000 (rune_count a.target)
          || ltb 50000 (rune_count a.payload))
        invalid_input

  unfoldable pub insert_actions :
      Clock
      → (ℕ → String)
      → ℕ
      → String
      → ℕ
      → List ActionInput
      → List PendingAction
      → Result (List PendingAction)
  insert_actions clock new_id n task version [] table = ok table
  insert_actions clock new_id n task version (a ∷ actions) table = do
    check_action a
    fail_if (has_row (λ (p : PendingAction). str_eq p.id (new_id n)) table) internal
    insert_actions clock new_id (suc n) task version actions
        (table ++ new_action clock (new_id n) task version a ∷ [])
