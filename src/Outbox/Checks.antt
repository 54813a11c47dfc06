-- ===== src/Outbox/Checks.antt =====
-- core/dispatch.go: the checks that PreviewDraft runs on a draft.
use memgov.Base.{
  String, Bool, true, false, not, ◌&&◌, List, [], ◌∷◌, ◌++◌, Result, ok, err, str_eq, leb, ◌==◌,
  if◌then◌else◌, contains, rune_count, length,
}
use memgov.Schema.Channels.{Channel, Route}
use memgov.Schema.Drafts.{Draft}
use memgov.Outbox.Drafts.{max_draft_chars}

pub record Check : Type 0 where
  pub name : String
  pub passed : Bool

unfoldable pub check : String → Bool → Check
check n b = record { name = n; passed = b }

unfoldable pub route_check : Result Route → Draft → Check
unfolding check
route_check (err e) d = check "route" false
route_check (ok r) d = check "route" (r.version == d.route_version)

-- The policy of the route as it is now.
unfoldable pub current_policy : Result Route → Draft → String
current_policy (err e) d = d.send_policy
current_policy (ok r) d = r.send_policy

-- A capability counts when the map has it as verified.
unfoldable pub is_verified : List (String × Bool) → String → Bool
is_verified [] key = false
is_verified ((k, v) ∷ m) key = if str_eq k key then v else is_verified m key

unfoldable pub policy_checks : String → Bool → List Check
unfolding check
policy_checks policy verified =
    if str_eq policy "draft_only"
    then check "send_policy" false ∷ []
    else if not verified
    then check "send_capability" false ∷ []
    else check "send_policy" true ∷ check "send_capability" true ∷ []

unfoldable pub task_checks : String → Bool → List Check
unfolding check
task_checks task current = if str_eq task "" then [] else check "runtime_trigger" current ∷ []

unfoldable pub draft_checks : Draft → List Check
unfolding check
draft_checks d =
    check "citations" (length d.citations == 0)
    ∷ check "length" (leb (rune_count d.content) max_draft_chars)
    ∷ check "state" (contains ("draft" ∷ "ready" ∷ []) d.state)
    ∷ []

unfoldable pub all_passed : List Check → Bool
all_passed [] = true
all_passed (c ∷ cs) = c.passed && all_passed cs

unfoldable pub all_checks : Result Route → Channel → Draft → Bool → List Check
all_checks route c d current =
    (route_check route d ∷ task_checks d.job_id current)
    ++ (draft_checks d
        ++ policy_checks (current_policy route d) (is_verified c.capabilities.verified "send"))
