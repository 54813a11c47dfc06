-- ===== src/Configure.antt =====
-- core/runtime.go: normalizeRuntimeInput: what may be asked of a runtime.
pub mod Names
pub mod Checks
pub mod Store
pub mod Running
mod Tests
use memgov.Base.{
  ℕ, String, Bool, true, false, not, ◌&&◌, ◌||◌, Option, none, some, List, [], ◌∷◌, Result, ok,
  ◌>>=◌, ◌>>◌, fail_if, invalid_input, denied, str_eq, ltb, leb, ◌==◌, if◌then◌else◌, contains,
  is_identifier, all_chars, rune_count, trim_space,
}
use memgov.Schema.Drafts.{Sender}
use memgov.Schema.Runtimes.{Scheduling}
use memgov.Channel.Normalize.{is_channel_name, is_lower, is_digit, first_is}
use memgov.Work.Limits.{or_default, normalize}

-- RuntimeConfigInput, less the memory scope. `none` is the absent value of a pointer or a slice.
pub record Input : Type 0 where
  pub scheduling : Scheduling
  pub name : String
  pub channel : String
  pub route_ids : List String
  pub delivery_route_id : String
  pub owner : Sender
  pub application_mode : String
  pub context_channel : String
  pub agent_capabilities : Option (List String)
  pub agent_bash : Option Bool
  pub external_actions : String
  pub claude_profile : String
  pub analysis_model : String
  pub execution_model : String
  pub agent_preset : String
  pub item_threshold : ℕ
  pub max_wait_seconds : ℕ
  pub reconcile_seconds : ℕ
  pub concurrency : ℕ
  pub expected_version : ℕ

-- `if s == "" { s = d }`
abbrev pub text_or : String → String → String
text_or s d = if str_eq s "" then d else s

-- Each satisfies the test, and none comes twice.
pub all_unique : (String → Bool) → List String → Bool
all_unique p [] = true
all_unique p (x ∷ xs) = p x && not (contains xs x) && all_unique p xs

-- profileName, `^[A-Za-z_][A-Za-z0-9_-]{0,63}$`
pub is_profile_name : String → Bool
is_profile_name s =
    let letter = λ (c : ℕ). is_lower c || (leb b'A' c && leb c b'Z') || c == b'_' in
    first_is letter s
    && all_chars (λ c. letter c || is_digit c || c == b'-') s
    && leb (rune_count s) 64

pub default_actions : String → Bool → String
default_actions mode bash =
    if str_eq mode "direct" && bash
    then "owner_request"
    else if str_eq mode "proactive"
    then "owner_delegated"
    else "owner_confirmation"

pub bash_of : String → Option Bool → Bool
bash_of mode none = not (str_eq mode "group_mention")
bash_of mode (some b) = b

pub check_identity : Input → Result (Unit {0})
check_identity i = do
  fail_if (not (is_channel_name i.name)) invalid_input
  fail_if (elim i.route_ids [ [] ↦ true | _ ∷ _ ↦ false ]) invalid_input
  fail_if (not (all_unique is_identifier i.route_ids)) invalid_input
  fail_if (str_eq i.owner.id_type "" || not (is_identifier i.owner.id_value)) invalid_input
  fail_if (not (contains ("proactive" ∷ "direct" ∷ "group_mention" ∷ []) i.application_mode))
      invalid_input
  fail_if (not (str_eq i.application_mode "proactive") && not (is_identifier i.delivery_route_id))
      invalid_input

pub check_actions : Input → Result (Unit {0})
check_actions i = do
  fail_if
      (not (
        contains ("owner_confirmation" ∷ "owner_request" ∷ "owner_delegated" ∷ [])
          i.external_actions))
      invalid_input
  fail_if (str_eq i.external_actions "owner_request" && not (str_eq i.application_mode "direct"))
      denied
  fail_if
      (str_eq i.external_actions "owner_delegated" && not (str_eq i.application_mode "proactive"))
      denied

pub supported : List String
supported =
    "conversation_history_read" ∷ "artifact_create" ∷ "local_read" ∷ "local_write" ∷ "local_test"
    ∷ []

pub check_models : Input → Result (Unit {0})
check_models i = do
  fail_if
      (elim i.agent_capabilities [
        | none ↦ false
        | some l ↦ not (all_unique (contains supported) l)
      ])
      invalid_input
  fail_if (not (str_eq i.claude_profile "") && not (is_profile_name i.claude_profile)) invalid_input
  fail_if (str_eq i.analysis_model "profile" && str_eq i.claude_profile "") invalid_input
  fail_if (str_eq i.execution_model "profile" && str_eq i.claude_profile "") invalid_input

pub out_of_range : Input → Bool
out_of_range i =
    ltb i.item_threshold 1
    || ltb 100 i.item_threshold
    || ltb i.max_wait_seconds 1
    || ltb 86400 i.max_wait_seconds
    || ltb i.reconcile_seconds 10
    || ltb 86400 i.reconcile_seconds

-- What is not given has a default.
unfoldable pub with_defaults_of : Input → Input
with_defaults_of given =
    let mode = text_or given.application_mode "proactive" in
    let bash = bash_of mode given.agent_bash in
    record given {
      name = trim_space given.name;
      application_mode = mode;
      agent_bash = some bash;
      external_actions = text_or given.external_actions (default_actions mode bash);
      analysis_model = text_or given.analysis_model "haiku";
      agent_preset = text_or given.agent_preset "claude-default";
      item_threshold = or_default given.item_threshold 20;
      max_wait_seconds = or_default given.max_wait_seconds 30;
      reconcile_seconds = or_default given.reconcile_seconds 300;
      concurrency =
          if given.concurrency == 0 && given.scheduling.execution_concurrency == 0
          then 1
          else given.concurrency;
    }

unfoldable pub normalize_input : Input → Result Input
normalize_input given = do
  let i = with_defaults_of given
  check_identity i
  check_actions i
  check_models i
  limits ← normalize i.scheduling i.concurrency
  fail_if (out_of_range i) invalid_input
  ok (record i { scheduling = limits; concurrency = limits.execution_concurrency })
