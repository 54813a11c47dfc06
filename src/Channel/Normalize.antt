-- ===== src/Channel/Normalize.antt =====
-- core/channel.go: ValidateChannelInput and normalizeChannel. NewID is an argument; strings.ToLower is a
-- parameter.
use Prim.Native.Char.{code}
use memgov.Base.{
  ℕ, String, Bool, true, false, not, ◌&&◌, ◌||◌, Option, none, some, List, [], ◌∷◌, Result, ok,
  ◌>>=◌, ◌>>◌, fail_if, invalid_input, str_eq, ltb, leb, ◌==◌, if◌then◌else◌, contains, concat,
  is_identifier, all_chars, rune_count, byte_count, has_part, ends_with, starts_with, trim_space,
  Clock, now,
}
use memgov.Schema.Channels.{Channel, ChannelIdentity}
use memgov.Channel.Routes.{RouteInput, default_to}

pub record Subscription : Type 0 where
  pub kind : String
  pub conversation_id : String
  pub user_id : String
  pub events : List String

pub record ChannelInput : Type 0 where
  pub schema_version : ℕ
  pub name : String
  pub kind : String
  pub provider : String
  pub tenant : String
  pub identity : ChannelIdentity
  pub credential_ref : String
  pub transport : String
  pub subscription : Option Subscription
  pub route : Option RouteInput

unfoldable pub is_lower : ℕ → Bool
is_lower c = leb b'a' c && leb c b'z'

unfoldable pub is_digit : ℕ → Bool
is_digit c = leb b'0' c && leb c b'9'

-- The class [a-z0-9_.-] of kinds and providers.
unfoldable pub is_kind_char : ℕ → Bool
is_kind_char c = is_lower c || is_digit c || c == b'_' || c == b'.' || c == b'-'

unfoldable pub first_is : (ℕ → Bool) → String → Bool
first_is p String.[] = false
first_is p (String.◌∷◌ c s) = p (code c)

-- channelName, `^[a-z0-9][a-z0-9-]{0,62}$`
unfoldable pub is_channel_name : String → Bool
is_channel_name s =
    first_is (λ c. is_lower c || is_digit c) s
    && all_chars (λ c. is_lower c || is_digit c || c == b'-') s
    && leb (rune_count s) 63

-- channelKind and providerName, `^[a-z][a-z0-9_.-]{1,62}$`
unfoldable pub is_kind_name : String → Bool
is_kind_name s =
    first_is is_lower s && all_chars is_kind_char s && leb 2 (rune_count s) && leb (rune_count s) 63

unfoldable pub is_personal : String → Bool
is_personal kind = str_eq kind "dws_personal"

unfoldable pub is_app : String → Bool
is_app kind = str_eq kind "dingtalk_app"

all_events : List String → Bool
all_events [] = true
all_events (e ∷ es) = contains ("message" ∷ "reaction" ∷ "read" ∷ "recall" ∷ []) e && all_events es

pub validate_subscription : Subscription → Result (Unit {0})
validate_subscription s = do
  fail_if (not (contains ("at-me" ∷ "sender" ∷ "group" ∷ "all-direct" ∷ "all-group" ∷ []) s.kind))
      invalid_input
  fail_if (str_eq s.kind "group" && not (is_identifier s.conversation_id)) invalid_input
  fail_if (str_eq s.kind "sender" && not (is_identifier s.user_id)) invalid_input
  fail_if (not (all_events s.events)) invalid_input
  ok tt

pub subscription_conversation_kind : Subscription → String
subscription_conversation_kind s = if str_eq s.kind "group" then "group" else "direct"

abbrev pub Tenancy : Type 0
Tenancy = String × String

-- Provider and tenant.
unfoldable pub tenancy : ChannelInput → Result Tenancy
tenancy input =
    if contains ("dws_personal" ∷ "dingtalk_app" ∷ []) input.kind
    then fail_if (not (is_identifier input.identity.expected_corp_id)) invalid_input
      >> ok ("dingtalk", input.identity.expected_corp_id)
    else (let provider = default_to (trim_space input.provider) input.kind in
        let tenant =
          default_to (trim_space input.tenant)
            (default_to input.identity.expected_corp_id input.identity.profile) in
        fail_if (not (is_kind_name provider)) invalid_input
        >> fail_if (not (is_identifier tenant)) invalid_input
        >> ok (provider, tenant))

-- The identity of a personal channel: its profile defaults to the account.
unfoldable pub personal_identity : ChannelIdentity → ChannelIdentity
personal_identity i = record i {
  profile = default_to i.profile (concat (i.expected_corp_id ∷ ":" ∷ i.expected_user_id ∷ []));
}

pub check_personal : ChannelInput → Result (Unit {0})
check_personal input = do
  fail_if (not (is_identifier input.identity.expected_user_id)) invalid_input
  let i = personal_identity input.identity
  fail_if (not (is_identifier i.profile)) invalid_input
  fail_if
      (not (str_eq i.robot_code "")
        || not (str_eq i.client_id "")
        || not (str_eq i.history_channel "")
        || not (str_eq i.confirmation_card_template ""))
      invalid_input
  fail_if (not (str_eq i.delivery_robot_code "") && not (is_identifier i.delivery_robot_code))
      invalid_input
  fail_if (ltb 200 (byte_count (trim_space i.delivery_robot_name))) invalid_input
  fail_if (not (str_eq input.transport "") && not (str_eq input.transport "dws")) invalid_input
  ok tt

pub check_app : ChannelInput → Result (Unit {0})
check_app input = do
  let i = input.identity
  fail_if (not (is_identifier i.client_id)) invalid_input
  fail_if
      (not (str_eq i.profile "")
        || not (str_eq i.expected_user_id "")
        || not (str_eq i.delivery_robot_code ""))
      invalid_input
  fail_if (not (str_eq i.history_channel "") && not (is_identifier i.history_channel)) invalid_input
  fail_if
      (not (str_eq i.confirmation_card_template "")
        && (not (is_identifier i.confirmation_card_template)
            || not (ends_with ".schema" i.confirmation_card_template)
            || ltb 200 (byte_count i.confirmation_card_template)))
      invalid_input
  fail_if (not (str_eq input.transport "") && not (str_eq input.transport "stream")) invalid_input
  ok tt

unfoldable pub check_kind : ChannelInput → Result (Unit {0})
check_kind input =
    if is_personal input.kind
    then check_personal input
    else if is_app input.kind
    then check_app input
    else fail_if (not (str_eq input.transport "") && not (is_identifier input.transport))
        invalid_input

-- Auth and ID namespace.
unfoldable pub namespaces : ChannelInput → Tenancy → String × String
namespaces input t =
    let i = personal_identity input.identity in
    if is_personal input.kind
    then (concat ("dws:" ∷ i.profile ∷ []), concat ("dws:" ∷ i.expected_corp_id ∷ []))
    else if is_app input.kind
    then (
      concat ("app:" ∷ i.client_id ∷ []),
      concat ("app:" ∷ i.expected_corp_id ∷ ":" ∷ i.client_id ∷ []),
    )
    else (concat (t.0 ∷ ":" ∷ t.1 ∷ []), concat (t.0 ∷ ":" ∷ t.1 ∷ []))

unfoldable pub new_channel : Clock → String → ChannelInput → Tenancy → Channel
new_channel clock id input t = record {
  id = id;
  name = input.name;
  kind = input.kind;
  provider = t.0;
  tenant = t.1;
  auth_namespace = (namespaces input t).0;
  id_namespace = (namespaces input t).1;
  identity = if is_personal input.kind then personal_identity input.identity else input.identity;
  credential_ref = input.credential_ref;
  capabilities = record { verified = []; unverified = []; checked_at = ""; tool = "" };
  tool_version = "";
  config_version = 1;
  status = "configured";
  created_at = now clock;
  updated_at = now clock;
}

module _ (to_lower : String → String) where
  unfoldable pub validate_credential_ref : String → Result (Unit {0})
  validate_credential_ref ref =
      if str_eq ref ""
      then ok tt
      else (fail_if
            (not (starts_with "keychain://" ref)
              && not (starts_with "env://" ref)
              && not (starts_with "file://" ref))
            invalid_input
          >> fail_if (ltb 300 (byte_count ref)) invalid_input
          >> fail_if
              (has_part "secret=" (to_lower ref)
                || has_part "password=" (to_lower ref)
                || has_part "token=" (to_lower ref))
              invalid_input)

  -- A subscription is for personal channels.
  unfoldable pub check_subscription : ChannelInput → Result (Unit {0})
  check_subscription input = elim input.subscription [
    | none ↦ ok tt
    | some s ↦ fail_if (not (is_personal input.kind)) invalid_input >> validate_subscription s
  ]

  unfoldable pub normalize_channel : Clock → String → ChannelInput → Result Channel
  normalize_channel clock id input = do
    fail_if (not (input.schema_version == 0) && not (input.schema_version == 1)) invalid_input
    fail_if (not (is_channel_name input.name)) invalid_input
    fail_if (not (is_kind_name input.kind)) invalid_input
    validate_credential_ref input.credential_ref
    t ← tenancy input
    check_kind input
    check_subscription input
    ok (new_channel clock id input t)
