-- ===== src/Outbox/Drafts.antt =====
-- core/outbox.go: Draft, the making of a draft from a request context.
-- NewID is an argument; the SHA-256 of the JSON text is a parameter, `digest`.
pub mod Results
pub mod Twice
pub mod Tests
use memgov.Base.{
  ℕ, ◌≤◌, String, Bool, true, false, not, ◌&&◌, ◌||◌, Option, none, some, List, [], ◌∷◌, ◌++◌,
  Result, ok, err, ◌>>=◌, ◌>>◌, fail_if, or_fail, invalid_input, conflict, denied, not_found,
  internal, find_row, str_eq, str_lt, ltb, leb, ◌==◌, if◌then◌else◌, contains, is_blank, rune_count,
  Clock, now, count_rows, length,
}
use memgov.Schema.{Db}
use memgov.Schema.Channels.{Channel, Route}
use memgov.Schema.Drafts.{Draft, RequestContext}
use memgov.Channel.{read_channel, route_for}
use memgov.Channel.Routes.{default_to}
use memgov.Outbox.{TaskView, Json, str, num, strs, no_fields, read_context, redact_draft}

pub record DraftInput : Type 0 where
  pub context_id : String
  pub content : String
  pub format : String
  pub citations : List String

pub record Audience : Type 0 where
  pub channel_id : String
  pub channel_name : String
  pub kind : String
  pub tenant : String
  pub conversation_id : String
  pub audience_key : String
  pub workspace_id : String
  pub route_id : String
  pub route_version : ℕ
  pub send_policy : String
  pub mode : String

-- The answer: the stored draft, or the one that was there.
pub record Drafted : Type 0 where
  pub draft : Draft
  pub duplicate : Bool

abbrev pub max_draft_chars : ℕ
max_draft_chars = 4000

-- The route is read again, so that a change of policy is noticed.
pub audience_for_context : Db → RequestContext → Result Audience
audience_for_context db rc = do
  c ← read_channel db rc.channel_id
  r ← route_for db rc.channel_id rc.conversation_id
  ok (record {
    channel_id = c.id;
    channel_name = c.name;
    kind = c.kind;
    tenant = c.tenant;
    conversation_id = r.conversation_id;
    audience_key = r.audience_key;
    workspace_id = r.workspace_id;
    route_id = r.id;
    route_version = r.version;
    send_policy = r.send_policy;
    mode = r.mode;
  })

module _ (digest : List (String × Json) → String) where
  pub display_digest : Draft → String
  display_digest d = digest (
      ("content", str d.content)
      ∷ ("format", str d.format)
      ∷ ("conversation", str d.conversation_id)
      ∷ ("audience", str d.audience_key)
      ∷ ("sender_identity", str d.sender_identity)
      ∷ ("citations", no_fields)
      ∷ ("route_version", num d.route_version)
      ∷ ("send_policy", str d.send_policy)
      ∷ [])

  pub input_digest : RequestContext → DraftInput → String → String
  input_digest rc input format = digest (
      ("context", str rc.id)
      ∷ ("content", str input.content)
      ∷ ("format", str format)
      ∷ ("citations", strs input.citations)
      ∷ [])

  -- The draft without its display digest.
  pub draft_body : Clock → String → RequestContext → Audience → Channel → DraftInput → Draft
  draft_body clock id rc a c input = record {
    id = id;
    channel_id = c.id;
    channel_name = c.name;
    route_id = a.route_id;
    route_version = a.route_version;
    context_id = rc.id;
    job_id = "";
    conversation_id = rc.conversation_id;
    audience_key = a.audience_key;
    sender_identity = c.auth_namespace;
    transport = rc.reply_transport;
    content = input.content;
    format = default_to input.format "text";
    citations = input.citations;
    input_digest = input_digest rc input (default_to input.format "text");
    display_digest = "";
    send_policy = a.send_policy;
    state = "draft";
    reason = "";
    created_at = now clock;
    updated_at = now clock;
  }

  pub new_draft : Clock → String → RequestContext → Audience → Channel → DraftInput → Draft
  new_draft clock id rc a c input =
      let body = draft_body clock id rc a c input in
      record body { display_digest = display_digest body }

-- The key of UNIQUE(route_id, input_digest).
abbrev pub same_input : Draft → Draft → Bool
same_input new d = str_eq d.route_id new.route_id && str_eq d.input_digest new.input_digest

module _ (digest : List (String × Json) → String) (tasks : TaskView) where
  -- The INSERT: a primary key that is taken fails, a taken input answers with the draft there is.
  pub insert_draft : Draft → Db → Result (Drafted × Db)
  insert_draft new db = do
    fail_if (ltb 0 (count_rows (λ d. str_eq d.id new.id) db.outbox)) internal
    elim (find_row (same_input new) db.outbox) [
      | none ↦
          ok (
            record { draft = new; duplicate = false },
            record db { outbox = db.outbox ++ new ∷ [] },
          )
      | some d ↦ ok (record { draft = redact_draft tasks db d; duplicate = true }, db)
    ]

  pub create_draft : Clock → String → DraftInput → Db → Result (Drafted × Db)
  create_draft clock id input db = do
    rc ← read_context db input.context_id
    fail_if (is_blank input.content) invalid_input
    fail_if (ltb max_draft_chars (rune_count input.content)) invalid_input
    fail_if (not (contains ("text" ∷ "markdown" ∷ []) (default_to input.format "text")))
        invalid_input
    fail_if (str_lt rc.expires_at (now clock)) denied
    a ← audience_for_context db rc
    fail_if (not (a.route_version == rc.route_version)) conflict
    fail_if (ltb 0 (length input.citations)) denied
    c ← read_channel db rc.channel_id
    insert_draft (new_draft digest clock id rc a c input) db
