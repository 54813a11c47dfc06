-- ===== src/Outbox/Contexts.antt =====
-- core/outbox.go: OpenContext. NewID is an argument, for the context and for its principal.
pub mod Binding
pub mod Tests
use memgov.Base.{
  ℕ, ◌+◌, ◌*◌, String, false, not, ◌&&◌, List, [], ◌∷◌, ◌++◌, Result, ok, ◌>>=◌, ◌>>◌, fail_if,
  invalid_input, denied, internal, count_rows, str_eq, ltb, ◌==◌, if◌then◌else◌, contains, Clock,
  now, second, format,
}
use memgov.Schema.{Db}
use memgov.Schema.Channels.{Channel, Route}
use memgov.Schema.Drafts.{RequestContext, Sender}
use memgov.Channel.{read_channel, route_for}
use memgov.Channel.Routes.{default_to}
use memgov.Identity.{Person, validate, principal_for}

-- `ttl` in nanoseconds; 0 stands for what is not positive.
pub record ContextInput : Type 0 where
  pub conversation_id : String
  pub sender : Sender
  pub trigger_message : String
  pub intent : String
  pub query : String
  pub origin : String
  pub reply_transport : String
  pub reply_expires_at : String
  pub ttl : ℕ

abbrev context_intents : List String
context_intents = "query" ∷ "remember" ∷ "correct" ∷ "notify" ∷ []

-- 30 minutes.
abbrev context_ttl : ℕ
context_ttl = 1800 * second

lifetime : ℕ → ℕ
lifetime ttl = if ttl == 0 then context_ttl else ttl

pub check_input : ContextInput → Result (Unit {0})
check_input input = do
  fail_if (not (contains context_intents (default_to input.intent "query"))) invalid_input
  fail_if
      (not (
        contains ("stream" ∷ "history" ∷ "import" ∷ "local" ∷ [])
          (default_to input.origin "stream")))
      invalid_input
  validate input.sender
  fail_if
      (str_eq (default_to input.origin "stream") "import" && not (str_eq input.trigger_message ""))
      denied

-- Whatever authorizes is read here, not taken from the input; a weak identity is nobody's.
pub new_context : Clock → String → ContextInput → Channel → Route → Person → RequestContext
new_context clock id input c r p = record {
  id = id;
  channel_id = c.id;
  channel_name = c.name;
  route_id = r.id;
  route_version = r.version;
  conversation_id = r.conversation_id;
  audience_key = r.audience_key;
  workspace_id = r.workspace_id;
  principal_id = if p.weak then "" else p.id;
  sender = input.sender;
  trigger_message = input.trigger_message;
  intent = default_to input.intent "query";
  query = input.query;
  origin = default_to input.origin "stream";
  reply_transport = input.reply_transport;
  reply_expires_at = input.reply_expires_at;
  expires_at = format clock (clock.time + lifetime input.ttl);
  created_at = now clock;
}

-- What the row keeps: the INSERT has no column for the sender's name or for whether the sender is
-- the account itself. (The channel's name is read back from `channels`, where it does not change.)
abbrev pub stored_context : RequestContext → RequestContext
stored_context rc = record rc {
  sender = record {
    id_type = rc.sender.id_type;
    id_value = rc.sender.id_value;
    display_name = "";
    self_author = false;
  };
}

pub open_context :
    Clock → String → String → String → ContextInput → Db → Result (RequestContext × Db)
open_context clock id person channel input db = do
  c ← read_channel db channel
  r ← route_for db c.id input.conversation_id
  check_input input
  found ← principal_for clock person c.tenant input.sender db
  let next = found.1
  let rc = new_context clock id input c r found.0
  fail_if (ltb 0 (count_rows (λ (o : RequestContext). str_eq o.id id) next.request_contexts))
      internal
  ok (rc, record next { request_contexts = next.request_contexts ++ stored_context rc ∷ [] })
