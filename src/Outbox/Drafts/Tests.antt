-- ===== src/Outbox/Drafts/Tests.antt =====
-- The same text drafted twice for one request.
use memgov.Base.{
  ◌≡◌, refl, err, denied, str_lt, second, ◌*◌, if◌then◌else◌, str_eq, true, false, [], ◌∷◌, ok,
  find_row, count_rows, is_blank, rune_count, now, format_nano, digit,
}
use memgov.Schema.{Db, empty}
use memgov.Schema.Drafts.{Draft, RequestContext}
use memgov.Schema.Samples.{one_route, clock_at}
use memgov.Channel.{read_channel, route_for}
use memgov.Outbox.{read_context}
use memgov.Outbox.Dispatch.Samples.{clock, digest, no_tasks}
use memgov.Outbox.Drafts.{
  DraftInput, Drafted, new_draft, draft_body, insert_draft, create_draft, audience_for_context,
  display_digest, input_digest,
}
use memgov.Outbox.Drafts.Twice.{create_draft-again}

abbrev asked : RequestContext
asked = record {
  id = "x1";
  channel_id = "c1";
  channel_name = "team";
  route_id = "r1";
  route_version = 1;
  conversation_id = "g1";
  audience_key = "conversation:c1:g1";
  workspace_id = "w1";
  principal_id = "p1";
  sender = record {
    id_type = "staff_id";
    id_value = "s1";
    display_name = "Ann";
    self_author = false;
  };
  trigger_message = "m1";
  intent = "";
  query = "what is next?";
  origin = "";
  reply_transport = "dws";
  reply_expires_at = "";
  expires_at = "2027-01-01T00:00:00Z";
  created_at = "";
}

abbrev db : Db
db = record one_route { request_contexts = asked ∷ [] }

abbrev answer : DraftInput
answer = record { context_id = "x1"; content = "hello"; format = ""; citations = [] }

abbrev written : Draft
written = record {
  id = "d1";
  channel_id = "c1";
  channel_name = "team";
  route_id = "r1";
  route_version = 1;
  context_id = "x1";
  job_id = "";
  conversation_id = "g1";
  audience_key = "conversation:c1:g1";
  sender_identity = "robot";
  transport = "dws";
  content = "hello";
  format = "text";
  citations = [];
  input_digest = "digest";
  display_digest = "digest";
  send_policy = "reply_to_trigger";
  state = "draft";
  reason = "";
  created_at = now clock;
  updated_at = now clock;
}

abbrev first : Drafted
first = record { draft = written; duplicate = false }

abbrev stored : Db
stored = record db { outbox = written ∷ [] }

drafting : create_draft digest no_tasks clock "d1" answer db ≡ ok (first, stored)
unfolding create_draft insert_draft new_draft draft_body read_context audience_for_context
    read_channel route_for find_row count_rows is_blank rune_count empty now format_nano digit
    display_digest input_digest
drafting = refl

unused : count_rows (λ o. str_eq o.id "d2") stored.outbox ≡ 0
unfolding count_rows empty
unused = refl

read_asked : read_context db "x1" ≡ ok asked
unfolding read_context find_row
read_asked = refl

create_draft-again_example :
    create_draft digest no_tasks (clock_at (40 * second)) "d2" answer stored ≡ (
      if str_lt asked.expires_at (now (clock_at (40 * second)))
      then err denied
      else ok (record { draft = written; duplicate = true }, stored))
create_draft-again_example =
    create_draft-again digest no_tasks clock (clock_at (40 * second)) "d1" "d2" answer asked db
      first stored drafting read_asked unused

-- Before the context expires that is the first draft, and afterwards a refusal.
not_expired : str_lt asked.expires_at (now (clock_at (40 * second))) ≡ false
unfolding now format_nano digit
not_expired = refl
