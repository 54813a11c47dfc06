-- ===== src/Outbox/Contexts/Tests.antt =====
-- A context on a concrete request.
use memgov.Base.{false, after}
use memgov.Schema.{Db}
use memgov.Schema.Channels.{Channel}
use memgov.Schema.Drafts.{RequestContext}
use memgov.Schema.Samples.{one_route, group_channel, group_route}
use memgov.Outbox.Dispatch.Samples.{clock}
use memgov.Outbox.Contexts.{ContextInput, open_context, new_context}

abbrev input : ContextInput
input = record {
  conversation_id = "g1";
  sender = record {
    id_type = "staff_id";
    id_value = "s1";
    display_name = "Ann";
    self_author = false;
  };
  trigger_message = "m1";
  intent = "";
  query = "what is next?";
  origin = "";
  reply_transport = "dws";
  reply_expires_at = "";
  ttl = 0;
}

abbrev asked : RequestContext
asked = new_context clock "x1" input group_channel group_route (record { id = "p1"; weak = false })

abbrev opened : Db
opened = after one_route (open_context clock "x1" "p1" "team" input one_route)
