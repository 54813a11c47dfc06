-- ===== src/Outbox/Dispatch/Samples.antt =====
-- A stored reply and parameters to run the outbox on.
use memgov.Base.{ℕ, ◌*◌, String, Bool, true, false, List, [], ◌∷◌, ok, Clock, second}
use memgov.Schema.{Db}
use memgov.Schema.Drafts.{Draft}
use memgov.Schema.Samples.{clock_at, one_route}
use memgov.Outbox.{TaskView, Json}

abbrev pub clock : Clock
clock = clock_at (20 * second)

abbrev pub digest : List (String × Json) → String
digest fields = "digest"

-- No task is known.
abbrev pub no_tasks : TaskView
no_tasks = record {
  redact = λ db d. d.content;
  trigger_current = λ db d. ok false;
  may_begin = λ db d. ok tt;
}

abbrev pub json_valid : String → Bool
json_valid s = true

abbrev pub itoa : ℕ → String
itoa n = "n"

abbrev pub reply : String → Draft
reply state = record {
  id = "d1";
  channel_id = "c1";
  channel_name = "team";
  route_id = "r1";
  route_version = 1;
  context_id = "x1";
  job_id = "";
  conversation_id = "g1";
  audience_key = "conversation:c1:g1";
  sender_identity = "robot";
  transport = "dws";
  content = "hello";
  format = "text";
  citations = [];
  input_digest = "in";
  display_digest = "shown";
  send_policy = "reply_to_trigger";
  state = state;
  reason = "";
  created_at = "";
  updated_at = "";
}

abbrev pub with_reply : String → Db
with_reply state = record one_route { outbox = reply state ∷ [] }
