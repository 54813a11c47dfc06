-- ===== src/Intake/History/Tests.antt =====
-- Events on a bound group.
use memgov.Base.{
  ◌*◌, ◌≡◌, ◌≢◌, refl, String, true, false, none, some, List, [], ◌∷◌, Result, ok, Clock, second,
  find_row, count_rows, update_rows, after, is_identifier, all_chars, rune_count,
  is_identifier_char, concat, is_blank, eq_iff,
}
use memgov.Schema.{Db, empty}
use memgov.Schema.People.{Message}
use memgov.Schema.Inbox.{Recall}
use memgov.Schema.Samples.{clock_at, one_route}
use memgov.Channel.{read_channel, route_for}
use memgov.Identity.{validate, principal_for, add_principal, is_weak}
use memgov.Intake.{
  Event, Received, Contents, recall, check_event, check_relations, check_times, message_key,
}
use memgov.Intake.Store.{
  Ids, has_key, is_recall, find_or_add, new_message, see_again, take_source, add_source, has_id,
}
use memgov.Intake.Apply.{apply_message, revise, add_revision, settle_availability}
use memgov.Intake.Receive.{
  intake, take_in, has_dedupe, may_import, with_origin, correct_history_time,
}
use memgov.Intake.Touched.{IsSettled}
use memgov.Intake.History.{Delivery, run}
use memgov.Intake.History.Recalled.{recall_is_final}
use memgov.Intake.History.Again.{redelivery_changes_nothing}

abbrev clock : Clock
clock = clock_at (20 * second)

abbrev contents : Contents
contents = record {
  hash = concat;
  quoted = λ body quote. concat (body ∷ quote ∷ []);
  is_quote = λ q. true;
  is_time = λ t. true;
  nano = λ t. none;
  is_json = λ t. true;
  is_utf8 = λ t. true;
  ingest = λ c route e message n. ok "s1";
}

abbrev ids : Ids
ids = record { event = "e1"; message = "m1"; conversation = "k1"; principal = "p1" }

abbrev hello : Event
hello = record {
  kind = "message";
  adapter = "dws";
  parse_version = "dws/1";
  origin = "stream";
  provider_event_id = "x1";
  provider_message_id = "1";
  conversation_id = "g1";
  tenant = "corp";
  sender = record {
    id_type = "user_id";
    id_value = "ann";
    display_name = "Ann";
    self_author = false;
  };
  body = "hello";
  quote = none;
  format = "";
  sent_at = "2026-01-01T00:00:10Z";
  source_time_raw = "";
  edited_at = "";
  event_at = "2026-01-01T00:00:10Z";
  recalled_at = "";
  ordering = "";
  mentioned = true;
  attachments = [];
  relations = [];
  payload = "";
  history_previous_sent_at = "";
}

abbrev withdrawn : Event
withdrawn = record hello { kind = recall; provider_event_id = "x2" }

abbrev first : Result (Received × Db)
first = intake clock contents ids "c1" hello one_route

abbrev taken_db : Db
taken_db = after one_route first

abbrev taken : Received
taken = record {
  inbox_event_id = "e1";
  channel_id = "c1";
  duplicate = false;
  message_id = "m1";
  message_key = message_key "dingtalk" "g1" "1";
  revision = 1;
  new_revision = true;
  source_id = "s1";
  availability = "available";
  status = "applied";
}

abbrev deliveries : List Delivery
deliveries =
    record { clock = clock; ids = record ids { event = "e2" }; channel = "c1"; event = withdrawn }
    ∷ record { clock = clock; ids = record ids { event = "e3" }; channel = "c1"; event = hello }
    ∷ []

takes_it : first ≡ ok (taken, taken_db)
unfolding intake read_channel route_for find_row empty check_event is_identifier all_chars
    rune_count is_identifier_char validate with_origin may_import take_in has_dedupe apply_message
    principal_for count_rows add_principal is_weak find_or_add has_key has_id see_again revise
    add_revision take_source add_source settle_availability is_recall correct_history_time
    update_rows check_relations check_times is_blank new_message
takes_it = refl

not_ignored : taken.status ≢ "ignored"
not_ignored h = let k : false ≡ true = (eq_iff "applied" "ignored").1 h in cc

redelivery_changes_nothing_example :
    (r : Received) × (intake clock contents ids "c1" hello (run contents taken_db deliveries)
      ≡ ok (r, run contents taken_db deliveries))
    × (r.duplicate ≡ true)
redelivery_changes_nothing_example =
    redelivery_changes_nothing contents clock clock ids ids "c1" hello one_route taken taken_db
      deliveries takes_it not_ignored

nothing_stored : (key : String) → IsSettled key one_route.message_recalls one_route.messages
unfolding empty find_row
nothing_stored key r m h g = let c : none ≡ some m = g in absurd (let k : ⊥ = cc in k)

recall_is_final_example :
    ((r : Recall)
      → find_row (is_recall "dingtalk|g1|1") one_route.message_recalls ≡ some r
      → (r' : Recall) × (find_row
            (is_recall "dingtalk|g1|1")
            (run contents one_route deliveries).message_recalls
          ≡ some r'))
    × ((r : Recall) (m : Message)
        → find_row (is_recall "dingtalk|g1|1") (run contents one_route deliveries).message_recalls
          ≡ some r
        → find_row (has_key "dingtalk|g1|1") (run contents one_route deliveries).messages ≡ some m
        → m.availability ≡ "recalled")
recall_is_final_example =
    recall_is_final contents one_route deliveries "dingtalk|g1|1" (nothing_stored "dingtalk|g1|1")
