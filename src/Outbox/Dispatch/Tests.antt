-- ===== src/Outbox/Dispatch/Tests.antt =====
-- The outbox on concrete drafts.
use memgov.Base.{
  ◌≤◌, ◌≡◌, refl, String, Bool, true, some, List, [], ◌∷◌, ok, arith, rune_count, count_rows,
  find_row, update_rows, select_rows, now, format_nano, digit,
}
use memgov.Schema.{Db, empty}
use memgov.Schema.Channels.{Channel}
use memgov.Schema.Drafts.{Draft}
use memgov.Schema.Samples.{one_route, group_channel}
use memgov.Channel.{read_channel, route_for}
use memgov.Outbox.{redact_draft, read_draft}
use memgov.Outbox.Dispatch.{
  authorize_dispatch, is_row, is_attempt_of, task_current, mark_sending, is_pending, new_attempt,
  preview_draft, attempts_for,
}
use memgov.Outbox.Checks.{
  route_check, policy_checks, task_checks, draft_checks, all_checks, all_passed, current_policy,
  is_verified, check,
}
use memgov.Outbox.Dispatch.Sendable.{IsSendable}
use memgov.Outbox.Dispatch.Refusals.{Answers, dispatch_refusals}
use memgov.Outbox.Dispatch.Samples.{clock, digest, no_tasks, json_valid, itoa, reply, with_reply}
use memgov.Outbox.Once.{WellFormed}
use memgov.Outbox.History.{Call, dispatch, deliver, conclude, begin, run, step, at_most_one_attempt}
use memgov.Outbox.States.{Kept, rewritten, all_rewritten, draft_moves_along_edges, settled_for_good}
use memgov.Outbox.Safety.{dispatch_checks_everything}

-- Dispatch, a lost answer, a second dispatch, a conclusion that it was not sent, and a retry.
abbrev calls : List Call
calls =
    dispatch clock "a1" "d1" "shown"
    ∷ deliver clock "d1" "delivery_unknown" "" "timeout"
    ∷ dispatch clock "a2" "d1" "shown"
    ∷ conclude clock "d1" "not_sent" "" "asked"
    ∷ begin clock "a3" "d1"
    ∷ []

with_reply-WellFormed : WellFormed (with_reply "draft")
unfolding count_rows empty
with_reply-WellFormed id = (ground arith, ground arith)

at_most_one_attempt_example :
    count_rows
      (is_attempt_of "d1")
      (run digest no_tasks json_valid itoa (with_reply "draft") calls).delivery_attempts
    ≤ 1
at_most_one_attempt_example =
    at_most_one_attempt digest no_tasks json_valid itoa (with_reply "draft") calls "d1"
      with_reply-WellFormed

abbrev sent : Db
sent = record one_route {
  outbox = mark_sending clock (reply "draft") ∷ [];
  delivery_attempts = new_attempt clock "a1" "d1" 1 "dws" "in" ∷ [];
}

authorized :
    authorize_dispatch no_tasks clock "a1" "d1" "shown" (with_reply "draft")
    ≡ ok (reply "sending", sent)
unfolding authorize_dispatch preview_draft read_draft redact_draft find_row read_channel
    task_current all_passed all_checks route_check route_for task_checks draft_checks rune_count
    policy_checks current_policy is_verified update_rows select_rows attempts_for is_pending
    mark_sending check empty now format_nano digit
authorized = refl

dispatch_checks_everything_example :
    (d : Draft) × (c : Channel) × (current : Bool) × (find_row
        (is_row "d1")
        (with_reply "draft").outbox
      ≡ some d)
    × ("shown" ≡ d.display_digest)
    × (read_channel (with_reply "draft") d.channel_id ≡ ok c)
    × (task_current no_tasks (with_reply "draft") (redact_draft no_tasks (with_reply "draft") d)
        ≡ ok current)
    × IsSendable
        (route_for (with_reply "draft") d.channel_id d.conversation_id)
        c
        (redact_draft no_tasks (with_reply "draft") d)
        current
dispatch_checks_everything_example =
    dispatch_checks_everything no_tasks clock "a1" "d1" "shown" (with_reply "draft")
      (reply "sending") sent authorized

found : (state : String) → find_row (is_row "d1") (with_reply state).outbox ≡ some (reply state)
unfolding find_row empty
found state = refl

draft_moves_along_edges_example :
    Kept "d1"
      (record (reply "draft") {
        content = rewritten (dispatch clock "a1" "d1" "shown") (reply "draft").content;
      })
      (step digest no_tasks json_valid itoa (with_reply "draft") (dispatch clock "a1" "d1" "shown"))
draft_moves_along_edges_example =
    draft_moves_along_edges digest no_tasks json_valid itoa (with_reply "draft")
      (dispatch clock "a1" "d1" "shown") "d1" (reply "draft") (found "draft")

settled_for_good_example :
    (e : Draft) × (find_row
        (is_row "d1")
        (run digest no_tasks json_valid itoa (with_reply "accepted") calls).outbox
      ≡ some e)
    × (e.state ≡ "accepted")
    × (e.content ≡ all_rewritten calls "hello")
settled_for_good_example =
    settled_for_good digest no_tasks json_valid itoa (with_reply "accepted") calls "d1"
      (reply "accepted") (found "accepted") refl

readable : read_channel (with_reply "draft") "c1" ≡ ok group_channel
unfolding read_channel find_row empty
readable = refl

no_task :
    task_current no_tasks
      (with_reply "draft")
      (redact_draft no_tasks (with_reply "draft") (reply "draft"))
    ≡ ok true
unfolding task_current redact_draft
no_task = refl

-- A dispatch of a text that was never shown.
dispatch_refusals_example :
    Answers no_tasks clock "a1" "d1" "other"
      (with_reply "draft")
      (reply "draft")
      group_channel
      true
      (authorize_dispatch no_tasks clock "a1" "d1" "other" (with_reply "draft"))
dispatch_refusals_example =
    dispatch_refusals no_tasks clock "a1" "d1" "other" (with_reply "draft") (reply "draft")
      group_channel true (found "draft") readable no_task
