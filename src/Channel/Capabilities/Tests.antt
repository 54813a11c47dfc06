-- ===== src/Channel/Capabilities/Tests.antt =====
-- Sending is withdrawn while a reply waits.
use memgov.Base.{◌≡◌, ◌≢◌, refl, false, some, [], ◌∷◌, ok, find_row, update_rows}
use memgov.Schema.{Db, empty}
use memgov.Schema.Channels.{Capabilities}
use memgov.Schema.Samples.{group_channel}
use memgov.Channel.{read_channel}
use memgov.Channel.Capabilities.{set_capabilities, probed}
use memgov.Channel.Capabilities.Revoked.{revoked_send_stops_drafts}
use memgov.Outbox.Dispatch.{authorize_dispatch, is_row}
use memgov.Outbox.Checks.{is_verified}
use memgov.Outbox.Dispatch.Samples.{clock, no_tasks, reply, with_reply}

abbrev read_only : Capabilities
read_only = record { verified = ("send", false) ∷ []; unverified = []; checked_at = ""; tool = "" }

abbrev withdrawn : Db
withdrawn = record (with_reply "draft") {
  channels = probed clock read_only "dws 2" group_channel ∷ [];
}

withdrawing :
    set_capabilities clock "c1" read_only "dws 2" (with_reply "draft")
    ≡ ok (probed clock read_only "dws 2" group_channel, withdrawn)
unfolding set_capabilities read_channel find_row update_rows empty probed
withdrawing = refl

same_id : (probed clock read_only "dws 2" group_channel).id ≡ "c1"
unfolding probed
same_id = refl

waiting : find_row (is_row "d1") withdrawn.outbox ≡ some (reply "draft")
unfolding find_row empty
waiting = refl

unverified : is_verified read_only.verified "send" ≡ false
unfolding is_verified
unverified = refl

revoked_send_stops_drafts_example :
    authorize_dispatch no_tasks clock "a1" "d1" "shown" withdrawn ≢ ok (reply "sending", withdrawn)
revoked_send_stops_drafts_example =
    revoked_send_stops_drafts no_tasks clock clock "c1" read_only "dws 2" (with_reply "draft")
      (probed clock read_only "dws 2" group_channel) withdrawn "d1" (reply "draft") "a1" "shown"
      (reply "sending", withdrawn) withdrawing same_id unverified waiting refl
