-- ===== src/Channel/Receiver/Tests.antt =====
-- Receiver leases on concrete calls.
use memgov.Base.{
  ◌+◌, ◌*◌, ◌≡◌, ◌≢◌, Lt, refl, String, true, false, List, [], ◌∷◌, ok, err, conflict, arith, Clock,
  second, format_nano, now, some, eq_iff, find_row, count_rows, upsert_row, digit, decimals,
}
use memgov.Schema.{Db, empty}
use memgov.Schema.Channels.{Lease}
use memgov.Schema.Samples.{clock_at, one_route}
use memgov.Channel.{read_channel}
use memgov.Channel.Receiver.{read_lease, acquire_lease, check_lease, granted, write_lease}
use memgov.Channel.Receiver.Fence.{superseded_writer_refused}
use memgov.Channel.Receiver.Calls.{Call, acquire, release, run, stored}
use memgov.Channel.Receiver.Register.{admits, play, replies}
use memgov.Channel.Receiver.Slots.{OneEach, slots, registered, answers}
use memgov.Channel.Receiver.Refines.{leases_refine_register}
use memgov.Channel.Receiver.Exclusion.{live_holder_keeps_writing}
use memgov.Channel.Receiver.Expiry.{expired_lease_reads_held}

abbrev early : Clock
early = clock_at (10 * second)

abbrev late : Clock
late = clock_at (30 * second)

-- Bob takes the channel over at second 30.
abbrev bob : Lease
bob = granted late "t2" "c1" "bob" (5 * second) one_route

abbrev taken : Db
taken = write_lease "c1" bob one_route

abbrev calls : List Call
calls = acquire late "t3" "c1" "carol" (5 * second) ∷ release late "c1" "t1" ∷ []

acquire_bob : acquire_lease late "t2" "c1" "bob" (5 * second) one_route ≡ ok (bob, taken)
unfolding acquire_lease read_channel read_lease empty count_rows
acquire_bob = refl

superseded_writer_refused_example : check_lease late (run taken calls) "c1" "t1" 0 ≡ err conflict
superseded_writer_refused_example =
    superseded_writer_refused late late "t2" "c1" "bob" "t1" (5 * second) 0 one_route taken bob
      calls (omega arith) acquire_bob

carol_is_not_bob : ◌≢◌ {A = String} "carol" "bob"
carol_is_not_bob h = cc

old_token : ◌≢◌ {A = String} "t1" "t2"
old_token h = let e : false ≡ true = (eq_iff "t1" "t2").1 h in cc

named : ◌≢◌ {A = String} "t2" ""
named h = cc

live : Lt (now late) bob.until
unfolding now format_nano digit
live = refl

live_holder_keeps_writing_example : check_lease late (run taken calls) "c1" "t2" bob.fence ≡ ok tt
live_holder_keeps_writing_example =
    live_holder_keeps_writing late late "t2" "c1" "bob" (5 * second) one_route taken bob calls named
      acquire_bob ((λ _. (carol_is_not_bob, live)), (old_token, tt))

-- A nanosecond after the lease of bob has run out.
abbrev just_after : Clock
just_after = clock_at (35 * second + 1)

ran_out : bob.until ≡ format_nano just_after (35 * second)
unfolding format_nano
ran_out = refl

bob_in_table : stored taken "c1" ≡ some bob
unfolding find_row upsert_row empty
bob_in_table = refl

expired_lease_reads_held_example : (read_lease just_after taken "c1").held ≡ true
expired_lease_reads_held_example =
    expired_lease_reads_held just_after taken "c1" bob 35 1 bob_in_table ran_out refl (omega arith)
      (omega arith)

-- A nanosecond before that second, and a second later, the reading is right.
before_and_after :
    ((read_lease (clock_at (34 * second + 999_999_999)) taken "c1").held ≡ true)
    × ((read_lease (clock_at (36 * second)) taken "c1").held ≡ false)
unfolding read_lease now format_nano find_row upsert_row empty decimals digit
before_and_after = (refl, refl)

one_each : OneEach taken
unfolding count_rows upsert_row empty
one_each channel = ground arith

leases_refine_register_example :
    (answers taken calls ≡ replies (registered taken) (slots taken) calls)
    × (check_lease late (run taken calls) "c1" "t2" 1
        ≡ admits (play (registered taken) (slots taken) calls "c1") "t2" 1)
leases_refine_register_example = leases_refine_register late "c1" "t2" 1 taken calls one_each
