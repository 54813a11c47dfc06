-- ===== src/Channel/Receiver.antt =====
-- core/channel.go: the lease that a channel's receiver holds, and its fence.
-- `ttl` and times are nanoseconds. NewID is an argument, `id`.
pub mod Calls
pub mod Fence
pub mod Expiry
pub mod Exclusion
pub mod Register
pub mod Slots
pub mod Refines
pub mod Tests
use memgov.Base.{
  ℕ, ◌+◌, ◌*◌, ◌≤◌, String, Bool, true, false, not, ◌&&◌, ◌||◌, Option, none, some, List, [], ◌∷◌,
  Result, ok, err, ◌>>=◌, ◌>>◌, fail_if, invalid_input, conflict, internal, find_row, update_rows,
  count_rows, upsert_row, str_eq, str_lt, ltb, ◌==◌, if◌then◌else◌, Clock, second, format_nano, now,
}
use memgov.Schema.{Db}
use memgov.Schema.Channels.{Channel, Lease}
use memgov.Channel.{read_channel}

pub no_lease : String → Lease
no_lease channel = record {
  channel_id = channel;
  holder = "";
  token = "";
  fence = 0;
  until = "";
  updated_at = "";
  held = false;
}

-- A channel with no row reads as the empty lease.
unfoldable pub read_lease : Clock → Db → String → Lease
unfolding find_row no_lease
read_lease clock db channel = elim (find_row (λ l. str_eq l.channel_id channel) db.channel_leases) [
  | none ↦ no_lease channel
  | some l ↦ record l { held = str_lt (now clock) l.until }
]

pub bad_ttl : ℕ → Bool
bad_ttl ttl = ltb ttl second || ltb (24 * 3600 * second) ttl

-- The lease that an acquisition writes.
abbrev pub granted : Clock → String → String → String → ℕ → Db → Lease
granted clock id channel holder ttl db = record {
  channel_id = channel;
  holder = holder;
  token = id;
  fence = (read_lease clock db channel).fence + 1;
  until = format_nano clock (clock.time + ttl);
  updated_at = now clock;
  held = true;
}

abbrev pub write_lease : String → Lease → Db → Db
write_lease channel next db = record db {
  channel_leases = upsert_row (λ l. str_eq l.channel_id channel) next (λ _. next) db.channel_leases;
}

-- The foreign key of `channel_leases`: the row's channel is the id of a stored channel.
abbrev pub is_channel : Db → String → Bool
is_channel db value = ltb 0 (count_rows (λ (c : Channel). str_eq c.id value) db.channels)

-- A name finds the channel, but the row is written under the text as it is given, and the foreign
-- key refuses it where that is not an id.
unfoldable pub acquire_lease : Clock → String → String → String → ℕ → Db → Result (Lease × Db)
unfolding bad_ttl upsert_row
acquire_lease clock id channel holder ttl db = do
  stored ← read_channel db channel
  fail_if (str_eq holder "") invalid_input
  fail_if (bad_ttl ttl) invalid_input
  let current = read_lease clock db channel
  fail_if (current.held && not (str_eq current.holder holder)) conflict
  let next = granted clock id channel holder ttl db
  fail_if (not (is_channel db channel)) internal
  ok (next, write_lease channel next db)

unfoldable pub check_lease : Clock → Db → String → String → ℕ → Result (Unit {0})
check_lease clock db channel token fence = do
  let l = read_lease clock db channel
  fail_if (str_eq l.token "") conflict
  fail_if (not (str_eq l.token token) || not (l.fence == fence)) conflict
  ok tt

-- The row of a live lease, if token and fence are the stored ones.
pub holds : String → String → ℕ → Lease → Bool
holds channel token fence l =
    str_eq l.channel_id channel && str_eq l.token token && l.fence == fence

unfoldable pub renew_lease : Clock → String → String → ℕ → ℕ → Db → Result (Lease × Db)
unfolding bad_ttl holds update_rows count_rows no_lease
renew_lease clock channel token fence ttl db = do
  fail_if (bad_ttl ttl) invalid_input
  let until = format_nano clock (clock.time + ttl)
  let stamped = now clock
  fail_if (not (count_rows (holds channel token fence) db.channel_leases == 1)) conflict
  ok (
    record (no_lease channel) {
      token = token;
      fence = fence;
      until = until;
      updated_at = stamped;
      held = true;
    },
    record db {
      channel_leases =
          update_rows (holds channel token fence)
            (λ l. record l { until = until; updated_at = stamped }) db.channel_leases;
    },
  )

unfoldable pub release_lease : Clock → String → String → Db → Result (Unit {0} × Db)
unfolding update_rows count_rows
release_lease clock channel token db = do
  fail_if
      (not (
        count_rows (λ l. str_eq l.channel_id channel && str_eq l.token token) db.channel_leases
        == 1))
      conflict
  ok (
    tt,
    record db {
      channel_leases =
          update_rows (λ l. str_eq l.channel_id channel && str_eq l.token token)
            (λ l. record l { until = now clock; updated_at = now clock }) db.channel_leases;
    },
  )
