-- ===== src/Channel/Capabilities.antt =====
-- core/channel.go: storing the capabilities that a probe of a channel's tool found.
-- A nil map or slice of the source and an empty one are one value.
pub mod Revoked
pub mod Tests
use memgov.Base.{◌+◌, String, List, Result, ok, ◌>>=◌, update_rows, str_eq, Clock, now}
use memgov.Schema.{Db}
use memgov.Schema.Channels.{Channel, Capabilities}
use memgov.Channel.{read_channel}

-- The row that the UPDATE writes.
pub probed : Clock → Capabilities → String → Channel → Channel
probed clock caps tool c = record c {
  capabilities = record caps { checked_at = now clock; tool = tool };
  tool_version = tool;
  config_version = c.config_version + 1;
  updated_at = now clock;
}

-- The channel is read by its id or name, and updated by its id only.
pub set_capabilities : Clock → String → Capabilities → String → Db → Result (Channel × Db)
set_capabilities clock id caps tool db = do
  _ ← read_channel db id
  let next = record db {
    channels = update_rows (λ c. str_eq c.id id) (probed clock caps tool) db.channels;
  }
  c ← read_channel next id
  ok (c, next)
