-- ===== src/Channel/Setup.antt =====
-- core/channel.go: AddChannel. NewID is an argument; strings.ToLower and json.Valid are parameters.

pub mod Lookup
pub mod Tests
use Prim.Native.Char.{code}
use memgov.Base.{
  ℕ, String, Bool, true, false, not, ◌&&◌, ◌||◌, Option, none, some, List, [], ◌∷◌, ◌++◌, Result,
  ok, ◌>>=◌, ◌>>◌, fail_if, invalid_input, conflict, count_rows, str_eq, ltb, leb, ◌==◌,
  if◌then◌else◌, contains, concat, is_identifier, all_chars, rune_count, byte_count, has_part,
  ends_with, starts_with, trim_space, Clock, now,
}
use memgov.Schema.{Db}
use memgov.Schema.Channels.{Channel, ChannelIdentity}
use memgov.Channel.{read_channel}
use memgov.Channel.Routes.{RouteInput, default_to, add_route}
use memgov.Channel.Normalize.{
  Subscription, ChannelInput, normalize_channel, subscription_conversation_kind,
}

-- The conversation that a subscription names.
pub add_subscription : Clock → String → String → Option Subscription → Db → Db
add_subscription clock row channel none db = db
add_subscription clock row channel (some s) db = record db {
  conversations =
      db.conversations
      ++ record {
        id = row;
        channel_id = channel;
        provider_conversation_id = s.conversation_id;
        kind = subscription_conversation_kind s;
        created_at = now clock;
      }
        ∷ [];
}

-- Identifiers for the channel, the route and the two conversations, and the caller's scope.
pub record Fresh : Type 0 where
  pub channel : String
  pub route : String
  pub subscribed : String
  pub bound : String
  pub scope : String

module _ (to_lower : String → String) (json_valid : String → Bool) where
  pub add_first_route : Clock → Fresh → String → Option RouteInput → Db → Result (Unit {0} × Db)
  add_first_route clock fresh channel none db = ok (tt, db)
  add_first_route clock fresh channel (some input) db = do
    r ← add_route json_valid clock fresh.route fresh.bound fresh.scope channel input db
    ok (tt, r.1)

  pub add_channel : Clock → Fresh → ChannelInput → Db → Result (Channel × Db)
  add_channel clock fresh input db = do
    c ← normalize_channel to_lower clock fresh.channel input
    fail_if
        (ltb 0 (count_rows (λ (o : Channel). str_eq o.id c.id || str_eq o.name c.name) db.channels))
        conflict
    let subscribed =
        add_subscription clock fresh.subscribed c.id input.subscription
          (record db { channels = db.channels ++ c ∷ [] })
    bound ← add_first_route clock fresh c.id input.route subscribed
    stored ← read_channel bound.1 c.id
    ok (stored, bound.1)
