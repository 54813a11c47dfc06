-- ===== src/Channel.antt =====
-- core/channel.go: reading channels and routes. SQL reads the first row that fits.
pub mod Receiver
pub mod Routes
pub mod Normalize
pub mod Setup
pub mod Capabilities
use memgov.Base.{
  String, Bool, ◌&&◌, ◌||◌, List, [], ◌∷◌, Result, or_fail, not_found, denied, find_row, concat,
  str_eq, if◌then◌else◌,
}
use memgov.Schema.{Db}
use memgov.Schema.Channels.{Channel, Route}

unfoldable pub read_channel : Db → String → Result Channel
unfolding find_row
read_channel db value =
    or_fail (find_row (λ c. str_eq c.id value || str_eq c.name value) db.channels) not_found

unfoldable pub read_route : Db → String → Result Route
unfolding find_row
read_route db id = or_fail (find_row (λ r. str_eq r.id id) db.channel_routes) not_found

-- An unbound conversation is refused.
unfoldable pub route_for : Db → String → String → Result Route
unfolding find_row
route_for db channel conversation =
    or_fail
      (find_row
        (λ r.
          str_eq r.channel_id channel
          && str_eq r.conversation_id conversation
          && str_eq r.status "active")
        db.channel_routes)
      denied

unfoldable pub audience_key : String → String → String → String
audience_key policy channel conversation = concat (
    (if str_eq policy "" then "local_private" else policy)
    ∷ ":"
    ∷ channel
    ∷ ":"
    ∷ conversation
    ∷ [])
