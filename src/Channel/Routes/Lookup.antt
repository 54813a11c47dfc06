-- ===== src/Channel/Routes/Lookup.antt =====
-- core/channel.go: AddRoute and RouteFor.
use memgov.Base.{
  ◌≡◌, ◌≢◌, refl, subst, String, Bool, true, false, ◌&&◌, ◌||◌, none, [], ◌∷◌, ◌++◌, ok, find_row,
  count_rows, str_eq, eq_iff, eq_refl, arith, Clock, ◌⊎◌, inl, inr, Result-cases, Option-cases,
  count_rows-weaken,
}
use memgov.Base.Table.{find_row-append, find_row-of_count}
use memgov.Schema.{Db}
use memgov.Schema.Channels.{Channel, Route}
use memgov.Channel.{route_for, read_channel}
use memgov.Channel.Routes.{RouteInput, add_route, new_route, names_workspace, default_to}

-- The row that RouteFor looks for.
abbrev binds : String → String → Route → Bool
binds channel conversation r =
    str_eq r.channel_id channel && str_eq r.conversation_id conversation && str_eq r.status "active"

abbrev is_taken : Route → Route → Bool
is_taken r o =
    str_eq o.id r.id
    || (str_eq o.channel_id r.channel_id && str_eq o.conversation_id r.conversation_id)

route_for-append :
    (db db' : Db) (r : Route) (channel conversation : String)
    → db'.channel_routes ≡ db.channel_routes ++ r ∷ []
    → find_row (binds channel conversation) db.channel_routes ≡ none
    → binds channel conversation r ≡ true
    → route_for db' channel conversation ≡ ok r
unfolding route_for find_row
route_for-append db db' r channel conversation e n h =
    rw (e, find_row-append (binds channel conversation) db.channel_routes (r ∷ []), n) (rw h refl)

route_for-same :
    (db db' : Db) (r : Route) (channel conversation : String)
    → db'.channel_routes ≡ db.channel_routes ++ r ∷ []
    → binds channel conversation r ≡ false
    → route_for db' channel conversation ≡ route_for db channel conversation
unfolding route_for find_row
route_for-same db db' r channel conversation e h =
    rw (e, find_row-append (binds channel conversation) db.channel_routes (r ∷ []))
      (elim (Option-cases (find_row (binds channel conversation) db.channel_routes)) [
        | inl n ↦ rw n (rw h refl)
        | inr (o, k) ↦ rw k refl
      ])

module _ (json_valid : String → Bool) where
  add_route-inv :
      (clock : Clock) (id row scope channel : String) (input : RouteInput) (db : Db) (r : Route)
      (db' : Db)
      → add_route json_valid clock id row scope channel input db ≡ ok (r, db')
      → (count_rows (is_taken r) db.channel_routes ≡ 0)
        × (r.status ≡ "active")
        × (r.id ≡ id)
        × (r.conversation_id ≡ input.conversation_id)
        × (r.version ≡ 1)
        × (db'.channel_routes ≡ db.channel_routes ++ r ∷ [])
  unfolding add_route new_route
  add_route-inv clock id row scope channel input db r db' h =
      elim (Result-cases (read_channel db channel)) [
        | inr (x, e) ↦ ground arith
        | inl (c, e) ↦
            elim (Option-cases
              (find_row (names_workspace (default_to input.workspace scope)) db.workspaces)) [
                | inl n ↦ ground arith
                | inr (w, k) ↦
                    let new = new_route clock id c input in
                    let route = record new { workspace_id = w.id } in
                    let (free, q, same) : (count_rows (is_taken route) db.channel_routes ≡ 0)
                        × (r ≡ route)
                        × (db'.channel_routes ≡ db.channel_routes ++ route ∷ []) =
                      ground arith in
                    (rw q free, rw q refl, rw q refl, rw q refl, rw q refl, rw q same)
              ]
      ]

  taken-binds : (r o : Route) → binds r.channel_id r.conversation_id o ≡ true → is_taken r o ≡ true
  taken-binds r o h = ground arith

  elsewhere :
      (r : Route) (c d conversation : String)
      → r.conversation_id ≡ conversation
      → (c ≢ r.channel_id) ⊎ (d ≢ conversation)
      → binds c d r ≡ false
  elsewhere r c d conversation here other =
      ground (arith, eq_iff r.channel_id c, eq_iff r.conversation_id d)

  -- After AddRoute the conversation is bound: RouteFor answers with the new route, which is active
  -- and at version 1; and every other conversation, of this channel or another, is answered as before.
  pub add_route-route_for :
      (clock : Clock) (id row scope channel : String) (input : RouteInput) (db : Db) (r : Route)
      (db' : Db)
      → add_route json_valid clock id row scope channel input db ≡ ok (r, db')
      → (route_for db' r.channel_id input.conversation_id ≡ ok r)
        × (r.version ≡ 1)
        × ((c d : String)
            → (c ≢ r.channel_id) ⊎ (d ≢ input.conversation_id)
            → route_for db' c d ≡ route_for db c d)
  add_route-route_for clock id row scope channel input db r db' h =
      let (free, active, _, here, version, e) =
        add_route-inv clock id row scope channel input db r db' h in
      let le =
        count_rows-weaken (binds r.channel_id r.conversation_id) (is_taken r) (λ o. o)
          db.channel_routes (taken-binds r) in
      let n =
        find_row-of_count (binds r.channel_id r.conversation_id) db.channel_routes (omega arith) in
      let mine : binds r.channel_id r.conversation_id r ≡ true =
        rw (active, eq_refl r.channel_id, eq_refl r.conversation_id) refl in
      (
        subst (λ x. route_for db' r.channel_id x ≡ ok r) here
            (route_for-append db db' r r.channel_id r.conversation_id e n mine),
        version,
        λ c d other.
            route_for-same db db' r c d e (elsewhere r c d input.conversation_id here other),
      )

  -- The route is one of the channel that is named, and the channels stay.
  pub add_route-channel :
      (clock : Clock) (id row scope channel : String) (input : RouteInput) (db : Db) (r : Route)
      (db' : Db)
      → add_route json_valid clock id row scope channel input db ≡ ok (r, db')
      → (c : Channel) × (read_channel db channel ≡ ok c)
        × (r.channel_id ≡ c.id)
        × (db'.channels ≡ db.channels)
  unfolding add_route new_route
  add_route-channel clock id row scope channel input db r db' h =
      elim (Result-cases (read_channel db channel)) [
        | inr (x, e) ↦ ground arith
        | inl (c, e) ↦
            elim (Option-cases
              (find_row (names_workspace (default_to input.workspace scope)) db.workspaces)) [
                | inl n ↦ ground arith
                | inr (w, k) ↦
                    let new = new_route clock id c input in
                    let route = record new { workspace_id = w.id } in
                    let (q, same) : (r ≡ route) × (db'.channels ≡ db.channels) = ground arith in
                    (c, e, rw q refl, same)
              ]
      ]
