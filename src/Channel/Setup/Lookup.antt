-- ===== src/Channel/Setup/Lookup.antt =====
-- core/channel.go: AddChannel with a first route, and RouteFor.
use memgov.Base.{
  ◌≡◌, refl, sym, ap, ◌∙◌, subst, [], ◌∷◌, ◌++◌, String, Bool, some, ok, Clock, arith, inl, inr,
  Result-cases,
}
use memgov.Schema.{Db}
use memgov.Schema.Channels.{Channel, Route}
use memgov.Channel.{read_channel, route_for}
use memgov.Channel.Routes.{RouteInput, add_route}
use memgov.Channel.Routes.Lookup.{add_route-route_for, add_route-channel}
use memgov.Channel.Setup.{Fresh, add_subscription, add_first_route, add_channel}
use memgov.Channel.Normalize.{ChannelInput, normalize_channel}

module _ (to_lower : String → String) (json_valid : String → Bool) where
  add_first_route-inv :
      (clock : Clock) (fresh : Fresh) (channel : String) (input : RouteInput) (db : Db)
      (u : Unit {0}) (db' : Db)
      → add_first_route to_lower json_valid clock fresh channel (some input) db ≡ ok (u, db')
      → (r : Route) × (add_route json_valid clock fresh.route fresh.bound fresh.scope channel input
            db
          ≡ ok (r, db'))
  unfolding add_first_route
  add_first_route-inv clock fresh channel input db u db' h =
      elim (Result-cases
        (add_route json_valid clock fresh.route fresh.bound fresh.scope channel input db)) [
          | inr (x, e) ↦ ground arith
          | inl ((r, next), e) ↦ let same : next ≡ db' = ground arith in (r, rw (sym same) e)
        ]

  add_channel-inv :
      (clock : Clock) (fresh : Fresh) (input : ChannelInput) (db : Db) (c : Channel) (db' : Db)
      → add_channel to_lower json_valid clock fresh input db ≡ ok (c, db')
      → (key : String) × (subscribed : Db) × (u : Unit {0}) × (add_first_route to_lower json_valid
            clock fresh key input.route subscribed
          ≡ ok (u, db'))
        × (read_channel db' key ≡ ok c)
  unfolding add_channel
  add_channel-inv clock fresh input db c db' h =
      elim (Result-cases (normalize_channel to_lower clock fresh.channel input)) [
        | inr (x, e) ↦ ground arith
        | inl (new, e) ↦
            let subscribed =
              add_subscription clock fresh.subscribed new.id input.subscription
                (record db { channels = db.channels ++ new ∷ [] }) in
            elim (Result-cases
              (add_first_route to_lower json_valid clock fresh new.id input.route subscribed)) [
                | inr (x, e') ↦ ground arith
                | inl ((u, next), e') ↦ elim (Result-cases (read_channel next new.id)) [
                  | inr (x, e'') ↦ ground arith
                  | inl (stored, e'') ↦
                      let (same, k) : (next ≡ db') × (stored ≡ c) = ground arith in
                      (new.id, subscribed, u, rw (sym same) e', rw (sym same, sym k) e'')
                ]
              ]
      ]

  read_channel-same :
      (db db' : Db) (value : String)
      → db'.channels ≡ db.channels
      → read_channel db' value ≡ read_channel db value
  unfolding read_channel
  read_channel-same db db' value e = rw e refl

  -- A channel that is added with a route is bound to the route's conversation at once: RouteFor
  -- answers for the channel that AddChannel returns, with a route at version 1.
  pub add_channel-route_for :
      (clock : Clock) (fresh : Fresh) (input : ChannelInput) (route : RouteInput) (db : Db)
      (c : Channel) (db' : Db)
      → input.route ≡ some route
      → add_channel to_lower json_valid clock fresh input db ≡ ok (c, db')
      → (r : Route) × (route_for db' c.id route.conversation_id ≡ ok r) × (r.version ≡ 1)
  add_channel-route_for clock fresh input route db c db' given_route h =
      let (key, subscribed, u, first, stored) = add_channel-inv clock fresh input db c db' h in
      let added =
        subst (λ o. add_first_route to_lower json_valid clock fresh key o subscribed ≡ ok (u, db'))
          given_route first in
      let (r, e) = add_first_route-inv clock fresh key route subscribed u db' added in
      let (bound, version, _) =
        add_route-route_for json_valid clock fresh.route fresh.bound fresh.scope key route
          subscribed r db' e in
      let (o, read, own, same) =
        add_route-channel json_valid clock fresh.route fresh.bound fresh.scope key route subscribed
          r db' e in
      let one : ok o ≡ ok c = sym read ∙ sym (read_channel-same subscribed db' key same) ∙ stored in
      let k : o ≡ c = cc one in
      (
        r,
        subst (λ x. route_for db' x route.conversation_id ≡ ok r)
            (own ∙ ap (λ (x : Channel). x.id) k) bound,
        version,
      )
