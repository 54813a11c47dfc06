-- ===== src/Channel/Routes/Stale.antt =====
-- core/channel.go: UpdateRoute and the drafts of the route.
use memgov.Base.{
  ℕ, ◌≡◌, refl, String, Bool, true, false, ◌&&◌, ok, str_eq, arith, Clock, contains, ◌==◌,
  update_rows, eq_iff, Result-cases, ==_iff, inl, inr, [], ◌∷◌,
}
use memgov.Schema.{Db}
use memgov.Schema.Channels.{Route}
use memgov.Schema.Drafts.{Draft}
use memgov.Channel.{read_route}
use memgov.Channel.Routes.{
  RouteInput, update_route, mark_stale, is_pending_on, store_route, changed_route,
}

module _ (json_valid : String → Bool) (itoa : ℕ → String) where
  -- Only the row of the route at the expected version, and the route's pending drafts, change.
  pub update_route-inv :
      (clock : Clock) (id : String) (expected : ℕ) (input : RouteInput) (reason : String) (db : Db)
      (r : Route) (db' : Db)
      → update_route json_valid itoa clock id expected input reason db ≡ ok (r, db')
      → (o : Route) × (read_route db id ≡ ok o)
        × (o.version ≡ expected)
        × (r ≡ changed_route clock o input)
        × (db' ≡ record db {
          channel_routes =
              update_rows
                (λ o. str_eq o.id id && o.version == expected)
                (store_route r)
                db.channel_routes;
          outbox = update_rows (is_pending_on id) (mark_stale itoa clock r.version) db.outbox;
        })
  unfolding update_route
  update_route-inv clock id expected input reason db r db' h =
      elim (Result-cases (read_route db id)) [
        | inr (x, e) ↦ ground arith
        | inl (o, e) ↦
            let v : o.version ≡ expected = ground (arith, ==_iff o.version expected) in
            let q : r ≡ changed_route clock o input = ground arith in (o, e, v, q, ground arith)
      ]

pub mark_stale-state :
    (itoa : ℕ → String) (clock : Clock) (n : ℕ) (d : Draft)
    → (mark_stale itoa clock n d).state ≡ "stale"
unfolding mark_stale
mark_stale-state itoa clock n d = refl

-- What the draft says, and where it goes, stays.
pub mark_stale-message :
    (itoa : ℕ → String) (clock : Clock) (n : ℕ) (d : Draft)
    → (let e = mark_stale itoa clock n d in
        (e.id ≡ d.id)
        × (e.content ≡ d.content)
        × (e.format ≡ d.format)
        × (e.citations ≡ d.citations)
        × (e.channel_id ≡ d.channel_id)
        × (e.route_id ≡ d.route_id)
        × (e.route_version ≡ d.route_version)
        × (e.conversation_id ≡ d.conversation_id)
        × (e.display_digest ≡ d.display_digest))
unfolding mark_stale
mark_stale-message itoa clock n d = (refl, refl, refl, refl, refl, refl, refl, refl, refl)

pub stale-pending :
    (id : String) (d : Draft)
    → is_pending_on id d ≡ true
    → contains ("draft" ∷ "ready" ∷ []) d.state ≡ true
unfolding is_pending_on
stale-pending id d h = ground arith

-- A draft of the route that the update passes over is neither `draft` nor `ready`.
pub stale-idle :
    (id : String) (d : Draft)
    → is_pending_on id d ≡ false
    → d.route_id ≡ id
    → contains ("draft" ∷ "ready" ∷ []) d.state ≡ false
unfolding is_pending_on
stale-idle id d h own = ground (arith, eq_iff d.route_id id)
