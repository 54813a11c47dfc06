-- ===== src/Outbox/Dispatch/Moves.antt =====
-- The states of a draft, and which of core/dispatch.go's and core/runtime.go's calls moves it where.
use memgov.Base.{
  ℕ, ◌≡◌, refl, sym, ap, ◌∙◌, subst, String, Bool, true, some, [], ◌∷◌, ok, find_row, eq_iff, arith,
  contains, concat, Clock, update_rows, ◌⊎◌, inl, inr, Result-cases,
}
use memgov.Base.Table.{find_row-holds}
use memgov.Schema.{Db}
use memgov.Schema.Drafts.{Draft}
use memgov.Outbox.{TaskView, read_draft, redact_draft}
use memgov.Outbox.Dispatch.{
  record_delivery, cancel_draft, reconcile, finish_delivery, is_row, is_in, is_pending, mark,
  mark_sending, mark_begun, mark_finished, conclude,
}
use memgov.Outbox.Dispatch.Results.{read_draft-inv}

-- The allowed moves. `unknown` is what FinishDelivery calls an unknown outcome, `delivery_unknown`
-- what RecordDelivery calls it; only the latter is concluded by Reconcile.
pub data Edge : String → String → Type 0 where
  stay : {s : String} → Edge s s
  hand_over : {s : String} → contains ("draft" ∷ "ready" ∷ []) s ≡ true → Edge s "sending"
  outdate : {s : String} → contains ("draft" ∷ "ready" ∷ []) s ≡ true → Edge s "stale"
  withdraw :
      {s : String}
      → contains ("draft" ∷ "ready" ∷ "stale" ∷ "blocked" ∷ []) s ≡ true
      → Edge s "cancelled"
  deliver :
      {t : String}
      → contains ("accepted" ∷ "retryable_failed" ∷ "delivery_unknown" ∷ "failed" ∷ []) t ≡ true
      → Edge "sending" t
  finish :
      {t : String} → contains ("accepted" ∷ "failed" ∷ "unknown" ∷ []) t ≡ true → Edge "sending" t
  settle :
      {t : String}
      → contains ("accepted" ∷ "retryable_failed" ∷ []) t ≡ true
      → Edge "delivery_unknown" t

-- What a draft says and where it goes.
abbrev pub SameMessage : Draft → Draft → Type 0
SameMessage d e =
    (e.id ≡ d.id)
    × (e.content ≡ d.content)
    × (e.format ≡ d.format)
    × (e.citations ≡ d.citations)
    × (e.channel_id ≡ d.channel_id)
    × (e.route_id ≡ d.route_id)
    × (e.route_version ≡ d.route_version)
    × (e.conversation_id ≡ d.conversation_id)
    × (e.display_digest ≡ d.display_digest)

-- The first row of each id moves along an edge, and no row's message changes.
abbrev pub Moved : Db → Db → Type 0
Moved db db' =
    (q : Draft → Bool) × (f : Draft → Draft) × ((d : Draft) → SameMessage d (f d))
    × ((id : String) (d : Draft)
        → find_row (is_row id) db.outbox ≡ some d
        → q d ≡ true
        → Edge d.state (f d).state)
    × (db'.outbox ≡ update_rows q f db.outbox)

-- The row of one id is marked, from the state that was read.
mark-Moved :
    (db db' : Db) (id state reason : String) (clock : Clock) (r : Draft)
    → find_row (is_row id) db.outbox ≡ some r
    → Edge r.state state
    → db'.outbox ≡ update_rows (is_row id) (mark state reason clock) db.outbox
    → Moved db db'
unfolding mark
mark-Moved db db' id state reason clock r found edge e = (
  is_row id,
  mark state reason clock,
  λ d. (refl, refl, refl, refl, refl, refl, refl, refl, refl),
  λ x d h k.
      let same : x ≡ id =
        cc ((eq_iff d.id x).0 (find_row-holds (is_row x) db.outbox d h), (eq_iff d.id id).0 k) in
      let here : some d ≡ some r = sym h ∙ ap (λ y. find_row (is_row y) db.outbox) same ∙ found in
      let row : d ≡ r = cc here in subst (λ (y : Draft). Edge y.state state) (sym row) edge,
  e,
)

module _ (tasks : TaskView) where
  pub record_delivery-Moved :
      (clock : Clock) (id state receipt detail : String) (db : Db) (u : Unit {0}) (db' : Db)
      → record_delivery tasks clock id state receipt detail db ≡ ok (u, db')
      → Moved db db'
  unfolding record_delivery redact_draft
  record_delivery-Moved clock id state receipt detail db u db' h =
      elim (Result-cases (read_draft tasks db id)) [
        | inr (x, e) ↦ ground arith
        | inl (d, e) ↦
            let (r, found, p) = read_draft-inv tasks db id d e in
            let here : d.state ≡ "sending" = ground (arith, eq_iff d.state "sending") in
            let goal : contains
                  ("accepted" ∷ "retryable_failed" ∷ "delivery_unknown" ∷ "failed" ∷ []) state
                ≡ true =
              ground arith in
            let q : db'.outbox ≡ update_rows (is_row id) (mark state detail clock) db.outbox =
              ground arith in
            let from : "sending" ≡ r.state = sym here ∙ ap (λ (x : Draft). x.state) p in
            mark-Moved db db' id state detail clock r found
              (subst (λ s. Edge s state) from (deliver goal)) q
      ]

  pub cancel_draft-Moved :
      (clock : Clock) (id reason : String) (db : Db) (u : Unit {0}) (db' : Db)
      → cancel_draft tasks clock id reason db ≡ ok (u, db')
      → Moved db db'
  unfolding cancel_draft redact_draft
  cancel_draft-Moved clock id reason db u db' h = elim (Result-cases (read_draft tasks db id)) [
    | inr (x, e) ↦ ground arith
    | inl (d, e) ↦
        let (r, found, p) = read_draft-inv tasks db id d e in
        let here : contains ("draft" ∷ "ready" ∷ "stale" ∷ "blocked" ∷ []) d.state ≡ true =
          ground arith in
        let q : db'.outbox ≡ update_rows (is_row id) (mark "cancelled" reason clock) db.outbox =
          ground arith in
        let from : d.state ≡ r.state = ap (λ (x : Draft). x.state) p in
        mark-Moved db db' id "cancelled" reason clock r found
          (subst (λ s. Edge s "cancelled") from (withdraw here)) q
  ]

  concluded :
      (outcome receipt s : String)
      → conclude outcome receipt ≡ ok s
      → contains ("accepted" ∷ "retryable_failed" ∷ []) s ≡ true
  unfolding conclude
  concluded outcome receipt s h =
      let e : (s ≡ "accepted") ⊎ (s ≡ "retryable_failed") = ground arith in
      elim e [ inl p ↦ rw p refl | inr p ↦ rw p refl ]

  pub reconcile-Moved :
      (clock : Clock) (id outcome receipt evidence : String) (db : Db) (u : Unit {0}) (db' : Db)
      → reconcile tasks clock id outcome receipt evidence db ≡ ok (u, db')
      → Moved db db'
  unfolding reconcile redact_draft
  reconcile-Moved clock id outcome receipt evidence db u db' h =
      elim (Result-cases (read_draft tasks db id)) [
        | inr (x, e) ↦ ground arith
        | inl (d, e) ↦ elim (Result-cases (conclude outcome receipt)) [
          | inr (x, e') ↦ ground arith
          | inl (s, e') ↦
              let (r, found, p) = read_draft-inv tasks db id d e in
              let here : d.state ≡ "delivery_unknown" =
                ground (arith, eq_iff d.state "delivery_unknown") in
              let why = concat ("reconciled: " ∷ evidence ∷ []) in
              let q : db'.outbox ≡ update_rows (is_row id) (mark s why clock) db.outbox =
                ground arith in
              let from : "delivery_unknown" ≡ r.state = sym here ∙ ap (λ (x : Draft). x.state) p in
              mark-Moved db db' id s why clock r found
                (subst (λ t. Edge t s) from (settle (concluded outcome receipt s e'))) q
        ]
      ]

pub finish_delivery-Moved :
    (clock : Clock) (id : String) (attempt : ℕ) (state receipt : String) (db : Db) (u : Unit {0})
    (db' : Db)
    → finish_delivery clock id attempt state receipt db ≡ ok (u, db')
    → Moved db db'
unfolding finish_delivery is_in mark_finished
finish_delivery-Moved clock id attempt state receipt db u db' h =
    let goal : contains ("accepted" ∷ "failed" ∷ "unknown" ∷ []) state ≡ true = ground arith in
    let q : db'.outbox ≡ update_rows (is_in "sending" id) (mark_finished state clock) db.outbox =
      ground arith in
    (
      is_in "sending" id,
      mark_finished state clock,
      λ d. (refl, refl, refl, refl, refl, refl, refl, refl, refl),
      λ x d found k.
          let here : "sending" ≡ d.state = ground (arith, eq_iff d.state "sending") in
          subst (λ s. Edge s state) here (finish goal),
      q,
    )

pub authorize-Moved :
    (clock : Clock) (id : String) (db db' : Db)
    → db'.outbox ≡ update_rows (is_pending id) (mark_sending clock) db.outbox
    → Moved db db'
unfolding is_pending mark_sending
authorize-Moved clock id db db' e = (
  is_pending id,
  mark_sending clock,
  λ d. (refl, refl, refl, refl, refl, refl, refl, refl, refl),
  λ x d found k. hand_over (ground arith),
  e,
)

pub begin-Moved :
    (clock : Clock) (id : String) (db db' : Db)
    → db'.outbox ≡ update_rows (is_in "ready" id) (mark_begun clock) db.outbox
    → Moved db db'
unfolding is_in mark_begun
begin-Moved clock id db db' e = (
  is_in "ready" id,
  mark_begun clock,
  λ d. (refl, refl, refl, refl, refl, refl, refl, refl, refl),
  λ x d found k.
      let here : "ready" ≡ d.state = ground (arith, eq_iff d.state "ready") in
      hand_over (subst (λ s. contains ("draft" ∷ "ready" ∷ []) s ≡ true) here refl),
  e,
)
