-- ===== src/Outbox/Dispatch/Marked.antt =====
-- core/dispatch.go, core/runtime.go: the calls by which a draft ends in a state that is not draft or
-- ready.
use memgov.Base.{
  ℕ, ◌≡◌, refl, ap, String, Bool, true, false, ◌&&◌, List, [], ◌∷◌, ok, str_eq, concat, ◌==◌, arith,
  contains, contains-elim, Clock, update_rows, ◌⊎◌, inl, inr,
}
use memgov.Schema.{Db}
use memgov.Schema.Drafts.{Draft, Attempt}
use memgov.Outbox.{TaskView}
use memgov.Outbox.Dispatch.{
  record_delivery, cancel_draft, reconcile, finish_delivery, is_row, is_in, mark, mark_finished,
  conclude, is_sending_attempt, settle_attempt, finish_attempt, max_attempt, attempts_for,
}

-- The rows of `delivery_attempts` keep their draft.
abbrev pub SameDrafts : List Attempt → List Attempt → Type 0
SameDrafts t t' =
    (q : Attempt → Bool) × (f : Attempt → Attempt) × ((a : Attempt) → (f a).outbox_id ≡ a.outbox_id)
    × (t' ≡ update_rows q f t)

-- One draft's row is updated and gets a state that is not `draft` or `ready`.
abbrev pub Marked : List Draft → List Draft → Type 0
Marked t t' =
    (q : Draft → Bool) × (f : Draft → Draft) × ((d : Draft) → (f d).id ≡ d.id)
    × ((d : Draft) → contains ("draft" ∷ "ready" ∷ []) (f d).state ≡ false)
    × (t' ≡ update_rows q f t)

Marked-mark :
    (id state reason : String) (clock : Clock) (t : List Draft) {t' : List Draft}
    → contains ("draft" ∷ "ready" ∷ []) state ≡ false
    → t' ≡ update_rows (is_row id) (mark state reason clock) t
    → Marked t t'
unfolding mark
Marked-mark id state reason clock t h e = (is_row id, mark state reason clock, λ d. refl, λ d. h, e)

module _ (tasks : TaskView) where
  pub cancel_draft-Marked :
      (clock : Clock) (id reason : String) (db : Db) (u : Unit {0}) (db' : Db)
      → cancel_draft tasks clock id reason db ≡ ok (u, db')
      → Marked db.outbox db'.outbox × (db'.delivery_attempts ≡ db.delivery_attempts)
  unfolding cancel_draft
  cancel_draft-Marked clock id reason db u db' h =
      let e : db' ≡ record db {
        outbox = update_rows (is_row id) (mark "cancelled" reason clock) db.outbox;
      } =
        ground arith in
      (
        Marked-mark id "cancelled" reason clock db.outbox refl (ap (λ (x : Db). x.outbox) e),
        ap (λ (x : Db). x.delivery_attempts) e,
      )

  -- A delivery result is not `draft` or `ready`.
  delivered-apart :
      (s : String)
      → contains ("accepted" ∷ "retryable_failed" ∷ "delivery_unknown" ∷ "failed" ∷ []) s ≡ true
      → contains ("draft" ∷ "ready" ∷ []) s ≡ false
  delivered-apart s h =
      contains-elim (λ s. contains ("draft" ∷ "ready" ∷ []) s ≡ false)
        ("accepted" ∷ "retryable_failed" ∷ "delivery_unknown" ∷ "failed" ∷ []) s
        (refl, (refl, (refl, (refl, tt)))) h

  pub record_delivery-Marked :
      (clock : Clock) (id state receipt detail : String) (db : Db) (u : Unit {0}) (db' : Db)
      → record_delivery tasks clock id state receipt detail db ≡ ok (u, db')
      → Marked db.outbox db'.outbox × SameDrafts db.delivery_attempts db'.delivery_attempts
  unfolding record_delivery settle_attempt
  record_delivery-Marked clock id state receipt detail db u db' h =
      let g : contains ("accepted" ∷ "retryable_failed" ∷ "delivery_unknown" ∷ "failed" ∷ []) state
          ≡ true =
        ground arith in
      let e : db' ≡ record db {
        outbox = update_rows (is_row id) (mark state detail clock) db.outbox;
        delivery_attempts =
            update_rows (is_sending_attempt id) (settle_attempt state receipt detail clock)
              db.delivery_attempts;
      } =
        ground arith in
      (
        Marked-mark id state detail clock db.outbox (delivered-apart state g)
            (ap (λ (x : Db). x.outbox) e),
        (
          is_sending_attempt id,
          settle_attempt state receipt detail clock,
          λ a. refl,
          ap (λ (x : Db). x.delivery_attempts) e,
        ),
      )

  conclude-apart :
      (outcome receipt s : String)
      → conclude outcome receipt ≡ ok s
      → contains ("draft" ∷ "ready" ∷ []) s ≡ false
  unfolding conclude
  conclude-apart outcome receipt s h =
      let e : (s ≡ "accepted") ⊎ (s ≡ "retryable_failed") = ground arith in
      elim e [ inl p ↦ rw p refl | inr p ↦ rw p refl ]

  pub reconcile-Marked :
      (clock : Clock) (id outcome receipt evidence : String) (db : Db) (u : Unit {0}) (db' : Db)
      → reconcile tasks clock id outcome receipt evidence db ≡ ok (u, db')
      → Marked db.outbox db'.outbox × SameDrafts db.delivery_attempts db'.delivery_attempts
  unfolding reconcile settle_attempt
  reconcile-Marked clock id outcome receipt evidence db u db' h =
      let why = concat ("reconciled: " ∷ evidence ∷ []) in
      let (s, c, e) : (s : String) × (conclude outcome receipt ≡ ok s)
          × (db' ≡ record db {
            outbox = update_rows (is_row id) (mark s why clock) db.outbox;
            delivery_attempts =
                update_rows
                  (λ a. str_eq a.outbox_id id && a.attempt == max_attempt (attempts_for db id))
                  (settle_attempt s receipt why clock) db.delivery_attempts;
          }) =
        ground arith in
      (
        Marked-mark id s why clock db.outbox (conclude-apart outcome receipt s c)
            (ap (λ (x : Db). x.outbox) e),
        (_, settle_attempt s receipt why clock, λ a. refl, ap (λ (x : Db). x.delivery_attempts) e),
      )

pub finish_delivery-Marked :
    (clock : Clock) (id : String) (attempt : ℕ) (state receipt : String) (db : Db) (u : Unit {0})
    (db' : Db)
    → finish_delivery clock id attempt state receipt db ≡ ok (u, db')
    → Marked db.outbox db'.outbox × SameDrafts db.delivery_attempts db'.delivery_attempts
unfolding finish_delivery finish_attempt mark_finished
finish_delivery-Marked clock id attempt state receipt db u db' h =
    let g : contains ("accepted" ∷ "failed" ∷ "unknown" ∷ []) state ≡ true = ground arith in
    let e : db' ≡ record db {
      outbox = update_rows (is_in "sending" id) (mark_finished state clock) db.outbox;
      delivery_attempts =
          update_rows
            (λ a. str_eq a.outbox_id id && a.attempt == attempt && str_eq a.state "sending")
            (finish_attempt state receipt clock) db.delivery_attempts;
    } =
      ground arith in
    let k =
      contains-elim (λ s. contains ("draft" ∷ "ready" ∷ []) s ≡ false)
        ("accepted" ∷ "failed" ∷ "unknown" ∷ []) state (refl, (refl, (refl, tt))) g in
    (
      (
        is_in "sending" id,
        mark_finished state clock,
        λ d. refl,
        λ d. k,
        ap (λ (x : Db). x.outbox) e,
      ),
      (_, finish_attempt state receipt clock, λ a. refl, ap (λ (x : Db). x.delivery_attempts) e),
    )
