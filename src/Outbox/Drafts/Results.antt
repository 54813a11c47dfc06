-- ===== src/Outbox/Drafts/Results.antt =====
-- core/outbox.go: what a call of CreateDraft that succeeds has found, and what it has written.
use memgov.Base.{
  ◌≡◌, refl, String, true, false, List, [], ◌∷◌, ◌++◌, ok, find_row, str_eq, arith, Clock,
  count_rows, ◌⊎◌, inl, inr, Result-cases, Option-cases,
}
use memgov.Schema.{Db}
use memgov.Schema.Channels.{Channel}
use memgov.Schema.Drafts.{Draft, RequestContext}
use memgov.Channel.{read_channel}
use memgov.Outbox.{TaskView, Json, redact_draft, read_context}
use memgov.Outbox.Drafts.{
  DraftInput, Drafted, Audience, new_draft, draft_body, insert_draft, create_draft, same_input,
  audience_for_context,
}

module _ (digest : List (String × Json) → String) (tasks : TaskView) where
  -- The draft was there, or it is new: in state `draft`, with an id that no row has.
  abbrev pub Inserted : String → Drafted → Db → Db → Type 0
  Inserted id r db db' =
      ((d : Draft) × (db' ≡ db) × (r.duplicate ≡ true) × (r.draft ≡ redact_draft tasks db d))
      ⊎ ((d : Draft) × (d.id ≡ id)
          × (d.state ≡ "draft")
          × (count_rows (λ o. str_eq o.id id) db.outbox ≡ 0)
          × (db' ≡ record db { outbox = db.outbox ++ d ∷ [] })
          × (r.draft ≡ d)
          × (r.duplicate ≡ false))

  insert_draft-Inserted :
      (new : Draft) (db : Db) (r : Drafted) (db' : Db)
      → new.state ≡ "draft"
      → insert_draft digest tasks new db ≡ ok (r, db')
      → Inserted new.id r db db'
  unfolding insert_draft
  insert_draft-Inserted new db r db' s h =
      elim (Option-cases (find_row (same_input new) db.outbox)) [
        | inl n ↦
            let (fresh, e, same) : (count_rows (λ o. str_eq o.id new.id) db.outbox ≡ 0)
                × (db' ≡ record db { outbox = db.outbox ++ new ∷ [] })
                × (r ≡ record { draft = new; duplicate = false }) =
              ground arith in
            inr (new, refl, s, fresh, e, rw same refl, rw same refl)
        | inr (d, e) ↦
            let (q, same) : (db' ≡ db)
                × (r ≡ record { draft = redact_draft tasks db d; duplicate = true }) =
              ground arith in
            inl (d, q, rw same refl, rw same refl)
      ]

  pub create_draft-inv :
      (clock : Clock) (id : String) (input : DraftInput) (db : Db) (r : Drafted) (db' : Db)
      → create_draft digest tasks clock id input db ≡ ok (r, db')
      → (rc : RequestContext) × (a : Audience) × (c : Channel) × (insert_draft digest tasks
            (new_draft digest clock id rc a c input)
            db
          ≡ ok (r, db'))
  unfolding create_draft
  create_draft-inv clock id input db r db' h =
      elim (Result-cases (read_context db input.context_id)) [
        | inr (x, e) ↦ ground arith
        | inl (rc, e) ↦ elim (Result-cases (audience_for_context db rc)) [
          | inr (x, e') ↦ ground arith
          | inl (a, e') ↦ elim (Result-cases (read_channel db rc.channel_id)) [
            | inr (x, e'') ↦ ground arith
            | inl (c, e'') ↦ (rc, a, c, ground arith)
          ]
        ]
      ]

  pub create_draft-Inserted :
      (clock : Clock) (id : String) (input : DraftInput) (db : Db) (r : Drafted) (db' : Db)
      → create_draft digest tasks clock id input db ≡ ok (r, db')
      → Inserted id r db db'
  unfolding new_draft draft_body
  create_draft-Inserted clock id input db r db' h =
      let (rc, a, c, e) = create_draft-inv clock id input db r db' h in
      insert_draft-Inserted (new_draft digest clock id rc a c input) db r db' refl e
