-- ===== src/Outbox/Drafts/Twice.antt =====
-- core/outbox.go: drafting the same text again.
use memgov.Base.{
  ◌≡◌, refl, sym, ap, ◌∙◌, subst, String, true, false, none, some, List, [], ◌∷◌, ◌++◌, ok, err,
  denied, str_lt, now, if◌then◌else◌, find_row, str_eq, eq_refl, arith, Clock, count_rows, ◌⊎◌, inl,
  inr, Result-cases, Option-cases,
}
use memgov.Base.Table.{find_row-append}
use memgov.Schema.{Db}
use memgov.Schema.Channels.{Channel}
use memgov.Schema.Drafts.{Draft, RequestContext}
use memgov.Channel.{read_channel, route_for}
use memgov.Outbox.{TaskView, Json, redact_draft, read_context}
use memgov.Outbox.Drafts.Results.{create_draft-Inserted}
use memgov.Outbox.Drafts.{
  DraftInput, Drafted, Audience, new_draft, draft_body, insert_draft, create_draft, same_input,
  audience_for_context,
}

module _ (digest : List (String × Json) → String) (tasks : TaskView) where
  -- What drafting reads.
  abbrev Reads : Db → DraftInput → RequestContext → Audience → Channel → Type 0
  Reads db input rc a c =
      (read_context db input.context_id ≡ ok rc)
      × (audience_for_context db rc ≡ ok a)
      × (read_channel db rc.channel_id ≡ ok c)

  create_draft-Reads :
      (clock : Clock) (id : String) (input : DraftInput) (db : Db) (r : Drafted) (db' : Db)
      → create_draft digest tasks clock id input db ≡ ok (r, db')
      → (rc : RequestContext) × (a : Audience) × (c : Channel) × Reads db input rc a c
  unfolding create_draft
  create_draft-Reads clock id input db r db' h =
      elim (Result-cases (read_context db input.context_id)) [
        | inr (x, e) ↦ ground arith
        | inl (rc, e) ↦ elim (Result-cases (audience_for_context db rc)) [
          | inr (x, e') ↦ ground arith
          | inl (a, e') ↦ elim (Result-cases (read_channel db rc.channel_id)) [
            | inr (x, e'') ↦ ground arith
            | inl (c, e'') ↦ (rc, a, c, (e, e', e''))
          ]
        ]
      ]

  -- The checks do not depend on the id or on the outbox, and on the clock for the expiry only.
  create_draft-insert :
      (clock afterwards : Clock) (id again : String) (input : DraftInput) (db later : Db)
      (r : Drafted) (db' : Db) (rc : RequestContext) (a : Audience) (c : Channel)
      → create_draft digest tasks clock id input db ≡ ok (r, db')
      → Reads db input rc a c
      → Reads later input rc a c
      → create_draft digest tasks afterwards again input later ≡ (
          if str_lt rc.expires_at (now afterwards)
          then err denied
          else insert_draft digest tasks (new_draft digest afterwards again rc a c input) later)
  unfolding create_draft
  create_draft-insert clock afterwards id again input db later r db' rc a c h (e, e', e'')
        (k, k', k'') =
      ground arith

  -- A draft was made, so the context had not expired.
  create_draft-inserted :
      (clock : Clock) (id : String) (input : DraftInput) (db : Db) (r : Drafted) (db' : Db)
      (rc : RequestContext) (a : Audience) (c : Channel)
      → create_draft digest tasks clock id input db ≡ ok (r, db')
      → Reads db input rc a c
      → insert_draft digest tasks (new_draft digest clock id rc a c input) db ≡ ok (r, db')
  unfolding create_draft
  create_draft-inserted clock id input db r db' rc a c h (e, e', e'') = ground arith

  outbox-Reads :
      (db : Db) (t : List Draft) (input : DraftInput) (rc : RequestContext) (a : Audience)
      (c : Channel)
      → Reads db input rc a c
      → Reads (record db { outbox = t }) input rc a c
  unfolding read_context audience_for_context read_channel route_for
  outbox-Reads db t input rc a c h = h

  -- The insert of a draft with an input that is there.
  insert-known :
      (new : Draft) (db : Db) (d : Draft)
      → count_rows (λ o. str_eq o.id new.id) db.outbox ≡ 0
      → find_row (same_input new) db.outbox ≡ some d
      → insert_draft digest tasks new db
        ≡ ok (record { draft = redact_draft tasks db d; duplicate = true }, db)
  unfolding insert_draft
  insert-known new db d n e = rw n (rw (e, insert_draft) refl)

  insert-inv :
      (new : Draft) (db : Db) (r : Drafted) (db' : Db)
      → insert_draft digest tasks new db ≡ ok (r, db')
      → ((find_row (same_input new) db.outbox ≡ none)
          × (r.draft ≡ new)
          × (db' ≡ record db { outbox = db.outbox ++ new ∷ [] }))
        ⊎ ((d : Draft) × (find_row (same_input new) db.outbox ≡ some d)
            × (r.draft ≡ redact_draft tasks db d)
            × (db' ≡ db))
  unfolding insert_draft
  insert-inv new db r db' h = elim (Option-cases (find_row (same_input new) db.outbox)) [
    | inl n ↦
        let (e, same) : (r ≡ record { draft = new; duplicate = false })
            × (db' ≡ record db { outbox = db.outbox ++ new ∷ [] }) =
          ground arith in
        inl (n, rw e refl, same)
    | inr (d, k) ↦
        let (e, same) : (r ≡ record { draft = redact_draft tasks db d; duplicate = true })
            × (db' ≡ db) =
          ground arith in
        inr (d, k, rw e refl, same)
  ]

  own_draft : (db : Db) (d : Draft) → d.job_id ≡ "" → redact_draft tasks db d ≡ d
  unfolding redact_draft
  own_draft db d e = rw e refl

  found-new :
      (new again : Draft) (t : List Draft)
      → again.route_id ≡ new.route_id
      → again.input_digest ≡ new.input_digest
      → find_row (same_input new) t ≡ none
      → find_row (same_input again) (t ++ new ∷ []) ≡ some new
  unfolding find_row
  found-new new again t p q n =
      rw (p, q)
        (find_row-append (same_input new) t (new ∷ [])
          ∙ rw n (rw (eq_refl new.route_id, eq_refl new.input_digest) refl))

  insert-again :
      (new again : Draft) (db : Db) (r : Drafted) (db' : Db)
      → new.job_id ≡ ""
      → again.route_id ≡ new.route_id
      → again.input_digest ≡ new.input_digest
      → count_rows (λ o. str_eq o.id again.id) db'.outbox ≡ 0
      → insert_draft digest tasks new db ≡ ok (r, db')
      → insert_draft digest tasks again db' ≡ ok (record { draft = r.draft; duplicate = true }, db')
  insert-again new again db r db' own p q n h = elim (insert-inv new db r db' h) [
    | inl (free, e, same) ↦
        let found : find_row (same_input again) db'.outbox ≡ some new =
          ap (λ (x : Db). find_row (same_input again) x.outbox) same
          ∙ found-new new again db.outbox p q free in
        insert-known again db' new n found
        ∙ ap (λ (x : Draft). ok (record { draft = x; duplicate = true }, db'))
            (own_draft db' new own ∙ sym e)
    | inr (d, k, e, same) ↦
        let found : find_row (same_input again) db'.outbox ≡ some d = rw (same, p, q) k in
        insert-known again db' d n found
        ∙ ap (λ (x : Draft). ok (record { draft = x; duplicate = true }, db'))
            (ap (λ (y : Db). redact_draft tasks y d) same ∙ sym e)
  ]

  created-draft :
      (clock afterwards : Clock) (id again : String) (rc : RequestContext) (a : Audience)
      (c : Channel) (input : DraftInput)
      → let first = new_draft digest clock id rc a c input in
        let second = new_draft digest afterwards again rc a c input in
        (first.job_id ≡ "")
        × (second.route_id ≡ first.route_id)
        × (second.input_digest ≡ first.input_digest)
        × (second.id ≡ again)
  unfolding new_draft draft_body
  created-draft clock afterwards id again rc a c input = (refl, refl, refl, refl)

  later-Reads :
      (clock : Clock) (id : String) (input : DraftInput) (db : Db) (r : Drafted) (db' : Db)
      (rc : RequestContext) (a : Audience) (c : Channel)
      → create_draft digest tasks clock id input db ≡ ok (r, db')
      → Reads db input rc a c
      → Reads db' input rc a c
  later-Reads clock id input db r db' rc a c h k =
      elim (create_draft-Inserted digest tasks clock id input db r db' h) [
        | inl (d, same, _, _) ↦ subst (λ (x : Db). Reads x input rc a c) (sym same) k
        | inr (d, _, _, _, same, _, _) ↦
            subst (λ (x : Db). Reads x input rc a c) (sym same)
              (outbox-Reads db (db.outbox ++ d ∷ []) input rc a c k)
      ]

  -- Drafting the same text again from the same context, at any other time and under an id that is
  -- free, is refused as denied if the context has expired by then, and else answers with the first
  -- draft as a duplicate and leaves the store as the first call left it.
  pub create_draft-again :
      (clock afterwards : Clock) (id again : String) (input : DraftInput) (rc : RequestContext)
      (db : Db) (r : Drafted) (db' : Db)
      → create_draft digest tasks clock id input db ≡ ok (r, db')
      → read_context db input.context_id ≡ ok rc
      → count_rows (λ o. str_eq o.id again) db'.outbox ≡ 0
      → create_draft digest tasks afterwards again input db' ≡ (
          if str_lt rc.expires_at (now afterwards)
          then err denied
          else ok (record { draft = r.draft; duplicate = true }, db'))
  create_draft-again clock afterwards id again input rc db r db' h asked fresh =
      let (rc', a, c, (read, audience, row)) = create_draft-Reads clock id input db r db' h in
      let same : ok rc' ≡ ok rc = sym read ∙ asked in
      let same : rc' ≡ rc = ground arith in
      let reads : Reads db input rc a c =
        subst (λ x. Reads db input x a c) same (read, audience, row) in
      let first = create_draft-inserted clock id input db r db' rc a c h reads in
      let (own, p, q, key) = created-draft clock afterwards id again rc a c input in
      create_draft-insert clock afterwards id again input db db' r db' rc a c h reads
        (later-Reads clock id input db r db' rc a c h reads)
      ∙ ap (λ x. if str_lt rc.expires_at (now afterwards) then err denied else x)
          (insert-again (new_draft digest clock id rc a c input)
            (new_draft digest afterwards again rc a c input) db r db' own p q
            (subst (λ x. count_rows (λ o. str_eq o.id x) db'.outbox ≡ 0) (sym key) fresh) first)
