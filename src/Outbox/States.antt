-- ===== src/Outbox/States.antt =====
-- The outbox over any history of calls: the states of a draft, and what it says.
use memgov.Base.{
  ℕ, ◌≡◌, refl, sym, ap, ◌∙◌, subst, String, Bool, true, some, List, [], ◌∷◌, ◌++◌, find_row,
  contains, inl, inr, after-elim, Bool-cases, if◌then◌else◌,
}
use memgov.Base.Table.{find_row-update, find_row-append}
use memgov.Schema.{Db}
use memgov.Schema.Drafts.{Draft}
use memgov.Channel.Routes.{update_route}
use memgov.Channel.Routes.Stale.{
  update_route-inv, mark_stale-state, mark_stale-message, stale-pending,
}
use memgov.Outbox.{TaskView, Json}
use memgov.Outbox.Drafts.{create_draft}
use memgov.Outbox.Drafts.Results.{create_draft-Inserted}
use memgov.Outbox.Dispatch.{
  authorize_dispatch, record_delivery, cancel_draft, reconcile, begin_delivery, finish_delivery,
  is_row,
}
use memgov.Outbox.Dispatch.Results.{authorize_dispatch-inv, begin_delivery-inv}
use memgov.Outbox.Dispatch.Moves.{
  Edge, stay, outdate, SameMessage, Moved, record_delivery-Moved, cancel_draft-Moved,
  reconcile-Moved, finish_delivery-Moved, authorize-Moved, begin-Moved,
}
use memgov.Outbox.Dispatch.Settled.{settled, settled_edge}
use memgov.Outbox.Redaction.{redact_drafts, redacted, redact_drafts-found}
use memgov.Outbox.History.{
  Call, create, dispatch, deliver, cancel, conclude, begin, finish, change_route, redact, step, run,
}

-- The row of the id is there, its message is the same and its state has moved along an edge.
abbrev pub Kept : String → Draft → Db → Type 0
Kept id d db' =
    (e : Draft) × (find_row (is_row id) db'.outbox ≡ some e)
    × SameMessage d e
    × Edge d.state e.state

Moved-Kept :
    (db db' : Db) (id : String) (d : Draft)
    → find_row (is_row id) db.outbox ≡ some d
    → Moved db db'
    → Kept id d db'
Moved-Kept db db' id d h (q, f, same, edge, e) =
    let found : find_row (is_row id) db'.outbox ≡ some (if q d then f d else d) =
      ap (λ t. find_row (is_row id) t) e
      ∙ find_row-update (is_row id) q f db.outbox (λ r. rw ((same r).0))
      ∙ rw h refl in
    elim (Bool-cases (q d)) [
      | inl k ↦ (f d, rw k at found, same d, edge id d h k)
      | inr k ↦ (d, rw k at found, (refl, refl, refl, refl, refl, refl, refl, refl, refl), stay)
    ]

same-Kept :
    (db : Db) (id : String) (d : Draft) → find_row (is_row id) db.outbox ≡ some d → Kept id d db
same-Kept db id d h = (d, h, (refl, refl, refl, refl, refl, refl, refl, refl, refl), stay)

added-Kept :
    (db db' : Db) (new : Draft) (id : String) (d : Draft)
    → db'.outbox ≡ db.outbox ++ new ∷ []
    → find_row (is_row id) db.outbox ≡ some d
    → Kept id d db'
added-Kept db db' new id d e h = same-Kept db' id d (
    ap (λ t. find_row (is_row id) t) e
    ∙ find_row-append (is_row id) db.outbox (new ∷ [])
    ∙ rw h refl)

-- What a call does to a content: the redaction rewrites it, every other call leaves it.
unfoldable pub rewritten : Call → String → String
rewritten (redact f) content = redacted f content
rewritten (create clock id input) content = content
rewritten (dispatch clock attempt_id id expected) content = content
rewritten (deliver clock id state receipt detail) content = content
rewritten (cancel clock id reason) content = content
rewritten (conclude clock id outcome receipt evidence) content = content
rewritten (begin clock attempt_id id) content = content
rewritten (finish clock id attempt state receipt) content = content
rewritten (change_route clock id expected input reason) content = content

-- The same for calls one after the other.
unfoldable pub all_rewritten : List Call → String → String
all_rewritten [] content = content
all_rewritten (c ∷ cs) content = all_rewritten cs (rewritten c content)

module _ (digest : List (String × Json) → String) (tasks : TaskView) (json_valid : String → Bool)
    (itoa : ℕ → String) where
  -- Through any of the outbox's own calls, route changes and the redaction of stored drafts, a
  -- stored draft keeps its id, format, citations, channel, route, conversation and display digest;
  -- its content is what the redaction makes of it, and the same after every other call; and its
  -- state stays or moves along an edge of the state machine.
  pub draft_moves_along_edges :
      (db : Db) (call : Call) (id : String) (d : Draft)
      → find_row (is_row id) db.outbox ≡ some d
      → Kept id
          (record d { content = rewritten call d.content })
          (step digest tasks json_valid itoa db call)
  unfolding rewritten
  draft_moves_along_edges db (create clock key input) id d k =
      after-elim (Kept id d) db (create_draft digest tasks clock key input db) (same-Kept db id d k)
        λ r db' h. elim (create_draft-Inserted digest tasks clock key input db r db' h) [
          | inl (_, same, _, _) ↦ subst (Kept id d) (sym same) (same-Kept db id d k)
          | inr (new, _, _, _, e, _, _) ↦ added-Kept db db' new id d (ap (λ (x : Db). x.outbox) e) k
        ]
  draft_moves_along_edges db (dispatch clock attempt_id key expected) id d k =
      after-elim (Kept id d) db (authorize_dispatch tasks clock attempt_id key expected db)
        (same-Kept db id d k)
        λ r db' h.
          let (_, _, _, _, e, _) =
            authorize_dispatch-inv tasks clock attempt_id key expected db r db' h in
          Moved-Kept db db' id d k (authorize-Moved clock key db db' (ap (λ (x : Db). x.outbox) e))
  draft_moves_along_edges db (deliver clock key state receipt detail) id d k =
      after-elim (Kept id d) db (record_delivery tasks clock key state receipt detail db)
        (same-Kept db id d k)
        λ r db' h.
          Moved-Kept db db' id d k
            (record_delivery-Moved tasks clock key state receipt detail db r db' h)
  draft_moves_along_edges db (cancel clock key reason) id d k =
      after-elim (Kept id d) db (cancel_draft tasks clock key reason db) (same-Kept db id d k)
        λ r db' h. Moved-Kept db db' id d k (cancel_draft-Moved tasks clock key reason db r db' h)
  draft_moves_along_edges db (conclude clock key outcome receipt evidence) id d k =
      after-elim (Kept id d) db (reconcile tasks clock key outcome receipt evidence db)
        (same-Kept db id d k)
        λ r db' h.
          Moved-Kept db db' id d k
            (reconcile-Moved tasks clock key outcome receipt evidence db r db' h)
  draft_moves_along_edges db (begin clock attempt_id key) id d k =
      after-elim (Kept id d) db (begin_delivery tasks clock attempt_id key db) (same-Kept db id d k)
        λ r db' h.
          let (_, outbox, _) = begin_delivery-inv tasks clock attempt_id key db r db' h in
          Moved-Kept db db' id d k (begin-Moved clock key db db' outbox)
  draft_moves_along_edges db (finish clock key attempt state receipt) id d k =
      after-elim (Kept id d) db (finish_delivery clock key attempt state receipt db)
        (same-Kept db id d k)
        λ r db' h.
          Moved-Kept db db' id d k
            (finish_delivery-Moved clock key attempt state receipt db r db' h)
  draft_moves_along_edges db (change_route clock key expected input reason) id d k =
      after-elim (Kept id d) db (update_route json_valid itoa clock key expected input reason db)
        (same-Kept db id d k)
        λ r db' h.
          let (_, _, _, _, e) =
            update_route-inv json_valid itoa clock key expected input reason db r db' h in
          Moved-Kept db db' id d k (
            _,
            _,
            mark_stale-message itoa clock r.version,
            λ x y _ pending.
                subst (λ s. Edge y.state s) (sym (mark_stale-state itoa clock r.version y))
                  (outdate (stale-pending key y pending)),
            ap (λ (x : Db). x.outbox) e,
          )
  draft_moves_along_edges db (redact f) id d k =
      same-Kept (redact_drafts f db) id (record d { content = redacted f d.content })
        (redact_drafts-found f db id d k)

  -- A draft that was accepted, refused or cancelled, or ended as `unknown`, keeps that state
  -- through any further sequence of the outbox's own calls, route changes and redactions of stored
  -- drafts, and its content is what the redactions among them make of it, one after the other.
  pub settled_for_good :
      (db : Db) (calls : List Call) (id : String) (d : Draft)
      → find_row (is_row id) db.outbox ≡ some d
      → contains settled d.state ≡ true
      → (e : Draft) × (find_row (is_row id) (run digest tasks json_valid itoa db calls).outbox
          ≡ some e)
        × (e.state ≡ d.state)
        × (e.content ≡ all_rewritten calls d.content)
  unfolding run all_rewritten
  settled_for_good db [] id d h k = (d, h, refl, refl)
  settled_for_good db (c ∷ cs) id d h k =
      let (d', h', same, edge) = draft_moves_along_edges db c id d h in
      let state : d'.state ≡ d.state = settled_edge edge k in
      let k' : contains settled d'.state ≡ true =
        subst (λ s. contains settled s ≡ true) (sym state) k in
      let (e, found, p, q) =
        settled_for_good (step digest tasks json_valid itoa db c) cs id d' h' k' in
      (e, found, p ∙ state, q ∙ ap (all_rewritten cs) same.1)
