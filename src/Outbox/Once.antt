-- ===== src/Outbox/Once.antt =====
-- Ids of drafts, and the attempts to send them, through one change of the outbox.
use memgov.Base.{
  ◌+◌, ◌≤◌, ◌≡◌, refl, subst, String, Bool, true, false, not, ◌&&◌, List, [], ◌∷◌, ◌++◌, str_eq,
  eq_iff, arith, contains, count_rows, update_rows, inl, inr, Bool-cases, count_rows-update_le,
  count_rows-update_more, count_rows-update_eq, count_rows-weaken, if◌then◌else◌,
}
use memgov.Base.Table.{count_rows-append}
use memgov.Schema.{Db}
use memgov.Schema.Drafts.{Draft, Attempt}
use memgov.Outbox.Dispatch.{is_row, is_attempt_of}
use memgov.Outbox.Dispatch.Results.{Sends}
use memgov.Outbox.Dispatch.Marked.{Marked, SameDrafts}

-- A draft that has left the states that may be sent.
unfoldable pub is_handed : String → Draft → Bool
is_handed id d = str_eq d.id id && not (contains ("draft" ∷ "ready" ∷ []) d.state)

-- Ids are unique, and an attempt belongs to a draft that has been handed over.
abbrev pub WellFormed : Db → Type 0
WellFormed db =
    (id : String)
    → (count_rows (is_row id) db.outbox ≤ 1)
      × (count_rows (is_attempt_of id) db.delivery_attempts ≤ count_rows (is_handed id) db.outbox)

-- The number of attempts for each draft stays.
abbrev pub SameCount : Db → Db → Type 0
SameCount db db' =
    (id : String)
    → count_rows (is_attempt_of id) db'.delivery_attempts
      ≡ count_rows (is_attempt_of id) db.delivery_attempts

pub SameDrafts-SameCount :
    (db db' : Db) → SameDrafts db.delivery_attempts db'.delivery_attempts → SameCount db db'
SameDrafts-SameCount db db' (q, f, same, e) id =
    rw e (count_rows-update_eq (is_attempt_of id) q f db.delivery_attempts (λ a. rw (same a)))

pub Marked-WellFormed :
    (db db' : Db) → WellFormed db → Marked db.outbox db'.outbox → SameCount db db' → WellFormed db'
unfolding is_handed
Marked-WellFormed db db' w (q, f, same, gone, e) attempts id =
    let rows = count_rows-update_eq (is_row id) q f db.outbox (λ d. rw (same d)) in
    let handed =
      count_rows-update_le (is_handed id) q f db.outbox
        (λ d h. rw (same d, gone d) (ground arith)) in
    rw (e, attempts id) (ground (arith, w id))

module _ (db db' : Db) (id : String) (q : Draft → Bool) (f : Draft → Draft) (sends : Sends id q f)
    (a : Attempt) (own : a.outbox_id ≡ id) (outbox : db'.outbox ≡ update_rows q f db.outbox)
    (attempts : db'.delivery_attempts ≡ db.delivery_attempts ++ a ∷ [])
    (some_row : 1 ≤ count_rows q db.outbox) where
  Sends-keeps : (x : String) (d : Draft) → is_handed x d ≡ true → is_handed x (f d) ≡ true
  unfolding is_handed
  Sends-keeps x d h = let (_, same, sent) = sends in rw (same d, sent d) (ground arith)

  Sends-turns : (d : Draft) → q d ≡ true → (is_handed id d ≡ false) × (is_handed id (f d) ≡ true)
  unfolding is_handed
  Sends-turns d h =
      let (sel, same, sent) = sends in
      let (here, pending) = sel d h in
      let e : str_eq d.id id ≡ true = (eq_iff d.id id).1 here in
      (rw (pending, e) refl, rw (same d, sent d, e) refl)

  attempts-count :
      (x : String)
      → count_rows (is_attempt_of x) db'.delivery_attempts
        ≡ count_rows (is_attempt_of x) db.delivery_attempts + (if str_eq id x then 1 else 0)
  unfolding count_rows
  attempts-count x =
      rw (attempts, count_rows-append (is_attempt_of x) db.delivery_attempts (a ∷ []))
        (rw own (ground arith))

  pub Sends-WellFormed : WellFormed db → WellFormed db'
  Sends-WellFormed w x =
      let rows = count_rows-update_eq (is_row x) q f db.outbox (λ d. rw (sends.1 d)) in
      let keeps = count_rows-update_le (is_handed x) q f db.outbox (Sends-keeps x) in
      let turns =
        count_rows-update_more (is_handed id) q f db.outbox (Sends-keeps id) Sends-turns in
      let n = attempts-count x in
      elim (Bool-cases (str_eq id x)) [
        | inl e ↦
            let k : id ≡ x = (eq_iff id x).0 e in
            let more : count_rows (is_handed x) db.outbox + 1
                ≤ count_rows (is_handed x) (update_rows q f db.outbox) =
              subst
                (λ y.
                  count_rows (is_handed y) db.outbox + 1
                  ≤ count_rows (is_handed y) (update_rows q f db.outbox))
                k (omega arith) in
            rw outbox (ground (arith, w x))
        | inr e ↦ rw outbox (ground (arith, w x))
      ]

-- A new draft, with an id that no draft has, is not handed over yet.
pub Added-WellFormed :
    (db db' : Db) (d : Draft)
    → count_rows (is_row d.id) db.outbox ≡ 0
    → db'.outbox ≡ db.outbox ++ d ∷ []
    → SameCount db db'
    → WellFormed db
    → WellFormed db'
unfolding count_rows is_handed
Added-WellFormed db db' d fresh e same w id =
    let rows = count_rows-append (is_row id) db.outbox (d ∷ []) in
    let handed = count_rows-append (is_handed id) db.outbox (d ∷ []) in
    elim (Bool-cases (str_eq d.id id)) [
      | inl k ↦
          let p : d.id ≡ id = (eq_iff d.id id).0 k in
          let none_yet : count_rows (is_row id) db.outbox ≡ 0 =
            subst (λ y. count_rows (is_row y) db.outbox ≡ 0) p fresh in
          rw (e, same id) (ground (arith, w id))
      | inr k ↦ rw (e, same id) (ground (arith, w id))
    ]

pub handed_le_rows :
    (id : String) (t : List Draft) → count_rows (is_handed id) t ≤ count_rows (is_row id) t
unfolding is_handed
handed_le_rows id t = count_rows-weaken (is_handed id) (is_row id) (λ d. d) t (λ d h. ground arith)
