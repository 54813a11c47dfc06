-- ===== src/Identity/Linking.antt =====
-- core/message.go: LinkIdentity, and whom the linked identifiers name.
use memgov.Base.{
  true_ne_false, ◌≡◌, ◌≢◌, refl, sym, ap, ◌∙◌, String, true, Option, some, List, [], ◌∷◌, ok,
  find_row, upsert_row, str_eq, eq_iff, eq_refl, arith, Clock, ◌⊎◌, Option-cases, Result-cases,
  Bool-cases, inl, inr,
}
use memgov.Base.Table.{find_row-upsert_other}
use memgov.Schema.{Db}
use memgov.Schema.Drafts.{Sender}
use memgov.Schema.People.{Principal, IdentityAlias}
use memgov.Identity.{
  Person, is_alias, is_verified_alias, is_principal, is_weak, add_principal, new_alias,
  principal_for, link_identity, link_alias, reassign,
}
use memgov.Identity.Who.{answer, principal_for-known, principal_for-who}

-- The link is a verified alias of the target.
linked-from :
    (clock : Clock) (target tenant : String) (from : Sender) (basis : String)
    (aliases : List IdentityAlias)
    → (a : IdentityAlias) × (find_row
          (is_verified_alias tenant from)
          (link_alias clock target tenant from basis aliases)
        ≡ some a)
      × (a.principal_id ≡ target)
unfolding link_alias is_verified_alias is_alias new_alias upsert_row find_row
linked-from clock target tenant from basis [] = (
  new_alias clock tenant from target basis true,
  rw (eq_refl tenant, eq_refl from.id_type, eq_refl from.id_value) refl,
  refl,
)
linked-from clock target tenant from basis (r ∷ t) = elim (Bool-cases (is_alias tenant from r)) [
  | inl e ↦
      let m = record r { principal_id = target; basis = basis; verified = true } in
      (m, rw e (rw e refl), refl)
  | inr e ↦
      let (a, found, k) = linked-from clock target tenant from basis t in (a, rw e (rw e found), k)
]

-- Another identifier stands for whom it stood for.
linked-other :
    (clock : Clock) (target tenant : String) (from to : Sender) (basis : String)
    (aliases : List IdentityAlias)
    → (from.id_type ≢ to.id_type) ⊎ (from.id_value ≢ to.id_value)
    → find_row (is_verified_alias tenant to) (link_alias clock target tenant from basis aliases)
      ≡ find_row (is_verified_alias tenant to) aliases
unfolding link_alias is_verified_alias is_alias new_alias
linked-other clock target tenant from to basis aliases d =
    find_row-upsert_other (is_alias tenant from) (is_verified_alias tenant to) _ _ aliases
      (ground (arith, eq_iff from.id_type to.id_type, eq_iff from.id_value to.id_value))
      λ r e. ground (
        arith,
        eq_iff r.id_type from.id_type,
        eq_iff r.id_type to.id_type,
        eq_iff r.id_value from.id_value,
        eq_iff r.id_value to.id_value,
      )

-- The linked identifier itself.
linked-who :
    (clock : Clock) (target tenant : String) (from s : Sender) (basis : String)
    (aliases : List IdentityAlias) (p : Option Principal)
    → from.id_type ≡ s.id_type
    → from.id_value ≡ s.id_value
    → answer
        (find_row (is_verified_alias tenant s) (link_alias clock target tenant from basis aliases))
        p
      ≡ some target
unfolding is_verified_alias is_alias
linked-who clock target tenant from s basis aliases p t v =
    let (a, found, own) = linked-from clock target tenant from basis aliases in
    rw (sym t, sym v) (rw found (ap some own))

-- The one that it was linked to.
linked-to :
    (clock : Clock) (target tenant : String) (from to : Sender) (basis : String)
    (aliases : List IdentityAlias) (p : Option Principal)
    → answer (find_row (is_verified_alias tenant to) aliases) p ≡ some target
    → answer
        (find_row (is_verified_alias tenant to) (link_alias clock target tenant from basis aliases))
        p
      ≡ some target
linked-to clock target tenant from to basis aliases p h =
    elim (Bool-cases (str_eq from.id_type to.id_type)) [
      | inr t ↦
          rw
            (linked-other clock target tenant from to basis aliases
              (inl (λ e. true_ne_false (sym ((eq_iff from.id_type to.id_type).1 e) ∙ t))))
            h
      | inl t ↦ elim (Bool-cases (str_eq from.id_value to.id_value)) [
        | inr v ↦
            rw
              (linked-other clock target tenant from to basis aliases
                (inr (λ e. true_ne_false (sym ((eq_iff from.id_value to.id_value).1 e) ∙ v))))
              h
        | inl v ↦
            linked-who clock target tenant from to basis aliases p ((eq_iff _ _).0 t)
              ((eq_iff _ _).0 v)
      ]
    ]

-- After LinkIdentity has linked `from` to `to`, both are answered with the same principal, the one
-- that LinkIdentity reports, and neither answer changes the store.
pub link_identity-merges :
    (clock later : Clock) (new_id other_id tenant : String) (from to : Sender) (basis : String)
    (db : Db) (target : String) (db' : Db)
    → link_identity clock new_id tenant from to basis db ≡ ok (target, db')
    → (principal_for later other_id tenant from db'
        ≡ ok (record { id = target; weak = is_weak from }, db'))
      × (principal_for later other_id tenant to db'
          ≡ ok (record { id = target; weak = is_weak to }, db'))
unfolding link_identity
link_identity-merges clock later new_id other_id tenant from to basis db target db' h =
    elim (Result-cases (principal_for clock new_id tenant to db)) [
      | inr (x, e) ↦ ground arith
      | inl ((p, next), e) ↦
          let (named_by, _, named) = principal_for-who clock new_id tenant to db p next e in
          let (same, k) : (target ≡ p.id)
              × (db' ≡ record next {
                messages = reassign p.id tenant from next;
                identity_aliases = link_alias clock p.id tenant from basis next.identity_aliases;
              }) =
            ground arith in
          rw (k, same)
            (
              principal_for-known later other_id tenant from _ p.id named
                  (linked-who clock p.id tenant from from basis next.identity_aliases _ refl refl),
              principal_for-known later other_id tenant to _ p.id named
                  (linked-to clock p.id tenant from to basis next.identity_aliases _ named_by),
            )
    ]

-- Finding a principal touches principals and aliases alone.
pub principal_for-keeps :
    (clock : Clock) (new_id tenant : String) (s : Sender) (db : Db) (p : Person) (db' : Db)
    → principal_for clock new_id tenant s db ≡ ok (p, db')
    → (db'.channel_routes ≡ db.channel_routes) × (db'.request_contexts ≡ db.request_contexts)
unfolding principal_for add_principal
principal_for-keeps clock new_id tenant s db p db' h =
    elim (Option-cases (find_row (is_verified_alias tenant s) db.identity_aliases)) [
      | inr (a, e) ↦ ground arith
      | inl n ↦ elim (Option-cases (find_row (is_principal tenant s) db.principals)) [
        | inr (q, e) ↦ ground arith
        | inl m ↦ ground arith
      ]
    ]
