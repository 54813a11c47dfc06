-- ===== src/Identity/Who.antt =====
-- core/message.go: whom an identifier names, and what PrincipalFor adds.
use memgov.Base.{
  find_row-insert_ignore, ◌≡◌, ◌≢◌, refl, sym, ap, ◌∙◌, subst, String, not, Option, none, some, [],
  ◌∷◌, ok, find_row, eq_iff, eq_refl, arith, Clock, now, ◌⊎◌, Option-cases, inl, inr, if◌then◌else◌,
}
use memgov.Base.Table.{find_row-append}
use memgov.Schema.{Db}
use memgov.Schema.Drafts.{Sender}
use memgov.Schema.People.{Principal, IdentityAlias}
use memgov.Identity.{
  Person, is_alias, is_verified_alias, is_principal, is_weak, add_principal, new_alias,
  principal_for,
}

-- Whom an identifier stands for: by a verified alias, else as a principal's own.
abbrev pub answer : Option IdentityAlias → Option Principal → Option String
answer (some a) p = some a.principal_id
answer none (some p) = some p.id
answer none none = none

abbrev pub who : String → Sender → Db → Option String
who tenant s db =
    answer (find_row (is_verified_alias tenant s) db.identity_aliases)
      (find_row (is_principal tenant s) db.principals)

-- A known identifier is answered from the store, which stays.
pub principal_for-known :
    (clock : Clock) (new_id tenant : String) (s : Sender) (db : Db) (id : String)
    → tenant ≢ ""
    → who tenant s db ≡ some id
    → principal_for clock new_id tenant s db ≡ ok (record { id = id; weak = is_weak s }, db)
unfolding principal_for
principal_for-known clock new_id tenant s db id named h = ground (arith, eq_iff tenant "")

added-principal :
    (clock : Clock) (id tenant : String) (s : Sender) (db : Db)
    → find_row (is_principal tenant s) db.principals ≡ none
    → (p : Principal) × (p.id ≡ id)
      × (find_row (is_principal tenant s) (add_principal clock id tenant s db).principals ≡ some p)
unfolding add_principal is_principal find_row
added-principal clock id tenant s db n =
    let p : Principal = record {
      id = id;
      tenant = tenant;
      id_type = s.id_type;
      id_value = s.id_value;
      created_at = now clock;
    } in
    (
      p,
      refl,
      find_row-append (is_principal tenant s) db.principals (p ∷ [])
          ∙ rw n (rw (eq_refl tenant, eq_refl s.id_type, eq_refl s.id_value) refl),
    )

-- The alias that a new principal gets is verified unless the identifier is weak.
added-alias :
    (clock : Clock) (id tenant : String) (s : Sender) (db : Db)
    → find_row (is_verified_alias tenant s) db.identity_aliases ≡ none
    → let found =
        find_row
          (is_verified_alias tenant s)
          (add_principal clock id tenant s db).identity_aliases in
      (found ≡ none) ⊎ ((a : IdentityAlias) × (found ≡ some a) × (a.principal_id ≡ id))
unfolding add_principal new_alias
added-alias clock id tenant s db n =
    elim (find_row-insert_ignore (is_alias tenant s) (is_verified_alias tenant s)
      (new_alias clock tenant s id (if is_weak s then "unresolved" else "platform_event")
        (not (is_weak s)))
      db.identity_aliases n) [ inl e ↦ inl e | inr e ↦ inr (_, e, refl) ]

added-who :
    (clock : Clock) (id tenant : String) (s : Sender) (db : Db)
    → find_row (is_verified_alias tenant s) db.identity_aliases ≡ none
    → find_row (is_principal tenant s) db.principals ≡ none
    → who tenant s (add_principal clock id tenant s db) ≡ some id
added-who clock id tenant s db n m =
    let (p, own, found) = added-principal clock id tenant s db m in
    elim (added-alias clock id tenant s db n) [
      | inl e ↦ rw (e, found) (ap some own)
      | inr (a, e, k) ↦ rw e (ap some k)
    ]

-- What is answered is whom the identifier stands for from then on.
pub principal_for-who :
    (clock : Clock) (new_id tenant : String) (s : Sender) (db : Db) (p : Person) (db' : Db)
    → principal_for clock new_id tenant s db ≡ ok (p, db')
    → (who tenant s db' ≡ some p.id) × (p.weak ≡ is_weak s) × (tenant ≢ "")
unfolding principal_for
principal_for-who clock new_id tenant s db p db' h =
    let named : tenant ≢ "" = ground (arith, eq_iff tenant "") in
    elim (Option-cases (find_row (is_verified_alias tenant s) db.identity_aliases)) [
      | inr (a, e) ↦
          let (same, q) : (db' ≡ db) × (p ≡ record { id = a.principal_id; weak = is_weak s }) =
            ground arith in
          (
            subst (λ (x : Db). who tenant s x ≡ some p.id) (sym same) (rw e (rw q refl)),
            rw q refl,
            named,
          )
      | inl n ↦ elim (Option-cases (find_row (is_principal tenant s) db.principals)) [
        | inr (q, e) ↦
            let (same, k) : (db' ≡ db) × (p ≡ record { id = q.id; weak = is_weak s }) =
              ground arith in
            (
              subst (λ (x : Db). who tenant s x ≡ some p.id) (sym same) (rw (n, e) (rw k refl)),
              rw k refl,
              named,
            )
        | inl m ↦
            let (same, k) : (db' ≡ add_principal clock new_id tenant s db)
                × (p ≡ record { id = new_id; weak = is_weak s }) =
              ground arith in
            (
              subst (λ (x : Db). who tenant s x ≡ some p.id) (sym same)
                  (rw k (added-who clock new_id tenant s db n m)),
              rw k refl,
              named,
            )
      ]
    ]
