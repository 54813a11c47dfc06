-- ===== src/Intake/People.antt =====
-- core/message.go: what looking the sender up may add.
use memgov.Base.{
  ◌≤◌, ◌≡◌, String, Bool, List, [], ◌∷◌, ok, Clock, find_row, ltb, count_rows, insert_ignore,
  str_eq, Option-cases, inl, inr, fail_if-elim, ok-state, invalid_input, internal, arith,
}
use memgov.Base.Table.{count_rows-append}
use memgov.Schema.{Db}
use memgov.Schema.Drafts.{Sender}
use memgov.Schema.People.{Principal, IdentityAlias}
use memgov.Identity.{
  Person, principal_for, add_principal, is_alias, is_principal, is_verified_alias,
}

-- PrincipalFor adds principals and aliases only.
pub record Met (db db' : Db) : Type 0 where
  pub principals : List Principal
  pub aliases : List IdentityAlias
  pub more :
      (tenant : String) (s : Sender)
      → count_rows (is_verified_alias tenant s) db.identity_aliases
        ≤ count_rows (is_verified_alias tenant s) aliases
  pub same : db' ≡ record db { principals = principals; identity_aliases = aliases }

nobody-Met : (db db' : Db) → db' ≡ db → Met db db'
nobody-Met db db' e = record {
  principals = db.principals;
  aliases = db.identity_aliases;
  more = λ t s. omega arith;
  same = e;
}

insert_more {ℓ} :
    {A : Type ℓ} (p q : A → Bool) (new : A) (t : List A)
    → count_rows q t ≤ count_rows q (insert_ignore p new t)
unfolding insert_ignore
insert_more p q new t = elim (Option-cases (find_row p t)) [
  | inr (r, e) ↦ rw (e, insert_ignore) (omega arith)
  | inl e ↦ rw (e, insert_ignore) (let k = count_rows-append q t (new ∷ []) in omega (arith, k))
]

pub principal_for-Met :
    (clock : Clock) (new_id tenant : String) (s : Sender) (db : Db) (p : Person) (db' : Db)
    → principal_for clock new_id tenant s db ≡ ok (p, db')
    → Met db db'
unfolding principal_for add_principal
principal_for-Met clock new_id tenant s db p db' h =
    fail_if-elim (str_eq tenant "") invalid_input _ h λ _ h.
      elim (Option-cases (find_row (is_verified_alias tenant s) db.identity_aliases)) [
        | inr (a, e) ↦ nobody-Met db db' (ok-state (rw e at h))
        | inl e ↦ elim (Option-cases (find_row (is_principal tenant s) db.principals)) [
          | inr (q, k) ↦ nobody-Met db db' (ok-state (rw (e, k) at h))
          | inl k ↦
              fail_if-elim
                (ltb 0 (count_rows (λ (p : Principal). str_eq p.id new_id) db.principals)) internal
                _ (rw (e, k) at h)
                λ _ h. record {
                  principals = _;
                  aliases = _;
                  more = λ t o.
                      insert_more (is_alias tenant s) (is_verified_alias t o) _ db.identity_aliases;
                  same = ok-state h;
                }
        ]
      ]
