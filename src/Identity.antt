-- ===== src/Identity.antt =====
-- core/message.go: Sender.validate, PrincipalFor and LinkIdentity: who stands behind a platform
-- identifier. NewID is an argument.
pub mod Who
pub mod Linking
pub mod Tests
use memgov.Base.{
  String, Bool, true, false, not, ◌&&◌, ◌||◌, Option, none, some, List, [], ◌∷◌, ◌++◌, Result, ok,
  err, ◌>>=◌, ◌>>◌, fail_if, invalid_input, internal, find_row, count_rows, update_rows, upsert_row,
  insert_ignore, str_eq, ltb, contains, if◌then◌else◌, Clock, now,
}
use memgov.Schema.{Db}
use memgov.Schema.Drafts.{Sender}
use memgov.Schema.People.{Principal, IdentityAlias, Message}

unfoldable pub validate : Sender → Result (Unit {0})
validate s = do
  fail_if (str_eq s.id_type "" || str_eq s.id_value "") invalid_input
  fail_if
      (not (
        contains ("union_id" ∷ "user_id" ∷ "staff_id" ∷ "open_id" ∷ "robot_code" ∷ "unknown" ∷ [])
          s.id_type))
      invalid_input
  ok tt

pub record Person : Type 0 where
  pub id : String
  pub weak : Bool

unfoldable pub is_alias : String → Sender → IdentityAlias → Bool
is_alias tenant s a =
    str_eq a.tenant tenant && str_eq a.id_type s.id_type && str_eq a.id_value s.id_value

unfoldable pub is_verified_alias : String → Sender → IdentityAlias → Bool
is_verified_alias tenant s a = is_alias tenant s a && a.verified

pub is_principal : String → Sender → Principal → Bool
is_principal tenant s p =
    str_eq p.tenant tenant && str_eq p.id_type s.id_type && str_eq p.id_value s.id_value

unfoldable pub is_weak : Sender → Bool
is_weak s = str_eq s.id_type "unknown"

pub new_alias : Clock → String → Sender → String → String → Bool → IdentityAlias
new_alias clock tenant s id basis verified = record {
  tenant = tenant;
  id_type = s.id_type;
  id_value = s.id_value;
  principal_id = id;
  basis = basis;
  verified = verified;
  created_at = now clock;
}

-- A new principal, with the identifier itself as its first alias.
unfoldable pub add_principal : Clock → String → String → Sender → Db → Db
add_principal clock id tenant s db = record db {
  principals =
      db.principals
      ++ record {
        id = id;
        tenant = tenant;
        id_type = s.id_type;
        id_value = s.id_value;
        created_at = now clock;
      }
        ∷ [];
  identity_aliases =
      insert_ignore (is_alias tenant s)
        (new_alias clock tenant s id (if is_weak s then "unresolved" else "platform_event")
          (not (is_weak s)))
        db.identity_aliases;
}

unfoldable pub principal_for : Clock → String → String → Sender → Db → Result (Person × Db)
principal_for clock new_id tenant s db = do
  fail_if (str_eq tenant "") invalid_input
  elim (find_row (is_verified_alias tenant s) db.identity_aliases) [
    | some a ↦ ok (record { id = a.principal_id; weak = is_weak s }, db)
    | none ↦ elim (find_row (is_principal tenant s) db.principals) [
      | some p ↦ ok (record { id = p.id; weak = is_weak s }, db)
      | none ↦
          fail_if (ltb 0 (count_rows (λ (p : Principal). str_eq p.id new_id) db.principals))
            internal
          >> ok (record { id = new_id; weak = is_weak s }, add_principal clock new_id tenant s db)
    ]
  ]

-- Messages of the sender, on every channel.
pub is_from : Sender → Message → Bool
is_from s m = str_eq m.sender_id_type s.id_type && str_eq m.sender_id_value s.id_value

pub reassign : String → String → Sender → Db → List Message
reassign target tenant from db = elim (find_row (is_alias tenant from) db.identity_aliases) [
  | none ↦ db.messages
  | some a ↦
      if str_eq a.principal_id target
      then db.messages
      else update_rows (is_from from) (λ m. record m { sender_principal = target }) db.messages
]

pub link_alias : Clock → String → String → Sender → String → List IdentityAlias → List IdentityAlias
link_alias clock target tenant from basis aliases =
    upsert_row (is_alias tenant from) (new_alias clock tenant from target basis true)
      (λ a. record a { principal_id = target; basis = basis; verified = true }) aliases

pub link_identity : Clock → String → String → Sender → Sender → String → Db → Result (String × Db)
link_identity clock new_id tenant from to basis db = do
  fail_if (not (contains ("platform_directory" ∷ "operator_confirmed" ∷ "same_open_id" ∷ []) basis))
      invalid_input
  found ← principal_for clock new_id tenant to db
  let target = found.0.id
  let next = found.1
  fail_if (str_eq from.id_type "" || str_eq from.id_value "") invalid_input
  ok (
    target,
    record next {
      messages = reassign target tenant from next;
      identity_aliases = link_alias clock target tenant from basis next.identity_aliases;
    },
  )
