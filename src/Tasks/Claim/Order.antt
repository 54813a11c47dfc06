-- ===== src/Tasks/Claim/Order.antt =====
-- core/runtime.go: ClaimRuntimeTask's ORDER BY: the first of the tasks that may be claimed.
use memgov.Base.{
  ◌≡◌, refl, subst, String, Bool, true, false, ◌&&◌, ◌||◌, none, some, List, [], ◌∷◌, str_eq,
  str_lt, eq_iff, arith, inl, inr, Bool-cases, Option-cases, Any, All, le_trans, le_antisymm,
  lt_irrefl, Lt-Le,
}
use memgov.Schema.{Db}
use memgov.Schema.Tasks.{Task}
use memgov.Tasks.Claim.{turn, comes_before, first_of}

-- One key of the order, followed by the next ones: that nothing comes before is transitive.
key_trans :
    (x y z : String) (p q r : Bool)
    → (p ≡ false → q ≡ false → r ≡ false)
    → (str_lt x y || (str_eq x y && p)) ≡ false
    → (str_lt y z || (str_eq y z && q)) ≡ false
    → (str_lt x z || (str_eq x z && r)) ≡ false
key_trans x y z p q r next a b =
    ground (
      arith,
      next,
      le_trans z y x,
      le_antisymm y x,
      eq_iff x y,
      eq_iff y z,
      eq_iff x z,
      lt_irrefl x,
    )

comes_before_trans :
    (db : Db) (a b c : Task)
    → comes_before db a b ≡ false
    → comes_before db b c ≡ false
    → comes_before db a c ≡ false
unfolding comes_before
comes_before_trans db a b c =
    key_trans (turn db a) (turn db b) (turn db c) _ _ _
      (key_trans a.updated_at b.updated_at c.updated_at _ _ _ (λ p q. le_trans c.id b.id a.id q p))

comes_before_irrefl : (db : Db) (a : Task) → comes_before db a a ≡ false
unfolding comes_before
comes_before_irrefl db a =
    ground (arith, lt_irrefl (turn db a), lt_irrefl a.updated_at, lt_irrefl a.id)

key_asymm :
    (x y : String) (p q : Bool)
    → (p ≡ true → q ≡ false)
    → (str_lt x y || (str_eq x y && p)) ≡ true
    → (str_lt y x || (str_eq y x && q)) ≡ false
key_asymm x y p q next a = ground (arith, next, Lt-Le x y, lt_irrefl x, eq_iff x y, eq_iff y x)

comes_before-asymm :
    (db : Db) (a b : Task) → comes_before db a b ≡ true → comes_before db b a ≡ false
unfolding comes_before
comes_before-asymm db a b =
    key_asymm (turn db a) (turn db b) _ _
      (key_asymm a.updated_at b.updated_at _ _ (Lt-Le a.id b.id))

-- No task of the list comes before this one.
abbrev pub NoneBefore : Db → Task → List Task → Type 0
NoneBefore db t = All (λ u. comes_before db u t ≡ false)

NoneBefore-trans :
    (db : Db) (t u : Task) (ts : List Task)
    → comes_before db u t ≡ false
    → NoneBefore db u ts
    → NoneBefore db t ts
NoneBefore-trans db t u [] h all = tt
NoneBefore-trans db t u (v ∷ ts) h all =
    (comes_before_trans db v u t all.0 h, NoneBefore-trans db t u ts h all.1)

pub first_of-some :
    (db : Db) (ts : List Task) (u : Task)
    → Any (λ v. v ≡ u) ts
    → (t : Task) × (first_of db ts ≡ some t)
unfolding first_of
first_of-some db [] u m = absurd m
first_of-some db (v ∷ ts) u m = elim (Option-cases (first_of db ts)) [
  | inl n ↦ (v, rw n refl)
  | inr (w, n) ↦ elim (Bool-cases (comes_before db w v)) [
    | inl y ↦ (w, rw (n, y) refl)
    | inr k ↦ (v, rw (n, k) refl)
  ]
]

first_of-none : (db : Db) (ts : List Task) (t : Task) → first_of db ts ≡ none → NoneBefore db t ts
first_of-none db [] t h = tt
first_of-none db (v ∷ ts) t h =
    absurd (let (u, e) = first_of-some db (v ∷ ts) v (inl refl) in let k : ⊥ = cc in k)

-- A member of the list that no other comes before.
abbrev pub IsFirst : Db → List Task → Task → Type 0
IsFirst db ts t = Any (λ u. u ≡ t) ts × NoneBefore db t ts

pub first_of-IsFirst :
    (db : Db) (ts : List Task) (t : Task) → first_of db ts ≡ some t → IsFirst db ts t
unfolding first_of
first_of-IsFirst db [] t h = cc
first_of-IsFirst db (v ∷ ts) t h = elim (Option-cases (first_of db ts)) [
  | inl n ↦
      let e : some v ≡ some t = rw n at h in
      subst (IsFirst db (v ∷ ts)) (cc e)
        (inl refl, (comes_before_irrefl db v, first_of-none db ts v n))
  | inr (u, n) ↦
      let (member, none_before) = first_of-IsFirst db ts u n in
      elim (Bool-cases (comes_before db u v)) [
        | inl y ↦
            let e : some u ≡ some t = rw (n, y) at h in
            subst (IsFirst db (v ∷ ts)) (cc e)
              (inr member, (comes_before-asymm db u v y, none_before))
        | inr k ↦
            let e : some v ≡ some t = rw (n, k) at h in
            subst (IsFirst db (v ∷ ts)) (cc e)
              (inl refl, (comes_before_irrefl db v, NoneBefore-trans db v u ts k none_before))
      ]
]
