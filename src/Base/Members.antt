-- ===== src/Base/Members.antt =====
-- Members of a table, and what a selection has of them.
use Prim.Native.Nat.{suc, ◌≤◌}
use mathlib.Core.Path.{◌≡◌, refl, sym, ◌∙◌}
use mathlib.Core.Logic.{inl, inr}
use mathlib.Core.Bool.{Bool, true, false}
use mathlib.Core.Option.{some}
use mathlib.Core.List.{List, [], ◌∷◌}
use native.Mathlib.Omega.{arith}
use memgov.Base.Lists.{Any, All}
use memgov.Base.Tests.{Bool-cases}
use memgov.Base.Table.{find_row, count_rows, select_rows}

module _ {A : Type 0} (p : A → Bool) where
  count_rows-member : (t : List A) (r : A) → p r ≡ true → Any (λ x. x ≡ r) t → 1 ≤ count_rows p t
  unfolding count_rows
  count_rows-member [] r k m = absurd m
  count_rows-member (x ∷ t) r k (inl e) = rw (e, count_rows) (rw k (omega arith))
  count_rows-member (x ∷ t) r k (inr m) = ground (arith, count_rows-member t r k m)

  -- Under a unique key the row is the one that is found.
  pub find_row-member :
      (t : List A) (r : A)
      → count_rows p t ≤ 1
      → p r ≡ true
      → Any (λ x. x ≡ r) t
      → find_row p t ≡ some r
  unfolding find_row count_rows
  find_row-member [] r h k m = absurd m
  find_row-member (x ∷ t) r h k (inl e) = rw (e, find_row) (rw k refl)
  find_row-member (x ∷ t) r h k (inr m) = elim (Bool-cases (p x)) [
    | inr n ↦ rw (n, find_row) (find_row-member t r (rw n at h) k m)
    | inl y ↦
        absurd (
          let few : suc (count_rows p t) ≤ 1 = rw y at h in
          omega (arith, count_rows-member t r k m))
  ]

  pub select_rows-member :
      (t : List A) (r : A) → p r ≡ true → Any (λ x. x ≡ r) t → Any (λ x. x ≡ r) (select_rows p t)
  unfolding select_rows
  select_rows-member [] r k m = absurd m
  select_rows-member (x ∷ t) r k (inl e) = rw (e, select_rows) (rw k (inl refl))
  select_rows-member (x ∷ t) r k (inr m) = elim (Bool-cases (p x)) [
    | inl y ↦ rw (y, select_rows) (inr (select_rows-member t r k m))
    | inr n ↦ rw (n, select_rows) (select_rows-member t r k m)
  ]

  -- What is selected is a row that satisfies the test.
  pub select_rows-from :
      (t : List A) (r : A) → Any (λ x. x ≡ r) (select_rows p t) → (p r ≡ true) × Any (λ x. x ≡ r) t
  unfolding select_rows
  select_rows-from [] r m = absurd m
  select_rows-from (x ∷ t) r m = elim (Bool-cases (p x)) [
    | inl y ↦ elim (let k : Any (λ z. z ≡ r) (x ∷ select_rows p t) = rw y at m in k) [
      | inl e ↦ (rw (← e) y, inl e)
      | inr k ↦ (let (a, b) = select_rows-from t r k in (a, inr b))
    ]
    | inr n ↦ (let (a, b) = select_rows-from t r (rw n at m) in (a, inr b))
  ]

  -- What holds of all selected rows holds of all rows that satisfy the test.
  pub select_rows-All :
      (P : A → Type 0) (t : List A) → All P (select_rows p t) → All (λ x. p x ≡ true → P x) t
  unfolding select_rows
  select_rows-All P [] h = tt
  select_rows-All P (x ∷ t) h = elim (Bool-cases (p x)) [
    | inl y ↦
        (let (a, b) : All P (x ∷ select_rows p t) = rw y at h in (λ _. a, select_rows-All P t b))
    | inr n ↦
        ((λ y. absurd (let e : true ≡ false = sym y ∙ n in cc)), select_rows-All P t (rw n at h))
  ]
