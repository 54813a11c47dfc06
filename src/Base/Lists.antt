-- ===== src/Base/Lists.antt =====
-- Predicates on lists by recursion.
use mathlib.Core.Path.{◌≡◌, subst}
use mathlib.Core.Logic.{◌⊎◌, inl, inr}
use mathlib.Core.Bool.{Bool, true}
use mathlib.Core.List.{List, [], ◌∷◌, ◌++◌}
use Prim.Native.String.{String}
use text.Mathlib.Text.{◌==◌ as str_eq}
use text.Mathlib.TextEquality.{eq_iff}
use memgov.Base.Tests.{Bool-cases}
use memgov.Base.Strings.{contains}
use memgov.Base.Table.{update_rows}

-- Some row satisfies `P`.
abbrev pub Any : {A : Type 0} → (A → Type 0) → List A → Type 0
Any P [] = ⊥
Any P (x ∷ xs) = P x ⊎ Any P xs

-- Every row satisfies `P`.
abbrev pub All : {A : Type 0} → (A → Type 0) → List A → Type 0
All P [] = Unit
All P (x ∷ xs) = P x × All P xs

module _ {A : Type 0} (P : A → Type 0) where
  pub Any-append_left : (xs ys : List A) → Any P xs → Any P (xs ++ ys)
  Any-append_left [] ys h = absurd h
  Any-append_left (x ∷ xs) ys (inl h) = inl h
  Any-append_left (x ∷ xs) ys (inr h) = inr (Any-append_left xs ys h)

  pub Any-append_right : (xs ys : List A) → Any P ys → Any P (xs ++ ys)
  Any-append_right [] ys h = h
  Any-append_right (x ∷ xs) ys h = inr (Any-append_right xs ys h)

  -- An update that keeps the property keeps the row that has it.
  pub Any-update :
      (q : A → Bool) (f : A → A) (xs : List A)
      → ((x : A) → P x → P (f x))
      → Any P xs
      → Any P (update_rows q f xs)
  unfolding update_rows
  Any-update q f [] k h = h
  Any-update q f (x ∷ xs) k (inl h) = elim (Bool-cases (q x)) [
    | inl e ↦ inl (rw e (k x h))
    | inr e ↦ inl (rw e h)
  ]
  Any-update q f (x ∷ xs) k (inr h) = inr (Any-update q f xs k h)

  pub All-append : (xs ys : List A) → All P xs → All P ys → All P (xs ++ ys)
  All-append [] ys hx hy = hy
  All-append (x ∷ xs) ys hx hy = (hx.0, All-append xs ys hx.1 hy)

-- What holds of every word of a list holds of a word that the list contains.
pub contains-elim :
    (P : String → Type 0) (vs : List String) (s : String) → All P vs → contains vs s ≡ true → P s
contains-elim P [] s h k = cc
contains-elim P (v ∷ vs) s h k = elim (Bool-cases (str_eq v s)) [
  | inl e ↦ subst P ((eq_iff v s).0 e) h.0
  | inr e ↦ contains-elim P vs s h.1 (rw e at k)
]
