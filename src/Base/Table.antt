-- ===== src/Base/Table.antt =====
-- An SQL table is the list of its rows, oldest first.
use Prim.Native.Nat.{ℕ, suc, ◌+◌}
use mathlib.Core.Path.{◌≡◌, refl}
use mathlib.Core.Logic.{inl, inr}
use mathlib.Core.Bool.{Bool, true, false}
use mathlib.Core.Option.{Option, none, some}
use mathlib.Core.Option
use mathlib.Core.List.{List, [], ◌∷◌, ◌++◌}
use native.Mathlib.Omega.{arith}
use memgov.Base.Tests.{if◌then◌else◌, Bool-cases, ltb}

module _ {ℓ} {A : Type ℓ} where
  abbrev pub length : List A → ℕ
  length [] = 0
  length (x ∷ xs) = suc (length xs)

  -- SELECT … WHERE p LIMIT 1
  unfoldable pub find_row : (A → Bool) → List A → Option A
  find_row p [] = none
  find_row p (r ∷ t) = if p r then some r else find_row p t

  -- SELECT count(*) … WHERE p
  unfoldable pub count_rows : (A → Bool) → List A → ℕ
  count_rows p [] = 0
  count_rows p (r ∷ t) = if p r then suc (count_rows p t) else count_rows p t

  -- EXISTS (SELECT 1 … WHERE p)
  abbrev pub has_row : (A → Bool) → List A → Bool
  has_row p t = ltb 0 (count_rows p t)

  -- SELECT … WHERE p
  unfoldable pub select_rows : (A → Bool) → List A → List A
  select_rows p [] = []
  select_rows p (r ∷ t) = if p r then r ∷ select_rows p t else select_rows p t

  -- UPDATE … WHERE p
  unfoldable pub update_rows : (A → Bool) → (A → A) → List A → List A
  update_rows p f [] = []
  update_rows p f (r ∷ t) = (if p r then f r else r) ∷ update_rows p f t

  -- DELETE … WHERE p
  unfoldable pub delete_rows : (A → Bool) → List A → List A
  delete_rows p [] = []
  delete_rows p (r ∷ t) = if p r then delete_rows p t else r ∷ delete_rows p t

  -- INSERT … ON CONFLICT DO UPDATE, where `p` says which row has the new row's key.
  unfoldable pub upsert_row : (A → Bool) → A → (A → A) → List A → List A
  upsert_row p new f [] = new ∷ []
  upsert_row p new f (r ∷ t) = if p r then f r ∷ t else r ∷ upsert_row p new f t

  -- INSERT OR IGNORE
  unfoldable pub insert_ignore : (A → Bool) → A → List A → List A
  unfolding find_row
  insert_ignore p new t = elim (find_row p t) [ none ↦ t ++ new ∷ [] | some r ↦ t ]

module _ {ℓ} {A : Type ℓ} (p : A → Bool) where
  pub find_row-append :
      (t u : List A)
      → find_row p (t ++ u) ≡ elim (find_row p t) [ none ↦ find_row p u | some r ↦ some r ]
  unfolding find_row
  find_row-append [] u = refl
  find_row-append (r ∷ t) u = elim (Bool-cases (p r)) [
    | inl h ↦ rw (h, find_row) refl
    | inr h ↦ rw (h, find_row) (find_row-append t u)
  ]

  -- A found row satisfies the test.
  pub find_row-holds : (t : List A) (r : A) → find_row p t ≡ some r → p r ≡ true
  unfolding find_row
  find_row-holds [] r h = cc
  find_row-holds (x ∷ t) r h = ground (arith, find_row-holds t r)

  pub count_rows-append : (t u : List A) → count_rows p (t ++ u) ≡ count_rows p t + count_rows p u
  unfolding count_rows
  count_rows-append [] u = omega arith
  count_rows-append (r ∷ t) u = ground (arith, count_rows-append t u)

  -- An update that keeps the test's value changes the found row alone.
  pub find_row-update :
      (q : A → Bool) (f : A → A) (t : List A)
      → ((r : A) → p (f r) ≡ p r)
      → find_row p (update_rows q f t) ≡ Option.map (λ r. if q r then f r else r) (find_row p t)
  unfolding find_row update_rows
  find_row-update q f [] k = refl
  find_row-update q f (r ∷ t) k = ground (arith, k r, find_row-update q f t k)

  pub count_rows-zero : (t : List A) → find_row p t ≡ none → count_rows p t ≡ 0
  unfolding find_row count_rows
  count_rows-zero [] h = refl
  count_rows-zero (r ∷ t) h = ground (arith, count_rows-zero t)

  pub find_row-of_count : (t : List A) → count_rows p t ≡ 0 → find_row p t ≡ none
  unfolding find_row count_rows
  find_row-of_count [] h = refl
  find_row-of_count (r ∷ t) h = ground (arith, find_row-of_count t)

  -- The row under the key after an upsert.
  pub find_row-upsert :
      (new : A) (f : A → A) (t : List A)
      → p new ≡ true
      → ((r : A) → p r ≡ true → p (f r) ≡ true)
      → find_row p (upsert_row p new f t)
        ≡ elim (find_row p t) [ none ↦ some new | some r ↦ some (f r) ]
  unfolding find_row upsert_row
  find_row-upsert new f [] n k = rw n
  find_row-upsert new f (r ∷ t) n k = elim (Bool-cases (p r)) [
    | inl h ↦ rw (h, find_row) (rw (k r h) refl)
    | inr h ↦ rw (h, find_row) (rw h (find_row-upsert new f t n k))
  ]

  -- An upsert that overwrites leaves the new row under its key.
  pub find_row-overwrite :
      (new : A) (t : List A) → p new ≡ true → find_row p (upsert_row p new (λ _. new) t) ≡ some new
  unfolding find_row upsert_row
  find_row-overwrite new [] n = rw n
  find_row-overwrite new (r ∷ t) n = elim (Bool-cases (p r)) [
    | inl h ↦ rw (h, find_row) (rw n refl)
    | inr h ↦ rw (h, find_row) (rw h (find_row-overwrite new t n))
  ]

  -- Rows under other keys are not touched.
  pub find_row-upsert_other :
      (q : A → Bool) (new : A) (f : A → A) (t : List A)
      → q new ≡ false
      → ((r : A) → p r ≡ true → (q r ≡ false) × (q (f r) ≡ false))
      → find_row q (upsert_row p new f t) ≡ find_row q t
  unfolding find_row upsert_row
  find_row-upsert_other q new f [] n d = rw n
  find_row-upsert_other q new f (r ∷ t) n d = elim (Bool-cases (p r)) [
    | inl h ↦ rw (h, find_row) (rw ((d r h).0, (d r h).1) refl)
    | inr h ↦ rw (h, find_row) (rw (find_row-upsert_other q new f t n d) refl)
  ]

  -- An update of rows that are not counted, before or after it, leaves the count.
  pub count_rows-update_apart :
      (q : A → Bool) (f : A → A) (t : List A)
      → ((r : A) → q r ≡ true → (p r ≡ false) × (p (f r) ≡ false))
      → count_rows p (update_rows q f t) ≡ count_rows p t
  unfolding count_rows update_rows
  count_rows-update_apart q f [] d = refl
  count_rows-update_apart q f (r ∷ t) d = elim (Bool-cases (q r)) [
    | inl h ↦ rw h (rw ((d r h).0, (d r h).1) (count_rows-update_apart q f t d))
    | inr h ↦ rw h (rw (count_rows-update_apart q f t d) refl)
  ]
