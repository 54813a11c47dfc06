-- ===== src/Base/Counts.antt =====
-- How many rows satisfy a test, before and after an update.
use Prim.Native.Nat.{◌+◌, ◌≤◌}
use mathlib.Core.Path.{◌≡◌, refl, ◌∙◌}
use mathlib.Core.Logic.{◌⊎◌, inl, inr}
use mathlib.Core.Bool.{Bool, true, false, ◌&&◌}
use mathlib.Core.Option.{none, some}
use mathlib.Core.List.{List, [], ◌∷◌}
use native.Mathlib.Omega.{arith}
use memgov.Base.Tests.{Bool-cases, Option-cases, if◌then◌else◌}
use memgov.Base.Table.{
  find_row, count_rows, update_rows, insert_ignore, upsert_row, find_row-append,
}

module _ {ℓ} {A : Type ℓ} (p q : A → Bool) (f : A → A) where
  -- An update whose rows satisfy the test afterwards counts at least as many.
  pub count_rows-update_le :
      (t : List A)
      → ((r : A) → p r ≡ true → p (f r) ≡ true)
      → count_rows p t ≤ count_rows p (update_rows q f t)
  unfolding count_rows update_rows
  count_rows-update_le [] k = omega arith
  count_rows-update_le (r ∷ t) k = ground (arith, count_rows-update_le t k, k r)

  -- An update of rows that do not satisfy the test, so that they do, adds their number.
  pub count_rows-update_more :
      (t : List A)
      → ((r : A) → p r ≡ true → p (f r) ≡ true)
      → ((r : A) → q r ≡ true → (p r ≡ false) × (p (f r) ≡ true))
      → count_rows p t + count_rows q t ≤ count_rows p (update_rows q f t)
  unfolding count_rows update_rows
  count_rows-update_more [] k m = omega arith
  count_rows-update_more (r ∷ t) k m = ground (arith, count_rows-update_more t k m, m r, k r)

  -- An update whose rows satisfy the test only if they did before counts no more.
  pub count_rows-update_fewer :
      (t : List A)
      → ((r : A) → q r ≡ true → p (f r) ≡ true → p r ≡ true)
      → count_rows p (update_rows q f t) ≤ count_rows p t
  unfolding count_rows update_rows
  count_rows-update_fewer [] k = omega arith
  count_rows-update_fewer (r ∷ t) k =
      ground (arith, count_rows-update_fewer t k, k r, Bool-cases (p (f r)))

  -- One that takes rows out of those that satisfy the test takes away their number.
  pub count_rows-update_less :
      (t : List A)
      → ((r : A) → q r ≡ true → (p r ≡ true) × (p (f r) ≡ false))
      → count_rows p (update_rows q f t) + count_rows q t ≤ count_rows p t
  unfolding count_rows update_rows
  count_rows-update_less [] m = omega arith
  count_rows-update_less (r ∷ t) m =
      ground (arith, count_rows-update_less t m, m r, Bool-cases (p (f r)))

  pub count_rows-update_eq :
      (t : List A) → ((r : A) → p (f r) ≡ p r) → count_rows p (update_rows q f t) ≡ count_rows p t
  unfolding count_rows update_rows
  count_rows-update_eq [] k = refl
  count_rows-update_eq (r ∷ t) k = ground (arith, count_rows-update_eq t k, k r)

  -- A row that is found and satisfies another test is counted there.
  pub count_rows-found :
      (t : List A) (r : A) → find_row p t ≡ some r → q r ≡ true → 1 ≤ count_rows q t
  unfolding count_rows find_row
  count_rows-found [] r h k = cc
  count_rows-found (x ∷ t) r h k = ground (arith, count_rows-found t r)

  -- Fewer rows satisfy the stronger test.
  pub count_rows-weaken :
      (t : List A) → ((r : A) → p r ≡ true → q r ≡ true) → count_rows p t ≤ count_rows q t
  unfolding count_rows
  count_rows-weaken [] k = omega arith
  count_rows-weaken (r ∷ t) k = ground (arith, count_rows-weaken t k, k r)

module _ {ℓ} {A : Type ℓ} (p : A → Bool) (f : A → A) where
  -- An update that takes all rows out of those that satisfy the test leaves none.
  pub count_rows-update_none :
      (t : List A) → ((r : A) → p (f r) ≡ false) → count_rows p (update_rows p f t) ≡ 0
  unfolding count_rows update_rows
  count_rows-update_none [] h = refl
  count_rows-update_none (r ∷ t) h =
      ground (arith, h r, count_rows-update_none t h, Bool-cases (p r))

module _ {ℓ} {A : Type ℓ} (p q : A → Bool) (new : A) where
  -- A row that is found after an INSERT OR IGNORE, and was not before it, is the new one.
  pub find_row-insert_ignore :
      (t : List A)
      → find_row q t ≡ none
      → (find_row q (insert_ignore p new t) ≡ none)
        ⊎ (find_row q (insert_ignore p new t) ≡ some new)
  unfolding insert_ignore
  find_row-insert_ignore t n = elim (Option-cases (find_row p t)) [
    | inr (r, e) ↦ inl (rw (e, insert_ignore) n)
    | inl e ↦ elim (Bool-cases (q new)) [
      | inl k ↦
          inr
            (rw (e, insert_ignore) (find_row-append q t (new ∷ []) ∙ rw n (rw (k, find_row) refl)))
      | inr k ↦
          inl
            (rw (e, insert_ignore) (find_row-append q t (new ∷ []) ∙ rw n (rw (k, find_row) refl)))
    ]
  ]

-- The key of a row, under a unique index.
module _ {ℓ} {A : Type ℓ} (p : A → Bool) where
  -- Where one row has the key, it alone decides whether a test with the key counts a row.
  pub count_rows-key :
      (q : A → Bool) (t : List A)
      → count_rows p t ≤ 1
      → count_rows (λ r. p r && q r) t
        ≡ elim (find_row p t) [ none ↦ 0 | some r ↦ if q r then 1 else 0 ]
  unfolding count_rows find_row
  count_rows-key q [] h = refl
  count_rows-key q (r ∷ t) h = ground (
    arith,
    count_rows-key q t,
    count_rows-weaken (λ x. p x && q x) p (λ x. x) t (λ x k. ground arith),
  )

  -- An upsert that keeps the key adds a row only where none has it.
  pub count_rows-upsert :
      (new : A) (f : A → A) (t : List A)
      → p new ≡ true
      → ((r : A) → p r ≡ true → p (f r) ≡ true)
      → count_rows p t ≤ 1
      → count_rows p (upsert_row p new f t) ≤ 1
  unfolding count_rows upsert_row
  count_rows-upsert new f [] n k h = rw n (omega arith)
  count_rows-upsert new f (r ∷ t) n k h = ground (arith, k r, count_rows-upsert new f t n k)

  pub count_rows-upsert_other :
      (q : A → Bool) (new : A) (f : A → A) (t : List A)
      → q new ≡ false
      → ((r : A) → p r ≡ true → (q r ≡ false) × (q (f r) ≡ false))
      → count_rows q (upsert_row p new f t) ≡ count_rows q t
  unfolding count_rows upsert_row
  count_rows-upsert_other q new f [] n d = rw n refl
  count_rows-upsert_other q new f (r ∷ t) n d =
      ground (arith, d r, count_rows-upsert_other q new f t n d)
