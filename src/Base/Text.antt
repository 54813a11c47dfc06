-- ===== src/Base/Text.antt =====
-- Texts and their order: Go's strings and SQLite's text compare by bytes, which for UTF-8 is the
-- order of the code points.
use Prim.Native.Nat.{ℕ, ◌<◌, Ordering, compare as compare_ℕ}
use Prim.Native.Char.{Char, code}
use Prim.Native.String.{String, compare, then, ◌++◌}
use Prim.Native.String.append
use Prim.Native.String.compare
use mathlib.Core.Path.{◌≡◌, refl, ◌∙◌}
use mathlib.Core.Logic.{inl, inr}
use mathlib.Core.Bool.{Bool, true, false}
use native.Mathlib.Omega.{arith}
use text.Mathlib.Text.{is_lt}
use text.Mathlib.TextEquality.{path_by_compare}
use text.Mathlib.TextPositions.{compare_refl}
use memgov.Base.Tests.{Bool-cases}

-- Go's `s < t`.
abbrev pub str_lt : String → String → Bool
str_lt s t = is_lt (compare s t)

abbrev pub Lt : String → String → Type 0
Lt s t = str_lt s t ≡ true

-- `s <= t` is `!(t < s)`.
abbrev pub Le : String → String → Type 0
Le s t = str_lt t s ≡ false

compare_cons :
    (c d : Char) (s t : String)
    → compare (String.◌∷◌ c s) (String.◌∷◌ d t) ≡ then (compare_ℕ (code c) (code d)) (compare s t)
compare_cons c d s t = λ i. compare.cons-cons c d s t i

compare_nil-cons : (d : Char) (t : String) → compare String.[] (String.◌∷◌ d t) ≡ Ordering.lt
compare_nil-cons d t = λ i. compare.nil-cons d t i

compare_cons-nil : (c : Char) (s : String) → compare (String.◌∷◌ c s) String.[] ≡ Ordering.gt
compare_cons-nil c s = λ i. compare.cons-nil c s i

then_trans :
    (m n k : ℕ) (o p q : Ordering)
    → (is_lt o ≡ true → is_lt p ≡ true → is_lt q ≡ true)
    → is_lt (then (compare_ℕ m n) o) ≡ true
    → is_lt (then (compare_ℕ n k) p) ≡ true
    → is_lt (then (compare_ℕ m k) q) ≡ true
then_trans m n k o p q h a b = ground arith

pub lt_trans : (s t u : String) → Lt s t → Lt t u → Lt s u
lt_trans String.[] String.[] u a b = b
lt_trans String.[] (String.◌∷◌ d t) String.[] a b = rw (compare_cons-nil d t) at b
lt_trans String.[] (String.◌∷◌ d t) (String.◌∷◌ e u) a b = rw (compare_nil-cons e u)
lt_trans (String.◌∷◌ c s) String.[] u a b =
    absurd (let e : is_lt Ordering.gt ≡ true = rw (compare_cons-nil c s) at a in cc)
lt_trans (String.◌∷◌ c s) (String.◌∷◌ d t) String.[] a b =
    absurd (let e : is_lt Ordering.gt ≡ true = rw (compare_cons-nil d t) at b in cc)
lt_trans (String.◌∷◌ c s) (String.◌∷◌ d t) (String.◌∷◌ e u) a b = rw (compare_cons c e s u) (
    then_trans (code c) (code d) (code e) _ _ _ (lt_trans s t u) (rw (compare_cons c d s t) at a)
      (rw (compare_cons d e t u) at b))

pub lt_irrefl : (s : String) → str_lt s s ≡ false
lt_irrefl s = rw (compare_refl s)

pub Lt-Le : (s t : String) → Lt s t → Le s t
Lt-Le s t h = elim (Bool-cases (str_lt t s)) [
  | inl b ↦ cc (lt_trans s t s h b, lt_irrefl s)
  | inr b ↦ b
]

then_connex :
    (m n : ℕ) (o p : Ordering)
    → (is_lt o ≡ false → is_lt p ≡ false → o ≡ Ordering.eq)
    → is_lt (then (compare_ℕ m n) o) ≡ false
    → is_lt (then (compare_ℕ n m) p) ≡ false
    → then (compare_ℕ m n) o ≡ Ordering.eq
then_connex m n o p h a b = ground arith

compare_connex :
    (s t : String) → str_lt s t ≡ false → str_lt t s ≡ false → compare s t ≡ Ordering.eq
compare_connex String.[] String.[] a b = refl
compare_connex String.[] (String.◌∷◌ d t) a b =
    absurd (let e : is_lt Ordering.lt ≡ false = rw (compare_nil-cons d t) at a in cc)
compare_connex (String.◌∷◌ c s) String.[] a b =
    absurd (let e : is_lt Ordering.lt ≡ false = rw (compare_nil-cons c s) at b in cc)
compare_connex (String.◌∷◌ c s) (String.◌∷◌ d t) a b = rw (compare_cons c d s t) (
    then_connex (code c) (code d) _ _ (compare_connex s t) (rw (compare_cons c d s t) at a)
      (rw (compare_cons d c t s) at b))

pub le_antisymm : (s t : String) → Le s t → Le t s → s ≡ t
le_antisymm s t a b = path_by_compare s t (compare_connex s t b a)

pub le_lt_trans : (s t u : String) → Le s t → Lt t u → Lt s u
le_lt_trans s t u a b = elim (Bool-cases (str_lt s t)) [
  | inl h ↦ lt_trans s t u h b
  | inr h ↦ rw (le_antisymm s t a h) b
]

pub lt_le_trans : (s t u : String) → Lt s t → Le t u → Lt s u
lt_le_trans s t u a b = elim (Bool-cases (str_lt t u)) [
  | inl h ↦ lt_trans s t u a h
  | inr h ↦ rw (← le_antisymm t u b h) a
]

pub le_trans : (s t u : String) → Le s t → Le t u → Le s u
le_trans s t u a b = elim (Bool-cases (str_lt u s)) [
  | inl h ↦ cc (le_lt_trans t u s b h, a)
  | inr h ↦ h
]

then_same : (n : ℕ) (o : Ordering) → then (compare_ℕ n n) o ≡ o
then_same n o = ground arith

-- A common prefix does not matter.
pub lt-append : (p s t : String) → str_lt (p ++ s) (p ++ t) ≡ str_lt s t
lt-append String.[] s t = λ i. str_lt (append.nil s i) (append.nil t i)
lt-append (String.◌∷◌ c p) s t =
    (λ i. str_lt (append.cons c p s i) (append.cons c p t i))
    ∙ rw (compare_cons c c (p ++ s) (p ++ t), then_same (code c) (compare (p ++ s) (p ++ t)))
        (lt-append p s t)

-- A first character decides.
pub lt_first :
    (c d : Char) (s t : String) → code c < code d → str_lt (String.◌∷◌ c s) (String.◌∷◌ d t) ≡ true
lt_first c d s t h = rw (compare_cons c d s t) (ground arith)

-- Nothing sorts before the empty text.
pub not-lt-empty : (s : String) → str_lt s "" ≡ false
not-lt-empty String.[] = lt_irrefl String.[]
not-lt-empty (String.◌∷◌ c s) = rw (compare_cons-nil c s)
