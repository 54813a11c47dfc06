-- ===== src/Base/Errors.antt =====
-- core/types.go: an error is its code (the message of `Fail` is not modelled). A transaction that
-- fails is rolled back, so a failed operation returns no state.
use mathlib.Core.Path.{◌≡◌, refl}
use mathlib.Core.Logic.{◌⊎◌, inl, inr}
use mathlib.Core.Bool.{Bool, true, false}
use mathlib.Core.Option.{Option, none, some}

pub data Code : Type 0 where
  invalid_input not_found conflict denied unavailable resource_busy internal : Code

pub data Result {ℓ} (T : Type ℓ) : Type ℓ where
  err : Code → Result T
  ok : T → Result T

-- `if cond { return Fail(code, …) }`
abbrev pub fail_if : Bool → Code → Result (Unit {0})
fail_if c e = elim c [ true ↦ err e | false ↦ ok tt ]

-- `errors.Is(err, sql.ErrNoRows)`
abbrev pub or_fail {ℓ} : {T : Type ℓ} → Option T → Code → Result T
or_fail (some row) e = ok row
or_fail none e = err e

-- `if err != nil { return err }`
infixl 5 ◌>>=◌
abbrev pub ◌>>=◌ {ℓ κ} : {S : Type ℓ} {T : Type κ} → Result S → (S → Result T) → Result T
err e >>= next = err e
ok x >>= next = next x

-- The row that was read, or what an absent one stands for.
abbrev pub or_new {ℓ} : {T : Type ℓ} → Option T → T → T
or_new none new = new
or_new (some row) new = row

infixl 5 ◌>>◌
abbrev pub ◌>>◌ {ℓ} : {T : Type ℓ} → Result (Unit {0}) → Result T → Result T
first >> rest = first >>= λ _. rest

-- What a chain that succeeds went through.
pub >>=-eq-ok {ℓ κ} :
    {S : Type ℓ} {T : Type κ} (first : Result S) (next : S → Result T) {y : T}
    → (first >>= next) ≡ ok y
    → (x : S) × (first ≡ ok x) × (next x ≡ ok y)
>>=-eq-ok (err e) next h = cc
>>=-eq-ok (ok x) next h = (x, refl, h)

-- The same for a proof that goes on: step by step, with the values as variables.
pub >>=-elim {ℓ κ μ} :
    {S : Type ℓ} {T : Type κ} {P : Type μ} (first : Result S) (next : S → Result T) {y : T}
    → (first >>= next) ≡ ok y
    → ((x : S) → first ≡ ok x → next x ≡ ok y → P)
    → P
>>=-elim (err e) next h go = absurd (let k : ⊥ = cc in k)
>>=-elim (ok x) next h go = go x refl h

pub fail_if-elim {ℓ μ} :
    {T : Type ℓ} {P : Type μ} (c : Bool) (e : Code) (rest : Result T) {y : T}
    → (fail_if c e >> rest) ≡ ok y
    → (c ≡ false → rest ≡ ok y → P)
    → P
fail_if-elim true e rest h go = absurd (let k : ⊥ = cc in k)
fail_if-elim false e rest h go = go refl h

pub or_fail-elim {ℓ κ μ} :
    {S : Type ℓ} {T : Type κ} {P : Type μ} (row : Option S) (e : Code) (next : S → Result T) {y : T}
    → (or_fail row e >>= next) ≡ ok y
    → ((x : S) → row ≡ some x → next x ≡ ok y → P)
    → P
or_fail-elim none e next h go = absurd (let k : ⊥ = cc in k)
or_fail-elim (some x) e next h go = go x refl h

pub ok_inj {ℓ} : {A : Type ℓ} {a b : A} → ok a ≡ ok b → a ≡ b
ok_inj h = cc h

-- The state that a successful operation leaves.
pub ok-state {ℓ κ} :
    {A : Type ℓ} {S : Type κ} {a b : A} {s s' : S}
    → ◌≡◌ {A = Result (A × S)} (ok (a, s)) (ok (b, s'))
    → s' ≡ s
ok-state h = cc h

pub Result-cases {ℓ} :
    {A : Type ℓ} (m : Result A) → ((a : A) × (m ≡ ok a)) ⊎ ((e : Code) × (m ≡ err e))
Result-cases (ok a) = inl (a, refl)
Result-cases (err e) = inr (e, refl)

-- The state after an operation: a failed one leaves the state as it was.
abbrev pub after {ℓ κ} : {S : Type ℓ} {A : Type κ} → S → Result (A × S) → S
after s (ok (a, s')) = s'
after s (err e) = s

-- To prove something of the state after an operation: of the old one, and of a successful result.
pub after-elim {ℓ κ μ} :
    {S : Type ℓ} {A : Type κ} (P : S → Type μ) (s : S) (r : Result (A × S))
    → P s
    → ((a : A) (s' : S) → r ≡ ok (a, s') → P s')
    → P (after s r)
after-elim P s (ok (a, s')) old new = new a s' refl
after-elim P s (err e) old new = old
