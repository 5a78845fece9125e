-- ===== src/Prelude/Results.antt =====
-- Fallible code: `Result<A, E>`, with `?` as bind.
use mathlib.Core.Path.{◌≡◌, refl}
use mathlib.Core.Logic.{◌⊎◌, inl, inr}
use native.Mathlib.Omega.{arith}
use mathlib.Core.Bool.{Bool, true, false}
use mathlib.Core.Option.{Option, none, some}

pub data Result {ℓ κ} (E : Type ℓ) (A : Type κ) : Type (ℓ ⊔ κ) where
  err : E → Result E A
  ok : A → Result E A

module _ {ℓ κ} {E : Type ℓ} {A : Type κ} where
  -- `Option::ok_or`
  abbrev pub or_fail : Option A → E → Result E A
  or_fail (some value) failure = ok value
  or_fail none failure = err failure

  -- the two functions behind `do`
  infixl 5 ◌>>=◌
  abbrev pub ◌>>=◌ {μ} : {B : Type μ} → Result E A → (A → Result E B) → Result E B
  err failure >>= next = err failure
  ok value >>= next = next value

  pub >>=-eq-ok {μ} :
      {B : Type μ} (m : Result E A) (next : A → Result E B) {y : B}
      → (m >>= next) ≡ ok y
      → (x : A) × (m ≡ ok x) × (next x ≡ ok y)
  >>=-eq-ok (err failure) next h = cc
  >>=-eq-ok (ok value) next h = (value, refl, h)

infixl 5 ◌>>◌
abbrev pub ◌>>◌ {ℓ κ} : {E : Type ℓ} {B : Type κ} → Result E (Unit {0}) → Result E B → Result E B
first >> second = first >>= λ _. second

-- `if !test { return Err(failure) }`
abbrev pub guard {ℓ} : {E : Type ℓ} → Bool → E → Result E (Unit {0})
guard false failure = err failure
guard true failure = ok tt

module _ {ℓ κ} {E : Type ℓ} {B : Type κ} where
  pub guard-true : (b : Bool) (e : E) (k : Result E B) → b ≡ true → (guard b e >> k) ≡ k
  guard-true true e k h = refl
  guard-true false e k h = cc

  pub guard-eq-ok :
      (b : Bool) (e : E) (k : Result E B) {x : B}
      → (guard b e >> k) ≡ ok x
      → (b ≡ true) × (k ≡ ok x)
  guard-eq-ok true e k h = (refl, h)
  guard-eq-ok false e k h = cc

  -- An error of a guarded block is the guard's, or the block's.
  pub guard-eq-err :
      (b : Bool) (e : E) (k : Result E B) {f : E} → (guard b e >> k) ≡ err f → (e ≡ f) ⊎ (k ≡ err f)
  guard-eq-err true e k h = inr h
  guard-eq-err false e k h = inl (ground arith)

pub or_fail-eq-ok {ℓ κ μ} :
    {E : Type ℓ} {A : Type κ} {B : Type μ} (o : Option A) (e : E) (next : A → Result E B) {y : B}
    → (or_fail o e >>= next) ≡ ok y
    → (x : A) × (o ≡ some x) × (next x ≡ ok y)
or_fail-eq-ok none e next h = cc
or_fail-eq-ok (some x) e next h = (x, refl, h)

pub ok-inj {ℓ κ} : {E : Type ℓ} {A : Type κ} {a b : A} → ◌≡◌ {A = Result E A} (ok a) (ok b) → a ≡ b
ok-inj h = cc

pub Result-cases {ℓ κ} :
    {E : Type ℓ} {A : Type κ} (r : Result E A) → ((e : E) × (r ≡ err e)) ⊎ ((a : A) × (r ≡ ok a))
Result-cases (err e) = inl (e, refl)
Result-cases (ok a) = inr (a, refl)

pub err-ne-ok {ℓ κ} :
    {E : Type ℓ} {A : Type κ} {e : E} {a : A} → ◌≡◌ {A = Result E A} (err e) (ok a) → ⊥
err-ne-ok h = cc
