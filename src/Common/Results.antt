-- ===== src/Common/Results.antt =====
-- What a call returns: a value or a Go `error`; and, where the code can panic, a panic that unwinds.
use Prim.Native.String.{String}
use Prim.Native.String
use mathlib.Core.Path.{◌≡◌, refl}
use mathlib.Core.Logic.{◌⊎◌, inl, inr}
use mathlib.Core.Bool.{Bool, true, false}

-- `not_found` is an API error for which `errors.IsNotFound` holds; `wrapped` is
-- `fmt.Errorf("…: %w", err)`, which keeps the error that it wraps.
pub data Error : Type 0 where
  not_found : String → Error
  failure : String → Error
  wrapped : String → Error → Error

-- `errors.IsNotFound` looks through the wrapping.
abbrev pub is_not_found : Error → Bool
is_not_found (not_found _) = true
is_not_found (failure _) = false
is_not_found (wrapped _ e) = is_not_found e

-- `err.Error()`
abbrev pub error_text : Error → String
error_text (not_found message) = message
error_text (failure message) = message
error_text (wrapped context e) = String.◌++◌ context (String.◌++◌ ": " (error_text e))

pub data Result {ℓ} (A : Type ℓ) : Type ℓ where
  ok : A → Result A
  err : Error → Result A

infixl 5 ◌>>=◌
abbrev pub ◌>>=◌ {ℓ κ} : {A : Type ℓ} {B : Type κ} → Result A → (A → Result B) → Result B
ok value >>= rest = rest value
err cause >>= rest = err cause

-- `fmt.Errorf("context: %w", err)` on the error of a call
abbrev pub wrap_error {ℓ} : {A : Type ℓ} → String → Result A → Result A
wrap_error context (ok a) = ok a
wrap_error context (err e) = err (wrapped context e)

pub data Outcome {ℓ} (A : Type ℓ) : Type ℓ where
  returned : Result A → Outcome A
  panicked : Outcome A

pub Result-cases {ℓ} :
    {A : Type ℓ} (m : Result A) → ((a : A) × (m ≡ ok a)) ⊎ ((e : Error) × (m ≡ err e))
Result-cases (ok a) = inl (a, refl)
Result-cases (err e) = inr (e, refl)

module _ {ℓ κ} {A : Type ℓ} {B : Type κ} (call : Result A) (rest : A → Result B) where
  -- A sequence that returns a value: its first call returned one, and the rest went on from it.
  pub >>=-eq-ok : {b : B} → (call >>= rest) ≡ ok b → (a : A) × (call ≡ ok a) × (rest a ≡ ok b)
  >>=-eq-ok h = elim (Result-cases call) [
    | inl (a, returns) ↦ (a, returns, rw returns at h)
    | inr (e, fails) ↦ absurd (cc (fails, h))
  ]

pub returned_result {ℓ} : {A : Type ℓ} (r s : Result A) → returned r ≡ returned s → r ≡ s
returned_result r s h = cc

pub returned-injective {ℓ} : {A : Type ℓ} (a b : A) → returned (ok a) ≡ returned (ok b) → a ≡ b
returned-injective a b h = cc

pub ok-injective {ℓ} : {A : Type ℓ} (a b : A) → ok a ≡ ok b → a ≡ b
ok-injective a b h = cc
