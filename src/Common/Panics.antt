-- ===== src/Common/Panics.antt =====
-- Code that can panic: `none` is the panic, which ends the whole call.
use mathlib.Core.Path.{◌≡◌, refl}
use mathlib.Core.Logic.{◌↔◌}
use mathlib.Core.Option.{Option, none, some}

infixl 5 ◌>>=◌
abbrev pub ◌>>=◌ {ℓ κ} : {A : Type ℓ} {B : Type κ} → Option A → (A → Option B) → Option B
none >>= f = none
some a >>= f = f a

-- The call returns.
abbrev pub Succeeds {ℓ} : {A : Type ℓ} → Option A → Type ℓ
Succeeds {A} m = (a : A) × (m ≡ some a)

module _ {ℓ κ} {A : Type ℓ} {B : Type κ} (m : Option A) (f : A → Option B) where
  pub Succeeds->>= : Succeeds m → ((a : A) → Succeeds (f a)) → Succeeds (m >>= f)
  Succeeds->>= (a, e) h = rw e (h a)

  pub >>=-eq-some : {b : B} → (m >>= f) ≡ some b → (a : A) × (m ≡ some a) × (f a ≡ some b)
  >>=-eq-some h = split m refl h
    where
      split :
          {b : B} (o : Option A)
          → m ≡ o
          → (o >>= f) ≡ some b
          → (a : A) × (m ≡ some a) × (f a ≡ some b)
      split none e h = cc
      split (some a) e h = (a, e, h)

  pub >>=-Succeeds : Succeeds (m >>= f) → Succeeds m
  >>=-Succeeds (b, h) = let (a, e, _) = >>=-eq-some h in (a, e)

  -- A bind returns exactly when the first call does, and then the second.
  pub >>=-Succeeds_iff :
      {P : Type ℓ} {R : Type κ}
      → Succeeds m ↔ P
      → ((a : A) → m ≡ some a → Succeeds (f a) ↔ R)
      → Succeeds (m >>= f) ↔ (P × R)
  >>=-Succeeds_iff first second = (
    λ (b, h). let (a, e, rest) = >>=-eq-some h in (first.0 (a, e), (second a e).0 (b, rest)),
    λ (p, r). let (a, e) = first.1 p in rw e ((second a e).1 r),
  )

module _ {ℓ κ} {A : Type ℓ} {B : Type κ} (m : Option A) (g : A → B) where
  pub Succeeds-map_iff : Succeeds (m >>= λ a. some (g a)) ↔ Succeeds m
  Succeeds-map_iff = (>>=-Succeeds m _, λ (a, e). (g a, rw e))
