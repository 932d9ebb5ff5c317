-- ===== src/Controller/Action.antt =====
-- A call of the reconciler: it changes the state of the cluster, and returns, fails or panics. What
-- was written before an error or a panic stays written.
use pd_manager.Common.{
  ◌≡◌, refl, ap, ◌∙◌, Option, none, some, Result, ok, err, Error, Outcome, returned, panicked,
}

abbrev pub Action : Type 0 → Type 0 → Type 0
Action W A = W → Outcome A × W

module _ {W : Type 0} where
  abbrev pub pure : {A : Type 0} → A → Action W A
  pure a w = (returned (ok a), w)

  abbrev pub fail : {A : Type 0} → Error → Action W A
  fail e w = (returned (err e), w)

  -- After an outcome: the rest runs only on a value.
  abbrev pub continue : {A B : Type 0} → Outcome A → (A → Action W B) → Action W B
  continue (returned (ok a)) f w = f a w
  continue (returned (err e)) f w = (returned (err e), w)
  continue panicked f w = (panicked, w)

  -- A write of the client, whose error the caller returns.
  abbrev pub write : {A : Type 0} → (W → Result A × W) → Action W A
  write m w = (returned (m w).0, (m w).1)

  -- A read of the client, whose error the caller looks at.
  abbrev pub read : {A : Type 0} → (W → A) → Action W A
  read m w = (returned (ok (m w)), w)

  -- The value of code that may panic.
  abbrev pub or_panic : {A : Type 0} → Option A → Action W A
  or_panic none w = (panicked, w)
  or_panic (some a) w = (returned (ok a), w)

infixl 5 ◌>>=◌
abbrev pub ◌>>=◌ : {W A B : Type 0} → Action W A → (A → Action W B) → Action W B
◌>>=◌ m f w = continue (m w).0 f (m w).1

module _ {W A B : Type 0} (m : Action W A) (f : A → Action W B) (w : W) where
  -- A sequence that returns a value: its first part does, and the second goes on from there.
  pub >>=-eq-returned :
      {b : B} {w' : W}
      → (m >>= f) w ≡ (returned (ok b), w')
      → (a : A) × ((m w).0 ≡ returned (ok a)) × (f a (m w).1 ≡ (returned (ok b), w'))
  >>=-eq-returned h = split (m w).0 refl h
    where
      split :
          {b : B} {w' : W} (o : Outcome A)
          → (m w).0 ≡ o
          → continue o f (m w).1 ≡ (returned (ok b), w')
          → (a : A) × ((m w).0 ≡ returned (ok a)) × (f a (m w).1 ≡ (returned (ok b), w'))
      split (returned (ok a)) e h = (a, e, h)
      split (returned (err e')) e h = absurd (cc (ap (λ t. t.0) h))
      split panicked e h = absurd (cc (ap (λ t. t.0) h))

module _ {W O : Type 0} (observe : W → O) where
  -- A call leaves an observation of the state as it was, however it ends.
  abbrev pub Keeps : {A : Type 0} → Action W A → W → Type 0
  Keeps m w = observe (m w).1 ≡ observe w

  pub Keeps->>= :
      {A B : Type 0} (m : Action W A) (f : A → Action W B) (w : W)
      → Keeps m w
      → ((a : A) → (m w).0 ≡ returned (ok a) → Keeps (f a) (m w).1)
      → Keeps (m >>= f) w
  Keeps->>= {A} {B} m f w first second = split (m w).0 refl
    where
      split : (o : Outcome A) → (m w).0 ≡ o → observe (continue o f (m w).1).1 ≡ observe w
      split (returned (ok a)) e = second a e ∙ first
      split (returned (err e')) e = first
      split panicked e = first

module _ {W : Type 0} (P : W → Type 0) where
  -- A call leaves a property of the state true, however it ends.
  abbrev pub Preserves : {A : Type 0} → Action W A → W → Type 0
  Preserves m w = P w → P (m w).1

  pub Preserves->>= :
      {A B : Type 0} (m : Action W A) (f : A → Action W B) (w : W)
      → Preserves m w
      → ((a : A) → Preserves (f a) (m w).1)
      → Preserves (m >>= f) w
  Preserves->>= {A} {B} m f w first second = split (m w).0
    where
      split : (o : Outcome A) → P w → P (continue o f (m w).1).1
      split (returned (ok a)) h = second a (first h)
      split (returned (err e)) h = first h
      split panicked h = first h
