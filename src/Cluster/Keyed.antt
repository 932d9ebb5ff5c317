-- ===== src/Cluster/Keyed.antt =====
-- Objects stored under their own keys, as a list.
use pd_manager.Common.{
  ◌≡◌, ◌≢◌, ◌↔◌, inl, inr, Bool, true, ◌&&◌, Option, none, some, List, [], ◌∷◌, refl, arith, eq_iff,
  ◌==◌, Bool-cases, false_of_not, sym, ◌∙◌, if◌then◌else◌,
}
use pd_manager.Api.{NamespacedName}

abbrev key_eq : NamespacedName → NamespacedName → Bool
key_eq j k = j.namespace == k.namespace && j.name == k.name

key_eq_iff : (j k : NamespacedName) → (key_eq j k ≡ true) ↔ (j ≡ k)
key_eq_iff j k = ground (arith, eq_iff j.namespace k.namespace, eq_iff j.name k.name)

module _ {A : Type 0} (key : A → NamespacedName) where
  unfoldable pub find : NamespacedName → List A → Option A
  find k [] = none
  find k (a ∷ stored) = if key_eq (key a) k then some a else find k stored

  -- Replaces the object under the key of `a`, or adds `a`.
  unfoldable pub put : A → List A → List A
  put a [] = a ∷ []
  put a (b ∷ stored) = if key_eq (key b) (key a) then a ∷ stored else b ∷ put a stored

  pub find-key : (k : NamespacedName) (stored : List A) {a : A} → find k stored ≡ some a → key a ≡ k
  unfolding find
  find-key k [] h = cc
  find-key k (b ∷ stored) h = elim (Bool-cases (key_eq (key b) k)) [
    | inl here ↦ ground (arith, (key_eq_iff (key b) k).0 here)
    | inr later ↦ find-key k stored (rw later at h)
  ]

  pub find-put_self : (a : A) (stored : List A) → find (key a) (put a stored) ≡ some a
  unfolding find put
  find-put_self a [] = rw ((key_eq_iff (key a) (key a)).1 refl)
  find-put_self a (b ∷ stored) = elim (Bool-cases (key_eq (key b) (key a))) [
    | inl here ↦ rw (here, (key_eq_iff (key a) (key a)).1 refl)
    | inr later ↦ rw later (rw later (find-put_self a stored))
  ]

  pub find-put_ne :
      (a : A) (k : NamespacedName) (stored : List A)
      → k ≢ key a
      → find k (put a stored) ≡ find k stored
  unfolding find put
  find-put_ne a k [] h = rw (false_of_not _ (key_eq_iff (key a) k) (λ e. h (sym e)))
  find-put_ne a k (b ∷ stored) h =
      let other = false_of_not _ (key_eq_iff (key a) k) (λ e. h (sym e)) in
      elim (Bool-cases (key_eq (key b) (key a))) [
        | inl here ↦
            let same = (key_eq_iff (key b) (key a)).0 here in
            let other_b = false_of_not _ (key_eq_iff (key b) k) (λ e. h (sym e ∙ same)) in
            rw here (rw other (rw other_b refl))
        | inr later ↦ rw later (ground (arith, find-put_ne a k stored h))
      ]
