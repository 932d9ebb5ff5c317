-- ===== src/Common/Maps.antt =====
-- A Go map keyed by strings, as the list of its entries.
use Prim.Native.String.{String}
use mathlib.Core.Path.{◌≡◌, refl}
use mathlib.Core.List.{List, [], ◌∷◌}
use mathlib.Core.Option.{Option, none, some}
use mathlib.Core.Quot.{Quot}
use native.Mathlib.Omega.{arith}
use text.Mathlib.Text.{◌==◌}
use text.Mathlib.TextEquality.{eq_iff}
use pd_manager.Common.Tests.{if◌then◌else◌}

abbrev pub GoMap {ℓ} : Type ℓ → Type ℓ
GoMap V = List (String × V)

module _ {ℓ} {V : Type ℓ} where
  abbrev pub lookup : String → GoMap V → Option V
  lookup k [] = none
  lookup k ((j, v) ∷ m) = if k == j then some v else lookup k m

  -- `m[k] = v`
  abbrev pub insert : String → V → GoMap V → GoMap V
  insert k v [] = (k, v) ∷ []
  insert k v ((j, w) ∷ m) = if k == j then (j, v) ∷ m else (j, w) ∷ insert k v m

  pub lookup-insert :
      (k j : String) (v : V) (m : GoMap V)
      → lookup j (insert k v m) ≡ (if j == k then some v else lookup j m)
  lookup-insert k j v [] = refl
  lookup-insert k j v ((i, w) ∷ m) =
      ground (arith, eq_iff j k, eq_iff k i, eq_iff j i, lookup-insert k j v m)

-- The entries of a map have different keys.
abbrev pub IsMap : {V : Type 0} → GoMap V → Type 0
IsMap [] = Unit
IsMap ((k, v) ∷ m) = (lookup k m ≡ none) × IsMap m

-- The same value under every key.
abbrev pub SameMap : {V : Type 0} → GoMap V → GoMap V → Type 0
SameMap m m' = (k : String) → lookup k m ≡ lookup k m'

-- A Go map, whatever the order of its entries.
abbrev pub MapOf : Type 0 → Type 0
MapOf V = Quot (SameMap {V = V})

abbrev pub as_map : {V : Type 0} → GoMap V → MapOf V
as_map = Quot.mk
