-- ===== src/Webhook/Defined.antt =====
-- Which volume names a spec defines, and the map that the code makes of them.
use pd_manager.Common.{
  ℕ, ◌≡◌, ◌↔◌, ◌⊎◌, inl, inr, String, Bool, true, false, ◌||◌, some, List, [], ◌∷◌, GoMap, insert,
  lookup-insert, Any, get_elem?, refl, arith, eq_iff, ◌==◌, Bool-cases,
}
use pd_manager.Api.{PdInferenceServiceSpec, VolumeSpec, VolumeMountSpec, Role, inline_mounts}
use pd_manager.Webhook.Create.{add_vol_names, is_defined}

-- `spec.volumes` has a volume of that name.
abbrev pub IsDefined : List VolumeSpec → String → Type 0
IsDefined volumes name = Any (λ v. v.name ≡ name) volumes

abbrev has_volume : String → List VolumeSpec → Bool
has_volume name [] = false
has_volume name (v ∷ volumes) = name == v.name || has_volume name volumes

has_volume_iff :
    (name : String) (volumes : List VolumeSpec)
    → (has_volume name volumes ≡ true) ↔ IsDefined volumes name
has_volume_iff name [] = ground arith
has_volume_iff name (v ∷ volumes) = ground (arith, eq_iff name v.name, has_volume_iff name volumes)

is_defined-insert :
    (names : GoMap Bool) (k name : String)
    → is_defined (insert k true names) name ≡ (name == k || is_defined names name)
is_defined-insert names k name = ground (arith, lookup-insert k name true names)

is_defined-add_vol_names :
    (volumes : List VolumeSpec) (names : GoMap Bool) (name : String)
    → is_defined (add_vol_names volumes names) name
      ≡ (has_volume name volumes || is_defined names name)
is_defined-add_vol_names [] names name = refl
is_defined-add_vol_names (v ∷ volumes) names name = ground (
  arith,
  is_defined-add_vol_names volumes (insert v.name true names) name,
  is_defined-insert names v.name name,
)

-- The map that the code builds answers as `spec.volumes` says.
pub is_defined_iff :
    (volumes : List VolumeSpec) (name : String)
    → (is_defined (add_vol_names volumes []) name ≡ true) ↔ IsDefined volumes name
is_defined_iff volumes name =
    ground (arith, is_defined-add_vol_names volumes [] name, has_volume_iff name volumes)

-- Every mount of every role names a volume of the spec.
abbrev pub MountsDefined : PdInferenceServiceSpec → Type 0
MountsDefined spec =
    (r : Role) (i : ℕ) (m : VolumeMountSpec)
    → get_elem? (inline_mounts spec r) i ≡ some m
    → IsDefined spec.volumes m.name

pub IsDefined-cases :
    (spec : PdInferenceServiceSpec) (name : String)
    → IsDefined spec.volumes name ⊎ (¬ IsDefined spec.volumes name)
IsDefined-cases spec name = elim (Bool-cases (has_volume name spec.volumes)) [
  | inl found ↦ inl ((has_volume_iff name spec.volumes).0 found)
  | inr missing ↦ inr (λ h. cc ((has_volume_iff name spec.volumes).1 h))
]
