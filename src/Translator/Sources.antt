-- ===== src/Translator/Sources.antt =====
-- What `buildVolumes` makes of each volume of the spec.
use mathlib.Core.Path.{subst}
use mathlib.Core.Option.{some-injective}
use pd_manager.Common.{
  ◌≡◌, ◌≢◌, ◌⊎◌, inl, inr, String, Option, none, some, List, [], ◌∷◌, All2, refl, sym, arith,
  eq_iff, String-cases,
}
use pd_manager.Common.Panics.{>>=-eq-some}
use pd_manager.Api.{VolumeSpec, HostPathVolume, EmptyDirVolume, PvcVolume}
use pd_manager.Config.Merge.{Falls}
use pd_manager.Workload.{Volume, VolumeSource}
use pd_manager.Translator.Volumes.{size_limit_of, volume_source, build_volume, build_volumes}

module _ {Q : Type 0} (parse_quantity : String → Option Q) where
  -- No limit where none is set, and else the quantity of the text.
  abbrev IsLimitOf : String → Option Q → Type 0
  IsLimitOf text limit =
      ((text ≡ "") × (limit ≡ none))
      ⊎ ((text ≢ "") × ((q : Q) × (parse_quantity text ≡ some q) × (limit ≡ some q)))

  -- A hostPath comes before an emptyDir and that before a claim; a hostPath is a directory unless it
  -- says otherwise.
  abbrev IsSourceOf :
      Option HostPathVolume → Option EmptyDirVolume → Option PvcVolume → VolumeSource Q → Type 0
  IsSourceOf (some h) empty_dir pvc source =
      (type : String) × Falls "" h.type "Directory" type
      × (source ≡ record {
        host_path = some (record { path = h.path; type = some type });
        empty_dir = none;
        persistent_volume_claim = none;
      })
  IsSourceOf none (some e) pvc source =
      (limit : Option Q) × IsLimitOf e.size_limit limit
      × (source ≡ record {
        host_path = none;
        empty_dir = some (record { medium = e.medium; size_limit = limit });
        persistent_volume_claim = none;
      })
  IsSourceOf none none (some c) source = source ≡ record {
    host_path = none;
    empty_dir = none;
    persistent_volume_claim = some (record { claim_name = c.claim_name });
  }
  IsSourceOf none none none source =
      source ≡ record { host_path = none; empty_dir = none; persistent_volume_claim = none }

  abbrev pub IsVolumeOf : VolumeSpec → Volume Q → Type 0
  IsVolumeOf v vol = (vol.name ≡ v.name) × IsSourceOf v.host_path v.empty_dir v.pvc vol.source

  size_limit_of-IsLimitOf :
      (text : String) (limit : Option Q)
      → size_limit_of parse_quantity text ≡ some limit
      → IsLimitOf text limit
  size_limit_of-IsLimitOf text limit h = elim (String-cases text "") [
    | inl (unset, t) ↦ inl (unset, sym (some-injective _ _ (rw t at h)))
    | inr (set, t) ↦
        let (q, parsed, same) = >>=-eq-some (parse_quantity text) _ (rw t at h) in
        inr (set, (q, parsed, sym (some-injective _ _ same)))
  ]

  volume_source-IsSourceOf :
      (host_path : Option HostPathVolume) (empty_dir : Option EmptyDirVolume)
      (pvc : Option PvcVolume) (source : VolumeSource Q)
      → volume_source parse_quantity host_path empty_dir pvc ≡ some source
      → IsSourceOf host_path empty_dir pvc source
  volume_source-IsSourceOf (some h) empty_dir pvc source built =
      (_, ground (arith, eq_iff h.type ""), sym (some-injective _ _ built))
  volume_source-IsSourceOf none (some e) pvc source built =
      let (limit, read, same) = >>=-eq-some (size_limit_of parse_quantity e.size_limit) _ built in
      (limit, size_limit_of-IsLimitOf e.size_limit limit read, sym (some-injective _ _ same))
  volume_source-IsSourceOf none none (some c) source built = sym (some-injective _ _ built)
  volume_source-IsSourceOf none none none source built = sym (some-injective _ _ built)

  pub build_volumes-IsVolumeOf :
      (volumes : List VolumeSpec) (built : List (Volume Q))
      → build_volumes parse_quantity volumes ≡ some built
      → All2 IsVolumeOf volumes built
  unfolding build_volumes build_volume
  build_volumes-IsVolumeOf [] built h = subst (All2 IsVolumeOf []) (some-injective _ _ h) tt
  build_volumes-IsVolumeOf (v ∷ volumes) built h =
      let (vol, first, h1) = >>=-eq-some (build_volume parse_quantity v) _ h in
      let (rest, later, same) = >>=-eq-some (build_volumes parse_quantity volumes) _ h1 in
      let (source, read, named) =
        >>=-eq-some (volume_source parse_quantity v.host_path v.empty_dir v.pvc) _ first in
      let first_is : IsVolumeOf v vol =
        subst (IsVolumeOf v) (some-injective _ _ named)
          (refl, volume_source-IsSourceOf v.host_path v.empty_dir v.pvc source read) in
      subst (All2 IsVolumeOf (v ∷ volumes)) (some-injective _ _ same)
        (first_is, build_volumes-IsVolumeOf volumes rest later)
