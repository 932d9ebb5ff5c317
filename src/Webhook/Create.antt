-- ===== src/Webhook/Create.antt =====
-- The validating webhook at creation: `ValidateCreate` and its helpers.
use Prim.Native.String
use pd_manager.Common.{
  ℕ, suc, pos, ltb_ℤ, String, Bool, true, false, not, ◌&&◌, is_some, is_filled, Option, none, some,
  List, [], ◌∷◌, ◌++◌, GoMap, lookup, insert, Result, ok, err, Error, wrapped, error_text, ◌==◌,
  if◌then◌else◌,
}
use pd_manager.Api.{
  NamespacedName, PdEngineProfile, PdInferenceService, PdInferenceServiceSpec, VolumeSpec,
  VolumeMountSpec, ScalingSpec,
}
use pd_manager.Webhook.Field.{
  FieldError, required, invalid, invalid_number, FieldPath, child, index, ErrorList, AdmissionError,
  wrong_type, RuntimeObject, service, foreign, to_aggregate,
}

-- `if failing { errs = append(errs, e) }`
abbrev pub when : Bool → FieldError → ErrorList
when failing e = if failing then e ∷ [] else []

abbrev spec_path : String → String → FieldPath
spec_path role field = child "spec" ∷ child role ∷ child field ∷ []

-- `volNames`: the set of the volumes' names, as a map to `bool`
abbrev pub add_vol_names : List VolumeSpec → GoMap Bool → GoMap Bool
add_vol_names [] names = names
add_vol_names (v ∷ volumes) names = add_vol_names volumes (insert v.name true names)

-- `volNames[name]`, `false` where the key is missing
abbrev pub is_defined : GoMap Bool → String → Bool
is_defined names name = elim (lookup name names) [ none ↦ false | some b ↦ b ]

-- The tests of the image and the arguments of each role, made where no profile is referenced.
unfoldable pub check_roles : PdInferenceServiceSpec → ErrorList
check_roles spec =
    when (spec.router.image == "") (
      required (spec_path "router" "image")
        "router image is required when engineProfileRef is not set")
    ++ (when (spec.prefill.image == "") (
          required (spec_path "prefill" "image")
            "prefill image is required when engineProfileRef is not set")
        ++ (when (spec.decode.image == "") (
              required (spec_path "decode" "image")
                "decode image is required when engineProfileRef is not set")
            ++ (when (not (is_filled spec.router.args)) (
                  required (spec_path "router" "args")
                    "router args are required when engineProfileRef is not set")
                ++ (when (not (is_filled spec.prefill.args)) (
                      required (spec_path "prefill" "args")
                        "prefill args are required when engineProfileRef is not set")
                    ++ when (not (is_filled spec.decode.args)) (
                        required (spec_path "decode" "args")
                          "decode args are required when engineProfileRef is not set")))))

-- `spec.Scaling != nil && spec.Scaling.Prefill != nil`
abbrev pub scales_prefill : Option ScalingSpec → Bool
scales_prefill none = false
scales_prefill (some scaling) = is_some scaling.prefill

module _ (quote : String → String) where
  -- The closure `check` of `validateVolumeMounts`, from the index `i` on.
  unfoldable pub check_mounts : GoMap Bool → String → ℕ → List VolumeMountSpec → ErrorList
  check_mounts names role i [] = []
  check_mounts names role i (m ∷ mounts) =
      when (not (is_defined names m.name)) (
        invalid (child "spec" ∷ child role ∷ child "volumeMounts" ∷ index i ∷ child "name" ∷ [])
          m.name
          (String.◌++◌ "volume " (String.◌++◌ (quote m.name) " not defined in spec.volumes")))
      ++ check_mounts names role (suc i) mounts

  unfoldable pub validate_volume_mounts : PdInferenceServiceSpec → ErrorList
  unfolding check_mounts
  validate_volume_mounts spec =
      let names = add_vol_names spec.volumes [] in
      check_mounts names "router" 0 spec.router.volume_mounts
      ++ (check_mounts names "prefill" 0 spec.prefill.volume_mounts
          ++ check_mounts names "decode" 0 spec.decode.volume_mounts)

module _ (quote : String → String) (get : NamespacedName → Result PdEngineProfile) where
  -- `validateProfileExists`, on the client's read `get`
  unfoldable pub validate_profile_exists : (namespace name : String) → Option Error
  validate_profile_exists namespace name =
      elim (get (record { namespace = namespace; name = name })) [
        | ok _ ↦ none
        | err e ↦ some (
            wrapped
              (String.◌++◌ "PDEngineProfile " (
                String.◌++◌ (quote name)
                  (String.◌++◌ " not found in namespace " (quote namespace))))
              e)
      ]

  abbrev pub profile_errors : PdInferenceService → ErrorList
  profile_errors pdis =
      elim (validate_profile_exists pdis.metadata.namespace pdis.spec.engine_profile_ref) [
        | none ↦ []
        | some e ↦
            invalid (child "spec" ∷ child "engineProfileRef" ∷ []) pdis.spec.engine_profile_ref
              (error_text e)
            ∷ []
      ]

  -- The field errors that `ValidateCreate` collects, in its order.
  unfoldable pub create_errors : PdInferenceService → ErrorList
  unfolding validate_volume_mounts check_roles validate_profile_exists
  create_errors pdis =
      let spec = pdis.spec in
      let has_profile = not (spec.engine_profile_ref == "") in
      when (spec.model == "")
        (required (child "spec" ∷ child "model" ∷ []) "model name is required")
      ++ (when (ltb_ℤ spec.prefill.replicas (pos 1)) (
            invalid_number (spec_path "prefill" "replicas") spec.prefill.replicas
              "prefill replicas must be >= 1")
          ++ (when (ltb_ℤ spec.decode.replicas (pos 1)) (
                invalid_number (spec_path "decode" "replicas") spec.decode.replicas
                  "decode replicas must be >= 1")
              ++ ((if has_profile then profile_errors pdis else [])
                  ++ ((if has_profile then [] else check_roles spec)
                      ++ (validate_volume_mounts quote spec
                          ++ when (not (spec.pd_ratio == "") && scales_prefill spec.scaling) (
                              invalid (child "spec" ∷ child "pdRatio" ∷ []) spec.pd_ratio
                                "pdRatio and scaling.prefill are mutually exclusive"))))))

  -- `ValidateCreate`: `none` admits the object.
  unfoldable pub validate_create : RuntimeObject → Option AdmissionError
  validate_create (service pdis) = to_aggregate (create_errors pdis)
  validate_create (foreign type_name) =
      some (wrong_type (String.◌++◌ "expected a PDInferenceService but got " type_name))
