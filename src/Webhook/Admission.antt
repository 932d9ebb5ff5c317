-- ===== src/Webhook/Admission.antt =====
-- When `ValidateCreate` admits an object, stated without the code's tests.
use pd_manager.Common.{
  ℤ, pos, ltb_ℤ, ◌≤ℤ◌, ◌≡◌, ◌≢◌, ◌↔◌, ◌⊎◌, inl, inr, String, Bool, true, false, not, ◌&&◌,
  is_filled, none, List, [], ◌∷◌, append-eq-nil_iff, Result, ok, Result-cases, refl, arith, eq_iff,
  ◌==◌, String-cases, if◌then◌else◌,
}
use pd_manager.Api.{
  NamespacedName, PdEngineProfile, PdInferenceService, PdInferenceServiceSpec, Role, router,
  prefill, decode, inline_image, inline_args,
}
use pd_manager.Config.{profile_key}
use pd_manager.Webhook.Field.{FieldError, ErrorList, service, to_aggregate}
use pd_manager.Webhook.Create.{
  when, check_roles, scales_prefill, validate_profile_exists, profile_errors, create_errors,
  validate_create,
}
use pd_manager.Webhook.Defined.{MountsDefined}
use pd_manager.Webhook.Mounts.{validate_volume_mounts-eq-nil_iff}

when-eq-nil_iff : (failing : Bool) (e : FieldError) → (when failing e ≡ []) ↔ (failing ≡ false)
when-eq-nil_iff true e = (λ h. absurd (cc), λ h. absurd (cc))
when-eq-nil_iff false e = (λ _. refl, λ _. refl)

-- Each role has an image and arguments of its own.
pub record HasRoles (spec : PdInferenceServiceSpec) : Type 0 where
  pub image : (r : Role) → inline_image spec r ≢ ""
  pub args : (r : Role) → inline_args spec r ≢ []

-- The rules of creation, as the documentation of `ValidateCreate` lists them.
pub record IsAdmissible (get : NamespacedName → Result PdEngineProfile) (pdis : PdInferenceService)
    : Type 0 where
  pub model : pdis.spec.model ≢ ""
  pub prefill_replicas : pos 1 ≤ℤ pdis.spec.prefill.replicas
  pub decode_replicas : pos 1 ≤ℤ pdis.spec.decode.replicas
  pub profile :
      pdis.spec.engine_profile_ref ≢ ""
      → (found : PdEngineProfile) × (get (profile_key pdis) ≡ ok found)
  pub roles : pdis.spec.engine_profile_ref ≡ "" → HasRoles pdis.spec
  pub mounts : MountsDefined pdis.spec
  pub exclusive : (pdis.spec.pd_ratio ≡ "") ⊎ (scales_prefill pdis.spec.scaling ≡ false)

is_filled-eq-false_iff : (xs : List String) → (not (is_filled xs) ≡ false) ↔ (xs ≢ [])
is_filled-eq-false_iff [] = (λ h. absurd (cc), λ h. absurd (h refl))
is_filled-eq-false_iff (x ∷ xs) = (λ _ e. cc, λ _. refl)

==-empty_iff : (s : String) → ((s == "") ≡ false) ↔ (s ≢ "")
==-empty_iff s = ground (arith, eq_iff s "")

replicas_test_iff : (n : ℤ) → (ltb_ℤ n (pos 1) ≡ false) ↔ (pos 1 ≤ℤ n)
replicas_test_iff n = ground arith

exclusive_test_iff :
    (ratio : String) (scales : Bool)
    → ((not (ratio == "") && scales) ≡ false) ↔ ((ratio ≡ "") ⊎ (scales ≡ false))
exclusive_test_iff ratio scales = ground (arith, eq_iff ratio "")

-- When a list of tests reports nothing.
ruleset emptiness = (
  arith, when-eq-nil_iff, append-eq-nil_iff, ==-empty_iff, is_filled-eq-false_iff,
  replicas_test_iff, exclusive_test_iff,
)

check_roles_sound : (spec : PdInferenceServiceSpec) → check_roles spec ≡ [] → HasRoles spec
unfolding check_roles
check_roles_sound spec h = record {
  image = elim [ router ↦ grind emptiness | prefill ↦ grind emptiness | decode ↦ grind emptiness ];
  args = elim [ router ↦ grind emptiness | prefill ↦ grind emptiness | decode ↦ grind emptiness ];
}

check_roles_complete : (spec : PdInferenceServiceSpec) → HasRoles spec → check_roles spec ≡ []
unfolding check_roles
check_roles_complete spec h = grind (
  emptiness,
  h.image router,
  h.image prefill,
  h.image decode,
  h.args router,
  h.args prefill,
  h.args decode,
)

module _ (quote : String → String) (get : NamespacedName → Result PdEngineProfile)
    (pdis : PdInferenceService) where
  profile_errors-eq-nil_iff :
      (profile_errors quote get pdis ≡ [])
      ↔ ((found : PdEngineProfile) × (get (profile_key pdis) ≡ ok found))
  unfolding validate_profile_exists
  profile_errors-eq-nil_iff = elim (Result-cases (get (profile_key pdis))) [
    | inl (found, e) ↦ (λ _. (found, e), λ _. ground arith)
    | inr (cause, e) ↦ (λ h. absurd (ground arith), λ h. absurd (cc (h.1)))
  ]

  profile_part_iff :
      ((if not (pdis.spec.engine_profile_ref == "") then profile_errors quote get pdis else [])
        ≡ [])
      ↔ (pdis.spec.engine_profile_ref ≢ ""
          → (found : PdEngineProfile) × (get (profile_key pdis) ≡ ok found))
  profile_part_iff = elim (String-cases pdis.spec.engine_profile_ref "") [
    | inl (unset, t) ↦ (λ _ set. absurd (set unset), λ _. rw t)
    | inr (set, t) ↦ (
      λ h _. profile_errors-eq-nil_iff.0 (rw t at h),
      λ h. rw t (profile_errors-eq-nil_iff.1 (h set)),
    )
  ]

  roles_part_iff :
      ((if not (pdis.spec.engine_profile_ref == "") then [] else check_roles pdis.spec) ≡ [])
      ↔ (pdis.spec.engine_profile_ref ≡ "" → HasRoles pdis.spec)
  roles_part_iff = elim (String-cases pdis.spec.engine_profile_ref "") [
    | inl (unset, t) ↦ (
      λ h _. check_roles_sound pdis.spec (rw t at h),
      λ h. rw t (check_roles_complete pdis.spec (h unset)),
    )
    | inr (set, t) ↦ (λ _ unset. absurd (set unset), λ _. rw t)
  ]

  create_errors_sound : create_errors quote get pdis ≡ [] → IsAdmissible get pdis
  unfolding create_errors
  create_errors_sound h =
      let mounts = validate_volume_mounts-eq-nil_iff quote pdis.spec in
      record {
        model = grind emptiness;
        prefill_replicas = grind emptiness;
        decode_replicas = grind emptiness;
        profile = profile_part_iff.0 (grind emptiness);
        roles = roles_part_iff.0 (grind emptiness);
        mounts = mounts.0 (grind emptiness);
        exclusive = grind emptiness;
      }

  create_errors_complete : IsAdmissible get pdis → create_errors quote get pdis ≡ []
  unfolding create_errors
  create_errors_complete h = grind (
    emptiness,
    h.model,
    h.prefill_replicas,
    h.decode_replicas,
    profile_part_iff.1 h.profile,
    roles_part_iff.1 h.roles,
    (validate_volume_mounts-eq-nil_iff quote pdis.spec).1 h.mounts,
    h.exclusive,
  )

pub to_aggregate-eq-none_iff : (errs : ErrorList) → (to_aggregate errs ≡ none) ↔ (errs ≡ [])
to_aggregate-eq-none_iff [] = (λ _. refl, λ _. refl)
to_aggregate-eq-none_iff (e ∷ errs) = (λ h. absurd (cc), λ h. absurd (cc))

-- `ValidateCreate` admits a service exactly when its model is named, prefill and decode have a
-- replica at least, a profile that it refers to can be read, every role has an image and arguments
-- inline if it refers to none, every volume mount names a volume, and `pdRatio` is not set together
-- with `scaling.prefill`.
pub validate_create-eq-none_iff :
    (quote : String → String) (get : NamespacedName → Result PdEngineProfile)
    (pdis : PdInferenceService)
    → (validate_create quote get (service pdis) ≡ none) ↔ IsAdmissible get pdis
unfolding validate_create
validate_create-eq-none_iff quote get pdis = (
  λ h. create_errors_sound quote get pdis ((to_aggregate-eq-none_iff _).0 h),
  λ h. (to_aggregate-eq-none_iff _).1 (create_errors_complete quote get pdis h),
)
