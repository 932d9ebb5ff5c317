-- ===== src/Config/Precedence.antt =====
-- Inline fields take full precedence over the defaults of the profile: `Resolve` returns the merge.
use mathlib.Core.Path.{subst}
use pd_manager.Common.{
  ◌≡◌, ◌≢◌, ◌↔◌, inl, inr, String, Option, none, some, Result, ok, Error, Result-cases, >>=-eq-ok,
  ap, sym, err, wrapped, arith, eq_iff, String-cases,
}
use pd_manager.Api.{NamespacedName, PdEngineProfile, PdInferenceService}
use pd_manager.Config.{
  MergedConfig, override_inline, load_profile, resolve, profile_key, get_profile_context,
}
use pd_manager.Config.Merge.{IsMerge, base_config, override_inline-IsMerge, IsMerge-unique}

-- The profile that a service refers to, as the client reads it; `none` where it refers to none.
abbrev pub IsReferenced :
    (NamespacedName → Result PdEngineProfile) → PdInferenceService → Option PdEngineProfile → Type 0
IsReferenced get pdis none = pdis.spec.engine_profile_ref ≡ ""
IsReferenced get pdis (some profile) =
    (pdis.spec.engine_profile_ref ≢ "") × (get (profile_key pdis) ≡ ok profile)

module _ (quote : String → String) (get : NamespacedName → Result PdEngineProfile) where
  load_profile_sound :
      (pdis : PdInferenceService) (m : MergedConfig)
      → load_profile quote get pdis ≡ ok m
      → (profile : Option PdEngineProfile) × IsReferenced get pdis profile
        × (m ≡ base_config profile)
  unfolding load_profile
  load_profile_sound pdis m h = elim (String-cases pdis.spec.engine_profile_ref "") [
    | inl (unset, _) ↦ (none, unset, ground (arith, eq_iff pdis.spec.engine_profile_ref ""))
    | inr (set, _) ↦ elim (Result-cases (get (profile_key pdis))) [
      | inl (profile, found) ↦
          (some profile, (set, found), ground (arith, eq_iff pdis.spec.engine_profile_ref ""))
      | inr (_, missing) ↦ absurd (ground (arith, eq_iff pdis.spec.engine_profile_ref ""))
    ]
  ]

  load_profile_complete :
      (pdis : PdInferenceService) (profile : Option PdEngineProfile)
      → IsReferenced get pdis profile
      → load_profile quote get pdis ≡ ok (base_config profile)
  unfolding load_profile
  load_profile_complete pdis profile h = ground (arith, eq_iff pdis.spec.engine_profile_ref "")

module _ (quote : String → String) (get : NamespacedName → Result PdEngineProfile)
    (pdis : PdInferenceService) where
  resolve_sound :
      (cfg : MergedConfig)
      → resolve quote get pdis ≡ ok cfg
      → (profile : Option PdEngineProfile) × IsReferenced get pdis profile
        × IsMerge pdis.spec profile cfg
  unfolding resolve
  resolve_sound cfg h =
      let (m, loaded, e) = >>=-eq-ok (load_profile quote get pdis) _ h in
      let (profile, referenced, base) = load_profile_sound quote get pdis m loaded in
      let same : cfg ≡ override_inline pdis.spec (base_config profile) = cc in
      (
        profile,
        referenced,
        subst (IsMerge pdis.spec profile) (sym same) (override_inline-IsMerge profile pdis.spec),
      )

  resolve_complete :
      (profile : Option PdEngineProfile) (cfg : MergedConfig)
      → IsReferenced get pdis profile
      → IsMerge pdis.spec profile cfg
      → resolve quote get pdis ≡ ok cfg
  unfolding resolve
  resolve_complete profile cfg r h =
      rw (load_profile_complete quote get pdis profile r)
        (ap ok (IsMerge-unique _ cfg (override_inline-IsMerge profile pdis.spec) h))

-- `Resolve` succeeds with a configuration exactly when that is the merge of the service's inline
-- fields with the profile that it refers to: role by role, an image, a command or an argument list
-- set inline is taken alone, one left out comes from the profile, and the engine runtimes are
-- those of the profile.
pub resolve-eq-ok_iff :
    (quote : String → String) (get : NamespacedName → Result PdEngineProfile)
    (pdis : PdInferenceService) (cfg : MergedConfig)
    → (resolve quote get pdis ≡ ok cfg) ↔ (
        (profile : Option PdEngineProfile) × IsReferenced get pdis profile
        × IsMerge pdis.spec profile cfg)
resolve-eq-ok_iff quote get pdis cfg =
    (resolve_sound quote get pdis cfg, λ w. resolve_complete quote get pdis w.0 cfg w.1 w.2)

-- `Resolve` fails exactly when the service refers to a profile that cannot be read, and then with
-- the error of the read, wrapped with the profile's name.
pub resolve-eq-err_iff :
    (quote : String → String) (get : NamespacedName → Result PdEngineProfile)
    (pdis : PdInferenceService) (e : Error)
    → (resolve quote get pdis ≡ err e) ↔ (
        (pdis.spec.engine_profile_ref ≢ "")
        × ((cause : Error) × (get (profile_key pdis) ≡ err cause)
            × (e ≡ wrapped (get_profile_context quote pdis) cause)))
unfolding resolve load_profile
resolve-eq-err_iff quote get pdis e = elim (String-cases pdis.spec.engine_profile_ref "") [
  | inl (unset, t) ↦ (λ h. absurd (ground arith), λ w. absurd (w.0 unset))
  | inr (set, t) ↦ elim (Result-cases (get (profile_key pdis))) [
    | inl (profile, found) ↦ (λ h. absurd (ground arith), λ w. absurd (cc (w.1.1)))
    | inr (cause, missing) ↦ (λ h. (set, (cause, missing, ground arith)), λ w. ground arith)
  ]
]

-- `Resolve` succeeds for every service whose profile, if it refers to one, can be read.
pub resolve_total :
    (quote : String → String) (get : NamespacedName → Result PdEngineProfile)
    (pdis : PdInferenceService) (profile : Option PdEngineProfile)
    → IsReferenced get pdis profile
    → (cfg : MergedConfig) × (resolve quote get pdis ≡ ok cfg) × IsMerge pdis.spec profile cfg
resolve_total quote get pdis profile r =
    let cfg = override_inline pdis.spec (base_config profile) in
    let merge = override_inline-IsMerge profile pdis.spec in
    (cfg, resolve_complete quote get pdis profile cfg r merge, merge)
