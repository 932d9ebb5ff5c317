-- ===== src/Translator/Totality.antt =====
-- When the translation panics: exactly on a quantity that does not parse.
use mathlib.Core.Path.{subst}
use mathlib.Core.Option.{some-injective}
use pd_manager.Common.{
  ◌≡◌, ◌≢◌, ◌↔◌, inl, inr, String, Option, none, some, List, [], ◌∷◌, GoMap, All, insert, refl,
  String-cases, iff_trans,
}
use pd_manager.Common.Panics.{
  Succeeds, Succeeds->>=, >>=-Succeeds, >>=-Succeeds_iff, Succeeds-map_iff,
}
use pd_manager.Api.{
  VolumeSpec, HostPathVolume, EmptyDirVolume, PvcVolume, RoleResources, PdInferenceService,
  InferenceRoleSpec,
}
use pd_manager.Config.{MergedConfig}
use pd_manager.Workload.{RbgEngineRuntime}
use pd_manager.Translator.Volumes.{
  volume_source, host_path_source, pvc_source, build_volume, build_volumes, size_limit_of,
}
use pd_manager.Translator.Resources.{
  parse_into, gpu_quantity, build_resources, requests_of, limits_of,
}
use pd_manager.Translator.Build.{build_router_role, build_inference_role, build}

module _ {Q : Type 0} (parse_quantity : String → Option Q) where
  abbrev pub Parses : String → Type 0
  Parses text = Succeeds (parse_quantity text)

  -- An optional text that is set parses.
  abbrev ParsesIfSet : String → Type 0
  ParsesIfSet text = text ≢ "" → Parses text

  -- The size limit is read only of an emptyDir that no hostPath hides.
  abbrev VolumeParses : VolumeSpec → Type 0
  VolumeParses v =
      (e : EmptyDirVolume) → v.host_path ≡ none → v.empty_dir ≡ some e → ParsesIfSet e.size_limit

  abbrev pub EntriesParse : GoMap String → Type 0
  EntriesParse = All (λ entry. Parses entry.1)

  pub record ResourcesParse (res : Option RoleResources) (gpu : String) : Type 0 where
    pub requests : EntriesParse (requests_of res)
    pub limits : EntriesParse (limits_of res)
    pub gpu_count : ParsesIfSet gpu

  -- Every quantity that the translation reads parses.
  pub record QuantitiesParse (pdis : PdInferenceService) : Type 0 where
    pub volumes : All VolumeParses pdis.spec.volumes
    pub router : ResourcesParse pdis.spec.router.resources ""
    pub prefill : ResourcesParse pdis.spec.prefill.resources pdis.spec.prefill.gpu
    pub decode : ResourcesParse pdis.spec.decode.resources pdis.spec.decode.gpu

  size_limit_iff : (text : String) → Succeeds (size_limit_of parse_quantity text) ↔ ParsesIfSet text
  size_limit_iff text = elim (String-cases text "") [
    | inl (unset, t) ↦ (λ _ set. absurd (set unset), λ _. rw t (none, refl))
    | inr (set, t) ↦ (
      λ h _. >>=-Succeeds (parse_quantity text) _ (rw t at h),
      λ h. rw t (Succeeds->>= (parse_quantity text) _ (h set) (λ q. (some q, refl))),
    )
  ]

  volume_source_iff :
      (h : Option HostPathVolume) (d : Option EmptyDirVolume) (c : Option PvcVolume)
      → Succeeds (volume_source parse_quantity h d c)
        ↔ ((e : EmptyDirVolume) → h ≡ none → d ≡ some e → ParsesIfSet e.size_limit)
  volume_source_iff (some h) d c = (λ _ e no_host. cc, λ _. (host_path_source h, refl))
  volume_source_iff none none c = (λ _ e _ here. cc, λ _. (pvc_source c, refl))
  volume_source_iff none (some e) c =
      let base =
        iff_trans (Succeeds-map_iff (size_limit_of parse_quantity e.size_limit) _)
          (size_limit_iff e.size_limit) in
      (
        λ s e' _ same. subst (λ x. ParsesIfSet x.size_limit) (some-injective e e' same) (base.0 s),
        λ h. base.1 (h e refl refl),
      )

  build_volume_iff : (v : VolumeSpec) → Succeeds (build_volume parse_quantity v) ↔ VolumeParses v
  unfolding build_volume
  build_volume_iff v =
      iff_trans (Succeeds-map_iff (volume_source parse_quantity v.host_path v.empty_dir v.pvc) _)
        (volume_source_iff v.host_path v.empty_dir v.pvc)

  build_volumes_iff :
      (volumes : List VolumeSpec)
      → Succeeds (build_volumes parse_quantity volumes) ↔ All VolumeParses volumes
  unfolding build_volumes
  build_volumes_iff [] = (λ _. tt, λ _. ([], refl))
  build_volumes_iff (v ∷ volumes) =
      let rest = build_volumes_iff volumes in
      >>=-Succeeds_iff (build_volume parse_quantity v) _ (build_volume_iff v)
        (λ vol _. iff_trans (Succeeds-map_iff (build_volumes parse_quantity volumes) _) rest)

  parse_into_iff :
      (entries : GoMap String) (list : GoMap Q)
      → Succeeds (parse_into parse_quantity entries list) ↔ EntriesParse entries
  unfolding parse_into
  parse_into_iff [] list = (λ _. tt, λ _. (list, refl))
  parse_into_iff ((k, v) ∷ entries) list =
      >>=-Succeeds_iff (parse_quantity v) _ ((λ s. s), (λ s. s))
        (λ q _. parse_into_iff entries (insert k q list))

  pub build_resources_iff :
      (res : Option RoleResources) (gpu : String)
      → Succeeds (build_resources parse_quantity res gpu) ↔ ResourcesParse res gpu
  unfolding build_resources
  build_resources_iff res gpu =
      iff_trans
        (>>=-Succeeds_iff _ _ (parse_into_iff (requests_of res) []) (λ req _.
          >>=-Succeeds_iff _ _ (parse_into_iff (limits_of res) []) (λ lim _.
            iff_trans (Succeeds-map_iff (gpu_quantity parse_quantity gpu) _) (size_limit_iff gpu))))
        (
          λ (r, (l, g)). record { requests = r; limits = l; gpu_count = g },
          λ h. (h.requests, (h.limits, h.gpu_count)),
        )

  -- What a role reads: the volumes of the spec and resources of its own.
  abbrev RoleParses : PdInferenceService → Option RoleResources → String → Type 0
  RoleParses pdis res gpu = All VolumeParses pdis.spec.volumes × ResourcesParse res gpu

  build_router_role_iff :
      (pdis : PdInferenceService) (cfg : MergedConfig)
      → Succeeds (build_router_role parse_quantity pdis cfg)
        ↔ RoleParses pdis pdis.spec.router.resources ""
  unfolding build_router_role
  build_router_role_iff pdis cfg =
      >>=-Succeeds_iff _ _ (build_volumes_iff pdis.spec.volumes) (λ vols _.
        iff_trans
          (Succeeds-map_iff (build_resources parse_quantity pdis.spec.router.resources "") _)
          (build_resources_iff pdis.spec.router.resources ""))

  build_inference_role_iff :
      (name : String) (pdis : PdInferenceService) (role : InferenceRoleSpec) (image : String)
      (command args : List String) (runtimes : List (RbgEngineRuntime Q))
      → Succeeds (build_inference_role parse_quantity name pdis role image command args runtimes)
        ↔ RoleParses pdis role.resources role.gpu
  unfolding build_inference_role
  build_inference_role_iff name pdis role image command args runtimes =
      >>=-Succeeds_iff _ _ (build_volumes_iff pdis.spec.volumes) (λ vols _.
        iff_trans (Succeeds-map_iff (build_resources parse_quantity role.resources role.gpu) _)
          (build_resources_iff role.resources role.gpu))

-- `Build` returns a group exactly when every quantity that it reads parses: the size limit of each
-- emptyDir volume (unless a hostPath is set too), the requests and limits of the three roles, and
-- the GPU counts of prefill and decode. Otherwise it panics.
pub build-Succeeds_iff :
    {Q : Type 0} (parse_quantity : String → Option Q) (pdis : PdInferenceService)
    (cfg : MergedConfig)
    → Succeeds (build parse_quantity pdis cfg) ↔ QuantitiesParse parse_quantity pdis
unfolding build
build-Succeeds_iff parse_quantity pdis cfg =
    iff_trans
      (>>=-Succeeds_iff _ _ (build_router_role_iff parse_quantity pdis cfg) (λ router _.
        >>=-Succeeds_iff _ _
          (build_inference_role_iff parse_quantity "prefill" pdis pdis.spec.prefill _ _ _ _)
          (λ prefill _.
            iff_trans (Succeeds-map_iff _ _)
              (build_inference_role_iff parse_quantity "decode" pdis pdis.spec.decode _ _ _ _))))
      (
        λ ((vols, r), ((_, p), (_, d))). record {
          volumes = vols;
          router = r;
          prefill = p;
          decode = d;
        },
        λ h. ((h.volumes, h.router), ((h.volumes, h.prefill), (h.volumes, h.decode))),
      )
