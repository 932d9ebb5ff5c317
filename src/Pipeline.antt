-- ===== src/Pipeline.antt =====
-- From admission to the group: what a service that `ValidateCreate` admits is merged and translated
-- into (internal/webhook, internal/config and internal/translator together).
pub mod Replicas
pub mod Reconciled
use mathlib.Core.Path.{subst}
use pd_manager.Common.{
  ◌≡◌, ◌≢◌, inl, inr, String, Option, none, some, List, [], ◌∷◌, map, All, Any, get_elem?, zero,
  suc, ℕ, Result, ok, refl, sym, ◌∙◌,
}
use pd_manager.Api.{
  NamespacedName, PdEngineProfile, PdInferenceService, VolumeSpec, VolumeMountSpec, Role, router,
  prefill, decode, inline_args, inline_mounts,
}
use pd_manager.Config.{MergedConfig, resolve, profile_key}
use pd_manager.Config.Roles.{merged_image, merged_args, default_args}
use pd_manager.Config.Precedence.{resolve-eq-ok_iff, resolve_total}
use pd_manager.Webhook.{service, validate_create}
use pd_manager.Webhook.Defined.{IsDefined, MountsDefined}
use pd_manager.Webhook.Admission.{IsAdmissible, HasRoles, validate_create-eq-none_iff}
use pd_manager.Workload.{Volume, RoleSpec, RoleBasedGroup}
use pd_manager.Translator.{build, build_volume_mount}
use pd_manager.Translator.Contract.{IsRoleOf, IsGroupOf}
use pd_manager.Translator.Shape.{build-IsGroupOf}

module _ {Q : Type 0} where
  -- Every mount of every container of the role names a volume of its pod.
  abbrev pub MountsResolve : RoleSpec Q → Type 0
  MountsResolve role =
      All (λ c. All (λ m. Any (λ v. v.name ≡ m.name) role.template.volumes) c.volume_mounts)
        role.template.containers

  -- Every container of the role has an image and arguments.
  abbrev pub IsRunnable : RoleSpec Q → Type 0
  IsRunnable role = All (λ c. (c.image ≢ "") × (c.args ≢ [])) role.template.containers

  -- A property of the names of a list depends on the names alone.
  Any-names :
      (volumes : List (Volume Q)) (specs : List VolumeSpec) (name : String)
      → map (λ v. v.name) volumes ≡ map (λ v. v.name) specs
      → IsDefined specs name
      → Any (λ v. v.name ≡ name) volumes
  Any-names [] [] name same h = absurd h
  Any-names [] (s ∷ specs) name same h = cc
  Any-names (v ∷ volumes) [] name same h = absurd h
  Any-names (v ∷ volumes) (s ∷ specs) name same (inl here) = inl (cc)
  Any-names (v ∷ volumes) (s ∷ specs) name same (inr there) =
      let later : map (λ v. v.name) volumes ≡ map (λ v. v.name) specs = cc in
      inr (Any-names volumes specs name later there)

  All-mounts :
      (volumes : List (Volume Q)) (mounts : List VolumeMountSpec)
      → ((i : ℕ) (m : VolumeMountSpec)
          → get_elem? mounts i ≡ some m
          → Any (λ v. v.name ≡ m.name) volumes)
      → All (λ m. Any (λ v. v.name ≡ m.name) volumes) (map build_volume_mount mounts)
  All-mounts volumes [] h = tt
  All-mounts volumes (m ∷ mounts) h = (h zero m refl, All-mounts volumes mounts (λ i. h (suc i)))

module _ {Q : Type 0} (parse_quantity : String → Option Q) (pdis : PdInferenceService)
    (cfg : MergedConfig) (r : Role) (role : RoleSpec Q) where
  IsRoleOf-MountsResolve :
      MountsDefined pdis.spec → IsRoleOf parse_quantity pdis.spec cfg r role → MountsResolve role
  IsRoleOf-MountsResolve defined h =
      subst (All (λ c. All (λ m. Any (λ v. v.name ≡ m.name) role.template.volumes) c.volume_mounts))
        (sym h.only)
        (
          subst (All (λ m. Any (λ v. v.name ≡ m.name) role.template.volumes)) (sym h.mounts) (
              All-mounts role.template.volumes (inline_mounts pdis.spec r) (λ i m at.
                Any-names role.template.volumes pdis.spec.volumes m.name h.volumes
                  (defined r i m at))),
          tt,
        )

  IsRoleOf-IsRunnable :
      merged_image cfg r ≢ ""
      → merged_args cfg r ≢ []
      → IsRoleOf parse_quantity pdis.spec cfg r role
      → IsRunnable role
  IsRoleOf-IsRunnable image args h =
      subst (All (λ c. (c.image ≢ "") × (c.args ≢ []))) (sym h.only)
        ((λ e. image (sym h.image ∙ e), λ e. args (sym h.args ∙ e)), tt)

-- A property of each of the three roles holds of every role of the group.
All-roles :
    {Q : Type 0} {parse_quantity : String → Option Q} {pdis : PdInferenceService}
    {cfg : MergedConfig} {group : RoleBasedGroup Q} (P : RoleSpec Q → Type 0)
    → IsGroupOf parse_quantity pdis cfg group
    → ((r : Role) (role : RoleSpec Q) → IsRoleOf parse_quantity pdis.spec cfg r role → P role)
    → All P group.roles
All-roles P h each = subst (All P) (sym h.roles) (
  each router h.router_role h.is_router,
  (each prefill h.prefill_role h.is_prefill, (each decode h.decode_role h.is_decode, tt)),
)

-- In the group of a service that `ValidateCreate` admits, every volume mount of every container
-- names a volume of its pod.
pub admitted-MountsResolve :
    {Q : Type 0} (parse_quantity : String → Option Q) (quote : String → String)
    (get : NamespacedName → Result PdEngineProfile) (pdis : PdInferenceService) (cfg : MergedConfig)
    (group : RoleBasedGroup Q)
    → validate_create quote get (service pdis) ≡ none
    → build parse_quantity pdis cfg ≡ some group
    → All MountsResolve group.roles
admitted-MountsResolve parse_quantity quote get pdis cfg group admitted built =
    let admissible = (validate_create-eq-none_iff quote get pdis).0 admitted in
    All-roles MountsResolve (build-IsGroupOf parse_quantity pdis cfg group built)
      (λ r role. IsRoleOf-MountsResolve parse_quantity pdis cfg r role admissible.mounts)

-- With no profile, the merged configuration of a role is what the service says inline.
resolved_inline :
    (quote : String → String) (get : NamespacedName → Result PdEngineProfile)
    (pdis : PdInferenceService) (cfg : MergedConfig)
    → pdis.spec.engine_profile_ref ≡ ""
    → HasRoles pdis.spec
    → resolve quote get pdis ≡ ok cfg
    → (r : Role) → (merged_image cfg r ≢ "") × (merged_args cfg r ≢ [])
resolved_inline quote get pdis cfg unset roles resolved r =
    let (_, _, merge) = (resolve-eq-ok_iff quote get pdis cfg).0 resolved in
    (
      λ e. roles.image r (sym ((merge.image r).0 (roles.image r)) ∙ e),
      λ e. roles.args r (sym ((merge.args r).0 (roles.args r)) ∙ e),
    )

-- If `ValidateCreate` admits a service that refers to no profile, every container of its group has
-- an image and arguments.
pub admitted-IsRunnable :
    {Q : Type 0} (parse_quantity : String → Option Q) (quote : String → String)
    (get : NamespacedName → Result PdEngineProfile) (pdis : PdInferenceService) (cfg : MergedConfig)
    (group : RoleBasedGroup Q)
    → validate_create quote get (service pdis) ≡ none
    → pdis.spec.engine_profile_ref ≡ ""
    → resolve quote get pdis ≡ ok cfg
    → build parse_quantity pdis cfg ≡ some group
    → All IsRunnable group.roles
admitted-IsRunnable parse_quantity quote get pdis cfg group admitted unset resolved built =
    let admissible = (validate_create-eq-none_iff quote get pdis).0 admitted in
    let complete = resolved_inline quote get pdis cfg unset (admissible.roles unset) resolved in
    All-roles IsRunnable (build-IsGroupOf parse_quantity pdis cfg group built)
      (λ r role. IsRoleOf-IsRunnable parse_quantity pdis cfg r role (complete r).0 (complete r).1)

-- If a service refers to a profile that can be read, and neither gives some role arguments, then a
-- service that keeps the other rules of creation is admitted all the same, and `Resolve` succeeds
-- with no arguments for that role.
pub admitted_without_args :
    (quote : String → String) (get : NamespacedName → Result PdEngineProfile)
    (pdis : PdInferenceService) (profile : PdEngineProfile) (r : Role)
    → IsAdmissible get pdis
    → pdis.spec.engine_profile_ref ≢ ""
    → get (profile_key pdis) ≡ ok profile
    → inline_args pdis.spec r ≡ []
    → default_args (some profile) r ≡ []
    → (validate_create quote get (service pdis) ≡ none)
      × ((cfg : MergedConfig) × (resolve quote get pdis ≡ ok cfg) × (merged_args cfg r ≡ []))
admitted_without_args quote get pdis profile r admissible set found inline default =
    let (cfg, resolved, merge) = resolve_total quote get pdis (some profile) (set, found) in
    (
      (validate_create-eq-none_iff quote get pdis).1 admissible,
      (cfg, resolved, (merge.args r).1 inline ∙ default),
    )
