-- ===== src/Controller/Stability.antt =====
-- Further reconciliations ask for what the first has asked for.
use mathlib.Core.Path.{fun_ext}
use mathlib.Core.Option.{some-injective}
use pd_manager.Common.{
  ◌≡◌, String, Option, true, some, Result, ok, returned, returned-injective, ok-injective, refl,
  sym, ap, ◌∙◌,
}
use pd_manager.Platform.{Platform, FinalizerLaws}
use pd_manager.Cluster.{Client, ClientLaws, KeepsProfiles}
use pd_manager.Api.{NamespacedName, PdEngineProfile, PdInferenceService, PdInferenceServiceStatus}
use pd_manager.Config.{MergedConfig, resolve, load_profile}
use pd_manager.Translator.{build, build_router_role, build_inference_role}
use pd_manager.Workload.{RoleBasedGroup}
use pd_manager.Controller.Reconcile.{ensure_finalizer, finalizer, synced_status}
use pd_manager.Controller.Convergence.{reconcile-IsConverged}
use pd_manager.Controller.Runs.{Run, Run-profiles, Runs, no_run, then_run}

-- The same service with another status.
abbrev with_status : PdInferenceService → PdInferenceServiceStatus → PdInferenceService
with_status pdis status = record pdis { status = status }

-- Neither the merge nor the translation reads the status.
resolve-with_status :
    (quote : String → String) (get : NamespacedName → Result PdEngineProfile)
    (pdis : PdInferenceService) (status : PdInferenceServiceStatus)
    → resolve quote get (with_status pdis status) ≡ resolve quote get pdis
unfolding resolve load_profile
resolve-with_status quote get pdis status = refl

build-with_status :
    {Q : Type 0} (parse_quantity : String → Option Q) (pdis : PdInferenceService)
    (status : PdInferenceServiceStatus) (cfg : MergedConfig)
    → build parse_quantity (with_status pdis status) cfg ≡ build parse_quantity pdis cfg
unfolding build build_router_role build_inference_role
build-with_status parse_quantity pdis status cfg = refl

module _ (p : Platform) (c : Client p) where
  -- A service that has the finalizer is left as it is.
  ensure_finalizer_present :
      (pdis : PdInferenceService) (w : c.World)
      → p.contains_finalizer finalizer pdis.metadata.finalizers ≡ true
      → ensure_finalizer p c pdis w ≡ (returned (ok pdis), w)
  unfolding ensure_finalizer
  ensure_finalizer_present pdis w present = rw present refl

-- What two moments have in common: the stored group has the same roles, and the stored service the
-- same metadata and spec.
pub record IsStable (p : Platform) (c : Client p) (laws : ClientLaws p c) (request : NamespacedName)
    (w' w'' : c.World) : Type 0 where
  pub first : PdInferenceService
  pub second : PdInferenceService
  pub first_group : RoleBasedGroup p.Quantity
  pub second_group : RoleBasedGroup p.Quantity
  pub first_stored : laws.stored_service request w' ≡ some first
  pub second_stored : laws.stored_service request w'' ≡ some second
  pub first_applied : laws.stored_group request w' ≡ some first_group
  pub second_applied : laws.stored_group request w'' ≡ some second_group
  pub metadata : second.metadata ≡ first.metadata
  pub spec : second.spec ≡ first.spec
  pub roles : second_group.roles ≡ first_group.roles

two_runs-IsStable :
    (p : Platform) (c : Client p) (laws : ClientLaws p c) (finalizers : FinalizerLaws p)
    (kept : KeepsProfiles p c) (request : NamespacedName) (pdis again : PdInferenceService)
    (w w' w'' : c.World)
    → Run p c laws request pdis w w'
    → Run p c laws request again w' w''
    → IsStable p c laws request w' w''
two_runs-IsStable p c laws finalizers kept request pdis again w w' w'' run run' =
    let fetched' = run'.fetched in
    let profiles = Run-profiles p c laws kept request pdis w w' run in
    let one =
      reconcile-IsConverged p c laws finalizers request pdis w w' run.fetched run.fresh run.live
        run.done in
    let two =
      reconcile-IsConverged p c laws finalizers request again w' w'' fetched' run'.fresh run'.live
        run'.done in
    let synced = (synced_status p c (c.now one.applied_at) one.seen one.ensured).status in
    let same : again ≡ with_status one.ensured synced =
      some-injective _ _ (sym (run'.fresh again fetched') ∙ one.stored_service) in
    let present =
      ap (λ s. p.contains_finalizer finalizer s.metadata.finalizers) same ∙ one.finalized in
    let ensured_again = ensure_finalizer_present p c again w' present in
    let unchanged : two.ensured ≡ again =
      returned-injective _ _ (sym two.started ∙ ap (λ t. t.0) ensured_again) in
    let is_first : two.ensured ≡ with_status one.ensured synced = unchanged ∙ same in
    let gets =
      fun_ext (λ (k : NamespacedName). ap (λ t. c.get_profile k t.1) ensured_again ∙ profiles k) in
    let read_again =
      ap (λ get. resolve p.quote get two.ensured) gets
      ∙ ap (resolve p.quote _) is_first
      ∙ resolve-with_status p.quote _ one.ensured synced in
    let configs : two.cfg ≡ one.cfg = ok-injective _ _ (sym two.merged ∙ read_again ∙ one.merged) in
    let built_again =
      ap (λ s. build p.parse_quantity s two.cfg) is_first
      ∙ build-with_status p.parse_quantity one.ensured synced two.cfg
      ∙ ap (build p.parse_quantity one.ensured) configs in
    let desired : two.desired ≡ one.desired =
      some-injective _ _ (sym two.built ∙ built_again ∙ one.built) in
    record {
      first = _;
      second = _;
      first_group = one.group;
      second_group = two.group;
      first_stored = one.stored_service;
      second_stored = two.stored_service;
      first_applied = one.stored_group;
      second_applied = two.stored_group;
      metadata = ap (λ s. s.metadata) is_first;
      spec = ap (λ s. s.spec) is_first;
      roles = two.roles ∙ ap (λ g. g.roles) desired ∙ sym one.roles;
    }

-- Stability of two stretches is stability of both together.
IsStable-trans :
    (p : Platform) (c : Client p) (laws : ClientLaws p c) (request : NamespacedName)
    (u v w : c.World)
    → IsStable p c laws request u v
    → IsStable p c laws request v w
    → IsStable p c laws request u w
IsStable-trans p c laws request u v w one two =
    let same_service : two.first ≡ one.second =
      some-injective _ _ (sym two.first_stored ∙ one.second_stored) in
    let same_group : two.first_group ≡ one.second_group =
      some-injective _ _ (sym two.first_applied ∙ one.second_applied) in
    record {
      first = one.first;
      second = two.second;
      first_group = one.first_group;
      second_group = two.second_group;
      first_stored = one.first_stored;
      second_stored = two.second_stored;
      first_applied = one.first_applied;
      second_applied = two.second_applied;
      metadata = two.metadata ∙ ap (λ s. s.metadata) same_service ∙ one.metadata;
      spec = two.spec ∙ ap (λ s. s.spec) same_service ∙ one.spec;
      roles = two.roles ∙ ap (λ g. g.roles) same_group ∙ one.roles;
    }

-- If a write of a service or a group touches no profile, then once a live service has been
-- reconciled to the end, no number of further reconciliations to the end, each of which reads it as
-- it is stored, changes the metadata
-- or the spec of the stored service or the roles of its stored group.
pub reconcile-IsStable :
    (p : Platform) (c : Client p) (laws : ClientLaws p c) (finalizers : FinalizerLaws p)
    (kept : KeepsProfiles p c) (request : NamespacedName) (pdis : PdInferenceService)
    (w w' w'' : c.World)
    → Run p c laws request pdis w w'
    → Runs p c laws request w' w''
    → IsStable p c laws request w' w''
reconcile-IsStable p c laws finalizers kept request pdis w w' _ run (no_run _) =
    let one =
      reconcile-IsConverged p c laws finalizers request pdis w w' run.fetched run.fresh run.live
        run.done in
    record {
      first = _;
      second = _;
      first_group = one.group;
      second_group = one.group;
      first_stored = one.stored_service;
      second_stored = one.stored_service;
      first_applied = one.stored_group;
      second_applied = one.stored_group;
      metadata = refl;
      spec = refl;
      roles = refl;
    }
reconcile-IsStable p c laws finalizers kept request pdis w w' w'' run
      (then_run again _ v _ next rest) =
    let here = two_runs-IsStable p c laws finalizers kept request pdis again w w' v run next in
    let later = reconcile-IsStable p c laws finalizers kept request again w' v w'' next rest in
    IsStable-trans p c laws request w' v w'' here later
