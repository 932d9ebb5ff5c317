-- ===== src/Pipeline/Reconciled.antt =====
-- From the webhooks to the cluster: what the reconciliation of an admitted service leaves there
-- (internal/webhook, internal/config, internal/translator and internal/controller together).
use mathlib.Core.Path.{subst}
use pd_manager.Common.{
  ◌≡◌, inl, inr, String, true, none, some, All, Result, ok, returned, sym, ap, ◌∙◌, arith,
}
use pd_manager.Platform.{Platform, FinalizerLaws}
use pd_manager.Cluster.{Client, ClientLaws, IsFresh}
use pd_manager.Api.{
  NamespacedName, PdEngineProfile, PdInferenceService, PdInferenceServiceSpec, is_zero,
}
use pd_manager.Webhook.{service, validate_create, create_errors, default_spec}
use pd_manager.Workload.{RoleBasedGroup}
use pd_manager.Controller.{poll_again, reconcile, with_finalizers}
use pd_manager.Controller.Finalizers.{ensure_finalizer-admits}
use pd_manager.Controller.Convergence.{reconcile-IsConverged}
use pd_manager.Pipeline.{MountsResolve, admitted-MountsResolve}
use pd_manager.Pipeline.Replicas.{HasInt32Replicas, IsScheduled, admitted-IsScheduled}

-- A service that `ValidateCreate` admits and whose replica counts are `int32`s.
abbrev IsValid :
    (String → String) → (NamespacedName → Result PdEngineProfile) → PdInferenceService → Type 0
IsValid quote get pdis =
    (validate_create quote get (service pdis) ≡ none) × HasInt32Replicas pdis.spec

default_spec-HasInt32Replicas :
    (spec : PdInferenceServiceSpec) → HasInt32Replicas spec → HasInt32Replicas (default_spec spec)
unfolding default_spec
default_spec-HasInt32Replicas spec small = record {
  router = ground (arith, small.router);
  prefill = small.prefill;
  decode = small.decode;
}

module _ (p : Platform) (c : Client p) (laws : ClientLaws p c) where
  -- The finalizer and the defaults change nothing that `ValidateCreate` looks at.
  admitted-IsValid :
      (quote : String → String) (get : NamespacedName → Result PdEngineProfile)
      (pdis : PdInferenceService)
      → IsValid quote get pdis
      → IsValid quote get (record {
        metadata = (with_finalizers p c pdis).metadata;
        spec = default_spec pdis.spec;
        status = pdis.status;
      })
  unfolding validate_create create_errors default_spec
  admitted-IsValid quote get pdis (valid, small) =
      (valid, default_spec-HasInt32Replicas pdis.spec small)

-- The group of a service after its reconciliation: each role runs between 1 and 2^31 - 1 replicas,
-- and each volume mount of its containers names a volume of the pod.
pub record IsServed (p : Platform) (c : Client p) (laws : ClientLaws p c) (request : NamespacedName)
    (w : c.World) : Type 0 where
  pub group : RoleBasedGroup p.Quantity
  pub stored : laws.stored_group request w ≡ some group
  pub scheduled : All IsScheduled group.roles
  pub mounts : All MountsResolve group.roles

-- If mutating admission is `Default`, then the reconciliation of a live service, read up to date, that
-- `ValidateCreate` admits, with `int32` replica counts, leaves a group under its key, if it runs to
-- its end, in which each role runs between 1 and 2^31 - 1 replicas and each volume mount names a
-- volume of its pod.
pub reconcile-IsServed :
    (p : Platform) (c : Client p) (laws : ClientLaws p c) (finalizers : FinalizerLaws p)
    (request : NamespacedName) (pdis : PdInferenceService) (w w' : c.World)
    → ((spec : PdInferenceServiceSpec) → laws.admit spec ≡ default_spec spec)
    → c.get_service request w ≡ ok pdis
    → IsFresh p c laws request w
    → is_zero pdis.metadata.deletion_timestamp ≡ true
    → validate_create p.quote (λ k. c.get_profile k w) (service pdis) ≡ none
    → HasInt32Replicas pdis.spec
    → reconcile p c request w ≡ (returned (ok poll_again), w')
    → IsServed p c laws request w'
reconcile-IsServed p c laws finalizers request pdis w w' admits fetched fresh live admitted small
      done =
    let end = reconcile-IsConverged p c laws finalizers request pdis w w' fetched fresh live done in
    let get : NamespacedName → Result PdEngineProfile = λ k. c.get_profile k w in
    let key = laws.get_service_key request w pdis fetched in
    let held = ap (λ k. laws.stored_service k w) key ∙ fresh pdis fetched in
    let (valid, bounded) : IsValid p.quote get end.ensured =
      elim (ensure_finalizer-admits p c laws pdis end.ensured w live held end.started) [
        | inl kept ↦ subst (IsValid p.quote get) (sym kept) (admitted, small)
        | inr added ↦
            subst (IsValid p.quote get)
              (sym (
                added
                ∙ ap
                    (λ spec. record {
                      metadata = (with_finalizers p c pdis).metadata;
                      spec = spec;
                      status = pdis.status;
                    })
                    (admits pdis.spec)))
              (admitted-IsValid p c laws p.quote get pdis (admitted, small))
      ] in
    record {
      group = end.group;
      stored = end.stored_group;
      scheduled = subst (All IsScheduled) (sym end.roles) (
          admitted-IsScheduled p.parse_quantity p.quote get end.ensured end.cfg end.desired bounded
            valid end.built);
      mounts = subst (All MountsResolve) (sym end.roles) (
          admitted-MountsResolve p.parse_quantity p.quote get end.ensured end.cfg end.desired valid
            end.built);
    }
