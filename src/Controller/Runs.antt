-- ===== src/Controller/Runs.antt =====
-- Reconciliations of one live service, one after the other.
use pd_manager.Common.{◌≡◌, true, ok, returned, sym, ap, ◌∙◌}
use pd_manager.Platform.{Platform}
use pd_manager.Cluster.{Client, ClientLaws, IsFresh, KeepsProfiles}
use pd_manager.Api.{NamespacedName, PdInferenceService, is_zero}
use pd_manager.Controller.Reconcile.{poll_again, ensure_finalizer, reconcile, reconcile_live}
use pd_manager.Controller.Profiles.{ensure_finalizer-KeepsProfile, reconcile_live-KeepsProfile}

-- One run of the reconciler on a live service that reads as it is stored, to its end.
pub record Run (p : Platform) (c : Client p) (laws : ClientLaws p c) (request : NamespacedName)
    (pdis : PdInferenceService) (w w' : c.World) : Type 0 where
  pub fetched : c.get_service request w ≡ ok pdis
  pub fresh : IsFresh p c laws request w
  pub live : is_zero pdis.metadata.deletion_timestamp ≡ true
  pub done : reconcile p c request w ≡ (returned (ok poll_again), w')

-- Any number of such runs, one after the other.
pub data Runs (p : Platform) (c : Client p) (laws : ClientLaws p c) (request : NamespacedName)
    : c.World → c.World → Type 0 where
  no_run : (w : c.World) → Runs p c laws request w w
  then_run :
      (pdis : PdInferenceService) (w w' w'' : c.World)
      → Run p c laws request pdis w w'
      → Runs p c laws request w' w''
      → Runs p c laws request w w''

-- A run that has begun with a live service leaves every profile as the run's own first step has left
-- it.
pub Run-profiles :
    (p : Platform) (c : Client p) (laws : ClientLaws p c) (kept : KeepsProfiles p c)
    (request : NamespacedName) (pdis : PdInferenceService) (w w' : c.World)
    → Run p c laws request pdis w w'
    → (k : NamespacedName) → c.get_profile k w' ≡ c.get_profile k (ensure_finalizer p c pdis w).1
unfolding reconcile
Run-profiles p c laws kept request pdis w w' run k =
    let fetched = run.fetched in
    let live = run.live in
    let done = run.done in
    let start : reconcile_live p c pdis w ≡ (returned (ok poll_again), w') =
      rw (fetched, live) at done in
    ap (λ t. c.get_profile k t.1) (sym start)
    ∙ reconcile_live-KeepsProfile p c kept k pdis w
    ∙ sym (ensure_finalizer-KeepsProfile p c kept k pdis w)
