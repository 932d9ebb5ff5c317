-- ===== src/Tests/Reconciler.antt =====
-- Whole reconciliations, on concrete states of the cluster.
use pd_manager.Common.{
  ◌≡◌, ◌≢◌, some, [], ◌∷◌, ok, Error, wrapped, not_found, returned, refl, arith,
}
use pd_manager.Api.{ObjectMeta, PdInferenceService}
use pd_manager.Config.{resolve, load_profile, override_inline}
use pd_manager.Translator.{
  build, build_router_role, build_inference_role, build_volumes, build_volume, build_volume_mounts,
  build_resources, parse_into, build_probe, convert_engine_runtimes, resolve_engine_runtimes,
}
use pd_manager.Webhook.{default_spec}
use pd_manager.Cluster.{Client, ClientLaws, IsFresh}
use pd_manager.Cluster.Keyed.{find, put}
use pd_manager.Controller.Progress.{EndsWith, reconcile-EndsWith}
use pd_manager.Cluster.Store.Answers.{store_answers}
use pd_manager.Cluster.Store.{State, store, store_laws, store-IsFresh}
use pd_manager.Controller.{
  reconcile, reconcile_live, reconcile_with, ensure_finalizer, apply_rbg, sync_status, poll_again,
}
use pd_manager.Controller.Meaning.{IsDeleted}
use pd_manager.Controller.Groups.{reconcile-others, reconcile_deleted}
use pd_manager.Controller.Convergence.{IsConverged, reconcile-IsConverged}
use pd_manager.Tests.Samples.{
  platform, finalizer_laws, contains, inline_service, profiled_service, service_name, other_name,
  fresh_cluster,
}

abbrev pub server : Client platform
server = store platform

abbrev pub server_laws : ClientLaws platform server
server_laws = store_laws platform

abbrev pub start : State platform
start = fresh_cluster inline_service

abbrev deleted_service : PdInferenceService
deleted_service =
    let metadata : ObjectMeta = record (inline_service.metadata) {
      deletion_timestamp = some 4_000;
      finalizers = "pdai.io/finalizer" ∷ [];
    } in
    record inline_service { metadata = metadata }

abbrev deleted_cluster : State platform
deleted_cluster = fresh_cluster deleted_service

names_differ : other_name ≢ service_name
names_differ = cc

reconcile-others_example :
    server_laws.stored_group other_name (reconcile platform server service_name start).1
    ≡ server_laws.stored_group other_name start
reconcile-others_example =
    reconcile-others platform server server_laws service_name other_name start names_differ

deleted_fetched : server.get_service service_name deleted_cluster ≡ ok deleted_service
unfolding find
deleted_fetched = refl

is_deleted : IsDeleted deleted_service
is_deleted = (4_000, refl, omega arith)

reconcile_deleted_example :
    server_laws.stored_group service_name (reconcile platform server service_name deleted_cluster).1
    ≡ server_laws.stored_group service_name deleted_cluster
reconcile_deleted_example =
    reconcile_deleted platform server server_laws service_name service_name deleted_cluster
      deleted_service deleted_fetched is_deleted

pub fetched : server.get_service service_name start ≡ ok inline_service
unfolding find
fetched = refl

pub start-IsFresh : IsFresh platform server server_laws service_name start
start-IsFresh = store-IsFresh platform service_name start

abbrev pub finish : State platform
finish = (reconcile platform server service_name start).1

pub ran : reconcile platform server service_name start ≡ (returned (ok poll_again), finish)
unfolding reconcile reconcile_live reconcile_with ensure_finalizer contains find put default_spec
    apply_rbg sync_status resolve load_profile override_inline build build_router_role
    build_inference_role build_volumes build_volume build_volume_mounts build_resources parse_into
    build_probe convert_engine_runtimes resolve_engine_runtimes
ran = refl

reconcile-IsConverged_example :
    IsConverged platform server server_laws service_name inline_service start finish
reconcile-IsConverged_example =
    reconcile-IsConverged platform server server_laws finalizer_laws service_name inline_service
      start finish fetched start-IsFresh refl ran

-- The profile of the service is not there.
abbrev unresolved_cluster : State platform
unresolved_cluster = record (fresh_cluster profiled_service) { profiles = [] }

abbrev ensured_service : PdInferenceService
ensured_service =
    let metadata : ObjectMeta = record (profiled_service.metadata) {
      finalizers = "pdai.io/finalizer" ∷ [];
    } in
    record profiled_service { metadata = metadata }

abbrev unresolved : Error
unresolved = wrapped "get profile sglang-h100" (not_found "not found")

abbrev failed_cluster : State platform
failed_cluster = (reconcile platform server service_name unresolved_cluster).1

reconcile-EndsWith_example :
    (ensured : PdInferenceService) × ((ensure_finalizer platform server inline_service start).0
      ≡ returned (ok ensured))
    × EndsWith platform ensured
        (resolve platform.quote
          (λ k. server.get_profile k (ensure_finalizer platform server inline_service start).1)
          ensured)
        (reconcile platform server service_name start).0
reconcile-EndsWith_example =
    reconcile-EndsWith platform server server_laws (store_answers platform) service_name
      inline_service start fetched start-IsFresh refl
