-- ===== src/Tests/Runs.antt =====
-- Two reconciliations in a row, on a concrete cluster.
use pd_manager.Common.{none, ◌≡◌, ◌≢◌, sym, ◌∙◌, [], ◌∷◌, ok, some, returned, refl}
use pd_manager.Api.{ObjectMeta, PdInferenceService}
use pd_manager.Config.{resolve, load_profile, override_inline}
use pd_manager.Translator.{
  build, build_router_role, build_inference_role, build_volumes, build_volume, build_volume_mounts,
  build_resources, parse_into, build_probe, convert_engine_runtimes, resolve_engine_runtimes,
}
use pd_manager.Webhook.{default_spec, service, validate_create, create_errors}
use pd_manager.Pipeline.Reconciled.{IsServed, reconcile-IsServed}
use pd_manager.Cluster.{group_key}
use pd_manager.Cluster.Keyed.{find, put}
use pd_manager.Cluster.Store.{State, store_laws-stored_group, store_laws-admit, store-IsFresh}
use pd_manager.Controller.{
  reconcile, reconcile_live, reconcile_with, ensure_finalizer, apply_rbg, sync_status,
  compute_phase, poll_again, synced_status,
}
use pd_manager.Cluster.Store.Answers.{store_answers_by_key, store_keeps_profiles}
use pd_manager.Controller.Trace.{logged, IsInOrder}
use pd_manager.Controller.Protocol.{reconcile-IsInOrder}
use pd_manager.Controller.Ordering.{IsFinalized, reconcile-IsFinalized}
use pd_manager.Controller.Stability.{IsStable, reconcile-IsStable}
use pd_manager.Controller.Runs.{no_run, then_run}
use pd_manager.Tests.Samples.{platform, finalizer_laws, contains, inline_service, service_name}
use pd_manager.Tests.Webhook.{small}
use pd_manager.Tests.Translated.{inline_group}
use pd_manager.Tests.Reconciler.{server, server_laws, start, finish, fetched, start-IsFresh, ran}

created : server_laws.stored_group service_name finish ≢ server_laws.stored_group service_name start
unfolding reconcile reconcile_live reconcile_with ensure_finalizer contains find put default_spec
    apply_rbg sync_status resolve load_profile override_inline build build_router_role
    build_inference_role build_volumes build_volume build_volume_mounts build_resources parse_into
    build_probe convert_engine_runtimes resolve_engine_runtimes
created = λ h.
    let added : find group_key service_name finish.groups
        ≡ find group_key service_name start.groups =
      sym (store_laws-stored_group platform service_name finish)
      ∙ h
      ∙ store_laws-stored_group platform service_name start in
    cc

reconcile-IsFinalized_example : IsFinalized platform server server_laws service_name finish
reconcile-IsFinalized_example =
    reconcile-IsFinalized platform server server_laws finalizer_laws service_name service_name start
      start-IsFresh created

-- The service as the first run leaves it.
abbrev reconciled : PdInferenceService
reconciled =
    let metadata : ObjectMeta = record (inline_service.metadata) {
      finalizers = "pdai.io/finalizer" ∷ [];
    } in
    record (synced_status platform server start.clock (some inline_group) inline_service) {
      metadata = metadata;
    }

refetched : server.get_service service_name finish ≡ ok reconciled
unfolding reconcile reconcile_live reconcile_with ensure_finalizer contains find put default_spec
    apply_rbg sync_status resolve load_profile override_inline build build_router_role
    build_inference_role build_volumes build_volume build_volume_mounts build_resources parse_into
    build_probe convert_engine_runtimes resolve_engine_runtimes compute_phase
refetched = refl

abbrev second_finish : State platform
second_finish = (reconcile platform server service_name finish).1

ran_again :
    reconcile platform server service_name finish ≡ (returned (ok poll_again), second_finish)
unfolding reconcile reconcile_live reconcile_with ensure_finalizer contains find put default_spec
    apply_rbg sync_status resolve load_profile override_inline build build_router_role
    build_inference_role build_volumes build_volume build_volume_mounts build_resources parse_into
    build_probe convert_engine_runtimes resolve_engine_runtimes
ran_again = refl

reconcile-IsStable_example : IsStable platform server server_laws service_name finish second_finish
reconcile-IsStable_example =
    reconcile-IsStable platform server server_laws finalizer_laws (store_keeps_profiles platform)
      service_name inline_service start finish second_finish
      (record { fetched = fetched; fresh = start-IsFresh; live = refl; done = ran })
      (then_run reconciled finish second_finish second_finish
        (record {
          fetched = refetched;
          fresh = store-IsFresh platform service_name finish;
          live = refl;
          done = ran_again;
        })
        (no_run second_finish))

valid :
    validate_create platform.quote (λ k. server.get_profile k start) (service inline_service) ≡ none
unfolding validate_create create_errors
valid = refl

reconcile-IsServed_example : IsServed platform server server_laws service_name finish
reconcile-IsServed_example =
    reconcile-IsServed platform server server_laws finalizer_laws service_name inline_service start
      finish (store_laws-admit platform) fetched start-IsFresh refl valid small ran

reconcile-IsInOrder_example :
    IsInOrder service_name 3
      (reconcile platform (logged platform server) service_name (start, [])).1.1
reconcile-IsInOrder_example =
    reconcile-IsInOrder platform server (store_answers_by_key platform) service_name start
