-- ===== src/Tests/Stale.antt =====
-- A reconciliation whose cache has not seen the group that it has just created.
use pd_manager.Common.{◌≡◌, none, some, ok, err, not_found, Option, returned, refl}
use pd_manager.Api.{Phase, pending}
use pd_manager.Config.{resolve, load_profile, override_inline}
use pd_manager.Translator.{
  build, build_router_role, build_inference_role, build_volumes, build_volume, build_volume_mounts,
  build_resources, parse_into, build_probe, convert_engine_runtimes, resolve_engine_runtimes,
}
use pd_manager.Webhook.{default_spec}
use pd_manager.Cluster.{Client, ClientLaws, IsFresh}
use pd_manager.Cluster.Keyed.{find, put}
use pd_manager.Cluster.Store.{State, store-IsFresh}
use pd_manager.Controller.{
  reconcile, reconcile_live, reconcile_with, ensure_finalizer, apply_rbg, sync_status,
  compute_phase, set_ready_condition, poll_again,
}
use pd_manager.Controller.Truth.{IsTruthful, reconcile-IsTruthful}
use pd_manager.Tests.Samples.{platform, finalizer_laws, contains, inline_service, service_name}
use pd_manager.Tests.Reconciler.{server, server_laws, start, fetched}

-- The server in memory behind a cache that holds no group yet.
abbrev lagging : Client platform
lagging = record server { get_group = λ k w. err (not_found "not found") }

-- It keeps the laws all the same.
lagging_laws : ClientLaws platform lagging
lagging_laws = record {
  stored_service = server_laws.stored_service;
  stored_group = server_laws.stored_group;
  admit = server_laws.admit;
  get_group_key = λ k w g h. cc;
  get_service_key = server_laws.get_service_key;
  update_service_groups = server_laws.update_service_groups;
  update_status_groups = server_laws.update_status_groups;
  update_service_key = server_laws.update_service_key;
  update_service_stores = server_laws.update_service_stores;
  update_status_stores = server_laws.update_status_stores;
  update_status_keeps = server_laws.update_status_keeps;
  create_group_others = server_laws.create_group_others;
  create_group_stores = server_laws.create_group_stores;
  create_group_services = server_laws.create_group_services;
  update_group_others = server_laws.update_group_others;
  update_group_stores = server_laws.update_group_stores;
  update_group_services = server_laws.update_group_services;
}

abbrev late : State platform
late = (reconcile platform lagging service_name start).1

late_run : reconcile platform lagging service_name start ≡ (returned (ok poll_again), late)
unfolding reconcile reconcile_live reconcile_with ensure_finalizer contains find put default_spec
    apply_rbg sync_status resolve load_profile override_inline build build_router_role
    build_inference_role build_volumes build_volume build_volume_mounts build_resources parse_into
    build_probe convert_engine_runtimes resolve_engine_runtimes
late_run = refl

-- The phase that is stored beside the new group is Pending.
abbrev phases : State platform → Option Phase
phases w = elim (server.get_service service_name w) [ ok s ↦ some s.status.phase | err e ↦ none ]

late_phase : phases late ≡ some pending
unfolding reconcile reconcile_live reconcile_with ensure_finalizer contains find put default_spec
    apply_rbg sync_status resolve load_profile override_inline build build_router_role
    build_inference_role build_volumes build_volume build_volume_mounts build_resources parse_into
    build_probe convert_engine_runtimes resolve_engine_runtimes compute_phase set_ready_condition
late_phase = refl

start-IsFresh : IsFresh platform lagging lagging_laws service_name start
unfolding lagging_laws
start-IsFresh = store-IsFresh platform service_name start

reconcile-IsTruthful_example :
    IsTruthful platform lagging lagging_laws service_name inline_service start late
reconcile-IsTruthful_example =
    reconcile-IsTruthful platform lagging lagging_laws finalizer_laws service_name inline_service
      start late fetched start-IsFresh refl late_run
