-- ===== src/Rest/Memory.antt =====
-- A Kubernetes API in memory, on which the handlers run in the tests. It keeps `BackendLaws` and
-- `ProfileLaws`. An object that is deleted stays, marked, as one does that has a finalizer.
pub mod Services
pub mod Profiles
use pd_manager.Common.{
  ◌≡◌, ◌≢◌, ◌⊎◌, inr, Option, none, some, List, Result, ok, err, Error, not_found, failure, refl,
  sym, ap, ◌∙◌, false,
}
use pd_manager.Api.{is_zero, NamespacedName, ObjectMeta, PdEngineProfile, PdInferenceService}
use pd_manager.Webhook.{default_spec}
use pd_manager.Cluster.{service_key, profile_key}
use pd_manager.Cluster.Keyed.{find, put, find-key, find-put_self, find-put_ne}
use pd_manager.Cluster.Store.{found_or_missing}
use pd_manager.Rest.{Backend, BackendLaws}
use pd_manager.Rest.Lifecycle.{Finds}

pub record Objects : Type 0 where
  pub services : List PdInferenceService
  pub profiles : List PdEngineProfile

abbrev find_service : NamespacedName → Objects → Option PdInferenceService
find_service k w = find service_key k w.services

abbrev find_profile : NamespacedName → Objects → Option PdEngineProfile
find_profile k w = find profile_key k w.profiles

abbrev put_service : PdInferenceService → Objects → Objects
put_service s w = record w { services = put service_key s w.services }

abbrev put_profile : PdEngineProfile → Objects → Objects
put_profile s w = record w { profiles = put profile_key s w.profiles }

abbrev add_service :
    Option PdInferenceService → PdInferenceService → Objects → Result PdInferenceService × Objects
add_service (some old) s w = (err (failure "already exists"), w)
add_service none s w =
    let admitted : PdInferenceService = record s { spec = default_spec s.spec } in
    (ok admitted, put_service admitted w)

abbrev replace_service :
    Option PdInferenceService → PdInferenceService → Objects → Result PdInferenceService × Objects
replace_service none s w = (err (not_found "not found"), w)
replace_service (some old) s w =
    let merged : PdInferenceService = record {
      metadata = s.metadata;
      spec = default_spec s.spec;
      status = old.status;
    } in
    (ok merged, put_service merged w)

abbrev marked : PdInferenceService → PdInferenceService
marked s =
    let metadata : ObjectMeta = record (s.metadata) { deletion_timestamp = some 1 } in
    record s { metadata = metadata }

abbrev mark_service : Option PdInferenceService → Objects → Result (Unit {0}) × Objects
mark_service none w = (err (not_found "not found"), w)
mark_service (some old) w = (ok tt, put_service (marked old) w)

abbrev add_profile :
    Option PdEngineProfile → PdEngineProfile → Objects → Result PdEngineProfile × Objects
add_profile (some old) s w = (err (failure "already exists"), w)
add_profile none s w = (ok s, put_profile s w)

abbrev replace_profile :
    Option PdEngineProfile → PdEngineProfile → Objects → Result PdEngineProfile × Objects
replace_profile none s w = (err (not_found "not found"), w)
replace_profile (some old) s w = (ok s, put_profile s w)

abbrev marked_profile : PdEngineProfile → PdEngineProfile
marked_profile s =
    let metadata : ObjectMeta = record (s.metadata) { deletion_timestamp = some 1 } in
    record s { metadata = metadata }

abbrev mark_profile : Option PdEngineProfile → Objects → Result (Unit {0}) × Objects
mark_profile none w = (err (not_found "not found"), w)
mark_profile (some old) w = (ok tt, put_profile (marked_profile old) w)

abbrev pub memory : Backend
memory = record {
  World = Objects;
  list_services = λ ns w. ok w.services;
  get_service = λ k w. found_or_missing (find_service k w);
  create_service = λ s w. add_service (find_service (service_key s) w) s w;
  update_service = λ s w. replace_service (find_service (service_key s) w) s w;
  delete_service = λ s w. mark_service (find_service (service_key s) w) w;
  list_profiles = λ ns w. ok w.profiles;
  get_profile = λ k w. found_or_missing (find_profile k w);
  create_profile = λ s w. add_profile (find_profile (profile_key s) w) s w;
  update_profile = λ s w. replace_profile (find_profile (profile_key s) w) s w;
  delete_profile = λ s w. mark_profile (find_profile (profile_key s) w) w;
}

module _ {A : Type 0} where
  found-some : (o : Option A) (s : A) → found_or_missing o ≡ ok s → o ≡ some s
  found-some none s h = cc
  found-some (some x) s h = cc

  found-none : (o : Option A) (e : Error) → found_or_missing o ≡ err e → o ≡ none
  found-none none e h = refl
  found-none (some x) e h = cc

  found-ok : (o : Option A) (s : A) → o ≡ some s → found_or_missing o ≡ ok s
  found-ok none s h = cc
  found-ok (some x) s h = cc
