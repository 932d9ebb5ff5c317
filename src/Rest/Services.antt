-- ===== src/Rest/Services.antt =====
-- internal/apiserver/handler/pdinferenceservice.go
use pd_manager.Common.{
  String, not, Option, none, some, List, Result, ok, err, Error, is_not_found, ◌==◌, if◌then◌else◌,
  ℤ,
}
use pd_manager.Api.{
  NamespacedName, ObjectMeta, PdInferenceService, PdInferenceServiceSpec, InferenceRoleSpec,
}
use pd_manager.Rest.Http.{
  RoleUpdate, UpdateRequest, Response, json, json_service, json_services, http_error, bad_request,
  server_error, not_found_response, ok_header,
}
use pd_manager.Rest.Upstream.{Backend}

abbrev pub default_namespace : String
default_namespace = "default"

-- `types.NamespacedName{Name: name, Namespace: "default"}`
abbrev pub default_key : String → NamespacedName
default_key name = record { namespace = default_namespace; name = name }

-- `if ns == "" { ns = "default" }`, on the metadata of an object
abbrev pub with_namespace : ObjectMeta → ObjectMeta
with_namespace metadata = record metadata {
  namespace = if metadata.namespace == "" then default_namespace else metadata.namespace;
}

-- The answer to a read that failed.
abbrev pub read_error : Error → Response
read_error e = if is_not_found e then not_found_response else server_error e

-- `*req.Spec.Prefill.Replicas` where no pointer on the way is nil
abbrev pub requested_replicas : Option RoleUpdate → ℤ → ℤ
requested_replicas none replicas = replicas
requested_replicas (some update) replicas = elim update.replicas [ none ↦ replicas | some n ↦ n ]

unfoldable pub scale : UpdateRequest → PdInferenceService → PdInferenceService
scale req pdis =
    let prefill : InferenceRoleSpec = record (pdis.spec.prefill) {
      replicas = requested_replicas req.prefill pdis.spec.prefill.replicas;
    } in
    let decode : InferenceRoleSpec = record (pdis.spec.decode) {
      replicas = requested_replicas req.decode pdis.spec.decode.replicas;
    } in
    let spec : PdInferenceServiceSpec = record (pdis.spec) { prefill = prefill; decode = decode } in
    record pdis { spec = spec }

module _ (b : Backend) where
  open b use {World, list_services, get_service, create_service, update_service, delete_service}

  -- The answer to a write that returns the service.
  abbrev create_answer : Result PdInferenceService → Response
  create_answer (err e) = server_error e
  create_answer (ok pdis) = json 201 (json_service pdis)

  abbrev pub create_decoded : PdInferenceService → World → Response × World
  create_decoded pdis w =
      let sent : PdInferenceService = record pdis { metadata = with_namespace pdis.metadata } in
      (create_answer (create_service sent w).0, (create_service sent w).1)

  -- `Create`
  unfoldable pub create : Result PdInferenceService → World → Response × World
  create (err e) w = (bad_request e, w)
  create (ok pdis) w = create_decoded pdis w

  abbrev list_answer : Result (List PdInferenceService) → Response
  list_answer (err e) = server_error e
  list_answer (ok items) = json 200 (json_services items)

  -- `List`
  unfoldable pub list : World → Response × World
  list w = (list_answer (list_services default_namespace w), w)

  abbrev get_answer : Result PdInferenceService → Response
  get_answer (err e) = read_error e
  get_answer (ok pdis) = json 200 (json_service pdis)

  -- `Get`
  unfoldable pub get : String → World → Response × World
  get name w = (get_answer (get_service (default_key name) w), w)

  abbrev update_answer : Result PdInferenceService → Response
  update_answer (err e) = server_error e
  update_answer (ok pdis) = json 200 (json_service pdis)

  -- `Update` from the answer to its read on.
  abbrev pub update_on : UpdateRequest → Result PdInferenceService → World → Response × World
  update_on req (err e) w = (read_error e, w)
  update_on req (ok pdis) w =
      (update_answer (update_service (scale req pdis) w).0, (update_service (scale req pdis) w).1)

  abbrev update_decoded : String → UpdateRequest → World → Response × World
  update_decoded name req w =
      if not (req.model == "")
      then (http_error "model is immutable" 400, w)
      else update_on req (get_service (default_key name) w) w

  -- `Update`
  unfoldable pub update : String → Result UpdateRequest → World → Response × World
  unfolding scale
  update name (err e) w = (bad_request e, w)
  update name (ok req) w = update_decoded name req w

  abbrev delete_answer : Result (Unit {0}) → Response
  delete_answer (err e) = if is_not_found e then ok_header else server_error e
  delete_answer (ok _) = ok_header

  -- `Delete` from the answer to its read on.
  abbrev pub delete_on : Result PdInferenceService → World → Response × World
  delete_on (err e) w = if is_not_found e then (ok_header, w) else (server_error e, w)
  delete_on (ok pdis) w = (delete_answer (delete_service pdis w).0, (delete_service pdis w).1)

  -- `Delete`
  unfoldable pub delete : String → World → Response × World
  delete name w = delete_on (get_service (default_key name) w) w
