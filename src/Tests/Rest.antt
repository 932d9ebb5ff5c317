-- ===== src/Tests/Rest.antt =====
-- Requests to the REST API, on objects in memory.
use pd_manager.Common.{
  ◌≡◌, ◌≢◌, ◌↔◌, inl, pos, String, some, none, List, [], ◌∷◌, ok, err, Error, failure, refl,
}
use pd_manager.Api.{ObjectMeta, PdInferenceService, PdEngineProfile, PdEngineProfileSpec}
use pd_manager.Cluster.Keyed.{find, put}
use pd_manager.Webhook.{default_spec}
use pd_manager.Rest.{
  UpdateRequest, Request, default_key, scale, create, update, delete, serve, find_endpoint,
  patterns, get_endpoint,
}
use pd_manager.Rest.Memory.{Objects, memory}
use pd_manager.Rest.Memory.Services.{memory_laws, memory-Finds}
use pd_manager.Rest.Memory.Profiles.{memory_profile_laws}
use pd_manager.Rest.Catalog.{Meets, handle, update_request}
use pd_manager.Rest.Catalog.Refines.{handle-Meets}
use pd_manager.Rest.Scaling.{Scales, update-Scales, update-others}
use pd_manager.Rest.Lifecycle.{IsCreated, IsGone, create-IsCreated, delete-IsGone}
use pd_manager.Rest.Routing.{Answers, find_endpoint-eq-some_iff, serve-keeps}
use pd_manager.Tests.Samples.{inline_service, other_name, profile}

-- The service, in the namespace "default".
abbrev served : PdInferenceService
served =
    let metadata : ObjectMeta = record (inline_service.metadata) { namespace = "default" } in
    record inline_service { metadata = metadata }

abbrev objects : Objects
objects = record { services = served ∷ []; profiles = profile ∷ [] }

abbrev no_objects : Objects
no_objects = record { services = []; profiles = [] }

-- Four decode instances.
abbrev four : UpdateRequest
four = record { model = ""; prefill = none; decode = some (record { replicas = some (pos 4) }) }

accepted : (update memory "chat" (ok four) objects).0.status ≡ 200
unfolding update find put default_spec scale
accepted = refl

update-Scales_example :
    (req : UpdateRequest) × (ok four ≡ ok req)
    × (req.model ≡ "")
    × Scales memory memory_laws "chat" req objects (update memory "chat" (ok four) objects)
update-Scales_example = update-Scales memory memory_laws "chat" (ok four) objects accepted

not_served : other_name ≢ default_key "chat"
not_served = cc

update-others_example :
    memory_laws.stored other_name (update memory "chat" (ok four) objects).1
    ≡ memory_laws.stored other_name objects
update-others_example =
    update-others memory memory_laws "chat" (ok four) objects other_name (inl not_served)

created : (create memory (ok served) no_objects).0.status ≡ 201
unfolding create find put default_spec
created = refl

create-IsCreated_example :
    (pdis : PdInferenceService) × (ok served ≡ ok pdis)
    × IsCreated memory memory_laws no_objects pdis (create memory (ok served) no_objects)
create-IsCreated_example =
    create-IsCreated memory memory_laws (ok served) no_objects memory-Finds created

deleted : (delete memory "chat" objects).0.status ≡ 200
unfolding delete find put
deleted = refl

delete-IsGone_example :
    IsGone (memory_laws.stored (default_key "chat") (delete memory "chat" objects).1)
delete-IsGone_example = delete-IsGone memory memory_laws "chat" objects deleted

abbrev chat_path : List String
chat_path = "api" ∷ "v1" ∷ "pd-inference-services" ∷ "chat" ∷ []

find_endpoint-eq-some_iff_example :
    (find_endpoint patterns "HEAD" chat_path ≡ some get_endpoint)
    ↔ Answers get_endpoint "HEAD" chat_path
find_endpoint-eq-some_iff_example = find_endpoint-eq-some_iff "HEAD" chat_path get_endpoint

abbrev no_body : Error
no_body = failure "EOF"

abbrev read_chat : Request
read_chat = record {
  method = "GET";
  path = chat_path;
  service_body = err no_body;
  update_body = err no_body;
  profile_body = err no_body;
}

serve-keeps_example : (serve memory read_chat objects).1 ≡ objects
serve-keeps_example = serve-keeps memory read_chat objects (inl (inl refl))

-- A profile in the namespace "default", and one without arguments to replace it by.
abbrev default_profile : PdEngineProfile
default_profile =
    let metadata : ObjectMeta = record (profile.metadata) { namespace = "default" } in
    record profile { metadata = metadata }

abbrev bare_profile : PdEngineProfile
bare_profile =
    let spec : PdEngineProfileSpec = record (profile.spec) { role_args = none } in
    record profile { spec = spec }

abbrev catalogued : Objects
catalogued = record { services = []; profiles = default_profile ∷ [] }

handle-Meets_example :
    Meets memory memory_profile_laws
      (update_request profile.metadata.name (ok bare_profile))
      catalogued
      (handle memory (update_request profile.metadata.name (ok bare_profile)) catalogued)
handle-Meets_example =
    handle-Meets memory memory_profile_laws (update_request profile.metadata.name (ok bare_profile))
      catalogued
