-- ===== src/Tests/Samples.antt =====
-- A platform, two services, a profile and states of the cluster that the tests run on.
use pd_manager.Common.{
  ◌≡◌, ◌≢◌, pos, String, Bool, true, false, ◌||◌, Option, none, some, List, [], ◌∷◌, refl, arith,
  eq_iff, ◌==◌, if◌then◌else◌, Result, ok, err, not_found,
}
use pd_manager.Platform.{Platform, FinalizerLaws}
use pd_manager.Api.{
  NamespacedName, ObjectMeta, PdEngineProfile, PdInferenceService, PdInferenceServiceSpec, other,
  VolumeSpec, VolumeMountSpec, InferenceRoleSpec, RouterRoleSpec,
}
use pd_manager.Cluster.Store.{State}

unfoldable pub contains : String → List String → Bool
contains f [] = false
contains f (g ∷ fs) = g == f || contains f fs

unfoldable pub remove : String → List String → List String
remove f [] = []
remove f (g ∷ fs) = let rest = remove f fs in if g == f then rest else g ∷ rest

-- A text is its own quantity, unless it is "bad".
abbrev pub parse : String → Option String
parse text = if text == "bad" then none else some text

abbrev pub no_quote : String → String
no_quote s = s

abbrev pub platform : Platform
platform = record {
  Quantity = String;
  parse_quantity = parse;
  quote = no_quote;
  contains_finalizer = contains;
  add_finalizer = λ f fs. f ∷ fs;
  remove_finalizer = remove;
}

contains-remove_self : (f : String) (fs : List String) → contains f (remove f fs) ≡ false
unfolding contains remove
contains-remove_self f [] = refl
contains-remove_self f (g ∷ fs) = ground (arith, contains-remove_self f fs)

contains-remove_other :
    (f g : String) (fs : List String) → g ≢ f → contains g (remove f fs) ≡ contains g fs
unfolding contains remove
contains-remove_other f g [] h = refl
contains-remove_other f g (x ∷ fs) h =
    ground (arith, contains-remove_other f g fs h, eq_iff x f, eq_iff x g, eq_iff g f)

pub finalizer_laws : FinalizerLaws platform
unfolding contains
finalizer_laws = record {
  contains-add = λ f fs. ground (arith, eq_iff f f);
  contains-remove = contains-remove_self;
  contains-remove_ne = contains-remove_other;
}

abbrev pub metadata_of : String → ObjectMeta
metadata_of name = record {
  name = name;
  namespace = "ml";
  uid = "u-1";
  creation_timestamp = 1_000;
  deletion_timestamp = none;
  finalizers = [];
}

abbrev weights : VolumeSpec
weights = record {
  name = "weights";
  host_path = none;
  empty_dir = some (record { medium = "Memory"; size_limit = "16Gi" });
  pvc = none;
}

abbrev pub weights_mount : VolumeMountSpec
weights_mount = record { name = "weights"; mount_path = "/models"; read_only = true }

abbrev pub worker : InferenceRoleSpec
worker = record {
  image = "sglang:v1";
  replicas = pos 2;
  gpu = "8";
  gpu_type = "H100";
  resources = some (record { requests = ("cpu", "4") ∷ []; limits = ("cpu", "8") ∷ [] });
  volume_mounts = weights_mount ∷ [];
  command = [];
  args = "--tp" ∷ "8" ∷ [];
  readiness_probe = none;
  liveness_probe = none;
  engine_runtimes = [];
}

abbrev balancer : RouterRoleSpec
balancer = record {
  image = "router:v1";
  replicas = pos 1;
  resources = none;
  volume_mounts = [];
  command = [];
  args = "--pd" ∷ [];
  readiness_probe = none;
  liveness_probe = none;
}

abbrev pub inline_spec : PdInferenceServiceSpec
inline_spec = record {
  model = "llama";
  engine = "sglang";
  volumes = weights ∷ [];
  router = balancer;
  prefill = worker;
  decode = worker;
  pd_ratio = "1:2";
  engine_profile_ref = "";
  scaling = none;
}

-- A service that says everything inline.
abbrev pub inline_service : PdInferenceService
inline_service = record {
  metadata = metadata_of "chat";
  spec = inline_spec;
  status = record {
    phase = other "";
    endpoint = "";
    conditions = [];
    role_statuses = [];
    last_event = none;
  };
}

abbrev bare_worker : InferenceRoleSpec
bare_worker = record worker { image = ""; args = [] }

-- A service whose workers have neither image nor arguments of their own.
abbrev pub profiled_service : PdInferenceService
profiled_service =
    let spec : PdInferenceServiceSpec = record inline_spec {
      prefill = bare_worker;
      decode = bare_worker;
      engine_profile_ref = "sglang-h100";
    } in
    record inline_service { spec = spec }

-- The profile that it refers to. It gives images and no arguments.
abbrev pub profile : PdEngineProfile
profile = record {
  metadata = metadata_of "sglang-h100";
  spec = record {
    description = "";
    applicability = none;
    images = record { router = "router:v2"; prefill = "sglang:v2"; decode = "sglang:v2" };
    role_commands = none;
    role_args = none;
    engine_runtimes = none;
  };
}

abbrev pub get_profile : NamespacedName → Result PdEngineProfile
get_profile k = if k.name == "sglang-h100" then ok profile else err (not_found "no profile")

abbrev pub no_profile : NamespacedName → Result PdEngineProfile
no_profile k = err (not_found "no profile")

abbrev pub service_name : NamespacedName
service_name = record { namespace = "ml"; name = "chat" }

abbrev pub other_name : NamespacedName
other_name = record { namespace = "ml"; name = "other" }

-- A cluster with one service, one profile and no group.
abbrev pub fresh_cluster : PdInferenceService → State platform
fresh_cluster pdis = record {
  clock = 5_000;
  services = pdis ∷ [];
  profiles = profile ∷ [];
  groups = [];
}
