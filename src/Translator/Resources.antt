-- ===== src/Translator/Resources.antt =====
-- Resource requests and limits, and the GPUs that are added to both.
use pd_manager.Common.{
  String, Option, none, some, [], ◌∷◌, GoMap, insert, is_filled, ◌==◌, if◌then◌else◌,
}
use pd_manager.Common.Panics.{◌>>=◌}
use pd_manager.Api.{RoleResources}
use pd_manager.Workload.{ResourceRequirements}

abbrev pub gpu_resource : String
gpu_resource = "nvidia.com/gpu"

-- `res.Requests` of a pointer that may be nil
abbrev pub requests_of : Option RoleResources → GoMap String
requests_of none = []
requests_of (some res) = res.requests

abbrev pub limits_of : Option RoleResources → GoMap String
limits_of none = []
limits_of (some res) = res.limits

-- `if len(m) > 0 { field = m }`, on a field that is nil
abbrev pub unless_empty {ℓ} : {V : Type ℓ} → GoMap V → Option (GoMap V)
unless_empty m = if is_filled m then some m else none

-- `list["nvidia.com/gpu"] = gpuQty`, where there is a GPU quantity
abbrev pub add_gpu : {Q : Type 0} → Option Q → GoMap Q → GoMap Q
add_gpu none list = list
add_gpu (some q) list = insert gpu_resource q list

module _ {Q : Type 0} (parse_quantity : String → Option Q) where
  -- `for k, v := range entries { list[k] = resource.MustParse(v) }`
  unfoldable pub parse_into : GoMap String → GoMap Q → Option (GoMap Q)
  parse_into [] list = some list
  parse_into ((k, v) ∷ entries) list = do q ← parse_quantity v; parse_into entries (insert k q list)

  -- The GPU quantity, `none` where the role asks for no GPU.
  abbrev pub gpu_quantity : String → Option (Option Q)
  gpu_quantity gpu = if gpu == "" then some none else (parse_quantity gpu >>= λ q. some (some q))

  unfoldable pub build_resources : Option RoleResources → String → Option (ResourceRequirements Q)
  unfolding parse_into
  build_resources res gpu = do
    req ← parse_into (requests_of res) []
    lim ← parse_into (limits_of res) []
    qty ← gpu_quantity gpu
    some (record {
      requests = unless_empty (add_gpu qty req);
      limits = unless_empty (add_gpu qty lim);
    })
