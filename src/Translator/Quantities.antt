-- ===== src/Translator/Quantities.antt =====
-- Which quantity a container asks for under each resource name.
use mathlib.Core.Option.{some-injective}
use pd_manager.Common.{
  ◌≡◌, inl, inr, String, not, ◌&&◌, Option, none, some, [], ◌∷◌, GoMap, lookup, insert,
  lookup-insert, IsMap, refl, ap, sym, arith, eq_iff, String-cases, ◌==◌, if◌then◌else◌, ◌∙◌,
}
use pd_manager.Common.Panics.{◌>>=◌, >>=-eq-some}
use pd_manager.Api.{RoleResources}
use pd_manager.Workload.{ResourceRequirements}
use pd_manager.Translator.Resources.{
  parse_into, gpu_quantity, add_gpu, unless_empty, build_resources, requests_of, limits_of,
  gpu_resource,
}

module _ {Q : Type 0} where
  -- The entry of a list that may be nil.
  abbrev pub quantity_at : String → Option (GoMap Q) → Option Q
  quantity_at k none = none
  quantity_at k (some list) = lookup k list

  pub quantity_at-unless_empty :
      (k : String) (list : GoMap Q) → quantity_at k (unless_empty list) ≡ lookup k list
  quantity_at-unless_empty k [] = refl
  quantity_at-unless_empty k (e ∷ list) = refl

module _ {Q : Type 0} (parse_quantity : String → Option Q) where
  -- An entry of the source map wins over what the list held.
  abbrev parsed_or : Option String → Option Q → Option Q
  parsed_or none old = old
  parsed_or (some v) old = parse_quantity v

  lookup-parse_into :
      (k : String) (entries : GoMap String) (list out : GoMap Q)
      → IsMap entries
      → parse_into parse_quantity entries list ≡ some out
      → lookup k out ≡ parsed_or (lookup k entries) (lookup k list)
  unfolding parse_into
  lookup-parse_into k [] list out distinct h = cc
  lookup-parse_into k ((j, v) ∷ entries) list out distinct h =
      let (q, parsed, rest) = >>=-eq-some (parse_quantity v) _ h in
      let ih = lookup-parse_into k entries (insert j q list) out distinct.1 rest in
      ground (arith, ih, parsed, lookup-insert j k q list, eq_iff k j, distinct.0)

  -- What is asked for under `k`, given the map of the spec and the GPU count of the role.
  abbrev pub wanted : String → GoMap String → String → Option Q
  wanted gpu entries k =
      if not (gpu == "") && k == gpu_resource
      then parse_quantity gpu
      else (lookup k entries >>= parse_quantity)

  lookup-add_gpu :
      (gpu : String) (qty : Option Q) (list : GoMap Q) (k : String)
      → gpu_quantity parse_quantity gpu ≡ some qty
      → lookup k (add_gpu qty list)
        ≡ (if not (gpu == "") && k == gpu_resource then parse_quantity gpu else lookup k list)
  lookup-add_gpu gpu qty list k h = elim (String-cases gpu "") [
    | inl (unset, t) ↦ ground (arith, t)
    | inr (set, t) ↦
        let (q, parsed, same) = >>=-eq-some (parse_quantity gpu) _ (rw t at h) in
        ground (arith, t, parsed, same, lookup-insert gpu_resource k q list)
  ]

  wanted_lem :
      (gpu : String) (qty : Option Q) (entries : GoMap String) (list : GoMap Q) (k : String)
      → IsMap entries
      → parse_into parse_quantity entries [] ≡ some list
      → gpu_quantity parse_quantity gpu ≡ some qty
      → quantity_at k (unless_empty (add_gpu qty list)) ≡ wanted gpu entries k
  wanted_lem gpu qty entries list k distinct parsed counted = ground (
    arith,
    quantity_at-unless_empty k (add_gpu qty list),
    lookup-add_gpu gpu qty list k counted,
    lookup-parse_into k entries [] list distinct parsed,
  )

-- The resource lists of a container: under "nvidia.com/gpu" both hold the GPU count of the role, if
-- it has one; under any other name, and there too if it has none, each holds the parsed entry of
-- its own map in the spec, or nothing where that has none.
pub build_resources-lookup :
    {Q : Type 0} (parse_quantity : String → Option Q) (res : Option RoleResources) (gpu k : String)
    (built : ResourceRequirements Q)
    → IsMap (requests_of res)
    → IsMap (limits_of res)
    → build_resources parse_quantity res gpu ≡ some built
    → (quantity_at k built.requests ≡ wanted parse_quantity gpu (requests_of res) k)
      × (quantity_at k built.limits ≡ wanted parse_quantity gpu (limits_of res) k)
unfolding build_resources
build_resources-lookup parse_quantity res gpu k built distinct_requests distinct_limits h =
    let (req, parsed_requests, h1) =
      >>=-eq-some (parse_into parse_quantity (requests_of res) []) _ h in
    let (lim, parsed_limits, h2) =
      >>=-eq-some (parse_into parse_quantity (limits_of res) []) _ h1 in
    let (qty, counted, same) = >>=-eq-some (gpu_quantity parse_quantity gpu) _ h2 in
    let requests =
      wanted_lem parse_quantity gpu qty (requests_of res) req k distinct_requests parsed_requests
        counted in
    let limits =
      wanted_lem parse_quantity gpu qty (limits_of res) lim k distinct_limits parsed_limits
        counted in
    let built_as = some-injective _ _ same in
    (
      ap (λ r. quantity_at k r.requests) (sym built_as) ∙ requests,
      ap (λ r. quantity_at k r.limits) (sym built_as) ∙ limits,
    )
