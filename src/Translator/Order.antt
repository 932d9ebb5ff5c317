-- ===== src/Translator/Order.antt =====
-- Go walks the entries of a map in any order. What is translated from two maps with the same entries
-- is the same, as a map and in whether it panics.
use mathlib.Core.Option
use mathlib.Core.Option.{some-injective}
use mathlib.Core.Quot
use pd_manager.Common.{
  SameMap, MapOf, as_map, ◌≡◌, inl, inr, String, Option, some, [], ◌∷◌, GoMap, lookup, IsMap, refl,
  ap, sym, arith, eq_iff, eq_refl, ◌∙◌, Option-cases, String-cases,
}
use pd_manager.Common.Panics.{>>=-eq-some, Succeeds}
use pd_manager.Api.{RoleResources}
use pd_manager.Workload.{ResourceRequirements}
use pd_manager.Translator.Resources.{
  parse_into, gpu_quantity, add_gpu, unless_empty, build_resources, requests_of, limits_of,
}
use pd_manager.Translator.Totality.{Parses, EntriesParse, build_resources_iff}
use pd_manager.Translator.Quantities.{
  quantity_at, quantity_at-unless_empty, wanted, build_resources-lookup,
}

-- The resource lists of a container as maps, each nil or not.
abbrev pub as_maps : {Q : Type 0} → ResourceRequirements Q → Option (MapOf Q) × Option (MapOf Q)
as_maps built = (Option.map as_map built.requests, Option.map as_map built.limits)

unless_empty-SameMap :
    {V : Type 0} (m m' : GoMap V)
    → SameMap m m'
    → Option.map as_map (unless_empty m) ≡ Option.map as_map (unless_empty m')
unless_empty-SameMap [] [] same = refl
unless_empty-SameMap [] ((k, v) ∷ m') same = absurd (ground (arith, same k, eq_refl k))
unless_empty-SameMap ((k, v) ∷ m) [] same = absurd (ground (arith, same k, eq_refl k))
unless_empty-SameMap ((k, v) ∷ m) ((j, u) ∷ m') same = ap some (Quot.sound same)

module _ {Q : Type 0} (parse_quantity : String → Option Q) where
  EntriesParse-lookup :
      (m : GoMap String) (k v : String)
      → EntriesParse parse_quantity m
      → lookup k m ≡ some v
      → Parses parse_quantity v
  EntriesParse-lookup [] k v h found = cc
  EntriesParse-lookup ((j, u) ∷ m) k v h found = elim (String-cases k j) [
    | inl (here, t) ↦ rw (some-injective _ _ (rw t at found)) at (h.0)
    | inr (other, t) ↦ EntriesParse-lookup m k v h.1 (rw t at found)
  ]

  lookup-EntriesParse :
      (m : GoMap String)
      → IsMap m
      → ((k v : String) → lookup k m ≡ some v → Parses parse_quantity v)
      → EntriesParse parse_quantity m
  lookup-EntriesParse [] distinct h = tt
  lookup-EntriesParse ((j, u) ∷ m) distinct h = (
    h j u (ground (arith, eq_refl j)),
    lookup-EntriesParse m distinct.1
        (λ k v found. h k v (ground (arith, eq_iff k j, found, distinct.0))),
  )

  EntriesParse-SameMap :
      (m m' : GoMap String)
      → IsMap m'
      → SameMap m m'
      → EntriesParse parse_quantity m
      → EntriesParse parse_quantity m'
  EntriesParse-SameMap m m' distinct same h =
      lookup-EntriesParse m' distinct (λ k v found. EntriesParse-lookup m k v h (same k ∙ found))

  wanted-SameMap :
      (gpu : String) (m m' : GoMap String) (k : String)
      → SameMap m m'
      → wanted parse_quantity gpu m k ≡ wanted parse_quantity gpu m' k
  wanted-SameMap gpu m m' k same = rw (same k) refl

  -- What is built is nil where it would be empty.
  build_resources-unless_empty :
      (res : Option RoleResources) (gpu : String) (built : ResourceRequirements Q)
      → build_resources parse_quantity res gpu ≡ some built
      → (requests : GoMap Q) × (limits : GoMap Q) × (built.requests ≡ unless_empty requests)
        × (built.limits ≡ unless_empty limits)
  unfolding build_resources
  build_resources-unless_empty res gpu built h =
      let (req, _, h1) = >>=-eq-some (parse_into parse_quantity (requests_of res) []) _ h in
      let (lim, _, h2) = >>=-eq-some (parse_into parse_quantity (limits_of res) []) _ h1 in
      let (qty, _, same) = >>=-eq-some (gpu_quantity parse_quantity gpu) _ h2 in
      let built_as = some-injective _ _ same in
      (
        add_gpu qty req,
        add_gpu qty lim,
        ap (λ r. r.requests) (sym built_as),
        ap (λ r. r.limits) (sym built_as),
      )

  quantities-SameMap :
      (o o' : Option (GoMap Q)) (list list' : GoMap Q)
      → o ≡ unless_empty list
      → o' ≡ unless_empty list'
      → ((k : String) → quantity_at k o ≡ quantity_at k o')
      → Option.map as_map o ≡ Option.map as_map o'
  quantities-SameMap o o' list list' h h' same =
      ap (Option.map as_map) h
      ∙ unless_empty-SameMap list list' (λ k.
        sym (quantity_at-unless_empty k list)
        ∙ ap (quantity_at k) (sym h)
        ∙ same k
        ∙ ap (quantity_at k) h'
        ∙ quantity_at-unless_empty k list')
      ∙ ap (Option.map as_map) (sym h')

-- The same resources, up to the order of the entries of their maps.
pub record SameResources (res res' : Option RoleResources) : Type 0 where
  pub distinct_requests : IsMap (requests_of res)
  pub distinct_limits : IsMap (limits_of res)
  pub distinct_requests' : IsMap (requests_of res')
  pub distinct_limits' : IsMap (limits_of res')
  pub requests : SameMap (requests_of res) (requests_of res')
  pub limits : SameMap (limits_of res) (limits_of res')

SameResources-sym :
    {res res' : Option RoleResources} → SameResources res res' → SameResources res' res
SameResources-sym h = record {
  distinct_requests = h.distinct_requests';
  distinct_limits = h.distinct_limits';
  distinct_requests' = h.distinct_requests;
  distinct_limits' = h.distinct_limits;
  requests = λ k. sym (h.requests k);
  limits = λ k. sym (h.limits k);
}

module _ {Q : Type 0} (parse_quantity : String → Option Q) (gpu : String) where
  build_resources-Succeeds :
      (res res' : Option RoleResources)
      → SameResources res res'
      → Succeeds (build_resources parse_quantity res gpu)
      → Succeeds (build_resources parse_quantity res' gpu)
  build_resources-Succeeds res res' same done =
      let parses = (build_resources_iff parse_quantity res gpu).0 done in
      (build_resources_iff parse_quantity res' gpu).1 (record {
        requests =
            EntriesParse-SameMap parse_quantity (requests_of res) (requests_of res')
              same.distinct_requests' same.requests parses.requests;
        limits =
            EntriesParse-SameMap parse_quantity (limits_of res) (limits_of res')
              same.distinct_limits' same.limits parses.limits;
        gpu_count = parses.gpu_count;
      })

  build_resources-as_maps :
      (res res' : Option RoleResources) (built built' : ResourceRequirements Q)
      → SameResources res res'
      → build_resources parse_quantity res gpu ≡ some built
      → build_resources parse_quantity res' gpu ≡ some built'
      → as_maps built ≡ as_maps built'
  build_resources-as_maps res res' built built' same h h' =
      let (req, lim, req_as, lim_as) =
        build_resources-unless_empty parse_quantity res gpu built h in
      let (req', lim', req_as', lim_as') =
        build_resources-unless_empty parse_quantity res' gpu built' h' in
      let at = λ (k : String).
        build_resources-lookup parse_quantity res gpu k built same.distinct_requests
          same.distinct_limits h in
      let at' = λ (k : String).
        build_resources-lookup parse_quantity res' gpu k built' same.distinct_requests'
          same.distinct_limits' h' in
      let requests =
        quantities-SameMap parse_quantity built.requests built'.requests req req' req_as req_as'
          (λ k. (at k).0 ∙ wanted-SameMap parse_quantity gpu _ _ k same.requests ∙ sym (at' k).0) in
      let limits =
        quantities-SameMap parse_quantity built.limits built'.limits lim lim' lim_as lim_as'
          (λ k. (at k).1 ∙ wanted-SameMap parse_quantity gpu _ _ k same.limits ∙ sym (at' k).1) in
      ap (λ r. (r, Option.map as_map built.limits)) requests
      ∙ ap (λ l. (Option.map as_map built'.requests, l)) limits

-- The order in which Go walks the maps of requests and limits does not matter: resources that hold
-- the same entries in another order are translated into the same maps, or both translations panic.
pub build_resources-SameResources :
    {Q : Type 0} (parse_quantity : String → Option Q) (gpu : String)
    (res res' : Option RoleResources)
    → SameResources res res'
    → Option.map as_maps (build_resources parse_quantity res gpu)
      ≡ Option.map as_maps (build_resources parse_quantity res' gpu)
build_resources-SameResources parse_quantity gpu res res' same =
    elim (Option-cases (build_resources parse_quantity res gpu)) [
      | inl missing ↦ elim (Option-cases (build_resources parse_quantity res' gpu)) [
        | inl missing' ↦ ap (Option.map as_maps) (missing ∙ sym missing')
        | inr (built', h') ↦
            let (built, h) =
              build_resources-Succeeds parse_quantity gpu res' res (SameResources-sym same)
                (built', h') in
            absurd (cc (missing, h))
      ]
      | inr (built, h) ↦
          let (built', h') = build_resources-Succeeds parse_quantity gpu res res' same (built, h) in
          ap (Option.map as_maps) h
          ∙ ap some (build_resources-as_maps parse_quantity gpu res res' built built' same h h')
          ∙ ap (Option.map as_maps) (sym h')
    ]
