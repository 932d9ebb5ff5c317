-- ===== src/Tests/Translator.antt =====
-- The translation of concrete services.
use mathlib.Core.Option
use pd_manager.Common.{SameMap, ◌≡◌, ◌↔◌, Option, some, [], ◌∷◌, refl, inl, inr, String-cases}
use pd_manager.Api.{RoleResources}
use pd_manager.Common.Panics.{Succeeds}
use pd_manager.Translator.{build, build_resources, parse_into, requests_of, limits_of}
use pd_manager.Translator.Totality.{QuantitiesParse, build-Succeeds_iff}
use pd_manager.Translator.Quantities.{quantity_at, wanted, build_resources-lookup}
use pd_manager.Translator.Order.{SameResources, as_maps, build_resources-SameResources}
use pd_manager.Translator.Contract.{IsGroupOf}
use pd_manager.Translator.Shape.{build-IsGroupOf}
use pd_manager.Tests.Samples.{parse, inline_service, worker}
use pd_manager.Tests.Translated.{inline_config, inline_group, inline_built, worker_resources}

build-Succeeds_iff_example :
    Succeeds (build parse inline_service inline_config) ↔ QuantitiesParse parse inline_service
build-Succeeds_iff_example = build-Succeeds_iff parse inline_service inline_config

build-IsGroupOf_example : IsGroupOf parse inline_service inline_config inline_group
build-IsGroupOf_example =
    build-IsGroupOf parse inline_service inline_config inline_group inline_built

worker_built : build_resources parse worker.resources "8" ≡ some worker_resources
unfolding build_resources parse_into
worker_built = refl

build_resources-lookup_example :
    (quantity_at "cpu" worker_resources.requests
      ≡ wanted parse "8" (requests_of worker.resources) "cpu")
    × (quantity_at "cpu" worker_resources.limits
        ≡ wanted parse "8" (limits_of worker.resources) "cpu")
build_resources-lookup_example =
    build_resources-lookup parse worker.resources "8" "cpu" worker_resources (refl, tt) (refl, tt)
      worker_built

-- The same limits, written in two orders.
abbrev sorted : Option RoleResources
sorted = some (record { requests = []; limits = ("cpu", "8") ∷ ("memory", "64Gi") ∷ [] })

abbrev reversed : Option RoleResources
reversed = some (record { requests = []; limits = ("memory", "64Gi") ∷ ("cpu", "8") ∷ [] })

same_limits : SameMap (limits_of sorted) (limits_of reversed)
same_limits k = elim (String-cases k "cpu") [
  | inl (same, _) ↦ rw same refl
  | inr (_, other) ↦ rw other refl
]

same_resources : SameResources sorted reversed
same_resources = record {
  distinct_requests = tt;
  distinct_limits = (refl, (refl, tt));
  distinct_requests' = tt;
  distinct_limits' = (refl, (refl, tt));
  requests = λ k. refl;
  limits = same_limits;
}

build_resources-SameResources_example :
    Option.map as_maps (build_resources parse sorted "8")
    ≡ Option.map as_maps (build_resources parse reversed "8")
build_resources-SameResources_example =
    build_resources-SameResources parse "8" sorted reversed same_resources
