-- ===== src/Rest/Matching.antt =====
-- Which methods and paths the registered patterns match.
use mathlib.Core.Option.{some-injective}
use pd_manager.Common.{
  ◌≡◌, ◌≢◌, ◌⊎◌, inl, inr, String, true, some, List, [], ◌∷◌, Any, refl, arith, eq_iff, Bool-cases,
}
use pd_manager.Rest.{
  Segment, literal, wildcard, Endpoint, Pattern, matches, path_matches, find_endpoint,
  method_matches, under_api,
}

-- HEAD is served by the handler of GET.
abbrev pub IsRead : String → Type 0
IsRead method = (method ≡ "GET") ⊎ (method ≡ "HEAD")

abbrev pub collection_path : String → List String
collection_path collection = "api" ∷ "v1" ∷ collection ∷ []

-- The path of one object, whose name is not empty.
abbrev pub IsItem : String → List String → Type 0
IsItem collection path =
    (name : String) × (name ≢ "") × (path ≡ "api" ∷ "v1" ∷ collection ∷ name ∷ [])

-- The paths that a pattern stands for.
abbrev pub Fits : List Segment → List String → Type 0
Fits [] path = path ≡ []
Fits (literal text ∷ pattern) path = (rest : List String) × (path ≡ text ∷ rest) × Fits pattern rest
Fits (wildcard ∷ pattern) path =
    (name : String) × (name ≢ "")
    × ((rest : List String) × (path ≡ name ∷ rest) × Fits pattern rest)

path_matches-Fits :
    (pattern : List Segment) (path : List String)
    → path_matches pattern path ≡ true
    → Fits pattern path
unfolding path_matches
path_matches-Fits [] [] h = refl
path_matches-Fits [] (s ∷ path) h = cc
path_matches-Fits (p ∷ pattern) [] h = cc
path_matches-Fits (literal text ∷ pattern) (s ∷ path) h = (
  path,
  ground (arith, eq_iff text s),
  path_matches-Fits pattern path (ground (arith, eq_iff text s)),
)
path_matches-Fits (wildcard ∷ pattern) (s ∷ path) h = (
  s,
  ground (arith, eq_iff s ""),
  (path, refl, path_matches-Fits pattern path (ground (arith, eq_iff s ""))),
)

pub method_matches-IsRead : (method : String) → method_matches "GET" method ≡ true → IsRead method
method_matches-IsRead method h = ground (arith, eq_iff "GET" method, eq_iff method "HEAD")

-- An endpoint that is found is that of a registered pattern, which matches.
pub find_endpoint_sound :
    (registered : List Pattern) (method : String) (path : List String) (e : Endpoint)
    → find_endpoint registered method path ≡ some e
    → Any
        (λ p. (p.endpoint ≡ e) × ((method_matches p.method method ≡ true) × Fits p.segments path))
        registered
unfolding find_endpoint matches
find_endpoint_sound [] method path e h = cc
find_endpoint_sound (p ∷ registered) method path e h = elim (Bool-cases (matches method path p)) [
  | inl here ↦ inl (
    some-injective _ _ (rw here at h),
    (ground arith, path_matches-Fits p.segments path (ground arith)),
  )
  | inr later ↦ inr (find_endpoint_sound registered method path e (rw later at h))
]

pub Fits-collection :
    (collection : String) (path : List String)
    → Fits (under_api collection []) path
    → path ≡ collection_path collection
Fits-collection collection path (_, e, (_, f, (_, g, h))) = cc

pub Fits-IsItem :
    (collection : String) (path : List String)
    → Fits (under_api collection (wildcard ∷ [])) path
    → IsItem collection path
Fits-IsItem collection path (_, e, (_, f, (_, g, (name, set, (_, h, i))))) = (name, set, cc)

pub Fits-healthz : (path : List String) → Fits (literal "healthz" ∷ []) path → path ≡ "healthz" ∷ []
Fits-healthz path (_, e, h) = cc
