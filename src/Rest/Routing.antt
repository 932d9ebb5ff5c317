-- ===== src/Rest/Routing.antt =====
-- Which handler answers a request, stated without the order of registration.
use mathlib.Core.Path.{subst}
use pd_manager.Common.{
  ◌≡◌, ◌≢◌, ◌↔◌, ◌⊎◌, inl, inr, String, true, false, none, some, List, [], ◌∷◌, Any, All, refl, sym,
  ◌∙◌, arith, eq_iff, ◌==◌, Option-cases,
}
use pd_manager.Rest.{
  wildcard, Endpoint, list_endpoint, create_endpoint, get_endpoint, update_endpoint,
  delete_endpoint, list_profiles_endpoint, create_profile_endpoint, get_profile_endpoint,
  update_profile_endpoint, delete_profile_endpoint, healthz_endpoint, Pattern, patterns, matches,
  path_matches, find_endpoint, method_matches, under_api, Request, Backend, serve, run, get, list,
  list_profiles_handler, get_profile_handler,
}
use pd_manager.Rest.Matching.{
  IsRead, collection_path, IsItem, Fits, method_matches-IsRead, find_endpoint_sound,
  Fits-collection, Fits-IsItem, Fits-healthz,
}

-- What each endpoint is asked by.
abbrev pub Answers : Endpoint → String → List String → Type 0
Answers list_endpoint method path = IsRead method × (path ≡ collection_path "pd-inference-services")
Answers create_endpoint method path =
    (method ≡ "POST") × (path ≡ collection_path "pd-inference-services")
Answers get_endpoint method path = IsRead method × IsItem "pd-inference-services" path
Answers update_endpoint method path = (method ≡ "PUT") × IsItem "pd-inference-services" path
Answers delete_endpoint method path = (method ≡ "DELETE") × IsItem "pd-inference-services" path
Answers list_profiles_endpoint method path =
    IsRead method × (path ≡ collection_path "pd-engine-profiles")
Answers create_profile_endpoint method path =
    (method ≡ "POST") × (path ≡ collection_path "pd-engine-profiles")
Answers get_profile_endpoint method path = IsRead method × IsItem "pd-engine-profiles" path
Answers update_profile_endpoint method path = (method ≡ "PUT") × IsItem "pd-engine-profiles" path
Answers delete_profile_endpoint method path = (method ≡ "DELETE") × IsItem "pd-engine-profiles" path
Answers healthz_endpoint method path = IsRead method × (path ≡ "healthz" ∷ [])

module _ (method : String) (path : List String) where
  same_method : (m : String) → (m == "GET") ≡ false → method_matches m method ≡ true → method ≡ m
  same_method m not_get h = ground (arith, eq_iff m method)

  -- What the pattern of an endpoint matches is what the endpoint answers.
  abbrev IsSound : Pattern → Type 0
  IsSound p =
      method_matches p.method method ≡ true → Fits p.segments path → Answers p.endpoint method path

  IsRead-collection :
      (collection : String)
      → method_matches "GET" method ≡ true
      → Fits (under_api collection []) path
      → IsRead method × (path ≡ collection_path collection)
  IsRead-collection collection m f =
      (method_matches-IsRead method m, Fits-collection collection path f)

  IsItem-reads :
      (collection : String)
      → method_matches "GET" method ≡ true
      → Fits (under_api collection (wildcard ∷ [])) path
      → IsRead method × IsItem collection path
  IsItem-reads collection m f = (method_matches-IsRead method m, Fits-IsItem collection path f)

  IsItem-writes :
      (m collection : String)
      → (m == "GET") ≡ false
      → method_matches m method ≡ true
      → Fits (under_api collection (wildcard ∷ [])) path
      → (method ≡ m) × IsItem collection path
  IsItem-writes m collection not_get h f = (same_method m not_get h, Fits-IsItem collection path f)

  patterns-IsSound : All IsSound patterns
  patterns-IsSound = (
    IsRead-collection "pd-inference-services",
    (
      λ m f. (same_method "POST" refl m, Fits-collection "pd-inference-services" path f),
      (
        IsItem-reads "pd-inference-services",
        (
          IsItem-writes "PUT" "pd-inference-services" refl,
          (
            IsItem-writes "DELETE" "pd-inference-services" refl,
            (
              IsRead-collection "pd-engine-profiles",
              (
                λ m f. (same_method "POST" refl m, Fits-collection "pd-engine-profiles" path f),
                (
                  IsItem-reads "pd-engine-profiles",
                  (
                    IsItem-writes "PUT" "pd-engine-profiles" refl,
                    (
                      IsItem-writes "DELETE" "pd-engine-profiles" refl,
                      (λ m f. (method_matches-IsRead method m, Fits-healthz path f), tt),
                    ),
                  ),
                ),
              ),
            ),
          ),
        ),
      ),
    ),
  )

  registered-Answers :
      (e : Endpoint) (registered : List Pattern)
      → All IsSound registered
      → Any
          (λ p. (p.endpoint ≡ e) × ((method_matches p.method method ≡ true) × Fits p.segments path))
          registered
      → Answers e method path
  registered-Answers e [] sound found = absurd found
  registered-Answers e (p ∷ registered) sound (inl (same, (m, f))) =
      subst (λ x. Answers x method path) same (sound.0 m f)
  registered-Answers e (p ∷ registered) sound (inr later) =
      registered-Answers e registered sound.1 later

  named : (name : String) → name ≢ "" → (name == "") ≡ false
  named name set = ground (arith, eq_iff name "")

  Answers-found :
      (e : Endpoint) → Answers e method path → find_endpoint patterns method path ≡ some e
  unfolding find_endpoint matches path_matches
  Answers-found list_endpoint (inl m, p) = rw (m, p) refl
  Answers-found list_endpoint (inr m, p) = rw (m, p) refl
  Answers-found create_endpoint (m, p) = rw (m, p) refl
  Answers-found get_endpoint (inl m, (name, set, p)) = rw (m, p) (rw (named name set) refl)
  Answers-found get_endpoint (inr m, (name, set, p)) = rw (m, p) (rw (named name set) refl)
  Answers-found update_endpoint (m, (name, set, p)) = rw (m, p) (rw (named name set) refl)
  Answers-found delete_endpoint (m, (name, set, p)) = rw (m, p) (rw (named name set) refl)
  Answers-found list_profiles_endpoint (inl m, p) = rw (m, p) refl
  Answers-found list_profiles_endpoint (inr m, p) = rw (m, p) refl
  Answers-found create_profile_endpoint (m, p) = rw (m, p) refl
  Answers-found get_profile_endpoint (inl m, (name, set, p)) = rw (m, p) (rw (named name set) refl)
  Answers-found get_profile_endpoint (inr m, (name, set, p)) = rw (m, p) (rw (named name set) refl)
  Answers-found update_profile_endpoint (m, (name, set, p)) = rw (m, p) (rw (named name set) refl)
  Answers-found delete_profile_endpoint (m, (name, set, p)) = rw (m, p) (rw (named name set) refl)
  Answers-found healthz_endpoint (inl m, p) = rw (m, p) refl
  Answers-found healthz_endpoint (inr m, p) = rw (m, p) refl

-- The server sends a request to an endpoint exactly when its method and path are those of the
-- endpoint: the collections take GET, HEAD and POST, the objects by their non-empty name GET, HEAD,
-- PUT and DELETE, and healthz GET and HEAD.
pub find_endpoint-eq-some_iff :
    (method : String) (path : List String) (e : Endpoint)
    → (find_endpoint patterns method path ≡ some e) ↔ Answers e method path
find_endpoint-eq-some_iff method path e = (
  λ h.
      registered-Answers method path e patterns (patterns-IsSound method path)
        (find_endpoint_sound patterns method path e h),
  Answers-found method path e,
)

not-IsRead :
    {method : String} (m : String)
    → method ≡ m
    → (m == "GET") ≡ false
    → (m == "HEAD") ≡ false
    → ¬ IsRead method
not-IsRead m same not_get not_head (inl h) = ground (arith, eq_iff m "GET", sym same ∙ h)
not-IsRead m same not_get not_head (inr h) = ground (arith, eq_iff m "HEAD", sym same ∙ h)

-- The handler behind a GET or HEAD leaves the objects as they are.
run_read :
    (b : Backend) (e : Endpoint) (req : Request) (w : b.World)
    → IsRead req.method
    → Answers e req.method req.path
    → (run b e req w).1 ≡ w
unfolding list get list_profiles_handler get_profile_handler
run_read b list_endpoint req w read h = refl
run_read b get_endpoint req w read h = refl
run_read b list_profiles_endpoint req w read h = refl
run_read b get_profile_endpoint req w read h = refl
run_read b healthz_endpoint req w read h = refl
run_read b create_endpoint req w read (m, _) = absurd (not-IsRead _ m refl refl read)
run_read b update_endpoint req w read (m, _) = absurd (not-IsRead _ m refl refl read)
run_read b delete_endpoint req w read (m, _) = absurd (not-IsRead _ m refl refl read)
run_read b create_profile_endpoint req w read (m, _) = absurd (not-IsRead _ m refl refl read)
run_read b update_profile_endpoint req w read (m, _) = absurd (not-IsRead _ m refl refl read)
run_read b delete_profile_endpoint req w read (m, _) = absurd (not-IsRead _ m refl refl read)

-- A GET or HEAD changes no object, and neither does a request that no pattern matches.
pub serve-keeps :
    (b : Backend) (req : Request) (w : b.World)
    → IsRead req.method ⊎ (find_endpoint patterns req.method req.path ≡ none)
    → (serve b req w).1 ≡ w
unfolding serve
serve-keeps b req w (inr lost) = rw lost refl
serve-keeps b req w (inl read) = elim (Option-cases (find_endpoint patterns req.method req.path)) [
  | inl lost ↦ rw lost refl
  | inr (e, found) ↦
      rw found (run_read b e req w read ((find_endpoint-eq-some_iff req.method req.path e).0 found))
]
