-- ===== src/Rest/Routes.antt =====
-- internal/apiserver/server.go: the patterns that `New` registers and the handler behind each.
use pd_manager.Common.{
  String, Bool, true, false, not, ◌&&◌, ◌||◌, Option, none, some, List, [], ◌∷◌, Result, ◌==◌,
  if◌then◌else◌,
}
use pd_manager.Api.{PdInferenceService, PdEngineProfile}
use pd_manager.Rest.Http.{UpdateRequest, Response, ok_header}
use pd_manager.Rest.Upstream.{Backend}
use pd_manager.Rest.Services.{create, list, get, update, delete}
use pd_manager.Rest.Profiles.{
  list_profiles_handler, create_profile_handler, get_profile_handler, update_profile_handler,
  delete_profile_handler,
}

-- A segment of a pattern: itself, or `{name}`.
pub data Segment : Type 0 where
  literal : String → Segment
  wildcard : Segment

pub data Endpoint : Type 0 where
  list_endpoint create_endpoint get_endpoint update_endpoint delete_endpoint : Endpoint
  list_profiles_endpoint create_profile_endpoint get_profile_endpoint : Endpoint
  update_profile_endpoint delete_profile_endpoint healthz_endpoint : Endpoint

pub record Pattern : Type 0 where
  pub method : String
  pub segments : List Segment
  pub endpoint : Endpoint

abbrev pub under_api : String → List Segment → List Segment
under_api collection rest = literal "api" ∷ literal "v1" ∷ literal collection ∷ rest

abbrev services_path : List Segment → List Segment
services_path = under_api "pd-inference-services"

abbrev profiles_path : List Segment → List Segment
profiles_path = under_api "pd-engine-profiles"

-- The calls of `mux.HandleFunc`, in their order.
abbrev pub patterns : List Pattern
patterns =
    record { method = "GET"; segments = services_path []; endpoint = list_endpoint }
    ∷ record { method = "POST"; segments = services_path []; endpoint = create_endpoint }
    ∷ record { method = "GET"; segments = services_path (wildcard ∷ []); endpoint = get_endpoint }
    ∷ record {
      method = "PUT";
      segments = services_path (wildcard ∷ []);
      endpoint = update_endpoint;
    }
    ∷ record {
      method = "DELETE";
      segments = services_path (wildcard ∷ []);
      endpoint = delete_endpoint;
    }
    ∷ record { method = "GET"; segments = profiles_path []; endpoint = list_profiles_endpoint }
    ∷ record { method = "POST"; segments = profiles_path []; endpoint = create_profile_endpoint }
    ∷ record {
      method = "GET";
      segments = profiles_path (wildcard ∷ []);
      endpoint = get_profile_endpoint;
    }
    ∷ record {
      method = "PUT";
      segments = profiles_path (wildcard ∷ []);
      endpoint = update_profile_endpoint;
    }
    ∷ record {
      method = "DELETE";
      segments = profiles_path (wildcard ∷ []);
      endpoint = delete_profile_endpoint;
    }
    ∷ record { method = "GET"; segments = literal "healthz" ∷ []; endpoint = healthz_endpoint }
    ∷ []

-- A pattern with the method GET also serves HEAD.
abbrev pub method_matches : String → String → Bool
method_matches pattern method = pattern == method || (pattern == "GET" && method == "HEAD")

-- A wildcard stands for one segment that is not empty.
abbrev segment_matches : Segment → String → Bool
segment_matches (literal text) segment = text == segment
segment_matches wildcard segment = not (segment == "")

unfoldable pub path_matches : List Segment → List String → Bool
path_matches [] [] = true
path_matches [] (s ∷ path) = false
path_matches (p ∷ pattern) [] = false
path_matches (p ∷ pattern) (s ∷ path) = segment_matches p s && path_matches pattern path

unfoldable pub matches : String → List String → Pattern → Bool
unfolding path_matches
matches method path pattern =
    method_matches pattern.method method && path_matches pattern.segments path

-- The first pattern that matches.
unfoldable pub find_endpoint : List Pattern → String → List String → Option Endpoint
unfolding matches
find_endpoint [] method path = none
find_endpoint (p ∷ registered) method path =
    if matches method path p then some p.endpoint else find_endpoint registered method path

-- `r.PathValue("name")`: the segment under the wildcard, the fourth in every pattern that has one
abbrev path_value : List String → String
path_value (a ∷ v ∷ collection ∷ name ∷ rest) = name
path_value other = ""

-- A request: its method, the segments of its path, and what decoding its body gives.
pub record Request : Type 0 where
  pub method : String
  pub path : List String
  pub service_body : Result PdInferenceService
  pub update_body : Result UpdateRequest
  pub profile_body : Result PdEngineProfile

module _ (b : Backend) where
  abbrev pub run : Endpoint → Request → b.World → Response × b.World
  run list_endpoint req w = list b w
  run create_endpoint req w = create b req.service_body w
  run get_endpoint req w = get b (path_value req.path) w
  run update_endpoint req w = update b (path_value req.path) req.update_body w
  run delete_endpoint req w = delete b (path_value req.path) w
  run list_profiles_endpoint req w = list_profiles_handler b w
  run create_profile_endpoint req w = create_profile_handler b req.profile_body w
  run get_profile_endpoint req w = get_profile_handler b (path_value req.path) w
  run update_profile_endpoint req w =
      update_profile_handler b (path_value req.path) req.profile_body w
  run delete_profile_endpoint req w = delete_profile_handler b (path_value req.path) w
  run healthz_endpoint req w = (ok_header, w)

  abbrev run_found : Option Endpoint → Request → b.World → Option Response × b.World
  run_found none req w = (none, w)
  run_found (some e) req w = let (response, after) = run e req w in (some response, after)

  -- The server on one request; `none` where the mux answers by itself, with 404 or 405.
  unfoldable pub serve : Request → b.World → Option Response × b.World
  serve req w = run_found (find_endpoint patterns req.method req.path) req w
