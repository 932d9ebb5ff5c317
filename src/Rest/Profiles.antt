-- ===== src/Rest/Profiles.antt =====
-- internal/apiserver/handler/pdengineprofile.go
use pd_manager.Common.{String, List, Result, ok, err, is_not_found, if◌then◌else◌}
use pd_manager.Api.{PdEngineProfile}
use pd_manager.Rest.Http.{
  Response, json, json_profile, json_profiles, bad_request, server_error, ok_header,
}
use pd_manager.Rest.Upstream.{Backend}
use pd_manager.Rest.Services.{default_namespace, default_key, with_namespace, read_error}

module _ (b : Backend) where
  open b use {World, list_profiles, get_profile, create_profile, update_profile, delete_profile}

  abbrev list_profiles_answer : Result (List PdEngineProfile) → Response
  list_profiles_answer (err e) = server_error e
  list_profiles_answer (ok items) = json 200 (json_profiles items)

  -- `ListProfiles`
  unfoldable pub list_profiles_handler : World → Response × World
  list_profiles_handler w = (list_profiles_answer (list_profiles default_namespace w), w)

  abbrev create_profile_answer : Result PdEngineProfile → Response
  create_profile_answer (err e) = server_error e
  create_profile_answer (ok profile) = json 201 (json_profile profile)

  abbrev pub create_profile_decoded : PdEngineProfile → World → Response × World
  create_profile_decoded profile w =
      let sent : PdEngineProfile = record profile { metadata = with_namespace profile.metadata } in
      (create_profile_answer (create_profile sent w).0, (create_profile sent w).1)

  -- `CreateProfile`
  unfoldable pub create_profile_handler : Result PdEngineProfile → World → Response × World
  create_profile_handler (err e) w = (bad_request e, w)
  create_profile_handler (ok profile) w = create_profile_decoded profile w

  abbrev get_profile_answer : Result PdEngineProfile → Response
  get_profile_answer (err e) = read_error e
  get_profile_answer (ok profile) = json 200 (json_profile profile)

  -- `GetProfile`
  unfoldable pub get_profile_handler : String → World → Response × World
  get_profile_handler name w = (get_profile_answer (get_profile (default_key name) w), w)

  abbrev update_profile_answer : Result PdEngineProfile → Response
  update_profile_answer (err e) = server_error e
  update_profile_answer (ok profile) = json 200 (json_profile profile)

  -- `UpdateProfile` from the answer to its read on.
  abbrev pub update_profile_on : PdEngineProfile → Result PdEngineProfile → World → Response × World
  update_profile_on req (err e) w = (read_error e, w)
  update_profile_on req (ok profile) w =
      let sent : PdEngineProfile = record profile { spec = req.spec } in
      (update_profile_answer (update_profile sent w).0, (update_profile sent w).1)

  -- `UpdateProfile`
  unfoldable pub update_profile_handler : String → Result PdEngineProfile → World → Response × World
  update_profile_handler name (err e) w = (bad_request e, w)
  update_profile_handler name (ok req) w =
      update_profile_on req (get_profile (default_key name) w) w

  abbrev delete_profile_answer : Result (Unit {0}) → Response
  delete_profile_answer (err e) = if is_not_found e then ok_header else server_error e
  delete_profile_answer (ok _) = ok_header

  -- `DeleteProfile` from the answer to its read on.
  abbrev pub delete_profile_on : Result PdEngineProfile → World → Response × World
  delete_profile_on (err e) w = if is_not_found e then (ok_header, w) else (server_error e, w)
  delete_profile_on (ok profile) w =
      (delete_profile_answer (delete_profile profile w).0, (delete_profile profile w).1)

  -- `DeleteProfile`
  unfoldable pub delete_profile_handler : String → World → Response × World
  delete_profile_handler name w = delete_profile_on (get_profile (default_key name) w) w
