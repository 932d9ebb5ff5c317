-- ===== src/Rest/Catalog.antt =====
-- The profile endpoints as a catalogue: what each request may do to the specs under their keys.
pub mod Refines
use mathlib.Core.Option
use mathlib.Core.Path.{subst}
use pd_manager.Common.{
  ◌≡◌, ◌≢◌, ◌⊎◌, inl, inr, String, true, false, Option, none, some, Result, ok, err, Error,
  is_not_found, refl, sym, ap, ◌∙◌, Bool-cases, Result-cases,
}
use pd_manager.Api.{is_zero, NamespacedName, PdEngineProfile, PdEngineProfileSpec}
use pd_manager.Cluster.{profile_key}
use pd_manager.Rest.{
  Response, Backend, ProfileLaws, default_key, with_namespace, json_profile, list_profiles_handler,
  create_profile_handler, create_profile_decoded, get_profile_handler, update_profile_handler,
  update_profile_on, delete_profile_handler, delete_profile_on,
}

-- A request to one of the five endpoints, with its decoded body.
pub data ProfileRequest : Type 0 where
  list_request : ProfileRequest
  create_request : Result PdEngineProfile → ProfileRequest
  get_request : String → ProfileRequest
  update_request : String → Result PdEngineProfile → ProfileRequest
  delete_request : String → ProfileRequest

abbrev pub handle : (b : Backend) → ProfileRequest → b.World → Response × b.World
handle b list_request = list_profiles_handler b
handle b (create_request body) = create_profile_handler b body
handle b (get_request name) = get_profile_handler b name
handle b (update_request name body) = update_profile_handler b name body
handle b (delete_request name) = delete_profile_handler b name

-- The profile that a POST sends.
abbrev pub sent_profile : PdEngineProfile → PdEngineProfile
sent_profile profile = record profile { metadata = with_namespace profile.metadata }

module _ (b : Backend) (laws : ProfileLaws b) where
  -- The catalogue: the spec under each key.
  abbrev pub spec_at : NamespacedName → b.World → Option PdEngineProfileSpec
  spec_at k w = Option.map (λ s. s.spec) (laws.stored k w)

  abbrev pub KeepsOthers : NamespacedName → b.World → b.World → Type 0
  KeepsOthers k w w' = (j : NamespacedName) → j ≢ k → spec_at j w' ≡ spec_at j w

  abbrev KeepsAll : b.World → b.World → Type 0
  KeepsAll w w' = (j : NamespacedName) → spec_at j w' ≡ spec_at j w

  abbrev Sets : NamespacedName → PdEngineProfileSpec → b.World → b.World → Type 0
  Sets k spec w w' = (spec_at k w' ≡ some spec) × KeepsOthers k w w'

  -- No profile is there, or its deletion has been asked for.
  abbrev pub IsLeaving : NamespacedName → b.World → Type 0
  IsLeaving k w =
      (laws.stored k w ≡ none)
      ⊎ ((s : PdEngineProfile) × (laws.stored k w ≡ some s)
          × (is_zero s.metadata.deletion_timestamp ≡ false))

  -- What the answer says of the catalogue before and after.
  abbrev pub Meets : ProfileRequest → b.World → Response × b.World → Type 0
  Meets list_request w answer =
      ((answer.0.status ≡ 200) ⊎ (answer.0.status ≡ 500)) × KeepsAll w answer.1
  Meets (create_request (err e)) w answer = (answer.0.status ≡ 400) × KeepsAll w answer.1
  Meets (create_request (ok profile)) w answer =
      ((answer.0.status ≡ 201) × Sets (profile_key (sent_profile profile)) profile.spec w answer.1)
      ⊎ ((answer.0.status ≡ 500) × KeepsOthers (profile_key (sent_profile profile)) w answer.1)
  Meets (get_request name) w answer =
      (((s : PdEngineProfile) × (answer.0.status ≡ 200)
          × (answer.0.body ≡ json_profile s)
          × (spec_at (default_key name) w ≡ some s.spec))
        ⊎ (((answer.0.status ≡ 404) × (spec_at (default_key name) w ≡ none))
            ⊎ (answer.0.status ≡ 500)))
      × KeepsAll w answer.1
  Meets (update_request name (err e)) w answer = (answer.0.status ≡ 400) × KeepsAll w answer.1
  Meets (update_request name (ok req)) w answer =
      ((answer.0.status ≡ 200)
        × (spec_at (default_key name) w ≢ none)
        × Sets (default_key name) req.spec w answer.1)
      ⊎ (((answer.0.status ≡ 404) × (spec_at (default_key name) w ≡ none) × KeepsAll w answer.1)
          ⊎ ((answer.0.status ≡ 500) × KeepsOthers (default_key name) w answer.1))
  Meets (delete_request name) w answer =
      ((answer.0.status ≡ 200)
        × IsLeaving (default_key name) answer.1
        × KeepsOthers (default_key name) w answer.1)
      ⊎ ((answer.0.status ≡ 500) × KeepsOthers (default_key name) w answer.1)
