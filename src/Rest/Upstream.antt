-- ===== src/Rest/Upstream.antt =====
-- The Kubernetes API as the REST handlers use it: the client and the direct reader, over a state.
-- All of it is a parameter; its documented behaviour is `BackendLaws`.
use pd_manager.Common.{
  ◌≡◌, ◌≢◌, ◌⊎◌, String, true, false, Option, none, some, List, Result, ok, err, Error,
  is_not_found,
}
use pd_manager.Api.{
  is_zero, NamespacedName, PdEngineProfile, PdInferenceService, PdInferenceServiceSpec,
}
use pd_manager.Cluster.{service_key, profile_key}

pub record Backend : Type 1 where
  pub World : Type 0
  pub list_services : (namespace : String) → World → Result (List PdInferenceService)
  pub get_service : NamespacedName → World → Result PdInferenceService
  -- A write answers with the object as the server returns it.
  pub create_service : PdInferenceService → World → Result PdInferenceService × World
  pub update_service : PdInferenceService → World → Result PdInferenceService × World
  pub delete_service : PdInferenceService → World → Result (Unit {0}) × World
  pub list_profiles : (namespace : String) → World → Result (List PdEngineProfile)
  pub get_profile : NamespacedName → World → Result PdEngineProfile
  pub create_profile : PdEngineProfile → World → Result PdEngineProfile × World
  pub update_profile : PdEngineProfile → World → Result PdEngineProfile × World
  pub delete_profile : PdEngineProfile → World → Result (Unit {0}) × World

-- What the server promises for services. `admit` is what mutating admission makes of a spec.
pub record BackendLaws (b : Backend) : Type 0 where
  pub stored : NamespacedName → b.World → Option PdInferenceService
  pub admit : PdInferenceServiceSpec → PdInferenceServiceSpec
  -- A direct read answers from the store.
  pub get_key :
      (k : NamespacedName) (w : b.World) (s : PdInferenceService)
      → b.get_service k w ≡ ok s
      → service_key s ≡ k
  pub get_stored :
      (k : NamespacedName) (w : b.World) (s : PdInferenceService)
      → b.get_service k w ≡ ok s
      → stored k w ≡ some s
  -- An object that is created is stored as it is returned, under its own key and with its admitted
  -- spec.
  pub create_stores :
      (s s' : PdInferenceService) (w : b.World)
      → (b.create_service s w).0 ≡ ok s'
      → (stored (service_key s) (b.create_service s w).1 ≡ some s') × (s'.spec ≡ admit s.spec)
  -- An update of a service that the server accepts stores the metadata as sent and the admitted
  -- spec, and keeps the status.
  pub update_stores :
      (s old s' : PdInferenceService) (w : b.World)
      → stored (service_key s) w ≡ some old
      → (b.update_service s w).0 ≡ ok s'
      → (stored (service_key s) (b.update_service s w).1 ≡ some s')
        × (s' ≡ record { metadata = s.metadata; spec = admit s.spec; status = old.status })
  -- A deletion that the server accepts removes the service, or marks it while finalizers are left.
  pub delete_marks :
      (s : PdInferenceService) (w : b.World)
      → (b.delete_service s w).0 ≡ ok tt
      → (stored (service_key s) (b.delete_service s w).1 ≡ none)
        ⊎ ((s' : PdInferenceService) × (stored (service_key s) (b.delete_service s w).1 ≡ some s')
            × (is_zero s'.metadata.deletion_timestamp ≡ false))
  -- "Not found" is said of what is not stored.
  pub get_missing :
      (k : NamespacedName) (w : b.World) (e : Error)
      → b.get_service k w ≡ err e
      → is_not_found e ≡ true
      → stored k w ≡ none
  pub delete_missing :
      (s : PdInferenceService) (w : b.World) (e : Error)
      → (b.delete_service s w).0 ≡ err e
      → is_not_found e ≡ true
      → stored (service_key s) (b.delete_service s w).1 ≡ none
  -- A write touches no other service. What one that fails leaves of its own is not known: an internal
  -- error may stand for a write that was made.
  pub create_others :
      (s : PdInferenceService) (w : b.World) (k : NamespacedName)
      → k ≢ service_key s
      → stored k (b.create_service s w).1 ≡ stored k w
  pub update_others :
      (s : PdInferenceService) (w : b.World) (k : NamespacedName)
      → k ≢ service_key s
      → stored k (b.update_service s w).1 ≡ stored k w
  pub delete_others :
      (s : PdInferenceService) (w : b.World) (k : NamespacedName)
      → k ≢ service_key s
      → stored k (b.delete_service s w).1 ≡ stored k w

-- What the server promises for profiles, which no webhook changes.
pub record ProfileLaws (b : Backend) : Type 0 where
  pub stored : NamespacedName → b.World → Option PdEngineProfile
  pub get_key :
      (k : NamespacedName) (w : b.World) (s : PdEngineProfile)
      → b.get_profile k w ≡ ok s
      → profile_key s ≡ k
  pub get_stored :
      (k : NamespacedName) (w : b.World) (s : PdEngineProfile)
      → b.get_profile k w ≡ ok s
      → stored k w ≡ some s
  pub get_missing :
      (k : NamespacedName) (w : b.World) (e : Error)
      → b.get_profile k w ≡ err e
      → is_not_found e ≡ true
      → stored k w ≡ none
  -- A profile that is accepted is stored as it is returned, with the spec that was sent.
  pub create_stores :
      (s s' : PdEngineProfile) (w : b.World)
      → (b.create_profile s w).0 ≡ ok s'
      → (stored (profile_key s) (b.create_profile s w).1 ≡ some s') × (s'.spec ≡ s.spec)
  pub update_stores :
      (s s' : PdEngineProfile) (w : b.World)
      → (b.update_profile s w).0 ≡ ok s'
      → (stored (profile_key s) (b.update_profile s w).1 ≡ some s') × (s'.spec ≡ s.spec)
  -- A deletion that is accepted removes the profile, or marks it while finalizers are left.
  pub delete_marks :
      (s : PdEngineProfile) (w : b.World)
      → (b.delete_profile s w).0 ≡ ok tt
      → (stored (profile_key s) (b.delete_profile s w).1 ≡ none)
        ⊎ ((s' : PdEngineProfile) × (stored (profile_key s) (b.delete_profile s w).1 ≡ some s')
            × (is_zero s'.metadata.deletion_timestamp ≡ false))
  pub delete_missing :
      (s : PdEngineProfile) (w : b.World) (e : Error)
      → (b.delete_profile s w).0 ≡ err e
      → is_not_found e ≡ true
      → stored (profile_key s) (b.delete_profile s w).1 ≡ none
  -- A write touches no other profile. What one that fails leaves of its own is not known.
  pub create_others :
      (s : PdEngineProfile) (w : b.World) (k : NamespacedName)
      → k ≢ profile_key s
      → stored k (b.create_profile s w).1 ≡ stored k w
  pub update_others :
      (s : PdEngineProfile) (w : b.World) (k : NamespacedName)
      → k ≢ profile_key s
      → stored k (b.update_profile s w).1 ≡ stored k w
  pub delete_others :
      (s : PdEngineProfile) (w : b.World) (k : NamespacedName)
      → k ≢ profile_key s
      → stored k (b.delete_profile s w).1 ≡ stored k w
