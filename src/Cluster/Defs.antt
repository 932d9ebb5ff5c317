-- ===== src/Cluster/Defs.antt =====
-- The Kubernetes API as the reconciler uses it: the client of controller-runtime over a state of the
-- cluster, and the clock. All of it is a parameter; its documented behaviour is `ClientLaws`.
use pd_manager.Common.{◌≡◌, ◌≢◌, ◌⊎◌, true, Option, some, Result, ok, err, Error, is_not_found}
use pd_manager.Platform.{Platform}
use pd_manager.Api.{
  Time, is_zero, NamespacedName, PdEngineProfile, PdInferenceService, PdInferenceServiceSpec,
  PdInferenceServiceStatus,
}
use pd_manager.Workload.{RoleBasedGroup}

-- `client.ObjectKeyFromObject`
abbrev pub service_key : PdInferenceService → NamespacedName
service_key pdis = record { namespace = pdis.metadata.namespace; name = pdis.metadata.name }

abbrev pub profile_key : PdEngineProfile → NamespacedName
profile_key profile = record {
  namespace = profile.metadata.namespace;
  name = profile.metadata.name;
}

abbrev pub group_key : {Q : Type 0} → RoleBasedGroup Q → NamespacedName
group_key rbg = record { namespace = rbg.namespace; name = rbg.name }

pub record Client (p : Platform) : Type 1 where
  pub World : Type 0
  pub now : World → Time
  -- A read answers from the state; a write answers with the object as the server returns it.
  pub get_service : NamespacedName → World → Result PdInferenceService
  pub get_profile : NamespacedName → World → Result PdEngineProfile
  pub get_group : NamespacedName → World → Result (RoleBasedGroup p.Quantity)
  pub update_service : PdInferenceService → World → Result PdInferenceService × World
  pub update_status : PdInferenceService → World → Result PdInferenceService × World
  pub create_group : RoleBasedGroup p.Quantity → World → Result (Unit {0}) × World
  pub update_group : RoleBasedGroup p.Quantity → World → Result (Unit {0}) × World

-- The documented behaviour of the API server, with no other writer at work, and of the client, whose
-- reads come from a cache: an answer is about the object asked for, but may be out of date.
-- `stored_service` and `stored_group` are what the server holds; `admit` is what mutating admission
-- makes of a spec.
pub record ClientLaws (p : Platform) (c : Client p) : Type 0 where
  pub stored_service : NamespacedName → c.World → Option PdInferenceService
  pub stored_group : NamespacedName → c.World → Option (RoleBasedGroup p.Quantity)
  pub admit : PdInferenceServiceSpec → PdInferenceServiceSpec
  -- Reads.
  pub get_service_key :
      (k : NamespacedName) (w : c.World) (s : PdInferenceService)
      → c.get_service k w ≡ ok s
      → service_key s ≡ k
  pub get_group_key :
      (k : NamespacedName) (w : c.World) (g : RoleBasedGroup p.Quantity)
      → c.get_group k w ≡ ok g
      → group_key g ≡ k
  -- A write of a service touches no group, whatever its answer.
  pub update_service_groups :
      (s : PdInferenceService) (w : c.World) (k : NamespacedName)
      → stored_group k (c.update_service s w).1 ≡ stored_group k w
  pub update_status_groups :
      (s : PdInferenceService) (w : c.World) (k : NamespacedName)
      → stored_group k (c.update_status s w).1 ≡ stored_group k w
  -- An update of a service that the server accepts returns the service of the same key.
  pub update_service_key :
      (s s' : PdInferenceService) (w : c.World)
      → (c.update_service s w).0 ≡ ok s'
      → service_key s' ≡ service_key s
  -- An update of a live service that the server accepts: it stores the metadata as sent and the
  -- admitted spec, keeps the status, and returns what it stored.
  pub update_service_stores :
      (s old s' : PdInferenceService) (w : c.World)
      → is_zero s.metadata.deletion_timestamp ≡ true
      → stored_service (service_key s) w ≡ some old
      → (c.update_service s w).0 ≡ ok s'
      → (stored_service (service_key s) (c.update_service s w).1 ≡ some s')
        × (s' ≡ record { metadata = s.metadata; spec = admit s.spec; status = old.status })
  -- An update of the status stores the status alone.
  pub update_status_stores :
      (s old s' : PdInferenceService) (w : c.World)
      → stored_service (service_key s) w ≡ some old
      → (c.update_status s w).0 ≡ ok s'
      → (stored_service (service_key s) (c.update_status s w).1 ≡ some s')
        × (s' ≡ record old { status = s.status })
  -- Whatever its answer, it changes nothing else of a service that is stored.
  pub update_status_keeps :
      (s old : PdInferenceService) (w : c.World)
      → stored_service (service_key s) w ≡ some old
      → (status : PdInferenceServiceStatus) × (stored_service
            (service_key s)
            (c.update_status s w).1
          ≡ some (record old { status = status }))
  -- A write of a group touches no service and no other group, and stores the group if it is
  -- accepted.
  pub create_group_others :
      (g : RoleBasedGroup p.Quantity) (w : c.World) (k : NamespacedName)
      → k ≢ group_key g
      → stored_group k (c.create_group g w).1 ≡ stored_group k w
  pub create_group_stores :
      (g : RoleBasedGroup p.Quantity) (w : c.World)
      → (c.create_group g w).0 ≡ ok tt
      → stored_group (group_key g) (c.create_group g w).1 ≡ some g
  pub create_group_services :
      (g : RoleBasedGroup p.Quantity) (w : c.World) (k : NamespacedName)
      → stored_service k (c.create_group g w).1 ≡ stored_service k w
  pub update_group_others :
      (g : RoleBasedGroup p.Quantity) (w : c.World) (k : NamespacedName)
      → k ≢ group_key g
      → stored_group k (c.update_group g w).1 ≡ stored_group k w
  pub update_group_stores :
      (g : RoleBasedGroup p.Quantity) (w : c.World)
      → (c.update_group g w).0 ≡ ok tt
      → stored_group (group_key g) (c.update_group g w).1 ≡ some g
  pub update_group_services :
      (g : RoleBasedGroup p.Quantity) (w : c.World) (k : NamespacedName)
      → stored_service k (c.update_group g w).1 ≡ stored_service k w

-- The read of a service answers with what is stored, if it answers with a service. One that is out of
-- date has another resource version, and the server refuses its updates.
abbrev pub IsFresh :
    (p : Platform) (c : Client p) → ClientLaws p c → NamespacedName → c.World → Type 0
IsFresh p c laws k w =
    (s : PdInferenceService) → c.get_service k w ≡ ok s → laws.stored_service k w ≡ some s

-- A server that answers: reads of a group find it or report that it is missing, and writes of
-- what is there, or the creation of what is missing, are accepted.
pub record ServerAnswers (p : Platform) (c : Client p) (laws : ClientLaws p c) : Type 0 where
  pub group_answers :
      (k : NamespacedName) (w : c.World)
      → ((g : RoleBasedGroup p.Quantity) × (c.get_group k w ≡ ok g))
        ⊎ ((e : Error) × (c.get_group k w ≡ err e) × (is_not_found e ≡ true))
  pub service_accepted :
      (s old : PdInferenceService) (w : c.World)
      → laws.stored_service (service_key s) w ≡ some old
      → (s' : PdInferenceService) × ((c.update_service s w).0 ≡ ok s')
  pub status_accepted :
      (s old : PdInferenceService) (w : c.World)
      → laws.stored_service (service_key s) w ≡ some old
      → (s' : PdInferenceService) × ((c.update_status s w).0 ≡ ok s')
  pub create_accepted :
      (g : RoleBasedGroup p.Quantity) (e : Error) (w : c.World)
      → c.get_group (group_key g) w ≡ err e
      → is_not_found e ≡ true
      → (c.create_group g w).0 ≡ ok tt
  pub update_accepted :
      (g old : RoleBasedGroup p.Quantity) (w : c.World)
      → c.get_group (group_key g) w ≡ ok old
      → (c.update_group g w).0 ≡ ok tt

-- What the server promises also where others write meanwhile: an answer is about the object that was
-- asked for or sent.
pub record AnswersByKey (p : Platform) (c : Client p) : Type 0 where
  pub get_service_key :
      (k : NamespacedName) (w : c.World) (s : PdInferenceService)
      → c.get_service k w ≡ ok s
      → service_key s ≡ k
  pub get_group_key :
      (k : NamespacedName) (w : c.World) (g : RoleBasedGroup p.Quantity)
      → c.get_group k w ≡ ok g
      → group_key g ≡ k
  pub update_service_key :
      (s s' : PdInferenceService) (w : c.World)
      → (c.update_service s w).0 ≡ ok s'
      → service_key s' ≡ service_key s

-- A write of a service or a group touches no profile, whatever its answer.
pub record KeepsProfiles (p : Platform) (c : Client p) : Type 0 where
  pub update_service_profiles :
      (s : PdInferenceService) (w : c.World) (k : NamespacedName)
      → c.get_profile k (c.update_service s w).1 ≡ c.get_profile k w
  pub update_status_profiles :
      (s : PdInferenceService) (w : c.World) (k : NamespacedName)
      → c.get_profile k (c.update_status s w).1 ≡ c.get_profile k w
  pub create_group_profiles :
      (g : RoleBasedGroup p.Quantity) (w : c.World) (k : NamespacedName)
      → c.get_profile k (c.create_group g w).1 ≡ c.get_profile k w
  pub update_group_profiles :
      (g : RoleBasedGroup p.Quantity) (w : c.World) (k : NamespacedName)
      → c.get_profile k (c.update_group g w).1 ≡ c.get_profile k w
