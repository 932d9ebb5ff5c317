-- ===== src/Api/Service.antt =====
-- api/v1alpha1/pdinferenceservice_types.go
use pd_manager.Common.{ℤ, String, Option, List, Bool, GoMap}
use pd_manager.Api.Meta.{ObjectMeta, Condition}
use pd_manager.Api.Profile.{EngineRuntime}

abbrev pub engine_type_sglang : String
engine_type_sglang = "sglang"

-- `other` is any string that is none of the five, such as "" before the first sync.
pub data Phase : Type 0 where
  pending initializing running failed terminating : Phase
  other : String → Phase

pub record HostPathVolume : Type 0 where
  pub path : String
  pub type : String

pub record EmptyDirVolume : Type 0 where
  pub medium : String
  pub size_limit : String

pub record PvcVolume : Type 0 where
  pub claim_name : String

pub record VolumeSpec : Type 0 where
  pub name : String
  pub host_path : Option HostPathVolume
  pub empty_dir : Option EmptyDirVolume
  pub pvc : Option PvcVolume

pub record VolumeMountSpec : Type 0 where
  pub name : String
  pub mount_path : String
  pub read_only : Bool

pub record RoleResources : Type 0 where
  pub requests : GoMap String
  pub limits : GoMap String

pub record ProbeSpec : Type 0 where
  pub http_path : String
  pub port : ℤ
  pub initial_delay_seconds : ℤ
  pub period_seconds : ℤ
  pub timeout_seconds : ℤ
  pub failure_threshold : ℤ

pub record RouterRoleSpec : Type 0 where
  pub image : String
  pub replicas : ℤ
  pub resources : Option RoleResources
  pub volume_mounts : List VolumeMountSpec
  pub command : List String
  pub args : List String
  pub readiness_probe : Option ProbeSpec
  pub liveness_probe : Option ProbeSpec

pub record InferenceRoleSpec : Type 0 where
  pub image : String
  pub replicas : ℤ
  pub gpu : String
  pub gpu_type : String
  pub resources : Option RoleResources
  pub volume_mounts : List VolumeMountSpec
  pub command : List String
  pub args : List String
  pub readiness_probe : Option ProbeSpec
  pub liveness_probe : Option ProbeSpec
  pub engine_runtimes : List EngineRuntime

pub record HpaSpec : Type 0 where
  pub min_replicas : Option ℤ
  pub max_replicas : ℤ

pub record ScalingSpec : Type 0 where
  pub decode : Option HpaSpec
  pub prefill : Option HpaSpec

pub record RoleStatus : Type 0 where
  pub name : String
  pub ready : ℤ
  pub total : ℤ

pub record EventRecord : Type 0 where
  pub reason : String
  pub message : String

pub record PdInferenceServiceSpec : Type 0 where
  pub model : String
  pub engine : String
  pub volumes : List VolumeSpec
  pub router : RouterRoleSpec
  pub prefill : InferenceRoleSpec
  pub decode : InferenceRoleSpec
  pub pd_ratio : String
  pub engine_profile_ref : String
  pub scaling : Option ScalingSpec

pub record PdInferenceServiceStatus : Type 0 where
  pub phase : Phase
  pub endpoint : String
  pub conditions : List Condition
  pub role_statuses : List RoleStatus
  pub last_event : Option EventRecord

pub record PdInferenceService : Type 0 where
  pub metadata : ObjectMeta
  pub spec : PdInferenceServiceSpec
  pub status : PdInferenceServiceStatus
