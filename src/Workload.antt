-- ===== src/Workload.antt =====
-- The Kubernetes and RoleBasedGroup objects that the translator fills in: of each type, the fields
-- that the program sets or reads. `Q` is the type of resource quantities.
use pd_manager.Common.{ℤ, String, Bool, Option, List, GoMap}
use pd_manager.Api.{Condition, EnvVar}

pub record HostPathVolumeSource : Type 0 where
  pub path : String
  pub type : Option String

pub record EmptyDirVolumeSource (Q : Type 0) : Type 0 where
  pub medium : String
  pub size_limit : Option Q

pub record PvcVolumeSource : Type 0 where
  pub claim_name : String

pub record VolumeSource (Q : Type 0) : Type 0 where
  pub host_path : Option HostPathVolumeSource
  pub empty_dir : Option (EmptyDirVolumeSource Q)
  pub persistent_volume_claim : Option PvcVolumeSource

pub record Volume (Q : Type 0) : Type 0 where
  pub name : String
  pub source : VolumeSource Q

pub record VolumeMount : Type 0 where
  pub name : String
  pub mount_path : String
  pub read_only : Bool

-- A `ResourceList`; `none` is the nil map.
pub record ResourceRequirements (Q : Type 0) : Type 0 where
  pub requests : Option (GoMap Q)
  pub limits : Option (GoMap Q)

pub data IntOrString : Type 0 where
  from_int : ℤ → IntOrString
  from_string : String → IntOrString

pub record HttpGetAction : Type 0 where
  pub path : String
  pub port : IntOrString

pub record Probe : Type 0 where
  pub http_get : Option HttpGetAction
  pub initial_delay_seconds : ℤ
  pub period_seconds : ℤ
  pub timeout_seconds : ℤ
  pub failure_threshold : ℤ

pub record Container (Q : Type 0) : Type 0 where
  pub name : String
  pub image : String
  pub command : List String
  pub args : List String
  pub env : List EnvVar
  pub resources : ResourceRequirements Q
  pub volume_mounts : List VolumeMount
  pub readiness_probe : Option Probe
  pub liveness_probe : Option Probe

pub record PodSpec (Q : Type 0) : Type 0 where
  pub volumes : List (Volume Q)
  pub containers : List (Container Q)
  pub node_selector : GoMap String

pub record WorkloadSpec : Type 0 where
  pub api_version : String
  pub kind : String

-- The RBG's own `EngineRuntime`, whose containers are Kubernetes containers.
pub record RbgEngineRuntime (Q : Type 0) : Type 0 where
  pub profile_name : String
  pub containers : List (Container Q)

pub record RoleSpec (Q : Type 0) : Type 0 where
  pub name : String
  pub replicas : Option ℤ
  pub workload : WorkloadSpec
  pub engine_runtimes : List (RbgEngineRuntime Q)
  pub template : PodSpec Q

pub record OwnerReference : Type 0 where
  pub api_version : String
  pub kind : String
  pub name : String
  pub uid : String
  pub controller : Option Bool
  pub block_owner_deletion : Option Bool

pub record RbgRoleStatus : Type 0 where
  pub name : String
  pub ready_replicas : ℤ
  pub replicas : ℤ

pub record RbgStatus : Type 0 where
  pub conditions : List Condition
  pub role_statuses : List RbgRoleStatus

pub record RoleBasedGroup (Q : Type 0) : Type 0 where
  pub name : String
  pub namespace : String
  pub owner_references : List OwnerReference
  pub roles : List (RoleSpec Q)
  pub status : RbgStatus
