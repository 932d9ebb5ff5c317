-- ===== src/Api/Profile.antt =====
-- api/v1alpha1/pdengineprofile_types.go
use pd_manager.Common.{ℤ, String, Option, List}
use pd_manager.Api.Meta.{ObjectMeta}

pub record ModelSizeRange : Type 0 where
  pub min_b : String
  pub max_b : String

pub record ApplicabilitySpec : Type 0 where
  pub gpu_types : List String
  pub min_gpu_memory_gib : Option ℤ
  pub tensor_parallel_size : Option ℤ
  pub model_size_range : Option ModelSizeRange
  pub optimized_for : String
  pub sglang_version_required : String

-- `corev1.EnvVarSource`: a field of the pod, or any other source, which is only passed on.
pub data EnvVarSource : Type 0 where
  field_ref : (field_path : String) → EnvVarSource
  other_source : String → EnvVarSource

-- `corev1.EnvVar`
pub record EnvVar : Type 0 where
  pub name : String
  pub value : String
  pub value_from : Option EnvVarSource

pub record RuntimeContainer : Type 0 where
  pub name : String
  pub args : List String
  pub env : List EnvVar

pub record EngineRuntime : Type 0 where
  pub profile_name : String
  pub containers : List RuntimeContainer

pub record RoleImages : Type 0 where
  pub router : String
  pub prefill : String
  pub decode : String

pub record RoleEngineRuntimes : Type 0 where
  pub router : List EngineRuntime
  pub prefill : List EngineRuntime
  pub decode : List EngineRuntime

pub record RoleCommands : Type 0 where
  pub router : List String
  pub prefill : List String
  pub decode : List String

pub record RoleArgs : Type 0 where
  pub router : List String
  pub prefill : List String
  pub decode : List String

pub record PdEngineProfileSpec : Type 0 where
  pub description : String
  pub applicability : Option ApplicabilitySpec
  pub images : RoleImages
  pub role_commands : Option RoleCommands
  pub role_args : Option RoleArgs
  pub engine_runtimes : Option RoleEngineRuntimes

pub record PdEngineProfile : Type 0 where
  pub metadata : ObjectMeta
  pub spec : PdEngineProfileSpec
