-- ===== src/DeepCopy/Library.antt =====
-- The types of k8s.io/api and k8s.io/apimachinery inside the API types, and their deep copies. All
-- of it is a parameter; what `DeepCopyInto` is documented to do is `LibraryLaws`.
use pd_manager.Common.{String}
use pd_manager.Api.{EnvVar, ObjectMeta, Condition}
use pd_manager.DeepCopy.Alloc.{Alloc}
use pd_manager.DeepCopy.Views.{View, IsDeep}

-- `metav1.ListMeta`, as far as it is read.
pub record ListMeta : Type 0 where
  pub resource_version : String
  pub continue : String

-- `metav1.TypeMeta`
pub record TypeMeta : Type 0 where
  pub kind : String
  pub api_version : String

pub record Library : Type 1 where
  -- The objects in memory.
  pub EnvVarObj : Type 0
  pub ObjectMetaObj : Type 0
  pub ListMetaObj : Type 0
  pub ConditionObj : Type 0
  -- How they read.
  pub env_var : View EnvVarObj EnvVar
  pub object_meta : View ObjectMetaObj ObjectMeta
  pub list_meta : View ListMetaObj ListMeta
  pub condition : View ConditionObj Condition
  -- Their `DeepCopyInto`.
  pub copy_env_var : EnvVarObj → Alloc EnvVarObj
  pub copy_object_meta : ObjectMetaObj → Alloc ObjectMetaObj
  pub copy_list_meta : ListMetaObj → Alloc ListMetaObj
  pub copy_condition : ConditionObj → Alloc ConditionObj

pub record LibraryLaws (l : Library) : Type 0 where
  pub env_var-IsDeep : IsDeep l.env_var l.copy_env_var
  pub object_meta-IsDeep : IsDeep l.object_meta l.copy_object_meta
  pub list_meta-IsDeep : IsDeep l.list_meta l.copy_list_meta
  pub condition-IsDeep : IsDeep l.condition l.copy_condition
