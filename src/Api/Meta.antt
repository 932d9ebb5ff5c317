-- ===== src/Api/Meta.antt =====
-- The Kubernetes object metadata and conditions that the operator reads and writes
-- (`metav1.ObjectMeta`, `metav1.Condition`, `types.NamespacedName`).
use pd_manager.Common.{ℕ, ltb, ℤ, Bool, true, not, String, Option, none, some, List}

-- Nanoseconds since Go's zero time, 1 January of the year 1; `Time{}` is 0.
abbrev pub Time : Type 0
Time = ℕ

-- `(*metav1.Time).IsZero` of a pointer that may be nil
abbrev pub is_zero : Option Time → Bool
is_zero none = true
is_zero (some t) = not (ltb 0 t)

pub record NamespacedName : Type 0 where
  pub namespace : String
  pub name : String

-- The fields that the program uses; the server manages the others.
pub record ObjectMeta : Type 0 where
  pub name : String
  pub namespace : String
  pub uid : String
  pub creation_timestamp : Time
  pub deletion_timestamp : Option Time
  pub finalizers : List String

pub record Condition : Type 0 where
  pub type : String
  pub status : String
  pub observed_generation : ℤ
  pub last_transition_time : Time
  pub reason : String
  pub message : String

abbrev pub condition_true : String
condition_true = "True"

abbrev pub condition_false : String
condition_false = "False"

abbrev pub condition_unknown : String
condition_unknown = "Unknown"
