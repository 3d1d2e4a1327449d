-- ===== src/Api/Meta.antt =====
-- The fields of Kubernetes' object metadata and conditions that the program reads or writes.
use k8storagex.Base.{ℕ, String, Option, List}
use k8storagex.Base.Dict.{Dict}

pub record NamespacedName : Type 0 where
  pub name : String
  pub namespace : String

-- A nil map of annotations is `none`.
pub record ObjectMeta : Type 0 where
  pub name : String
  pub namespace : String
  pub uid : String
  pub resource_version : String
  pub generation : ℕ
  pub deletion_timestamp : Option ℕ
  pub finalizers : List String
  pub annotations : Option (Dict String)

pub record Condition : Type 0 where
  pub type : String
  pub status : String
  pub observed_generation : ℕ
  pub last_transition_time : ℕ
  pub reason : String
  pub message : String

abbrev pub condition_true : String
condition_true = "True"

abbrev pub condition_false : String
condition_false = "False"
