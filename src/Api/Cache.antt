-- ===== src/Api/Cache.antt =====
-- api/v1alpha1/cache_types.go: the Cache resource. Times are nanoseconds, counters the bit
-- patterns of an int64.
use k8storagex.Base.{ℕ, String, Bool, Option, List}
use k8storagex.Api.Meta.{ObjectMeta, Condition}

abbrev pub cache_phase_ready : String
cache_phase_ready = "ready"

abbrev pub cache_phase_reject : String
cache_phase_reject = "reject"

abbrev pub cache_finalizer : String
cache_finalizer = "k8storagex.mgoltzsche.github.com/finalizer"

abbrev pub condition_storage_reset : String
condition_storage_reset = "StorageReset"

abbrev pub condition_pods_cleared : String
condition_pods_cleared = "PodsCleared"

pub record CacheSpec : Type 0 where
  pub read_only : Bool

pub record VolumeError : Type 0 where
  pub volume_name : String
  pub cache_generation : Option ℕ
  pub error : String
  pub happened : ℕ

pub record VolumeStatus : Type 0 where
  pub name : String
  pub cache_generation : ℕ
  pub created : ℕ
  pub committable : Bool
  pub commit_start_time : Option ℕ

pub record NodeStatus : Type 0 where
  pub name : String
  pub cache_generation : ℕ
  pub last_used : ℕ
  pub last_image_id : String
  pub volumes : List VolumeStatus
  pub last_error : Option VolumeError

pub record ResetStatus : Type 0 where
  pub cache_generation : ℕ
  pub reset_time : ℕ

pub record CacheStatus : Type 0 where
  pub image : String
  pub cache_generation : ℕ
  pub last_image_id : Option String
  pub last_used : Option ℕ
  pub last_written : Option ℕ
  pub last_reset : Option ResetStatus
  pub used : ℕ
  pub nodes : List NodeStatus
  pub phase : String
  pub conditions : List Condition

pub record Cache : Type 0 where
  pub meta : ObjectMeta
  pub spec : CacheSpec
  pub status : CacheStatus
