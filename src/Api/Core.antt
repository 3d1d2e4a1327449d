-- ===== src/Api/Core.antt =====
-- The parts of Kubernetes' core objects that the program reads or writes. Strings stand for the
-- string types of k8s.io/api/core/v1.
use k8storagex.Base.{String, Bool, Option, List}
use k8storagex.Base.Dict.{Dict}
use k8storagex.Api.Meta.{ObjectMeta}

pub record EnvVar : Type 0 where
  pub name : String
  pub value : String

pub record VolumeMount : Type 0 where
  pub name : String
  pub mount_path : String

-- Of a list the code asks only for its length, so nil and empty are one.
pub record Container : Type 0 where
  pub name : String
  pub image : String
  pub command : List String
  pub args : List String
  pub env : List EnvVar
  pub volume_mounts : List VolumeMount

-- A volume's reference to a claim.
pub record ClaimSource : Type 0 where
  pub claim_name : String
  pub read_only : Bool

pub record PodVolume : Type 0 where
  pub name : String
  pub claim : Option ClaimSource

pub record PodSpec : Type 0 where
  pub containers : List Container
  pub volumes : List PodVolume
  pub restart_policy : String
  pub node_name : String

pub record Pod : Type 0 where
  pub meta : ObjectMeta
  pub spec : PodSpec
  pub phase : String

abbrev pub pod_succeeded : String
pod_succeeded = "Succeeded"

abbrev pub pod_failed : String
pod_failed = "Failed"

abbrev pub restart_never : String
restart_never = "Never"

abbrev pub restart_on_failure : String
restart_on_failure = "OnFailure"

abbrev pub read_write_once : String
read_write_once = "ReadWriteOnce"

abbrev pub volume_bound : String
volume_bound = "Bound"

abbrev pub reclaim_delete : String
reclaim_delete = "Delete"

pub record ObjectReference : Type 0 where
  pub name : String
  pub namespace : String
  pub uid : String
  pub resource_version : String

pub record NodeSelectorRequirement : Type 0 where
  pub key : String
  pub operator : String
  pub values : List String

abbrev pub operator_in : String
operator_in = "In"

-- The match expressions of a term.
abbrev pub NodeSelectorTerm : Type 0
NodeSelectorTerm = List NodeSelectorRequirement

pub record NodeAffinity : Type 0 where
  pub required : Option (List NodeSelectorTerm)

pub record PersistentVolumeSpec : Type 0 where
  pub capacity : Option (Dict String)
  pub volume_mode : Option String
  pub storage_class_name : String
  pub reclaim_policy : String
  pub claim_ref : Option ObjectReference
  pub host_path : Option String
  pub node_affinity : Option NodeAffinity

pub record PersistentVolume : Type 0 where
  pub meta : ObjectMeta
  pub spec : PersistentVolumeSpec
  pub phase : String

pub record PersistentVolumeClaimSpec : Type 0 where
  pub access_modes : List String
  pub volume_name : String
  pub storage_class_name : Option String
  pub volume_mode : Option String
  pub requests : Option (Dict String)

pub record PersistentVolumeClaim : Type 0 where
  pub meta : ObjectMeta
  pub spec : PersistentVolumeClaimSpec

pub record StorageClass : Type 0 where
  pub meta : ObjectMeta
  pub volume_binding_mode : Option String

abbrev pub wait_for_first_consumer : String
wait_for_first_consumer = "WaitForFirstConsumer"
