-- ===== src/Api/Provisioner.antt =====
-- api/v1alpha1/storageprovisioner_types.go: the StorageProvisioner resource.
use k8storagex.Base.{String, Bool, Option, List}
use k8storagex.Api.Meta.{ObjectMeta, Condition}
use k8storagex.Api.Core
use k8storagex.Api.Core.{PersistentVolumeSpec, PodSpec}

abbrev pub condition_configured : String
condition_configured = "Configured"

abbrev pub annotation_no_protection : String
annotation_no_protection = "k8storagex.mgoltzsche.github.com/no-pvc-protection"

abbrev pub enabled : String
enabled = "true"

-- An annotation that is handed to the pods as an env var; `required` is a `*bool`.
pub record EnvVar : Type 0 where
  pub name : String
  pub annotation : String
  pub required : Option Bool

pub record NodePath : Type 0 where
  pub name : String
  pub path : String

-- A nil command is `none`.
pub record ProvisionerContainer : Type 0 where
  pub command : Option (List String)
  pub env : List Core.EnvVar

pub record Containers : Type 0 where
  pub provisioner : ProvisionerContainer
  pub deprovisioner : ProvisionerContainer

pub record StorageProvisionerSpec : Type 0 where
  pub name : String
  pub deprovision_on_pod_completion : Bool
  pub persistent_volume_template : PersistentVolumeSpec
  pub pod_template : PodSpec
  pub containers : Containers
  pub env : List EnvVar
  pub nodes : List NodePath

pub record StorageProvisioner : Type 0 where
  pub meta : ObjectMeta
  pub spec : StorageProvisionerSpec
  pub conditions : List Condition

-- `GetProvisionerName`
unfoldable pub provisioner_name : StorageProvisioner → String
provisioner_name p = p.spec.name
