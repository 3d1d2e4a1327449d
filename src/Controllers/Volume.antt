-- ===== src/Controllers/Volume.antt =====
-- internal/controllers/persistentvolume_controller.go: frees the storage of volumes that are deleted.
pub mod Claims
pub mod Job
pub mod Reconcile
pub mod Laws
pub mod Permits
pub mod Questions
pub mod Release
pub mod Node
use k8storagex.Base.{
  String, ◌<>◌, Bool, true, false, ◌&&◌, ◌||◌, not, Option, none, some, List, [], ◌∷◌, Result, ok,
  err, Error, new_error, wrap, is_not_found, is_conflict, Io, ◌==◌, ◌!=◌, string_eq, if◌then◌else◌,
}
use k8storagex.Api.Meta.{NamespacedName, ObjectMeta}
use k8storagex.Api.Core.{
  Pod, PersistentVolume, PersistentVolumeClaim, ObjectReference, volume_bound,
}
use k8storagex.Api.Provisioner.{StorageProvisioner}
use k8storagex.Cluster.{Client, error_of}
use k8storagex.Library.{Library}
use k8storagex.Registry.{Registry, get}
use k8storagex.Utils.Annotations.{annotation, annotations_to_env}
use k8storagex.Utils.Strings.{has_string, remove_string, resource_name}
use k8storagex.Utils.Jobs.{
  OwnerKeys, Recorder, JobRequest, annotate, wrapped, event_normal, event_warning, reconcile_job,
}
use k8storagex.Utils.PodTemplate.{new_provisioner_pod}
use k8storagex.Utils.Provisioner.{storage_provisioner_from_json}
use k8storagex.Controllers.Pod.{ann_storage_provisioner}

abbrev pub deprovisioner : String
deprovisioner = "deprovisioner"

abbrev pub ann_pv_name : String
ann_pv_name = "k8storagex.mgoltzsche.github.com/pv-name"

abbrev pub ann_pv_disable_deprovisioner : String
ann_pv_disable_deprovisioner = "k8storagex.mgoltzsche.github.com/pv-deprovisioner-disabled"

abbrev pub ann_pv_claim_ref : String
ann_pv_claim_ref = "k8storagex.mgoltzsche.github.com/pvc"

abbrev pub ann_storage_provisioner_spec : String
ann_storage_provisioner_spec = "k8storagex.mgoltzsche.github.com/provisioner-spec"

abbrev pub finalizer : String
finalizer = "k8storagex.mgoltzsche.github.com/finalizer"

abbrev pub owner_keys : OwnerKeys
owner_keys = record { owner_name = ann_pv_name; owner_namespace = "" }

-- `resolveProvisioner` of persistentvolumeclaim_controller.go
unfoldable pub resolve_provisioner : ObjectMeta → Registry → Option StorageProvisioner
resolve_provisioner meta provisioners = elim (meta.annotations) [
  | none ↦ none
  | some _ ↦ get provisioners (annotation meta ann_storage_provisioner)
]

-- The predicates of the watch.
unfoldable pub is_watched : Registry → ObjectMeta → Bool
unfolding resolve_provisioner
is_watched provisioners meta = elim (meta.deletion_timestamp) [
  | none ↦ false
  | some _ ↦ elim (resolve_provisioner meta provisioners) [
    | some _ ↦ true
    | none ↦ has_string meta.finalizers finalizer
  ]
]

module _ (lib : Library) where
  -- `setClaimRefAnnotation`. An error of the encoding is only logged.
  unfoldable pub set_claim_ref_annotation : PersistentVolume → ObjectReference → PersistentVolume
  unfolding annotate
  set_claim_ref_annotation pv claim = elim (lib.reference_to_json claim) [
    | err _ ↦ pv
    | ok text ↦ record pv { meta = annotate ann_pv_claim_ref text pv.meta }
  ]

  unfoldable pub get_claim_ref : PersistentVolume → Option ObjectReference
  get_claim_ref pv = elim (pv.spec.claim_ref) [
    | some claim ↦ some claim
    | none ↦
        if annotation pv.meta ann_pv_claim_ref == ""
        then none
        else elim (lib.reference_from_json (annotation pv.meta ann_pv_claim_ref)) [
          | err _ ↦ none
          | ok claim ↦ some claim
        ]
  ]

-- The name of a job's pod. The slice of `ResourceName` is in range for the suffixes in use, so that it does
-- not panic.
unfoldable pub job_name : Library → String → String → String
job_name lib owner suffix = elim (resource_name lib.digest owner suffix) [
  | none ↦ ""
  | some name ↦ name
]

module _ {S : Type 0} (lib : Library) (event : Recorder S ObjectMeta)
    (event_of_claim : Recorder S ObjectReference) where
  -- `event`: for the volume, and for the claim if one is known.
  unfoldable pub volume_event : PersistentVolume → String → String → String → S → S
  unfolding get_claim_ref
  volume_event pv type reason message s =
      let s' = event pv.meta type reason message s in
      elim (get_claim_ref lib pv) [
        | none ↦ s'
        | some claim ↦ event_of_claim claim type reason message s'
      ]
