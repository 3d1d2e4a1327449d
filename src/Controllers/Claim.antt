-- ===== src/Controllers/Claim.antt =====
-- internal/controllers/persistentvolumeclaim_controller.go: provisions volumes for claims. The names of
-- volumes, and the volume that a claim gets.
pub mod Guard
pub mod Provision
pub mod Reconcile
pub mod Laws
pub mod Permits
pub mod Runs
pub mod Safety
use k8storagex.Base.{String, ◌<>◌, Option, none, some, [], ◌∷◌, Error, new_error}
use k8storagex.Base.Dict
use k8storagex.Api.Meta.{NamespacedName, ObjectMeta}
use k8storagex.Api.Core.{PersistentVolume, PersistentVolumeClaim}
use k8storagex.Api.Provisioner.{StorageProvisioner}
use k8storagex.Library.{Library}
use k8storagex.Controllers.Pod.{ann_storage_provisioner}
use k8storagex.Controllers.Volume.{finalizer, ann_storage_provisioner_spec, job_name}
use k8storagex.Utils.Jobs.{OwnerKeys}

abbrev pub provisioner : String
provisioner = "provisioner"

abbrev pub ann_pvc_name : String
ann_pvc_name = "k8storagex.mgoltzsche.github.com/pvc-name"

abbrev pub ann_pvc_namespace : String
ann_pvc_namespace = "k8storagex.mgoltzsche.github.com/pvc-namespace"

abbrev pub ann_provisioned_by : String
ann_provisioned_by = "pv.kubernetes.io/provisioned-by"

abbrev pub ann_selected_node : String
ann_selected_node = "volume.kubernetes.io/selected-node"

abbrev pub finalizer_pvc_protection : String
finalizer_pvc_protection = "kubernetes.io/pvc-protection"

abbrev pub claim_owner_keys : OwnerKeys
claim_owner_keys = record { owner_name = ann_pvc_name; owner_namespace = ann_pvc_namespace }

-- A nil pointer that is followed ends the process; here it is this error.
abbrev pub nil_dereference : Error
nil_dereference = new_error "invalid memory address or nil pointer dereference"

unfoldable pub pv_name_for_pvc : PersistentVolumeClaim → String
pv_name_for_pvc claim = "pvc-" <> claim.meta.uid

-- `persistentVolumeClaimClass`: the beta annotation comes first.
unfoldable pub persistent_volume_claim_class : PersistentVolumeClaim → String
persistent_volume_claim_class claim =
    let named : String = elim (claim.spec.storage_class_name) [ none ↦ "" | some name ↦ name ] in
    elim (claim.meta.annotations) [
      | none ↦ named
      | some a ↦ elim (Dict.lookup "volume.beta.kubernetes.io/storage-class" a) [
        | none ↦ named
        | some class ↦ class
      ]
    ]

unfoldable pub persistent_volume_for_claim :
    PersistentVolumeClaim → StorageProvisioner → String → PersistentVolume
unfolding pv_name_for_pvc
persistent_volume_for_claim claim p json =
    let template = p.spec.persistent_volume_template in
    record {
      meta = record {
        name = pv_name_for_pvc claim;
        namespace = "";
        uid = "";
        resource_version = "";
        generation = 0;
        deletion_timestamp = none;
        finalizers = finalizer ∷ [];
        annotations = some (
            (ann_storage_provisioner, p.spec.name)
            ∷ (ann_storage_provisioner_spec, json)
            ∷ (ann_provisioned_by, "k8storagex")
            ∷ []);
      };
      spec = record template {
        capacity = elim (template.capacity) [ none ↦ claim.spec.requests | some c ↦ some c ];
        storage_class_name = elim (claim.spec.storage_class_name) [
          | none ↦ template.storage_class_name
          | some name ↦ name
        ];
        claim_ref = some (record {
          name = claim.meta.name;
          namespace = claim.meta.namespace;
          uid = claim.meta.uid;
          resource_version = claim.meta.resource_version;
        });
      };
      phase = "";
    }

abbrev pub provisioner_pod_name : Library → String → PersistentVolumeClaim → NamespacedName
provisioner_pod_name lib manager_namespace claim = record {
  name = job_name lib (pv_name_for_pvc claim) provisioner;
  namespace = manager_namespace;
}
