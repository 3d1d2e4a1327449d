-- ===== src/Controllers/Claim/Permits.antt =====
-- internal/controllers/persistentvolumeclaim_controller.go: what a run may do to the cluster, and when.
use k8storagex.Base.{length, ◌≡◌, ◌≢◌, String, true, none, ok, err, Error, is_not_found}
use k8storagex.Api.Core.{Pod, PersistentVolume, PersistentVolumeClaim, StorageClass, reclaim_delete}
use k8storagex.Api.Provisioner.{StorageProvisioner, annotation_no_protection, enabled}
use k8storagex.Api.Meta.{NamespacedName, ObjectMeta}
use k8storagex.Cluster.{Client}
use k8storagex.Library.{Library}
use k8storagex.Utils.Annotations.{annotation, copy_annotations}
use k8storagex.Utils.Strings.{has_string, add_string}
use k8storagex.Utils.Jobs.{Recorder, delete_pod}
use k8storagex.Utils.Jobs.Keeps.{PodsKeep, Keeping}
use k8storagex.Utils.Provisioner.{storage_provisioner_from_json}
use k8storagex.Controllers.Volume.{ann_storage_provisioner_spec, finalizer}
use k8storagex.Controllers.Claim.{
  ann_selected_node, finalizer_pvc_protection, persistent_volume_for_claim, pv_name_for_pvc,
  provisioner_pod_name,
}
use k8storagex.Controllers.Claim.Reconcile.{without_finalizer, deprovision_claim}
use k8storagex.Controllers.Claim.Laws.{IsDue, class_of}

-- The name of a claim's volume.
abbrev pub volume_name_of : PersistentVolumeClaim → NamespacedName
volume_name_of claim = record { name = pv_name_for_pvc claim; namespace = "" }

-- The volume that is made for a claim from the pod of its provisioner.
abbrev pub volume_from : PersistentVolumeClaim → Pod → StorageProvisioner → PersistentVolume
volume_from claim pod p =
    let pv =
      persistent_volume_for_claim claim p (annotation pod.meta ann_storage_provisioner_spec) in
    record pv { meta = copy_annotations pod.meta pv.meta p.spec.env }

abbrev pub with_finalizer : PersistentVolumeClaim → PersistentVolumeClaim
with_finalizer claim = record claim {
  meta = record (claim.meta) { finalizers = (add_string claim.meta.finalizers finalizer).0 };
}

-- The server gave the claim.
abbrev pub WasGiven : {S : Type 0} → Client S PersistentVolumeClaim → PersistentVolumeClaim → Type 0
WasGiven {S} claims claim = (name : NamespacedName) × (s : S) × ((claims.get name s).0 ≡ ok claim)

-- The claim is deleted, and has the controller's finalizer and no other.
pub record IsLast {S : Type 0} (claims : Client S PersistentVolumeClaim)
    (claim : PersistentVolumeClaim) : Type 0 where
  pub given : WasGiven claims claim
  pub deleted : claim.meta.deletion_timestamp ≢ none
  pub final : has_string claim.meta.finalizers finalizer ≡ true
  pub only : length claim.meta.finalizers ≡ 1

-- The claim lives, has the finalizer, is due at a moment, no volume was there at a later one, and it has its
-- node.
pub record IsVacant {S : Type 0} (claims : Client S PersistentVolumeClaim)
    (volumes : Client S PersistentVolume) (classes : Client S StorageClass)
    (event : Recorder S ObjectMeta) (claim : PersistentVolumeClaim) : Type 0 where
  pub given : WasGiven claims claim
  pub living : claim.meta.deletion_timestamp ≡ none
  pub final : has_string claim.meta.finalizers finalizer ≡ true
  pub provisioner : StorageProvisioner
  pub due : (t : S) × IsDue claim provisioner (class_of classes event claim t)
  pub vacant :
      (t : S) × (e : Error) × ((volumes.get (volume_name_of claim) t).0 ≡ err e)
      × (is_not_found e ≡ true)
  pub placed : annotation claim.meta ann_selected_node ≢ ""

-- What a run may do to a world that satisfies `Inv`.
pub record Permits {S : Type 0} (lib : Library) (manager_namespace : String)
    (claims : Client S PersistentVolumeClaim) (volumes : Client S PersistentVolume)
    (classes : Client S StorageClass) (pods : Client S Pod) (event : Recorder S ObjectMeta)
    (Inv : S → Type 0) : Type 0 where
  pub get_claim : (name : NamespacedName) → Keeping Inv (claims.get name)
  pub get_volume : (name : NamespacedName) → Keeping Inv (volumes.get name)
  pub get_class : (name : NamespacedName) → Keeping Inv (classes.get name)
  pub pods_keep : PodsKeep pods Inv
  pub event_keeps :
      (owner : ObjectMeta) (type reason message : String) (s : S)
      → Inv s
      → Inv (event owner type reason message s)
  pub guards :
      (claim : PersistentVolumeClaim)
      → WasGiven claims claim
      → claim.meta.deletion_timestamp ≡ none
      → Keeping Inv (claims.update_status (with_finalizer claim))
  pub creates :
      (claim : PersistentVolumeClaim) (pod : Pod) (p : StorageProvisioner)
      → IsVacant claims volumes classes event claim
      → storage_provisioner_from_json lib (annotation pod.meta ann_storage_provisioner_spec) ≡ ok p
      → Keeping Inv (volumes.create (volume_from claim pod p))
  pub unprotects :
      (claim : PersistentVolumeClaim)
      → WasGiven claims claim
      → claim.meta.deletion_timestamp ≢ none
      → annotation claim.meta annotation_no_protection ≡ enabled
      → Keeping Inv (claims.update_status (without_finalizer finalizer_pvc_protection claim))
  pub deletes :
      (claim : PersistentVolumeClaim) (pv : PersistentVolume) (t u : S)
      → IsLast claims claim
      → (delete_pod pods (provisioner_pod_name lib manager_namespace claim) t).0 ≡ (true, none)
      → (volumes.get (volume_name_of claim) u).0 ≡ ok pv
      → pv.spec.reclaim_policy ≡ reclaim_delete
      → Keeping Inv (volumes.delete pv)
  pub frees :
      (claim : PersistentVolumeClaim) (t u : S)
      → IsLast claims claim
      → (delete_pod pods (provisioner_pod_name lib manager_namespace claim) t).0 ≡ (true, none)
      → (deprovision_claim volumes claim u).0 ≡ (true, none)
      → Keeping Inv (claims.update_status (without_finalizer finalizer claim))
