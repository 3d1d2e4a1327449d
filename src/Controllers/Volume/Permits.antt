-- ===== src/Controllers/Volume/Permits.antt =====
-- internal/controllers/persistentvolume_controller.go: what a run may do to the cluster, and when.
use k8storagex.Base.{◌≡◌, String, true, none, ok, string_eq}
use k8storagex.Api.Meta.{NamespacedName, ObjectMeta}
use k8storagex.Api.Core.{Pod, PersistentVolume, PersistentVolumeClaim, ObjectReference}
use k8storagex.Cluster.{Client}
use k8storagex.Library.{Library}
use k8storagex.Utils.Annotations.{annotation}
use k8storagex.Utils.Strings.{remove_string}
use k8storagex.Utils.Jobs.{Recorder, delete_pod}
use k8storagex.Utils.Jobs.Keeps.{PodsKeep, Keeping}
use k8storagex.Controllers.Volume.{finalizer, ann_pv_disable_deprovisioner}
use k8storagex.Controllers.Volume.Job.{pod_name}
use k8storagex.Controllers.Volume.Laws.{IsFree}

abbrev pub released : PersistentVolume → PersistentVolume
released pv = record pv {
  meta = record (pv.meta) { finalizers = (remove_string pv.meta.finalizers finalizer).0 };
}

-- The server gave the volume.
abbrev pub WasRead : {S : Type 0} → Client S PersistentVolume → PersistentVolume → Type 0
WasRead {S} volumes pv = (name : NamespacedName) × (s : S) × ((volumes.get name s).0 ≡ ok pv)

-- What a run may do to a world that satisfies `Inv`: read, record events, run pods, update a volume with the
-- finalizers that it was read with, and release a volume that is free, has an annotation that disables the
-- deprovisioner, and whose pod was reported gone.
pub record Permits {S : Type 0} (lib : Library) (manager_namespace : String)
    (volumes : Client S PersistentVolume) (claims : Client S PersistentVolumeClaim)
    (pods : Client S Pod) (event : Recorder S ObjectMeta)
    (event_of_claim : Recorder S ObjectReference) (Inv : S → Type 0) : Type 0 where
  pub get_volume : (name : NamespacedName) → Keeping Inv (volumes.get name)
  pub update_volume :
      (pv read : PersistentVolume)
      → WasRead volumes read
      → pv.meta.finalizers ≡ read.meta.finalizers
      → Keeping Inv (volumes.update pv)
  pub get_claim : (name : NamespacedName) → Keeping Inv (claims.get name)
  pub pods_keep : PodsKeep pods Inv
  pub event_keeps :
      (owner : ObjectMeta) (type reason message : String) (s : S)
      → Inv s
      → Inv (event owner type reason message s)
  pub event_of_claim_keeps :
      (claim : ObjectReference) (type reason message : String) (s : S)
      → Inv s
      → Inv (event_of_claim claim type reason message s)
  pub releases :
      (pv : PersistentVolume) (t : S)
      → WasRead volumes pv
      → IsFree pv
      → annotation pv.meta ann_pv_disable_deprovisioner ≡ "true"
      → (delete_pod pods (pod_name lib manager_namespace pv) t).0 ≡ (true, none)
      → Keeping Inv (volumes.update_status (released pv))
