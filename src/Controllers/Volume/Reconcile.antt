-- ===== src/Controllers/Volume/Reconcile.antt =====
-- internal/controllers/persistentvolume_controller.go: `Reconcile`
use k8storagex.Base.{
  String, Option, none, some, ok, err, Error, is_not_found, Io, string_eq, if◌then◌else◌,
}
use k8storagex.Api.Meta.{NamespacedName, ObjectMeta}
use k8storagex.Api.Core.{Pod, PersistentVolume, PersistentVolumeClaim, ObjectReference}
use k8storagex.Cluster.{Client}
use k8storagex.Library.{Library}
use k8storagex.Registry.{Registry}
use k8storagex.Utils.Strings.{has_string, remove_string}
use k8storagex.Utils.Jobs.{Recorder, event_normal}
use k8storagex.Controllers.Volume.{finalizer, volume_event}
use k8storagex.Controllers.Volume.Claims.{can_deprovision}
use k8storagex.Controllers.Volume.Job.{deprovision_volume}

module _ {S : Type 0} (lib : Library) (manager_namespace : String) (provisioners : Registry)
    (volumes : Client S PersistentVolume) (claims : Client S PersistentVolumeClaim)
    (pods : Client S Pod) (event : Recorder S ObjectMeta)
    (event_of_claim : Recorder S ObjectReference) where
  -- The last step: the volume loses the finalizer, so that the cluster deletes it.
  unfoldable pub release_volume : PersistentVolume → Io S (Option Error)
  unfolding volume_event
  release_volume pv s =
      let released : PersistentVolume = record pv {
        meta = record (pv.meta) { finalizers = (remove_string pv.meta.finalizers finalizer).0 };
      } in
      let (updated, s') = volumes.update_status released s in
      elim updated [
        | err e ↦ (some e, s')
        | ok stored ↦ (
          none,
          volume_event lib event event_of_claim stored event_normal "Deprovisioned"
              "Deprovisioned PersistentVolume" s',
        )
      ]

  -- `r.deprovisionVolume` and what follows it.
  unfoldable pub deprovision : PersistentVolume → Io S (Option Error)
  unfolding deprovision_volume release_volume
  deprovision pv s =
      let ((done, e), s') =
        deprovision_volume lib manager_namespace volumes pods event event_of_claim pv s in
      elim e [ some x ↦ (some x, s') | none ↦ if done then release_volume pv s' else (none, s') ]

  unfoldable pub finalize : PersistentVolume → Io S (Option Error)
  unfolding can_deprovision deprovision
  finalize pv s =
      let (((should, e), pv'), s') = can_deprovision lib volumes claims provisioners pv s in
      elim e [ some x ↦ (some x, s') | none ↦ if should then deprovision pv' s' else (none, s') ]

  unfoldable pub reconcile : NamespacedName → Io S (Option Error)
  unfolding finalize
  reconcile name s =
      let (found, s') = volumes.get name s in
      elim found [
        | err e ↦ (if is_not_found e then none else some e, s')
        | ok pv ↦ elim (pv.meta.deletion_timestamp) [
          | none ↦ (none, s')
          | some _ ↦ if has_string pv.meta.finalizers finalizer then finalize pv s' else (none, s')
        ]
      ]
