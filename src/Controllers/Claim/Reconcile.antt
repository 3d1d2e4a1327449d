-- ===== src/Controllers/Claim/Reconcile.antt =====
-- internal/controllers/persistentvolumeclaim_controller.go: `Reconcile` and `deprovision`
use k8storagex.Base.{
  length, nat_eq, String, Bool, true, false, Option, none, some, ok, err, Error, is_not_found, Io,
  ◌==◌, ◌!=◌, string_eq, if◌then◌else◌,
}
use k8storagex.Api.Core.{Pod, PersistentVolume, PersistentVolumeClaim, StorageClass, reclaim_delete}
use k8storagex.Api.Provisioner.{StorageProvisioner, annotation_no_protection, enabled}
use k8storagex.Api.Meta.{NamespacedName, ObjectMeta}
use k8storagex.Cluster.{Client, error_of}
use k8storagex.Library.{Library}
use k8storagex.Registry.{Registry}
use k8storagex.Utils.Annotations.{annotation}
use k8storagex.Utils.Strings.{has_string, remove_string, add_string}
use k8storagex.Utils.Jobs.{Recorder, delete_pod}
use k8storagex.Controllers.Volume.{finalizer, resolve_provisioner}
use k8storagex.Controllers.Claim.{finalizer_pvc_protection, pv_name_for_pvc, provisioner_pod_name}
use k8storagex.Controllers.Claim.Guard.{should_provision}
use k8storagex.Controllers.Claim.Provision.{provision}

unfoldable pub without_finalizer : String → PersistentVolumeClaim → PersistentVolumeClaim
without_finalizer name claim = record claim {
  meta = record (claim.meta) { finalizers = (remove_string claim.meta.finalizers name).0 };
}

module _ {S : Type 0} (volumes : Client S PersistentVolume) where
  unfoldable pub deprovision_claim : PersistentVolumeClaim → Io S (Bool × Option Error)
  deprovision_claim claim s =
      let (found, s') = volumes.get (record { name = pv_name_for_pvc claim; namespace = "" }) s in
      elim found [
        | err e ↦ (if is_not_found e then (true, none) else (false, some e), s')
        | ok pv ↦
            let (e, s'') = volumes.delete pv s' in
            if pv.spec.reclaim_policy != reclaim_delete then ((true, none), s') else elim e [
              | none ↦ ((true, none), s'')
              | some x ↦ (if is_not_found x then (true, none) else (false, some x), s'')
            ]
      ]

module _ {S : Type 0} (lib : Library) (manager_namespace : String)
    (claims : Client S PersistentVolumeClaim) (volumes : Client S PersistentVolume)
    (pods : Client S Pod) where
  -- The pod goes first, then the volume, then the finalizer.
  unfoldable pub clean_up : PersistentVolumeClaim → Io S (Option Error)
  unfolding deprovision_claim without_finalizer
  clean_up claim s =
      let ((gone, e), s1) = delete_pod pods (provisioner_pod_name lib manager_namespace claim) s in
      let ((done, e'), s2) = deprovision_claim volumes claim s1 in
      let (updated, s3) = claims.update_status (without_finalizer finalizer claim) s2 in
      elim e [
        | some x ↦ (some x, s1)
        | none ↦
            if gone
            then elim e' [
              | some x ↦ (some x, s2)
              | none ↦ if done then (error_of updated, s3) else (none, s2)
            ]
            else (none, s1)
      ]

  -- The branch for a claim that is being deleted.
  unfoldable pub finalize_claim : PersistentVolumeClaim → Io S (Option Error)
  unfolding clean_up without_finalizer
  finalize_claim claim s =
      let (updated, s') =
        claims.update_status (without_finalizer finalizer_pvc_protection claim) s in
      if has_string claim.meta.finalizers finalizer_pvc_protection
      then (if annotation claim.meta annotation_no_protection == enabled
          then (error_of updated, s')
          else (none, s))
      else if has_string claim.meta.finalizers finalizer
      then (if length claim.meta.finalizers != 1 then (none, s) else clean_up claim s)
      else (none, s)

module _ {S : Type 0} (lib : Library) (manager_namespace : String) (provisioners : Registry)
    (claims : Client S PersistentVolumeClaim) (volumes : Client S PersistentVolume)
    (classes : Client S StorageClass) (pods : Client S Pod) (event : Recorder S ObjectMeta) where
  -- The claim gets the finalizer first; its volume is provisioned by a later run.
  unfoldable pub guard_and_provision :
      PersistentVolumeClaim → StorageProvisioner → Io S (Option Error)
  unfolding provision
  guard_and_provision claim p s =
      let (finalizers, added) = add_string claim.meta.finalizers finalizer in
      let guarded : PersistentVolumeClaim = record claim {
        meta = record (claim.meta) { finalizers = finalizers };
      } in
      let (updated, s') = claims.update_status guarded s in
      let ((_, e), s'') = provision lib manager_namespace volumes pods event claim p s in
      if added then (error_of updated, s') else (e, s'')

  unfoldable pub provision_claim : PersistentVolumeClaim → Io S (Option Error)
  unfolding guard_and_provision should_provision resolve_provisioner
  provision_claim claim s = elim (resolve_provisioner claim.meta provisioners) [
    | none ↦ (none, s)
    | some p ↦
        let ((should, e), s') = should_provision classes event claim p s in
        elim e [
          | some x ↦ (some x, s')
          | none ↦ if should then guard_and_provision claim p s' else (none, s')
        ]
  ]

  unfoldable pub reconcile : NamespacedName → Io S (Option Error)
  unfolding finalize_claim provision_claim
  reconcile name s =
      let (found, s') = claims.get name s in
      elim found [
        | err e ↦ (if is_not_found e then none else some e, s')
        | ok claim ↦ elim (claim.meta.deletion_timestamp) [
          | some _ ↦ finalize_claim lib manager_namespace claims volumes pods claim s'
          | none ↦ provision_claim claim s'
        ]
      ]
