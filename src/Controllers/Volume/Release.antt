-- ===== src/Controllers/Volume/Release.antt =====
-- internal/controllers/persistentvolume_controller.go: when a run of `Reconcile` releases a volume.
use k8storagex.Base.{
  refl, String, inl, inr, Bool-cases, Option-cases, Result-cases, ◌==◌, string_eq,
}
use k8storagex.Api.Meta.{NamespacedName, ObjectMeta}
use k8storagex.Api.Core.{Pod, PersistentVolume, PersistentVolumeClaim, ObjectReference}
use k8storagex.Api.Provisioner.{StorageProvisioner}
use k8storagex.Cluster.{Client}
use k8storagex.Library.{Library}
use k8storagex.Registry.{Registry}
use k8storagex.Utils.Annotations.{annotation, annotations_to_env}
use k8storagex.Utils.Strings.{has_string}
use k8storagex.Utils.Jobs.{Recorder, annotate, reconcile_job, event_normal, event_warning}
use k8storagex.Utils.Jobs.Keeps.{Keeping, reconcile_job-Inv}
use k8storagex.Utils.PodTemplate.{new_provisioner_pod}
use k8storagex.Utils.Provisioner.{storage_provisioner_from_json}
use k8storagex.Controllers.Volume.{
  finalizer, owner_keys, volume_event, ann_storage_provisioner_spec,
}
use k8storagex.Controllers.Volume.Claims.{can_deprovision}
use k8storagex.Controllers.Volume.Job.{
  pod_name, disable_deprovisioner, create_deprovisioner, deprovision_request, deprovision_with,
  deprovision_volume,
}
use k8storagex.Controllers.Volume.Reconcile.{release_volume, deprovision, finalize, reconcile}
use k8storagex.Controllers.Volume.Laws.{IsFree, can_deprovision-IsFree, deprovision_volume_done}
use k8storagex.Controllers.Volume.Permits.{WasRead, Permits, released}
use k8storagex.Controllers.Volume.Questions.{
  can_deprovision-WasRead, volume_event-Inv, can_deprovision-Inv,
}

module _ {S : Type 0} (lib : Library) (manager_namespace : String) (provisioners : Registry)
    (volumes : Client S PersistentVolume) (claims : Client S PersistentVolumeClaim)
    (pods : Client S Pod) (event : Recorder S ObjectMeta)
    (event_of_claim : Recorder S ObjectReference) (Inv : S → Type 0)
    (permits : Permits lib manager_namespace volumes claims pods event event_of_claim Inv) where
  event-Inv :
      (pv : PersistentVolume) (type reason message : String) (s : S)
      → Inv s
      → Inv (volume_event lib event event_of_claim pv type reason message s)
  event-Inv =
      volume_event-Inv lib manager_namespace provisioners volumes claims pods event event_of_claim
        Inv permits

  disable_deprovisioner-Inv :
      (pv : PersistentVolume)
      → WasRead volumes pv
      → (pod : Pod) → Keeping Inv (disable_deprovisioner volumes pv pod)
  unfolding disable_deprovisioner annotate
  disable_deprovisioner-Inv pv read pod s h = permits.update_volume _ pv read refl s h

  create_deprovisioner-Inv :
      (pv : PersistentVolume) (p : StorageProvisioner)
      → Keeping Inv
          (create_deprovisioner lib manager_namespace volumes pods event event_of_claim pv p)
  unfolding create_deprovisioner
  create_deprovisioner-Inv pv p s h =
      let (env, missing) = annotations_to_env pv.meta p.spec.env in
      let made =
        (new_provisioner_pod lib.sort_strings (pod_name lib manager_namespace pv) p
          p.spec.containers.deprovisioner env).0 in
      elim (Option-cases missing) [
        | inr (e, m) ↦ simp (m, create_deprovisioner) h
        | inl m ↦ elim (Result-cases made) [
          | inr (e, r) ↦ simp (m, r, create_deprovisioner) h
          | inl (pod, r) ↦
              simp (m, r, create_deprovisioner)
                (event-Inv pv event_normal "Deprovisioning" "Deprovisioning PersistentVolume" s h)
        ]
      ]

  deprovision_with-Inv :
      (pv : PersistentVolume) (p : StorageProvisioner)
      → WasRead volumes pv
      → Keeping Inv (deprovision_with lib manager_namespace volumes pods event event_of_claim pv p)
  unfolding deprovision_with
  deprovision_with-Inv pv p read s h =
      let req = deprovision_request lib manager_namespace volumes pods event event_of_claim pv p in
      let job = reconcile_job pods event owner_keys req s in
      let h1 =
        reconcile_job-Inv pods Inv permits.pods_keep event permits.event_keeps owner_keys req
          (create_deprovisioner-Inv pv p) (λ _. disable_deprovisioner-Inv pv read) s h in
      elim (Option-cases job.0.1) [
        | inl n ↦ simp (n, deprovision_with) h1
        | inr (e, n) ↦ elim (Bool-cases job.0.0) [
          | inl d ↦
              simp (n, d, deprovision_with)
                (event-Inv pv event_warning "DeprovisionerFailed" _ job.1 h1)
          | inr d ↦ simp (n, d, deprovision_with) h1
        ]
      ]

  deprovision_volume-Inv :
      (pv : PersistentVolume)
      → WasRead volumes pv
      → Keeping Inv (deprovision_volume lib manager_namespace volumes pods event event_of_claim pv)
  unfolding deprovision_volume
  deprovision_volume-Inv pv read s h =
      let text = annotation pv.meta ann_storage_provisioner_spec in
      elim (Bool-cases (text == "")) [
        | inl n ↦ simp (n, deprovision_volume) (event-Inv pv event_warning _ _ s h)
        | inr n ↦ elim (Result-cases (storage_provisioner_from_json lib text)) [
          | inr (e, r) ↦ simp (n, r, deprovision_volume) (event-Inv pv event_warning _ _ s h)
          | inl (p, r) ↦ simp (n, r, deprovision_volume) (deprovision_with-Inv pv p read s h)
        ]
      ]

  deprovision-Inv :
      (pv : PersistentVolume)
      → WasRead volumes pv
      → IsFree pv
      → Keeping Inv (
          deprovision lib manager_namespace provisioners volumes claims pods event event_of_claim
            pv)
  unfolding deprovision release_volume
  deprovision-Inv pv read free s h =
      let call = deprovision_volume lib manager_namespace volumes pods event event_of_claim pv s in
      let h1 = deprovision_volume-Inv pv read s h in
      elim (Option-cases call.0.1) [
        | inr (e, n) ↦ simp (n, deprovision) h1
        | inl n ↦ elim (Bool-cases call.0.0) [
          | inr d ↦ simp (n, d, deprovision) h1
          | inl d ↦
              let (disabled, gone) =
                deprovision_volume_done lib manager_namespace volumes pods event event_of_claim pv s
                  (λ i. (d i, n i)) in
              let h2 = permits.releases pv s read free disabled gone call.1 h1 in
              elim (Result-cases (volumes.update_status (released pv) call.1).0) [
                | inr (e, r) ↦ simp (n, d, r, deprovision, release_volume) h2
                | inl (stored, r) ↦
                    simp (n, d, r, deprovision, release_volume)
                      (event-Inv stored event_normal _ _
                        (volumes.update_status (released pv) call.1).1 h2)
              ]
        ]
      ]

  finalize-Inv :
      (pv : PersistentVolume)
      → WasRead volumes pv
      → Keeping Inv
          (finalize lib manager_namespace provisioners volumes claims pods event event_of_claim pv)
  unfolding finalize
  finalize-Inv pv read s h =
      let call = can_deprovision lib volumes claims provisioners pv s in
      let h1 =
        can_deprovision-Inv lib manager_namespace provisioners volumes claims pods event
          event_of_claim Inv permits pv read s h in
      elim (Option-cases call.0.0.1) [
        | inr (e, n) ↦ simp (n, finalize) h1
        | inl n ↦ elim (Bool-cases call.0.0.0) [
          | inr b ↦ simp (n, b, finalize) h1
          | inl b ↦
              let free =
                can_deprovision-IsFree lib volumes claims provisioners pv s (λ i. (b i, n i)) in
              let still =
                can_deprovision-WasRead lib manager_namespace provisioners volumes claims pods event
                  event_of_claim Inv permits pv s read (λ i. (b i, n i)) in
              simp (n, b, finalize) (deprovision-Inv call.0.1 still free call.1 h1)
        ]
      ]

  -- `Reconcile` keeps every `Inv` of the world that is kept by reads, by events, by the creation and the
  -- deletion of pods, by the updates of volumes that leave the finalizers as they were read, and by the
  -- release of a volume that was read, is not bound, refers to no claim, has the annotation that disables
  -- the deprovisioner, and whose pod the deletion reported to be gone.
  pub reconcile_volume-Inv :
      (name : NamespacedName) (s : S)
      → Inv s
      → Inv
          (reconcile lib manager_namespace provisioners volumes claims pods event event_of_claim
            name s).1
  unfolding reconcile
  reconcile_volume-Inv name s h =
      let s1 = (volumes.get name s).1 in
      let h1 = permits.get_volume name s h in
      elim (Result-cases (volumes.get name s).0) [
        | inr (e, r) ↦ simp (r, reconcile) h1
        | inl (pv, r) ↦ elim (Option-cases pv.meta.deletion_timestamp) [
          | inl n ↦ simp (r, n, reconcile) h1
          | inr (t, n) ↦ elim (Bool-cases (has_string pv.meta.finalizers finalizer)) [
            | inr b ↦ simp (r, n, b, reconcile) h1
            | inl b ↦ simp (r, n, b, reconcile) (finalize-Inv pv (name, s, r) s1 h1)
          ]
        ]
      ]
