-- ===== src/Controllers/Volume/Job.antt =====
-- internal/controllers/persistentvolume_controller.go: the job that frees a volume's storage.
use k8storagex.Base.{
  String, ◌<>◌, Bool, false, Option, none, some, Result, ok, err, Error, Io, ◌==◌, ◌!=◌, string_eq,
  if◌then◌else◌,
}
use k8storagex.Api.Meta.{NamespacedName, ObjectMeta}
use k8storagex.Api.Core.{Pod, PersistentVolume, ObjectReference}
use k8storagex.Api.Provisioner.{StorageProvisioner}
use k8storagex.Cluster.{Client, error_of}
use k8storagex.Library.{Library}
use k8storagex.Utils.Annotations.{annotation, annotations_to_env}
use k8storagex.Utils.Jobs.{
  Recorder, JobRequest, annotate, wrapped, event_normal, event_warning, reconcile_job,
}
use k8storagex.Utils.PodTemplate.{new_provisioner_pod}
use k8storagex.Utils.Provisioner.{storage_provisioner_from_json}
use k8storagex.Controllers.Volume.{
  deprovisioner, owner_keys, ann_storage_provisioner_spec, ann_pv_disable_deprovisioner, job_name,
  volume_event,
}

unfoldable pub needs_deprovisioning : PersistentVolume → Bool
needs_deprovisioning pv = elim (pv.meta.annotations) [
  | none ↦ false
  | some _ ↦ annotation pv.meta ann_pv_disable_deprovisioner != "true"
]

module _ (lib : Library) (manager_namespace : String) where
  abbrev pub pod_name : PersistentVolume → NamespacedName
  pod_name pv = record {
    name = job_name lib pv.meta.name deprovisioner;
    namespace = manager_namespace;
  }

module _ {S : Type 0} (volumes : Client S PersistentVolume) where
  -- `OnCompleted` of the job's request
  unfoldable pub disable_deprovisioner : PersistentVolume → Pod → Io S (Bool × Option Error)
  disable_deprovisioner pv _ s =
      let (updated, s') =
        volumes.update (record pv { meta = annotate ann_pv_disable_deprovisioner "true" pv.meta })
          s in
      ((false, error_of updated), s')

module _ {S : Type 0} (lib : Library) (manager_namespace : String)
    (volumes : Client S PersistentVolume) (pods : Client S Pod) (event : Recorder S ObjectMeta)
    (event_of_claim : Recorder S ObjectReference) where
  -- `Create` of the job's request
  unfoldable pub create_deprovisioner : PersistentVolume → StorageProvisioner → Io S (Result Pod)
  unfolding volume_event
  create_deprovisioner pv p s =
      let (env, missing) = annotations_to_env pv.meta p.spec.env in
      elim missing [
        | some e ↦ (err (wrapped "persistentvolume does not specify annotation" e), s)
        | none ↦
            let (made, _) =
              new_provisioner_pod lib.sort_strings (pod_name lib manager_namespace pv) p
                p.spec.containers.deprovisioner env in
            elim made [
              | err e ↦ (err e, s)
              | ok pod ↦ (
                ok pod,
                volume_event lib event event_of_claim pv event_normal "Deprovisioning"
                    "Deprovisioning PersistentVolume" s,
              )
            ]
      ]

  abbrev pub deprovision_request : PersistentVolume → StorageProvisioner → JobRequest S
  deprovision_request pv p = record {
    name = deprovisioner;
    title = "Deprovisioner";
    pod_name = pod_name lib manager_namespace pv;
    owner = pv.meta;
    should_run = needs_deprovisioning pv;
    create = create_deprovisioner pv p;
    on_completed = disable_deprovisioner volumes pv;
  }

  unfoldable pub deprovision_with :
      PersistentVolume → StorageProvisioner → Io S (Bool × Option Error)
  unfolding create_deprovisioner disable_deprovisioner needs_deprovisioning
  deprovision_with pv p s =
      let ((done, e), s') = reconcile_job pods event owner_keys (deprovision_request pv p) s in
      elim e [
        | none ↦ ((done, none), s')
        | some x ↦ (
          (done, some x),
          if done
              then volume_event lib event event_of_claim pv event_warning "DeprovisionerFailed"
                  ("Failed to deprovision PersistentVolume: " <> x.message) s'
              else s',
        )
      ]

  unfoldable pub deprovision_volume : PersistentVolume → Io S (Bool × Option Error)
  unfolding deprovision_with
  deprovision_volume pv s =
      let warn : String → String → S =
        λ reason message. volume_event lib event event_of_claim pv event_warning reason message s in
      if annotation pv.meta ann_storage_provisioner_spec == ""
      then (
        (false, none),
        warn "DeprovisionerSpecAnnotationMissing"
            ("missing annotation " <> ann_storage_provisioner_spec),
      )
      else elim (storage_provisioner_from_json lib
          (annotation pv.meta ann_storage_provisioner_spec)) [
            | err e ↦ (
              (false, none),
              warn "DeprovisionerSpecAnnotationInvalid" (
                  "invalid deprovisioner annotation " <> ann_storage_provisioner_spec
                  <> " on PersistentVolume: " <> e.message),
            )
            | ok p ↦ deprovision_with pv p s
          ]
