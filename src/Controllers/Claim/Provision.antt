-- ===== src/Controllers/Claim/Provision.antt =====
-- internal/controllers/persistentvolumeclaim_controller.go: `provision`, which runs a provisioner's pod and
-- creates the volume when it has succeeded.
use k8storagex.Base.{
  String, ◌<>◌, Bool, true, false, Option, none, some, List, Result, ok, err, Error, is_not_found,
  Io, ◌!=◌, string_eq, if◌then◌else◌,
}
use k8storagex.Api.Core
use k8storagex.Api.Core.{Pod, PersistentVolume, PersistentVolumeClaim}
use k8storagex.Api.Provisioner.{StorageProvisioner}
use k8storagex.Api.Meta.{ObjectMeta}
use k8storagex.Cluster.{Client}
use k8storagex.Library.{Library}
use k8storagex.Utils.Annotations.{annotation, annotations_to_env, copy_annotations}
use k8storagex.Utils.Jobs.{
  Recorder, JobRequest, annotate, wrapped, event_normal, event_warning, reconcile_job,
}
use k8storagex.Utils.PodTemplate.{new_provisioner_pod}
use k8storagex.Utils.Provisioner.{
  storage_provisioner_from_json, storage_provisioner_to_json, substitute_placeholders,
  storage_root_path_for_node,
}
use k8storagex.Controllers.Volume.{ann_storage_provisioner_spec}
use k8storagex.Controllers.Claim.{
  provisioner, ann_selected_node, claim_owner_keys, nil_dereference, pv_name_for_pvc,
  persistent_volume_for_claim, provisioner_pod_name,
}

module _ (lib : Library) (manager_namespace : String) where
  -- The pod that `Create` of the job's request makes. The error of the encoding is dropped.
  unfoldable pub provisioner_pod :
      PersistentVolumeClaim → StorageProvisioner → List Core.EnvVar → Result Pod
  unfolding pv_name_for_pvc annotate
  provisioner_pod claim p env =
      let node = annotation claim.meta ann_selected_node in
      elim (storage_root_path_for_node lib node p.spec.nodes) [
        | err e ↦ err (wrapped "invalid storageprovisioner" e)
        | ok path ↦
            let (p', e) = substitute_placeholders lib p (record {
              node_name = node;
              node_path = path;
              persistent_volume_name = pv_name_for_pvc claim;
              persistent_volume_claim = record {
                name = claim.meta.name;
                namespace = claim.meta.namespace;
              };
            }) in
            let (made, p'') =
              new_provisioner_pod lib.sort_strings
                (provisioner_pod_name lib manager_namespace claim) p' p'.spec.containers.provisioner
                env in
            let json : String = elim (storage_provisioner_to_json lib p'') [
              | err _ ↦ ""
              | ok text ↦ text
            ] in
            elim e [
              | some x ↦ err x
              | none ↦ elim made [
                | err x ↦ err x
                | ok pod ↦ ok (record pod {
                  meta =
                      annotate ann_storage_provisioner_spec json
                        (copy_annotations claim.meta pod.meta p''.spec.env);
                })
              ]
            ]
      ]

module _ {S : Type 0} (lib : Library) (manager_namespace : String)
    (volumes : Client S PersistentVolume) (pods : Client S Pod)
    (event : Recorder S ObjectMeta) where
  unfoldable pub create_provisioner :
      PersistentVolumeClaim → StorageProvisioner → List Core.EnvVar → Io S (Result Pod)
  unfolding provisioner_pod
  create_provisioner claim p env s = elim (provisioner_pod lib manager_namespace claim p env) [
    | err e ↦ (err e, s)
    | ok pod ↦
        (ok pod, event claim.meta event_normal "Provisioning" "Provisioning PersistentVolume" s)
  ]

  -- `OnCompleted` of the job's request: the volume comes from the provisioner that the pod carries.
  unfoldable pub create_volume : PersistentVolumeClaim → Pod → Io S (Bool × Option Error)
  unfolding persistent_volume_for_claim
  create_volume claim pod s =
      let json = annotation pod.meta ann_storage_provisioner_spec in
      elim (storage_provisioner_from_json lib json) [
        | err e ↦ (
          (
            true,
            some (
                wrapped
                  ("invalid/missing provisioner pod annotation " <> ann_storage_provisioner_spec)
                  e),
          ),
          s,
        )
        | ok p ↦
            let pv = persistent_volume_for_claim claim p json in
            let (created, s') =
              volumes.create (record pv { meta = copy_annotations pod.meta pv.meta p.spec.env })
                s in
            elim created [
              | err e ↦ ((false, some e), s')
              | ok stored ↦ (
                (true, none),
                event claim.meta event_normal "Provisioned"
                    ("Provisioned PersistentVolume " <> pv_name_for_pvc claim) s',
              )
            ]
      ]

  abbrev pub provision_request :
      PersistentVolumeClaim → StorageProvisioner → List Core.EnvVar → Bool → JobRequest S
  provision_request claim p env should = record {
    name = provisioner;
    title = "Provisioner";
    pod_name = provisioner_pod_name lib manager_namespace claim;
    owner = claim.meta;
    should_run = should;
    create = create_provisioner claim p env;
    on_completed = create_volume claim;
  }

  -- From the call of `ReconcileJob` on.
  unfoldable pub run_provisioner :
      PersistentVolumeClaim
      → StorageProvisioner
      → List Core.EnvVar
      → Bool
      → Io S (Bool × Option Error)
  unfolding create_provisioner create_volume
  run_provisioner claim p env should s =
      let ((done, e), s') =
        reconcile_job pods event claim_owner_keys (provision_request claim p env should) s in
      elim e [
        | none ↦ ((done, none), s')
        | some x ↦ (
          (done, some x),
          if done
              then event claim.meta event_warning "ProvisionerFailed"
                  ("Failed to provision PersistentVolume "
                    <> pv_name_for_pvc claim
                    <> ": "
                    <> x.message)
                  s'
              else s',
        )
      ]

  abbrev pub has_node : PersistentVolumeClaim → Bool
  has_node claim = annotation claim.meta ann_selected_node != ""

  -- The event for a missing annotation has the message of `err`, the error of reading the volume, which is
  -- nil if the volume exists.
  unfoldable pub provision : PersistentVolumeClaim → StorageProvisioner → Io S (Bool × Option Error)
  unfolding run_provisioner
  provision claim p s =
      let (found, s') = volumes.get (record { name = pv_name_for_pvc claim; namespace = "" }) s in
      let (env, missing) = annotations_to_env claim.meta p.spec.env in
      elim found [
        | ok _ ↦ elim missing [
          | some _ ↦ ((false, some nil_dereference), s')
          | none ↦ run_provisioner claim p env false s'
        ]
        | err e ↦
            if is_not_found e
            then elim missing [
              | some _ ↦
                  run_provisioner claim p env false
                    (event claim.meta event_warning "AnnotationMissing" e.message s')
              | none ↦ run_provisioner claim p env (has_node claim) s'
            ]
            else ((false, some e), s')
      ]
