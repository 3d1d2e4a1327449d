-- ===== src/Tests/Jobs.antt =====
-- Witnesses for jobs and for the controller of volumes.
use k8storagex.Base.{
  ◌≡◌, refl, ◌≢◌, String, Bool, true, false, Option, none, some, List, [], ◌∷◌, Result, ok, err,
  Error, arith, ◌==◌, string_eq, if◌then◌else◌,
}
use k8storagex.Api.Core.{Pod, PersistentVolume}
use k8storagex.Utils.Annotations.{annotation}
use k8storagex.Utils.Jobs.{
  OwnerKeys, Recorder, JobRequest, owned_pod, requests_of, delete_pod, reconcile_job,
}
use k8storagex.Utils.Jobs.Laws.{WasRead, IsCompleted, reconcile_job_done}
use k8storagex.Utils.Jobs.Owner.{requests_of-owned_pod}
use k8storagex.Controllers.Volume.{ann_pv_disable_deprovisioner}
use k8storagex.Controllers.Volume.Job.{pod_name, deprovision_volume}
use k8storagex.Controllers.Volume.Laws.{deprovision_volume_done}
use k8storagex.Tests.{apart, demo, demo_meta, annotated}
use k8storagex.Tests.Provisioners.{lib, holding, writable_pod}

abbrev owners : OwnerKeys
owners = record { owner_name = "pvc-name"; owner_namespace = "pvc-namespace" }

requests_of-owned_pod_example :
    requests_of "default" owners (owned_pod owners demo_meta writable_pod).meta ≡ demo ∷ []
unfolding string_eq
requests_of-owned_pod_example =
    requests_of-owned_pod "default" owners demo_meta writable_pod refl (apart "demo" "" refl)
      (apart "default" "" refl) (apart "pvc-namespace" "" refl)
      (apart "pvc-name" "pvc-namespace" refl)

abbrev pub silent : {A : Type 0} → Recorder Unit A
silent _ _ _ _ s = s

abbrev request : JobRequest Unit
request = record {
  name = "provisioner";
  title = "Provisioner";
  pod_name = demo;
  owner = demo_meta;
  should_run = true;
  create = λ s. (ok writable_pod, s);
  on_completed = λ pod s. ((true, none), s);
}

reconcile_job_done_example :
    (pod : Pod) × (u : Unit) × WasRead (holding (some writable_pod)) demo pod u
    × IsCompleted
        (holding (some writable_pod))
        silent
        owners
        request
        pod
        u
        (reconcile_job (holding (some writable_pod)) silent owners request tt).1
unfolding reconcile_job string_eq
reconcile_job_done_example =
    reconcile_job_done (holding (some writable_pod)) silent owners request tt refl refl

abbrev pub persistent_volume : PersistentVolume
persistent_volume = record {
  meta = annotated (
      ("k8storagex.mgoltzsche.github.com/provisioner-spec", "{}")
      ∷ ("k8storagex.mgoltzsche.github.com/pv-deprovisioner-disabled", "true")
      ∷ []);
  spec = record {
    capacity = none;
    volume_mode = none;
    storage_class_name = "";
    reclaim_policy = "Delete";
    claim_ref = none;
    host_path = none;
    node_affinity = none;
  };
  phase = "Released";
}

deprovision_volume_done_example :
    (annotation persistent_volume.meta ann_pv_disable_deprovisioner ≡ "true")
    × ((delete_pod (holding (some writable_pod)) (pod_name lib "default" persistent_volume) tt).0
        ≡ (true, none))
unfolding deprovision_volume string_eq annotation k8storagex.Base.Dict.value_at
    k8storagex.Base.Dict.lookup k8storagex.Utils.Provisioner.storage_provisioner_from_json
    reconcile_job
deprovision_volume_done_example =
    deprovision_volume_done lib "default" (holding (some persistent_volume))
      (holding (some writable_pod)) silent silent persistent_volume (tt {0}) refl
