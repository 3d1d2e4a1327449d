-- ===== src/Controllers/Claim/Runs.antt =====
-- internal/controllers/persistentvolumeclaim_controller.go: what the runs of `Reconcile` keep.
use k8storagex.Base.{
  nat_eq, ◌≡◌, String, Bool, true, false, none, List, is_not_found, ◌!=◌, string_eq, inl, inr,
  Bool-cases, Option-cases, Result-cases, arith,
}
use k8storagex.Api.Core
use k8storagex.Api.Core.{Pod, PersistentVolume, PersistentVolumeClaim, StorageClass, reclaim_delete}
use k8storagex.Api.Provisioner.{StorageProvisioner}
use k8storagex.Api.Meta.{NamespacedName, ObjectMeta}
use k8storagex.Cluster.{Client}
use k8storagex.Library.{Library}
use k8storagex.Registry.{Registry}
use k8storagex.Utils.Annotations.{annotation, annotations_to_env}
use k8storagex.Utils.Strings.{has_string}
use k8storagex.Utils.Jobs.{Recorder, event_normal, event_warning, reconcile_job}
use k8storagex.Utils.Jobs.Keeps.{Keeping, reconcile_job-Inv}
use k8storagex.Utils.Provisioner.{storage_provisioner_from_json}
use k8storagex.Controllers.Volume.{ann_storage_provisioner_spec, finalizer}
use k8storagex.Controllers.Claim.{claim_owner_keys, persistent_volume_claim_class}
use k8storagex.Controllers.Claim.Guard.{should_provision, check_class, same_mode}
use k8storagex.Controllers.Claim.Provision.{
  provisioner_pod, create_provisioner, create_volume, provision_request, run_provisioner, provision,
  has_node,
}
use k8storagex.Controllers.Claim.Laws.{IsDue, class_of}
use k8storagex.Controllers.Claim.Permits.{volume_name_of, volume_from, WasGiven, IsVacant, Permits}

module _ {S : Type 0} (lib : Library) (manager_namespace : String) (provisioners : Registry)
    (claims : Client S PersistentVolumeClaim) (volumes : Client S PersistentVolume)
    (classes : Client S StorageClass) (pods : Client S Pod) (event : Recorder S ObjectMeta)
    (Inv : S → Type 0)
    (permits : Permits lib manager_namespace claims volumes classes pods event Inv) where
  create_provisioner-Inv :
      (claim : PersistentVolumeClaim) (p : StorageProvisioner) (env : List Core.EnvVar)
      → Keeping Inv (create_provisioner lib manager_namespace volumes pods event claim p env)
  unfolding create_provisioner
  create_provisioner-Inv claim p env s h =
      elim (Result-cases (provisioner_pod lib manager_namespace claim p env)) [
        | inr (e, r) ↦ simp (r, create_provisioner) h
        | inl (pod, r) ↦
            simp (r, create_provisioner) (permits.event_keeps claim.meta event_normal _ _ s h)
      ]

  create_volume-Inv :
      (claim : PersistentVolumeClaim)
      → IsVacant claims volumes classes event claim
      → (pod : Pod) → Keeping Inv (create_volume lib manager_namespace volumes pods event claim pod)
  unfolding create_volume
  create_volume-Inv claim vacant pod s h =
      let json = annotation pod.meta ann_storage_provisioner_spec in
      elim (Result-cases (storage_provisioner_from_json lib json)) [
        | inr (e, r) ↦ simp (r, create_volume) h
        | inl (p, r) ↦
            let s1 = (volumes.create (volume_from claim pod p) s).1 in
            let h1 = permits.creates claim pod p vacant r s h in
            elim (Result-cases (volumes.create (volume_from claim pod p) s).0) [
              | inr (e, q) ↦ simp (r, q, create_volume) h1
              | inl (stored, q) ↦
                  simp (r, q, create_volume) (permits.event_keeps claim.meta event_normal _ _ s1 h1)
            ]
      ]

  run_provisioner-Inv :
      (claim : PersistentVolumeClaim) (p : StorageProvisioner) (env : List Core.EnvVar)
      (should : Bool)
      → (should ≡ true → IsVacant claims volumes classes event claim)
      → Keeping Inv (run_provisioner lib manager_namespace volumes pods event claim p env should)
  unfolding run_provisioner
  run_provisioner-Inv claim p env should vacant s h =
      let req = provision_request lib manager_namespace volumes pods event claim p env should in
      let job = reconcile_job pods event claim_owner_keys req s in
      let h1 =
        reconcile_job-Inv pods Inv permits.pods_keep event permits.event_keeps claim_owner_keys req
          (create_provisioner-Inv claim p env) (λ run. create_volume-Inv claim (vacant run)) s h in
      elim (Option-cases job.0.1) [
        | inl n ↦ simp (n, run_provisioner) h1
        | inr (e, n) ↦ elim (Bool-cases job.0.0) [
          | inl d ↦
              simp (n, d, run_provisioner)
                (permits.event_keeps claim.meta event_warning _ _ job.1 h1)
          | inr d ↦ simp (n, d, run_provisioner) h1
        ]
      ]

  pub provision-Inv :
      (claim : PersistentVolumeClaim) (p : StorageProvisioner)
      → WasGiven claims claim
      → claim.meta.deletion_timestamp ≡ none
      → has_string claim.meta.finalizers finalizer ≡ true
      → (t : S) → IsDue claim p (class_of classes event claim t)
      → Keeping Inv (provision lib manager_namespace volumes pods event claim p)
  unfolding provision
  provision-Inv claim p given living final t due s h =
      let s1 = (volumes.get (volume_name_of claim) s).1 in
      let h1 = permits.get_volume (volume_name_of claim) s h in
      let (env, missing) = annotations_to_env claim.meta p.spec.env in
      elim (Result-cases (volumes.get (volume_name_of claim) s).0) [
        | inl (pv, r) ↦ elim (Option-cases missing) [
          | inr (x, m) ↦ simp (r, m, provision) h1
          | inl m ↦
              simp (r, m, provision)
                (run_provisioner-Inv claim p env false (λ run. absurd (ground (arith, run))) s1 h1)
        ]
        | inr (e, r) ↦ elim (Bool-cases (is_not_found e)) [
          | inr b ↦ simp (r, b, provision) h1
          | inl b ↦ elim (Option-cases missing) [
            | inr (x, m) ↦
                simp (r, b, m, provision)
                  (run_provisioner-Inv claim p env false (λ run. absurd (ground (arith, run))) _
                    (permits.event_keeps claim.meta event_warning _ _ s1 h1))
            | inl m ↦
                simp (r, b, m, provision)
                  (run_provisioner-Inv claim p env
                    (has_node lib manager_namespace volumes pods event claim)
                    (λ run. record {
                      given = given;
                      living = living;
                      final = final;
                      provisioner = p;
                      due = (t, due);
                      vacant = (s, e, r, b);
                      placed = λ none_chosen. absurd (ground (arith, run, none_chosen));
                    })
                    s1 h1)
          ]
        ]
      ]

  check_class-Inv :
      (claim : PersistentVolumeClaim) (p : StorageProvisioner) (class : StorageClass)
      → Keeping Inv (check_class classes event claim p class)
  unfolding check_class
  check_class-Inv claim p class s h =
      elim (Option-cases p.spec.persistent_volume_template.volume_mode) [
        | inl m ↦ simp (m, check_class) h
        | inr (mode, m) ↦ elim (Bool-cases (same_mode mode claim)) [
          | inl b ↦ simp (m, b, check_class) h
          | inr b ↦ simp (m, b, check_class) (permits.event_keeps claim.meta event_warning _ _ s h)
        ]
      ]

  pub should_provision-Inv :
      (claim : PersistentVolumeClaim) (p : StorageProvisioner)
      → Keeping Inv (should_provision classes event claim p)
  unfolding should_provision
  should_provision-Inv claim p s h =
      let name : NamespacedName = record {
        name = persistent_volume_claim_class claim;
        namespace = "";
      } in
      let s1 = (classes.get name s).1 in
      let h1 = permits.get_class name s h in
      elim (Option-cases claim.spec.storage_class_name) [
        | inl c ↦ simp (c, should_provision) h
        | inr (x, c) ↦ elim (Bool-cases (claim.spec.volume_name != "")) [
          | inl v ↦ simp (c, v, should_provision) h
          | inr v ↦ elim (Result-cases (classes.get name s).0) [
            | inl (class, r) ↦
                simp (c, v, r, should_provision) (check_class-Inv claim p class s1 h1)
            | inr (e, r) ↦ elim (Bool-cases (is_not_found e)) [
              | inl b ↦
                  simp (c, v, r, b, should_provision)
                    (permits.event_keeps claim.meta event_warning _ _ s1 h1)
              | inr b ↦ simp (c, v, r, b, should_provision) h1
            ]
          ]
        ]
      ]
