-- ===== src/Controllers/Claim/Safety.antt =====
-- internal/controllers/persistentvolumeclaim_controller.go: what a run of `Reconcile` does only when it may.
use k8storagex.Base.{
  ℕ, length, nat_eq, ◌≡◌, ◌≢◌, String, true, none, some, ok, ◌==◌, ◌!=◌, string_eq, inl, inr,
  Bool-cases, Option-cases, Result-cases, arith,
}
use k8storagex.Api.Core.{Pod, PersistentVolume, PersistentVolumeClaim, StorageClass, reclaim_delete}
use k8storagex.Api.Provisioner.{StorageProvisioner, annotation_no_protection, enabled}
use k8storagex.Api.Meta.{NamespacedName, ObjectMeta}
use k8storagex.Cluster.{Client}
use k8storagex.Library.{Library}
use k8storagex.Registry.{Registry}
use k8storagex.Utils.Annotations.{annotation}
use k8storagex.Utils.Strings.{has_string, add_string}
use k8storagex.Utils.Jobs.{Recorder, delete_pod}
use k8storagex.Utils.Jobs.Keeps.{Keeping, delete_pod-Inv}
use k8storagex.Controllers.Volume.{finalizer, resolve_provisioner}
use k8storagex.Controllers.Claim.{finalizer_pvc_protection, provisioner_pod_name}
use k8storagex.Controllers.Claim.Guard.{should_provision}
use k8storagex.Controllers.Claim.Provision.{provision}
use k8storagex.Controllers.Claim.Reconcile.{
  deprovision_claim, clean_up, finalize_claim, guard_and_provision, provision_claim, reconcile,
}
use k8storagex.Controllers.Claim.Laws.{IsDue, class_of, should_provision-eq-true}
use k8storagex.Controllers.Claim.Permits.{volume_name_of, WasGiven, IsLast, Permits}
use k8storagex.Controllers.Claim.Runs.{provision-Inv, should_provision-Inv}

module _ {S : Type 0} (lib : Library) (manager_namespace : String) (provisioners : Registry)
    (claims : Client S PersistentVolumeClaim) (volumes : Client S PersistentVolume)
    (classes : Client S StorageClass) (pods : Client S Pod) (event : Recorder S ObjectMeta)
    (Inv : S → Type 0)
    (permits : Permits lib manager_namespace claims volumes classes pods event Inv) where
  provision_keeps :
      (claim : PersistentVolumeClaim) (p : StorageProvisioner)
      → WasGiven claims claim
      → claim.meta.deletion_timestamp ≡ none
      → has_string claim.meta.finalizers finalizer ≡ true
      → (t : S) → IsDue claim p (class_of classes event claim t)
      → Keeping Inv (provision lib manager_namespace volumes pods event claim p)
  provision_keeps =
      provision-Inv lib manager_namespace provisioners claims volumes classes pods event Inv permits

  guard_and_provision-Inv :
      (claim : PersistentVolumeClaim) (p : StorageProvisioner)
      → WasGiven claims claim
      → claim.meta.deletion_timestamp ≡ none
      → (t : S) → IsDue claim p (class_of classes event claim t)
      → Keeping Inv (
          guard_and_provision lib manager_namespace provisioners claims volumes classes pods event
            claim p)
  unfolding guard_and_provision add_string
  guard_and_provision-Inv claim p given living t due s h =
      elim (Bool-cases (has_string claim.meta.finalizers finalizer)) [
        | inl b ↦
            simp (b, guard_and_provision, add_string)
              (provision_keeps claim p given living b t due s h)
        | inr b ↦
            let h1 = permits.guards claim given living s h in
            simp (b, guard_and_provision, add_string) (simp (b, add_string) at h1)
      ]

  provision_claim-Inv :
      (claim : PersistentVolumeClaim)
      → WasGiven claims claim
      → claim.meta.deletion_timestamp ≡ none
      → Keeping Inv (
          provision_claim lib manager_namespace provisioners claims volumes classes pods event
            claim)
  unfolding provision_claim
  provision_claim-Inv claim given living s h =
      elim (Option-cases (resolve_provisioner claim.meta provisioners)) [
        | inl q ↦ simp (q, provision_claim) h
        | inr (p, q) ↦
            let call = should_provision classes event claim p s in
            let h1 =
              should_provision-Inv lib manager_namespace provisioners claims volumes classes pods
                event Inv permits claim p s h in
            elim (Option-cases call.0.1) [
              | inr (e, n) ↦ simp (q, n, provision_claim) h1
              | inl n ↦ elim (Bool-cases call.0.0) [
                | inr b ↦ simp (q, n, b, provision_claim) h1
                | inl b ↦
                    let due =
                      (should_provision-eq-true classes event claim p s).0 (λ i. (b i, n i)) in
                    simp (q, n, b, provision_claim)
                      (guard_and_provision-Inv claim p given living s due call.1 h1)
              ]
            ]
      ]

  deprovision_claim-Inv :
      (claim : PersistentVolumeClaim) (t : S)
      → IsLast claims claim
      → (delete_pod pods (provisioner_pod_name lib manager_namespace claim) t).0 ≡ (true, none)
      → Keeping Inv (deprovision_claim volumes claim)
  unfolding deprovision_claim
  deprovision_claim-Inv claim t last gone s h =
      let s1 = (volumes.get (volume_name_of claim) s).1 in
      let h1 = permits.get_volume (volume_name_of claim) s h in
      elim (Result-cases (volumes.get (volume_name_of claim) s).0) [
        | inr (e, r) ↦ simp (r, deprovision_claim) h1
        | inl (pv, r) ↦ elim (Bool-cases (pv.spec.reclaim_policy != reclaim_delete)) [
          | inl b ↦ simp (r, b, deprovision_claim) h1
          | inr b ↦
              let h2 = permits.deletes claim pv t s last gone r (ground (arith, b)) s1 h1 in
              elim (Option-cases (volumes.delete pv s1).0) [
                | inl d ↦ simp (r, b, d, deprovision_claim) h2
                | inr (e, d) ↦ simp (r, b, d, deprovision_claim) h2
              ]
        ]
      ]

  clean_up-Inv :
      (claim : PersistentVolumeClaim)
      → IsLast claims claim
      → Keeping Inv (clean_up lib manager_namespace claims volumes pods claim)
  unfolding clean_up
  clean_up-Inv claim last s h =
      let name = provisioner_pod_name lib manager_namespace claim in
      let call = delete_pod pods name s in
      let h1 = delete_pod-Inv pods Inv permits.pods_keep name s h in
      let let_go = deprovision_claim volumes claim call.1 in
      elim (Option-cases call.0.1) [
        | inr (e, n) ↦ simp (n, clean_up) h1
        | inl n ↦ elim (Bool-cases call.0.0) [
          | inr g ↦ simp (n, g, clean_up) h1
          | inl g ↦
              let gone : call.0 ≡ (true, none) = λ i. (g i, n i) in
              let h2 = deprovision_claim-Inv claim s last gone call.1 h1 in
              elim (Option-cases let_go.0.1) [
                | inr (e, m) ↦ simp (n, g, m, clean_up) h2
                | inl m ↦ elim (Bool-cases let_go.0.0) [
                  | inr d ↦ simp (n, g, m, d, clean_up) h2
                  | inl d ↦
                      simp (n, g, m, d, clean_up)
                        (permits.frees claim s call.1 last gone (λ i. (d i, m i)) let_go.1 h2)
                ]
              ]
        ]
      ]

  finalize_claim-Inv :
      (claim : PersistentVolumeClaim)
      → WasGiven claims claim
      → claim.meta.deletion_timestamp ≢ none
      → Keeping Inv (finalize_claim lib manager_namespace claims volumes pods claim)
  unfolding finalize_claim
  finalize_claim-Inv claim given deleted s h =
      elim (Bool-cases (has_string claim.meta.finalizers finalizer_pvc_protection)) [
        | inl b ↦ elim (Bool-cases (annotation claim.meta annotation_no_protection == enabled)) [
          | inr c ↦ simp (b, c, finalize_claim) h
          | inl c ↦
              simp (b, c, finalize_claim)
                (permits.unprotects claim given deleted (ground (arith, c)) s h)
        ]
        | inr b ↦ elim (Bool-cases (has_string claim.meta.finalizers finalizer)) [
          | inr f ↦ simp (b, f, finalize_claim) h
          | inl f ↦ elim (Bool-cases (length claim.meta.finalizers != 1)) [
            | inl l ↦ simp (b, f, l, finalize_claim) h
            | inr l ↦
                let last : IsLast claims claim = record {
                  given = given;
                  deleted = deleted;
                  final = f;
                  only = ground (arith, l);
                } in
                simp (b, f, l, finalize_claim) (clean_up-Inv claim last s h)
          ]
        ]
      ]

  reconcile_deleted :
      (name : NamespacedName) (s : S) (claim : PersistentVolumeClaim) (t : ℕ)
      → (claims.get name s).0 ≡ ok claim
      → claim.meta.deletion_timestamp ≡ some t
      → reconcile lib manager_namespace provisioners claims volumes classes pods event name s
        ≡ finalize_claim lib manager_namespace claims volumes pods claim (claims.get name s).1
  unfolding reconcile
  reconcile_deleted name s claim t r n = simp (r, n, reconcile)

  -- `Reconcile` of the claims keeps every `Inv` of the world that is kept by reads, by events, by the
  -- creation and the deletion of pods, and by five writes, each only when it may come: a claim that is not
  -- deleted gets the finalizer; a claim that has it, was due and has its node gets the volume that the
  -- annotation of a pod describes, if no volume was found before; a deleted claim with the annotation against protection loses the protection; the volume of
  -- a deleted claim with no finalizer but the controller's is deleted if its reclaim policy is `Delete` and
  -- the pod was reported gone; and such a claim loses the finalizer after the pod was reported gone and the
  -- volume was let go.
  pub reconcile_claim-Inv :
      (name : NamespacedName) (s : S)
      → Inv s
      → Inv
          (reconcile lib manager_namespace provisioners claims volumes classes pods event name s).1
  unfolding reconcile
  reconcile_claim-Inv name s h =
      let s1 = (claims.get name s).1 in
      let h1 = permits.get_claim name s h in
      elim (Result-cases (claims.get name s).0) [
        | inr (e, r) ↦ simp (r, reconcile) h1
        | inl (claim, r) ↦ elim (Option-cases claim.meta.deletion_timestamp) [
          | inl n ↦ simp (r, n, reconcile) (provision_claim-Inv claim (name, s, r) n s1 h1)
          | inr (t, n) ↦
              let h2 =
                finalize_claim-Inv claim (name, s, r) (λ living. ground (arith, n, living)) s1 h1 in
              rw (reconcile_deleted name s claim t r n) h2
        ]
      ]
