-- ===== src/Controllers/Volume/Laws.antt =====
-- When a volume is deprovisioned and released.
use k8storagex.Base.{
  ◌≡◌, refl, sym, ap, ◌∙◌, ◌≢◌, ◌⊎◌, String, Bool, true, false, Option, none, Error, arith,
  Result-cases, Bool-cases, Option-cases, inl, inr, ◌==◌, string_eq,
}
use k8storagex.Api.Meta.{ObjectMeta}
use k8storagex.Api.Core.{
  Pod, PersistentVolume, PersistentVolumeClaim, ObjectReference, volume_bound,
}
use k8storagex.Api.Provisioner.{StorageProvisioner}
use k8storagex.Cluster.{Client}
use k8storagex.Library.{Library}
use k8storagex.Registry.{Registry}
use k8storagex.Utils.Annotations.{annotation}
use k8storagex.Utils.Jobs.{Recorder, delete_pod, reconcile_job}
use k8storagex.Utils.Jobs.Laws.{reconcile_job_done, reconcile_job_skipped}
use k8storagex.Controllers.Volume.{
  owner_keys, set_claim_ref_annotation, ann_storage_provisioner_spec, ann_pv_disable_deprovisioner,
}
use k8storagex.Utils.Provisioner.{storage_provisioner_from_json}
use k8storagex.Controllers.Volume.Claims.{
  Round, answer, stop, again, remove_claim_ref, claim_name_of, name_of, deprovision_round,
  last_round, can_deprovision,
}
use k8storagex.Controllers.Volume.Job.{
  pod_name, disable_deprovisioner, needs_deprovisioning, deprovision_request, deprovision_with,
  deprovision_volume,
}

-- The volume is free: it is not bound and refers to no claim.
abbrev pub IsFree : PersistentVolume → Type 0
IsFree pv = (pv.phase ≢ volume_bound) × (pv.spec.claim_ref ≡ none)

pub Round-cases :
    (r : Round)
    → ((b : Bool) × (pv : PersistentVolume) × (r ≡ answer b pv))
      ⊎ (((e : Option Error) × (pv : PersistentVolume) × (r ≡ stop e pv))
          ⊎ ((e : Error) × (pv : PersistentVolume) × (r ≡ again e pv)))
Round-cases (answer b pv) = inl (b, pv, refl)
Round-cases (stop e pv) = inr (inl (e, pv, refl))
Round-cases (again e pv) = inr (inr (e, pv, refl))

pub last_round-true :
    (r : Round) → (last_round r).0 ≡ (true, none) → r ≡ answer true (last_round r).1
unfolding last_round
last_round-true (answer b pv) h = ground (arith, h)
last_round-true (stop e pv) h = ground (arith, h)
last_round-true (again e pv) h = ground (arith, h)

module _ {S : Type 0} (lib : Library) (volumes : Client S PersistentVolume)
    (claims : Client S PersistentVolumeClaim) (provisioners : Registry) where
  pub remove_claim_ref_unanswered :
      (pv : PersistentVolume) (claim : ObjectReference) (s : S) (q : PersistentVolume)
      → (remove_claim_ref lib volumes claims provisioners pv claim s).0 ≢ answer true q
  unfolding remove_claim_ref
  remove_claim_ref_unanswered pv claim s q =
      let marked = set_claim_ref_annotation lib pv claim in
      let bare : PersistentVolume = record marked {
        spec = record (marked.spec) { claim_ref = none };
      } in
      elim (Result-cases (volumes.update bare s).0) [
        | inl (stored, e) ↦ ground (arith, e)
        | inr (x, e) ↦
            elim (Result-cases (volumes.get (name_of bare.meta) (volumes.update bare s).1).0) [
              | inl (y, f) ↦ ground (arith, e, f)
              | inr (y, f) ↦ ground (arith, e, f)
            ]
      ]

  deprovision_round-IsFree :
      (pv : PersistentVolume) (s : S) (q : PersistentVolume)
      → (deprovision_round lib volumes claims provisioners pv s).0 ≡ answer true q
      → IsFree q
  unfolding deprovision_round
  deprovision_round-IsFree pv s q h = elim (Option-cases pv.spec.claim_ref) [
    | inl e ↦ (λ bound. ground (arith, e, h, bound), ground (arith, e, h))
    | inr (claim, e) ↦ elim (Result-cases (claims.get (claim_name_of claim) s).0) [
      | inl (x, f) ↦ ground (arith, e, f, h)
      | inr (x, f) ↦ ground (
        arith,
        e,
        f,
        h,
        remove_claim_ref_unanswered pv claim (claims.get (claim_name_of claim) s).1 q,
      )
    ]
  ]

  -- `canDeprovision` answers true without an error only for a volume that, as the call leaves it, is not
  -- bound and refers to no claim.
  pub can_deprovision-IsFree :
      (pv : PersistentVolume) (s : S)
      → (can_deprovision lib volumes claims provisioners pv s).0.0 ≡ (true, none)
      → IsFree (can_deprovision lib volumes claims provisioners pv s).0.1
  unfolding can_deprovision
  can_deprovision-IsFree pv s h =
      elim (Round-cases (deprovision_round lib volumes claims provisioners pv s).0) [
        | inl (b, q, e) ↦
            rw (e, can_deprovision) (deprovision_round-IsFree pv s q (ground (arith, e, h)))
        | inr (inl (x, q, e)) ↦ ground (arith, e, h)
        | inr (inr (x, q, e)) ↦
            rw (e, can_deprovision)
              (deprovision_round-IsFree q (deprovision_round lib volumes claims provisioners pv s).1
                _ (last_round-true _ (ground (arith, e, h))))
      ]

annotation-none :
    (meta : ObjectMeta) (key : String) → meta.annotations ≡ none → annotation meta key ≡ ""
unfolding annotation
annotation-none meta key e = ground (arith, e)

not_needed :
    (pv : PersistentVolume)
    → (annotation pv.meta ann_storage_provisioner_spec == "") ≡ false
    → needs_deprovisioning pv ≡ false
    → annotation pv.meta ann_pv_disable_deprovisioner ≡ "true"
unfolding needs_deprovisioning
not_needed pv e g = elim (Option-cases pv.meta.annotations) [
  | inl f ↦ ground (arith, e, f, annotation-none pv.meta ann_storage_provisioner_spec f)
  | inr (a, f) ↦ ground (arith, f, g)
]

module _ {S : Type 0} (lib : Library) (manager_namespace : String)
    (volumes : Client S PersistentVolume) (pods : Client S Pod) (event : Recorder S ObjectMeta)
    (event_of_claim : Recorder S ObjectReference) where
  deprovision_with_outcome :
      (pv : PersistentVolume) (p : StorageProvisioner) (s : S)
      → (deprovision_with lib manager_namespace volumes pods event event_of_claim pv p s).0
        ≡ (reconcile_job pods event owner_keys
            (deprovision_request lib manager_namespace volumes pods event event_of_claim pv p)
            s).0
  unfolding deprovision_with
  deprovision_with_outcome pv p s =
      let job =
        reconcile_job pods event owner_keys
          (deprovision_request lib manager_namespace volumes pods event event_of_claim pv p) s in
      elim (Option-cases job.0.1) [ inr (x, e) ↦ ground (arith, e) | inl e ↦ ground (arith, e) ]

  -- The job that runs is never done.
  running_not_done :
      (pv : PersistentVolume) (p : StorageProvisioner) (s : S)
      → needs_deprovisioning pv ≡ true
      → (deprovision_with lib manager_namespace volumes pods event event_of_claim pv p s).0
        ≢ (true, none)
  unfolding deprovision_with disable_deprovisioner
  running_not_done pv p s needed h =
      let job =
        reconcile_job pods event owner_keys
          (deprovision_request lib manager_namespace volumes pods event event_of_claim pv p) s in
      elim (Option-cases job.0.1) [
        | inr (x, e) ↦ ground (arith, e, h)
        | inl e ↦
            let (pod, _, _, (completed, _, _)) =
              reconcile_job_done pods event owner_keys
                (deprovision_request lib manager_namespace volumes pods event event_of_claim pv p) s
                needed (ground (arith, e, h)) in
            ground (arith, completed)
      ]

  -- The deprovisioning of a volume is done without an error only if an annotation of the volume disables
  -- the deprovisioner, and deleting its pod reports that the pod is gone.
  pub deprovision_volume_done :
      (pv : PersistentVolume) (s : S)
      → (deprovision_volume lib manager_namespace volumes pods event event_of_claim pv s).0
        ≡ (true, none)
      → (annotation pv.meta ann_pv_disable_deprovisioner ≡ "true")
        × ((delete_pod pods (pod_name lib manager_namespace pv) s).0 ≡ (true, none))
  unfolding deprovision_volume
  deprovision_volume_done pv s h =
      elim (Bool-cases (annotation pv.meta ann_storage_provisioner_spec == "")) [
        | inl e ↦ ground (arith, e, h)
        | inr e ↦
            elim (Result-cases (
              storage_provisioner_from_json lib
                (annotation pv.meta ann_storage_provisioner_spec))) [
                  | inr (x, f) ↦ ground (arith, e, f, h)
                  | inl (p, f) ↦ elim (Bool-cases (needs_deprovisioning pv)) [
                    | inl g ↦ elim (running_not_done pv p s g (ground (arith, e, f, h))) [ ]
                    | inr g ↦ (
                      not_needed pv e g,
                      sym (
                            ap (λ r. r.0)
                              (reconcile_job_skipped pods event owner_keys
                                (deprovision_request lib manager_namespace volumes pods event
                                  event_of_claim pv p)
                                s g))
                          ∙ sym (deprovision_with_outcome pv p s)
                          ∙ ground (arith, e, f, h),
                    )
                  ]
                ]
      ]
