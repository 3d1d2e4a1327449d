-- ===== src/Controllers/Volume/Questions.antt =====
-- internal/controllers/persistentvolume_controller.go: what the steps before a volume's release leave as it was.
use k8storagex.Base.{
  ◌≡◌, String, true, none, Error, is_not_found, is_conflict, inl, inr, Bool-cases, Option-cases,
  Result-cases, ◌==◌, string_eq, arith,
}
use k8storagex.Api.Meta.{ObjectMeta}
use k8storagex.Api.Core.{
  Pod, PersistentVolume, PersistentVolumeClaim, ObjectReference, volume_bound,
}
use k8storagex.Cluster.{Client}
use k8storagex.Library.{Library}
use k8storagex.Registry.{Registry}
use k8storagex.Utils.Jobs.{Recorder, annotate}
use k8storagex.Utils.Jobs.Keeps.{Keeping}
use k8storagex.Controllers.Volume.{
  volume_event, get_claim_ref, set_claim_ref_annotation, resolve_provisioner,
}
use k8storagex.Controllers.Volume.Claims.{
  answer, again, last_round, claim_name_of, name_of, remove_claim_ref, deprovision_round,
  can_deprovision,
}
use k8storagex.Controllers.Volume.Laws.{Round-cases, last_round-true, remove_claim_ref_unanswered}
use k8storagex.Controllers.Volume.Permits.{WasRead, Permits}

module _ {S : Type 0} (lib : Library) (manager_namespace : String) (provisioners : Registry)
    (volumes : Client S PersistentVolume) (claims : Client S PersistentVolumeClaim)
    (pods : Client S Pod) (event : Recorder S ObjectMeta)
    (event_of_claim : Recorder S ObjectReference) (Inv : S → Type 0)
    (permits : Permits lib manager_namespace volumes claims pods event event_of_claim Inv) where
  pub volume_event-Inv :
      (pv : PersistentVolume) (type reason message : String) (s : S)
      → Inv s
      → Inv (volume_event lib event event_of_claim pv type reason message s)
  unfolding volume_event
  volume_event-Inv pv type reason message s h =
      let s1 = event pv.meta type reason message s in
      let h1 = permits.event_keeps pv.meta type reason message s h in
      elim (Option-cases (get_claim_ref lib pv)) [
        | inl n ↦ simp (n, volume_event) h1
        | inr (claim, n) ↦
            simp (n, volume_event) (permits.event_of_claim_keeps claim type reason message s1 h1)
      ]

  set_claim_ref_annotation-finalizers :
      (pv : PersistentVolume) (claim : ObjectReference)
      → (set_claim_ref_annotation lib pv claim).meta.finalizers ≡ pv.meta.finalizers
  unfolding set_claim_ref_annotation annotate
  set_claim_ref_annotation-finalizers pv claim = elim (Result-cases (lib.reference_to_json claim)) [
    | inl (text, r) ↦ ground (arith, r)
    | inr (e, r) ↦ ground (arith, r)
  ]

  remove_claim_ref-Inv :
      (pv : PersistentVolume) (claim : ObjectReference)
      → WasRead volumes pv
      → Keeping Inv (remove_claim_ref lib volumes claims provisioners pv claim)
  unfolding remove_claim_ref
  remove_claim_ref-Inv pv claim read s h =
      let marked = set_claim_ref_annotation lib pv claim in
      let bare : PersistentVolume = record marked {
        spec = record (marked.spec) { claim_ref = none };
      } in
      let s1 = (volumes.update bare s).1 in
      let h1 =
        permits.update_volume bare pv read (set_claim_ref_annotation-finalizers pv claim) s h in
      let h2 = permits.get_volume (name_of bare.meta) s1 h1 in
      elim (Result-cases (volumes.update bare s).0) [
        | inl (stored, r) ↦ simp (r, remove_claim_ref) h1
        | inr (e, r) ↦ elim (Bool-cases (is_conflict e)) [
          | inl b ↦ simp (r, b, remove_claim_ref) h2
          | inr b ↦ simp (r, b, remove_claim_ref) h1
        ]
      ]

  deprovision_round-Inv :
      (pv : PersistentVolume)
      → WasRead volumes pv
      → Keeping Inv (deprovision_round lib volumes claims provisioners pv)
  unfolding deprovision_round
  deprovision_round-Inv pv read s h = elim (Bool-cases (pv.phase == volume_bound)) [
    | inl b ↦ simp (b, deprovision_round) h
    | inr b ↦ elim (Option-cases pv.spec.claim_ref) [
      | inl n ↦ simp (b, n, deprovision_round) h
      | inr (claim, n) ↦
          let s1 = (claims.get (claim_name_of claim) s).1 in
          let h1 = permits.get_claim (claim_name_of claim) s h in
          elim (Result-cases (claims.get (claim_name_of claim) s).0) [
            | inl (c, r) ↦ simp (b, n, r, deprovision_round) h1
            | inr (e, r) ↦ elim (Bool-cases (is_not_found e)) [
              | inr t ↦ simp (b, n, r, t, deprovision_round) h1
              | inl t ↦ elim (Option-cases (resolve_provisioner pv.meta provisioners)) [
                | inl q ↦ simp (b, n, r, t, q, deprovision_round) h1
                | inr (p, q) ↦
                    simp (b, n, r, t, q, deprovision_round)
                      (remove_claim_ref-Inv pv claim read s1 h1)
              ]
            ]
          ]
    ]
  ]

  remove_claim_ref-WasRead :
      (pv : PersistentVolume) (claim : ObjectReference) (s : S) (x : Error) (q : PersistentVolume)
      → (remove_claim_ref lib volumes claims provisioners pv claim s).0 ≡ again x q
      → WasRead volumes q
  unfolding remove_claim_ref
  remove_claim_ref-WasRead pv claim s x q h =
      let marked = set_claim_ref_annotation lib pv claim in
      let bare : PersistentVolume = record marked {
        spec = record (marked.spec) { claim_ref = none };
      } in
      let s1 = (volumes.update bare s).1 in
      elim (Result-cases (volumes.update bare s).0) [
        | inl (stored, r) ↦ absurd (ground (arith, r, h))
        | inr (e, r) ↦ elim (Bool-cases (is_conflict e)) [
          | inr b ↦ absurd (ground (arith, r, b, h))
          | inl b ↦ elim (Result-cases (volumes.get (name_of bare.meta) s1).0) [
            | inr (y, g) ↦ absurd (ground (arith, r, b, g, h))
            | inl (current, g) ↦ (name_of bare.meta, s1, ground (arith, r, b, g, h))
          ]
        ]
      ]

  -- A volume that the second round looks at was read.
  deprovision_round-WasRead :
      (pv : PersistentVolume) (s : S) (x : Error) (q : PersistentVolume)
      → (deprovision_round lib volumes claims provisioners pv s).0 ≡ again x q
      → WasRead volumes q
  unfolding deprovision_round
  deprovision_round-WasRead pv s x q h = elim (Bool-cases (pv.phase == volume_bound)) [
    | inl b ↦ absurd (ground (arith, b, h))
    | inr b ↦ elim (Option-cases pv.spec.claim_ref) [
      | inl n ↦ absurd (ground (arith, b, n, h))
      | inr (claim, n) ↦ elim (Result-cases (claims.get (claim_name_of claim) s).0) [
        | inl (c, r) ↦ absurd (ground (arith, b, n, r, h))
        | inr (e, r) ↦ elim (Bool-cases (is_not_found e)) [
          | inr t ↦ absurd (ground (arith, b, n, r, t, h))
          | inl t ↦ elim (Option-cases (resolve_provisioner pv.meta provisioners)) [
            | inl o ↦ absurd (ground (arith, b, n, r, t, o, h))
            | inr (p, o) ↦
                remove_claim_ref-WasRead pv claim (claims.get (claim_name_of claim) s).1 x q
                  (ground (arith, b, n, r, t, o, h))
          ]
        ]
      ]
    ]
  ]

  -- A round that answers true answers for the volume that it was given.
  deprovision_round-same :
      (pv : PersistentVolume) (s : S) (q : PersistentVolume)
      → (deprovision_round lib volumes claims provisioners pv s).0 ≡ answer true q
      → pv ≡ q
  unfolding deprovision_round
  deprovision_round-same pv s q h = elim (Bool-cases (pv.phase == volume_bound)) [
    | inl b ↦ absurd (ground (arith, b, h))
    | inr b ↦ elim (Option-cases pv.spec.claim_ref) [
      | inl n ↦ ground (arith, b, n, h)
      | inr (claim, n) ↦ elim (Result-cases (claims.get (claim_name_of claim) s).0) [
        | inl (c, r) ↦ absurd (ground (arith, b, n, r, h))
        | inr (e, r) ↦ absurd (
            ground (
              arith,
              b,
              n,
              r,
              h,
              remove_claim_ref_unanswered lib volumes claims provisioners pv claim
                  (claims.get (claim_name_of claim) s).1 q,
            ))
      ]
    ]
  ]

  pub can_deprovision-WasRead :
      (pv : PersistentVolume) (s : S)
      → WasRead volumes pv
      → (can_deprovision lib volumes claims provisioners pv s).0.0 ≡ (true, none)
      → WasRead volumes (can_deprovision lib volumes claims provisioners pv s).0.1
  unfolding can_deprovision
  can_deprovision-WasRead pv s read h =
      let s1 = (deprovision_round lib volumes claims provisioners pv s).1 in
      elim (Round-cases (deprovision_round lib volumes claims provisioners pv s).0) [
        | inl (b, q, e) ↦
            let same : pv ≡ q = deprovision_round-same pv s q (ground (arith, e, h)) in
            simp (e, can_deprovision) (rw (← same) read)
        | inr (inl (x, q, e)) ↦ absurd (ground (arith, e, h))
        | inr (inr (x, q, e)) ↦
            let next = deprovision_round lib volumes claims provisioners q s1 in
            let final : next.0 ≡ answer true (last_round next.0).1 =
              last_round-true next.0 (ground (arith, e, h)) in
            let same : q ≡ (last_round next.0).1 = deprovision_round-same q s1 _ final in
            simp (e, can_deprovision) (rw (← same) (deprovision_round-WasRead pv s x q e))
      ]

  pub can_deprovision-Inv :
      (pv : PersistentVolume)
      → WasRead volumes pv
      → Keeping Inv (can_deprovision lib volumes claims provisioners pv)
  unfolding can_deprovision
  can_deprovision-Inv pv read s h =
      let s1 = (deprovision_round lib volumes claims provisioners pv s).1 in
      let h1 = deprovision_round-Inv pv read s h in
      elim (Round-cases (deprovision_round lib volumes claims provisioners pv s).0) [
        | inl (b, q, e) ↦ simp (e, can_deprovision) h1
        | inr (inl (x, q, e)) ↦ simp (e, can_deprovision) h1
        | inr (inr (x, q, e)) ↦
            simp (e, can_deprovision)
              (deprovision_round-Inv q (deprovision_round-WasRead pv s x q e) s1 h1)
      ]
