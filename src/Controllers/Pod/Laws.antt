-- ===== src/Controllers/Pod/Laws.antt =====
-- Which claims a run touches, and what becomes of its errors.
use k8storagex.Base.Dict.{value_at}
use k8storagex.Base.{
  ◌≡◌, refl, ◌≢◌, String, true, false, Option, none, some, List, [], ◌∷◌, ok, Error, arith,
  Result-cases, Bool-cases, Option-cases, inl, inr, ◌==◌, ◌!=◌, string_eq, if◌then◌else◌,
}
use k8storagex.Base.Dict
use k8storagex.Api.Meta.{NamespacedName, ObjectMeta}
use k8storagex.Api.Core.{Pod, PersistentVolumeClaim}
use k8storagex.Api.Provisioner.{annotation_no_protection, enabled}
use k8storagex.Cluster.{Client}
use k8storagex.Utils.Annotations.{annotation}
use k8storagex.Registry.{Registry}
use k8storagex.Controllers.Pod.{
  writeable_pvcs, should_delete, set_annotation, delete_claim, release_claim, handle_claim,
  handle_claims, reconcile,
}

-- Setting an annotation gives it the value, and leaves all others; it reports a change exactly if the
-- value was another one.
pub annotation-set_annotation :
    (meta : ObjectMeta) (key value other : String)
    → (annotation (set_annotation meta key value).0 other
        ≡ (if key == other then value else annotation meta other))
      × ((set_annotation meta key value).1 ≡ (annotation meta key != value))
unfolding set_annotation annotation value_at Dict.lookup
annotation-set_annotation meta key value other = elim (Option-cases meta.annotations) [
  | inl e ↦ (ground (arith, e), ground (arith, e))
  | inr (a, e) ↦ (ground (arith, e, Dict.lookup-insert key other value a), ground (arith, e))
]

-- What a run may do to a world that satisfies `Inv`: read, mark a claim that should be deleted, and delete
-- a claim that is marked and not being deleted yet.
pub record Permits {S : Type 0} (claims : Client S PersistentVolumeClaim) (provisioners : Registry)
    (Inv : S → Type 0) : Type 0 where
  pub reads : (name : NamespacedName) (s : S) → Inv s → Inv (claims.get name s).1
  pub marks :
      (pvc : PersistentVolumeClaim) (s : S)
      → should_delete provisioners pvc ≡ true
      → Inv s
      → Inv
          (claims.update
            (record pvc { meta = (set_annotation pvc.meta annotation_no_protection enabled).0 })
            s).1
  pub deletes :
      (pvc : PersistentVolumeClaim) (s : S)
      → annotation pvc.meta annotation_no_protection ≡ enabled
      → pvc.meta.deletion_timestamp ≡ none
      → Inv s
      → Inv (claims.delete pvc s).1

abbrev marked_claim : PersistentVolumeClaim → PersistentVolumeClaim
marked_claim pvc = record pvc {
  meta = (set_annotation pvc.meta annotation_no_protection enabled).0;
}

unchanged-marked :
    (pvc : PersistentVolumeClaim)
    → (set_annotation pvc.meta annotation_no_protection enabled).1 ≡ false
    → annotation pvc.meta annotation_no_protection ≡ enabled
unfolding set_annotation
unchanged-marked pvc e =
    let changes =
      (annotation-set_annotation pvc.meta annotation_no_protection enabled
        annotation_no_protection).1 in
    ground (arith, e, changes)

module _ {S : Type 0} (claims : Client S PersistentVolumeClaim) (provisioners : Registry)
    (Inv : S → Type 0) (permits : Permits claims provisioners Inv)
    (update_keeps_annotations : (pvc stored : PersistentVolumeClaim) (s : S)
      → (claims.update pvc s).0 ≡ ok stored
      → stored.meta.annotations ≡ pvc.meta.annotations) where
  delete_claim-Inv :
      (pvc : PersistentVolumeClaim) (old : Option Error) (s : S)
      → annotation pvc.meta annotation_no_protection ≡ enabled
      → Inv s
      → Inv (delete_claim claims pvc old s).1
  unfolding delete_claim
  delete_claim-Inv pvc old s marked h = elim (Option-cases pvc.meta.deletion_timestamp) [
    | inr (t, e) ↦ simp (e, delete_claim) h
    | inl e ↦ elim (Option-cases (claims.delete pvc s).0) [
      | inl f ↦ simp (e, f, delete_claim) (permits.deletes pvc s marked e h)
      | inr (x, f) ↦ simp (e, f, delete_claim) (permits.deletes pvc s marked e h)
    ]
  ]

  stored-marked :
      (pvc stored : PersistentVolumeClaim) (s : S)
      → (claims.update (marked_claim pvc) s).0 ≡ ok stored
      → annotation stored.meta annotation_no_protection ≡ enabled
  stored-marked pvc stored s e =
      let same = update_keeps_annotations (marked_claim pvc) stored s e in
      let set =
        (annotation-set_annotation pvc.meta annotation_no_protection enabled
          annotation_no_protection).0 in
      unfold annotation in ground (arith, same, set)

  release_claim-Inv :
      (pvc : PersistentVolumeClaim) (old : Option Error) (s : S)
      → should_delete provisioners pvc ≡ true
      → Inv s
      → Inv (release_claim claims pvc old s).1
  unfolding release_claim
  release_claim-Inv pvc old s should h =
      elim (Bool-cases (set_annotation pvc.meta annotation_no_protection enabled).1) [
        | inr e ↦ rw (e, release_claim) (delete_claim-Inv pvc old s (unchanged-marked pvc e) h)
        | inl e ↦ elim (Result-cases (claims.update (marked_claim pvc) s).0) [
          | inl (stored, f) ↦
              rw (e, release_claim)
                (rw f (
                  delete_claim-Inv stored old _ (stored-marked pvc stored s f)
                    (permits.marks pvc s should h)))
          | inr (x, f) ↦ rw (e, release_claim) (rw f (permits.marks pvc s should h))
        ]
      ]

  handle_claim-Inv :
      (name : NamespacedName) (old : Option Error) (s : S)
      → Inv s
      → Inv (handle_claim claims provisioners name old s).1
  unfolding handle_claim
  handle_claim-Inv name old s h = elim (Result-cases (claims.get name s).0) [
    | inr (x, e) ↦ rw (e, handle_claim) (permits.reads name s h)
    | inl (pvc, e) ↦ elim (Bool-cases (should_delete provisioners pvc)) [
      | inl should ↦
          rw (e, handle_claim)
            (rw should (release_claim-Inv pvc old _ should (permits.reads name s h)))
      | inr other ↦ rw (e, handle_claim) (rw other (permits.reads name s h))
    ]
  ]

  handle_claims-Inv :
      (names : List NamespacedName) (old : Option Error) (s : S)
      → Inv s
      → Inv (handle_claims claims provisioners names old s).1
  unfolding handle_claims
  handle_claims-Inv [] old s h = h
  handle_claims-Inv (name ∷ names) old s h =
      handle_claims-Inv names _ _ (handle_claim-Inv name old s h)

  -- When the server answers an update of a claim with the annotations that it was sent, a run changes claims
  -- in two ways only: it marks a claim that should be deleted, and it deletes a claim that carries the mark
  -- and is not being deleted yet. So it keeps whatever these two, and reads, keep.
  pub reconcile-Inv :
      (pods : Client S Pod) (name : NamespacedName) (s : S)
      → ((s : S) → Inv s → Inv (pods.get name s).1)
      → Inv s
      → Inv (reconcile pods claims provisioners name s).1
  unfolding reconcile
  reconcile-Inv pods name s reads h = elim (Result-cases (pods.get name s).0) [
    | inr (x, e) ↦ rw (e, reconcile) (reads s h)
    | inl (pod, e) ↦ rw (e, reconcile) (handle_claims-Inv (writeable_pvcs pod) none _ (reads s h))
  ]

module _ {S : Type 0} (claims : Client S PersistentVolumeClaim) where
  delete_claim_error :
      (pvc : PersistentVolumeClaim) (e : Error) (s : S)
      → ((delete_claim claims pvc (some e) s).0 ≢ none)
        × ((delete_claim claims pvc (some e) s).1 ≡ (delete_claim claims pvc none s).1)
  unfolding delete_claim
  delete_claim_error pvc e s = elim (Option-cases pvc.meta.deletion_timestamp) [
    | inr (t, d) ↦ ground (arith, d)
    | inl d ↦ elim (Option-cases (claims.delete pvc s).0) [
      | inl f ↦ ground (arith, d, f)
      | inr (x, f) ↦ ground (arith, d, f)
    ]
  ]

  release_claim_error :
      (pvc : PersistentVolumeClaim) (e : Error) (s : S)
      → ((release_claim claims pvc (some e) s).0 ≢ none)
        × ((release_claim claims pvc (some e) s).1 ≡ (release_claim claims pvc none s).1)
  unfolding release_claim
  release_claim_error pvc e s =
      elim (Bool-cases (set_annotation pvc.meta annotation_no_protection enabled).1) [
        | inr f ↦ rw (f, release_claim) (delete_claim_error pvc e s)
        | inl f ↦ elim (Result-cases (claims.update (marked_claim pvc) s).0) [
          | inl (stored, u) ↦ rw (f, release_claim) (rw u (delete_claim_error stored e _))
          | inr (x, u) ↦ ground (arith, f, u)
        ]
      ]

module _ {S : Type 0} (claims : Client S PersistentVolumeClaim) (provisioners : Registry) where
  handle_claim_error :
      (name : NamespacedName) (e : Error) (s : S)
      → ((handle_claim claims provisioners name (some e) s).0 ≢ none)
        × ((handle_claim claims provisioners name (some e) s).1
            ≡ (handle_claim claims provisioners name none s).1)
  unfolding handle_claim
  handle_claim_error name e s = elim (Result-cases (claims.get name s).0) [
    | inr (x, f) ↦ ground (arith, f)
    | inl (pvc, f) ↦ elim (Bool-cases (should_delete provisioners pvc)) [
      | inl should ↦
          rw (f, handle_claim) (rw should (release_claim_error claims pvc e (claims.get name s).1))
      | inr other ↦ ground (arith, f, other)
    ]
  ]

  -- An error of an earlier claim is never lost by the loop, and does not stop it: the loop ends with an
  -- error, and has changed the world just as it does without that error.
  pub handle_claims_error :
      (names : List NamespacedName) (e : Error) (s : S)
      → ((handle_claims claims provisioners names (some e) s).0 ≢ none)
        × ((handle_claims claims provisioners names (some e) s).1
            ≡ (handle_claims claims provisioners names none s).1)
  unfolding handle_claims
  handle_claims_error [] e s = (λ h. cc, refl)
  handle_claims_error (name ∷ names) e s =
      let (kept, same) = handle_claim_error name e s in
      let s' : S = (handle_claim claims provisioners name none s).1 in
      elim (Option-cases (handle_claim claims provisioners name (some e) s).0) [
        | inl lost ↦ elim (kept lost) [ ]
        | inr (x, f) ↦ elim (Option-cases (handle_claim claims provisioners name none s).0) [
          | inl n ↦ rw (f, same, n, handle_claims) (handle_claims_error names x s')
          | inr (y, n) ↦
              let (kept', other) = handle_claims_error names x s' in
              let (_, plain) = handle_claims_error names y s' in
              rw (f, same, n, handle_claims) (kept', ground (arith, other, plain))
        ]
      ]
