-- ===== src/Controllers/Pod.antt =====
-- internal/controllers/pod_controller.go: deletes the claims of pods that have completed.
pub mod Laws
use k8storagex.Base.{
  ℕ, String, Bool, true, false, ◌&&◌, ◌||◌, not, Option, none, some, List, [], ◌∷◌, Result, ok, err,
  Error, new_error, is_not_found, ◌==◌, ◌!=◌, string_eq, if◌then◌else◌,
}
use k8storagex.Base.Dict
use k8storagex.Base.Dict.{Dict}
use k8storagex.Api.Meta.{NamespacedName, ObjectMeta}
use k8storagex.Api.Core.{
  Pod, PodVolume, PersistentVolumeClaim, pod_succeeded, pod_failed, restart_never,
  restart_on_failure, read_write_once,
}
use k8storagex.Api.Provisioner.{annotation_no_protection, enabled}
use k8storagex.Cluster.{Client, error_of}
use k8storagex.Utils.Annotations.{annotation}
use k8storagex.Registry.{Registry, get}

abbrev pub ann_storage_provisioner : String
ann_storage_provisioner = "volume.beta.kubernetes.io/storage-provisioner"

abbrev pub pvc_delete_failed : Error
pvc_delete_failed = new_error "pvc deletion failed"

unfoldable pub writeable : String → List PodVolume → List NamespacedName
writeable namespace [] = []
writeable namespace (v ∷ vs) =
    let rest = writeable namespace vs in
    elim (v.claim) [
      | none ↦ rest
      | some claim ↦
          if claim.read_only
          then rest
          else record { name = claim.claim_name; namespace = namespace } ∷ rest
    ]

unfoldable pub writeable_pvcs : Pod → List NamespacedName
unfolding writeable
writeable_pvcs pod = writeable pod.meta.namespace pod.spec.volumes

-- `finished` of the watch's predicate
unfoldable pub is_finished : Pod → Bool
is_finished pod =
    (pod.spec.restart_policy == restart_never
      && (pod.phase == pod_succeeded || pod.phase == pod_failed))
    || (pod.spec.restart_policy == restart_on_failure && pod.phase == pod_succeeded)

abbrev is_empty : {A : Type 0} → List A → Bool
is_empty [] = true
is_empty (x ∷ xs) = false

-- The predicate `podCompleted`.
unfoldable pub pod_completed : Pod → Bool
unfolding is_finished
pod_completed pod = is_finished pod && not (is_empty (writeable_pvcs pod))

unfoldable pub has_access_mode : PersistentVolumeClaim → String → Bool
has_access_mode pvc mode = elim (pvc.spec.access_modes) [
  | [] ↦ false
  | m ∷ ms ↦ elim ms [ [] ↦ m == mode | _ ∷ _ ↦ false ]
]

unfoldable pub should_delete : Registry → PersistentVolumeClaim → Bool
unfolding has_access_mode
should_delete provisioners pvc =
    if has_access_mode pvc read_write_once
    then elim (pvc.meta.annotations) [
      | none ↦ false
      | some a ↦ elim (get provisioners (annotation pvc.meta ann_storage_provisioner)) [
        | none ↦ false
        | some p ↦ p.spec.deprovision_on_pod_completion
      ]
    ]
    else false

-- The changed metadata, and whether the annotation was set.
unfoldable pub set_annotation : ObjectMeta → String → String → ObjectMeta × Bool
set_annotation meta key value =
    if annotation meta key != value
    then (
      record meta {
        annotations = some (elim (meta.annotations) [
          | none ↦ (key, value) ∷ []
          | some a ↦ Dict.insert key value a
        ]);
      },
      true,
    )
    else (meta, false)

abbrev pub unless_missing : Error → Option Error → Option Error
unless_missing e old = if is_not_found e then old else some pvc_delete_failed

module _ {S : Type 0} (claims : Client S PersistentVolumeClaim) where
  -- Delete a claim that is not being deleted yet. `old` is the error of the run so far.
  unfoldable pub delete_claim : PersistentVolumeClaim → Option Error → S → Option Error × S
  delete_claim pvc old s = elim (pvc.meta.deletion_timestamp) [
    | some _ ↦ (old, s)
    | none ↦
        let (e, s') = claims.delete pvc s in
        elim e [ none ↦ (old, s') | some x ↦ (unless_missing x old, s') ]
  ]

  -- Mark the claim, so that its protection can be dropped, and delete it.
  unfoldable pub release_claim : PersistentVolumeClaim → Option Error → S → Option Error × S
  unfolding delete_claim set_annotation
  release_claim pvc old s =
      let (meta, changed) = set_annotation pvc.meta annotation_no_protection enabled in
      let marked : PersistentVolumeClaim = record pvc { meta = meta } in
      let (updated, s') = claims.update marked s in
      elim changed [
        | false ↦ delete_claim pvc old s
        | true ↦ elim updated [
          | err x ↦ (unless_missing x old, s')
          | ok stored ↦ delete_claim stored old s'
        ]
      ]

module _ {S : Type 0} (claims : Client S PersistentVolumeClaim) (provisioners : Registry) where
  -- One round of the loop over the pod's claims.
  unfoldable pub handle_claim : NamespacedName → Option Error → S → Option Error × S
  unfolding release_claim should_delete
  handle_claim name old s =
      let (found, s') = claims.get name s in
      elim found [
        | err x ↦ (unless_missing x old, s')
        | ok pvc ↦
            if should_delete provisioners pvc then release_claim claims pvc old s' else (old, s')
      ]

  unfoldable pub handle_claims : List NamespacedName → Option Error → S → Option Error × S
  handle_claims [] old s = (old, s)
  handle_claims (name ∷ names) old s =
      let (e, s') = handle_claim name old s in handle_claims names e s'

module _ {S : Type 0} (pods : Client S Pod) (claims : Client S PersistentVolumeClaim)
    (provisioners : Registry) where
  unfoldable pub reconcile : NamespacedName → S → Option Error × S
  unfolding handle_claims writeable_pvcs
  reconcile name s =
      let (found, s') = pods.get name s in
      elim found [
        | err e ↦ (if is_not_found e then none else some e, s')
        | ok pod ↦ handle_claims claims provisioners (writeable_pvcs pod) none s'
      ]
