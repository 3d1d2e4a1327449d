-- ===== src/Utils/Jobs/Laws.antt =====
-- What a job's outcome tells.
use k8storagex.Base.{
  Option, ◌≡◌, refl, ◌≢◌, ◌⊎◌, ◌<>◌, Bool, true, false, none, some, Result, ok, Error, is_not_found,
  is_already_exists, Io, arith, Result-cases, Bool-cases, Option-cases, inl, inr, string_eq,
}
use k8storagex.Api.Meta.{NamespacedName, ObjectMeta}
use k8storagex.Api.Core.{Pod, pod_succeeded}
use k8storagex.Cluster.{Client}
use k8storagex.Utils.Jobs.{
  OwnerKeys, event_normal, Recorder, JobRequest, PodState, waiting, unknown, succeeded, failed,
  state_of, named, delete_pod, delete_resource, reload, create_pod, reconcile_pod, create_owned,
  complete_job, after_pod, reconcile_job,
}

module _ {S : Type 0} (pods : Client S Pod) where
  -- The pod is gone at `s`.
  abbrev pub IsGone : Pod → S → Type 0
  IsGone pod s = (e : Error) × ((pods.delete pod s).0 ≡ some e) × (is_not_found e ≡ true)

  delete_resource_done :
      (pod : Pod) (s : S) → (delete_resource pods pod s).0 ≡ (true, none) → IsGone pod s
  unfolding delete_resource
  delete_resource_done pod s h = elim (Option-cases (pods.delete pod s).0) [
    | inl e ↦ ground (arith, e, h)
    | inr (x, e) ↦ (x, e, ground (arith, e, h))
  ]

  -- The pod was read, in phase `Succeeded`, by a call that ended in `u`.
  abbrev pub WasRead : NamespacedName → Pod → S → Type 0
  WasRead name pod u =
      (t : S) × ((pods.get name t).0 ≡ ok pod)
      × (pod.phase ≡ pod_succeeded)
      × ((pods.get name t).1 ≡ u)

  state_of_succeeded :
      (p pod : Pod) → state_of p ≡ succeeded pod → (p ≡ pod) × (p.phase ≡ pod_succeeded)
  unfolding state_of
  state_of_succeeded p pod h = ground (arith, h)

  reload_succeeded :
      (name : NamespacedName) (s : S) (pod : Pod)
      → (reload pods name s).0 ≡ succeeded pod
      → WasRead name pod (reload pods name s).1
  unfolding reload
  reload_succeeded name s pod h = elim (Result-cases (pods.get name s).0) [
    | inl (p, e) ↦
        let (same, phase) = state_of_succeeded p pod (ground (arith, e, h)) in
        (s, ground (arith, e, same), ground (arith, same, phase), ground (arith, e))
    | inr (x, e) ↦ ground (arith, e, h)
  ]

  create_pod_succeeded :
      (name : NamespacedName) (create : Io S (Result Pod)) (s : S) (pod : Pod)
      → (create_pod pods name create s).0 ≡ succeeded pod
      → WasRead name pod (create_pod pods name create s).1
  unfolding create_pod
  create_pod_succeeded name create s pod h = elim (Result-cases (create s).0) [
    | inr (x, e) ↦ ground (arith, e, h)
    | inl (p, e) ↦ elim (Result-cases (pods.create (named name p) (create s).1).0) [
      | inl (q, f) ↦ ground (arith, e, f, h)
      | inr (x, f) ↦ elim (Bool-cases (is_already_exists x)) [
        | inl g ↦
            let s' : S = (pods.create (named name p) (create s).1).1 in
            let (t, found, phase, ends) =
              reload_succeeded name s' pod (ground (arith, e, f, g, h)) in
            (t, found, phase, ground (arith, e, f, g, ends))
        | inr g ↦ ground (arith, e, f, g, h)
      ]
    ]
  ]

  reconcile_pod_succeeded :
      (name : NamespacedName) (create : Io S (Result Pod)) (s : S) (pod : Pod)
      → (reconcile_pod pods name create s).0 ≡ succeeded pod
      → WasRead name pod (reconcile_pod pods name create s).1
  unfolding reconcile_pod
  reconcile_pod_succeeded name create s pod h = elim (Result-cases (pods.get name s).0) [
    | inl (p, e) ↦
        let (same, phase) = state_of_succeeded p pod (ground (arith, e, h)) in
        (s, ground (arith, e, same), ground (arith, same, phase), ground (arith, e))
    | inr (x, e) ↦ elim (Bool-cases (is_not_found x)) [
      | inl f ↦
          let (t, found, phase, ends) =
            create_pod_succeeded name create (pods.get name s).1 pod (ground (arith, e, f, h)) in
          (t, found, phase, ground (arith, e, f, ends))
      | inr f ↦ ground (arith, e, f, h)
    ]
  ]

is_succeeded : PodState → Bool
is_succeeded (succeeded pod) = true
is_succeeded _ = false

PodState-cases : (p : PodState) → ((pod : Pod) × (p ≡ succeeded pod)) ⊎ (is_succeeded p ≡ false)
unfolding is_succeeded
PodState-cases (succeeded pod) = inl (pod, refl)
PodState-cases waiting = inr refl
PodState-cases (unknown e) = inr refl
PodState-cases (failed pod e) = inr refl

module _ {S : Type 0} (pods : Client S Pod) (event : Recorder S ObjectMeta) (keys : OwnerKeys) where
  after_pod_done :
      (req : JobRequest S) (p : PodState) (s : S)
      → is_succeeded p ≡ false
      → (after_pod pods event keys req (p, s)).0 ≢ (true, none)
  unfolding after_pod is_succeeded
  after_pod_done req waiting s e h = ground (arith, h)
  after_pod_done req (unknown x) s e h = ground (arith, h)
  after_pod_done req (failed pod x) s e h = ground (arith, h)
  after_pod_done req (succeeded pod) s e h = ground (arith, e)

  -- The world in which the completion is handled, when the pod was read in `u`.
  abbrev pub announced : JobRequest S → S → S
  announced req u =
      event req.owner event_normal (req.title <> "Completed") (req.title <> " Pod completed") u

  -- The callback said that it is done, then the deletion found the pod gone, and that was the last call.
  abbrev pub IsCompleted : JobRequest S → Pod → S → S → Type 0
  IsCompleted req pod u final =
      ((req.on_completed pod (announced req u)).0 ≡ (true, none))
      × IsGone pods pod (req.on_completed pod (announced req u)).1
      × (final ≡ (pods.delete pod (req.on_completed pod (announced req u)).1).1)

  complete_job_done :
      (req : JobRequest S) (pod : Pod) (s : S)
      → (complete_job pods event keys req pod s).0 ≡ (true, none)
      → IsCompleted req pod s (complete_job pods event keys req pod s).1
  unfolding complete_job delete_resource
  complete_job_done req pod s h =
      let handled : (Bool × Option Error) × S = req.on_completed pod (announced req s) in
      elim (Option-cases handled.0.1) [
        | inr (x, e) ↦ ground (arith, e, h)
        | inl e ↦ elim (Bool-cases handled.0.0) [
          | inr f ↦ ground (arith, e, f, h)
          | inl f ↦
              let gone = delete_resource_done pods pod handled.1 (ground (arith, e, f, h)) in
              (λ i. (f i, e i), gone, ground (arith, e, f, gone.1))
        ]
      ]

  -- A job that is to run is reported as done without an error only if its pod was read in phase
  -- `Succeeded`, then the callback for the completion was called for that pod and said that it is done, and
  -- then, as the last call, the deletion of the pod found it gone.
  pub reconcile_job_done :
      (req : JobRequest S) (s : S)
      → req.should_run ≡ true
      → (reconcile_job pods event keys req s).0 ≡ (true, none)
      → (pod : Pod) × (u : S) × WasRead pods req.pod_name pod u
        × IsCompleted req pod u (reconcile_job pods event keys req s).1
  unfolding reconcile_job
  reconcile_job_done req s runs h =
      let after : PodState × S =
        reconcile_pod pods req.pod_name (create_owned pods event keys req) s in
      elim (PodState-cases after.0) [
        | inl (pod, e) ↦
            let (done, gone, ends) =
              complete_job_done req pod after.1 (ground (arith, e, h, runs)) in
            (
              pod,
              after.1,
              reconcile_pod_succeeded pods req.pod_name (create_owned pods event keys req) s pod e,
              (done, gone, ground (arith, e, runs, ends)),
            )
        | inr other ↦ elim (after_pod_done req after.0 after.1 other (ground (arith, runs, h))) [ ]
      ]

  -- A job that is not to run is only cleaned up.
  pub reconcile_job_skipped :
      (req : JobRequest S) (s : S)
      → req.should_run ≡ false
      → reconcile_job pods event keys req s ≡ delete_pod pods req.pod_name s
  unfolding reconcile_job
  reconcile_job_skipped req s skips = ground (arith, skips)
