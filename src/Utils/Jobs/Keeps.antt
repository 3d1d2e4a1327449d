-- ===== src/Utils/Jobs/Keeps.antt =====
-- What a job leaves as it was: all that its calls leave.
use k8storagex.Base.{
  true, ◌≡◌, arith, String, ◌<>◌, not, Result, is_not_found, is_already_exists, Io, inl, inr,
  Bool-cases, Option-cases, Result-cases, string_eq,
}
use k8storagex.Api.Meta.{NamespacedName, ObjectMeta}
use k8storagex.Api.Core.{Pod}
use k8storagex.Cluster.{Client}
use k8storagex.Utils.Jobs.{
  OwnerKeys, Recorder, JobRequest, PodState, waiting, unknown, succeeded, failed, named,
  event_normal, event_warning, delete_resource, delete_pod, reload, create_pod, reconcile_pod,
  create_owned, complete_job, after_pod, reconcile_job,
}

-- The calls that a job makes of the client keep `Inv`.
pub record PodsKeep {S : Type 0} (pods : Client S Pod) (Inv : S → Type 0) : Type 0 where
  pub get : (name : NamespacedName) (s : S) → Inv s → Inv (pods.get name s).1
  pub create : (pod : Pod) (s : S) → Inv s → Inv (pods.create pod s).1
  pub delete : (pod : Pod) (s : S) → Inv s → Inv (pods.delete pod s).1

-- A call keeps `Inv`.
abbrev pub Keeping : {S A : Type 0} → (S → Type 0) → Io S A → Type 0
Keeping {S} Inv call = (s : S) → Inv s → Inv (call s).1

module _ {S : Type 0} (pods : Client S Pod) (Inv : S → Type 0) (keeps : PodsKeep pods Inv) where
  delete_resource-Inv : (pod : Pod) → Keeping Inv (delete_resource pods pod)
  unfolding delete_resource
  delete_resource-Inv pod s h =
      let h1 = keeps.delete pod s h in
      elim (Option-cases (pods.delete pod s).0) [
        | inl r ↦ simp (r, delete_resource) h1
        | inr (e, r) ↦ simp (r, delete_resource) h1
      ]

  pub delete_pod-Inv : (name : NamespacedName) → Keeping Inv (delete_pod pods name)
  unfolding delete_pod
  delete_pod-Inv name s h =
      let h1 = keeps.get name s h in
      elim (Result-cases (pods.get name s).0) [
        | inr (e, r) ↦ simp (r, delete_pod) h1
        | inl (pod, r) ↦ simp (r, delete_pod) (delete_resource-Inv pod (pods.get name s).1 h1)
      ]

  reload-Inv : (name : NamespacedName) → Keeping Inv (reload pods name)
  unfolding reload
  reload-Inv name s h = keeps.get name s h

  create_pod-Inv :
      (name : NamespacedName) (create : Io S (Result Pod))
      → Keeping Inv create
      → Keeping Inv (create_pod pods name create)
  unfolding create_pod
  create_pod-Inv name create keep s h =
      let s1 = (create s).1 in
      let h1 = keep s h in
      elim (Result-cases (create s).0) [
        | inr (e, r) ↦ simp (r, create_pod) h1
        | inl (pod, r) ↦
            let s2 = (pods.create (named name pod) s1).1 in
            let h2 = keeps.create (named name pod) s1 h1 in
            elim (Result-cases (pods.create (named name pod) s1).0) [
              | inl (p, q) ↦ simp (r, q, create_pod) h2
              | inr (e, q) ↦ elim (Bool-cases (is_already_exists e)) [
                | inl b ↦ simp (r, q, b, create_pod) (reload-Inv name s2 h2)
                | inr b ↦ simp (r, q, b, create_pod) h2
              ]
            ]
      ]

  reconcile_pod-Inv :
      (name : NamespacedName) (create : Io S (Result Pod))
      → Keeping Inv create
      → Keeping Inv (reconcile_pod pods name create)
  unfolding reconcile_pod
  reconcile_pod-Inv name create keep s h =
      let s1 = (pods.get name s).1 in
      let h1 = keeps.get name s h in
      elim (Result-cases (pods.get name s).0) [
        | inl (p, r) ↦ simp (r, reconcile_pod) h1
        | inr (e, r) ↦ elim (Bool-cases (is_not_found e)) [
          | inl b ↦ simp (r, b, reconcile_pod) (create_pod-Inv name create keep s1 h1)
          | inr b ↦ simp (r, b, reconcile_pod) h1
        ]
      ]

  module _ (event : Recorder S ObjectMeta)
      (event_keeps : (owner : ObjectMeta) (type reason message : String) (s : S)
        → Inv s
        → Inv (event owner type reason message s))
      (keys : OwnerKeys) (req : JobRequest S) (create_keeps : Keeping Inv req.create)
      (completed_keeps : req.should_run ≡ true
        → (pod : Pod) → Keeping Inv (req.on_completed pod)) where
    create_owned-Inv : Keeping Inv (create_owned pods event keys req)
    unfolding create_owned
    create_owned-Inv s h = create_keeps s h

    complete_job-Inv :
        req.should_run ≡ true → (pod : Pod) → Keeping Inv (complete_job pods event keys req pod)
    unfolding complete_job
    complete_job-Inv run pod s h =
        let s1 =
          event req.owner event_normal (req.title <> "Completed") (req.title <> " Pod completed")
            s in
        let h1 = event_keeps req.owner event_normal _ _ s h in
        let s2 = (req.on_completed pod s1).1 in
        let h2 = completed_keeps run pod s1 h1 in
        elim (Option-cases (req.on_completed pod s1).0.1) [
          | inr (e, r) ↦ simp (r, complete_job) h2
          | inl r ↦ elim (Bool-cases (req.on_completed pod s1).0.0) [
            | inl d ↦ simp (r, d, complete_job) (delete_resource-Inv pod s2 h2)
            | inr d ↦ simp (r, d, complete_job) h2
          ]
        ]

    after_pod-Inv :
        req.should_run ≡ true
        → (state : PodState) (s : S) → Inv s
        → Inv (after_pod pods event keys req (state, s)).1
    unfolding after_pod
    after_pod-Inv run waiting s h = h
    after_pod-Inv run (unknown e) s h = h
    after_pod-Inv run (failed pod e) s h = event_keeps req.owner event_warning _ _ s h
    after_pod-Inv run (succeeded pod) s h = complete_job-Inv run pod s h

    pub reconcile_job-Inv : Keeping Inv (reconcile_job pods event keys req)
    unfolding reconcile_job
    reconcile_job-Inv s h = elim (Bool-cases (not req.should_run)) [
      | inl n ↦ simp (n, reconcile_job) (delete_pod-Inv req.pod_name s h)
      | inr n ↦
          let create = create_owned pods event keys req in
          let (state, s1) = reconcile_pod pods req.pod_name create s in
          simp (n, reconcile_job)
            (after_pod-Inv (ground (arith, n)) state s1
              (reconcile_pod-Inv req.pod_name create create_owned-Inv s h))
    ]
