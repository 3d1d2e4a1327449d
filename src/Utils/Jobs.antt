-- ===== src/Utils/Jobs.antt =====
-- internal/utils/pod.go, deleteresource.go and podmapper.go: provisioner pods that are run to completion
-- on behalf of an owner.
pub mod Laws
pub mod Keeps
pub mod Owner
use k8storagex.Base.{
  String, ◌<>◌, Bool, true, false, ◌&&◌, ◌||◌, not, Option, none, some, List, [], ◌∷◌, Result, ok,
  err, Error, new_error, wrap, is_not_found, is_already_exists, Io, ◌==◌, ◌!=◌, string_eq,
  if◌then◌else◌,
}
use k8storagex.Base.Dict
use k8storagex.Base.Dict.{Dict, value_at}
use k8storagex.Api.Meta.{NamespacedName, ObjectMeta}
use k8storagex.Api.Core.{Pod, pod_succeeded, pod_failed, restart_never}
use k8storagex.Cluster.{Client}

-- `Recorder.Event(object, type, reason, message)`
abbrev pub Recorder : Type 0 → Type 0 → Type 0
Recorder S A = A → String → String → String → S → S

abbrev pub event_normal : String
event_normal = "Normal"

abbrev pub event_warning : String
event_warning = "Warning"

-- The names of the annotations for a pod's owner, of `JobReconciler`.
pub record OwnerKeys : Type 0 where
  pub owner_name : String
  pub owner_namespace : String

-- `title` is `name` with its first letter in upper case.
pub record JobRequest (S : Type 0) : Type 0 where
  pub name : String
  pub title : String
  pub pod_name : NamespacedName
  pub owner : ObjectMeta
  pub should_run : Bool
  pub create : Io S (Result Pod)
  pub on_completed : Pod → Io S (Bool × Option Error)

-- The triples of `done`, pod and error that `ReconcilePod` returns: no one reads the pod of the first two.
pub data PodState : Type 0 where
  waiting : PodState
  unknown : Error → PodState
  succeeded : Pod → PodState
  failed : Pod → Error → PodState

unfoldable pub state_of : Pod → PodState
state_of pod =
    if pod.phase == pod_succeeded
    then succeeded pod
    else if pod.phase == pod_failed
    then failed pod (new_error ("pod " <> pod.meta.name <> " failed"))
    else waiting

abbrev pub wrapped : String → Error → Error
wrapped m e = record e { message = m <> ": " <> e.message }

abbrev pub named : NamespacedName → Pod → Pod
named name pod = record pod {
  meta = record (pod.meta) { name = name.name; namespace = name.namespace };
}

-- `pod.Annotations[key] = value` on a map that may be nil
unfoldable pub annotate : String → String → ObjectMeta → ObjectMeta
annotate key value meta = record meta {
  annotations =
      some
        (elim (meta.annotations) [ none ↦ (key, value) ∷ [] | some a ↦ Dict.insert key value a ]);
}

-- What `ReconcileJob` adds to the pod of the request.
unfoldable pub owned_pod : OwnerKeys → ObjectMeta → Pod → Pod
unfolding annotate
owned_pod keys owner pod =
    let meta = annotate keys.owner_name owner.name pod.meta in
    record pod {
      meta =
          if keys.owner_namespace != ""
          then annotate keys.owner_namespace owner.namespace meta
          else meta;
      spec = record (pod.spec) { restart_policy = restart_never };
    }

-- The requests that `PodToRequestMapper` makes of an object.
unfoldable pub requests_of : String → OwnerKeys → ObjectMeta → List NamespacedName
requests_of namespace keys meta =
    if meta.namespace != namespace then [] else elim (meta.annotations) [
      | none ↦ []
      | some a ↦
          if value_at keys.owner_name a == ""
            || (value_at keys.owner_namespace a == "" && keys.owner_namespace != "")
          then []
          else record {
            name = value_at keys.owner_name a;
            namespace = value_at keys.owner_namespace a;
          }
            ∷ []
    ]

module _ {S : Type 0} (pods : Client S Pod) where
  -- `done` says that the object is gone, which a deletion that succeeds does not.
  unfoldable pub delete_resource : Pod → Io S (Bool × Option Error)
  delete_resource pod s =
      let (e, s') = pods.delete pod s in
      elim e [
        | none ↦ ((false, none), s')
        | some x ↦ (if is_not_found x then (true, none) else (false, some x), s')
      ]

  unfoldable pub delete_pod : NamespacedName → Io S (Bool × Option Error)
  unfolding delete_resource
  delete_pod name s =
      let (found, s') = pods.get name s in
      elim found [
        | err e ↦ (if is_not_found e then (true, none) else (false, some e), s')
        | ok pod ↦ delete_resource pod s'
      ]

  -- `Get` after a creation that found the pod there already
  unfoldable pub reload : NamespacedName → Io S PodState
  unfolding state_of
  reload name s =
      let (found, s') = pods.get name s in
      (elim found [ ok pod ↦ state_of pod | err e ↦ unknown (wrapped "reconcile pod" e) ], s')

  unfoldable pub create_pod : NamespacedName → Io S (Result Pod) → Io S PodState
  unfolding reload
  create_pod name create s =
      let (made, s') = create s in
      elim made [
        | err e ↦ (unknown e, s')
        | ok pod ↦
            let (created, s'') = pods.create (named name pod) s' in
            elim created [
              | ok _ ↦ (waiting, s'')
              | err e ↦
                  if is_already_exists e
                  then reload name s''
                  else (unknown (wrapped "reconcile pod" e), s'')
            ]
      ]

  unfoldable pub reconcile_pod : NamespacedName → Io S (Result Pod) → Io S PodState
  unfolding create_pod state_of
  reconcile_pod name create s =
      let (found, s') = pods.get name s in
      elim found [
        | ok pod ↦ (state_of pod, s')
        | err e ↦
            if is_not_found e
            then create_pod name create s'
            else (unknown (wrapped "reconcile pod" e), s')
      ]

module _ {S : Type 0} (pods : Client S Pod) (event : Recorder S ObjectMeta) (keys : OwnerKeys) where
  -- The callback that `ReconcileJob` hands to `ReconcilePod`.
  unfoldable pub create_owned : JobRequest S → Io S (Result Pod)
  unfolding owned_pod
  create_owned req s =
      let (made, s') = req.create s in
      (elim made [ err e ↦ err e | ok pod ↦ ok (owned_pod keys req.owner pod) ], s')

  -- What follows the completion of the pod. It is deleted last, or it would be created again.
  unfoldable pub complete_job : JobRequest S → Pod → Io S (Bool × Option Error)
  unfolding delete_resource
  complete_job req pod s =
      let s' =
        event req.owner event_normal (req.title <> "Completed") (req.title <> " Pod completed") s in
      let ((done, e), s'') = req.on_completed pod s' in
      elim e [
        | some x ↦ ((done, some x), s'')
        | none ↦ if done then delete_resource pods pod s'' else ((false, none), s'')
      ]

  unfoldable pub after_pod : JobRequest S → PodState × S → (Bool × Option Error) × S
  unfolding complete_job
  after_pod req (state, s) = elim state [
    | waiting ↦ ((false, none), s)
    | unknown e ↦ ((false, some (wrapped req.name e)), s)
    | failed pod e ↦ (
      (true, some (wrapped req.name e)),
      event req.owner event_warning (req.title <> "Failed") (req.title <> " Pod failed") s,
    )
    | succeeded pod ↦ complete_job req pod s
  ]

  unfoldable pub reconcile_job : JobRequest S → Io S (Bool × Option Error)
  unfolding delete_pod reconcile_pod create_owned after_pod
  reconcile_job req s =
      if not req.should_run
      then delete_pod pods req.pod_name s
      else after_pod req (reconcile_pod pods req.pod_name (create_owned req) s)
