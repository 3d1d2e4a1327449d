-- ===== src/Controllers/Cache.antt =====
-- internal/controllers/cache_controller.go: cleans up behind a Cache that is deleted. The Cache that a run
-- works on is changed in place, by closures too, and is passed along beside the world.
pub mod Laws
use k8storagex.Base.{
  ℕ, String, Bool, true, false, ◌||◌, Option, none, some, List, [], ◌∷◌, Result, ok, err, Error,
  new_error, is_not_found, Io, increment, ◌==◌, ◌!=◌, string_eq, nat_eq, if◌then◌else◌,
}
use k8storagex.Api.Meta.{NamespacedName, ObjectMeta, Condition, condition_true, condition_false}
use k8storagex.Api.Core.{Pod, Container, restart_never}
use k8storagex.Api.Cache.{
  Cache, cache_phase_ready, cache_phase_reject, cache_finalizer, condition_storage_reset,
  condition_pods_cleared,
}
use k8storagex.Cluster.{Client}
use k8storagex.Utils.Conditions.{get_condition, set_condition}
use k8storagex.Utils.Strings.{add_string, remove_string}
use k8storagex.Utils.Jobs.{PodState, waiting, unknown, succeeded, failed, reconcile_pod}

abbrev pub ann_cache_name : String
ann_cache_name = "k8storagex.mgoltzsche.github.com/cache-name"

abbrev pub ann_cache_namespace : String
ann_cache_namespace = "k8storagex.mgoltzsche.github.com/cache-namespace"

-- `utils.SetCondition` on the Cache's conditions
unfoldable pub set_cache_condition : ℕ → String → String → String → String → Cache → Cache × Bool
set_cache_condition now type status reason message c =
    let (conditions, changed) = set_condition now c.status.conditions (record {
      type = type;
      status = status;
      observed_generation = c.meta.generation;
      last_transition_time = 0;
      reason = reason;
      message = message;
    }) in
    (record c { status = record (c.status) { conditions = conditions } }, changed)

abbrev pub set_pods_cleared_condition : ℕ → String → String → String → Cache → Cache × Bool
set_pods_cleared_condition now = set_cache_condition now condition_pods_cleared

abbrev pub pods_cleared : Cache → Bool
pods_cleared c = elim (get_condition c.status.conditions condition_pods_cleared) [
  | none ↦ false
  | some d ↦ d.status == condition_true
]

unfoldable pub is_reset : Cache → Bool
is_reset c = elim (c.status.last_reset) [
  | none ↦ false
  | some r ↦ r.cache_generation == c.status.cache_generation
]

abbrev pub untagger : Container
untagger = record {
  name = "image-untagger";
  image = "TODO";
  command = [];
  args = "untag image within registry" ∷ [];
  env = [];
  volume_mounts = [];
}

abbrev pub untag_pod : Cache → Pod
untag_pod c = record {
  meta = record {
    name = "";
    namespace = "";
    uid = "";
    resource_version = "";
    generation = 0;
    deletion_timestamp = none;
    finalizers = [];
    annotations =
        some ((ann_cache_name, c.meta.name) ∷ (ann_cache_namespace, c.meta.namespace) ∷ []);
  };
  spec = record {
    containers = untagger ∷ [];
    volumes = [];
    restart_policy = restart_never;
    node_name = "";
  };
  phase = "";
}

-- The edit that locks the Cache.
abbrev pub locked : Cache → Cache
locked c = record c {
  status = record (c.status) {
    cache_generation = increment c.status.cache_generation;
    phase = cache_phase_reject;
  };
}

-- The edit after the pod has returned no error.
abbrev pub unlocked : ℕ → Cache → Cache
unlocked now c = record c {
  status = record (c.status) {
    phase = cache_phase_ready;
    last_reset = some (record { cache_generation = c.meta.generation; reset_time = now });
  };
}

-- A client of pods, in a world with the Cache beside it.
abbrev pub beside : {S A : Type 0} → Client S A → Client (Cache × S) A
beside client = record {
  get = λ name (c, s). let (r, s') = client.get name s in (r, (c, s'));
  create = λ a (c, s). let (r, s') = client.create a s in (r, (c, s'));
  update = λ a (c, s). let (r, s') = client.update a s in (r, (c, s'));
  update_status = λ a (c, s). let (r, s') = client.update_status a s in (r, (c, s'));
  delete = λ a (c, s). let (r, s') = client.delete a s in (r, (c, s'));
}

module _ {S : Type 0} (caches : Client S Cache) where
  -- `Status().Update` writes what the server stores into its argument.
  unfoldable pub write_status : Io (Cache × S) (Option Error)
  write_status (c, s) =
      let (r, s') = caches.update_status c s in
      elim r [ ok d ↦ (none, (d, s')) | err e ↦ (some e, (c, s')) ]

  -- The closure that makes the pod, and locks the Cache unless it is locked.
  unfoldable pub create_untagger : ℕ → Io (Cache × S) (Result Pod)
  create_untagger now (c, s) =
      let pod = untag_pod c in
      let (c', changed) =
        set_pods_cleared_condition now condition_false "PodDeletionPending"
          "new reset pod will be removed on success" c in
      let (e, (d, s')) = write_status (locked c', s) in
      let (found, s'') =
        caches.get (record { name = d.meta.name; namespace = d.meta.namespace }) s' in
      if c'.status.phase != cache_phase_reject || changed
      then elim e [
        | some x ↦ (err x, (d, s'))
        | none ↦ elim found [ err x ↦ (err x, (d, s'')) | ok current ↦ (ok pod, (current, s'')) ]
      ]
      else (ok pod, (c', s))

module _ {S : Type 0} (manager_namespace : String) (pods : Client S Pod) where
  unfoldable pub delete_cache_pod : String → Io S (Option Error)
  delete_cache_pod name s =
      let (found, s') = pods.get (record { name = name; namespace = manager_namespace }) s in
      elim found [
        | err e ↦ (if is_not_found e then none else some e, s')
        | ok pod ↦
            let (e, s'') = pods.delete pod s' in
            (elim e [ none ↦ some (new_error "pod deletion pending") | some x ↦ some x ], s'')
      ]

  -- The loop of `deletePods`: all are deleted, the first error counts.
  unfoldable pub delete_all : List String → Io S (Option Error)
  delete_all [] s = (none, s)
  delete_all (name ∷ names) s =
      let (e, s') = delete_cache_pod name s in
      let (rest, s'') = delete_all names s' in (elim e [ none ↦ rest | some x ↦ some x ], s'')

module _ {S : Type 0} (manager_namespace : String) (caches : Client S Cache) (pods : Client S Pod)
    (now : ℕ) where
  unfoldable pub delete_pods : List String → Io (Cache × S) (Option Error)
  delete_pods names (c, s) =
      let (e, s') = delete_all manager_namespace pods names s in
      let (c', changed) : Cache × Bool = elim e [
        | none ↦ set_pods_cleared_condition now condition_true "Completed" "all pods removed" c
        | some x ↦ set_pods_cleared_condition now condition_false "PodDeletionFailed" x.message c
      ] in
      let (e', t) = write_status caches (c', s') in
      if pods_cleared c
      then (none, (c, s))
      else if changed
      then (elim e [ none ↦ e' | some x ↦ some x ], t)
      else (e, (c', s'))

  -- After an error of the pod, `done` telling that the pod has ended.
  unfoldable pub reset_failed : Bool → Error → Io (Cache × S) (Option Error)
  reset_failed done x (c, s) =
      let (c', changed) =
        set_cache_condition now condition_storage_reset condition_false "PendingImageDeletion"
          x.message c in
      let (e, t) = write_status caches (c', s) in
      let answer : Option Error = if done then none else some x in
      if changed then elim e [ some y ↦ (some y, t) | none ↦ (answer, t) ] else (answer, (c', s))

  -- After no error, whether the pod has ended or not.
  unfoldable pub reset_done : String → Io (Cache × S) (Option Error)
  reset_done name (c, s) =
      let (c', _) =
        set_cache_condition now condition_storage_reset condition_true "Success"
          "Cache image has been untagged" c in
      let (e, t) = write_status caches (unlocked now c', s) in
      elim e [ some y ↦ (some y, t) | none ↦ delete_pods (name ∷ []) t ]

  unfoldable pub free_storage : Io (Cache × S) (Option Error)
  free_storage (c, s) =
      let (state, t) =
        reconcile_pod (beside pods) (record { name = c.meta.name; namespace = manager_namespace })
          (create_untagger caches now) (c, s) in
      if is_reset c then delete_pods (c.meta.name ∷ []) (c, s) else elim state [
        | waiting ↦ reset_done c.meta.name t
        | succeeded pod ↦ reset_done c.meta.name t
        | unknown e ↦ reset_failed false e t
        | failed pod e ↦ reset_failed true e t
      ]

  unfoldable pub finalize_cache : Io (Cache × S) (Option Error)
  finalize_cache t =
      let (e, (c, s)) = free_storage t in
      let (finalizers, removed) = remove_string c.meta.finalizers cache_finalizer in
      let freed : Cache = record c { meta = record (c.meta) { finalizers = finalizers } } in
      elim e [
        | some x ↦ (some x, (c, s))
        | none ↦ if removed then write_status caches (freed, s) else (none, (freed, s))
      ]

  unfoldable pub reconcile : NamespacedName → Io S (Option Error)
  reconcile name s =
      let (found, s') = caches.get name s in
      elim found [
        | err e ↦ (if is_not_found e then none else some e, s')
        | ok c ↦
            let (finalizers, added) = add_string c.meta.finalizers cache_finalizer in
            let (updated, s'') =
              caches.update (record c { meta = record (c.meta) { finalizers = finalizers } }) s' in
            let (e, t) = finalize_cache (c, s') in
            elim (c.meta.deletion_timestamp) [
              | some _ ↦ (e, t.1)
              | none ↦
                  if added then (elim updated [ ok _ ↦ none | err x ↦ some x ], s'') else (none, s')
            ]
      ]
