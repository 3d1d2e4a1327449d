-- ===== src/Controllers/Cache/Laws.antt =====
-- What the failure of a Cache's pod comes to.
use k8storagex.Base.{
  List, Option, ℕ, ◌≡◌, refl, String, true, false, none, Result, ok, Error, new_error, Io, ◌<>◌,
  arith, Bool-cases, inl, inr, ◌==◌, string_eq,
}
use k8storagex.Api.Cache.{Cache, condition_storage_reset, cache_finalizer}
use k8storagex.Api.Core.{Pod, pod_failed, pod_succeeded}
use k8storagex.Api.Meta.{NamespacedName, condition_false}
use k8storagex.Cluster.{Client}
use k8storagex.Utils.Strings.{has_string, remove_string, has_string-remove_string}
use k8storagex.Utils.Jobs.{state_of, reconcile_pod, failed}
use k8storagex.Controllers.Cache.{
  beside, is_reset, write_status, set_cache_condition, reset_failed, free_storage, finalize_cache,
  create_untagger,
}

failed_not_succeeded : (pod_failed == pod_succeeded) ≡ false
unfolding string_eq
failed_not_succeeded = refl

-- What the API server documents of a resource with the status subresource: a write of the status leaves the
-- metadata as it is, here the finalizers `held`, and answers with the object that is stored; all writes are
-- accepted.
abbrev pub AnswersStatus : {S : Type 0} → Client S Cache → List String → Type 0
AnswersStatus {S} caches held =
    (c : Cache) (s : S)
    → (d : Cache) × ((caches.update_status c s).0 ≡ ok d)
      × (d.meta.finalizers ≡ held)
      × (c.status.last_reset ≡ none → d.status.last_reset ≡ none)

removed_lem :
    (finalizers held : List String)
    → finalizers ≡ held
    → has_string held cache_finalizer ≡ true
    → ((remove_string finalizers cache_finalizer).1 ≡ true)
      × (has_string (remove_string finalizers cache_finalizer).0 cache_finalizer ≡ false)
removed_lem finalizers held same has =
    let (gone, cut) = has_string-remove_string finalizers cache_finalizer cache_finalizer in
    (ground (arith, same, has, cut), ground (arith, gone))

module _ {S : Type 0} (manager_namespace : String) (caches : Client S Cache) (pods : Client S Pod)
    (now : ℕ) (held : List String) (answers : AnswersStatus caches held) where
  -- What the answer to a write of the status shows.
  abbrev Written : Cache → Option Error × (Cache × S) → Type 0
  Written c out =
      (out.0 ≡ none)
      × (out.1.0.meta.finalizers ≡ held)
      × (c.status.last_reset ≡ none → out.1.0.status.last_reset ≡ none)

  write_status-Written : (c : Cache) (s : S) → Written c (write_status caches (c, s))
  unfolding write_status
  write_status-Written c s =
      let (d, r, same, fresh) = answers c s in
      (ground (arith, r), ground (arith, r, same), λ n. ground (arith, r, fresh n))

  -- What is left after a pod that failed.
  abbrev IsLeft : Option Error × (Cache × S) → Type 0
  IsLeft out =
      (out.0 ≡ none) × (out.1.0.meta.finalizers ≡ held) × (out.1.0.status.last_reset ≡ none)

  reset_failed_ended :
      (x : Error) (c : Cache) (s : S)
      → c.meta.finalizers ≡ held
      → c.status.last_reset ≡ none
      → IsLeft (reset_failed manager_namespace caches pods now true x (c, s))
  unfolding reset_failed set_cache_condition
  reset_failed_ended x c s same fresh =
      let set =
        set_cache_condition now condition_storage_reset condition_false "PendingImageDeletion"
          x.message c in
      let (fine, kept, still) = write_status-Written set.0 s in
      elim (Bool-cases set.1) [
        | inl e ↦ (
          ground (arith, e, fine),
          ground (arith, e, fine, kept),
          ground (arith, e, fine, still fresh),
        )
        | inr e ↦ (ground (arith, e), ground (arith, e, same), ground (arith, e, fresh))
      ]

  reconcile_pod_failed :
      (name : NamespacedName) (create : Io (Cache × S) (Result Pod)) (c : Cache) (s : S) (pod : Pod)
      → (pods.get name s).0 ≡ ok pod
      → pod.phase ≡ pod_failed
      → reconcile_pod (beside pods) name create (c, s)
        ≡ (failed pod (new_error ("pod " <> pod.meta.name <> " failed")), (c, (pods.get name s).1))
  unfolding reconcile_pod state_of
  reconcile_pod_failed name create c s pod found ended =
      ground (arith, found, ended, failed_not_succeeded)

  free_storage_failed :
      (c : Cache) (s : S) (pod : Pod)
      → c.meta.finalizers ≡ held
      → c.status.last_reset ≡ none
      → (pods.get (record { name = c.meta.name; namespace = manager_namespace }) s).0 ≡ ok pod
      → pod.phase ≡ pod_failed
      → IsLeft (free_storage manager_namespace caches pods now (c, s))
  unfolding free_storage is_reset
  free_storage_failed c s pod same fresh found ended =
      let name : NamespacedName = record { name = c.meta.name; namespace = manager_namespace } in
      let x = new_error ("pod " <> pod.meta.name <> " failed") in
      let (fine, kept, still) = reset_failed_ended x c (pods.get name s).1 same fresh in
      let call = reconcile_pod_failed name (create_untagger caches now) c s pod found ended in
      (
        ground (arith, fresh, call, fine),
        ground (arith, fresh, call, kept),
        ground (arith, fresh, call, still),
      )

  -- When the pod that is to clear a Cache has failed, the Cache has the controller's finalizer and no last
  -- reset, and the server accepts every write of the status, leaves the finalizers as they are and keeps a
  -- status without a last reset without one, then the run ends without an error, and its last call writes the
  -- status of a Cache that has no last reset and from which the finalizer is taken: its removal is asked for
  -- although nothing was cleared. The answer of the server still has the finalizer.
  pub finalize_cache_failed :
      (c : Cache) (s : S) (pod : Pod)
      → c.meta.finalizers ≡ held
      → has_string held cache_finalizer ≡ true
      → c.status.last_reset ≡ none
      → (pods.get (record { name = c.meta.name; namespace = manager_namespace }) s).0 ≡ ok pod
      → pod.phase ≡ pod_failed
      → let out = finalize_cache manager_namespace caches pods now (c, s) in
        (out.0 ≡ none)
        × ((d : Cache) × (t : S) × (out ≡ write_status caches (d, t))
            × (has_string d.meta.finalizers cache_finalizer ≡ false)
            × (d.status.last_reset ≡ none))
        × (has_string out.1.0.meta.finalizers cache_finalizer ≡ true)
  unfolding finalize_cache
  finalize_cache_failed c s pod same has fresh found ended =
      let (fine, kept, still) = free_storage_failed c s pod same fresh found ended in
      let out = free_storage manager_namespace caches pods now (c, s) in
      let d : Cache = out.1.0 in
      let removed = remove_string d.meta.finalizers cache_finalizer in
      let freed : Cache = record d { meta = record (d.meta) { finalizers = removed.0 } } in
      let (cut, gone) = removed_lem d.meta.finalizers held kept has in
      let call : finalize_cache manager_namespace caches pods now (c, s)
          ≡ write_status caches (freed, out.1.1) =
        ground (arith, fine, cut) in
      let (written, back, _) = write_status-Written freed out.1.1 in
      (
        ground (arith, call, written),
        (freed, out.1.1, call, gone, still),
        ground (arith, call, back, has),
      )
