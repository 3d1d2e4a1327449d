-- ===== src/Tests/Caches.antt =====
-- Witnesses for the commit lock of a Cache and its histories.
use k8storagex.Base.{
  ◌≡◌, refl, ◌↔◌, ◌+◌, ◌≤◌, true, false, none, some, List, [], ◌∷◌, arith, length, string_eq,
}
use k8storagex.Sync.Volumes.{find_volume, find_node, find_by_name}
use k8storagex.Sync.Volumes.View.{added}
use k8storagex.Sync.Commit.{register_volume, prepare_commit, unregister_volume, use_image}
use k8storagex.Sync.Commit.View.{Drops}
use k8storagex.Sync.Commit.Permission.{MayCommit, prepare_commit-eq-true}
use k8storagex.Sync.Commit.Refusal.{prepare_commit_refused}
use k8storagex.Sync.Lifecycle.{
  find_volume-register_volume, find_volume-unregister_volume, unregister_volume-register_volume,
}
use k8storagex.Sync.History.{Edit, register, prepare, unregister, run}
use k8storagex.Sync.History.Image.{image_sticky}
use k8storagex.Sync.History.Deadlock.{prepare_commit_idle, never_granted}
use k8storagex.Sync.History.Generation.{IsStamped, run-IsStamped}
use k8storagex.Tests.{apart, busy_cache, new_cache, volume}

abbrev edits : List Edit
edits =
    register 3 "n1" "v3" "base" true
    ∷ register 4 "n2" "v4" "other" true
    ∷ prepare 5 "n1" "v3"
    ∷ unregister 6 "n1" "v3" none
    ∷ []

prepare_commit-eq-true_example :
    ((prepare_commit 9 "n1" "v1" busy_cache).1 ≡ true) ↔ MayCommit 9 "n1" "v1" busy_cache
prepare_commit-eq-true_example = prepare_commit-eq-true 9 "n1" "v1" busy_cache

prepare_commit_idle_example : (prepare_commit 9 "n2" "v2" busy_cache).1 ≡ false
unfolding find_volume find_node string_eq find_by_name
prepare_commit_idle_example = prepare_commit_idle 9 "n2" "v2" busy_cache (volume "v2" 2) refl refl

never_granted_example : (prepare_commit 9 "n2" "v4" (run edits new_cache)).1 ≡ false
never_granted_example = never_granted new_cache edits 9 "n2" "v4" refl

prepare_commit_refused_example :
    Drops
      (find_volume "n2" "v4" (run edits new_cache).status.nodes)
      (find_volume "n2" "v4" (prepare_commit 9 "n2" "v4" (run edits new_cache)).0.status.nodes)
prepare_commit_refused_example =
    prepare_commit_refused 9 "n2" "v4" "n2" "v4" (run edits new_cache)
      (never_granted new_cache edits 9 "n2" "v4" refl)

image_sticky_example :
    (register_volume 9 "n2" "v9" "late" true
      (run edits (register_volume 2 "n1" "v1" "base" true new_cache).0)).1
    ≡ (register_volume 2 "n1" "v1" "base" true new_cache).1
unfolding register_volume use_image string_eq
image_sticky_example =
    image_sticky 2 9 "n1" "v1" "base" "n2" "v9" "late" true true new_cache edits
      (apart "base" "" refl)

new_cache-IsStamped : IsStamped new_cache
unfolding find_volume find_node
new_cache-IsStamped = record {
  bounded = λ m v w found. ground (arith, found);
  distinct = λ m v w m' v' w' found. ground (arith, found);
}

run-IsStamped_example :
    IsStamped (run edits new_cache)
    × (new_cache.status.cache_generation ≤ (run edits new_cache).status.cache_generation)
    × ((run edits new_cache).status.cache_generation
        ≤ new_cache.status.cache_generation + length edits)
run-IsStamped_example = run-IsStamped edits new_cache (ground arith) new_cache-IsStamped

find_volume-register_volume_example :
    find_volume "n1" "v9" (register_volume 9 "n1" "v9" "base" true busy_cache).0.status.nodes
    ≡ some (added 9 "v9" true busy_cache)
unfolding find_volume find_node string_eq find_by_name
find_volume-register_volume_example =
    find_volume-register_volume 9 "n1" "v9" "base" "n1" "v9" true busy_cache

find_volume-unregister_volume_example :
    find_volume "n1" "v1" (unregister_volume 9 "n1" "v1" none busy_cache).status.nodes ≡ none
unfolding string_eq
find_volume-unregister_volume_example =
    find_volume-unregister_volume 9 "n1" "v1" "n1" "v1" none busy_cache

unregister_volume-register_volume_example :
    find_volume "n2" "v2"
      (unregister_volume 10 "n1" "v9" none
        (register_volume 9 "n1" "v9" "base" true busy_cache).0).status.nodes
    ≡ find_volume "n2" "v2" busy_cache.status.nodes
unfolding find_volume find_node string_eq find_by_name
unregister_volume-register_volume_example =
    unregister_volume-register_volume 10 9 "n1" "v9" "base" "n2" "v2" true none busy_cache refl
