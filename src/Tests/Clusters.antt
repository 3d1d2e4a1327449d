-- ===== src/Tests/Clusters.antt =====
-- Witnesses for the updates of a Cache in the cluster, and for the store that makes them.
use mathlib.Core.List.{Memᴰ}
use mathlib.Core.List.Memᴰ.{head, cases_cons, not-nil}
use k8storagex.Base.{
  ℕ, ◌-◌, ◌%◌, String, List, none, sym, ◌∙◌, inl, inr, Bool-cases, ◌≡◌, refl, ap, wrap, true, false,
  [], ◌∷◌, Option, some, ok, err, Error, Reason, conflict, other, new_error, arith, if◌then◌else◌,
  ◌==◌, string_eq,
}
use k8storagex.Api.Cache.{Cache, CacheStatus}
use k8storagex.Sync.Updater.Server.{Since, AreDistinct, IsOptimistic}
use k8storagex.Tests.Provisioners.{holding}
use k8storagex.Cluster.{Client, RetryOnConflict, attempt_times, Attempts-attempt_times}
use k8storagex.Layers.{Store, MountOptions}
use k8storagex.Sync.Commit.{use_image, register_volume}
use k8storagex.Sync.Volumes.{add_volume, find_volume, find_node, upsert_node, find_by_name}
use k8storagex.Sync.Updater.{register_cache_volume, update_cache, attempt, read_cache}
use k8storagex.Sync.Updater.Atomic.{Edited, register_cache_volume_atomic}
use k8storagex.Sync.Store.{unmount}
use k8storagex.Sync.Store.Laws.{error-unmount}
use k8storagex.Tests.{apart, demo, demo_cache, node, volume, busy_cache}

-- The versions of a Cache that a server stores: another client writes a second one before the first write
-- that is sent, and a third one is accepted.
data Server : Type 0 where
  fresh : Server
  raced : Server
  written : CacheStatus → Server

abbrev refused : Reason → Error
refused r = record { reason = r; message = "refused" }

abbrev version : Cache → String → Cache
version c v = record c { meta = record (c.meta) { resource_version = v } }

abbrev whole_seconds : Option ℕ → Option ℕ
whole_seconds none = none
whole_seconds (some t) = some (t - t % 1000000000)

version_of : {x y : Cache} → x ≡ y → x.meta.resource_version ≡ y.meta.resource_version
version_of e = ap (λ (c : Cache). c.meta.resource_version) e

-- The server keeps the last use to the second.
abbrev kept : CacheStatus → CacheStatus
kept status = record status { last_used = whole_seconds status.last_used }

module _ (first : Cache) where
  abbrev second : Cache
  second = version (record first { status = record (first.status) { image = "theirs" } }) "2"

  abbrev third : CacheStatus → Cache
  third status = version (record second { status = kept status }) "3"

  abbrev history : Server → List Cache
  history fresh = version first "1" ∷ []
  history raced = second ∷ version first "1" ∷ []
  history (written status) = third status ∷ second ∷ version first "1" ∷ []

  abbrev newest : Server → Cache
  newest fresh = version first "1"
  newest raced = second
  newest (written status) = third status

  abbrev server : Client Server Cache
  server = record {
    get = λ _ s. (ok (newest s), s);
    create = λ _ s. (err (refused other), s);
    update = λ _ s. (err (refused other), s);
    update_status = λ c s. elim s [
      | fresh ↦ (err (refused conflict), raced)
      | raced ↦
          if c.meta.resource_version == "2"
          then (ok (third c.status), written c.status)
          else (err (refused conflict), raced)
      | written status ↦ (err (refused other), written status)
    ];
    delete = λ _ s. (some (refused other), s);
  }

  newest-stored : (s : Server) → Memᴰ (newest s) (history s)
  newest-stored fresh = head refl
  newest-stored raced = head refl
  newest-stored (written status) = head refl

  raced-AreDistinct : AreDistinct (history raced)
  unfolding string_eq
  raced-AreDistinct = (
    λ y m e. elim (cases_cons m) [
      | inl here ↦ apart "1" "2" refl (sym (version_of here) ∙ e)
      | inr below ↦ absurd (not-nil below)
    ],
    (λ y m. absurd (not-nil m), tt),
  )

  history-AreDistinct : (s : Server) → AreDistinct (history s)
  unfolding string_eq
  history-AreDistinct fresh = (λ y m. absurd (not-nil m), tt)
  history-AreDistinct raced = raced-AreDistinct
  history-AreDistinct (written status) = (
    λ y m e. elim (cases_cons m) [
      | inl here ↦ apart "2" "3" refl (sym (version_of here) ∙ e)
      | inr below ↦ elim (cases_cons below) [
        | inl here ↦ apart "1" "3" refl (sym (version_of here) ∙ e)
        | inr lower ↦ absurd (not-nil lower)
      ]
    ],
    raced-AreDistinct,
  )

  update_status-Since :
      (old : List Cache) (c : Cache) (s : Server)
      → Since old (history s)
      → Since old (history (server.update_status c s).1)
  update_status-Since old c fresh (more, e) = (second ∷ more, ap (λ l. second ∷ l) e)
  update_status-Since old c raced (more, e) = elim (Bool-cases (c.meta.resource_version == "2")) [
    | inl b ↦ simp b (third c.status ∷ more, ap (λ l. third c.status ∷ l) e)
    | inr b ↦ simp b (more, e)
  ]
  update_status-Since old c (written status) h = h

  -- Only the version "2" is accepted, and only while it is the newest.
  server-status_written :
      (c d : Cache) (s s' : Server)
      → server.update_status c s ≡ (ok d, s')
      → (s ≡ raced)
        × (c.meta.resource_version ≡ "2")
        × (d ≡ third c.status)
        × (s' ≡ written c.status)
  server-status_written c d fresh s' h = absurd (ground (arith, h))
  server-status_written c d raced s' h = elim (Bool-cases (c.meta.resource_version == "2")) [
    | inl b ↦ (refl, ground (arith, b), ground (arith, b, h), ground (arith, b, h))
    | inr b ↦ absurd (ground (arith, b, h))
  ]
  server-status_written c d (written status) s' h = absurd (ground (arith, h))

  server-IsOptimistic : IsOptimistic server demo history kept
  server-IsOptimistic = record {
    grows = λ old. record {
      get = λ _ _ h. h;
      create = λ _ _ h. h;
      update_status = update_status-Since old;
    };
    distinct = history-AreDistinct;
    get_stored = λ s s' c h.
        let now : c ≡ newest s = ground (arith, h) in
        let same : s' ≡ s = ground (arith, h) in rw (now, same) (newest-stored s);
    status_written = λ c d s s' h.
        let (was, current, stored, now) = server-status_written c d s s' h in
        (
          second,
          [],
          version first "1" ∷ [],
          ap history now ∙ ap (λ x. x ∷ second ∷ version first "1" ∷ []) (sym stored),
          ([], ap history (sym was)),
          sym current,
          ap (λ (x : Cache). x.status) stored,
        );
  }

abbrev retry : RetryOnConflict
retry = record { call = λ T. attempt_times 10; attempts = λ T. Attempts-attempt_times 10 }

register_cache_volume_atomic_example :
    Edited
      (server busy_cache)
      demo
      (history busy_cache)
      kept
      (register_volume 9 "n1" "v9" "base" true)
      "theirs"
      fresh
      (written (register_volume 9 "n1" "v9" "base" true (second busy_cache)).0.status)
unfolding register_cache_volume update_cache attempt read_cache attempt_times wrap register_volume
    use_image string_eq add_volume find_volume find_node upsert_node find_by_name
register_cache_volume_atomic_example =
    register_cache_volume_atomic (server busy_cache) demo retry (history busy_cache) kept
      (server-IsOptimistic busy_cache) 9 "n1" "v9" "base" "theirs" true fresh _ refl

-- A cache in which all volumes are being committed, so that a commit is granted.
abbrev committing_cache : Cache
committing_cache =
    demo_cache 1 (node "n1" (record (volume "v1" 1) { commit_start_time = some 1 } ∷ []) ∷ [])

abbrev options : MountOptions
options = record {
  image = "base";
  container_name = "v9";
  ext_mount_dir = "/mnt";
  commit = true;
  cache_name = "demo";
  cache_namespace = "default";
}

-- A store whose calls fail.
abbrev broken : Store Unit
broken = record {
  mount = λ _ s. (("/mnt", some (new_error "no space")), s);
  unmount =
      λ _ s. (record { image_id = ""; new_image = false; error = some (new_error "busy") }, s);
}

error-unmount_example :
    (unmount (holding (some busy_cache)) retry broken "n1" 9 options (tt {0})).0
    ≡ record { image_id = ""; new_image = false; error = none }
unfolding string_eq
error-unmount_example =
    error-unmount (holding (some busy_cache)) retry broken "n1" 9 options (apart "demo" "" refl)
      (apart "default" "" refl) tt
      (record { read = λ _ _. (busy_cache, refl); accepts = λ c _. (c, refl) })
