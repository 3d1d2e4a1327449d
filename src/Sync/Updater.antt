-- ===== src/Sync/Updater.antt =====
-- internal/ksync/sync.go: `Updater`, which reads a Cache, edits it and writes its status back, again
-- on a conflict. The variable that an edit's closure assigns (`image`, `commit`) is `B`; it is part of
-- the world that the attempts share, so the last attempt's value is the one returned.
pub mod Atomic
pub mod Keeps
pub mod Server
use k8storagex.Base.{
  ℕ, ◌≡◌, String, ◌<>◌, Bool, true, false, Option, none, some, List, [], Result, ok, err, Error,
  wrap, is_not_found, is_already_exists, Io, if◌then◌else◌,
}
use k8storagex.Api.Meta.{NamespacedName, ObjectMeta}
use k8storagex.Api.Cache.{Cache}
use k8storagex.Cluster.{Client, RetryOnConflict, error_of}
use k8storagex.Sync.Commit.{register_volume, prepare_commit, unregister_volume}

-- `var cache cacheapi.Cache`, with the name and the namespace set.
abbrev pub empty_cache : NamespacedName → Cache
empty_cache name = record {
  meta = record {
    name = name.name;
    namespace = name.namespace;
    uid = "";
    resource_version = "";
    generation = 0;
    deletion_timestamp = none;
    finalizers = [];
    annotations = none;
  };
  spec = record { read_only = false };
  status = record {
    image = "";
    cache_generation = 0;
    last_image_id = none;
    last_used = none;
    last_written = none;
    last_reset = none;
    used = 0;
    nodes = [];
    phase = "";
    conditions = [];
  };
}

module _ {S : Type 0} (client : Client S Cache) where
  -- A failed read, if the Cache is to be created: create it, and read it again.
  unfoldable pub create_cache : NamespacedName → Io S (Result Cache)
  create_cache name s =
      let (created, s') = client.create (empty_cache name) s in
      elim created [
        | ok _ ↦ client.get name s'
        | err e ↦ if is_already_exists e then client.get name s' else (err e, s')
      ]

  -- The Cache that an attempt edits.
  unfoldable pub read_cache : NamespacedName → Bool → Io S (Result Cache)
  read_cache name create s =
      let (found, s') = client.get name s in
      elim found [
        | ok c ↦ (ok c, s')
        | err e ↦
            if is_not_found e
            then if create then create_cache name s' else (err e, s')
            else (err e, s')
      ]

  -- One run of the closure that is retried.
  unfoldable pub attempt :
      {B : Type 0} → NamespacedName → Bool → (Cache → Cache × B) → Io (B × S) (Option Error)
  attempt name create modify (b, s) =
      let (found, s') = read_cache name create s in
      elim found [
        | err e ↦ (some e, (b, s'))
        | ok c ↦
            let (c', b') = modify c in
            let (written, s'') = client.update_status c' s' in (error_of written, (b', s''))
      ]

module _ {S : Type 0} (client : Client S Cache) (retry : RetryOnConflict) where
  unfoldable pub update_cache :
      {B : Type 0} → NamespacedName → Bool → (Cache → Cache × B) → B → S → Option Error × B × S
  update_cache name create modify b s =
      let (e, t) = retry.call _ (attempt client name create modify) (b, s) in (e, t.0, t.1)

  -- The image is returned beside an error too.
  unfoldable pub register_cache_volume :
      ℕ → NamespacedName → String → String → String → Bool → S → String × Option Error × S
  register_cache_volume now name node volume default_image commit s =
      let (e, image, s') =
        update_cache name true (register_volume now node volume default_image commit) "" s in
      (image, wrap "register volume in cluster" e, s')

  unfoldable pub prepare_cache_commit :
      ℕ → NamespacedName → String → String → S → Bool × Option Error × S
  prepare_cache_commit now name node volume s =
      let (r, commit, s') = update_cache name false (prepare_commit now node volume) false s in
      elim r [
        | none ↦ (commit, none, s')
        | some e ↦
            if is_not_found e
            then (false, none, s')
            else (commit, wrap "prepare cache commit" (some e), s')
      ]

  unfoldable pub unregister_cache_volume :
      ℕ → NamespacedName → String → String → Option Error → S → Option Error × S
  unregister_cache_volume now name node volume commit_error s =
      let (r, _, s') =
        update_cache name false (λ c. (unregister_volume now node volume commit_error c, tt))
          (tt {0}) s in
      elim r [
        | none ↦ (none, s')
        | some e ↦
            if is_not_found e
            then (none, s')
            else (wrap ("unregister volume " <> volume <> " from cluster") (some e), s')
      ]
