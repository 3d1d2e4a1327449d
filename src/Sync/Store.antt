-- ===== src/Sync/Store.antt =====
-- internal/ksync/syncedstore.go: a layer store that registers its volumes in the cluster.
-- The deferred functions of `Mount` and `Unmount` run last, on the named results.
pub mod Laws
pub mod Cleanup
use k8storagex.Base.{
  ℕ, String, ◌<>◌, Bool, true, false, ◌||◌, Option, none, some, Error, new_error, wrap, Io, ◌==◌,
  string_eq, if◌then◌else◌,
}
use k8storagex.Api.Meta.{NamespacedName}
use k8storagex.Api.Cache.{Cache}
use k8storagex.Cluster.{Client, RetryOnConflict}
use k8storagex.Layers.{Store, MountOptions, Unmounted}
use k8storagex.Sync.Updater.{register_cache_volume, prepare_cache_commit, unregister_cache_volume}

abbrev pub no_cache_name : Error
no_cache_name = new_error "no cache name or namespace provided"

abbrev pub cache_of : MountOptions → NamespacedName
cache_of opts = record { name = opts.cache_name; namespace = opts.cache_namespace }

-- `err`, after `syncErr` has taken the place of a `nil`.
abbrev pub or_sync_error : Option Error → Option Error → Option Error
or_sync_error none sync_error = sync_error
or_sync_error (some e) sync_error = some e

-- `now` is the time, one reading for each call.
module _ {S : Type 0} (client : Client S Cache) (retry : RetryOnConflict) (store : Store S)
    (node : String) (now : ℕ) where
  -- `opts` with the image that the cluster holds.
  mount_registered : MountOptions → Io S (String × Option Error)
  mount_registered opts s =
      let ((dir, e), s') = store.mount opts s in
      elim e [
        | none ↦ ((dir, none), s')
        | some x ↦
            let (_, s'') =
              unregister_cache_volume client retry now (cache_of opts) node opts.container_name
                (some x) s' in
            ((dir, some x), s'')
      ]

  unfoldable pub mount : MountOptions → Io S (String × Option Error)
  unfolding mount_registered
  mount opts s =
      if opts.cache_name == "" || opts.cache_namespace == ""
      then (("", some no_cache_name), s)
      else let (image, e, s') =
          register_cache_volume client retry now (cache_of opts) node opts.container_name opts.image
            true s in
        elim e [
          | some x ↦ (("", some x), s')
          | none ↦ mount_registered (record opts { image = image }) s'
        ]

  -- The deferred function overwrites `err` by what unregistering returns.
  unfoldable pub unmount : MountOptions → Io S Unmounted
  unmount opts s =
      if opts.cache_name == "" || opts.cache_namespace == ""
      then (record { image_id = ""; new_image = false; error = some no_cache_name }, s)
      else let (_, sync_error, s1) =
          prepare_cache_commit client retry now (cache_of opts) node opts.container_name s in
        let (result, s2) = store.unmount opts s1 in
        let failure = wrap "unmount" (or_sync_error result.error sync_error) in
        let (e, s3) =
          unregister_cache_volume client retry now (cache_of opts) node opts.container_name failure
            s2 in
        (record { image_id = result.image_id; new_image = result.new_image; error = e }, s3)

  abbrev pub synchronized : Store S
  synchronized = record { mount = mount; unmount = unmount }
