-- ===== src/Sync/Store/Laws.antt =====
-- What a caller of the synchronized store sees of errors.
use k8storagex.Base.{
  false, Bool, Option, Io, ok, sym, ap, ◌∙◌, ℕ, ◌≡◌, ◌≢◌, String, true, none, some, Error, wrap,
  arith, string_eq,
}
use k8storagex.Api.Cache.{Cache}
use k8storagex.Api.Meta.{NamespacedName}
use k8storagex.Cluster.{Client, RetryOnConflict, Attempts, last, again}
use k8storagex.Sync.Commit.{unregister_volume}
use k8storagex.Layers.{Store, MountOptions}
use k8storagex.Sync.Updater.{
  register_cache_volume, prepare_cache_commit, unregister_cache_volume, attempt, read_cache,
  update_cache,
}
use k8storagex.Sync.Store.{cache_of, mount, unmount, or_sync_error}

-- The server answers each read and each write of the status of a Cache without an error.
pub record IsHealthy {S : Type 0} (client : Client S Cache) : Type 0 where
  pub read : (name : NamespacedName) (s : S) → (c : Cache) × ((client.get name s).0 ≡ ok c)
  pub accepts : (c : Cache) (s : S) → (d : Cache) × ((client.update_status c s).0 ≡ ok d)

module _ {S : Type 0} (client : Client S Cache) (healthy : IsHealthy client) where
  attempt-fine :
      {B : Type 0} (name : NamespacedName) (create : Bool) (modify : Cache → Cache × B) (t : B × S)
      → (attempt client name create modify t).0 ≡ none
  unfolding attempt read_cache
  attempt-fine name create modify (b, s) =
      let (c, r) = healthy.read name s in
      let (d, w) = healthy.accepts (modify c).0 (client.get name s).1 in ground (arith, r, w)

  Attempts-fine :
      {T : Type 0} {m : Io T (Option Error)} {t : T} {o : Option Error × T}
      → ((u : T) → (m u).0 ≡ none)
      → Attempts m t o
      → o.0 ≡ none
  Attempts-fine fine (last {t = t} e) = sym (ap (λ (o : Option Error × _). o.0) e) ∙ fine t
  Attempts-fine fine (again {t = t} e c rest) = Attempts-fine fine rest

  unregister-fine :
      (retry : RetryOnConflict) (now : ℕ) (name : NamespacedName) (node volume : String)
      (failure : Option Error) (s : S)
      → (unregister_cache_volume client retry now name node volume failure s).0 ≡ none
  unfolding unregister_cache_volume update_cache
  unregister-fine retry now name node volume failure s =
      let edit : Cache → Cache × Unit {0} =
        λ c. (unregister_volume now node volume failure c, tt) in
      let fine : (update_cache client retry name false edit (tt {0}) s).0 ≡ none =
        Attempts-fine (attempt-fine name false edit)
          (retry.attempts _ (attempt client name false edit) (tt {0}, s)) in
      ground (arith, fine)

module _ {S : Type 0} (client : Client S Cache) (retry : RetryOnConflict) (store : Store S)
    (node : String) (now : ℕ) (opts : MountOptions) (named : opts.cache_name ≢ "")
    (namespaced : opts.cache_namespace ≢ "") where
  -- While the server answers each read and each write of the status of a Cache, and the options have the
  -- Cache's name and namespace, `Unmount` reports no error, whatever becomes of the unmounting, the commit and the push of the
  -- store that it wraps: its result is that of the store without the error.
  pub error-unmount :
      (s : S)
      → IsHealthy client
      → let (_, _, s1) =
          prepare_cache_commit client retry now (cache_of opts) node opts.container_name s in
        (unmount client retry store node now opts s).0
        ≡ record (store.unmount opts s1).0 { error = none }
  unfolding unmount
  error-unmount s healthy =
      let (_, sync_error, s1) =
        prepare_cache_commit client retry now (cache_of opts) node opts.container_name s in
      let (result, s2) = store.unmount opts s1 in
      let fine =
        unregister-fine client healthy retry now (cache_of opts) node opts.container_name
          (wrap "unmount" (or_sync_error result.error sync_error)) s2 in
      ground (arith, fine)

  -- A mount that fails after its volume was registered unregisters it, and hands on the store's error.
  mount_failed :
      (s s1 s2 : S) (image dir : String) (e : Error)
      → register_cache_volume client retry now
          (cache_of opts)
          node
          opts.container_name
          opts.image
          true
          s
        ≡ (image, none, s1)
      → store.mount (record opts { image = image }) s1 ≡ ((dir, some e), s2)
      → mount client retry store node now opts s ≡ (
        (dir, some e),
        (unregister_cache_volume client retry now
            (cache_of opts)
            node
            opts.container_name
            (some e)
            s2).1,
      )
  unfolding mount
  mount_failed s s1 s2 image dir e registered failed = ground arith
