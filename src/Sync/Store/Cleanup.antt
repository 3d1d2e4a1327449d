-- ===== src/Sync/Store/Cleanup.antt =====
-- internal/ksync/syncedstore.go: what a mount that is registered in the cluster leaves on the node.
use k8storagex.Base.{
  ◌≡◌, ℕ, String, Bool, true, false, ◌||◌, not, Option, none, some, inl, inr, Bool-cases,
  Option-cases, ◌==◌, string_eq,
}
use k8storagex.Api.Cache.{Cache}
use k8storagex.Cluster.{Client, RetryOnConflict}
use k8storagex.Layers.{MountOptions, Store}
use k8storagex.Layers.Mount.Held.{Leaves, Cleans}
use k8storagex.Sync.Updater.{register_cache_volume}
use k8storagex.Sync.Updater.Keeps.{
  ClientKeeps, register_cache_volume-Inv, unregister_cache_volume-Inv,
}
use k8storagex.Sync.Store.{cache_of, mount_registered, mount, synchronized}

module _ {S : Type 0} (Held : Bool → Option String → S → Type 0) (client : Client S Cache)
    (retry : RetryOnConflict) (client_keeps : ClientKeeps client (Held false none))
    (store : Store S) (dir : String) (cleans : Cleans Held dir store) (node : String)
    (now : ℕ) where
  mount_registered-Leaves :
      (opts : MountOptions) (s : S)
      → opts.ext_mount_dir ≡ dir
      → Held false none s
      → Leaves Held
          (not (opts.ext_mount_dir == ""))
          (mount_registered client retry store node now opts s).0.1
          (mount_registered client retry store node now opts s).1
  unfolding mount_registered
  mount_registered-Leaves opts s same h =
      let (_, s1) = store.mount opts s in
      let h1 = cleans opts s same h in
      elim (Option-cases (store.mount opts s).0.1) [
        | inl n ↦ simp (n, mount_registered) (simp n at h1)
        | inr (e, n) ↦
            simp (n, mount_registered)
              (unregister_cache_volume-Inv client (Held false none) client_keeps retry now
                (cache_of opts) node opts.container_name (some e) s1 (simp n at h1))
      ]

  -- The synchronized store keeps the contract of the store that it wraps.
  pub synchronized-Cleans : Cleans Held dir (synchronized client retry store node now)
  unfolding mount
  synchronized-Cleans opts s same h =
      let image_of =
        register_cache_volume client retry now (cache_of opts) node opts.container_name opts.image
          true s in
      let h1 =
        register_cache_volume-Inv client (Held false none) client_keeps retry now (cache_of opts)
          node opts.container_name opts.image true s h in
      elim (Bool-cases (opts.cache_name == "" || opts.cache_namespace == "")) [
        | inl n ↦ simp (n, mount) h
        | inr n ↦ elim (Option-cases image_of.1) [
          | inr (e, r) ↦ simp (n, r, mount) h1
          | inl r ↦
              simp (n, r, mount)
                (mount_registered-Leaves (record opts { image = image_of.0 }) image_of.2 same h1)
        ]
      ]
