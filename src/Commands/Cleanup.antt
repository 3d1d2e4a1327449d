-- ===== src/Commands/Cleanup.antt =====
-- cmd/layerfs/mount.go, over the store that it opens: what a failed command leaves on the node.
use k8storagex.Base.{
  refl, ℕ, ◌≡◌, ◌⊎◌, String, Bool, false, Option, none, some, List, err, Error, inl, inr,
  Option-cases, Result-cases, string_eq, arith,
}
use k8storagex.Api.Cache.{Cache}
use k8storagex.Cluster.{Client, RetryOnConflict}
use k8storagex.Library.{Library}
use k8storagex.Storage.{Storage}
use k8storagex.Layers.{MountOptions, Store}
use k8storagex.Layers.Builders.{Host}
use k8storagex.Layers.Mount.Held.{Tracks, Cleans}
use k8storagex.Layers.Mount.Laws.{mount-Leaves}
use k8storagex.Layers.Unmount.{layer_store}
use k8storagex.Sync.Updater.Keeps.{ClientKeeps}
use k8storagex.Sync.Store as Sync
use k8storagex.Sync.Store.Cleanup.{synchronized-Cleans}
use k8storagex.Commands.{
  Flags, SystemContext, Platform, apply_defaults, with_args, new_store, mount_and_chmod,
  run_mount_cmd,
}
use k8storagex.Commands.Laws.{PlatformKeeps, new_store-Opened}

module _ {S : Type 0} (platform : Platform S) (Held : Bool → Option String → S → Type 0) where
  mount_and_chmod_failed :
      (flags : Flags) (store : Store S) (o : MountOptions) (s : S) (e : Error)
      → Cleans Held o.ext_mount_dir store
      → Held false none s
      → (mount_and_chmod platform flags store o s).0 ≡ err e
      → Held false none (mount_and_chmod platform flags store o s).1
        ⊎ ((dir : String) × (t : S) × ((platform.chmod dir flags.mode t).0 ≡ some e))
  unfolding mount_and_chmod
  mount_and_chmod_failed flags store o s e cleans h failed =
      let dir = (store.mount o s).0.0 in
      let s1 = (store.mount o s).1 in
      let h1 = cleans o s refl h in
      elim (Option-cases (store.mount o s).0.1) [
        | inr (x, m) ↦ inl (simp (m, mount_and_chmod) (simp m at h1))
        | inl m ↦ elim (Option-cases (platform.chmod dir flags.mode s1).0) [
          | inl c ↦ absurd (ground (arith, m, c, failed))
          | inr (x, c) ↦ inr (dir, s1, ground (arith, m, c, failed))
        ]
      ]

module _ {S Ref Name : Type 0} (platform : Platform S) (lib : Library) (storage : Storage S Ref)
    (host : SystemContext → Host S Ref Name) (client : Client S Cache) (retry : RetryOnConflict)
    (now : ℕ) where
  abbrev pub local_store : SystemContext → Store S
  local_store context = layer_store lib storage (host context)

  abbrev pub cluster_store : String → Store S → Store S
  cluster_store node store = Sync.synchronized client retry store node now

  -- Where `Held` follows the calls of every host that may be opened, the calls of the platform and of the cluster
  -- keep it as it is, and nothing is held at first: when the mount command fails, it leaves neither a directory nor a container that it made and did not
  -- ask the system to remove, with or without the cluster, unless the last step, `Chmod`, is what failed.
  pub run_mount_cmd_failed :
      (Held : Bool → Option String → S → Type 0) (flags : Flags) (args : List String)
      (o : MountOptions) (s : S) (e : Error)
      → ((context : SystemContext)
          → Tracks (host context) (apply_defaults flags (with_args args o)).ext_mount_dir Held)
      → PlatformKeeps platform (Held false none)
      → ClientKeeps client (Held false none)
      → Held false none s
      → (run_mount_cmd platform local_store cluster_store flags args o s).0 ≡ err e
      → Held false none (run_mount_cmd platform local_store cluster_store flags args o s).1
        ⊎ ((dir : String) × (t : S) × ((platform.chmod dir flags.mode t).0 ≡ some e))
  unfolding run_mount_cmd
  run_mount_cmd_failed Held flags args o s e tracks keeps client_keeps h failed =
      let options = apply_defaults flags (with_args args o) in
      let dir = options.ext_mount_dir in
      let call = new_store platform local_store cluster_store flags s in
      let opened =
        new_store-Opened platform local_store cluster_store (Held false none) keeps
          (Cleans Held dir)
          (λ context. mount-Leaves (host context) Held dir (tracks context) lib storage)
          (λ node store cleans.
            synchronized-Cleans Held client retry client_keeps store dir cleans node now)
          flags s h in
      elim (Result-cases call.0) [
        | inr (x, r) ↦ inl (simp (r, run_mount_cmd) (simp r at opened))
        | inl (store, r) ↦
            let (h1, cleans) : Held false none call.1 × Cleans Held dir store = simp r at opened in
            let result = mount_and_chmod platform flags store options call.1 in
            elim (mount_and_chmod_failed platform Held flags store options call.1 e cleans h1
              (ground (arith, r, failed))) [
                | inl h2 ↦ inl (simp (r, run_mount_cmd) (keeps.free result.1 h2))
                | inr late ↦ inr late
              ]
      ]
