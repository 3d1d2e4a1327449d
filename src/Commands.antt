-- ===== src/Commands.antt =====
-- cmd/layerfs: the commands of the node's tool. Flags take the place of what the environment gave before.
pub mod Laws
pub mod Cleanup
use k8storagex.Base.{
  ℕ, String, ◌<>◌, Bool, true, false, ◌&&◌, Option, none, some, List, [], ◌∷◌, Result, ok, err,
  Error, new_error, Io, ◌==◌, ◌!=◌, string_eq, if◌then◌else◌,
}
use k8storagex.Utils.Jobs.{wrapped}
use k8storagex.Layers.{MountOptions, Store}
use k8storagex.Prune.{Run, finished}

pub record Flags : Type 0 where
  pub registry : String
  pub registry_username : String
  pub registry_password : String
  pub storage_root : String
  pub storage_run_root : String
  pub insecure : Bool
  pub enable_sync : Bool
  pub node_name : String
  pub mode : ℕ

-- Of `storage.StoreOptions` and `types.SystemContext` what the code reads or writes.
pub record StoreOptions : Type 0 where
  pub graph_root : String
  pub run_root : String
  pub driver_name : String
  pub driver_options : List String

pub record SystemContext : Type 0 where
  pub skip_tls_verify : Bool
  pub credentials : Option (String × String)

-- What the commands call of the system, of containers/storage and of the cluster's client.
pub record Platform (S : Type 0) : Type 0 where
  -- `storage.DefaultStoreOptions`, `storage.GetStore`, `Free`, `os.Chmod`, `filepath.Join`
  pub default_options : Io S (Result StoreOptions)
  pub get_store : StoreOptions → Io S (Option Error)
  pub free : S → S
  pub chmod : String → ℕ → Io S (Option Error)
  pub join : String → String → String
  -- `rest.InClusterConfig`, `NewDynamicRESTMapper`, `client.New`
  pub in_cluster_config : Io S (Option Error)
  pub rest_mapper : Io S (Option Error)
  pub new_client : Io S (Option Error)

unfoldable pub validate_options : MountOptions → Option Error
validate_options o =
    if o.image == "" && o.cache_name == ""
    then some (new_error "neither --cache-name nor --image specified")
    else none

unfoldable pub apply_defaults : Flags → MountOptions → MountOptions
apply_defaults flags o =
    let o' : MountOptions =
      if o.cache_namespace == "" then record o { cache_namespace = "default" } else o in
    if o'.image == "" && flags.registry != ""
    then record o' {
      image = flags.registry <> "/cache/" <> o'.cache_namespace <> ":" <> o'.cache_name;
    }
    else o'

-- `args[0]`, where there is one
unfoldable pub with_args : List String → MountOptions → MountOptions
with_args [] o = o
with_args (dir ∷ args) o = record o { ext_mount_dir = dir }

unfoldable pub store_options : (String → String → String) → Flags → StoreOptions → StoreOptions
store_options join flags o =
    let rooted : StoreOptions =
      if flags.storage_root != "" && flags.storage_root != o.graph_root
      then record o {
        graph_root = flags.storage_root;
        run_root = join flags.storage_root "runroot";
      }
      else o in
    let running : StoreOptions =
      if flags.storage_run_root != ""
      then record rooted { run_root = flags.storage_run_root }
      else rooted in
    if running.driver_name == ""
    then record running { driver_name = "overlay"; driver_options = "overlay.mountopt=nodev" ∷ [] }
    else running

unfoldable pub system_context : Flags → SystemContext
system_context flags = record {
  skip_tls_verify = flags.insecure;
  credentials =
      if flags.registry_username != "" && flags.registry_password != ""
      then some (flags.registry_username, flags.registry_password)
      else none;
}

module _ {S : Type 0} (platform : Platform S) where
  -- From `Mount` on, without the deferred `Free`. The directory is printed.
  unfoldable pub mount_and_chmod : Flags → Store S → MountOptions → Io S (Result String)
  mount_and_chmod flags store o s =
      let ((dir, failed), s1) = store.mount o s in
      elim failed [
        | some e ↦ (err e, s1)
        | none ↦
            let (changed, s2) = platform.chmod dir flags.mode s1 in
            elim changed [ some e ↦ (err e, s2) | none ↦ (ok dir, s2) ]
      ]

-- `local` is `layerfs.New`, and `synchronized` is `ksync.Synchronized` for the node's name.
module _ {S : Type 0} (platform : Platform S) (local : SystemContext → Store S)
    (synchronized : String → Store S → Store S) where
  unfoldable pub to_cluster_synced_store : Flags → Store S → Io S (Result (Store S))
  to_cluster_synced_store flags store s =
      if flags.node_name == ""
      then (err (new_error "node name has not been specified"), s)
      else let (configured, s1) = platform.in_cluster_config s in
        elim configured [
          | some e ↦
              (err (wrapped "needs to be run within a k8s pod with an access token mounted" e), s1)
          | none ↦
              let (mapped, s2) = platform.rest_mapper s1 in
              elim mapped [
                | some e ↦ (err e, s2)
                | none ↦
                    let (connected, s3) = platform.new_client s2 in
                    elim connected [
                      | some e ↦ (err e, s3)
                      | none ↦ (ok (synchronized flags.node_name store), s3)
                    ]
              ]
        ]

  unfoldable pub new_store : Flags → Io S (Result (Store S))
  new_store flags s =
      let (defaults, s1) = platform.default_options s in
      elim defaults [
        | err e ↦ (err e, s1)
        | ok defaults ↦
            let o = store_options platform.join flags defaults in
            let (opened, s2) = platform.get_store o s1 in
            elim opened [
              | some e ↦ (err (wrapped ("init store at " <> o.graph_root) e), s2)
              | none ↦
                  let store = local (system_context flags) in
                  if flags.enable_sync
                  then (let (synced, s3) = to_cluster_synced_store flags store s2 in
                      elim synced [
                        | err e ↦ (err (wrapped "cannot enable k8s sync" e), s3)
                        | ok store' ↦ (ok store', s3)
                      ])
                  else (ok store, s2)
            ]
      ]

  unfoldable pub run_mount_cmd : Flags → List String → MountOptions → Io S (Result String)
  run_mount_cmd flags args o s =
      let (opened, s1) = new_store flags s in
      elim opened [
        | err e ↦ (err e, s1)
        | ok store ↦
            let (result, s2) =
              mount_and_chmod platform flags store (apply_defaults flags (with_args args o)) s1 in
            (result, platform.free s2)
      ]

  -- The image's ID is printed, where there is one.
  unfoldable pub run_unmount_cmd : Flags → List String → MountOptions → Io S (Result String)
  run_unmount_cmd flags args o s =
      let (opened, s1) = new_store flags s in
      elim opened [
        | err e ↦ (err e, s1)
        | ok store ↦
            let (result, s2) = store.unmount (apply_defaults flags (with_args args o)) s1 in
            elim result.error [
              | some e ↦ (err e, platform.free s2)
              | none ↦ (ok result.image_id, platform.free s2)
            ]
      ]

  -- `prune` is the method of the store that was opened.
  unfoldable pub run_prune_cmd : Flags → Io S (Run (Option Error)) → Io S (Run (Option Error))
  run_prune_cmd flags prune s =
      let (opened, s1) = new_store flags s in
      elim opened [
        | err e ↦ (finished (some e), s1)
        | ok _ ↦ let (result, s2) = prune s1 in (result, platform.free s2)
      ]
