-- ===== src/Tests/Commands.antt =====
-- Witness for the commands of layerfs.
use k8storagex.Base.{
  ℕ, ◌≡◌, refl, ◌⊎◌, String, ◌<>◌, Bool, true, false, not, Option, none, some, List, [], ◌∷◌,
  Result, ok, err, Error, new_error, arith, ◌==◌, string_eq, if◌then◌else◌,
}
use k8storagex.Api.Cache.{Cache}
use k8storagex.Cluster.{Client, RetryOnConflict, attempt_times, Attempts-attempt_times}
use k8storagex.Layers.{MountOptions}
use k8storagex.Layers.Options.{container_name, validate}
use k8storagex.Layers.Mount.{mount}
use k8storagex.Commands.{Flags, Platform, SystemContext, StoreOptions, run_mount_cmd}
use k8storagex.Commands.Cleanup.{local_store, cluster_store, run_mount_cmd_failed}
use k8storagex.Tests.{demo_cache}
use k8storagex.Tests.Provisioners.{lib}
use k8storagex.Tests.Layers.{Node, Held, host, storage, refusal, idle, options, host_with-Tracks}

abbrev platform : Platform Node
platform = record {
  default_options = λ s. (
    ok (record {
      graph_root = "/var/lib";
      run_root = "/run";
      driver_name = "";
      driver_options = [];
    }),
    s,
  );
  get_store = λ _ s. (none, s);
  free = λ s. s;
  chmod = λ _ _ s. (none, s);
  join = λ a b. a <> "/" <> b;
  in_cluster_config = λ s. (none, s);
  rest_mapper = λ s. (none, s);
  new_client = λ s. (none, s);
}

abbrev caches : Client Node Cache
caches = record {
  get = λ _ s. (ok (demo_cache 0 []), s);
  create = λ c s. (ok c, s);
  update = λ c s. (ok c, s);
  update_status = λ c s. (ok c, s);
  delete = λ _ s. (none, s);
}

abbrev retries : RetryOnConflict
retries = record {
  call = λ T m. attempt_times 4 m;
  attempts = λ T m t. Attempts-attempt_times 4 m t;
}

abbrev flags : Flags
flags = record {
  registry = "";
  registry_username = "";
  registry_password = "";
  storage_root = "/storage";
  storage_run_root = "";
  insecure = false;
  enable_sync = true;
  node_name = "n1";
  mode = 488;
}

-- What `mount` says of the refusal.
abbrev bind_refusal : Error
bind_refusal = new_error "bind mount /merged to /data/v1: refused"

run_mount_cmd_failed_example :
    Held false none
      (run_mount_cmd platform
        (local_store platform lib storage (λ _. host) caches retries 1)
        (cluster_store platform lib storage (λ _. host) caches retries 1)
        flags
        ("/data/v1" ∷ [])
        options
        idle).1
    ⊎ ((dir : String) × (t : Node) × ((platform.chmod dir flags.mode t).0 ≡ some bind_refusal))
unfolding run_mount_cmd k8storagex.Commands.new_store k8storagex.Commands.to_cluster_synced_store
    string_eq k8storagex.Commands.mount_and_chmod k8storagex.Sync.Store.mount
    k8storagex.Commands.apply_defaults k8storagex.Commands.with_args
    k8storagex.Sync.Updater.register_cache_volume k8storagex.Base.wrap
    k8storagex.Sync.Updater.update_cache attempt_times k8storagex.Sync.Updater.attempt
    k8storagex.Sync.Updater.read_cache mount validate k8storagex.Sync.Commit.register_volume
    k8storagex.Layers.Mount.create_builder k8storagex.Layers.Mount.discard_builder
    k8storagex.Layers.Mount.mount_container k8storagex.Layers.Mount.mount_dir
    k8storagex.Layers.Mount.mount_image k8storagex.Layers.Mount.mount_new
    k8storagex.Layers.Mount.new_builder k8storagex.Layers.Mount.resolve_image container_name
    k8storagex.Layers.Options.image_ref k8storagex.Sync.Commit.use_image
    k8storagex.Sync.Volumes.find_volume k8storagex.Sync.Updater.unregister_cache_volume
run_mount_cmd_failed_example =
    run_mount_cmd_failed platform lib storage (λ _. host) caches retries 1 Held flags
      ("/data/v1" ∷ []) options idle bind_refusal (λ _. host_with-Tracks (some refusal))
      (record {
        default_options = λ _ h. h;
        get_store = λ _ _ h. h;
        in_cluster_config = λ _ h. h;
        rest_mapper = λ _ h. h;
        new_client = λ _ h. h;
        free = λ _ h. h;
      })
      (record { get = λ _ _ h. h; create = λ _ _ h. h; update_status = λ _ _ h. h }) (refl, refl)
      refl
