-- ===== src/Tests/Layers.antt =====
-- Witnesses for the layer store, on a node that may refuse to mount at the given directory.
use k8storagex.Base.{
  ℕ, ◌≡◌, refl, ◌⊎◌, String, ◌<>◌, Bool, true, false, not, Option, none, some, List, [], ◌∷◌,
  Result, ok, err, Error, new_error, arith, ◌==◌, string_eq, if◌then◌else◌,
}
use k8storagex.Storage.{Storage}
use k8storagex.Layers.{MountOptions}
use k8storagex.Layers.Options.{container_name, validate}
use k8storagex.Layers.Builders.{Builder, Host}
use k8storagex.Layers.Mount.{mount}
use k8storagex.Layers.Mount.Held.{Tracks, Leaves}
use k8storagex.Layers.Mount.Laws.{mount-Leaves}
use k8storagex.Layers.Unmount.{unmount, find_builder}
use k8storagex.Layers.Unmount.Clears.{TracksUnmount}
use k8storagex.Layers.Unmount.Roundtrip.{Finds, unmount-mount}
use k8storagex.Layers.Unmount.Laws.{IsNew, unmount-IsNew}
use k8storagex.Layers.Unmount.Errors.{IsReleased, unmount-IsReleased}
use k8storagex.Tests.Provisioners.{lib}

pub record Node : Type 0 where
  dir : Bool
  container : Option String

abbrev pub Held : Bool → Option String → Node → Type 0
Held made held s = (s.dir ≡ made) × (s.container ≡ held)

abbrev pub refusal : Error
refusal = new_error "refused"

abbrev pub options : MountOptions
options = record {
  image = "docker://registry/demo";
  container_name = "v1";
  ext_mount_dir = "/data/v1";
  commit = true;
  cache_name = "demo";
  cache_namespace = "default";
}

abbrev pub storage : Storage Node String
storage = record {
  images = λ s. (ok [], s);
  image = λ _ s. (err refusal, s);
  layer = λ _ s. (err refusal, s);
  containers = λ s. (ok [], s);
  container = λ id s. (ok (record { id = id; names = []; image_id = "old"; layer_id = "l" }), s);
  changes = λ _ s. (ok ("/file" ∷ []), s);
  set_names = λ _ _ s. (none, s);
  delete_image = λ _ s. (none, s);
  delete_container = λ _ s. (none, s);
  parse_image_name = λ name. ok name;
  parse_store_reference = λ name. ok name;
  name_of = λ ref. ref;
  open_source = λ _ s. (none, s);
  open_image = λ _ s. (none, s);
  config = λ _ s. (err refusal, s);
  find_image = λ _ s. ((none, some refusal), s);
  store_image = λ _ s. (err refusal, s);
  not_an_image = refusal;
  image_used = refusal;
  invalid_argument = refusal;
}

-- The container that is there.
abbrev opened : Option String → Result Builder
opened none = err refusal
opened (some id) = ok (record { container_id = id; args = none })

-- `bound` is what bind mounts give.
abbrev pub host_with : Option Error → Host Node String String
host_with bound = record {
  new_builder = λ _ s. (opened (some "c1"), record s { container = some "c1" });
  open_builder = λ _ s. (opened s.container, s);
  open_builder_by_path = λ _ s. (opened s.container, s);
  mount_builder = λ _ s. (ok "/merged", s);
  save_builder = λ _ s. (none, s);
  unmount_builder = λ _ s. (none, s);
  delete_builder = λ _ s. (none, record s { container = none });
  commit_builder = λ _ ref s. (ok ("new", ref), s);
  docker_name = λ ref. some ref;
  store_reference = λ name _. ok name;
  copy_image = λ _ _ s. (none, s);
  retry = λ call. call;
  make_dir = λ _ s. (none, record s { dir = true });
  remove_dir =
      λ dir s. (none, if dir == options.ext_mount_dir then record s { dir = false } else s);
  is_not_exist = λ _. false;
  bind_mount = λ _ _ s. (bound, s);
  unmount_dir = λ _ s. (none, s);
  is_cancelled = λ _. false;
}

abbrev pub host : Host Node String String
host = host_with (some refusal)

pub host_with-Tracks : (bound : Option Error) → Tracks (host_with bound) options.ext_mount_dir Held
unfolding string_eq
host_with-Tracks bound = record {
  make_dir = λ s _ h. (refl, h.1);
  make_dir_failed = λ s e n h. absurd (ground (arith, n));
  remove_dir = λ s h. (refl, h.1);
  new_builder = λ _ made s b e h. (h.0, ground (arith, e));
  new_builder_failed = λ _ made s e n h. absurd (ground (arith, n));
  delete_builder = λ b made s h. (h.0, refl);
  mount_builder = λ _ _ _ _ h. h;
  save_builder = λ _ _ _ _ h. h;
  unmount_builder = λ _ _ _ _ h. h;
  bind_mount = λ _ _ _ _ _ h. h;
}

abbrev pub idle : Node
idle = record { dir = false; container = none }

abbrev mounted : Node
mounted = record { dir = true; container = some "c1" }

mount-Leaves_example :
    Leaves Held
      (not (options.ext_mount_dir == ""))
      (mount lib storage host options idle).0.1
      (mount lib storage host options idle).1
mount-Leaves_example =
    mount-Leaves host Held options.ext_mount_dir (host_with-Tracks (some refusal)) lib storage
      options idle refl (refl, refl)

unmount-IsNew_example :
    IsNew storage host options (unmount lib storage host options mounted).0.image_id
unfolding string_eq unmount validate container_name k8storagex.Layers.Unmount.unmount_container
    k8storagex.Layers.Unmount.find_builder k8storagex.Layers.Unmount.delete_container
    k8storagex.Layers.Unmount.unmount_builder k8storagex.Layers.Unmount.unmount_noted
    k8storagex.Layers.Unmount.commit_image k8storagex.Layers.Options.push_target
    k8storagex.Layers.Options.image_ref k8storagex.Layers.Unmount.commit
    k8storagex.Layers.Unmount.push_committed k8storagex.Layers.Unmount.push_image
    k8storagex.Layers.Unmount.unmount_and_delete k8storagex.Layers.Unmount.unmount_dir
unmount-IsNew_example = unmount-IsNew lib storage host options mounted refl

-- The container names another directory.
abbrev noting_host : Host Node String String
noting_host = record host {
  open_builder =
      λ _ s. (ok (record { container_id = "c1"; args = some (("MOUNT_DIR", "/other") ∷ []) }), s);
}

unmount-IsReleased_example :
    (name : String) × (container_name lib options ≡ ok name)
    × IsReleased noting_host options name mounted
        (unmount lib storage noting_host options mounted).1
unfolding string_eq unmount validate container_name k8storagex.Layers.Unmount.unmount_container
    k8storagex.Layers.Unmount.find_builder k8storagex.Layers.Unmount.delete_container
    k8storagex.Layers.Unmount.unmount_builder k8storagex.Layers.Unmount.unmount_noted
    k8storagex.Layers.Unmount.commit_image k8storagex.Layers.Options.push_target
    k8storagex.Layers.Options.image_ref k8storagex.Layers.Unmount.commit
    k8storagex.Layers.Unmount.push_committed k8storagex.Layers.Unmount.push_image
    k8storagex.Layers.Unmount.unmount_and_delete k8storagex.Layers.Unmount.unmount_dir
    k8storagex.Base.Dict.value_at k8storagex.Base.Dict.lookup
unmount-IsReleased_example = unmount-IsReleased lib storage noting_host options mounted refl

healthy-TracksUnmount : TracksUnmount storage (host_with none) options.ext_mount_dir Held
unfolding string_eq
healthy-TracksUnmount = record {
  remove_dir = λ _ s h. (refl, h.1);
  remove_other_dir = λ other made held s e h. (ground (arith, e, h), ground (arith, e, h));
  delete_builder = λ b s h. (h.0, refl);
  unmount_dir = λ _ _ _ _ h. h;
  unmount_builder = λ _ _ _ h. h;
  container = λ _ _ _ h. h;
  changes = λ _ _ _ h. h;
  commit_builder = λ _ _ _ _ h. h;
  copy_image = λ _ _ _ _ h. h;
}

healthy-Finds : Finds lib (host_with none) options Held
unfolding find_builder
healthy-Finds name id s named h = (
  record { container_id = id; args = none },
  ground (arith, h.1),
  refl,
  (ground (arith, h.0, h.1), ground (arith, h.0, h.1)),
)

unmount-mount_example :
    Held false none
      (unmount lib storage
        (host_with none)
        options
        (mount lib storage (host_with none) options idle).1).1
unfolding string_eq mount validate container_name k8storagex.Layers.Mount.resolve_image
    k8storagex.Layers.Options.image_ref k8storagex.Layers.Mount.mount_image
    k8storagex.Layers.Mount.mount_new k8storagex.Layers.Mount.create_builder
    k8storagex.Layers.Mount.new_builder k8storagex.Layers.Mount.mount_container
    k8storagex.Layers.Mount.mount_dir k8storagex.Base.wrap
unmount-mount_example =
    unmount-mount lib storage (host_with none) Held options healthy-TracksUnmount healthy-Finds
      (λ _. refl) idle (host_with-Tracks none) (refl, refl) refl refl
