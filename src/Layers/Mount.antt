-- ===== src/Layers/Mount.antt =====
-- internal/layerfs/store.go and mount.go: `Mount`. The deferred functions run last, the container's first.
pub mod Held
pub mod Laws
use k8storagex.Base.{
  String, ◌<>◌, Bool, true, false, ◌&&◌, ◌||◌, not, Option, none, some, [], ◌∷◌, Result, ok, err,
  Error, new_error, wrap, Io, ◌==◌, ◌!=◌, string_eq, if◌then◌else◌,
}
use k8storagex.Base.Text.{has_suffix}
use k8storagex.Library.{Library}
use k8storagex.Storage.{Storage}
use k8storagex.Layers.{MountOptions}
use k8storagex.Layers.Options.{validate, container_name, local_image_name, image_ref}
use k8storagex.Layers.Builders.{PullPolicy, pull_never, pull_always, BuilderOptions, Builder, Host}

-- The call of a method on a nil reference, which ends the process.
abbrev pub no_docker_reference : Error
no_docker_reference = new_error "invalid memory address or nil pointer dereference"

-- Whether the error says that the image does not exist.
unfoldable pub is_missing_image : Error → Bool
is_missing_image e =
    has_suffix e.message ": manifest unknown" || has_suffix e.message " could not be found locally"

module _ {S Ref Name : Type 0} (storage : Storage S Ref) (host : Host S Ref Name) where
  -- The image's name and how it is pulled.
  unfoldable pub resolve_image : MountOptions → Result (String × PullPolicy)
  resolve_image opts =
      let policy : PullPolicy = if opts.image == "" then pull_never else pull_always in
      let ref : Result Ref =
        if opts.image == ""
        then storage.parse_store_reference (local_image_name opts)
        else image_ref storage opts in
      elim ref [
        | err e ↦ err e
        | ok r ↦ elim (host.docker_name r) [
          | none ↦ err no_docker_reference
          | some name ↦ ok (name, policy)
        ]
      ]

module _ {S Ref Name : Type 0} (host : Host S Ref Name) where
  -- `mount` of mount.go
  unfoldable pub mount_dir : String → String → Io S (Option Error)
  mount_dir src dest s =
      let (e, s') = host.bind_mount src dest s in
      (wrap ("bind mount " <> src <> " to " <> dest) e, s')

  unfoldable pub new_builder : String → String → PullPolicy → Io S (Result Builder)
  new_builder name image_name policy =
      host.new_builder (record { container = name; from_image = image_name; pull_policy = policy })

  -- A container from the image, or from an empty file system when the image does not exist.
  unfoldable pub create_builder : String → String → PullPolicy → Io S (Result Builder)
  create_builder name image_name policy s =
      let (made, s') = new_builder name image_name policy s in
      elim made [
        | ok b ↦ (ok b, s')
        | err e ↦
            if not (is_missing_image e) || image_name == "scratch"
            then (err e, s')
            else new_builder name "scratch" pull_never s'
      ]

  -- The first deferred function.
  unfoldable pub discard_builder : Builder → S → S
  discard_builder b s = (host.delete_builder b (host.unmount_builder b s).1).1

  -- From `builder.Mount` on, without the deferred function.
  unfoldable pub mount_container : MountOptions → Builder → Io S ((String × Builder) × Option Error)
  mount_container opts b s =
      let (mounted, s1) = host.mount_builder b s in
      elim mounted [
        | err e ↦ ((("", b), some e), s1)
        | ok dir ↦
            if opts.ext_mount_dir == ""
            then (((dir, b), none), s1)
            else (let b' : Builder = record b {
              args = some (("MOUNT_DIR", opts.ext_mount_dir) ∷ []);
            } in
                let (saved, s2) = host.save_builder b' s1 in
                elim saved [
                  | some e ↦ ((("", b'), some e), s2)
                  | none ↦
                      let (e, s3) = mount_dir dir opts.ext_mount_dir s2 in
                      (((opts.ext_mount_dir, b'), e), s3)
                ])
      ]

  -- From `newBuilder` on.
  unfoldable pub mount_new :
      MountOptions → String → String → PullPolicy → Io S (String × Option Error)
  mount_new opts name image_name policy s =
      let (made, s1) = create_builder name image_name policy s in
      elim made [
        | err e ↦ (("", some e), s1)
        | ok b ↦
            let (((dir, b'), e), s2) = mount_container opts b s1 in
            elim e [ none ↦ ((dir, none), s2) | some x ↦ ((dir, some x), discard_builder b' s2) ]
      ]

  -- From the external directory on, with the deferred function that removes it.
  unfoldable pub mount_image :
      MountOptions → String → String → PullPolicy → Io S (String × Option Error)
  mount_image opts name image_name policy s =
      if opts.ext_mount_dir == ""
      then mount_new opts name image_name policy s
      else let (made, s1) = host.make_dir opts.ext_mount_dir s in
        elim made [
          | some e ↦ (("", some e), s1)
          | none ↦
              let ((dir, e), s2) = mount_new opts name image_name policy s1 in
              elim e [
                | none ↦ ((dir, none), s2)
                | some x ↦ ((dir, some x), (host.remove_dir opts.ext_mount_dir s2).1)
              ]
        ]

module _ {S Ref Name : Type 0} (lib : Library) (storage : Storage S Ref)
    (host : Host S Ref Name) where
  unfoldable pub mount : MountOptions → Io S (String × Option Error)
  mount opts s = elim (validate lib opts) [
    | some e ↦ (("", some e), s)
    | none ↦ elim (container_name lib opts) [
      | err e ↦ (("", some e), s)
      | ok name ↦ elim (resolve_image storage host opts) [
        | err e ↦ (("", some e), s)
        | ok (image_name, policy) ↦ mount_image host opts name image_name policy s
      ]
    ]
  ]
