-- ===== src/Layers/Unmount.antt =====
-- internal/layerfs/store.go, mount.go and push.go: `Unmount`, with the commit of the container and the push
-- of the image. The deferred function runs last, on the named results.
pub mod Laws
pub mod Errors
pub mod Clears
pub mod Roundtrip
use k8storagex.Base.{
  String, ◌<>◌, Bool, true, false, ◌&&◌, ◌||◌, not, Option, none, some, List, [], ◌∷◌, Result, ok,
  err, Error, new_error, wrap, Io, ltb, length, ◌==◌, ◌!=◌, string_eq, if◌then◌else◌,
}
use k8storagex.Base.Dict.{Dict, value_at}
use k8storagex.Library.{Library}
use k8storagex.Utils.Jobs.{wrapped}
use k8storagex.Storage.{Container, Storage}
use k8storagex.Layers.{MountOptions, Unmounted, Store}
use k8storagex.Layers.Options.{validate, container_name, local_image_name, push_target}
use k8storagex.Layers.Builders.{Builder, Host}
use k8storagex.Layers.Mount.{mount}

abbrev pub failure_of : Error → Unmounted
failure_of e = record { image_id = ""; new_image = false; error = some e }

-- `err`, or what is assigned to it while it is `nil`.
abbrev pub or_else : Option Error → Option Error → Option Error
or_else none later = later
or_else (some e) later = some e

module _ {S Ref Name : Type 0} (host : Host S Ref Name) where
  -- `unmount` of mount.go
  unfoldable pub unmount_dir : String → Io S (Option Error)
  unmount_dir dir s = let (e, s') = host.unmount_dir dir s in (wrap ("unmount " <> dir) e, s')

  -- The error of unmounting is only logged.
  unfoldable pub unmount_and_delete : String → Io S (Option Error)
  unmount_and_delete dir s =
      let (removed, s') = host.remove_dir dir (unmount_dir dir s).1 in
      elim removed [
        | none ↦ (none, s')
        | some e ↦ (if host.is_not_exist e then none else some e, s')
      ]

  -- By name, or by path when no name was given.
  unfoldable pub find_builder : MountOptions → String → Io S (Result Builder)
  find_builder opts name s =
      let (opened, s1) = host.open_builder name s in
      elim opened [
        | ok b ↦ (ok b, s1)
        | err e ↦
            if opts.container_name == ""
            then (let (by_path, s2) = host.open_builder_by_path opts.ext_mount_dir s1 in
                elim by_path [
                  | ok b ↦ (ok b, s2)
                  | err x ↦
                      (err (wrapped ("find cache container by path " <> opts.ext_mount_dir) x), s2)
                ])
            else (err (wrapped ("find cache container " <> name) e), s1)
      ]

  -- The directory that `Mount` noted in the container, when it is another one than that of the options.
  unfoldable pub unmount_noted : MountOptions → Builder → Io S (Option Error)
  unmount_noted opts b s = elim b.args [
    | none ↦ (none, s)
    | some args ↦
        if value_at "MOUNT_DIR" args != "" && value_at "MOUNT_DIR" args != opts.ext_mount_dir
        then unmount_and_delete (value_at "MOUNT_DIR" args) s
        else (none, s)
  ]

  unfoldable pub push_image : Name → String → Ref → Io S (Option Error)
  push_image name id dest s = elim (host.store_reference name id) [
    | err e ↦ (some (wrapped "push source" e), s)
    | ok src ↦ host.retry (host.copy_image dest src) s
  ]

  -- The deferred function.
  unfoldable pub delete_container : Builder → Unmounted × S → Unmounted × S
  delete_container b (result, s) =
      let (e, s') = host.delete_builder b s in
      if host.is_cancelled s
      then (result, s)
      else (record result { error = or_else result.error e }, s')

-- The results of `commit` but for the error; there is a name where there is a new image.
pub record Committed (Name : Type 0) : Type 0 where
  pub image_id : String
  pub name : Option Name

module _ {S Ref Name : Type 0} (storage : Storage S Ref) (host : Host S Ref Name) where
  unfoldable pub commit : Builder → Ref → Io S (Result (Committed Name))
  commit b ref s =
      let (read, s1) = storage.container b.container_id s in
      elim read [
        | err e ↦ (err e, s1)
        | ok c ↦
            let (changed, s2) = storage.changes c.layer_id s1 in
            elim changed [
              | err e ↦ (err e, s2)
              | ok paths ↦
                  if not (ltb 0 (length paths)) && c.image_id != ""
                  then (ok (record { image_id = c.image_id; name = none }), s2)
                  else (let (made, s3) = host.commit_builder b ref s2 in
                      elim made [
                        | err e ↦ (err (wrapped "commit" e), s3)
                        | ok (id, name) ↦ (ok (record { image_id = id; name = some name }), s3)
                      ])
            ]
      ]

  -- The image is pushed if it is new and one was named.
  unfoldable pub push_committed : Option Ref → Committed Name → Io S Unmounted
  push_committed dest c s = elim c.name [
    | none ↦ (record { image_id = c.image_id; new_image = false; error = none }, s)
    | some name ↦ elim dest [
      | none ↦ (record { image_id = c.image_id; new_image = true; error = none }, s)
      | some ref ↦
          let (e, s') = push_image host name c.image_id ref s in
          elim e [
            | some x ↦ (failure_of x, s')
            | none ↦ (record { image_id = c.image_id; new_image = true; error = none }, s')
          ]
    ]
  ]

  -- From the local image's reference on.
  unfoldable pub commit_image : MountOptions → Builder → Io S Unmounted
  commit_image opts b s = elim (storage.parse_store_reference (local_image_name opts)) [
    | err e ↦ (failure_of e, s)
    | ok ref ↦ elim (push_target storage opts) [
      | err e ↦ (failure_of e, s)
      | ok dest ↦
          let (committed, s') = commit b ref s in
          elim committed [ err e ↦ (failure_of e, s') | ok c ↦ push_committed dest c s' ]
    ]
  ]

  -- With the container that was found, up to the deferred function.
  unfoldable pub unmount_builder : MountOptions → Builder → Io S Unmounted
  unmount_builder opts b s =
      let (noted, s1) = unmount_noted host opts b s in
      let (unmounted, s2) = host.unmount_builder b s1 in
      elim (or_else noted unmounted) [
        | some e ↦ (failure_of e, s2)
        | none ↦
            if opts.commit
            then commit_image opts b s2
            else (record { image_id = ""; new_image = false; error = none }, s2)
      ]

  -- From the external directory on. `err` is assigned anew when the container is looked up.
  unfoldable pub unmount_container : MountOptions → String → Io S Unmounted
  unmount_container opts name s =
      let s1 =
        if opts.ext_mount_dir == "" then s else (unmount_and_delete host opts.ext_mount_dir s).1 in
      let (found, s2) = find_builder host opts name s1 in
      elim found [
        | err e ↦ (failure_of e, s2)
        | ok b ↦ delete_container host b (unmount_builder opts b s2)
      ]

module _ {S Ref Name : Type 0} (lib : Library) (storage : Storage S Ref)
    (host : Host S Ref Name) where
  unfoldable pub unmount : MountOptions → Io S Unmounted
  unmount opts s = elim (validate lib opts) [
    | some e ↦ (failure_of e, s)
    | none ↦
        if opts.container_name == "" && opts.ext_mount_dir == ""
        then (failure_of (new_error "neither container name nor mount path provided"), s)
        else elim (container_name lib opts) [
          | err e ↦ (failure_of e, s)
          | ok name ↦ unmount_container storage host opts name s
        ]
  ]

  -- The two methods of the store that the other parts use.
  abbrev pub layer_store : Store S
  layer_store = record { mount = mount lib storage host; unmount = unmount }
