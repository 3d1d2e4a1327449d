-- ===== src/Layers/Options.antt =====
-- internal/layerfs/store.go: what the options of a mount stand for.
use k8storagex.Base.{
  String, ◌<>◌, Bool, ◌&&◌, ◌||◌, not, Option, none, some, Result, ok, err, Error, new_error, ◌==◌,
  ◌!=◌, string_eq, if◌then◌else◌,
}
use k8storagex.Library.{Library}
use k8storagex.Utils.Jobs.{wrapped}
use k8storagex.Storage.{Storage}
use k8storagex.Layers.{MountOptions}

module _ (lib : Library) where
  unfoldable pub validate : MountOptions → Option Error
  validate o =
      if o.image == "" && o.cache_name == ""
      then some (new_error "neither cache name nor image specified")
      else if o.ext_mount_dir != "" && not (lib.is_abs o.ext_mount_dir)
      then some (new_error ("non-absolute mount path " <> o.ext_mount_dir <> " provided"))
      else none

  abbrev pub is_no_name : String → Bool
  is_no_name name = name == "" || name == ".." || name == "." || name == "/"

  unfoldable pub container_name : MountOptions → Result String
  container_name o =
      if o.container_name != ""
      then ok o.container_name
      else if o.ext_mount_dir == ""
      then ok ""
      else if is_no_name (lib.base o.ext_mount_dir)
      then err (
          new_error (
            "cannot derive container name from provided mount path " <> o.ext_mount_dir
            <> ", requires sub directory"))
      else ok (lib.clean o.ext_mount_dir)

unfoldable pub local_image_name : MountOptions → String
local_image_name o = "localhost/cache/" <> o.cache_namespace <> "/" <> o.cache_name <> ":latest"

module _ {S Ref : Type 0} (storage : Storage S Ref) where
  unfoldable pub image_ref : MountOptions → Result Ref
  image_ref o =
      if o.image == ""
      then (if o.cache_name == "" || o.cache_namespace == ""
          then err (new_error "cache name and namespace must be specified")
          else storage.parse_store_reference (local_image_name o))
      else elim (storage.parse_image_name o.image) [
        | ok ref ↦ ok ref
        | err e ↦ err (wrapped "invalid image name provided" e)
      ]

  -- Where a new image is pushed to.
  unfoldable pub push_target : MountOptions → Result (Option Ref)
  push_target opts =
      if opts.image == ""
      then ok none
      else elim (image_ref opts) [ err e ↦ err e | ok ref ↦ ok (some ref) ]
