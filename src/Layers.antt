-- ===== src/Layers.antt =====
-- internal/layerfs/store.go: the options of a mount, and the `Store` interface.
pub mod Options
pub mod Builders
pub mod Mount
pub mod Unmount
use k8storagex.Base.{String, Bool, Option, Error, Io}

pub record MountOptions : Type 0 where
  pub image : String
  pub container_name : String
  pub ext_mount_dir : String
  pub commit : Bool
  pub cache_name : String
  pub cache_namespace : String

-- The results of `Unmount`.
pub record Unmounted : Type 0 where
  pub image_id : String
  pub new_image : Bool
  pub error : Option Error

-- The two methods of `Store` that ksync wraps.
pub record Store (S : Type 0) : Type 0 where
  pub mount : MountOptions → Io S (String × Option Error)
  pub unmount : MountOptions → Io S Unmounted
