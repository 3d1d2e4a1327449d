-- ===== src/Storage.antt =====
-- What internal/layerfs uses of containers/storage and containers/image: calls that read and change a
-- world of type `S`, in which other processes act as well. None of it is under this repository, so it is
-- a parameter. `Ref` is the type of references to images.
use k8storagex.Base.{ℕ, String, Bool, Option, List, Result, Error, Io}

-- `storage.Image`, `storage.Layer`, `storage.Container`
pub record Image : Type 0 where
  pub id : String
  pub names : List String
  pub top_layer : String
  pub read_only : Bool

pub record Layer : Type 0 where
  pub id : String
  pub parent : String

pub record Container : Type 0 where
  pub id : String
  pub names : List String
  pub image_id : String
  pub layer_id : String

-- An entry of an OCI image's history; `created` is an instant, which the file may leave out.
pub record History : Type 0 where
  pub created : Option ℕ
  pub created_by : String
  pub author : String
  pub comment : String
  pub empty_layer : Bool

pub record Config : Type 0 where
  pub history : List History
  pub diff_ids : List String

pub record Storage (S Ref : Type 0) : Type 0 where
  -- `storage.Store`
  pub images : Io S (Result (List Image))
  pub image : String → Io S (Result Image)
  pub layer : String → Io S (Result Layer)
  pub containers : Io S (Result (List Container))
  pub container : String → Io S (Result Container)
  -- `Changes("", layer)`, the paths
  pub changes : String → Io S (Result (List String))
  pub set_names : String → List String → Io S (Option Error)
  pub delete_image : String → Io S (Option Error)
  pub delete_container : String → Io S (Option Error)
  -- `alltransports.ParseImageName`, `ParseStoreReference`, `transports.ImageName`
  pub parse_image_name : String → Result Ref
  pub parse_store_reference : String → Result Ref
  pub name_of : Ref → String
  -- `NewImageSource` with `Close`, `NewImage`, `OCIConfig` of the image
  pub open_source : Ref → Io S (Option Error)
  pub open_image : Ref → Io S (Option Error)
  pub config : Ref → Io S (Result Config)
  -- `util.FindImage`, which may return a reference beside an error
  pub find_image : String → Io S (Option Ref × Option Error)
  -- `GetStoreImage`
  pub store_image : Ref → Io S (Result Image)
  -- `storage.ErrNotAnImage`, `storage.ErrImageUsedByContainer` and `syscall.EINVAL`
  pub not_an_image : Error
  pub image_used : Error
  pub invalid_argument : Error
