-- ===== src/Layers/Builders.antt =====
-- What internal/layerfs/store.go, mount.go and push.go use of buildah, containers/image and the system:
-- calls that read and change a world of type `S`. None of it is under this repository, so it is a
-- parameter. `Ref` is the type of references to images, `Name` that of canonical names.
use k8storagex.Base.{String, Bool, Option, Result, Error, Io}
use k8storagex.Base.Dict.{Dict}

pub data PullPolicy : Type 0 where
  pull_never pull_always : PullPolicy

-- Of `buildah.BuilderOptions` what is not the same in every call.
pub record BuilderOptions : Type 0 where
  pub container : String
  pub from_image : String
  pub pull_policy : PullPolicy

-- Of `buildah.Builder` what the code reads or writes.
pub record Builder : Type 0 where
  pub container_id : String
  pub args : Option (Dict String)

pub record Host (S Ref Name : Type 0) : Type 0 where
  -- `buildah.NewBuilder`, `OpenBuilder`, `OpenBuilderByPath`
  pub new_builder : BuilderOptions → Io S (Result Builder)
  pub open_builder : String → Io S (Result Builder)
  pub open_builder_by_path : String → Io S (Result Builder)
  -- The builder's methods; `mount` is given its own mount label.
  pub mount_builder : Builder → Io S (Result String)
  pub save_builder : Builder → Io S (Option Error)
  pub unmount_builder : Builder → Io S (Option Error)
  pub delete_builder : Builder → Io S (Option Error)
  pub commit_builder : Builder → Ref → Io S (Result (String × Name))
  -- `DockerReference().String()`, `none` where there is no such reference
  pub docker_name : Ref → Option String
  -- `NewStoreReference`, `copy.Image(destination, source)`, `retry.RetryIfNecessary`
  pub store_reference : Name → String → Result Ref
  pub copy_image : Ref → Ref → Io S (Option Error)
  pub retry : Io S (Option Error) → Io S (Option Error)
  -- `os.Mkdir`, `os.Remove`, `os.IsNotExist`, `unix.Mount` and `unix.Unmount` with the code's flags
  pub make_dir : String → Io S (Option Error)
  pub remove_dir : String → Io S (Option Error)
  pub is_not_exist : Error → Bool
  pub bind_mount : String → String → Io S (Option Error)
  pub unmount_dir : String → Io S (Option Error)
  -- `Context.Err() != nil`
  pub is_cancelled : S → Bool
