-- ===== src/Layers/Mount/Held.antt =====
-- Following the directory and the container that a call of `Mount` makes.
use k8storagex.Base.{
  ◌≡◌, String, Bool, true, false, not, Option, none, some, ok, err, Error, Result, ◌==◌, string_eq,
}
use k8storagex.Layers.{MountOptions, Store}
use k8storagex.Layers.Builders.{BuilderOptions, Builder, Host}

-- `Held made container` tells of a world whether the directory `dir` was made and not yet given to
-- `os.Remove`, and which container was made and not yet given to `Delete`. No other call changes either.
pub record Tracks {S Ref Name : Type 0} (host : Host S Ref Name) (dir : String)
    (Held : Bool → Option String → S → Type 0) : Type 0 where
  pub make_dir :
      (s : S)
      → (host.make_dir dir s).0 ≡ none
      → Held false none s
      → Held true none (host.make_dir dir s).1
  pub make_dir_failed :
      (s : S) (e : Error)
      → (host.make_dir dir s).0 ≡ some e
      → Held false none s
      → Held false none (host.make_dir dir s).1
  pub remove_dir : (s : S) → Held true none s → Held false none (host.remove_dir dir s).1
  pub new_builder :
      (o : BuilderOptions) (made : Bool) (s : S) (b : Builder)
      → (host.new_builder o s).0 ≡ ok b
      → Held made none s
      → Held made (some b.container_id) (host.new_builder o s).1
  pub new_builder_failed :
      (o : BuilderOptions) (made : Bool) (s : S) (e : Error)
      → (host.new_builder o s).0 ≡ err e
      → Held made none s
      → Held made none (host.new_builder o s).1
  pub delete_builder :
      (b : Builder) (made : Bool) (s : S)
      → Held made (some b.container_id) s
      → Held made none (host.delete_builder b s).1
  pub mount_builder :
      (b : Builder) (made : Bool) (held : Option String) (s : S)
      → Held made held s
      → Held made held (host.mount_builder b s).1
  pub save_builder :
      (b : Builder) (made : Bool) (held : Option String) (s : S)
      → Held made held s
      → Held made held (host.save_builder b s).1
  pub unmount_builder :
      (b : Builder) (made : Bool) (held : Option String) (s : S)
      → Held made held s
      → Held made held (host.unmount_builder b s).1
  pub bind_mount :
      (src dest : String) (made : Bool) (held : Option String) (s : S)
      → Held made held s
      → Held made held (host.bind_mount src dest s).1

module _ {S : Type 0} (Held : Bool → Option String → S → Type 0) where
  -- Nothing is held after an error, and without one a container and the directory, where one was asked for.
  abbrev pub Leaves : Bool → Option Error → S → Type 0
  Leaves made (some e) s = Held false none s
  Leaves made none s = (id : String) × Held made (some id) s

  -- The same while the directory is there in any case.
  abbrev pub LeavesIn : Bool → Option Error → S → Type 0
  LeavesIn made (some e) s = Held made none s
  LeavesIn made none s = (id : String) × Held made (some id) s

  abbrev pub Made : Bool → Result Builder → S → Type 0
  Made made (ok b) s = Held made (some b.container_id) s
  Made made (err e) s = Held made none s

-- The contract of a store's mounts at the directory `dir`.
abbrev pub Cleans : {S : Type 0} → (Bool → Option String → S → Type 0) → String → Store S → Type 0
Cleans {S} Held dir store =
    (opts : MountOptions) (s : S)
    → opts.ext_mount_dir ≡ dir
    → Held false none s
    → Leaves Held (not (opts.ext_mount_dir == "")) (store.mount opts s).0.1 (store.mount opts s).1
