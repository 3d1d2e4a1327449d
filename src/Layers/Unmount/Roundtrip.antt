-- ===== src/Layers/Unmount/Roundtrip.antt =====
-- `Unmount` after `Mount`.
use k8storagex.Base.{
  ◌≡◌, refl, String, Bool, true, false, ◌&&◌, not, Option, none, some, ok, inl, inr, Bool-cases,
  Option-cases, Result-cases, ◌==◌, string_eq, if◌then◌else◌, arith,
}
use k8storagex.Library.{Library}
use k8storagex.Storage.{Storage}
use k8storagex.Layers.{MountOptions, Unmounted}
use k8storagex.Layers.Options.{validate, container_name}
use k8storagex.Layers.Builders.{Builder, Host}
use k8storagex.Layers.Mount.{mount}
use k8storagex.Layers.Mount.Held.{Tracks}
use k8storagex.Layers.Mount.Laws.{mount-Leaves}
use k8storagex.Layers.Unmount.{
  unmount_and_delete, find_builder, delete_container, unmount_builder, unmount_container, unmount,
}
use k8storagex.Layers.Unmount.Clears.{TracksUnmount, unmount_and_delete-world, unmount_builder-Held}

-- A container that is held is found by the name of the options, and looking for it changes nothing that is
-- held.
abbrev pub Finds :
    {S Ref Name : Type 0}
    → Library
    → Host S Ref Name
    → MountOptions
    → (Bool → Option String → S → Type 0)
    → Type 0
Finds {S} lib host opts Held =
    (name id : String) (s : S)
    → container_name lib opts ≡ ok name
    → Held false (some id) s
    → (b : Builder) × ((find_builder host opts name s).0 ≡ ok b)
      × (b.container_id ≡ id)
      × Held false (some id) (find_builder host opts name s).1

module _ {S Ref Name : Type 0} (lib : Library) (storage : Storage S Ref) (host : Host S Ref Name)
    (Held : Bool → Option String → S → Type 0) (opts : MountOptions)
    (tracks : TracksUnmount storage host opts.ext_mount_dir Held) (finds : Finds lib host opts Held)
    (not_cancelled : (s : S) → host.is_cancelled s ≡ false) where
  delete_container-Held :
      (b : Builder) (result : Unmounted) (s : S)
      → Held false (some b.container_id) s
      → Held false none (delete_container host b (result, s)).1
  unfolding delete_container
  delete_container-Held b result s h =
      simp (not_cancelled s, delete_container) (tracks.delete_builder b s h)

  directory-Held :
      (id : String) (s : S)
      → Held (not (opts.ext_mount_dir == "")) (some id) s
      → Held false
          (some id)
          (if opts.ext_mount_dir == "" then s else (unmount_and_delete host opts.ext_mount_dir s).1)
  directory-Held id s h = elim (Bool-cases (opts.ext_mount_dir == "")) [
    | inl n ↦ simp n (simp n at h)
    | inr n ↦
        let h1 = tracks.unmount_dir opts.ext_mount_dir true (some id) s (simp n at h) in
        simp (n, unmount_and_delete-world storage host Held opts tracks opts.ext_mount_dir s)
          (tracks.remove_dir (some id) (host.unmount_dir opts.ext_mount_dir s).1 h1)
  ]

  unmount_container-Held :
      (name id : String) (s : S)
      → container_name lib opts ≡ ok name
      → Held (not (opts.ext_mount_dir == "")) (some id) s
      → Held false none (unmount_container storage host opts name s).1
  unfolding unmount_container
  unmount_container-Held name id s named h =
      let s1 =
        if opts.ext_mount_dir == "" then s else (unmount_and_delete host opts.ext_mount_dir s).1 in
      let (b, found, same, h2) = finds name id s1 named (directory-Held id s h) in
      let s2 = (find_builder host opts name s1).1 in
      let (result, s3) = unmount_builder storage host opts b s2 in
      let h3 : Held false (some b.container_id) s3 =
        unmount_builder-Held storage host Held opts tracks b (some b.container_id) s2
          (rw same h2) in
      simp (found, unmount_container) (delete_container-Held b result s3 h3)

  mount_ok :
      (s : S)
      → (mount lib storage host opts s).0.1 ≡ none
      → (validate lib opts ≡ none) × ((name : String) × (container_name lib opts ≡ ok name))
  unfolding mount
  mount_ok s h = elim (Option-cases (validate lib opts)) [
    | inr (e, v) ↦ absurd (ground (arith, v, h))
    | inl v ↦ elim (Result-cases (container_name lib opts)) [
      | inr (e, c) ↦ absurd (ground (arith, v, c, h))
      | inl (name, c) ↦ (v, (name, c))
    ]
  ]

  -- An unmount with the options of a mount that succeeded leaves neither a container nor a directory that the
  -- mount made and that the system was not asked to remove, whatever else the unmount reports. It takes
  -- that the options name a container or a directory, that a held container is found by them, that the
  -- call is not cancelled, that `Held` follows the calls of the host, and that nothing is held before
  -- the mount.
  pub unmount-mount :
      (s : S)
      → Tracks host opts.ext_mount_dir Held
      → Held false none s
      → (opts.container_name == "" && opts.ext_mount_dir == "") ≡ false
      → (mount lib storage host opts s).0.1 ≡ none
      → Held false none (unmount lib storage host opts (mount lib storage host opts s).1).1
  unfolding unmount
  unmount-mount s tracks_mount h named mounted =
      let s1 = (mount lib storage host opts s).1 in
      let (valid, (name, c)) = mount_ok s mounted in
      let (id, held) : (id : String) × Held (not (opts.ext_mount_dir == "")) (some id) s1 =
        simp mounted at
          (mount-Leaves host Held opts.ext_mount_dir tracks_mount lib storage opts s refl h) in
      simp (valid, named, c, unmount) (unmount_container-Held name id s1 c held)
