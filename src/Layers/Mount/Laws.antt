-- ===== src/Layers/Mount/Laws.antt =====
-- What a call of `Mount` leaves behind.
use k8storagex.Base.{
  ◌≡◌, String, Bool, true, false, ◌||◌, not, Option, none, some, Error, [], ◌∷◌, inl, inr,
  Bool-cases, Option-cases, Result-cases, ◌==◌, string_eq,
}
use k8storagex.Library.{Library}
use k8storagex.Storage.{Storage}
use k8storagex.Layers.{MountOptions}
use k8storagex.Layers.Options.{validate, container_name}
use k8storagex.Layers.Builders.{PullPolicy, BuilderOptions, Builder, Host, pull_never}
use k8storagex.Layers.Mount.{
  is_missing_image, resolve_image, mount_dir, new_builder, create_builder, discard_builder,
  mount_container, mount_new, mount_image, mount,
}
use k8storagex.Layers.Mount.Held.{Tracks, Leaves, LeavesIn, Made}

module _ {S Ref Name : Type 0} (host : Host S Ref Name) (Held : Bool → Option String → S → Type 0)
    (dir : String) (tracks : Tracks host dir Held) where
  discard_builder-Held :
      (b : Builder) (made : Bool) (s : S)
      → Held made (some b.container_id) s
      → Held made none (discard_builder host b s)
  unfolding discard_builder
  discard_builder-Held b made s h =
      tracks.delete_builder b made _ (tracks.unmount_builder b made _ s h)

  mount_container-Held :
      (opts : MountOptions) (b : Builder) (made : Bool) (s : S)
      → Held made (some b.container_id) s
      → Held made
          (some (mount_container host opts b s).0.0.1.container_id)
          (mount_container host opts b s).1
  unfolding mount_container mount_dir
  mount_container-Held opts b made s h =
      let s1 = (host.mount_builder b s).1 in
      let h1 = tracks.mount_builder b made _ s h in
      elim (Result-cases (host.mount_builder b s).0) [
        | inr (e, r) ↦ simp (r, mount_container) h1
        | inl (dir, r) ↦ elim (Bool-cases (opts.ext_mount_dir == "")) [
          | inl n ↦ simp (r, n, mount_container) h1
          | inr n ↦
              let b' : Builder = record b {
                args = some (("MOUNT_DIR", opts.ext_mount_dir) ∷ []);
              } in
              let s2 = (host.save_builder b' s1).1 in
              let h2 = tracks.save_builder b' made _ s1 h1 in
              elim (Option-cases (host.save_builder b' s1).0) [
                | inr (e, q) ↦ simp (r, n, q, mount_container) h2
                | inl q ↦
                    simp (r, n, q, mount_container)
                      (tracks.bind_mount dir opts.ext_mount_dir made _ s2 h2)
              ]
        ]
      ]

  new_builder-Made :
      (name image_name : String) (policy : PullPolicy) (made : Bool) (s : S)
      → Held made none s
      → Made Held made
          (new_builder host name image_name policy s).0
          (new_builder host name image_name policy s).1
  unfolding new_builder
  new_builder-Made name image_name policy made s h =
      let o : BuilderOptions = record {
        container = name;
        from_image = image_name;
        pull_policy = policy;
      } in
      elim (Result-cases (host.new_builder o s).0) [
        | inl (b, r) ↦ simp r (tracks.new_builder o made s b r h)
        | inr (e, r) ↦ simp r (tracks.new_builder_failed o made s e r h)
      ]

  create_builder-Made :
      (name image_name : String) (policy : PullPolicy) (made : Bool) (s : S)
      → Held made none s
      → Made Held made
          (create_builder host name image_name policy s).0
          (create_builder host name image_name policy s).1
  unfolding create_builder
  create_builder-Made name image_name policy made s h =
      let s1 = (new_builder host name image_name policy s).1 in
      let h1 = new_builder-Made name image_name policy made s h in
      elim (Result-cases (new_builder host name image_name policy s).0) [
        | inl (b, r) ↦ simp (r, create_builder) (simp r at h1)
        | inr (e, r) ↦ elim (Bool-cases (not (is_missing_image e) || image_name == "scratch")) [
          | inl t ↦ simp (r, t, create_builder) (simp r at h1)
          | inr t ↦
              simp (r, t, create_builder)
                (new_builder-Made name "scratch" pull_never made s1 (simp r at h1))
        ]
      ]

  mount_new-LeavesIn :
      (opts : MountOptions) (name image_name : String) (policy : PullPolicy) (made : Bool) (s : S)
      → Held made none s
      → LeavesIn Held made
          (mount_new host opts name image_name policy s).0.1
          (mount_new host opts name image_name policy s).1
  unfolding mount_new
  mount_new-LeavesIn opts name image_name policy made s h =
      let s1 = (create_builder host name image_name policy s).1 in
      let h1 = create_builder-Made name image_name policy made s h in
      elim (Result-cases (create_builder host name image_name policy s).0) [
        | inr (e, r) ↦ simp (r, mount_new) (simp r at h1)
        | inl (b, r) ↦
            let s2 = (mount_container host opts b s1).1 in
            let b' = (mount_container host opts b s1).0.0.1 in
            let h2 = mount_container-Held opts b made s1 (simp r at h1) in
            elim (Option-cases (mount_container host opts b s1).0.1) [
              | inl q ↦ simp (r, q, mount_new) (b'.container_id, h2)
              | inr (e, q) ↦ simp (r, q, mount_new) (discard_builder-Held b' made s2 h2)
            ]
      ]

  LeavesIn-false : (e : Option Error) (s : S) → LeavesIn Held false e s → Leaves Held false e s
  LeavesIn-false none s h = h
  LeavesIn-false (some e) s h = h

  mount_image-Leaves :
      (opts : MountOptions) (name image_name : String) (policy : PullPolicy) (s : S)
      → opts.ext_mount_dir ≡ dir
      → Held false none s
      → Leaves Held
          (not (opts.ext_mount_dir == ""))
          (mount_image host opts name image_name policy s).0.1
          (mount_image host opts name image_name policy s).1
  unfolding mount_image
  mount_image-Leaves opts name image_name policy s same h =
      let follows : Tracks host opts.ext_mount_dir Held = rw same tracks in
      let target = opts.ext_mount_dir in
      let s1 = (host.make_dir target s).1 in
      elim (Bool-cases (target == "")) [
        | inl n ↦
            simp (n, mount_image)
              (LeavesIn-false _ _ (mount_new-LeavesIn opts name image_name policy false s h))
        | inr n ↦ elim (Option-cases (host.make_dir target s).0) [
          | inr (e, m) ↦ simp (n, m, mount_image) (follows.make_dir_failed s e m h)
          | inl m ↦
              let h1 =
                mount_new-LeavesIn opts name image_name policy true s1 (follows.make_dir s m h) in
              let s2 = (mount_new host opts name image_name policy s1).1 in
              elim (Option-cases (mount_new host opts name image_name policy s1).0.1) [
                | inl q ↦ simp (n, m, q, mount_image) (simp q at h1)
                | inr (e, q) ↦ simp (n, m, q, mount_image) (follows.remove_dir s2 (simp q at h1))
              ]
        ]
      ]

  module _ (lib : Library) (storage : Storage S Ref) where
    -- Where `Held` follows the calls of the host for the options' directory, and nothing is held at first: a mount that fails leaves neither a directory nor a container that it made and did not ask the system
    -- to remove, and one that succeeds leaves a container, and the external directory if one was asked for.
    pub mount-Leaves :
        (opts : MountOptions) (s : S)
        → opts.ext_mount_dir ≡ dir
        → Held false none s
        → Leaves Held
            (not (opts.ext_mount_dir == ""))
            (mount lib storage host opts s).0.1
            (mount lib storage host opts s).1
    unfolding mount
    mount-Leaves opts s same h = elim (Option-cases (validate lib opts)) [
      | inr (e, v) ↦ simp (v, mount) h
      | inl v ↦ elim (Result-cases (container_name lib opts)) [
        | inr (e, c) ↦ simp (v, c, mount) h
        | inl (name, c) ↦ elim (Result-cases (resolve_image storage host opts)) [
          | inr (e, r) ↦ simp (v, c, r, mount) h
          | inl ((image_name, policy), r) ↦
              simp (v, c, r, mount) (mount_image-Leaves opts name image_name policy s same h)
        ]
      ]
    ]
