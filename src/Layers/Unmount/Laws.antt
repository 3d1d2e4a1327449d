-- ===== src/Layers/Unmount/Laws.antt =====
-- What the results of `Unmount` say.
use k8storagex.Base.{
  ◌≡◌, ◌⊎◌, String, true, ◌&&◌, not, none, some, ok, inl, inr, Bool-cases, Option-cases,
  Result-cases, ◌==◌, ◌!=◌, string_eq, if◌then◌else◌, arith, length, ltb,
}
use k8storagex.Library.{Library}
use k8storagex.Storage.{Storage}
use k8storagex.Layers.{MountOptions, Unmounted}
use k8storagex.Layers.Options.{validate, container_name, local_image_name, image_ref, push_target}
use k8storagex.Layers.Builders.{Builder, Host}
use k8storagex.Layers.Unmount.{
  or_else, unmount_and_delete, find_builder, unmount_noted, push_image, delete_container, Committed,
  commit, push_committed, commit_image, unmount_builder, unmount_container, unmount,
}

module _ {S Ref Name : Type 0} (storage : Storage S Ref) (host : Host S Ref Name) where
  -- The image was committed from a container, and pushed where the options name an image.
  pub record IsNew (opts : MountOptions) (image_id : String) : Type 0 where
    pub wanted : opts.commit ≡ true
    pub builder : Builder
    pub ref : Ref
    pub name : Name
    pub committed : (s : S) × ((host.commit_builder builder ref s).0 ≡ ok (image_id, name))
    pub pushed :
        (opts.image ≡ "")
        ⊎ ((dest : Ref) × (s : S) × ((push_image host name image_id dest s).0 ≡ none))

  commit-name :
      (b : Builder) (ref : Ref) (s : S) (c : Committed Name) (name : Name)
      → (commit storage host b ref s).0 ≡ ok c
      → c.name ≡ some name
      → (t : S) × ((host.commit_builder b ref t).0 ≡ ok (c.image_id, name))
  unfolding commit
  commit-name b ref s c name h n =
      let s1 = (storage.container b.container_id s).1 in
      elim (Result-cases (storage.container b.container_id s).0) [
        | inr (e, r) ↦ absurd (ground (arith, r, h))
        | inl (k, r) ↦
            let s2 = (storage.changes k.layer_id s1).1 in
            elim (Result-cases (storage.changes k.layer_id s1).0) [
              | inr (e, q) ↦ absurd (ground (arith, r, q, h))
              | inl (paths, q) ↦
                  elim (Bool-cases (not (ltb 0 (length paths)) && k.image_id != "")) [
                    | inl same ↦ absurd (ground (arith, r, q, same, h, n))
                    | inr new ↦ elim (Result-cases (host.commit_builder b ref s2).0) [
                      | inr (e, p) ↦ absurd (ground (arith, r, q, new, p, h))
                      | inl ((id, name'), p) ↦ (s2, ground (arith, r, q, new, p, h, n))
                    ]
                  ]
            ]
      ]

  push_target-none : (opts : MountOptions) → push_target storage opts ≡ ok none → opts.image ≡ ""
  unfolding push_target
  push_target-none opts h = elim (Bool-cases (opts.image == "")) [
    | inl e ↦ ground (arith, e)
    | inr e ↦ elim (Result-cases (image_ref storage opts)) [
      | inl (ref, r) ↦ absurd (ground (arith, e, r, h))
      | inr (x, r) ↦ absurd (ground (arith, e, r, h))
    ]
  ]

  commit_image-IsNew :
      (opts : MountOptions) (b : Builder) (s : S)
      → opts.commit ≡ true
      → (commit_image storage host opts b s).0.new_image ≡ true
      → IsNew opts (commit_image storage host opts b s).0.image_id
  unfolding commit_image push_committed
  commit_image-IsNew opts b s wanted h =
      elim (Result-cases (storage.parse_store_reference (local_image_name opts))) [
        | inr (e, r) ↦ absurd (ground (arith, r, h))
        | inl (ref, r) ↦ elim (Result-cases (push_target storage opts)) [
          | inr (e, q) ↦ absurd (ground (arith, r, q, h))
          | inl (dest, q) ↦
              let s1 = (commit storage host b ref s).1 in
              elim (Result-cases (commit storage host b ref s).0) [
                | inr (e, p) ↦ absurd (ground (arith, r, q, p, h))
                | inl (c, p) ↦ elim (Option-cases c.name) [
                  | inl n ↦ absurd (ground (arith, r, q, p, n, h))
                  | inr (name, n) ↦
                      let made = commit-name b ref s c name p n in
                      elim (Option-cases dest) [
                        | inl d ↦
                            simp (r, q, p, n, d, commit_image, push_committed)
                              (record {
                                wanted = wanted;
                                builder = b;
                                ref = ref;
                                name = name;
                                committed = made;
                                pushed = inl (push_target-none opts (ground (arith, q, d)));
                              })
                        | inr (target, d) ↦
                            elim (Option-cases (push_image host name c.image_id target s1).0) [
                              | inr (e, u) ↦ absurd (ground (arith, r, q, p, n, d, u, h))
                              | inl u ↦
                                  simp (r, q, p, n, d, u, commit_image, push_committed)
                                    (record {
                                      wanted = wanted;
                                      builder = b;
                                      ref = ref;
                                      name = name;
                                      committed = made;
                                      pushed = inr (target, s1, u);
                                    })
                            ]
                      ]
                ]
              ]
        ]
      ]

  unmount_builder-IsNew :
      (opts : MountOptions) (b : Builder) (s : S)
      → (unmount_builder storage host opts b s).0.new_image ≡ true
      → IsNew opts (unmount_builder storage host opts b s).0.image_id
  unfolding unmount_builder
  unmount_builder-IsNew opts b s h =
      let s1 = (unmount_noted host opts b s).1 in
      let s2 = (host.unmount_builder b s1).1 in
      elim (Option-cases (or_else (unmount_noted host opts b s).0 (host.unmount_builder b s1).0)) [
        | inr (e, r) ↦ absurd (ground (arith, r, h))
        | inl r ↦ elim (Bool-cases opts.commit) [
          | inr c ↦ absurd (ground (arith, r, c, h))
          | inl c ↦
              simp (r, c, unmount_builder)
                (commit_image-IsNew opts b s2 c (ground (arith, r, c, h)))
        ]
      ]

  delete_container-image :
      (b : Builder) (r : Unmounted) (s : S)
      → ((delete_container host b (r, s)).0.new_image ≡ r.new_image)
        × ((delete_container host b (r, s)).0.image_id ≡ r.image_id)
  unfolding delete_container
  delete_container-image b r s = (ground arith, ground arith)

  unmount_container-IsNew :
      (opts : MountOptions) (name : String) (s : S)
      → (unmount_container storage host opts name s).0.new_image ≡ true
      → IsNew opts (unmount_container storage host opts name s).0.image_id
  unfolding unmount_container
  unmount_container-IsNew opts name s h =
      let s1 =
        if opts.ext_mount_dir == "" then s else (unmount_and_delete host opts.ext_mount_dir s).1 in
      let s2 = (find_builder host opts name s1).1 in
      elim (Result-cases (find_builder host opts name s1).0) [
        | inr (e, r) ↦ absurd (ground (arith, r, h))
        | inl (b, r) ↦
            let (u, t) = unmount_builder storage host opts b s2 in
            let (same_flag, same_id) = delete_container-image b u t in
            let new = unmount_builder-IsNew opts b s2 (ground (arith, r, same_flag, h)) in
            simp (r, unmount_container, same_id) new
      ]

module _ {S Ref Name : Type 0} (lib : Library) (storage : Storage S Ref)
    (host : Host S Ref Name) where
  -- A new image is reported only if a commit was asked for, and then the image was committed from a
  -- container, and pushed without an error where the options name an image.
  pub unmount-IsNew :
      (opts : MountOptions) (s : S)
      → (unmount lib storage host opts s).0.new_image ≡ true
      → IsNew storage host opts (unmount lib storage host opts s).0.image_id
  unfolding unmount
  unmount-IsNew opts s h = elim (Option-cases (validate lib opts)) [
    | inr (e, v) ↦ absurd (ground (arith, v, h))
    | inl v ↦ elim (Bool-cases (opts.container_name == "" && opts.ext_mount_dir == "")) [
      | inl n ↦ absurd (ground (arith, v, n, h))
      | inr n ↦ elim (Result-cases (container_name lib opts)) [
        | inr (e, c) ↦ absurd (ground (arith, v, n, c, h))
        | inl (name, c) ↦
            simp (v, n, c, unmount)
              (unmount_container-IsNew storage host opts name s (ground (arith, v, n, c, h)))
      ]
    ]
  ]
