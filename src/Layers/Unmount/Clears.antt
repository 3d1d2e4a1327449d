-- ===== src/Layers/Unmount/Clears.antt =====
-- What a call of `Unmount` leaves of what `Mount` has made.
use k8storagex.Base.{
  ◌≡◌, String, Bool, true, false, ◌&&◌, not, Option, none, some, inl, inr, Bool-cases, Option-cases,
  Result-cases, ◌==◌, ◌!=◌, string_eq, arith, length, ltb,
}
use k8storagex.Base.Dict.{value_at}
use k8storagex.Storage.{Storage}
use k8storagex.Layers.{MountOptions}
use k8storagex.Layers.Options.{local_image_name, push_target}
use k8storagex.Layers.Builders.{Builder, Host}
use k8storagex.Layers.Unmount.{
  or_else, unmount_dir, unmount_and_delete, unmount_noted, push_image, Committed, commit,
  push_committed, commit_image, unmount_builder,
}

-- `Held` follows the calls of `Unmount`: `os.Remove` of the directory `dir` and `Delete` of the container
-- clear it, and no other call changes it.
pub record TracksUnmount {S Ref Name : Type 0} (storage : Storage S Ref) (host : Host S Ref Name)
    (dir : String) (Held : Bool → Option String → S → Type 0) : Type 0 where
  pub remove_dir :
      (held : Option String) (s : S) → Held true held s → Held false held (host.remove_dir dir s).1
  pub remove_other_dir :
      (other : String) (made : Bool) (held : Option String) (s : S)
      → (other == dir) ≡ false
      → Held made held s
      → Held made held (host.remove_dir other s).1
  pub delete_builder :
      (b : Builder) (s : S)
      → Held false (some b.container_id) s
      → Held false none (host.delete_builder b s).1
  pub unmount_dir :
      (other : String) (made : Bool) (held : Option String) (s : S)
      → Held made held s
      → Held made held (host.unmount_dir other s).1
  pub unmount_builder :
      (b : Builder) (held : Option String) (s : S)
      → Held false held s
      → Held false held (host.unmount_builder b s).1
  pub container :
      (id : String) (held : Option String) (s : S)
      → Held false held s
      → Held false held (storage.container id s).1
  pub changes :
      (id : String) (held : Option String) (s : S)
      → Held false held s
      → Held false held (storage.changes id s).1
  pub commit_builder :
      (b : Builder) (ref : Ref) (held : Option String) (s : S)
      → Held false held s
      → Held false held (host.commit_builder b ref s).1
  pub copy_image :
      (dest src : Ref) (held : Option String) (s : S)
      → Held false held s
      → Held false held (host.retry (host.copy_image dest src) s).1

module _ {S Ref Name : Type 0} (storage : Storage S Ref) (host : Host S Ref Name)
    (Held : Bool → Option String → S → Type 0) (opts : MountOptions)
    (tracks : TracksUnmount storage host opts.ext_mount_dir Held) where
  pub unmount_and_delete-world :
      (dir : String) (s : S)
      → (unmount_and_delete host dir s).1 ≡ (host.remove_dir dir (host.unmount_dir dir s).1).1
  unfolding unmount_and_delete unmount_dir
  unmount_and_delete-world dir s =
      elim (Option-cases (host.remove_dir dir (host.unmount_dir dir s).1).0) [
        | inl r ↦ ground (arith, r)
        | inr (e, r) ↦ ground (arith, r)
      ]

  unmount_noted-Held :
      (b : Builder) (held : Option String) (s : S)
      → Held false held s
      → Held false held (unmount_noted host opts b s).1
  unfolding unmount_noted
  unmount_noted-Held b held s h = elim (Option-cases b.args) [
    | inl n ↦ simp (n, unmount_noted) h
    | inr (args, n) ↦
        let dir = value_at "MOUNT_DIR" args in
        elim (Bool-cases (dir != "" && dir != opts.ext_mount_dir)) [
          | inr t ↦ simp (n, t, unmount_noted) h
          | inl t ↦
              let h1 = tracks.unmount_dir dir false held s h in
              let h2 =
                tracks.remove_other_dir dir false held (host.unmount_dir dir s).1
                  (ground (arith, t)) h1 in
              simp (n, t, unmount_noted, unmount_and_delete-world dir s) h2
        ]
  ]

  push_image-Held :
      (name : Name) (id : String) (dest : Ref) (held : Option String) (s : S)
      → Held false held s
      → Held false held (push_image host name id dest s).1
  unfolding push_image
  push_image-Held name id dest held s h = elim (Result-cases (host.store_reference name id)) [
    | inr (e, r) ↦ simp (r, push_image) h
    | inl (src, r) ↦ simp (r, push_image) (tracks.copy_image dest src held s h)
  ]

  commit-Held :
      (b : Builder) (ref : Ref) (held : Option String) (s : S)
      → Held false held s
      → Held false held (commit storage host b ref s).1
  unfolding commit
  commit-Held b ref held s h =
      let s1 = (storage.container b.container_id s).1 in
      let h1 = tracks.container b.container_id held s h in
      elim (Result-cases (storage.container b.container_id s).0) [
        | inr (e, r) ↦ simp (r, commit) h1
        | inl (c, r) ↦
            let s2 = (storage.changes c.layer_id s1).1 in
            let h2 = tracks.changes c.layer_id held s1 h1 in
            let h3 = tracks.commit_builder b ref held s2 h2 in
            elim (Result-cases (storage.changes c.layer_id s1).0) [
              | inr (e, q) ↦ simp (r, q, commit) h2
              | inl (paths, q) ↦
                  elim (Bool-cases (not (ltb 0 (length paths)) && c.image_id != "")) [
                    | inl same ↦ simp (r, q, same, commit) h2
                    | inr new ↦ elim (Result-cases (host.commit_builder b ref s2).0) [
                      | inl (made, p) ↦ simp (r, q, new, p, commit) h3
                      | inr (e, p) ↦ simp (r, q, new, p, commit) h3
                    ]
                  ]
            ]
      ]

  push_committed-Held :
      (dest : Option Ref) (c : Committed Name) (held : Option String) (s : S)
      → Held false held s
      → Held false held (push_committed storage host dest c s).1
  unfolding push_committed
  push_committed-Held dest c held s h = elim (Option-cases c.name) [
    | inl n ↦ simp (n, push_committed) h
    | inr (name, n) ↦ elim (Option-cases dest) [
      | inl d ↦ simp (n, d, push_committed) h
      | inr (ref, d) ↦
          let h1 = push_image-Held name c.image_id ref held s h in
          elim (Option-cases (push_image host name c.image_id ref s).0) [
            | inl p ↦ simp (n, d, p, push_committed) h1
            | inr (e, p) ↦ simp (n, d, p, push_committed) h1
          ]
    ]
  ]

  commit_image-Held :
      (b : Builder) (held : Option String) (s : S)
      → Held false held s
      → Held false held (commit_image storage host opts b s).1
  unfolding commit_image
  commit_image-Held b held s h =
      elim (Result-cases (storage.parse_store_reference (local_image_name opts))) [
        | inr (e, r) ↦ simp (r, commit_image) h
        | inl (ref, r) ↦ elim (Result-cases (push_target storage opts)) [
          | inr (e, q) ↦ simp (r, q, commit_image) h
          | inl (dest, q) ↦
              let s1 = (commit storage host b ref s).1 in
              let h1 = commit-Held b ref held s h in
              elim (Result-cases (commit storage host b ref s).0) [
                | inr (e, p) ↦ simp (r, q, p, commit_image) h1
                | inl (c, p) ↦ simp (r, q, p, commit_image) (push_committed-Held dest c held s1 h1)
              ]
        ]
      ]

  pub unmount_builder-Held :
      (b : Builder) (held : Option String) (s : S)
      → Held false held s
      → Held false held (unmount_builder storage host opts b s).1
  unfolding unmount_builder
  unmount_builder-Held b held s h =
      let s1 = (unmount_noted host opts b s).1 in
      let h1 = unmount_noted-Held b held s h in
      let s2 = (host.unmount_builder b s1).1 in
      let h2 = tracks.unmount_builder b held s1 h1 in
      elim (Option-cases (or_else (unmount_noted host opts b s).0 (host.unmount_builder b s1).0)) [
        | inr (e, r) ↦ simp (r, unmount_builder) h2
        | inl r ↦ elim (Bool-cases opts.commit) [
          | inl c ↦ simp (r, c, unmount_builder) (commit_image-Held b held s2 h2)
          | inr c ↦ simp (r, c, unmount_builder) h2
        ]
      ]
