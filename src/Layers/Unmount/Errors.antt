-- ===== src/Layers/Unmount/Errors.antt =====
-- Which failures `Unmount` reports.
use k8storagex.Base.{
  refl, ◌∙◌, Option, ◌≢◌, ap, some, Error, sym, ◌≡◌, ◌⊎◌, String, true, ◌&&◌, none, ok, inl, inr,
  Bool-cases, Option-cases, Result-cases, ◌==◌, string_eq, if◌then◌else◌, arith,
}
use k8storagex.Library.{Library}
use k8storagex.Storage.{Storage}
use k8storagex.Layers.{MountOptions, Unmounted}
use k8storagex.Layers.Options.{validate, container_name}
use k8storagex.Layers.Builders.{Builder, Host}
use k8storagex.Layers.Unmount.{
  value_at, Dict, unmount_dir, unmount_and_delete, find_builder, unmount_noted, delete_container,
  unmount_builder, unmount_container, unmount,
}

-- After the attempt to unmount a directory and to remove it.
abbrev pub cleared : {S Ref Name : Type 0} → Host S Ref Name → String → S → S
cleared host dir s = (host.remove_dir dir (host.unmount_dir dir s).1).1

-- After the attempt for the directory of the options, if there is one.
abbrev pub entered : {S Ref Name : Type 0} → Host S Ref Name → MountOptions → S → S
entered host opts s = if opts.ext_mount_dir == "" then s else cleared host opts.ext_mount_dir s

-- The directory that the container names, if it is another one than that of the options.
abbrev pub IsNoted : MountOptions → Builder → String → Type 0
IsNoted opts b dir =
    (args : Dict String) × (b.args ≡ some args)
    × (value_at "MOUNT_DIR" args ≡ dir)
    × (dir ≢ "")
    × (dir ≢ opts.ext_mount_dir)

-- Once the unmounting of the directory was attempted, its removal succeeds or finds it gone.
abbrev pub Removed : {S Ref Name : Type 0} → Host S Ref Name → String → S → Type 0
Removed host dir s =
    ((host.remove_dir dir (host.unmount_dir dir s).1).0 ≡ none)
    ⊎ ((e : Error) × ((host.remove_dir dir (host.unmount_dir dir s).1).0 ≡ some e)
        × (host.is_not_exist e ≡ true))

-- From `s` to `t`: after the attempt for the directory of the options the container is found; the directory
-- that it names is removed; in the state after that the container is unmounted; at last it is deleted,
-- unless the call is cancelled.
pub record IsReleased {S Ref Name : Type 0} (host : Host S Ref Name) (opts : MountOptions)
    (name : String) (s t : S) : Type 0 where
  pub builder : Builder
  pub was_found : (find_builder host opts name (entered host opts s)).0 ≡ ok builder
  pub at : S
  pub after_search : at ≡ (find_builder host opts name (entered host opts s)).1
  pub then_at : S
  pub noted :
      ((dir : String) × IsNoted opts builder dir
        × Removed host dir at
        × (then_at ≡ cleared host dir at))
      ⊎ ((¬ ((dir : String) × IsNoted opts builder dir)) × (then_at ≡ at))
  pub unmounted : (host.unmount_builder builder then_at).0 ≡ none
  pub deleted :
      (u : S) × (((host.is_cancelled u ≡ true) × (t ≡ u))
        ⊎ (((host.delete_builder builder u).0 ≡ none) × (t ≡ (host.delete_builder builder u).1)))

module _ {S Ref Name : Type 0} (storage : Storage S Ref) (host : Host S Ref Name) where
  delete_container_ok :
      (b : Builder) (r : Unmounted) (s : S)
      → (delete_container host b (r, s)).0.error ≡ none
      → (r.error ≡ none)
        × (((host.is_cancelled s ≡ true) × ((delete_container host b (r, s)).1 ≡ s))
            ⊎ (((host.delete_builder b s).0 ≡ none)
                × ((delete_container host b (r, s)).1 ≡ (host.delete_builder b s).1)))
  unfolding delete_container
  delete_container_ok b r s h = elim (Bool-cases (host.is_cancelled s)) [
    | inl c ↦ (ground (arith, c, h), inl (c, ground (arith, c)))
    | inr c ↦ elim (Option-cases r.error) [
      | inl n ↦ (n, inr (ground (arith, c, n, h), ground (arith, c)))
      | inr (e, n) ↦ absurd (ground (arith, c, n, h))
    ]
  ]

  unmount_and_delete_state :
      (dir : String) (s : S) → (unmount_and_delete host dir s).1 ≡ cleared host dir s
  unfolding unmount_and_delete unmount_dir
  unmount_and_delete_state dir s =
      elim (Option-cases (host.remove_dir dir (host.unmount_dir dir s).1).0) [
        | inl n ↦ ground (arith, n)
        | inr (e, n) ↦ ground (arith, n)
      ]

  unmount_and_delete-Removed :
      (dir : String) (s : S) → (unmount_and_delete host dir s).0 ≡ none → Removed host dir s
  unfolding unmount_and_delete unmount_dir
  unmount_and_delete-Removed dir s h =
      elim (Option-cases (host.remove_dir dir (host.unmount_dir dir s).1).0) [
        | inl n ↦ inl n
        | inr (e, n) ↦ elim (Bool-cases (host.is_not_exist e)) [
          | inl b ↦ inr (e, n, b)
          | inr b ↦ absurd (ground (arith, n, b, h))
        ]
      ]

  unmount_noted_cases :
      (opts : MountOptions) (b : Builder) (s : S)
      → ((dir : String) × IsNoted opts b dir
          × (unmount_noted host opts b s ≡ unmount_and_delete host dir s))
        ⊎ ((¬ ((dir : String) × IsNoted opts b dir)) × (unmount_noted host opts b s ≡ (none, s)))
  unfolding unmount_noted
  unmount_noted_cases opts b s = elim (Option-cases b.args) [
    | inl a ↦ inr (λ (dir, (args', r, v, full, other)). ground (arith, a, r), ground (arith, a))
    | inr (args, a) ↦
        let dir = value_at "MOUNT_DIR" args in
        elim (Bool-cases (dir == "")) [
          | inl e ↦ inr (
            λ (x, (args', r, v, full, other)). ground (arith, a, r, v, e, full),
            ground (arith, a, e),
          )
          | inr e ↦ elim (Bool-cases (dir == opts.ext_mount_dir)) [
            | inl q ↦ inr (
              λ (x, (args', r, v, full, other)). ground (arith, a, r, v, q, other),
              ground (arith, a, e, q),
            )
            | inr q ↦ inl (
              dir,
              (args, a, refl, (λ i. ground (arith, e, i)), (λ i. ground (arith, q, i))),
              ground (arith, a, e, q),
            )
          ]
        ]
  ]

  -- What the step for that directory comes to, when it reports no error.
  unmount_noted_ok :
      (opts : MountOptions) (b : Builder) (s : S)
      → (unmount_noted host opts b s).0 ≡ none
      → ((dir : String) × IsNoted opts b dir
          × Removed host dir s
          × ((unmount_noted host opts b s).1 ≡ cleared host dir s))
        ⊎ ((¬ ((dir : String) × IsNoted opts b dir)) × ((unmount_noted host opts b s).1 ≡ s))
  unmount_noted_ok opts b s h = elim (unmount_noted_cases opts b s) [
    | inl (dir, noted, call) ↦ inl (
      dir,
      noted,
      unmount_and_delete-Removed dir s (sym (ap (λ (o : Option Error × S). o.0) call) ∙ h),
      ap (λ (o : Option Error × S). o.1) call ∙ unmount_and_delete_state dir s,
    )
    | inr (nowhere, call) ↦ inr (nowhere, ap (λ (o : Option Error × S). o.1) call)
  ]

  unmount_builder_ok :
      (opts : MountOptions) (b : Builder) (s : S)
      → (unmount_builder storage host opts b s).0.error ≡ none
      → ((unmount_noted host opts b s).0 ≡ none)
        × ((host.unmount_builder b (unmount_noted host opts b s).1).0 ≡ none)
  unfolding unmount_builder
  unmount_builder_ok opts b s h = elim (Option-cases (unmount_noted host opts b s).0) [
    | inr (e, r) ↦ absurd (ground (arith, r, h))
    | inl r ↦ elim (Option-cases (host.unmount_builder b (unmount_noted host opts b s).1).0) [
      | inr (e, q) ↦ absurd (ground (arith, r, q, h))
      | inl q ↦ (r, q)
    ]
  ]

  entered_state :
      (opts : MountOptions) (s : S)
      → (if opts.ext_mount_dir == "" then s else (unmount_and_delete host opts.ext_mount_dir s).1)
        ≡ entered host opts s
  entered_state opts s = elim (Bool-cases (opts.ext_mount_dir == "")) [
    | inl e ↦ ground (arith, e)
    | inr e ↦ ground (arith, e, unmount_and_delete_state opts.ext_mount_dir s)
  ]

  found-IsReleased :
      (opts : MountOptions) (name : String) (b : Builder) (s : S)
      → (find_builder host opts name (entered host opts s)).0 ≡ ok b
      → let s2 = (find_builder host opts name (entered host opts s)).1 in
        let out = delete_container host b (unmount_builder storage host opts b s2) in
        out.0.error ≡ none → IsReleased host opts name s out.1
  found-IsReleased opts name b s r h =
      let s2 = (find_builder host opts name (entered host opts s)).1 in
      let (u, t) = unmount_builder storage host opts b s2 in
      let (good, deleted) = delete_container_ok b u t h in
      let (noted, unmounted) = unmount_builder_ok opts b s2 good in
      record {
        builder = b;
        was_found = r;
        at = s2;
        after_search = refl;
        then_at = (unmount_noted host opts b s2).1;
        noted = unmount_noted_ok opts b s2 noted;
        unmounted = unmounted;
        deleted = (t, deleted);
      }

  unmount_container-IsReleased :
      (opts : MountOptions) (name : String) (s : S)
      → (unmount_container storage host opts name s).0.error ≡ none
      → IsReleased host opts name s (unmount_container storage host opts name s).1
  unfolding unmount_container
  unmount_container-IsReleased opts name s h =
      elim (Result-cases (find_builder host opts name (entered host opts s)).0) [
        | inr (e, r) ↦ absurd (ground (arith, entered_state opts s, r, h))
        | inl (b, r) ↦
            let good = simp (unmount_container, entered_state opts s, r) at h in
            simp (unmount_container, entered_state opts s, r)
              (found-IsReleased opts name b s r good)
      ]

module _ {S Ref Name : Type 0} (lib : Library) (storage : Storage S Ref)
    (host : Host S Ref Name) where
  -- Without an error the options have a container's name, and the call did this, each in the state that the
  -- one before left: it tried to unmount and to remove the directory of the options, if there is one, whose
  -- failure is not reported; it found the container; it tried to unmount another directory that the
  -- container names, and removed it or found it gone; it unmounted the container without an error; and
  -- after what else it did, its last call deleted the container without an error, unless it was cancelled.
  pub unmount-IsReleased :
      (opts : MountOptions) (s : S)
      → (unmount lib storage host opts s).0.error ≡ none
      → (name : String) × (container_name lib opts ≡ ok name)
        × IsReleased host opts name s (unmount lib storage host opts s).1
  unfolding unmount
  unmount-IsReleased opts s h = elim (Option-cases (validate lib opts)) [
    | inr (e, v) ↦ absurd (ground (arith, v, h))
    | inl v ↦ elim (Bool-cases (opts.container_name == "" && opts.ext_mount_dir == "")) [
      | inl n ↦ absurd (ground (arith, v, n, h))
      | inr n ↦ elim (Result-cases (container_name lib opts)) [
        | inr (e, c) ↦ absurd (ground (arith, v, n, c, h))
        | inl (name, c) ↦
            let good = simp (unmount, v, n, c) at h in
            simp (unmount, v, n, c)
              (name, refl, unmount_container-IsReleased storage host opts name s good)
      ]
    ]
  ]
