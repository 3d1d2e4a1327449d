-- ===== src/Registry/Laws.antt =====
-- What the registry holds after its operations, and what it never holds.
use mathlib.Core.Path.{subst}
use mathlib.Core.Option.{some-injective}
use k8storagex.Base.{
  ◌!=◌, ◌≢◌, ◌⊎◌, Bool-cases, true, ◌≡◌, String, none, some, List, [], ◌∷◌, Error, wrap, arith,
  Option-cases, inl, inr, ◌==◌, string_eq, if◌then◌else◌,
}
use k8storagex.Base.Dict
use k8storagex.Api.Provisioner.{StorageProvisioner, provisioner_name}
use k8storagex.Library.{Library}
use k8storagex.Registry.{
  Registry, is_taken, validate_provisioner, put, get, delete, load_provisioners,
}

module _ (lib : Library) where
  -- A provisioner that is put without error is found under its name, and all other names are as before.
  pub get-put :
      (r : Registry) (p : StorageProvisioner) (name : String)
      → (put lib r p).1 ≡ none
      → get (put lib r p).0 name ≡ (if provisioner_name p == name then some p else get r name)
  unfolding put get
  get-put r p name h = elim (Option-cases (validate_provisioner lib p)) [
    | inr (e, failed) ↦ absurd (unfold wrap in ground (arith, failed, h))
    | inl valid ↦ ground (arith, valid, h, Dict.lookup-insert (provisioner_name p) name (some p) r)
  ]

  get-put_failed :
      (r : Registry) (p : StorageProvisioner) (name : String) (e : Error)
      → (put lib r p).1 ≡ some e
      → get (put lib r p).0 name ≡ (elim (validate_provisioner lib p) [
        | some _ ↦ get r name
        | none ↦ if provisioner_name p == name then none else get r name
      ])
  unfolding put get
  get-put_failed r p name e h = elim (Option-cases (validate_provisioner lib p)) [
    | inr (x, failed) ↦ ground (arith, failed, h)
    | inl valid ↦ ground (arith, valid, h, Dict.lookup-insert (provisioner_name p) name none r)
  ]

  -- The name is disabled, or held by a resource of another name or namespace.
  abbrev pub IsHeld : Registry → StorageProvisioner → Type 0
  IsHeld r p =
      (Dict.lookup (provisioner_name p) r ≡ some none)
      ⊎ ((q : StorageProvisioner) × (Dict.lookup (provisioner_name p) r ≡ some (some q))
          × ((q.meta.name ≢ p.meta.name) ⊎ (q.meta.namespace ≢ p.meta.namespace)))

  is_taken-IsHeld : (r : Registry) (p : StorageProvisioner) → is_taken r p ≡ true → IsHeld r p
  unfolding is_taken
  is_taken-IsHeld r p h = elim (Option-cases (Dict.lookup (provisioner_name p) r)) [
    | inl l ↦ absurd (ground (arith, l, h))
    | inr (o, l) ↦ elim (Option-cases o) [
      | inl n ↦ inl (ground (arith, l, n))
      | inr (q, n) ↦ elim (Bool-cases (p.meta.name != q.meta.name)) [
        | inl b ↦ inr (q, ground (arith, l, n), inl (λ same. ground (arith, b, same)))
        | inr b ↦ inr (q, ground (arith, l, n), inr (λ same. ground (arith, l, n, b, h, same)))
      ]
    ]
  ]

  -- A put that fails either finds the provisioner invalid and leaves the registry as it is, or finds it valid
  -- and its name disabled before or held by a resource of another name or namespace; then the name is
  -- disabled, and no other entry changes.
  pub put_failed :
      (r : Registry) (p : StorageProvisioner) (e : Error)
      → (put lib r p).1 ≡ some e
      → ((x : Error) × (validate_provisioner lib p ≡ some x) × ((put lib r p).0 ≡ r))
        ⊎ ((validate_provisioner lib p ≡ none)
            × IsHeld r p
            × ((name : String)
                → Dict.lookup name (put lib r p).0
                  ≡ (if provisioner_name p == name then some none else Dict.lookup name r)))
  unfolding put
  put_failed r p e h = elim (Option-cases (validate_provisioner lib p)) [
    | inr (x, failed) ↦ inl (x, failed, ground (arith, failed))
    | inl valid ↦ elim (Bool-cases (is_taken r p)) [
      | inr free ↦ absurd (ground (arith, valid, free, h))
      | inl taken ↦ inr (
        valid,
        is_taken-IsHeld r p taken,
        λ name. ground (arith, valid, taken, Dict.lookup-insert (provisioner_name p) name none r),
      )
    ]
  ]

  put_disabled :
      (r : Registry) (p : StorageProvisioner) (name : String)
      → Dict.lookup name r ≡ some none
      → Dict.lookup name (put lib r p).0 ≡ some none
  unfolding put is_taken
  put_disabled r p name h = elim (Option-cases (validate_provisioner lib p)) [
    | inr (e, failed) ↦ ground (arith, failed, h)
    | inl valid ↦ ground (
      arith,
      valid,
      h,
      Dict.lookup-insert (provisioner_name p) name none r,
      Dict.lookup-insert (provisioner_name p) name (some p) r,
    )
  ]

  -- A name that was disabled by a conflict stays disabled, whatever provisioners are put afterwards.
  disabled_forever :
      (ps : List StorageProvisioner) (r : Registry) (name : String)
      → Dict.lookup name r ≡ some none
      → Dict.lookup name (load_provisioners lib r ps) ≡ some none
  unfolding load_provisioners
  disabled_forever [] r name h = h
  disabled_forever (p ∷ ps) r name h =
      disabled_forever ps (put lib r p).0 name (put_disabled r p name h)

  put_valid :
      (r : Registry) (p : StorageProvisioner)
      → (put lib r p).1 ≡ none
      → validate_provisioner lib p ≡ none
  unfolding put wrap
  put_valid r p h = ground arith

  -- Each provisioner that can be got has passed the validation and stands under its own name.
  abbrev pub IsSound : Registry → Type 0
  IsSound r =
      (name : String) (p : StorageProvisioner)
      → get r name ≡ some p
      → (validate_provisioner lib p ≡ none) × (provisioner_name p ≡ name)

  pub put-IsSound : (r : Registry) (p : StorageProvisioner) → IsSound r → IsSound (put lib r p).0
  put-IsSound r p sound name q found = elim (Option-cases (put lib r p).1) [
    | inl fine ↦ elim (string_eq.dec (provisioner_name p) name) [
      | yes same ↦
          let e : some p ≡ some q = ground (arith, get-put r p name fine, found, same) in
          subst (λ x. (validate_provisioner lib x ≡ none) × (provisioner_name x ≡ name))
            (some-injective p q e) (put_valid r p fine, same)
      | no other ↦ ground (arith, get-put r p name fine, found, other, sound name q)
    ]
    | inr (e, failed) ↦ ground (arith, get-put_failed r p name e failed, sound name q, found)
  ]

  -- Deleting a name keeps the registry sound.
  pub delete-IsSound : (r : Registry) (p : StorageProvisioner) → IsSound r → IsSound (delete r p)
  unfolding delete get
  delete-IsSound r p sound name q found =
      ground (arith, Dict.lookup-erase (provisioner_name p) name r, sound name q, found)

  -- Loading any list of provisioners keeps the registry sound.
  pub load_provisioners-IsSound :
      (ps : List StorageProvisioner) (r : Registry)
      → IsSound r
      → IsSound (load_provisioners lib r ps)
  unfolding load_provisioners
  load_provisioners-IsSound [] r h = h
  load_provisioners-IsSound (p ∷ ps) r h =
      load_provisioners-IsSound ps (put lib r p).0 (put-IsSound r p h)
