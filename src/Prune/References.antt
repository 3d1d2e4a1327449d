-- ===== src/Prune/References.antt =====
-- internal/layerfs/prune.go: how an argument is resolved to an image.
use k8storagex.Base.{String, ◌<>◌, Option, none, some, Result, ok, err, Error, wrap, Io}
use k8storagex.Storage.{Image, Storage}
use k8storagex.Utils.Jobs.{wrapped}

module _ {S Ref : Type 0} (storage : Storage S Ref) where
  -- In each branch that fails, the `err` that is wrapped is a `nil` one.
  unfoldable pub proper_image_ref : String → Io S (Option Ref × Option Error)
  proper_image_ref id s = elim (storage.parse_image_name id) [
    | err _ ↦ ((none, wrap ("error parsing " <> id <> " as an image reference") none), s)
    | ok ref ↦
        let (failed, s') = storage.open_source ref s in
        elim failed [
          | none ↦ ((some ref, none), s')
          | some _ ↦ (
            (
              none,
              wrap ("error confirming presence of image reference " <> storage.name_of ref) none,
            ),
            s',
          )
        ]
  ]

  unfoldable pub storage_image_ref : String → Io S (Option Ref × Option Error)
  storage_image_ref id s =
      let ((ref, e), s') = storage.find_image id s in
      elim e [
        | none ↦ ((ref, none), s')
        | some x ↦ elim ref [
          | some r ↦ (
            (
              none,
              some (
                  wrapped
                    ("error confirming presence of storage image reference " <> storage.name_of r)
                    x),
            ),
            s',
          )
          | none ↦ (
            (none, some (wrapped ("error confirming presence of storage image name " <> id) x)),
            s',
          )
        ]
      ]

  -- Here as well, the `err` that is wrapped is a `nil` one.
  unfoldable pub storage_image_id : String → Io S (Option Ref × Option Error)
  storage_image_id id s =
      let (found, s1) = storage.image id s in
      let image_id : String = elim found [ ok image ↦ image.id | err _ ↦ id ] in
      elim (storage.parse_store_reference image_id) [
        | err _ ↦
            ((none, wrap ("error parsing " <> id <> " as a storage image reference") none), s1)
        | ok ref ↦
            let (failed, s2) = storage.open_source ref s1 in
            elim failed [
              | none ↦ ((some ref, none), s2)
              | some _ ↦ (
                (
                  none,
                  wrap
                      ("error confirming presence of storage image reference "
                        <> storage.name_of ref)
                      none,
                ),
                s2,
              )
            ]
      ]

  -- The three ways to read the argument, in order; the error is the last one's.
  unfoldable pub find_ref : String → Io S (Option Ref × Option Error)
  find_ref id s =
      let ((proper, e1), s1) = proper_image_ref id s in
      elim proper [
        | some ref ↦ ((some ref, e1), s1)
        | none ↦
            let ((relative, e2), s2) = storage_image_ref id s1 in
            elim relative [ some ref ↦ ((some ref, e2), s2) | none ↦ storage_image_id id s2 ]
      ]

  -- `nil` without an error when nothing is found
  unfoldable pub get_image : String → Io S (Result (Option Image))
  get_image id s =
      let ((found, e), s1) = find_ref id s in
      elim found [
        | none ↦ elim e [ none ↦ (ok none, s1) | some x ↦ (err x, s1) ]
        | some ref ↦
            let (image, s2) = storage.store_image ref s1 in
            elim image [
              | ok i ↦ (ok (some i), s2)
              | err x ↦ (
                err (wrapped ("error reading image using reference " <> storage.name_of ref) x),
                s2,
              )
            ]
      ]
