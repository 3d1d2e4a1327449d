-- ===== src/Prune/Delete.antt =====
-- internal/layerfs/prune.go: `Prune` and `deleteImages`. The errors that are printed only are left out.
pub mod Finish
pub mod Removable
pub mod Safety
use text.Mathlib.Text.{starts_with}
use k8storagex.Base.{
  ℕ, String, ◌<>◌, Bool, true, false, ◌&&◌, not, Option, none, some, List, [], ◌∷◌, length, ltb,
  leb, Reason, Result, ok, err, Error, new_error, wrap, Io, if◌then◌else◌,
}
use k8storagex.Base.Reason.{other}
use k8storagex.Storage.{Image, Storage}
use k8storagex.Utils.Jobs.{wrapped}
use k8storagex.Prune.{Run, finished, panicked, unfinished}
use k8storagex.Prune.Parents.{image_is_parent}
use k8storagex.Prune.References.{get_image}
use k8storagex.Prune.Remove.{untag_image, running_containers, remove_containers, remove_image}

-- `lastError` after the loop over the containers that use the image.
unfoldable pub used_by : Error → String → List String → Option Error → Option Error
used_by image_used id [] last = last
used_by image_used id (c ∷ containers) last = used_by image_used id containers (
    some (
      wrapped
        ("Could not remove image " <> id <> " (must force) - container " <> c
          <> " is using its reference image")
        image_used))

-- The loop of `findDanglingImages`.
unfoldable pub dangling_ids : List Image → List String
dangling_ids [] = []
dangling_ids (image ∷ images) =
    if ltb 0 (length image.names) then dangling_ids images else image.id ∷ dangling_ids images

-- `lastError` after the call of `removeImage`.
unfoldable pub after_removal :
    String → Option Error → Run (String × Option Error) → Run (Option Error)
after_removal id last (finished (_, none)) = finished last
after_removal id last (finished (_, some e)) =
    finished (some (wrapped ("error removing image " <> id) e))
after_removal id last panicked = panicked
after_removal id last unfinished = unfinished

-- `rounds` is the bound of `remove_image`; the flags are those of `deleteImages`. Each step of the loop
-- maps `lastError` to what it is afterwards.
module _ {S Ref : Type 0} (storage : Storage S Ref) (rounds : ℕ)
    (remove_all force prune : Bool) where
  -- From `imageIsParent` on.
  unfoldable pub delete_childless : Image → Option Error → Io S (Run (Option Error))
  delete_childless image last s =
      let (parent, s1) = image_is_parent storage image s in
      elim parent [
        | err e ↦ (
          finished
              (some (wrapped ("error determining if the image " <> image.id <> " is a parent") e)),
          s1,
        )
        | ok is_parent ↦
            if ltb 0 (length image.names) && not remove_all
            then (finished last, s1)
            else if is_parent && not (ltb 0 (length image.names)) && not remove_all
            then (
              finished (
                  if prune
                  then last
                  else some (
                      new_error (
                        "unable to delete " <> image.id
                        <> " (cannot be forced) - image has dependent child images"))),
              s1,
            )
            else let (removed, s2) = remove_image storage rounds image s1 in
              (after_removal image.id last removed, s2)
      ]

  -- From the test whether the argument is an ID on. When the image is gone after it was untagged,
  -- `lastError` wraps a `nil` error, and the loop goes on with the image as it was.
  unfoldable pub untag_and_delete : String → Image → Option Error → Io S (Run (Option Error))
  untag_and_delete id image last s =
      if starts_with image.id id
      then (if ltb 1 (length image.names) && not force
          then (
            finished (
                some (
                  new_error (
                    "unable to delete " <> image.id
                    <> " (must force) - image is referred to in multiple tags"))),
            s,
          )
          else delete_childless (record image { names = [] }) last s)
      else let (untagged, s1) = untag_image storage id image s in
        elim untagged [
          | panicked ↦ (panicked, s1)
          | unfinished ↦ (unfinished, s1)
          | finished (err e) ↦ (
            finished (some (wrapped ("error removing tag " <> id <> " from image " <> image.id) e)),
            s1,
          )
          | finished (ok _) ↦
              let (again, s2) = get_image storage image.id s1 in
              let m : String = "error getting image after untag " <> image.id in
              elim again [
                | err e ↦ delete_childless image (wrap m (some e)) s2
                | ok none ↦ delete_childless image (wrap m none) s2
                | ok (some image1) ↦ delete_childless image1 last s2
              ]
        ]

  -- From the containers on.
  unfoldable pub delete_unused : String → Image → Option Error → Io S (Run (Option Error))
  delete_unused id image last s =
      let (running, s1) = running_containers storage image s in
      elim running [
        | err e ↦
            (finished (some (wrapped ("error getting running containers for image " <> id) e)), s1)
        | ok containers ↦
            if ltb 0 (length containers) && leb (length image.names) 1
            then (if force
                then (let (failed, s2) = remove_containers storage containers s1 in
                    elim failed [
                      | some e ↦ (
                        finished (some (wrapped ("error removing containers for image " <> id) e)),
                        s2,
                      )
                      | none ↦ untag_and_delete id image last s2
                    ])
                else (finished (used_by storage.image_used id containers last), s1))
            else untag_and_delete id image last s1
      ]

  unfoldable pub delete_image : String → Option Error → Io S (Run (Option Error))
  delete_image id last s =
      let (found, s1) = get_image storage id s in
      elim found [
        | err e ↦ (finished (some (wrapped ("could not get image " <> id) e)), s1)
        | ok none ↦
            (finished (some (wrapped ("could not get image " <> id) storage.not_an_image)), s1)
        | ok (some image) ↦
            if image.read_only
            then (
              finished (
                  some (wrapped ("can not remove readonly image " <> id) storage.invalid_argument)),
              s1,
            )
            else delete_unused id image last s1
      ]

  -- The loop of `deleteImages`; it begins with `none`.
  unfoldable pub delete_images : List String → Option Error → Io S (Run (Option Error))
  delete_images [] last s = (finished last, s)
  delete_images (id ∷ ids) last s =
      let (step, s') = delete_image id last s in
      elim step [
        | finished last' ↦ delete_images ids last' s'
        | panicked ↦ (panicked, s')
        | unfinished ↦ (unfinished, s')
      ]

module _ {S Ref : Type 0} (storage : Storage S Ref) where
  unfoldable pub find_dangling_images : Io S (Result (List String))
  find_dangling_images s =
      let (listed, s') = storage.images s in
      elim listed [
        | err e ↦ (err (wrapped "error reading images" e), s')
        | ok images ↦ (ok (dangling_ids images), s')
      ]

  unfoldable pub prune_images : ℕ → Io S (Run (Option Error))
  prune_images rounds s =
      let (found, s') = find_dangling_images s in
      elim found [
        | err e ↦ (finished (some e), s')
        | ok ids ↦ delete_images storage rounds false false true ids none s'
      ]
