-- ===== src/Prune/Remove.antt =====
-- internal/layerfs/prune.go: removing one image with the images that it was built on, its names, and
-- its containers.
pub mod Finish
use text.Mathlib.Text.{find?}
use Prim.Native.String.{slice}
use k8storagex.Base.{
  ℕ, zero, suc, ◌+◌, ◌-◌, String, ◌<>◌, len, Bool, true, false, ◌&&◌, ◌||◌, Option, none, some,
  List, [], ◌∷◌, ◌++◌, length, ltb, leb, Result, ok, err, Error, Io, ◌==◌, ◌!=◌, string_eq,
  if◌then◌else◌,
}
use k8storagex.Base.Text.{has_suffix}
use k8storagex.Storage.{Image, Container, Storage}
use k8storagex.Utils.Jobs.{wrapped}
use k8storagex.Prune.{Run, finished, panicked, unfinished}
use k8storagex.Prune.Parents.{get_parent, image_is_parent}

-- `strings.Split(s, ":")[0]`
unfoldable pub before_colon : String → String
before_colon s = elim (find? s ":") [ none ↦ s | some i ↦ slice s 0 i ]

-- `strings.Split(s, ":")[1]`, `none` out of range
unfoldable pub after_colon : String → Option String
unfolding before_colon
after_colon s = elim (find? s ":") [
  | none ↦ none
  | some i ↦ some (before_colon (slice s (i + 1) (len s)))
]

unfoldable pub matches_reference : String → String → Run Bool
matches_reference name arg = if arg == "" then finished true else elim (after_colon arg) [
  | none ↦ finished (has_suffix (before_colon name) arg)
  | some arg_tag ↦
      if has_suffix (before_colon name) (before_colon arg)
      then elim (after_colon name) [ none ↦ panicked | some tag ↦ finished (tag == arg_tag) ]
      else finished false
]

-- The loop of `untagImage`, with the names kept and the name removed so far.
unfoldable pub sort_names : String → List String → String → List String → Run (List String × String)
sort_names arg kept removed [] = finished (kept, removed)
sort_names arg kept removed (name ∷ names) = elim (matches_reference name arg) [
  | finished true ↦ sort_names arg kept name names
  | finished false ↦ sort_names arg (kept ++ name ∷ []) removed names
  | panicked ↦ panicked
  | unfinished ↦ unfinished
]

-- The loop of `runningContainers`, for the image with this ID.
unfoldable pub containers_of : String → List Container → List String
containers_of id [] = []
containers_of id (c ∷ containers) =
    if c.image_id == id then c.id ∷ containers_of id containers else containers_of id containers

module _ {S Ref : Type 0} (storage : Storage S Ref) where
  unfoldable pub untag_image : String → Image → Io S (Run (Result String))
  untag_image arg image s = elim (sort_names arg [] "" image.names) [
    | panicked ↦ (panicked, s)
    | unfinished ↦ (unfinished, s)
    | finished (kept, removed) ↦
        if removed != ""
        then (let (failed, s') = storage.set_names image.id kept s in
            elim failed [
              | none ↦ (finished (ok removed), s')
              | some e ↦ (
                finished (
                    err (
                      wrapped ("error removing name " <> removed <> " from image " <> image.id) e)),
                s',
              )
            ])
        else (finished (ok removed), s)
  ]

  unfoldable pub running_containers : Image → Io S (Result (List String))
  running_containers image s =
      let (listed, s') = storage.containers s in
      elim listed [ err e ↦ (err e, s') | ok c ↦ (ok (containers_of image.id c), s') ]

  unfoldable pub remove_containers : List String → Io S (Option Error)
  remove_containers [] s = (none, s)
  remove_containers (id ∷ ids) s =
      let (failed, s') = storage.delete_container id s in
      elim failed [
        | some e ↦ (some (wrapped ("could not remove container " <> id) e), s')
        | none ↦ remove_containers ids s'
      ]

  -- The loop of `removeImage` for the image `id`, over the images that it was built on. The number bounds
  -- its rounds; the code has no bound.
  unfoldable pub remove_parents : ℕ → String → Option Image → Io S (Run (String × Option Error))
  remove_parents rounds id none s = (finished (id, none), s)
  remove_parents zero id (some parent) s = (unfinished, s)
  remove_parents (suc rounds) id (some parent) s =
      let (next, s1) = get_parent storage parent s in
      elim next [
        | err e ↦ (finished (id, some (wrapped ("unable to get parent from image " <> id) e)), s1)
        | ok next_parent ↦
            let (is_parent, s2) = image_is_parent storage parent s1 in
            elim is_parent [
              | err e ↦ (
                finished (
                  id,
                  some (wrapped ("unable to get check if image " <> id <> " is a parent") e),
                ),
                s2,
              )
              | ok yes_or_no ↦
                  let rest =
                    remove_parents rounds id next_parent (storage.delete_image parent.id s2).1 in
                  if ltb 0 (length parent.names) || yes_or_no
                  then (finished (id, none), s2)
                  else rest
            ]
      ]

  unfoldable pub remove_image : ℕ → Image → Io S (Run (String × Option Error))
  remove_image rounds image s =
      let (parent, s1) = get_parent storage image s in
      elim parent [
        | err e ↦ (finished ("", some e), s1)
        | ok p ↦
            let (failed, s2) = storage.delete_image image.id s1 in
            elim failed [
              | some e ↦
                  (finished ("", some (wrapped ("could not remove image " <> image.id) e)), s2)
              | none ↦ remove_parents rounds image.id p s2
            ]
      ]
