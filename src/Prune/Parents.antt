-- ===== src/Prune/Parents.antt =====
-- internal/layerfs/prune.go: the images that an image is built on, and those that are built on it.
pub mod Extends
pub mod Laws
use k8storagex.Base.{
  ℕ, zero, suc, ◌+◌, String, ◌<>◌, Bool, true, false, ◌&&◌, ◌||◌, not, Option, none, some, List, [],
  ◌∷◌, ◌++◌, length, ltb, leb, Result, ok, err, Error, Io, ◌==◌, ◌!=◌, nat_eq, string_eq,
  if◌then◌else◌,
}
use k8storagex.Storage.{Image, Layer, History, Config, Storage}
use k8storagex.Utils.Jobs.{wrapped}
use k8storagex.Prune.History.{histories_differ}

-- `xs[:n]`
abbrev pub take {ℓ} : {A : Type ℓ} → ℕ → List A → List A
take zero xs = []
take (suc n) [] = []
take (suc n) (x ∷ xs) = x ∷ take n xs

-- The loop over `DiffIDs`; the code has checked that `child` is no shorter.
unfoldable pub uses_layers : List String → List String → Bool
uses_layers [] child = true
uses_layers (p ∷ parent) [] = false
uses_layers (p ∷ parent) (c ∷ child) = c == p && uses_layers parent child

-- Whether the child's history is the parent's and one entry more.
unfoldable pub extends_history : Config → Config → Bool
extends_history parent child =
    length parent.history + 1 == length child.history
    && not (histories_differ parent.history (take (length parent.history) child.history))

unfoldable pub extends_layers : Config → Config → Bool
extends_layers parent child =
    not (ltb 0 (length parent.diff_ids))
    || not (ltb (length child.diff_ids) (length parent.diff_ids))
      && uses_layers parent.diff_ids child.diff_ids

-- Whether the layer is the image's top layer, or stands directly on it.
abbrev pub stands_on : Layer → Image → Bool
stands_on layer image = image.top_layer == layer.parent || image.top_layer == layer.id

-- Without a layer every image may do.
unfoldable pub is_elsewhere : Option Layer → Image → Bool
is_elsewhere none image = false
is_elsewhere (some layer) image = not (stands_on layer image)

-- The two tests before a configuration is read: the image is the other one, or its layer is not related.
unfoldable pub is_skipped : Image → Option Layer → Image → Bool
is_skipped child layer parent = parent.id == child.id || is_elsewhere layer parent

module _ {S Ref : Type 0} (storage : Storage S Ref) where
  -- `nil` for an image that the store has and that cannot be opened.
  unfoldable pub get_image_config : String → Io S (Result (Option Config))
  get_image_config id s = elim (storage.parse_store_reference id) [
    | err e ↦ (err (wrapped ("unable to parse reference to image " <> id) e), s)
    | ok ref ↦
        let (failed, s1) = storage.open_image ref s in
        elim failed [
          | some e ↦
              let (found, s2) = storage.image id s1 in
              elim found [
                | ok image ↦
                    if image.id == id
                    then (ok none, s2)
                    else (err (wrapped ("unable to open image " <> id) e), s2)
                | err _ ↦ (err (wrapped ("unable to open image " <> id) e), s2)
              ]
          | none ↦
              let (config, s2) = storage.config ref s1 in
              elim config [
                | err e ↦ (err (wrapped ("unable to read configuration from image " <> id) e), s2)
                | ok c ↦ (ok (some c), s2)
              ]
        ]
  ]

  -- `nil` when the image has no layers
  unfoldable pub top_layer_of : Image → Io S (Result (Option Layer))
  top_layer_of image s =
      if image.top_layer == ""
      then (ok none, s)
      else let (layer, s') = storage.layer image.top_layer s in
        elim layer [
          | err e ↦ (
            err (
                wrapped
                  ("unable to retrieve information about layer " <> image.top_layer
                    <> " from store")
                  e),
            s',
          )
          | ok l ↦ (ok (some l), s')
        ]

  -- The loop of `getParent`.
  unfoldable pub first_parent :
      Image → Option Layer → Config → List Image → Io S (Result (Option Image))
  first_parent child layer config [] s = (ok none, s)
  first_parent child layer config (parent ∷ images) s =
      let rest = first_parent child layer config images in
      if is_skipped child layer parent
      then rest s
      else let (read, s') = get_image_config parent.id s in
        elim read [
          | err e ↦ (err (wrapped ("unable to read configuration from image " <> parent.id) e), s')
          | ok none ↦ rest s'
          | ok (some c) ↦
              if extends_layers c config && extends_history c config
              then (ok (some parent), s')
              else rest s'
        ]

  unfoldable pub get_parent : Image → Io S (Result (Option Image))
  get_parent child s =
      let (listed, s1) = storage.images s in
      elim listed [
        | err e ↦ (err (wrapped "unable to retrieve image list from store" e), s1)
        | ok images ↦
            let (layer, s2) = top_layer_of child s1 in
            elim layer [
              | err e ↦ (err e, s2)
              | ok l ↦
                  let (read, s3) = get_image_config child.id s2 in
                  elim read [
                    | err e ↦ (
                      err (wrapped ("unable to read configuration from image " <> child.id) e),
                      s3,
                    )
                    | ok none ↦ (ok none, s3)
                    | ok (some config) ↦ first_parent child l config images s3
                  ]
            ]
      ]

  -- The loop of `getChildren`, with the children found so far.
  unfoldable pub collect_children :
      ℕ → Image → Config → List String → List Image → Io S (Result (List String))
  collect_children max parent config children [] s = (ok children, s)
  collect_children max parent config children (child ∷ images) s =
      let next = collect_children max parent config children images in
      if child.id == parent.id
      then next s
      else let (layer, s1) = top_layer_of child s in
        elim layer [
          | err e ↦ (err e, s1)
          | ok l ↦
              if is_elsewhere l parent
              then next s1
              else let (read, s2) = get_image_config child.id s1 in
                elim read [
                  | err e ↦
                      (err (wrapped ("unable to read configuration from image " <> child.id) e), s2)
                  | ok none ↦ next s2
                  | ok (some c) ↦
                      let found = children ++ child.id ∷ [] in
                      let more = collect_children max parent config found images s2 in
                      if extends_history config c
                      then (if ltb 0 max && leb max (length found) then (ok found, s2) else more)
                      else next s2
                ]
        ]

  unfoldable pub get_children : Image → ℕ → Io S (Result (List String))
  get_children parent max s =
      let (listed, s1) = storage.images s in
      elim listed [
        | err e ↦ (err (wrapped "unable to retrieve images from store" e), s1)
        | ok images ↦
            let (read, s2) = get_image_config parent.id s1 in
            elim read [
              | err e ↦
                  (err (wrapped ("unable to read configuration from image " <> parent.id) e), s2)
              | ok none ↦ (ok [], s2)
              | ok (some config) ↦ collect_children max parent config [] images s2
            ]
      ]

  unfoldable pub image_is_parent : Image → Io S (Result Bool)
  image_is_parent image s =
      let (children, s') = get_children image 1 s in
      elim children [ err e ↦ (err e, s') | ok c ↦ (ok (ltb 0 (length c)), s') ]
