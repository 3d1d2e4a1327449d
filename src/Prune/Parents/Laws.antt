-- ===== src/Prune/Parents/Laws.antt =====
-- What an image and the parent that is found for it have in common, and how many children are listed.
use mathlib.Core.List.{Memᴰ}
use mathlib.Core.List.Memᴰ.{head, tail}
use k8storagex.Base.{
  ◌≡◌, refl, String, true, false, ◌&&◌, Option, none, some, List, [], ◌∷◌, ◌++◌, ◌⊎◌, ok, nat_eq,
  string_eq, arith, ◌≢◌, inl, inr, Bool-cases, Option-cases, Result-cases,
}
use k8storagex.Storage.{Image, Layer, History, Config, Storage}
use k8storagex.Prune.Parents.{
  extends_history, extends_layers, stands_on, is_elsewhere, is_skipped, get_image_config,
  top_layer_of, first_parent, get_parent,
}
use k8storagex.Prune.Parents.Extends.{extends_history_lem, extends_layers_lem}

-- `parent` differs from `child`, stands under its top layer where it has one, and by the configurations
-- that were read the child's history is the parent's and one entry more, and its layers begin with
-- the parent's.
pub record IsParent {S Ref : Type 0} (storage : Storage S Ref) (parent child : Image) : Type 0 where
  pub differs : parent.id ≢ child.id
  pub parent_config : Config
  pub child_config : Config
  pub parent_was_read :
      (s : S) × ((get_image_config storage parent.id s).0 ≡ ok (some parent_config))
  pub child_was_read : (s : S) × ((get_image_config storage child.id s).0 ≡ ok (some child_config))
  pub stands :
      (child.top_layer ≡ "")
      ⊎ ((layer : Layer) × (s : S) × ((storage.layer child.top_layer s).0 ≡ ok layer)
          × (stands_on layer parent ≡ true))
  pub one_entry : (entry : History) × (child_config.history ≡ parent_config.history ++ entry ∷ [])
  pub more_layers : (more : List String) × (child_config.diff_ids ≡ parent_config.diff_ids ++ more)

module _ {S Ref : Type 0} (storage : Storage S Ref) where
  -- What `first_parent` knows of the image that it returns.
  record Found (child : Image) (layer : Option Layer) (config : Config) (images : List Image)
      (parent : Image) : Type 0 where
    member : Memᴰ parent images
    not_skipped : is_skipped child layer parent ≡ false
    found : Config
    was_read : (s : S) × ((get_image_config storage parent.id s).0 ≡ ok (some found))
    extends : (extends_layers found config ≡ true) × (extends_history found config ≡ true)

  Found-cons :
      {child : Image} {layer : Option Layer} {config : Config} {images : List Image}
      {parent : Image} (image : Image)
      → Found child layer config images parent
      → Found child layer config (image ∷ images) parent
  Found-cons image f = record {
    member = tail f.member;
    not_skipped = f.not_skipped;
    found = f.found;
    was_read = f.was_read;
    extends = f.extends;
  }

  first-Found :
      (child : Image) (layer : Option Layer) (config : Config) (image : Image) (c : Config)
      (images : List Image) (s : S)
      → is_skipped child layer image ≡ false
      → (get_image_config storage image.id s).0 ≡ ok (some c)
      → (extends_layers c config && extends_history c config) ≡ true
      → Found child layer config (image ∷ images) image
  first-Found child layer config image c images s keep read both = record {
    member = head refl;
    not_skipped = keep;
    found = c;
    was_read = (s, read);
    extends = (ground (arith, both), ground (arith, both));
  }

  first_parent-Found :
      (child : Image) (layer : Option Layer) (config : Config) (images : List Image)
      (parent : Image) (s : S)
      → (first_parent storage child layer config images s).0 ≡ ok (some parent)
      → Found child layer config images parent
  unfolding first_parent
  first_parent-Found child layer config [] parent s h = absurd (ground (arith, h))
  first_parent-Found child layer config (image ∷ images) parent s h =
      let below : (t : S)
          → (first_parent storage child layer config images t).0 ≡ ok (some parent)
          → Found child layer config (image ∷ images) parent =
        λ t h'. Found-cons image (first_parent-Found child layer config images parent t h') in
      elim (Bool-cases (is_skipped child layer image)) [
        | inl skip ↦ below s (ground (arith, skip, h))
        | inr keep ↦ elim (Result-cases (get_image_config storage image.id s).0) [
          | inr (e, r) ↦ absurd (ground (arith, keep, r, h))
          | inl (o, r) ↦ elim (Option-cases o) [
            | inl n ↦ below (get_image_config storage image.id s).1 (ground (arith, keep, r, n, h))
            | inr (c, n) ↦ elim (Bool-cases (extends_layers c config && extends_history c config)) [
              | inl both ↦
                  let same : image ≡ parent = ground (arith, keep, r, n, both, h) in
                  rw (← same) (
                    first-Found child layer config image c images s keep (ground (arith, r, n))
                      both)
              | inr other ↦
                  below (get_image_config storage image.id s).1
                    (ground (arith, keep, r, n, other, h))
            ]
          ]
        ]
      ]

  not_skipped-differs :
      (child : Image) (layer : Option Layer) (parent : Image)
      → is_skipped child layer parent ≡ false
      → (parent.id ≢ child.id) × (is_elsewhere layer parent ≡ false)
  unfolding is_skipped
  not_skipped-differs child layer parent h = (λ e. ground (arith, e, h), ground (arith, h))

  top_layer_of-cases :
      (child parent : Image) (s : S) (layer : Option Layer)
      → (top_layer_of storage child s).0 ≡ ok layer
      → is_elsewhere layer parent ≡ false
      → (child.top_layer ≡ "")
        ⊎ ((l : Layer) × (t : S) × ((storage.layer child.top_layer t).0 ≡ ok l)
            × (stands_on l parent ≡ true))
  unfolding top_layer_of is_elsewhere
  top_layer_of-cases child parent s none h near = inl (ground (arith, h))
  top_layer_of-cases child parent s (some l) h near =
      inr (l, s, ground (arith, h), ground (arith, near))

  Found-IsParent :
      (child parent : Image) (layer : Option Layer) (config : Config) (images : List Image)
      (s t : S)
      → (top_layer_of storage child s).0 ≡ ok layer
      → (get_image_config storage child.id t).0 ≡ ok (some config)
      → Found child layer config images parent
      → IsParent storage parent child
  Found-IsParent child parent layer config images s t q read f =
      let (differs, near) = not_skipped-differs child layer parent f.not_skipped in
      record {
        differs = differs;
        parent_config = f.found;
        child_config = config;
        parent_was_read = f.was_read;
        child_was_read = (t, read);
        stands = top_layer_of-cases child parent s layer q near;
        one_entry = extends_history_lem f.found config f.extends.1;
        more_layers = extends_layers_lem f.found config f.extends.0;
      }

  -- An image that `get_parent` returns is one of those that the store lists, and a parent of the image by
  -- what was read.
  pub get_parent-IsParent :
      (child parent : Image) (s : S)
      → (get_parent storage child s).0 ≡ ok (some parent)
      → IsParent storage parent child
        × (images : List Image) × ((storage.images s).0 ≡ ok images)
        × Memᴰ parent images
  unfolding get_parent
  get_parent-IsParent child parent s h = elim (Result-cases (storage.images s).0) [
    | inr (e, r) ↦ absurd (ground (arith, r, h))
    | inl (images, r) ↦
        let s1 = (storage.images s).1 in
        elim (Result-cases (top_layer_of storage child s1).0) [
          | inr (e, q) ↦ absurd (ground (arith, r, q, h))
          | inl (layer, q) ↦
              let s2 = (top_layer_of storage child s1).1 in
              elim (Result-cases (get_image_config storage child.id s2).0) [
                | inr (e, p) ↦ absurd (ground (arith, r, q, p, h))
                | inl (o, p) ↦ elim (Option-cases o) [
                  | inl n ↦ absurd (ground (arith, r, q, p, n, h))
                  | inr (config, n) ↦
                      let f =
                        first_parent-Found child layer config images parent
                          (get_image_config storage child.id s2).1
                          (ground (arith, r, q, p, n, h)) in
                      (
                        Found-IsParent child parent layer config images s1 s2 q
                            (ground (arith, p, n)) f,
                        images,
                        r,
                        f.member,
                      )
                ]
              ]
        ]
  ]
