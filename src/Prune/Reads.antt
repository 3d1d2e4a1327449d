-- ===== src/Prune/Reads.antt =====
-- What the reading functions of internal/layerfs/prune.go leave as it was.
pub mod Resolve
use k8storagex.Base.{
  ℕ, String, Option, List, [], ◌∷◌, ◌++◌, ok, err, ◌&&◌, ltb, leb, length, inl, inr, Bool-cases,
  Option-cases, Result-cases, ◌==◌, string_eq,
}
use k8storagex.Storage.{Image, Layer, Config, Storage}
use k8storagex.Prune.Parents.{
  extends_history, extends_layers, is_elsewhere, is_skipped, get_image_config, top_layer_of,
  first_parent, get_parent, collect_children, get_children, image_is_parent,
}
use k8storagex.Prune.References.{
  proper_image_ref, storage_image_ref, storage_image_id, find_ref, get_image,
}
use k8storagex.Prune.Remove.{running_containers}

-- The reading calls keep `Inv`.
pub record Reads {S Ref : Type 0} (storage : Storage S Ref) (Inv : S → Type 0) : Type 0 where
  pub images : (s : S) → Inv s → Inv (storage.images s).1
  pub image : (id : String) (s : S) → Inv s → Inv (storage.image id s).1
  pub layer : (id : String) (s : S) → Inv s → Inv (storage.layer id s).1
  pub containers : (s : S) → Inv s → Inv (storage.containers s).1
  pub open_source : (ref : Ref) (s : S) → Inv s → Inv (storage.open_source ref s).1
  pub open_image : (ref : Ref) (s : S) → Inv s → Inv (storage.open_image ref s).1
  pub config : (ref : Ref) (s : S) → Inv s → Inv (storage.config ref s).1
  pub find_image : (id : String) (s : S) → Inv s → Inv (storage.find_image id s).1
  pub store_image : (ref : Ref) (s : S) → Inv s → Inv (storage.store_image ref s).1

module _ {S Ref : Type 0} (storage : Storage S Ref) (Inv : S → Type 0)
    (reads : Reads storage Inv) where
  get_image_config-Inv : (id : String) (s : S) → Inv s → Inv (get_image_config storage id s).1
  unfolding get_image_config
  get_image_config-Inv id s h = elim (Result-cases (storage.parse_store_reference id)) [
    | inr (e, p) ↦ simp (p, get_image_config) h
    | inl (ref, p) ↦
        let s1 = (storage.open_image ref s).1 in
        let h1 = reads.open_image ref s h in
        elim (Option-cases (storage.open_image ref s).0) [
          | inl o ↦ elim (Result-cases (storage.config ref s1).0) [
            | inr (e, c) ↦ simp (p, o, c, get_image_config) (reads.config ref s1 h1)
            | inl (x, c) ↦ simp (p, o, c, get_image_config) (reads.config ref s1 h1)
          ]
          | inr (e, o) ↦ elim (Result-cases (storage.image id s1).0) [
            | inr (x, f) ↦ simp (p, o, f, get_image_config) (reads.image id s1 h1)
            | inl (image, f) ↦ elim (Bool-cases (image.id == id)) [
              | inl b ↦ simp (p, o, f, b, get_image_config) (reads.image id s1 h1)
              | inr b ↦ simp (p, o, f, b, get_image_config) (reads.image id s1 h1)
            ]
          ]
        ]
  ]

  top_layer_of-Inv : (image : Image) (s : S) → Inv s → Inv (top_layer_of storage image s).1
  unfolding top_layer_of
  top_layer_of-Inv image s h = elim (Bool-cases (image.top_layer == "")) [
    | inl b ↦ simp (b, top_layer_of) h
    | inr b ↦ elim (Result-cases (storage.layer image.top_layer s).0) [
      | inl (l, r) ↦ simp (b, r, top_layer_of) (reads.layer image.top_layer s h)
      | inr (e, r) ↦ simp (b, r, top_layer_of) (reads.layer image.top_layer s h)
    ]
  ]

  first_parent-Inv :
      (child : Image) (layer : Option Layer) (config : Config) (images : List Image) (s : S)
      → Inv s
      → Inv (first_parent storage child layer config images s).1
  unfolding first_parent
  first_parent-Inv child layer config [] s h = h
  first_parent-Inv child layer config (image ∷ images) s h =
      let rest = first_parent-Inv child layer config images in
      let s1 = (get_image_config storage image.id s).1 in
      let h1 = get_image_config-Inv image.id s h in
      elim (Bool-cases (is_skipped child layer image)) [
        | inl b ↦ simp (b, first_parent) (rest s h)
        | inr b ↦ elim (Result-cases (get_image_config storage image.id s).0) [
          | inr (e, r) ↦ simp (b, r, first_parent) h1
          | inl (o, r) ↦ elim (Option-cases o) [
            | inl n ↦ simp (b, r, n, first_parent) (rest s1 h1)
            | inr (c, n) ↦ elim (Bool-cases (extends_layers c config && extends_history c config)) [
              | inl t ↦ simp (b, r, n, t, first_parent) h1
              | inr t ↦ simp (b, r, n, t, first_parent) (rest s1 h1)
            ]
          ]
        ]
      ]

  pub get_parent-Inv : (child : Image) (s : S) → Inv s → Inv (get_parent storage child s).1
  unfolding get_parent
  get_parent-Inv child s h =
      let s1 = (storage.images s).1 in
      let h1 = reads.images s h in
      let s2 = (top_layer_of storage child s1).1 in
      let h2 = top_layer_of-Inv child s1 h1 in
      let s3 = (get_image_config storage child.id s2).1 in
      let h3 = get_image_config-Inv child.id s2 h2 in
      elim (Result-cases (storage.images s).0) [
        | inr (e, r) ↦ simp (r, get_parent) h1
        | inl (images, r) ↦ elim (Result-cases (top_layer_of storage child s1).0) [
          | inr (e, q) ↦ simp (r, q, get_parent) h2
          | inl (layer, q) ↦ elim (Result-cases (get_image_config storage child.id s2).0) [
            | inr (e, p) ↦ simp (r, q, p, get_parent) h3
            | inl (o, p) ↦ elim (Option-cases o) [
              | inl n ↦ simp (r, q, p, n, get_parent) h3
              | inr (c, n) ↦
                  simp (r, q, p, n, get_parent) (first_parent-Inv child layer c images s3 h3)
            ]
          ]
        ]
      ]

  collect_children-Inv :
      (max : ℕ) (parent : Image) (config : Config) (children : List String) (images : List Image)
      (s : S)
      → Inv s
      → Inv (collect_children storage max parent config children images s).1
  unfolding collect_children
  collect_children-Inv max parent config children [] s h = h
  collect_children-Inv max parent config children (child ∷ images) s h =
      let rest = collect_children-Inv max parent config children images in
      let found = children ++ child.id ∷ [] in
      let s1 = (top_layer_of storage child s).1 in
      let h1 = top_layer_of-Inv child s h in
      let s2 = (get_image_config storage child.id s1).1 in
      let h2 = get_image_config-Inv child.id s1 h1 in
      let more = collect_children-Inv max parent config found images s2 h2 in
      elim (Bool-cases (child.id == parent.id)) [
        | inl b ↦ simp (b, collect_children) (rest s h)
        | inr b ↦ elim (Result-cases (top_layer_of storage child s).0) [
          | inr (e, r) ↦ simp (b, r, collect_children) h1
          | inl (l, r) ↦ elim (Bool-cases (is_elsewhere l parent)) [
            | inl q ↦ simp (b, r, q, collect_children) (rest s1 h1)
            | inr q ↦ elim (Result-cases (get_image_config storage child.id s1).0) [
              | inr (e, p) ↦ simp (b, r, q, p, collect_children) h2
              | inl (o, p) ↦ elim (Option-cases o) [
                | inl n ↦ simp (b, r, q, p, n, collect_children) (rest s2 h2)
                | inr (c, n) ↦ elim (Bool-cases (extends_history config c)) [
                  | inr t ↦ simp (b, r, q, p, n, t, collect_children) (rest s2 h2)
                  | inl t ↦ elim (Bool-cases (ltb 0 max && leb max (length found))) [
                    | inl u ↦ simp (b, r, q, p, n, t, u, collect_children) h2
                    | inr u ↦ simp (b, r, q, p, n, t, u, collect_children) more
                  ]
                ]
              ]
            ]
          ]
        ]
      ]

  get_children-Inv :
      (parent : Image) (max : ℕ) (s : S) → Inv s → Inv (get_children storage parent max s).1
  unfolding get_children
  get_children-Inv parent max s h =
      let s1 = (storage.images s).1 in
      let h1 = reads.images s h in
      let s2 = (get_image_config storage parent.id s1).1 in
      let h2 = get_image_config-Inv parent.id s1 h1 in
      elim (Result-cases (storage.images s).0) [
        | inr (e, r) ↦ simp (r, get_children) h1
        | inl (images, r) ↦ elim (Result-cases (get_image_config storage parent.id s1).0) [
          | inr (e, p) ↦ simp (r, p, get_children) h2
          | inl (o, p) ↦ elim (Option-cases o) [
            | inl n ↦ simp (r, p, n, get_children) h2
            | inr (c, n) ↦
                simp (r, p, n, get_children) (collect_children-Inv max parent c [] images s2 h2)
          ]
        ]
      ]

  pub image_is_parent-Inv :
      (image : Image) (s : S) → Inv s → Inv (image_is_parent storage image s).1
  unfolding image_is_parent
  image_is_parent-Inv image s h =
      let h1 = get_children-Inv image 1 s h in
      elim (Result-cases (get_children storage image 1 s).0) [
        | inr (e, r) ↦ simp (r, image_is_parent) h1
        | inl (c, r) ↦ simp (r, image_is_parent) h1
      ]

  pub running_containers-Inv :
      (image : Image) (s : S) → Inv s → Inv (running_containers storage image s).1
  unfolding running_containers
  running_containers-Inv image s h =
      let h1 = reads.containers s h in
      elim (Result-cases (storage.containers s).0) [
        | inr (e, r) ↦ simp (r, running_containers) h1
        | inl (c, r) ↦ simp (r, running_containers) h1
      ]
