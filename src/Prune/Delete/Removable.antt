-- ===== src/Prune/Delete/Removable.antt =====
-- What may be deleted of a store of images.
use mathlib.Core.List.{Memᴰ}
use mathlib.Core.List.Memᴰ.{head, tail}
use k8storagex.Base.{
  ◌≡◌, refl, String, false, some, ◌∷◌, [], List, length, ltb, ok, All, arith, inl, inr, Bool-cases,
  Result-cases,
}
use k8storagex.Storage.{Image, Container, Storage}
use k8storagex.Prune.Parents.{get_parent, image_is_parent}
use k8storagex.Prune.Remove.{containers_of, running_containers}
use k8storagex.Prune.Reads.{Reads}
use k8storagex.Prune.Delete.{dangling_ids}

pub no_names : (names : List String) → ltb 0 (length names) ≡ false → names ≡ []
no_names [] h = refl
no_names (n ∷ names) h = absurd (ground (arith, h))

module _ {S Ref : Type 0} (storage : Storage S Ref) where
  -- Some listing of the store's images has the ID, for an image without names.
  pub record IsDangling (id : String) : Type 0 where
    pub world : S
    pub images : List Image
    pub were_listed : (storage.images world).0 ≡ ok images
    pub image : Image
    pub member : Memᴰ image images
    pub same_id : image.id ≡ id
    pub nameless : image.names ≡ []

  -- When it was looked at, no container was made from the image with this ID.
  pub record IsUnused (id : String) : Type 0 where
    pub world : S
    pub containers : List Container
    pub were_listed : (storage.containers world).0 ≡ ok containers
    pub none_of_it : containers_of id containers ≡ []

  -- When it was looked at, no image was built on this one.
  abbrev pub IsChildless : Image → Type 0
  IsChildless image = (s : S) × ((image_is_parent storage image s).0 ≡ ok false)

  -- What may be deleted.
  pub data Removable : String → Type 0 where
    dangling :
        (image : Image)
        → IsDangling image.id
        → image.read_only ≡ false
        → IsUnused image.id
        → IsChildless image
        → Removable image.id
    ancestor :
        (parent child : Image) (s : S)
        → (get_parent storage child s).0 ≡ ok (some parent)
        → parent.names ≡ []
        → IsChildless parent
        → Removable parent.id

  -- What a run may do to a world that satisfies `Inv`: read, and delete what may be deleted.
  pub record Permits (Inv : S → Type 0) : Type 0 where
    pub reads : Reads storage Inv
    pub deletes : (id : String) (s : S) → Removable id → Inv s → Inv (storage.delete_image id s).1

  pub dangling_ids-IsDangling :
      (images listed : List Image) (s : S)
      → (storage.images s).0 ≡ ok listed
      → ((image : Image) → Memᴰ image images → Memᴰ image listed)
      → All IsDangling (dangling_ids images)
  unfolding dangling_ids
  dangling_ids-IsDangling [] listed s r within = tt
  dangling_ids-IsDangling (image ∷ images) listed s r within =
      let rest = dangling_ids-IsDangling images listed s r (λ i m. within i (tail m)) in
      elim (Bool-cases (ltb 0 (length image.names))) [
        | inl named ↦ simp (named, dangling_ids) rest
        | inr nameless ↦
            simp (nameless, dangling_ids)
              (
                record {
                  world = s;
                  images = listed;
                  were_listed = r;
                  image = image;
                  member = within image (head refl);
                  same_id = refl;
                  nameless = no_names image.names nameless;
                },
                rest,
              )
      ]

  pub running_containers-IsUnused :
      (image : Image) (s : S) (ids : List String)
      → (running_containers storage image s).0 ≡ ok ids
      → ids ≡ []
      → IsUnused image.id
  unfolding running_containers
  running_containers-IsUnused image s ids r e = elim (Result-cases (storage.containers s).0) [
    | inr (x, q) ↦ absurd (ground (arith, q, r))
    | inl (c, q) ↦ record {
      world = s;
      containers = c;
      were_listed = q;
      none_of_it = ground (arith, q, r, e);
    }
  ]
