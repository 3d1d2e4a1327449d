-- ===== src/Prune/Remove/Finish.antt =====
-- The loop of `removeImage` ends: the history of each parent is one entry shorter.
use mathlib.Core.List.{Memᴰ}
use k8storagex.Base.{
  List, ℕ, zero, suc, ◌+◌, ◌≤◌, ◌<◌, ◌≡◌, refl, ap, ◌∙◌, String, ◌<>◌, ◌||◌, Option, none, some,
  ◌∷◌, [], length, length-append, ltb, ok, arith, inl, inr, Bool-cases, Option-cases, Result-cases,
}
use k8storagex.Storage.{Image, Config, Storage}
use k8storagex.Utils.Jobs.{wrapped}
use k8storagex.Prune.{Run, finished}
use k8storagex.Prune.Parents.{get_image_config, get_parent, image_is_parent}
use k8storagex.Prune.Parents.Laws.{get_parent-IsParent}
use k8storagex.Prune.Remove.{remove_parents, remove_image}

abbrev pub IsFinished {ℓ} : {A : Type ℓ} → Run A → Type ℓ
IsFinished {A} run = (a : A) × (run ≡ finished a)

-- Some listing of the store's images has the ID.
abbrev pub IsListed : {S Ref : Type 0} → Storage S Ref → String → Type 0
IsListed {S} storage id =
    (s : S) × (images : List Image) × (image : Image) × ((storage.images s).0 ≡ ok images)
    × Memᴰ image images
    × (image.id ≡ id)

-- `entries` tells how long the history of each listed image is, whenever its configuration is read: the ID
-- of an image stands for its configuration. Nothing is asked of names and of truncated IDs.
abbrev pub HasEntries : {S Ref : Type 0} → Storage S Ref → (String → ℕ) → Type 0
HasEntries {S} storage entries =
    (id : String) (s : S) (config : Config)
    → IsListed storage id
    → (get_image_config storage id s).0 ≡ ok (some config)
    → length config.history ≡ entries id

-- A parent comes from a listing.
parent-IsListed :
    {S Ref : Type 0} (storage : Storage S Ref) (child parent : Image) (s : S)
    → (get_parent storage child s).0 ≡ ok (some parent)
    → IsListed storage parent.id
parent-IsListed storage child parent s h =
    let (_, listed, l, m) = get_parent-IsParent storage child parent s h in
    (s, listed, parent, l, m, refl)

module _ {S Ref : Type 0} (storage : Storage S Ref) (entries : String → ℕ)
    (has_entries : HasEntries storage entries) where
  one_entry_less :
      (child parent : Image) (s : S)
      → IsListed storage child.id
      → (get_parent storage child s).0 ≡ ok (some parent)
      → entries parent.id + 1 ≡ entries child.id
  one_entry_less child parent s listed h =
      let p = (get_parent-IsParent storage child parent s h).0 in
      let found = parent-IsListed storage child parent s h in
      let above =
        has_entries parent.id p.parent_was_read.0 p.parent_config found p.parent_was_read.1 in
      let below =
        has_entries child.id p.child_was_read.0 p.child_config listed p.child_was_read.1 in
      let counts : length p.child_config.history ≡ length p.parent_config.history + 1 =
        ap length p.one_entry.1 ∙ length-append p.parent_config.history (p.one_entry.0 ∷ []) in
      omega arith

  remove_parents-IsFinished :
      (rounds : ℕ) (id : String) (parent : Option Image) (s : S)
      → ((p : Image) → parent ≡ some p → IsListed storage p.id × (entries p.id < rounds))
      → IsFinished (remove_parents storage rounds id parent s).0
  unfolding remove_parents
  remove_parents-IsFinished zero id none s low = ((id, none), refl)
  remove_parents-IsFinished (suc rounds) id none s low = ((id, none), refl)
  remove_parents-IsFinished zero id (some p) s low = absurd (ground (arith, (low p refl).1))
  remove_parents-IsFinished (suc rounds) id (some p) s low =
      elim (Result-cases (get_parent storage p s).0) [
        | inr (e, r) ↦
            ((id, some (wrapped ("unable to get parent from image " <> id) e)), ground (arith, r))
        | inl (next, r) ↦
            let s1 = (get_parent storage p s).1 in
            elim (Result-cases (image_is_parent storage p s1).0) [
              | inr (e, q) ↦ (
                (id, some (wrapped ("unable to get check if image " <> id <> " is a parent") e)),
                ground (arith, r, q),
              )
              | inl (b, q) ↦ elim (Bool-cases (ltb 0 (length p.names) || b)) [
                | inl t ↦ ((id, none), ground (arith, r, q, t))
                | inr t ↦
                    let next_low : (n : Image)
                        → next ≡ some n
                        → IsListed storage n.id × (entries n.id < rounds) =
                      λ n e.
                        let above : (get_parent storage p s).0 ≡ ok (some n) =
                          ground (arith, r, e) in
                        let (listed, this) = low p refl in
                        let less = one_entry_less p n s listed above in
                        (parent-IsListed storage p n s above, omega arith) in
                    let ends =
                      remove_parents-IsFinished rounds id next
                        (storage.delete_image p.id (image_is_parent storage p s1).1).1
                        (λ n e. next_low n e) in
                    (ends.0, ground (arith, r, q, t, ends.1))
              ]
            ]
      ]

  -- When the IDs of listed images stand for their configurations, removing an image whose ID was listed ends,
  -- given as many rounds as its history has entries.
  pub remove_image-IsFinished :
      (rounds : ℕ) (image : Image) (s : S)
      → IsListed storage image.id
      → entries image.id ≤ rounds
      → IsFinished (remove_image storage rounds image s).0
  unfolding remove_image
  remove_image-IsFinished rounds image s listed low =
      elim (Result-cases (get_parent storage image s).0) [
        | inr (e, r) ↦ (("", some e), ground (arith, r))
        | inl (parent, r) ↦
            let s1 = (get_parent storage image s).1 in
            elim (Option-cases (storage.delete_image image.id s1).0) [
              | inr (e, q) ↦ (
                ("", some (wrapped ("could not remove image " <> image.id) e)),
                ground (arith, r, q),
              )
              | inl q ↦
                  let parent_low : (p : Image)
                      → parent ≡ some p
                      → IsListed storage p.id × (entries p.id < rounds) =
                    λ p e.
                      let above : (get_parent storage image s).0 ≡ ok (some p) =
                        ground (arith, r, e) in
                      let less = one_entry_less image p s listed above in
                      (parent-IsListed storage image p s above, omega arith) in
                  let ends =
                    remove_parents-IsFinished rounds image.id parent
                      (storage.delete_image image.id s1).1 parent_low in
                  (ends.0, ground (arith, r, q, ends.1))
            ]
      ]
