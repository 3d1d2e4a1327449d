-- ===== src/Prune/Delete/Finish.antt =====
-- `Prune` ends, and keeps the errors that it meets.
use text.Mathlib.Text.{starts_with}
use text.Mathlib.TextPositions.{starts_with-append}
use text.Mathlib.TextLemmas.{append-nil}
use mathlib.Core.Path.{subst}
use k8storagex.Base.{
  All, All-map, ℕ, ◌≤◌, ◌≡◌, refl, String, Bool, true, false, ◌&&◌, not, Option, none, some, ◌∷◌,
  [], List, length, ltb, leb, ok, Error, arith, inl, inr, Bool-cases, Option-cases, Result-cases,
}
use k8storagex.Storage.{Image, Storage}
use k8storagex.Prune.{Run, finished, panicked, unfinished}
use k8storagex.Prune.Parents.{image_is_parent}
use k8storagex.Prune.References.{get_image}
use k8storagex.Prune.Remove.{running_containers, remove_containers}
use k8storagex.Prune.Remove.Finish.{IsFinished, IsListed, HasEntries, remove_image-IsFinished}
use k8storagex.Prune.Delete.Removable.{IsDangling, dangling_ids-IsDangling}
use k8storagex.Prune.Delete.{
  used_by, after_removal, delete_childless, untag_and_delete, delete_unused, delete_image,
  delete_images, dangling_ids, find_dangling_images, prune_images,
}

-- The step ends, and has no error only if there was none before it.
abbrev pub Keeps : Option Error → Run (Option Error) → Type 0
Keeps last (finished none) = last ≡ none
Keeps last (finished (some e)) = Unit
Keeps last panicked = ⊥
Keeps last unfinished = ⊥

Keeps-stays : (last : Option Error) → Keeps last (finished last)
Keeps-stays none = refl
Keeps-stays (some e) = tt

Keeps-finished :
    (last : Option Error) (run : Run (Option Error))
    → Keeps last run
    → (after : Option Error) × (run ≡ finished after) × (after ≡ none → last ≡ none)
Keeps-finished last (finished none) k = (none, refl, λ n. k)
Keeps-finished last (finished (some e)) k = (some e, refl, λ n. absurd (ground (arith, n)))
Keeps-finished last panicked k = elim k [ ]
Keeps-finished last unfinished k = elim k [ ]

used_by-eq-none :
    (image_used : Error) (id : String) (containers : List String) (last : Option Error)
    → used_by image_used id containers last ≡ none
    → last ≡ none
unfolding used_by
used_by-eq-none image_used id [] last h = h
used_by-eq-none image_used id (c ∷ containers) last h =
    absurd (ground (arith, used_by-eq-none image_used id containers _ h))

Keeps-through :
    (last after : Option Error) (run : Run (Option Error))
    → (after ≡ none → last ≡ none)
    → Keeps after run
    → Keeps last run
Keeps-through last after (finished none) kept k = kept k
Keeps-through last after (finished (some e)) kept k = tt
Keeps-through last after panicked kept k = k
Keeps-through last after unfinished kept k = k

Keeps-after_removal :
    (id : String) (last : Option Error) (run : Run (String × Option Error))
    → IsFinished run
    → Keeps last (after_removal id last run)
unfolding after_removal
Keeps-after_removal id last (finished (_, none)) h = Keeps-stays last
Keeps-after_removal id last (finished (_, some e)) h = tt
Keeps-after_removal id last panicked h = absurd (ground (arith, h.1))
Keeps-after_removal id last unfinished h = absurd (ground (arith, h.1))

Keeps-used_by :
    (image_used : Error) (id : String) (containers : List String) (last : Option Error)
    → Keeps last (finished (used_by image_used id containers last))
Keeps-used_by image_used id containers last =
    elim (Option-cases (used_by image_used id containers last)) [
      | inl n ↦ rw n (used_by-eq-none image_used id containers last n)
      | inr (e, n) ↦ rw n tt
    ]

pub starts_with_self : (s : String) → starts_with s s ≡ true
starts_with_self s = subst (λ t. starts_with t s ≡ true) (append-nil s) (starts_with-append s "")

-- The ID of a listed image is resolved to the image of that ID. Nothing is asked of names and of truncated
-- IDs.
abbrev pub ResolvesIds : {S Ref : Type 0} → Storage S Ref → Type 0
ResolvesIds {S} storage =
    (id : String) (s : S) (image : Image)
    → IsListed storage id
    → (get_image storage id s).0 ≡ ok (some image)
    → image.id ≡ id

module _ {S Ref : Type 0} (storage : Storage S Ref) (entries : String → ℕ)
    (has_entries : HasEntries storage entries) (rounds : ℕ)
    (enough : (id : String) → IsListed storage id → entries id ≤ rounds)
    (remove_all force prune : Bool) where
  delete_childless-Keeps :
      (image : Image) (last : Option Error) (s : S)
      → IsListed storage image.id
      → Keeps last (delete_childless storage rounds remove_all force prune image last s).0
  unfolding delete_childless
  delete_childless-Keeps image last s listed =
      elim (Result-cases (image_is_parent storage image s).0) [
        | inr (e, r) ↦ simp (r, delete_childless) tt
        | inl (b, r) ↦ elim (Bool-cases (ltb 0 (length image.names) && not remove_all)) [
          | inl named ↦ simp (r, named, delete_childless) (Keeps-stays last)
          | inr nameless ↦
              elim (Bool-cases (b && not (ltb 0 (length image.names)) && not remove_all)) [
                | inl parent ↦ elim (Bool-cases prune) [
                  | inl p ↦ simp (r, nameless, parent, p, delete_childless) (Keeps-stays last)
                  | inr p ↦ simp (r, nameless, parent, p, delete_childless) tt
                ]
                | inr childless ↦
                    let ends =
                      remove_image-IsFinished storage entries has_entries rounds image
                        (image_is_parent storage image s).1 listed (enough image.id listed) in
                    simp (r, nameless, childless, delete_childless)
                      (Keeps-after_removal image.id last _ ends)
              ]
        ]
      ]

  untag_and_delete-Keeps :
      (id : String) (image : Image) (last : Option Error) (s : S)
      → starts_with image.id id ≡ true
      → IsListed storage image.id
      → Keeps last (untag_and_delete storage rounds remove_all force prune id image last s).0
  unfolding untag_and_delete
  untag_and_delete-Keeps id image last s h listed =
      elim (Bool-cases (ltb 1 (length image.names) && not force)) [
        | inl tagged ↦ simp (h, tagged, untag_and_delete) tt
        | inr other ↦
            simp (h, other, untag_and_delete)
              (delete_childless-Keeps (record image { names = [] }) last s listed)
      ]

  delete_unused-Keeps :
      (id : String) (image : Image) (last : Option Error) (s : S)
      → starts_with image.id id ≡ true
      → IsListed storage image.id
      → Keeps last (delete_unused storage rounds remove_all force prune id image last s).0
  unfolding delete_unused
  delete_unused-Keeps id image last s h listed =
      let s1 = (running_containers storage image s).1 in
      elim (Result-cases (running_containers storage image s).0) [
        | inr (e, r) ↦ simp (r, delete_unused) tt
        | inl (c, r) ↦ elim (Bool-cases (ltb 0 (length c) && leb (length image.names) 1)) [
          | inr free ↦
              simp (r, free, delete_unused) (untag_and_delete-Keeps id image last s1 h listed)
          | inl used ↦ elim (Bool-cases force) [
            | inr f ↦ simp (r, used, f, delete_unused) (Keeps-used_by storage.image_used id c last)
            | inl f ↦ elim (Option-cases (remove_containers storage c s1).0) [
              | inr (e, q) ↦ simp (r, used, f, q, delete_unused) tt
              | inl q ↦
                  simp (r, used, f, q, delete_unused)
                    (simp f at (
                      untag_and_delete-Keeps id image last (remove_containers storage c s1).1 h
                        listed))
            ]
          ]
        ]
      ]

  delete_image-Keeps :
      (resolves : ResolvesIds storage) (id : String) (last : Option Error) (s : S)
      → IsListed storage id
      → Keeps last (delete_image storage rounds remove_all force prune id last s).0
  unfolding delete_image
  delete_image-Keeps resolves id last s listed =
      let s1 = (get_image storage id s).1 in
      elim (Result-cases (get_image storage id s).0) [
        | inr (e, r) ↦ simp (r, delete_image) tt
        | inl (o, r) ↦ elim (Option-cases o) [
          | inl n ↦ simp (r, n, delete_image) tt
          | inr (image, n) ↦ elim (Bool-cases image.read_only) [
            | inl b ↦ simp (r, n, b, delete_image) tt
            | inr b ↦
                let same = resolves id s image listed (ground (arith, r, n)) in
                simp (r, n, b, delete_image)
                  (delete_unused-Keeps id image last s1 (rw same (starts_with_self id))
                    (rw same listed))
          ]
        ]
      ]

  delete_images-Keeps :
      (resolves : ResolvesIds storage) (ids : List String) (last : Option Error) (s : S)
      → All (IsListed storage) ids
      → Keeps last (delete_images storage rounds remove_all force prune ids last s).0
  unfolding delete_images
  delete_images-Keeps resolves [] last s listed = Keeps-stays last
  delete_images-Keeps resolves (id ∷ ids) last s listed =
      let s1 = (delete_image storage rounds remove_all force prune id last s).1 in
      let (after, r, kept) =
        Keeps-finished last _ (delete_image-Keeps resolves id last s listed.0) in
      let rest = delete_images-Keeps resolves ids after s1 listed.1 in
      simp (r, delete_images) (Keeps-through last after _ kept rest)

  -- When the IDs of listed images stand for their images and configurations, and no listed image has more
  -- than `rounds` entries of history, `deleteImages` of IDs that were listed ends, without a panic, and it
  -- reports an error if there was one before; so none of the steps for such IDs makes it forget one.
  pub delete_images_finished :
      (resolves : ResolvesIds storage) (ids : List String) (last : Option Error) (s : S)
      → All (IsListed storage) ids
      → (result : Option Error) × ((delete_images storage rounds remove_all force prune ids last
            s).0
          ≡ finished result)
        × (result ≡ none → last ≡ none)
  delete_images_finished resolves ids last s listed =
      Keeps-finished last _ (delete_images-Keeps resolves ids last s listed)

module _ {S Ref : Type 0} (storage : Storage S Ref) where
  pub IsDangling-IsListed : (id : String) → IsDangling storage id → IsListed storage id
  IsDangling-IsListed id d = (d.world, d.images, d.image, d.were_listed, d.member, d.same_id)

  find_dangling_images-IsListed :
      (ids : List String) (s : S)
      → (find_dangling_images storage s).0 ≡ ok ids
      → All (IsListed storage) ids
  unfolding find_dangling_images
  find_dangling_images-IsListed ids s h = elim (Result-cases (storage.images s).0) [
    | inr (e, r) ↦ absurd (ground (arith, r, h))
    | inl (images, r) ↦
        let same : dangling_ids images ≡ ids = ground (arith, r, h) in
        rw (← same) (
          All-map IsDangling-IsListed (dangling_ids images)
            (dangling_ids-IsDangling storage images images s r (λ i m. m)))
  ]

module _ {S Ref : Type 0} (storage : Storage S Ref) (entries : String → ℕ) where
  -- When the IDs of listed images stand for their images and configurations, and no listed image has more
  -- than `rounds` entries of history, pruning ends, without a panic, with a result.
  pub prune_images-IsFinished :
      (rounds : ℕ) (s : S)
      → HasEntries storage entries
      → ((id : String) → IsListed storage id → entries id ≤ rounds)
      → ResolvesIds storage
      → IsFinished (prune_images storage rounds s).0
  unfolding prune_images
  prune_images-IsFinished rounds s has_entries enough resolves =
      elim (Result-cases (find_dangling_images storage s).0) [
        | inr (e, r) ↦ (some e, ground (arith, r))
        | inl (ids, r) ↦
            let (result, ends, _) =
              delete_images_finished storage entries has_entries rounds enough false false true
                resolves ids none (find_dangling_images storage s).1
                (find_dangling_images-IsListed storage ids s r) in
            (result, ground (arith, r, ends))
      ]
