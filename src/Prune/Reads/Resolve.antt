-- ===== src/Prune/Reads/Resolve.antt =====
-- What the resolution of an argument to an image leaves as it was.
use k8storagex.Base.{String, ok, err, inl, inr, Option-cases, Result-cases, string_eq}
use k8storagex.Storage.{Storage}
use k8storagex.Prune.References.{
  proper_image_ref, storage_image_ref, storage_image_id, find_ref, get_image,
}
use k8storagex.Prune.Reads.{Reads}

module _ {S Ref : Type 0} (storage : Storage S Ref) (Inv : S → Type 0)
    (reads : Reads storage Inv) where
  proper_image_ref-Inv : (id : String) (s : S) → Inv s → Inv (proper_image_ref storage id s).1
  unfolding proper_image_ref
  proper_image_ref-Inv id s h = elim (Result-cases (storage.parse_image_name id)) [
    | inr (e, p) ↦ simp (p, proper_image_ref) h
    | inl (ref, p) ↦
        let h1 = reads.open_source ref s h in
        elim (Option-cases (storage.open_source ref s).0) [
          | inl o ↦ simp (p, o, proper_image_ref) h1
          | inr (e, o) ↦ simp (p, o, proper_image_ref) h1
        ]
  ]

  storage_image_ref-Inv : (id : String) (s : S) → Inv s → Inv (storage_image_ref storage id s).1
  unfolding storage_image_ref
  storage_image_ref-Inv id s h =
      let h1 = reads.find_image id s h in
      elim (Option-cases (storage.find_image id s).0.1) [
        | inl n ↦ simp (n, storage_image_ref) h1
        | inr (e, n) ↦ elim (Option-cases (storage.find_image id s).0.0) [
          | inl r ↦ simp (n, r, storage_image_ref) h1
          | inr (ref, r) ↦ simp (n, r, storage_image_ref) h1
        ]
      ]

  storage_image_id-Inv : (id : String) (s : S) → Inv s → Inv (storage_image_id storage id s).1
  unfolding storage_image_id
  storage_image_id-Inv id s h =
      let s1 = (storage.image id s).1 in
      let h1 = reads.image id s h in
      let image_id : String = elim (storage.image id s).0 [ ok image ↦ image.id | err _ ↦ id ] in
      elim (Result-cases (storage.parse_store_reference image_id)) [
        | inr (e, p) ↦ simp (p, storage_image_id) h1
        | inl (ref, p) ↦
            let h2 = reads.open_source ref s1 h1 in
            elim (Option-cases (storage.open_source ref s1).0) [
              | inl o ↦ simp (p, o, storage_image_id) h2
              | inr (e, o) ↦ simp (p, o, storage_image_id) h2
            ]
      ]

  find_ref-Inv : (id : String) (s : S) → Inv s → Inv (find_ref storage id s).1
  unfolding find_ref
  find_ref-Inv id s h =
      let s1 = (proper_image_ref storage id s).1 in
      let h1 = proper_image_ref-Inv id s h in
      let s2 = (storage_image_ref storage id s1).1 in
      let h2 = storage_image_ref-Inv id s1 h1 in
      elim (Option-cases (proper_image_ref storage id s).0.0) [
        | inr (ref, r) ↦ simp (r, find_ref) h1
        | inl r ↦ elim (Option-cases (storage_image_ref storage id s1).0.0) [
          | inr (ref, q) ↦ simp (r, q, find_ref) h2
          | inl q ↦ simp (r, q, find_ref) (storage_image_id-Inv id s2 h2)
        ]
      ]

  pub get_image-Inv : (id : String) (s : S) → Inv s → Inv (get_image storage id s).1
  unfolding get_image
  get_image-Inv id s h =
      let s1 = (find_ref storage id s).1 in
      let h1 = find_ref-Inv id s h in
      elim (Option-cases (find_ref storage id s).0.0) [
        | inl r ↦ elim (Option-cases (find_ref storage id s).0.1) [
          | inl n ↦ simp (r, n, get_image) h1
          | inr (e, n) ↦ simp (r, n, get_image) h1
        ]
        | inr (ref, r) ↦
            let h2 = reads.store_image ref s1 h1 in
            elim (Result-cases (storage.store_image ref s1).0) [
              | inl (i, q) ↦ simp (r, q, get_image) h2
              | inr (e, q) ↦ simp (r, q, get_image) h2
            ]
      ]
