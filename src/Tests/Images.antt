-- ===== src/Tests/Images.antt =====
-- Witnesses for the pruning of images, on a store of three.
use mathlib.Core.List.{Memᴰ}
use mathlib.Core.List.Memᴰ.{head, tail, cases_cons, not-nil}
use k8storagex.Base.{
  ℕ, ◌≤◌, ◌≡◌, refl, map, String, true, false, Option, none, some, List, [], ◌∷◌, length, Result,
  ok, err, Error, new_error, wrap, arith, ◌==◌, string_eq, nat_eq, if◌then◌else◌, Bool-cases, inl,
  inr,
}
use k8storagex.Storage.{Image, History, Config, Storage}
use k8storagex.Utils.Strings.{has_string, remove_string, has_string-remove_string}
use k8storagex.Prune.{finished}
use k8storagex.Prune.History.{histories_differ, any_entry_differs, entries_differ, times_differ}
use native.Mathlib.Decide.{ℕ_discrete}
use k8storagex.Prune.History.Laws.{histories_differ_iff}
use k8storagex.Prune.Parents.{
  get_image_config, get_parent, image_is_parent, collect_children, extends_history, extends_layers,
  first_parent, get_children, is_elsewhere, is_skipped, top_layer_of, uses_layers,
}
use k8storagex.Prune.Parents.Laws.{IsParent, get_parent-IsParent}
use k8storagex.Prune.References.{
  get_image, find_ref, proper_image_ref, storage_image_ref, storage_image_id,
}
use k8storagex.Prune.Remove.{remove_image, remove_parents, running_containers, containers_of}
use k8storagex.Prune.Remove.Finish.{IsFinished, IsListed, HasEntries, remove_image-IsFinished}
use k8storagex.Prune.Delete.{
  prune_images, delete_images, find_dangling_images, dangling_ids, delete_image, delete_unused,
  untag_and_delete, delete_childless, after_removal, used_by,
}
use k8storagex.Prune.Delete.Finish.{ResolvesIds, delete_images_finished, prune_images-IsFinished}
use k8storagex.Prune.Delete.Removable.{Removable}

abbrev missing_image : Error
missing_image = new_error "no such image"

abbrev entry : String → History
entry text = record {
  created = some 1;
  created_by = text;
  author = "";
  comment = "";
  empty_layer = false;
}

abbrev image_of : String → Image
image_of id = record {
  id = id;
  names = if id == "kept" then "localhost/kept:latest" ∷ [] else [];
  top_layer = "";
  read_only = false;
}

abbrev config_of : String → Config
config_of id = record {
  history = if id == "top" then entry "a" ∷ entry "b" ∷ [] else entry "a" ∷ [];
  diff_ids = [];
}

abbrev found : List String → String → Result Image
found ids id = if has_string ids id then ok (image_of id) else err missing_image

program : Unit {0}
unfolding prune_images find_dangling_images delete_images dangling_ids string_eq nat_eq delete_image
    get_image find_ref proper_image_ref storage_image_ref has_string remove_string delete_unused
    running_containers containers_of untag_and_delete delete_childless image_is_parent after_removal
    any_entry_differs entries_differ histories_differ times_differ collect_children extends_history
    extends_layers first_parent get_children get_image_config get_parent is_elsewhere is_skipped
    top_layer_of uses_layers storage_image_id remove_image remove_parents ℕ_discrete wrap used_by
program = tt

-- The name of the image that is kept.
abbrev tag : String
tag = "localhost/kept:latest"

-- The ID that an argument stands for: names are resolved too.
abbrev resolved : String → String
resolved id = if id == tag then "kept" else id

-- The name is no ID.
abbrev listing : List String → List Image
listing ids = map image_of (remove_string ids tag).0

-- A store is the IDs of its images.
abbrev images : Storage (List String) String
images = record {
  images = λ ids. (ok (listing ids), ids);
  image = λ id ids. (found ids id, ids);
  layer = λ _ ids. (err missing_image, ids);
  containers = λ ids. (ok [], ids);
  container = λ _ ids. (err missing_image, ids);
  changes = λ _ ids. (ok [], ids);
  set_names = λ _ _ ids. (none, ids);
  delete_image = λ id ids. (none, (remove_string ids id).0);
  delete_container = λ _ ids. (none, ids);
  parse_image_name = λ _. err missing_image;
  parse_store_reference = λ id. ok id;
  name_of = λ id. id;
  open_source = λ _ ids. (none, ids);
  open_image = λ _ ids. (none, ids);
  config = λ id ids. (ok (config_of (resolved id)), ids);
  find_image = λ id ids. ((some id, none), ids);
  store_image = λ id ids. (found ids (resolved id), ids);
  not_an_image = missing_image;
  image_used = missing_image;
  invalid_argument = missing_image;
}

abbrev three : List String
three = "base" ∷ "top" ∷ "kept" ∷ []

abbrev entries : String → ℕ
entries id = length (config_of id).history

no-tag :
    (ids : List String) (image : Image)
    → Memᴰ image (map image_of ids)
    → has_string ids tag ≡ false
    → (image.id == tag) ≡ false
unfolding has_string
no-tag [] image m n = absurd (not-nil m)
no-tag (id ∷ ids) image m n = elim (cases_cons m) [
  | inl e ↦ elim (Bool-cases (id == tag)) [
    | inl b ↦ absurd (ground (arith, b, n))
    | inr b ↦ ground (arith, e, b)
  ]
  | inr below ↦ elim (Bool-cases (id == tag)) [
    | inl b ↦ absurd (ground (arith, b, n))
    | inr b ↦ no-tag ids image below (ground (arith, b, n))
  ]
]

listed-apart : (id : String) → IsListed images id → (id == tag) ≡ false
listed-apart id (s, l, image, r, m, same) =
    let shown : listing s ≡ l = ground (arith, r) in
    let gone = (has_string-remove_string s tag tag).1 in
    let other = no-tag (remove_string s tag).0 image (rw shown m) (ground (arith, gone)) in
    rw (← same) other

images-HasEntries : HasEntries images entries
unfolding get_image_config
images-HasEntries id s config listed h = ground (arith, listed-apart id listed, h)

images-ResolvesIds : ResolvesIds images
unfolding get_image find_ref proper_image_ref storage_image_ref
images-ResolvesIds id s image listed h = elim (Bool-cases (has_string s id)) [
  | inl e ↦ ground (arith, e, listed-apart id listed, h)
  | inr e ↦ absurd (ground (arith, e, listed-apart id listed, h))
]

top-IsListed : IsListed images "top"
unfolding string_eq remove_string
top-IsListed = (three, listing three, image_of "top", refl, tail (head refl), refl)

-- It was listed before it was deleted.
gone-IsListed : IsListed images "gone"
unfolding string_eq remove_string
gone-IsListed = ("gone" ∷ [], listing ("gone" ∷ []), image_of "gone", refl, head refl, refl)

entries-le : (id : String) → IsListed images id → entries id ≤ 2
entries-le id listed = elim (Bool-cases (id == "top")) [
  | inl e ↦ ground (arith, e)
  | inr e ↦ ground (arith, e)
]

histories_differ_iff_example : (entry "a" ∷ entry "b" ∷ []) ≡ (entry "a" ∷ entry "b" ∷ [])
unfolding histories_differ nat_eq k8storagex.Prune.History.entries_differ string_eq
histories_differ_iff_example =
    (histories_differ_iff (entry "a" ∷ entry "b" ∷ []) (entry "a" ∷ entry "b" ∷ [])).0 refl

get_parent-IsParent_example :
    IsParent images (image_of "base") (image_of "top")
    × (listed : List Image) × ((images.images three).0 ≡ ok listed)
    × Memᴰ (image_of "base") listed
unfolding program
get_parent-IsParent_example =
    get_parent-IsParent images (image_of "top") (image_of "base") three refl

remove_image-IsFinished_example : IsFinished (remove_image images 2 (image_of "top") three).0
unfolding string_eq
remove_image-IsFinished_example =
    remove_image-IsFinished images entries images-HasEntries 2 (image_of "top") three top-IsListed
      (omega arith)

prune_images-IsFinished_example : IsFinished (prune_images images 2 three).0
prune_images-IsFinished_example =
    prune_images-IsFinished images entries 2 three images-HasEntries entries-le images-ResolvesIds

delete_images_finished_example :
    (result : Option Error) × ((delete_images images 2 false false true
        ("top" ∷ "gone" ∷ [])
        (some missing_image)
        three).0
      ≡ finished result)
    × (result ≡ none → some missing_image ≡ none)
delete_images_finished_example =
    delete_images_finished images entries images-HasEntries 2 entries-le false false true
      images-ResolvesIds ("top" ∷ "gone" ∷ []) (some missing_image) three
      (top-IsListed, (gone-IsListed, tt))

-- A name is resolved to an image of another ID.
named : (get_image images tag three).0 ≡ ok (some (image_of "kept"))
unfolding program has_string
named = refl

pruned : prune_images images 2 ("base" ∷ "top" ∷ "kept" ∷ []) ≡ (finished none, "kept" ∷ [])
unfolding program
pruned = refl
