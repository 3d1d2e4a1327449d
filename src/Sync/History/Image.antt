-- ===== src/Sync/History/Image.antt =====
-- The image of a cache is chosen once.
use k8storagex.Base.{ℕ, ◌≡◌, ◌≢◌, String, Bool, List, arith, string_eq}
use k8storagex.Api.Cache.{Cache}
use k8storagex.Sync.Volumes.{add_volume, remove_volume}
use k8storagex.Sync.Commit.{use_image, register_volume, unregister_volume}
use k8storagex.Sync.Commit.Refusal.{prepare_commit-SameHead}
use k8storagex.Sync.History.{Edit, register, prepare, unregister, apply, run, run_induction}

image-add_volume :
    (now : ℕ) (node volume : String) (commit : Bool) (c : Cache)
    → (add_volume now node volume commit c).0.status.image ≡ c.status.image
unfolding add_volume
image-add_volume now node volume commit c = ground arith

image-register_volume :
    (now : ℕ) (node volume default_image : String) (commit : Bool) (c : Cache)
    → (register_volume now node volume default_image commit c).0.status.image
      ≡ (register_volume now node volume default_image commit c).1
unfolding register_volume use_image
image-register_volume now node volume default_image commit c =
    image-add_volume now node volume commit (use_image default_image c).0

register_volume-image :
    (now : ℕ) (node volume default_image : String) (commit : Bool) (c : Cache)
    → c.status.image ≢ ""
    → (register_volume now node volume default_image commit c).1 ≡ c.status.image
unfolding register_volume use_image
register_volume-image now node volume default_image commit c h = ground arith

abbrev Has : String → Cache → Type 0
Has image c = c.status.image ≡ image

apply-Has :
    {image : String} → image ≢ "" → (e : Edit) (c : Cache) → Has image c → Has image (apply e c)
unfolding apply
apply-Has ne (register now node volume d commit) c h = ground (
  arith,
  image-register_volume now node volume d commit c,
  register_volume-image now node volume d commit c,
)
apply-Has ne (prepare now node volume) c h =
    ground (arith, prepare_commit-SameHead now node volume c)
apply-Has ne (unregister now node volume e) c h = unfold unregister_volume remove_volume in h

-- The image that a registration hands out, if it is not empty, is handed out by every later one,
-- whatever edits come between and whatever default they bring.
pub image_sticky :
    (now t : ℕ) (node volume d node' volume' d' : String) (commit commit' : Bool) (c : Cache)
    (es : List Edit)
    → (register_volume now node volume d commit c).1 ≢ ""
    → (register_volume t node' volume' d' commit'
        (run es (register_volume now node volume d commit c).0)).1
      ≡ (register_volume now node volume d commit c).1
image_sticky now t node volume d node' volume' d' commit commit' c es h =
    let first = register_volume now node volume d commit c in
    let kept : Has first.1 (run es first.0) =
      run_induction (Has first.1) (apply-Has h) es first.0
        (image-register_volume now node volume d commit c) in
    ground (arith, kept, register_volume-image t node' volume' d' commit' (run es first.0))
