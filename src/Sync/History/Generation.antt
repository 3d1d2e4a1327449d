-- ===== src/Sync/History/Generation.antt =====
-- Generations: each committable volume has one of its own, and none is ahead of the cache's.
use k8storagex.Base.{
  sym, ◌∙◌, ℕ, ◌+◌, ◌^◌, ◌≤◌, ◌<◌, ◌≡◌, String, Bool, true, Option, none, some, List, [], ◌∷◌,
  arith, length, increment-eq-suc, Error, string_eq,
}
use k8storagex.Api.Cache.{Cache, VolumeStatus}
use k8storagex.Sync.Volumes.{find_volume, add_volume, remove_volume}
use k8storagex.Sync.Volumes.View.{find_volume-upsert_node, added}
use k8storagex.Sync.Lifecycle.{find_volume-register_volume, find_volume-unregister_volume}
use k8storagex.Sync.Commit.{use_image, register_volume, unregister_volume, prepare_commit}
use k8storagex.Sync.Commit.View.{prepare_commit-Keeps, Keeps-some}
use k8storagex.Sync.Commit.Refusal.{prepare_commit-SameHead}
use k8storagex.Sync.History.{Edit, register, prepare, unregister, apply, run}

-- The generation after a registration: one more if a new volume may commit.
generation-register_volume :
    (now : ℕ) (node volume d : String) (commit : Bool) (c : Cache)
    → (register_volume now node volume d commit c).0.status.cache_generation
      ≡ (elim (find_volume node volume c.status.nodes) [
        | some w ↦ c.status.cache_generation
        | none ↦ (added now volume commit c).cache_generation
      ])
unfolding register_volume use_image add_volume
generation-register_volume now node volume d commit c =
    ground (arith, find_volume-upsert_node now node node volume c.status.nodes)

pub record IsStamped (c : Cache) : Type 0 where
  pub bounded :
      (m v : String) (w : VolumeStatus)
      → find_volume m v c.status.nodes ≡ some w
      → w.cache_generation ≤ c.status.cache_generation
  pub distinct :
      (m v : String) (w : VolumeStatus) (m' v' : String) (w' : VolumeStatus)
      → find_volume m v c.status.nodes ≡ some w
      → find_volume m' v' c.status.nodes ≡ some w'
      → w.committable ≡ true
      → w'.committable ≡ true
      → w.cache_generation ≡ w'.cache_generation
      → (m ≡ m') × (v ≡ v')

register-IsStamped :
    (now : ℕ) (node volume d : String) (commit : Bool) (c : Cache)
    → c.status.cache_generation < 2 ^ 63
    → IsStamped c
    → IsStamped (register_volume now node volume d commit c).0
register-IsStamped now node volume d commit c room h = record {
  bounded = λ m v w found. ground (
    arith,
    find_volume-register_volume now node volume d m v commit c,
    generation-register_volume now node volume d commit c,
    increment-eq-suc c.status.cache_generation,
    h.bounded m v w,
  );
  distinct = λ m v w m' v' w' found found' may may' same. ground (
    arith,
    find_volume-register_volume now node volume d m v commit c,
    find_volume-register_volume now node volume d m' v' commit c,
    increment-eq-suc c.status.cache_generation,
    h.bounded m v w,
    h.bounded m' v' w',
    h.distinct m v w m' v' w',
  );
}

prepare-IsStamped :
    (now : ℕ) (node volume : String) (c : Cache)
    → IsStamped c
    → IsStamped (prepare_commit now node volume c).0
prepare-IsStamped now node volume c h = record {
  bounded = λ m v w found.
      let (x, old, g, may) = Keeps-some (prepare_commit-Keeps now node volume m v c) found in
      ground (arith, h.bounded m v x, (prepare_commit-SameHead now node volume c).generation);
  distinct = λ m v w m' v' w' found found' may may' same.
      let (x, old, g, e) = Keeps-some (prepare_commit-Keeps now node volume m v c) found in
      let (x', old', g', e') = Keeps-some (prepare_commit-Keeps now node volume m' v' c) found' in
      h.distinct m v x m' v' x' old old' (sym e ∙ may) (sym e' ∙ may') (omega arith);
}

unregister-IsStamped :
    (now : ℕ) (node volume : String) (e : Option Error) (c : Cache)
    → IsStamped c
    → IsStamped (unregister_volume now node volume e c)
unregister-IsStamped now node volume e c h = record {
  bounded = λ m v w found.
      unfold unregister_volume remove_volume in
      ground (arith, find_volume-unregister_volume now node volume m v e c, h.bounded m v w);
  distinct = λ m v w m' v' w' found found' may may' same. ground (
    arith,
    find_volume-unregister_volume now node volume m v e c,
    find_volume-unregister_volume now node volume m' v' e c,
    h.distinct m v w m' v' w',
  );
}

-- An edit takes the cache's generation at most one up, and never down.
generation-apply :
    (e : Edit) (c : Cache)
    → c.status.cache_generation < 2 ^ 63
    → (c.status.cache_generation ≤ (apply e c).status.cache_generation)
      × ((apply e c).status.cache_generation ≤ c.status.cache_generation + 1)
unfolding apply
generation-apply (register now node volume d commit) c room = ground (
  arith,
  generation-register_volume now node volume d commit c,
  increment-eq-suc c.status.cache_generation,
)
generation-apply (prepare now node volume) c room =
    ground (arith, prepare_commit-SameHead now node volume c)
generation-apply (unregister now node volume e) c room =
    unfold unregister_volume remove_volume in omega arith

apply-IsStamped :
    (e : Edit) (c : Cache)
    → c.status.cache_generation < 2 ^ 63
    → IsStamped c
    → IsStamped (apply e c)
unfolding apply
apply-IsStamped (register now node volume d commit) c room h =
    register-IsStamped now node volume d commit c room h
apply-IsStamped (prepare now node volume) c room h = prepare-IsStamped now node volume c h
apply-IsStamped (unregister now node volume e) c room h = unregister-IsStamped now node volume e c h

-- While fewer than 2^63 generations are used up, every history of edits keeps each volume's generation
-- at most the cache's, and the generations of committable volumes apart; the cache's own generation
-- grows by at most one for each edit, and never falls.
pub run-IsStamped :
    (es : List Edit) (c : Cache)
    → c.status.cache_generation + length es < 2 ^ 63
    → IsStamped c
    → IsStamped (run es c)
      × (c.status.cache_generation ≤ (run es c).status.cache_generation)
      × ((run es c).status.cache_generation ≤ c.status.cache_generation + length es)
unfolding run
run-IsStamped [] c room h = (h, omega arith, omega arith)
run-IsStamped (e ∷ es) c room h =
    let (up, most) = generation-apply e c (omega arith) in
    let (stamped, up', most') =
      run-IsStamped es (apply e c) (omega arith) (apply-IsStamped e c (omega arith) h) in
    (stamped, omega arith, omega arith)
