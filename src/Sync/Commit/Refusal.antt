-- ===== src/Sync/Commit/Refusal.antt =====
-- What `PrepareCommit` leaves behind when it refuses, and what it never touches.
use k8storagex.Base.{
  ℕ, ◌≡◌, refl, String, false, arith, Option-cases, Bool-cases, inl, inr, ◌==◌, string_eq,
}
use k8storagex.Api.Cache.{Cache, VolumeStatus, cache_phase_reject}
use k8storagex.Sync.Volumes.{find_volume, remove_volume}
use k8storagex.Sync.Commit.{commit_in_progress, release_lock, try_lock, prepare_commit}
use k8storagex.Sync.Commit.View.{Drops, commit_in_progress-Drops}

try_lock_refused :
    (now : ℕ) (node volume m v : String) (w : VolumeStatus) (c : Cache)
    → (try_lock now node volume w c).1 ≡ false
    → Drops
        (find_volume m v c.status.nodes)
        (find_volume m v (try_lock now node volume w c).0.status.nodes)
unfolding try_lock
try_lock_refused now node volume m v w c h = elim (Bool-cases w.committable) [
  | inl e ↦
      simp (e, try_lock)
        (elim (Bool-cases (commit_in_progress now c).1) [
          | inl busy ↦ simp busy (commit_in_progress-Drops now m v c)
          | inr free ↦ absurd (ground (arith, h, e, free))
        ])
  | inr e ↦ simp (e, try_lock) (inr refl)
]

-- A refusal leaves each volume as it is, or drops it; no commit is started.
pub prepare_commit_refused :
    (now : ℕ) (node volume m v : String) (c : Cache)
    → (prepare_commit now node volume c).1 ≡ false
    → Drops
        (find_volume m v c.status.nodes)
        (find_volume m v (prepare_commit now node volume c).0.status.nodes)
unfolding prepare_commit
prepare_commit_refused now node volume m v c h = elim (Bool-cases c.spec.read_only) [
  | inl e ↦ simp (e, prepare_commit) (inr refl)
  | inr e ↦ elim (Bool-cases (c.status.phase == cache_phase_reject)) [
    | inl f ↦ simp (e, f, prepare_commit) (inr refl)
    | inr f ↦ elim (Option-cases (find_volume node volume c.status.nodes)) [
      | inl g ↦ simp (e, f, g, prepare_commit) (inr refl)
      | inr (w, g) ↦
          simp (e, f, g, prepare_commit)
            (try_lock_refused now node volume m v w c (ground (arith, e, f, g, h)))
    ]
  ]
]

-- The part of a Cache that the lock does not touch.
pub record SameHead (c c' : Cache) : Type 0 where
  pub meta : c'.meta ≡ c.meta
  pub image : c'.status.image ≡ c.status.image
  pub generation : c'.status.cache_generation ≡ c.status.cache_generation
  pub used : c'.status.used ≡ c.status.used
  pub phase : c'.status.phase ≡ c.status.phase
  pub spec : c'.spec ≡ c.spec

commit_in_progress-SameHead : (now : ℕ) (c : Cache) → SameHead c (commit_in_progress now c).0
unfolding commit_in_progress release_lock remove_volume
commit_in_progress-SameHead now c = ground arith

try_lock-SameHead :
    (now : ℕ) (node volume : String) (w : VolumeStatus) (c : Cache)
    → SameHead c (try_lock now node volume w c).0
unfolding try_lock
try_lock-SameHead now node volume w c = ground (arith, commit_in_progress-SameHead now c)

-- `PrepareCommit` touches the volumes only.
pub prepare_commit-SameHead :
    (now : ℕ) (node volume : String) (c : Cache) → SameHead c (prepare_commit now node volume c).0
unfolding prepare_commit
prepare_commit-SameHead now node volume c =
    elim (Option-cases (find_volume node volume c.status.nodes)) [
      | inl e ↦ ground (arith, e)
      | inr (w, e) ↦ ground (arith, e, try_lock-SameHead now node volume w c)
    ]
