-- ===== src/Sync/History/Deadlock.antt =====
-- No history of edits ever lets a volume commit.
use k8storagex.Base.{
  ℕ, ◌≡◌, String, false, true, none, some, List, [], ◌∷◌, arith, All, Bool-cases, inl, inr,
  string_eq,
}
use k8storagex.Api.Cache.{Cache, NodeStatus, VolumeStatus}
use k8storagex.Sync.Volumes.{find_volume, find_node, find_by_name}
use k8storagex.Sync.Lifecycle.{find_volume-register_volume, find_volume-unregister_volume}
use k8storagex.Sync.Commit.{is_locked, prepare_commit}
use k8storagex.Sync.Commit.Permission.{NodeLocked, prepare_commit-eq-true}
use k8storagex.Sync.Commit.Refusal.{prepare_commit_refused}
use k8storagex.Sync.History.{Edit, register, prepare, unregister, apply, run, run_induction}

find_by_name_locked :
    (now : ℕ) (v : String) (vs : List VolumeStatus) (w : VolumeStatus)
    → All (λ (w : VolumeStatus). is_locked now w.commit_start_time ≡ true) vs
    → find_by_name v vs ≡ some w
    → is_locked now w.commit_start_time ≡ true
unfolding find_by_name
find_by_name_locked now v [] w h e = cc
find_by_name_locked now v (x ∷ vs) w h e = ground (arith, find_by_name_locked now v vs w h.1)

find_volume_locked :
    (now : ℕ) (m v : String) (ns : List NodeStatus) (w : VolumeStatus)
    → All (NodeLocked now) ns
    → find_volume m v ns ≡ some w
    → is_locked now w.commit_start_time ≡ true
unfolding find_volume find_node
find_volume_locked now m v [] w h e = cc
find_volume_locked now m v (n ∷ ns) w h e =
    ground (arith, find_volume_locked now m v ns w h.1, find_by_name_locked now v n.volumes w h.0)

-- A volume that has not started to commit is refused, whatever the rest of the cache is.
pub prepare_commit_idle :
    (now : ℕ) (node volume : String) (c : Cache) (w : VolumeStatus)
    → find_volume node volume c.status.nodes ≡ some w
    → w.commit_start_time ≡ none
    → (prepare_commit now node volume c).1 ≡ false
prepare_commit_idle now node volume c w found idle =
    elim (Bool-cases (prepare_commit now node volume c).1) [
      | inr no_commit ↦ no_commit
      | inl granted ↦
          let m = (prepare_commit-eq-true now node volume c).0 granted in
          let locked =
            find_volume_locked now node volume c.status.nodes m.holder m.locked m.found in
          absurd (unfold is_locked in ground (arith, found, idle, m.found, locked))
    ]

-- No commit has been started.
abbrev IsIdle : Cache → Type 0
IsIdle c =
    (m v : String) (w : VolumeStatus)
    → find_volume m v c.status.nodes ≡ some w
    → w.commit_start_time ≡ none

prepare_commit-IsIdle :
    (now : ℕ) (node volume : String) (c : Cache)
    → IsIdle c
    → (prepare_commit now node volume c).1 ≡ false
prepare_commit-IsIdle now node volume c idle =
    elim (Bool-cases (prepare_commit now node volume c).1) [
      | inr refused ↦ refused
      | inl granted ↦
          let m = (prepare_commit-eq-true now node volume c).0 granted in
          prepare_commit_idle now node volume c m.holder m.found (idle node volume m.holder m.found)
    ]

apply-IsIdle : (e : Edit) (c : Cache) → IsIdle c → IsIdle (apply e c)
unfolding apply
apply-IsIdle (register now node volume d commit) c h m v w found =
    ground (arith, find_volume-register_volume now node volume d m v commit c, h m v w)
apply-IsIdle (prepare now node volume) c h m v w found = ground (
  arith,
  prepare_commit_refused now node volume m v c (prepare_commit-IsIdle now node volume c h),
  h m v w,
)
apply-IsIdle (unregister now node volume e) c h m v w found =
    ground (arith, find_volume-unregister_volume now node volume m v e c, h m v w)

-- From a cache with no nodes, whatever edits are made in whatever order, `PrepareCommit` answers false
-- to every volume at every time.
pub never_granted :
    (c : Cache) (es : List Edit) (now : ℕ) (node volume : String)
    → c.status.nodes ≡ []
    → (prepare_commit now node volume (run es c)).1 ≡ false
never_granted c es now node volume empty = prepare_commit-IsIdle now node volume (run es c) (
    run_induction IsIdle apply-IsIdle es c
      (λ m v w found. unfold find_volume find_node in ground (arith, empty, found)))
