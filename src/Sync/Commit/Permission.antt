-- ===== src/Sync/Commit/Permission.antt =====
-- When `PrepareCommit` lets a volume commit.
use k8storagex.Base.{
  ℕ, suc, ◌≡◌, refl, ◌≢◌, ◌↔◌, String, true, false, none, some, List, [], ◌∷◌, arith, All,
  Option-cases, Bool-cases, inl, inr, string_eq,
}
use k8storagex.Api.Cache.{Cache, NodeStatus, VolumeStatus, cache_phase_reject}
use k8storagex.Sync.Volumes.{find_volume}
use k8storagex.Sync.Commit.{
  is_locked, first_free_volume, first_free, commit_in_progress, try_lock, prepare_commit,
}

abbrev pub NodeLocked : ℕ → NodeStatus → Type 0
NodeLocked now n = All (λ (w : VolumeStatus). is_locked now w.commit_start_time ≡ true) n.volumes

-- Every volume of the cache has a commit running that has not timed out.
abbrev pub AllLocked : ℕ → Cache → Type 0
AllLocked now c = All (NodeLocked now) c.status.nodes

first_free_volume-eq-none :
    (now i j : ℕ) (n : NodeStatus) (vs : List VolumeStatus)
    → first_free_volume now i j n vs ≡ none
    → All (λ (w : VolumeStatus). is_locked now w.commit_start_time ≡ true) vs
unfolding first_free_volume
first_free_volume-eq-none now i j n [] h = tt
first_free_volume-eq-none now i j n (v ∷ vs) h =
    elim (Bool-cases (is_locked now v.commit_start_time)) [
      | inl l ↦ (l, first_free_volume-eq-none now i (suc j) n vs (ground (arith, l, h)))
      | inr l ↦ absurd (ground (arith, l, h))
    ]

first_free_volume-locked :
    (now i j : ℕ) (n : NodeStatus) (vs : List VolumeStatus)
    → All (λ (w : VolumeStatus). is_locked now w.commit_start_time ≡ true) vs
    → first_free_volume now i j n vs ≡ none
unfolding first_free_volume
first_free_volume-locked now i j n [] h = refl
first_free_volume-locked now i j n (v ∷ vs) h =
    rw h.0 (first_free_volume-locked now i (suc j) n vs h.1)

first_free-eq-none :
    (now i : ℕ) (ns : List NodeStatus) → first_free now i ns ≡ none → All (NodeLocked now) ns
unfolding first_free
first_free-eq-none now i [] h = tt
first_free-eq-none now i (n ∷ ns) h = elim (Option-cases (first_free_volume now i 0 n n.volumes)) [
  | inl l ↦ (
    first_free_volume-eq-none now i 0 n n.volumes l,
    first_free-eq-none now (suc i) ns (ground (arith, l, h)),
  )
  | inr (p, l) ↦ absurd (ground (arith, l, h))
]

first_free-locked :
    (now i : ℕ) (ns : List NodeStatus) → All (NodeLocked now) ns → first_free now i ns ≡ none
unfolding first_free
first_free-locked now i [] h = refl
first_free-locked now i (n ∷ ns) h =
    rw (first_free_volume-locked now i 0 n n.volumes h.0, first_free)
      (first_free-locked now (suc i) ns h.1)

-- The lock reads as free exactly while every volume is being committed.
commit_in_progress-eq-false :
    (now : ℕ) (c : Cache) → ((commit_in_progress now c).1 ≡ false) ↔ AllLocked now c
unfolding commit_in_progress
commit_in_progress-eq-false now c = (
  λ h. elim (Option-cases (first_free now 0 c.status.nodes)) [
    | inl e ↦ first_free-eq-none now 0 c.status.nodes e
    | inr (p, e) ↦ absurd (ground (arith, e, h))
  ],
  λ h. rw (first_free-locked now 0 c.status.nodes h, commit_in_progress),
)

try_lock-eq-true :
    (now : ℕ) (node volume : String) (w : VolumeStatus) (c : Cache)
    → ((try_lock now node volume w c).1 ≡ true) ↔ ((w.committable ≡ true) × AllLocked now c)
unfolding try_lock
try_lock-eq-true now node volume w c = (
  λ h. (ground (arith, h), (commit_in_progress-eq-false now c).0 (ground (arith, h))),
  λ h. simp (h.0, (commit_in_progress-eq-false now c).1 h.1, try_lock),
)

-- What the code asks for before it lets a volume commit.
pub record MayCommit (now : ℕ) (node volume : String) (c : Cache) : Type 0 where
  pub writable : c.spec.read_only ≡ false
  pub accepting : c.status.phase ≢ cache_phase_reject
  pub holder : VolumeStatus
  pub found : find_volume node volume c.status.nodes ≡ some holder
  pub committable : holder.committable ≡ true
  pub locked : AllLocked now c

-- `PrepareCommit` answers true exactly if the cache is writable and not rejecting, the volume is
-- registered and committable, and every volume of the cache has a commit running already.
pub prepare_commit-eq-true :
    (now : ℕ) (node volume : String) (c : Cache)
    → ((prepare_commit now node volume c).1 ≡ true) ↔ MayCommit now node volume c
unfolding prepare_commit
prepare_commit-eq-true now node volume c = (
  λ h. elim (Option-cases (find_volume node volume c.status.nodes)) [
    | inl e ↦ absurd (ground (arith, e, h))
    | inr (w, e) ↦
        let granted : (try_lock now node volume w c).1 ≡ true = ground (arith, e, h) in
        let (may, locked) = (try_lock-eq-true now node volume w c).0 granted in
        record {
          writable = ground (arith, e, h);
          accepting = ground (arith, e, h);
          holder = w;
          found = e;
          committable = may;
          locked = locked;
        }
  ],
  λ m. ground (
    arith,
    m.writable,
    m.accepting,
    m.found,
    (try_lock-eq-true now node volume m.holder c).1 (m.committable, m.locked),
  ),
)
