-- ===== src/Sync/Commit/View.antt =====
-- What the commit lock does to the map of a cache's volumes.
use mathlib.Core.Path.{subst}
use mathlib.Core.Option.{some-injective}
use k8storagex.Base.{
  ◌⊎◌, ◌∙◌, ℕ, zero, suc, ◌+◌, ◌≡◌, refl, ◌≢◌, sym, String, Bool, true, false, ◌&&◌, Option, none,
  some, List, [], ◌∷◌, arith, set, Option-cases, Bool-cases, inl, inr, ◌==◌, string_eq,
  if◌then◌else◌,
}
use k8storagex.Api.Cache.{cache_phase_reject, Cache, NodeStatus, VolumeStatus}
use k8storagex.Sync.Volumes.{write_volume, find_node, find_by_name, find_volume}
use k8storagex.Sync.Volumes.View.{find_volume-remove_volume, find_volume-write_volume}
use k8storagex.Sync.Commit.{
  start_commit, try_lock, prepare_commit, timed_out, is_locked, Place, first_free_volume,
  first_free, release_lock, commit_in_progress,
}

-- The element at an index.
abbrev At : {A : Type 0} → List A → ℕ → A → Type 0
At [] i a = ⊥
At (x ∷ xs) zero a = x ≡ a
At (x ∷ xs) (suc i) a = At xs i a

find_by_name-set :
    (v : String) (vs : List VolumeStatus) (j : ℕ) (w w' : VolumeStatus)
    → At vs j w
    → w'.name ≡ w.name
    → w.name ≢ v
    → find_by_name v (set vs j w') ≡ find_by_name v vs
unfolding find_by_name
find_by_name-set v [] j w w' at e ne = elim at [ ]
find_by_name-set v (x ∷ vs) zero w w' at e ne = ground arith
find_by_name-set v (x ∷ vs) (suc j) w w' at e ne =
    ground (arith, find_by_name-set v vs j w w' at e ne)

-- A write to a node that keeps its name, and what it holds of the name `v`.
find_volume-set :
    (m v : String) (ns : List NodeStatus) (i : ℕ) (n n' : NodeStatus)
    → At ns i n
    → n'.name ≡ n.name
    → (n.name ≡ m → find_by_name v n'.volumes ≡ find_by_name v n.volumes)
    → find_volume m v (set ns i n') ≡ find_volume m v ns
unfolding find_volume find_node
find_volume-set m v [] i n n' at e same = elim at [ ]
find_volume-set m v (x ∷ ns) zero n n' at e same = ground arith
find_volume-set m v (x ∷ ns) (suc i) n n' at e same =
    ground (arith, find_volume-set m v ns i n n' at e same)

-- Where the inner loop stops.
first_free_volume-At :
    (now i j : ℕ) (n : NodeStatus) (vs : List VolumeStatus) (p : Place)
    → first_free_volume now i j n vs ≡ some p
    → (k : ℕ) × (p.node_index ≡ i) × (p.volume_index ≡ j + k) × (p.node ≡ n) × At vs k p.volume
unfolding first_free_volume
first_free_volume-At now i j n [] p h = cc
first_free_volume-At now i j n (v ∷ vs) p h =
    elim (Bool-cases (is_locked now v.commit_start_time)) [
      | inl l ↦
          let (k, a, b, c, d) = first_free_volume-At now i (suc j) n vs p (ground (arith, l, h)) in
          (suc k, a, omega arith, c, d)
      | inr l ↦ (
        0,
        ground (arith, l, h),
        ground (arith, l, h),
        ground (arith, l, h),
        ground (arith, l, h),
      )
    ]

-- A place is where its node and its volume stand, `i` nodes having been passed before the list.
abbrev IsPlace : ℕ → List NodeStatus → Place → Type 0
IsPlace i ns p =
    (k : ℕ) × (p.node_index ≡ i + k) × At ns k p.node × At p.node.volumes p.volume_index p.volume

first_free_volume-IsPlace :
    (now i : ℕ) (n : NodeStatus) (ns : List NodeStatus) (p : Place)
    → first_free_volume now i 0 n n.volumes ≡ some p
    → IsPlace i (n ∷ ns) p
first_free_volume-IsPlace now i n ns p h =
    let (k, a, b, c, d) = first_free_volume-At now i 0 n n.volumes p h in
    let e : p.volume_index ≡ k = omega arith in
    (
      0,
      omega arith,
      sym c,
      subst (λ (x : NodeStatus). At x.volumes p.volume_index p.volume) (sym c)
          (subst (λ x. At n.volumes x p.volume) (sym e) d),
    )

-- Where the outer loop stops.
first_free-IsPlace :
    (now i : ℕ) (ns : List NodeStatus) (p : Place) → first_free now i ns ≡ some p → IsPlace i ns p
unfolding first_free
first_free-IsPlace now i [] p h = cc
first_free-IsPlace now i (n ∷ ns) p h =
    elim (Option-cases (first_free_volume now i 0 n n.volumes)) [
      | inl l ↦
          let (k, a, b, c) = first_free-IsPlace now (suc i) ns p (ground (arith, l, h)) in
          (suc k, omega arith, b, c)
      | inr (q, l) ↦ first_free_volume-IsPlace now i n ns p (ground (arith, l, h))
    ]

find_volume-timed_out :
    (now : ℕ) (m v : String) (p : Place) (ns : List NodeStatus)
    → IsPlace 0 ns p
    → (p.node.name ≡ m → p.volume.name ≢ v)
    → find_volume m v (set ns p.node_index (timed_out now p)) ≡ find_volume m v ns
find_volume-timed_out now m v p ns (k, e, at_node, at_volume) ne =
    let i : k ≡ p.node_index = omega arith in
    find_volume-set m v ns p.node_index p.node (timed_out now p)
      (subst (λ x. At ns x p.node) i at_node) refl
      (λ same. find_by_name-set v p.node.volumes p.volume_index p.volume _ at_volume refl (ne same))

-- Releasing a lock takes the volume that held it out of the view, and changes nothing else there.
find_volume-release_lock :
    (now : ℕ) (m v : String) (p : Place) (c : Cache)
    → IsPlace 0 c.status.nodes p
    → find_volume m v (release_lock now p c).status.nodes
      ≡ (if p.node.name == m && p.volume.name == v then none else find_volume m v c.status.nodes)
unfolding release_lock
find_volume-release_lock now m v p c place =
    rw
      (find_volume-remove_volume now p.node.name p.volume.name m v (λ _ n. n) _ (λ g n. refl)
        (λ g n. refl))
      (elim (string_eq.dec p.node.name m) [
        | no other ↦
            ground
              (arith, find_volume-timed_out now m v p c.status.nodes place (λ e. absurd (other e)))
        | yes same ↦ elim (string_eq.dec p.volume.name v) [
          | yes same' ↦ ground arith
          | no other ↦
              ground (arith, find_volume-timed_out now m v p c.status.nodes place (λ e. other))
        ]
      ])

-- A volume stays as it is, or leaves the view.
abbrev pub Drops : Option VolumeStatus → Option VolumeStatus → Type 0
Drops old new = (new ≡ none) ⊎ (new ≡ old)

Drops-if : (b : Bool) (o : Option VolumeStatus) → Drops o (if b then none else o)
Drops-if true o = inl refl
Drops-if false o = inr refl

-- Looking at the lock.
pub commit_in_progress-Drops :
    (now : ℕ) (m v : String) (c : Cache)
    → Drops
        (find_volume m v c.status.nodes)
        (find_volume m v (commit_in_progress now c).0.status.nodes)
unfolding commit_in_progress
commit_in_progress-Drops now m v c = elim (Option-cases (first_free now 0 c.status.nodes)) [
  | inl e ↦ rw (e, commit_in_progress) (inr refl)
  | inr (p, e) ↦
      rw (e, commit_in_progress)
        (elim (Option-cases p.volume.commit_start_time) [
          | inl g ↦ rw g (inr refl)
          | inr (t, g) ↦ rw g (
              rw (find_volume-release_lock now m v p c (first_free-IsPlace now 0 _ p e))
                (Drops-if _ _))
        ])
]

-- A volume keeps its place in the view, its generation and whether it may commit, or leaves the view.
abbrev pub Keeps : Option VolumeStatus → Option VolumeStatus → Type 0
Keeps old new =
    (new ≡ none)
    ⊎ ((w : VolumeStatus) × (w' : VolumeStatus) × (old ≡ some w)
        × (new ≡ some w')
        × (w'.cache_generation ≡ w.cache_generation)
        × (w'.committable ≡ w.committable))

Keeps-refl : (o : Option VolumeStatus) → Keeps o o
Keeps-refl none = inl refl
Keeps-refl (some w) = inr (w, w, refl, refl, refl, refl)

Keeps-Drops : (old new : Option VolumeStatus) → Drops old new → Keeps old new
Keeps-Drops old new (inl e) = inl e
Keeps-Drops none new (inr e) = inl e
Keeps-Drops (some w) new (inr e) = inr (w, w, refl, e, refl, refl)

commit_in_progress-Keeps :
    (now : ℕ) (m v : String) (c : Cache)
    → Keeps
        (find_volume m v c.status.nodes)
        (find_volume m v (commit_in_progress now c).0.status.nodes)
commit_in_progress-Keeps now m v c = Keeps-Drops _ _ (commit_in_progress-Drops now m v c)

Keeps-trans : (o o' o'' : Option VolumeStatus) → Keeps o o' → Keeps o' o'' → Keeps o o''
Keeps-trans o o' o'' h (inl e) = inl e
Keeps-trans o o' o'' (inl e) (inr (w, w', f, g, h, i)) = cc
Keeps-trans o o' o'' (inr (w, w', f, g, h, i)) (inr (x, x', f', g', h', i')) =
    let same : w' ≡ x = some-injective w' x (sym g ∙ f') in inr (w, x', f, g', cc, cc)

-- Starting the commit of a volume.
Keeps-start_commit :
    (now : ℕ) (b : Bool) (o : Option VolumeStatus)
    → Keeps o (if b then elim o [ none ↦ none | some w ↦ some (start_commit now w) ] else o)
Keeps-start_commit now false o = Keeps-refl o
Keeps-start_commit now true none = inl refl
Keeps-start_commit now true (some w) = inr (w, start_commit now w, refl, refl, refl, refl)

find_volume-start_commit :
    (now : ℕ) (node volume m v : String) (ns : List NodeStatus)
    → Keeps (find_volume m v ns) (find_volume m v (write_volume node volume (start_commit now) ns))
find_volume-start_commit now node volume m v ns =
    rw (find_volume-write_volume node volume m v (start_commit now) ns (λ w. refl))
      (Keeps-start_commit now _ _)

try_lock-Keeps :
    (now : ℕ) (node volume m v : String) (w : VolumeStatus) (c : Cache)
    → Keeps
        (find_volume m v c.status.nodes)
        (find_volume m v (try_lock now node volume w c).0.status.nodes)
unfolding try_lock
try_lock-Keeps now node volume m v w c = elim (Bool-cases w.committable) [
  | inl e ↦
      simp (e, try_lock)
        (elim (Bool-cases (commit_in_progress now c).1) [
          | inl busy ↦ simp busy (commit_in_progress-Keeps now m v c)
          | inr free ↦ simp free (
              Keeps-trans _ _ _ (commit_in_progress-Keeps now m v c)
                (find_volume-start_commit now node volume m v _))
        ])
  | inr e ↦ simp (e, try_lock) (Keeps-refl _)
]

-- Whatever `PrepareCommit` answers, no volume is added, and each that stays keeps its generation.
pub prepare_commit-Keeps :
    (now : ℕ) (node volume m v : String) (c : Cache)
    → Keeps
        (find_volume m v c.status.nodes)
        (find_volume m v (prepare_commit now node volume c).0.status.nodes)
unfolding prepare_commit
prepare_commit-Keeps now node volume m v c = elim (Bool-cases c.spec.read_only) [
  | inl e ↦ simp (e, prepare_commit) (Keeps-refl _)
  | inr e ↦ elim (Bool-cases (c.status.phase == cache_phase_reject)) [
    | inl f ↦ simp (e, f, prepare_commit) (Keeps-refl _)
    | inr f ↦ elim (Option-cases (find_volume node volume c.status.nodes)) [
      | inl g ↦ simp (e, f, g, prepare_commit) (Keeps-refl _)
      | inr (w, g) ↦ simp (e, f, g, prepare_commit) (try_lock-Keeps now node volume m v w c)
    ]
  ]
]

-- Where a kept volume comes from.
pub Keeps-some :
    {o o' : Option VolumeStatus} {w' : VolumeStatus}
    → Keeps o o'
    → o' ≡ some w'
    → (w : VolumeStatus) × (o ≡ some w)
      × (w'.cache_generation ≡ w.cache_generation)
      × (w'.committable ≡ w.committable)
Keeps-some (inl gone) e = absurd (ground (arith, gone, e))
Keeps-some (inr (w, x, old, new, g, may)) e =
    (w, old, ground (arith, g, new, e), ground (arith, may, new, e))
