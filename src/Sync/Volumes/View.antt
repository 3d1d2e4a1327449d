-- ===== src/Sync/Volumes/View.antt =====
-- A cache's volumes as a map from node and volume names: what the helpers do to it.
use k8storagex.Base.{
  Option-cases, inl, inr, ◌&&◌, not, ◌++◌, increment, Bool, Option, ℕ, ◌≡◌, refl, String, none,
  some, List, [], ◌∷◌, ◌++◌, arith, ◌==◌, string_eq, if◌then◌else◌,
}
use k8storagex.Api.Cache.{Cache, CacheStatus, NodeStatus, VolumeStatus}
use k8storagex.Sync.Volumes.{
  write_volume, kept_generation, add_volume, remove_volume, new_node, find_node, write_node,
  upsert_node, find_by_name, write_by_name, find_volume, without_volume,
}

abbrev pub KeepsName : (NodeStatus → NodeStatus) → Type 0
KeepsName f = (n : NodeStatus) → (f n).name ≡ n.name

-- The node that `upsertNode` points to: an old one, or a new one.
abbrev pub node_of : ℕ → String → List NodeStatus → NodeStatus
node_of now name ns = elim (find_node name ns) [
  | none ↦ new_node now name
  | some n ↦ record n { last_used = now }
]

pub find_node-upsert_node :
    (now : ℕ) (name m : String) (ns : List NodeStatus)
    → find_node m (upsert_node now name ns)
      ≡ (if name == m then some (node_of now name ns) else find_node m ns)
unfolding find_node upsert_node
find_node-upsert_node now name m [] = ground arith
find_node-upsert_node now name m (n ∷ ns) = ground (arith, find_node-upsert_node now name m ns)

pub find_volume-upsert_node :
    (now : ℕ) (name m v : String) (ns : List NodeStatus)
    → find_volume m v (upsert_node now name ns) ≡ find_volume m v ns
unfolding find_volume find_node upsert_node find_by_name
find_volume-upsert_node now name m v [] = ground arith
find_volume-upsert_node now name m v (n ∷ ns) =
    ground (arith, find_volume-upsert_node now name m v ns)

pub find_node-write_node :
    (name m : String) (f : NodeStatus → NodeStatus) (ns : List NodeStatus)
    → KeepsName f
    → find_node m (write_node name f ns) ≡ (
        if name == m
        then elim (find_node name ns) [ none ↦ none | some n ↦ some (f n) ]
        else find_node m ns)
unfolding find_node write_node
find_node-write_node name m f [] k = ground arith
find_node-write_node name m f (n ∷ ns) k = ground (arith, k n, find_node-write_node name m f ns k)

pub find_by_name-append :
    (name : String) (vs : List VolumeStatus) (w : VolumeStatus)
    → find_by_name name (vs ++ (w ∷ [])) ≡ (elim (find_by_name name vs) [
      | some v ↦ some v
      | none ↦ if w.name == name then some w else none
    ])
unfolding find_by_name
find_by_name-append name [] w = ground arith
find_by_name-append name (v ∷ vs) w = ground (arith, find_by_name-append name vs w)

pub find_by_name-without_volume :
    (name v : String) (vs : List VolumeStatus)
    → find_by_name v (without_volume name vs) ≡ (if name == v then none else find_by_name v vs)
unfolding find_by_name without_volume
find_by_name-without_volume name v [] = ground arith
find_by_name-without_volume name v (w ∷ vs) = ground (arith, find_by_name-without_volume name v vs)

pub find_by_name-write_by_name :
    (name v : String) (f : VolumeStatus → VolumeStatus) (vs : List VolumeStatus)
    → ((w : VolumeStatus) → (f w).name ≡ w.name)
    → find_by_name v (write_by_name name f vs) ≡ (
        if name == v
        then elim (find_by_name name vs) [ none ↦ none | some w ↦ some (f w) ]
        else find_by_name v vs)
unfolding find_by_name write_by_name
find_by_name-write_by_name name v f [] k = ground arith
find_by_name-write_by_name name v f (w ∷ vs) k =
    ground (arith, k w, find_by_name-write_by_name name v f vs k)

pub find_volume-write_node :
    (name m v : String) (f : NodeStatus → NodeStatus) (ns : List NodeStatus)
    → KeepsName f
    → find_volume m v (write_node name f ns) ≡ (
        if name == m
        then elim (find_node name ns) [ none ↦ none | some n ↦ find_by_name v (f n).volumes ]
        else find_volume m v ns)
unfolding find_volume
find_volume-write_node name m v f ns k = ground (arith, find_node-write_node name m f ns k)

-- A write through the pointer that `upsertNode` returns.
pub find_volume-touch :
    (now : ℕ) (name m v : String) (f : NodeStatus → NodeStatus) (ns : List NodeStatus)
    → KeepsName f
    → find_volume m v (write_node name f (upsert_node now name ns))
      ≡ (if name == m then find_by_name v (f (node_of now name ns)).volumes else find_volume m v ns)
find_volume-touch now name m v f ns k =
    rw (find_volume-write_node name m v f (upsert_node now name ns) k) (
      ground
        (arith, find_node-upsert_node now name name ns, find_volume-upsert_node now name m v ns))

-- The volumes of that node are those of the view.
pub find_by_name-node_of :
    (now : ℕ) (name v : String) (ns : List NodeStatus)
    → find_by_name v (node_of now name ns).volumes ≡ find_volume name v ns
unfolding find_volume find_by_name
find_by_name-node_of now name v ns = ground arith

-- Removing a volume takes that volume out of the view and nothing else, whatever else is written.
pub find_volume-remove_volume :
    (now : ℕ) (node volume m v : String) (write : Option ℕ → NodeStatus → NodeStatus)
    (cs : CacheStatus)
    → ((g : Option ℕ) (n : NodeStatus) → (write g n).volumes ≡ n.volumes)
    → ((g : Option ℕ) (n : NodeStatus) → (write g n).name ≡ n.name)
    → find_volume m v (remove_volume now node volume write cs).nodes
      ≡ (if node == m && volume == v then none else find_volume m v cs.nodes)
unfolding remove_volume
find_volume-remove_volume now node volume m v write cs kv kn =
    let removal : NodeStatus → NodeStatus = λ n.
      write (kept_generation volume n.volumes)
        (record n { volumes = without_volume volume n.volumes }) in
    rw (find_volume-touch now node m v removal cs.nodes (λ n. kn _ _), kv)
      (rw find_by_name-without_volume (ground (arith, find_by_name-node_of now node v cs.nodes)))

find_volume-append :
    (now : ℕ) (node m v : String) (w : VolumeStatus) (ns : List NodeStatus)
    → find_volume node w.name ns ≡ none
    → find_volume m v (
        write_node node
          (λ n. record n { volumes = n.volumes ++ (w ∷ []) })
          (upsert_node now node ns))
      ≡ (if node == m && w.name == v then some w else find_volume m v ns)
find_volume-append now node m v w ns new =
    rw
      (find_volume-touch now node m v (λ n. record n { volumes = n.volumes ++ (w ∷ []) }) ns
        (λ n. refl))
      (rw find_by_name-append (ground (arith, find_by_name-node_of now node v ns, new)))

-- What `addVolume` appends.
abbrev pub added : ℕ → String → Bool → Cache → VolumeStatus
added now volume commit c =
    let committable = commit && not c.spec.read_only in
    record {
      name = volume;
      cache_generation =
          if committable then increment c.status.cache_generation else c.status.cache_generation;
      created = now;
      committable = committable;
      commit_start_time = none;
    }

-- Adding a volume that is not there adds it to the view, and changes nothing else there.
pub find_volume-add_volume :
    (now : ℕ) (node volume m v : String) (commit : Bool) (c : Cache)
    → find_volume node volume c.status.nodes ≡ none
    → find_volume m v (add_volume now node volume commit c).0.status.nodes ≡ (
        if node == m && volume == v
        then some (added now volume commit c)
        else find_volume m v c.status.nodes)
unfolding add_volume
find_volume-add_volume now node volume m v commit c new =
    rw (find_volume-upsert_node now node node volume c.status.nodes, add_volume)
      (rw (new, add_volume)
        (find_volume-append now node m v (added now volume commit c) c.status.nodes new))

-- Adding a volume that is there already leaves the view as it is.
pub find_volume-add_volume_again :
    (now : ℕ) (node volume m v : String) (commit : Bool) (c : Cache) {w : VolumeStatus}
    → find_volume node volume c.status.nodes ≡ some w
    → find_volume m v (add_volume now node volume commit c).0.status.nodes
      ≡ find_volume m v c.status.nodes
unfolding add_volume
find_volume-add_volume_again now node volume m v commit c old =
    rw (find_volume-upsert_node now node node volume c.status.nodes, add_volume)
      (rw (old, add_volume) (find_volume-upsert_node now node m v c.status.nodes))

-- A write through the pointer that `findVolume` returns.
pub find_volume-write_volume :
    (node volume m v : String) (f : VolumeStatus → VolumeStatus) (ns : List NodeStatus)
    → ((w : VolumeStatus) → (f w).name ≡ w.name)
    → find_volume m v (write_volume node volume f ns) ≡ (
        if node == m && volume == v
        then elim (find_volume m v ns) [ none ↦ none | some w ↦ some (f w) ]
        else find_volume m v ns)
unfolding write_volume
find_volume-write_volume node volume m v f ns k =
    rw
      (find_volume-write_node node m v
        (λ n. record n { volumes = write_by_name volume f n.volumes }) ns (λ n. refl))
      (unfold find_volume in
        elim (Option-cases (find_node node ns)) [
          | inl e ↦ ground (arith, e)
          | inr (n, e) ↦ ground (arith, e, find_by_name-write_by_name volume v f n.volumes k)
        ])
