-- ===== src/Sync/Volumes.antt =====
-- internal/ksync/sync.go: the helpers that edit a Cache's status.
-- The `*NodeStatus` that `upsertNode` returns points to the first node of the name, and the
-- `*VolumeStatus` that `findVolume` returns to that node's first volume of the name. A read through
-- such a pointer is `find_node`, a write `write_node` and `write_volume`.
pub mod View
use k8storagex.Base.{
  ℕ, String, ◌<>◌, Bool, ◌&&◌, not, Option, none, some, List, [], ◌∷◌, ◌++◌, increment, Error,
  new_error, ◌==◌, string_eq, if◌then◌else◌,
}
use k8storagex.Api.Cache.{Cache, CacheStatus, NodeStatus, VolumeStatus}

unfoldable pub find_node : String → List NodeStatus → Option NodeStatus
find_node name [] = none
find_node name (n ∷ ns) = if n.name == name then some n else find_node name ns

unfoldable pub write_node : String → (NodeStatus → NodeStatus) → List NodeStatus → List NodeStatus
write_node name f [] = []
write_node name f (n ∷ ns) = if n.name == name then f n ∷ ns else n ∷ write_node name f ns

abbrev pub new_node : ℕ → String → NodeStatus
new_node now name = record {
  name = name;
  cache_generation = 0;
  last_used = now;
  last_image_id = "";
  volumes = [];
  last_error = none;
}

-- The loop of `upsertNode` over the nodes, with the append behind it.
unfoldable pub upsert_node : ℕ → String → List NodeStatus → List NodeStatus
upsert_node now name [] = new_node now name ∷ []
upsert_node now name (n ∷ ns) =
    if n.name == name then record n { last_used = now } ∷ ns else n ∷ upsert_node now name ns

unfoldable pub find_by_name : String → List VolumeStatus → Option VolumeStatus
find_by_name name [] = none
find_by_name name (v ∷ vs) = if v.name == name then some v else find_by_name name vs

unfoldable pub write_by_name :
    String → (VolumeStatus → VolumeStatus) → List VolumeStatus → List VolumeStatus
write_by_name name f [] = []
write_by_name name f (v ∷ vs) = if v.name == name then f v ∷ vs else v ∷ write_by_name name f vs

-- `none` is either of the two errors, which read alike.
unfoldable pub find_volume : String → String → List NodeStatus → Option VolumeStatus
find_volume node volume nodes = elim (find_node node nodes) [
  | none ↦ none
  | some n ↦ find_by_name volume n.volumes
]

unfoldable pub write_volume :
    String → String → (VolumeStatus → VolumeStatus) → List NodeStatus → List NodeStatus
write_volume node volume f =
    write_node node (λ n. record n { volumes = write_by_name volume f n.volumes })

abbrev pub with_nodes : List NodeStatus → Cache → Cache
with_nodes nodes c = record c { status = record (c.status) { nodes = nodes } }

-- The new state comes back beside the error too: the upsert is not undone.
unfoldable pub add_volume : ℕ → String → String → Bool → Cache → Cache × Option Error
add_volume now node volume commit c =
    let nodes = upsert_node now node c.status.nodes in
    elim (find_volume node volume nodes) [
      | some v ↦ (
        with_nodes nodes c,
        some (new_error ("volume " <> volume <> " on node " <> node <> " already exists")),
      )
      | none ↦
          let committable = commit && not c.spec.read_only in
          let generation : ℕ =
            if committable
            then increment c.status.cache_generation
            else c.status.cache_generation in
          let volume_status : VolumeStatus = record {
            name = volume;
            cache_generation = generation;
            created = now;
            committable = committable;
            commit_start_time = none;
          } in
          (
            record c {
              status = record (c.status) {
                cache_generation = generation;
                nodes =
                    write_node node (λ n. record n { volumes = n.volumes ++ (volume_status ∷ []) })
                      nodes;
              };
            },
            none,
          )
    ]

-- The volumes that the loop of `removeVolume` keeps.
unfoldable pub without_volume : String → List VolumeStatus → List VolumeStatus
without_volume name [] = []
without_volume name (v ∷ vs) =
    let rest = without_volume name vs in if v.name == name then rest else v ∷ rest

unfoldable pub last_generation : ℕ → List VolumeStatus → ℕ
last_generation g [] = g
last_generation g (v ∷ vs) = last_generation v.cache_generation vs

-- `cacheGeneration = &v.CacheGeneration`, set for each volume that is kept: it points into the loop
-- variable (one for the whole loop, go 1.14), so in the end it reads the last volume's generation.
unfoldable pub kept_generation : String → List VolumeStatus → Option ℕ
unfolding last_generation
kept_generation name volumes = elim (without_volume name volumes) [
  | [] ↦ none
  | v ∷ vs ↦ some (last_generation 0 volumes)
]

-- `removeVolume`, with what is written through the returned pointer, given the returned generation.
unfoldable pub remove_volume :
    ℕ → String → String → (Option ℕ → NodeStatus → NodeStatus) → CacheStatus → CacheStatus
remove_volume now node volume write cs = record cs {
  nodes =
      write_node node
        (λ n.
          write (kept_generation volume n.volumes)
            (record n { volumes = without_volume volume n.volumes }))
        (upsert_node now node cs.nodes);
}
