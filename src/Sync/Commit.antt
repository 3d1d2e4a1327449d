-- ===== src/Sync/Commit.antt =====
-- internal/ksync/sync.go: the commit lock of a cache, `commitInProgress`, and the three edits that
-- `Updater` makes to a Cache. One reading of the clock, `now`, stands for the calls of `time.Now()`
-- in one edit.
pub mod View
pub mod Permission
pub mod Refusal
use k8storagex.Base.{
  ℕ, suc, ◌+◌, ◌*◌, String, Bool, true, false, not, Option, none, some, List, [], ◌∷◌, ltb, set,
  increment, Error, ◌==◌, string_eq, if◌then◌else◌,
}
use k8storagex.Api.Cache.{Cache, NodeStatus, VolumeStatus, cache_phase_reject}
use k8storagex.Sync.Volumes.{find_volume, write_volume, with_nodes, add_volume, remove_volume}

-- 15 minutes in nanoseconds
abbrev pub commit_timeout : ℕ
commit_timeout = 15 * 60 * 1000000000

-- Whether the commit that started at the given time has not timed out.
unfoldable pub is_locked : ℕ → Option ℕ → Bool
is_locked now none = false
is_locked now (some start) = not (ltb (start + commit_timeout) now)

-- A position in the two loops.
pub record Place : Type 0 where
  pub node_index : ℕ
  pub volume_index : ℕ
  pub node : NodeStatus
  pub volume : VolumeStatus

-- The inner loop, up to the first volume that passes the test.
unfoldable pub first_free_volume : ℕ → ℕ → ℕ → NodeStatus → List VolumeStatus → Option Place
first_free_volume now i j n [] = none
first_free_volume now i j n (v ∷ vs) =
    if is_locked now v.commit_start_time
    then first_free_volume now i (suc j) n vs
    else some (record { node_index = i; volume_index = j; node = n; volume = v })

-- The outer loop.
unfoldable pub first_free : ℕ → ℕ → List NodeStatus → Option Place
first_free now i [] = none
first_free now i (n ∷ ns) = elim (first_free_volume now i 0 n n.volumes) [
  | some p ↦ some p
  | none ↦ first_free now (suc i) ns
]

-- The writes through `n` and `v` when the volume's commit has timed out.
abbrev pub timed_out : ℕ → Place → NodeStatus
timed_out now p = record (p.node) {
  volumes = set p.node.volumes p.volume_index (record (p.volume) { commit_start_time = none });
  last_error = some (record {
    volume_name = p.volume.name;
    cache_generation = some p.volume.cache_generation;
    error = "commit timed out";
    happened = now;
  });
}

-- The body of the test, when the volume's commit has timed out.
unfoldable pub release_lock : ℕ → Place → Cache → Cache
release_lock now p c = record c {
  status =
      remove_volume now p.node.name p.volume.name (λ _ n. n)
        (record (c.status) { nodes = set c.status.nodes p.node_index (timed_out now p) });
}

unfoldable pub commit_in_progress : ℕ → Cache → Cache × Bool
commit_in_progress now c = elim (first_free now 0 c.status.nodes) [
  | none ↦ (c, false)
  | some p ↦ elim (p.volume.commit_start_time) [
    | none ↦ (c, true)
    | some start ↦ (release_lock now p c, true)
  ]
]

abbrev pub start_commit : ℕ → VolumeStatus → VolumeStatus
start_commit now v = record v { commit_start_time = some now }

-- `commit && !commitInProgress(c)`: the lock is looked at only if the volume is committable.
unfoldable pub try_lock : ℕ → String → String → VolumeStatus → Cache → Cache × Bool
try_lock now node volume v c = elim (v.committable) [
  | false ↦ (c, false)
  | true ↦
      let (c', busy) = commit_in_progress now c in
      if busy
      then (c', false)
      else (with_nodes (write_volume node volume (start_commit now) c'.status.nodes) c', true)
]

-- The edit of `PrepareCommit`, with its answer.
unfoldable pub prepare_commit : ℕ → String → String → Cache → Cache × Bool
prepare_commit now node volume c =
    if c.spec.read_only
    then (c, false)
    else if c.status.phase == cache_phase_reject
    then (c, false)
    else elim (find_volume node volume c.status.nodes) [
      | none ↦ (c, false)
      | some v ↦ try_lock now node volume v c
    ]

-- The first part of the edit of `RegisterCacheVolume`: the image and the use counter.
unfoldable pub use_image : String → Cache → Cache × String
use_image default_image c =
    let image : String = if c.status.image == "" then default_image else c.status.image in
    (
      record c { status = record (c.status) { image = image; used = increment c.status.used } },
      image,
    )

-- The edit of `RegisterCacheVolume`, with the image it hands out; an error of `addVolume` is dropped.
unfoldable pub register_volume : ℕ → String → String → String → Bool → Cache → Cache × String
register_volume now node volume default_image commit c =
    let (c', image) = use_image default_image c in ((add_volume now node volume commit c').0, image)

-- The write to `node.LastError`.
unfoldable pub note_error : ℕ → String → Option Error → Option ℕ → NodeStatus → NodeStatus
note_error now volume none generation n = record n { last_error = none }
note_error now volume (some e) generation n = record n {
  last_error = some (record {
    volume_name = volume;
    cache_generation = generation;
    error = e.message;
    happened = now;
  });
}

-- The edit of `UnregisterCacheVolume`.
unfoldable pub unregister_volume : ℕ → String → String → Option Error → Cache → Cache
unregister_volume now node volume commit_error c = record c {
  status = remove_volume now node volume (note_error now volume commit_error) c.status;
}
