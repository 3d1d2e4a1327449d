-- ===== src/Sync/Lifecycle.antt =====
-- Registering and unregistering a volume: what happens to the map of volumes.
use k8storagex.Base.{
  ℕ, ◌≡◌, refl, String, Bool, ◌&&◌, Option, none, some, arith, Option-cases, inl, inr, Error, ◌==◌,
  string_eq, if◌then◌else◌,
}
use k8storagex.Api.Cache.{Cache, NodeStatus}
use k8storagex.Sync.Volumes.{find_volume}
use k8storagex.Sync.Volumes.View.{
  added, find_volume-add_volume, find_volume-add_volume_again, find_volume-remove_volume,
}
use k8storagex.Sync.Commit.{use_image, register_volume, note_error, unregister_volume}

-- Registering puts the volume on the map if it is not there, with a new generation if it may commit,
-- and changes nothing else there; a volume that is there stays as it is.
pub find_volume-register_volume :
    (now : ℕ) (node volume image m v : String) (commit : Bool) (c : Cache)
    → find_volume m v (register_volume now node volume image commit c).0.status.nodes ≡ (
        if node == m && volume == v
        then elim (find_volume m v c.status.nodes) [
          | some w ↦ some w
          | none ↦ some (added now volume commit c)
        ]
        else find_volume m v c.status.nodes)
unfolding register_volume use_image
find_volume-register_volume now node volume image m v commit c =
    elim (Option-cases (find_volume node volume c.status.nodes)) [
      | inl e ↦
          ground
            (arith, e, find_volume-add_volume now node volume m v commit (use_image image c).0 e)
      | inr (w, e) ↦ ground (
        arith,
        e,
        find_volume-add_volume_again now node volume m v commit (use_image image c).0 e,
      )
    ]

note_error-volumes :
    (now : ℕ) (volume : String) (e : Option Error) (g : Option ℕ) (n : NodeStatus)
    → (note_error now volume e g n).volumes ≡ n.volumes
unfolding note_error
note_error-volumes now volume none g n = refl
note_error-volumes now volume (some e) g n = refl

note_error-name :
    (now : ℕ) (volume : String) (e : Option Error) (g : Option ℕ) (n : NodeStatus)
    → (note_error now volume e g n).name ≡ n.name
unfolding note_error
note_error-name now volume none g n = refl
note_error-name now volume (some e) g n = refl

-- Unregistering takes the volume off the map, and changes nothing else there.
pub find_volume-unregister_volume :
    (now : ℕ) (node volume m v : String) (e : Option Error) (c : Cache)
    → find_volume m v (unregister_volume now node volume e c).status.nodes
      ≡ (if node == m && volume == v then none else find_volume m v c.status.nodes)
unfolding unregister_volume
find_volume-unregister_volume now node volume m v e c =
    find_volume-remove_volume now node volume m v (note_error now volume e) c.status
      (note_error-volumes now volume e) (note_error-name now volume e)

-- A volume that was not on the map, registered and then unregistered with any outcome, leaves the map
-- as it was.
pub unregister_volume-register_volume :
    (t now : ℕ) (node volume image m v : String) (commit : Bool) (e : Option Error) (c : Cache)
    → find_volume node volume c.status.nodes ≡ none
    → find_volume m v
        (unregister_volume t node volume e
          (register_volume now node volume image commit c).0).status.nodes
      ≡ find_volume m v c.status.nodes
unregister_volume-register_volume t now node volume image m v commit e c new =
    rw
      (find_volume-unregister_volume t node volume m v e
        (register_volume now node volume image commit c).0)
      (ground (arith, find_volume-register_volume now node volume image m v commit c, new))
