-- ===== src/Sync/History.antt =====
-- The edits that nodes make to one Cache, in any order: the API server's optimistic locking makes each
-- of them atomic (Sync/Updater).
pub mod Image
pub mod Deadlock
pub mod Generation
use k8storagex.Base.{ℕ, String, Bool, Option, List, [], ◌∷◌, Error}
use k8storagex.Api.Cache.{Cache}
use k8storagex.Sync.Commit.{register_volume, prepare_commit, unregister_volume}

-- An edit with the time at which it is made, the node and the volume.
pub data Edit : Type 0 where
  register : ℕ → String → String → String → Bool → Edit
  prepare : ℕ → String → String → Edit
  unregister : ℕ → String → String → Option Error → Edit

unfoldable pub apply : Edit → Cache → Cache
apply (register now node volume image commit) c = (register_volume now node volume image commit c).0
apply (prepare now node volume) c = (prepare_commit now node volume c).0
apply (unregister now node volume e) c = unregister_volume now node volume e c

unfoldable pub run : List Edit → Cache → Cache
run [] c = c
run (e ∷ es) c = run es (apply e c)

pub run_induction {ℓ} :
    (P : Cache → Type ℓ)
    → ((e : Edit) (c : Cache) → P c → P (apply e c))
    → (es : List Edit) (c : Cache) → P c
    → P (run es c)
unfolding run
run_induction P step [] c h = h
run_induction P step (e ∷ es) c h = run_induction P step es (apply e c) (step e c h)
