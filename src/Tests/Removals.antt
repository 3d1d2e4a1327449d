-- ===== src/Tests/Removals.antt =====
-- Witness for the runs of the controller of claims: a server that notes the volumes that it deletes.
use k8storagex.Base.{◌≡◌, refl, String, true, none, some, List, [], ◌∷◌, ok, string_eq, arith, All}
use k8storagex.Api.Core.{PersistentVolume, PersistentVolumeClaim, StorageClass, reclaim_delete}
use k8storagex.Cluster.{Client}
use k8storagex.Controllers.Volume.{finalizer}
use k8storagex.Controllers.Claim.Reconcile.{reconcile}
use k8storagex.Controllers.Claim.Permits.{Permits}
use k8storagex.Controllers.Claim.Safety.{reconcile_claim-Inv}
use k8storagex.Tests.{demo, demo_meta}
use k8storagex.Tests.Jobs.{persistent_volume}
use k8storagex.Tests.Provisioners.{lib, writable_pod, claim}
use k8storagex.Tests.Releases.{Written, serving, quiet}

abbrev deleted_claim : PersistentVolumeClaim
deleted_claim = record claim {
  meta = record (claim.meta) { finalizers = finalizer ∷ []; deletion_timestamp = some 7 };
}

abbrev deleting : Client Written PersistentVolume
deleting = record (serving persistent_volume) { delete = λ pv s. (none, pv ∷ s) }

abbrev class : StorageClass
class = record { meta = demo_meta; volume_binding_mode = none }

-- The volume is one that goes with its claim.
abbrev IsOwned : PersistentVolume → Type 0
IsOwned pv = pv.spec.reclaim_policy ≡ reclaim_delete

permits :
    Permits lib "default"
      (serving deleted_claim)
      deleting
      (serving class)
      (serving writable_pod)
      quiet
      (All IsOwned)
permits = record {
  get_claim = λ _ _ h. h;
  get_volume = λ _ _ h. h;
  get_class = λ _ _ h. h;
  pods_keep = record { get = λ _ _ h. h; create = λ _ _ h. h; delete = λ _ _ h. h };
  event_keeps = λ _ _ _ _ _ h. h;
  guards = λ _ _ _ _ h. h;
  creates = λ _ _ _ _ _ _ h. h;
  unprotects = λ _ _ _ _ _ h. h;
  deletes = λ _ _ _ _ _ _ _ owned _ h. (owned, h);
  frees = λ _ _ _ _ _ _ _ h. h;
}

reconcile_claim-Inv_example :
    All IsOwned
      (reconcile lib "default" []
        (serving deleted_claim)
        deleting
        (serving class)
        (serving writable_pod)
        quiet
        demo
        []).1
reconcile_claim-Inv_example =
    reconcile_claim-Inv lib "default" [] (serving deleted_claim) deleting (serving class)
      (serving writable_pod) quiet (All IsOwned) permits demo [] tt

-- The run of the witness deletes the volume.
deleted_test :
    (reconcile lib "default" []
      (serving deleted_claim)
      deleting
      (serving class)
      (serving writable_pod)
      quiet
      demo
      []).1
    ≡ persistent_volume ∷ []
unfolding reconcile k8storagex.Utils.Strings.has_string string_eq k8storagex.Base.nat_eq
    k8storagex.Utils.Jobs.delete_pod
deleted_test = refl
