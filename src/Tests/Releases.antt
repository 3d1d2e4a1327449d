-- ===== src/Tests/Releases.antt =====
-- Witness for the release of volumes: a server that notes the volumes whose status was written.
use k8storagex.Base.{
  All, not_found, ◌≡◌, refl, String, true, none, some, List, [], ◌∷◌, ok, err, string_eq, arith,
}
use k8storagex.Api.Core.{PersistentVolume}
use k8storagex.Cluster.{Client}
use k8storagex.Controllers.Volume.{finalizer}
use k8storagex.Controllers.Volume.Laws.{IsFree}
use k8storagex.Controllers.Volume.Reconcile.{reconcile}
use k8storagex.Controllers.Volume.Permits.{Permits, released}
use k8storagex.Controllers.Volume.Release.{reconcile_volume-Inv}
use k8storagex.Tests.{demo}
use k8storagex.Tests.Jobs.{persistent_volume}
use k8storagex.Tests.Provisioners.{lib, writable_pod, claim}

-- The volumes whose status was written, the last one first.
abbrev pub Written : Type 0
Written = List PersistentVolume

abbrev deleted_volume : PersistentVolume
deleted_volume = record persistent_volume {
  meta = record (persistent_volume.meta) {
    finalizers = finalizer ∷ [];
    deletion_timestamp = some 7;
  };
}

-- The server has the one object, notes nothing, and answers a deletion with "not found".
abbrev pub serving : {A : Type 0} → A → Client Written A
serving a = record {
  get = λ _ s. (ok a, s);
  create = λ x s. (ok x, s);
  update = λ x s. (ok x, s);
  update_status = λ x s. (ok x, s);
  delete = λ _ s. (some (record { reason = not_found; message = "" }), s);
}

abbrev noting : Client Written PersistentVolume
noting = record (serving deleted_volume) { update_status = λ pv s. (ok pv, pv ∷ s) }

abbrev pub quiet : {A : Type 0} → A → String → String → String → Written → Written
quiet _ _ _ _ s = s

permits :
    Permits lib "default" noting (serving claim) (serving writable_pod) quiet quiet (All IsFree)
permits = record {
  get_volume = λ _ _ h. h;
  update_volume = λ _ _ _ _ _ h. h;
  get_claim = λ _ _ h. h;
  pods_keep = record { get = λ _ _ h. h; create = λ _ _ h. h; delete = λ _ _ h. h };
  event_keeps = λ _ _ _ _ _ h. h;
  event_of_claim_keeps = λ _ _ _ _ _ h. h;
  releases = λ pv _ _ free _ _ _ h. (free, h);
}

reconcile_volume-Inv_example :
    All IsFree
      (reconcile lib "default" [] noting
        (serving claim)
        (serving writable_pod)
        quiet
        quiet
        demo
        []).1
reconcile_volume-Inv_example =
    reconcile_volume-Inv lib "default" [] noting (serving claim) (serving writable_pod) quiet quiet
      (All IsFree) permits demo [] tt

-- The run of the witness releases the volume.
released_test :
    (reconcile lib "default" [] noting (serving claim) (serving writable_pod) quiet quiet demo []).1
    ≡ released deleted_volume ∷ []
unfolding reconcile k8storagex.Utils.Strings.has_string string_eq
    k8storagex.Utils.Annotations.annotation k8storagex.Base.Dict.value_at
    k8storagex.Base.Dict.lookup k8storagex.Utils.Provisioner.storage_provisioner_from_json
    k8storagex.Utils.Jobs.reconcile_job
released_test = refl
