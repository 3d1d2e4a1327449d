-- ===== src/Controllers/StorageProvisioner/Laws.antt =====
-- What a run of the reconciler does to the registry.
use k8storagex.Base.{
  Result-cases, Bool-cases, inl, inr, ℕ, ◌≡◌, ◌≢◌, String, true, err, Error, is_not_found, arith,
  string_eq,
}
use k8storagex.Base.Dict
use k8storagex.Api.Meta.{NamespacedName}
use k8storagex.Api.Provisioner.{StorageProvisioner, provisioner_name}
use k8storagex.Cluster.{Client}
use k8storagex.Library.{Library}
use k8storagex.Registry.{Registry, get, delete}
use k8storagex.Registry.Laws.{IsSound, put-IsSound, delete-IsSound}
use k8storagex.Controllers.StorageProvisioner.{reconcile, blank_provisioner}

module _ {S : Type 0} (lib : Library) (client : Client S StorageProvisioner) (now : ℕ)
    (name : NamespacedName) (r : Registry) (s : S) where
  -- A StorageProvisioner that is gone from the cluster stays in the registry: every name but the empty
  -- one is served as before.
  pub get-reconcile_deleted :
      (e : Error) (s' : S) (key : String)
      → client.get name s ≡ (err e, s')
      → is_not_found e ≡ true
      → key ≢ ""
      → get (reconcile lib client now name r s).1 key ≡ get r key
  unfolding reconcile delete get provisioner_name
  get-reconcile_deleted e s' key gone missing named =
      ground (arith, gone, missing, named, Dict.lookup-erase "" key r)

  -- Whatever the cluster answers, a run keeps the registry sound: what can be got is valid and stands
  -- under its own name.
  pub reconcile-IsSound : IsSound lib r → IsSound lib (reconcile lib client now name r s).1
  unfolding reconcile
  reconcile-IsSound sound = elim (Result-cases (client.get name s).0) [
    | inl (c, e) ↦ rw (e, reconcile) (put-IsSound lib r c sound)
    | inr (x, e) ↦ elim (Bool-cases (is_not_found x)) [
      | inl missing ↦ rw (e, reconcile) (rw missing (delete-IsSound lib r blank_provisioner sound))
      | inr other ↦ rw (e, reconcile) (rw other sound)
    ]
  ]
