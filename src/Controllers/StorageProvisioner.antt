-- ===== src/Controllers/StorageProvisioner.antt =====
-- internal/controllers/storageprovisioner_controller.go
pub mod Laws
use k8storagex.Base.{
  false, ℕ, String, Bool, Option, none, some, List, [], Result, ok, err, Error, is_not_found, ◌==◌,
  ◌||◌, string_eq, if◌then◌else◌,
}
use k8storagex.Api.Meta.{NamespacedName, ObjectMeta, Condition, condition_true, condition_false}
use k8storagex.Api.Provisioner.{StorageProvisioner, condition_configured}
use k8storagex.Cluster.{Client, error_of}
use k8storagex.Library.{Library}
use k8storagex.Utils.Conditions.{set_condition}
use k8storagex.Registry.{Registry, put, delete}

-- The watch's predicate: `r.Namespace == "" || o.GetNamespace() == r.Namespace`
unfoldable pub is_watched : String → ObjectMeta → Bool
is_watched namespace o = namespace == "" || o.namespace == namespace

-- The object that a `Get` leaves untouched when it fails.
abbrev pub blank_meta : ObjectMeta
blank_meta = record {
  name = "";
  namespace = "";
  uid = "";
  resource_version = "";
  generation = 0;
  deletion_timestamp = none;
  finalizers = [];
  annotations = none;
}

abbrev pub blank_provisioner : StorageProvisioner
blank_provisioner = record {
  meta = blank_meta;
  spec = record {
    name = "";
    deprovision_on_pod_completion = false;
    persistent_volume_template = record {
      capacity = none;
      volume_mode = none;
      storage_class_name = "";
      reclaim_policy = "";
      claim_ref = none;
      host_path = none;
      node_affinity = none;
    };
    pod_template = record { containers = []; volumes = []; restart_policy = ""; node_name = "" };
    containers = record {
      provisioner = record { command = none; env = [] };
      deprovisioner = record { command = none; env = [] };
    };
    env = [];
    nodes = [];
  };
  conditions = [];
}

-- The condition that the outcome of `Put` stands for.
unfoldable pub configured_condition : StorageProvisioner → Option Error → Condition
configured_condition config none = record {
  type = condition_configured;
  status = condition_true;
  observed_generation = config.meta.generation;
  last_transition_time = 0;
  reason = "Success";
  message = "provisioner configured";
}
configured_condition config (some e) = record {
  type = condition_configured;
  status = condition_false;
  observed_generation = config.meta.generation;
  last_transition_time = 0;
  reason = "InvalidProvisioner";
  message = e.message;
}

module _ {S : Type 0} (lib : Library) (client : Client S StorageProvisioner) (now : ℕ) where
  -- Both ends of `Reconcile`: set the condition, and write the status if that changed something.
  unfoldable pub report : StorageProvisioner → Option Error → S → Option Error × S
  unfolding configured_condition
  report config e s =
      let (conditions, changed) =
        set_condition now config.conditions (configured_condition config e) in
      let (written, s') = client.update_status (record config { conditions = conditions }) s in
      if changed then (error_of written, s') else (none, s)

  unfoldable pub reconcile : NamespacedName → Registry → S → Option Error × Registry × S
  unfolding report
  reconcile name r s =
      let (found, s') = client.get name s in
      elim found [
        | err e ↦ if is_not_found e then (none, delete r blank_provisioner, s') else (some e, r, s')
        | ok config ↦
            let (r', e) = put lib r config in
            let (failure, s'') = report config e s' in (failure, r', s'')
      ]
