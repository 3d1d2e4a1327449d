-- ===== src/Tests/Claims.antt =====
-- Witnesses for the controller of claims.
use k8storagex.Base.{◌≡◌, refl, ◌↔◌, true, none, some, [], string_eq}
use k8storagex.Api.Core.{Pod}
use k8storagex.Cluster.{Client}
use k8storagex.Utils.Jobs.{JobRequest}
use k8storagex.Utils.Jobs.Laws.{WasRead, announced, IsCompleted}
use k8storagex.Controllers.Claim.{claim_owner_keys, provisioner_pod_name}
use k8storagex.Controllers.Claim.Guard.{should_provision}
use k8storagex.Controllers.Claim.Provision.{provision_request, run_provisioner}
use k8storagex.Controllers.Claim.Laws.{
  IsDue, class_of, WasCreated, run_provisioner_done, should_provision-eq-true,
}
use k8storagex.Tests.{demo_meta}
use k8storagex.Tests.Provisioners.{lib, holding, provisioner, writable_pod, claim}
use k8storagex.Tests.Jobs.{silent}

abbrev world : Client Unit Pod
world = holding (some writable_pod)

abbrev request : JobRequest Unit
request =
    provision_request lib "manager" (holding none) world silent claim (provisioner "a" "local") []
      true

run_provisioner_done_example :
    (pod : Pod) × (u : Unit) × WasRead world (provisioner_pod_name lib "manager" claim) pod u
    × WasCreated lib "manager"
        (holding none)
        world
        silent
        claim
        pod
        (announced world silent claim_owner_keys request u)
    × IsCompleted world silent claim_owner_keys request pod u
        (run_provisioner lib "manager"
          (holding none)
          world
          silent
          claim
          (provisioner "a" "local")
          []
          true
          tt).1
unfolding run_provisioner k8storagex.Utils.Jobs.reconcile_job string_eq
    k8storagex.Utils.Provisioner.storage_provisioner_from_json
run_provisioner_done_example =
    run_provisioner_done lib "manager" (holding none) world silent claim (provisioner "a" "local")
      [] tt refl

should_provision-eq-true_example :
    ((should_provision
        (holding (some (record { meta = demo_meta; volume_binding_mode = none })))
        silent
        claim
        (provisioner "a" "local")
        (tt {0})).0
      ≡ (true, none))
    ↔ IsDue claim (provisioner "a" "local") (
        class_of
          (holding (some (record { meta = demo_meta; volume_binding_mode = none })))
          silent
          claim
          (tt {0}))
should_provision-eq-true_example =
    should_provision-eq-true
      (holding (some (record { meta = demo_meta; volume_binding_mode = none }))) silent claim
      (provisioner "a" "local") tt
