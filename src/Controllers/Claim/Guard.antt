-- ===== src/Controllers/Claim/Guard.antt =====
-- internal/controllers/persistentvolumeclaim_controller.go: `shouldProvision`
use k8storagex.Base.{
  String, ◌<>◌, Bool, true, false, Option, none, some, ok, err, Error, is_not_found, Io, ◌==◌, ◌!=◌,
  string_eq, if◌then◌else◌,
}
use k8storagex.Api.Core.{PersistentVolumeClaim, StorageClass, wait_for_first_consumer}
use k8storagex.Api.Provisioner.{StorageProvisioner}
use k8storagex.Api.Meta.{ObjectMeta}
use k8storagex.Cluster.{Client}
use k8storagex.Utils.Annotations.{annotation}
use k8storagex.Utils.Jobs.{Recorder, event_warning}
use k8storagex.Controllers.Claim.{ann_selected_node, nil_dereference, persistent_volume_claim_class}

-- The claim asks for the mode of the provisioner's volumes.
unfoldable pub same_mode : String → PersistentVolumeClaim → Bool
same_mode mode claim = elim (claim.spec.volume_mode) [ none ↦ false | some m ↦ mode == m ]

-- The class does not wait for a first consumer, or the claim has its node.
unfoldable pub is_placed : StorageClass → PersistentVolumeClaim → Bool
is_placed class claim = elim (class.volume_binding_mode) [
  | none ↦ true
  | some mode ↦
      if mode == wait_for_first_consumer
      then annotation claim.meta ann_selected_node != ""
      else true
]

module _ {S : Type 0} (classes : Client S StorageClass) (event : Recorder S ObjectMeta) where
  -- The checks of the class that was found.
  unfoldable pub check_class :
      PersistentVolumeClaim → StorageProvisioner → StorageClass → S → (Bool × Option Error) × S
  unfolding same_mode is_placed
  check_class claim p class s = elim (p.spec.persistent_volume_template.volume_mode) [
    | none ↦ ((false, some nil_dereference), s)
    | some mode ↦ if same_mode mode claim then ((is_placed class claim, none), s) else (
      (false, none),
      event claim.meta event_warning "InvalidVolumeMode"
          ("Invalid volume mode "
            <> (elim (claim.spec.volume_mode) [ none ↦ "nil" | some m ↦ m ])
            <> ", expected "
            <> mode)
          s,
    )
  ]

  unfoldable pub should_provision :
      PersistentVolumeClaim → StorageProvisioner → Io S (Bool × Option Error)
  unfolding check_class persistent_volume_claim_class
  should_provision claim p s = elim (claim.spec.storage_class_name) [
    | none ↦ ((false, none), s)
    | some _ ↦
        let (found, s') =
          classes.get (record { name = persistent_volume_claim_class claim; namespace = "" }) s in
        if claim.spec.volume_name != "" then ((false, none), s) else elim found [
          | ok class ↦ check_class claim p class s'
          | err e ↦
              if is_not_found e
              then (
                (false, none),
                event claim.meta event_warning "StorageClassNotFound" e.message s',
              )
              else ((false, some e), s')
        ]
  ]
