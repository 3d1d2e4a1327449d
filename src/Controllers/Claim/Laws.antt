-- ===== src/Controllers/Claim/Laws.antt =====
-- When a claim gets a volume, and when it is let go.
use k8storagex.Base.{
  ℕ, ◌≡◌, refl, ◌≢◌, ◌↔◌, String, true, none, some, List, Result, ok, arith, Result-cases,
  Option-cases, inl, inr, string_eq,
}
use k8storagex.Api.Core
use k8storagex.Api.Core.{
  Pod, PersistentVolume, PersistentVolumeClaim, StorageClass, wait_for_first_consumer,
}
use k8storagex.Api.Provisioner.{StorageProvisioner}
use k8storagex.Api.Meta.{ObjectMeta}
use k8storagex.Base.Dict
use k8storagex.Base.Dict.{value_at}
use k8storagex.Cluster.{Client}
use k8storagex.Library.{Library}
use k8storagex.Registry.{Registry}
use k8storagex.Utils.Annotations.{annotation, copy_annotations}
use k8storagex.Utils.Strings.{has_string}
use k8storagex.Utils.Jobs.{Recorder, reconcile_job}
use k8storagex.Utils.Jobs.Laws.{WasRead, announced, IsCompleted, reconcile_job_done}
use k8storagex.Utils.Provisioner.{storage_provisioner_from_json}
use k8storagex.Controllers.Volume.{ann_storage_provisioner_spec, is_watched, resolve_provisioner}
use k8storagex.Controllers.Claim.{
  claim_owner_keys, ann_selected_node, persistent_volume_claim_class, persistent_volume_for_claim,
  provisioner_pod_name,
}
use k8storagex.Controllers.Claim.Provision.{create_volume, provision_request, run_provisioner}
use k8storagex.Controllers.Claim.Guard.{same_mode, is_placed, check_class, should_provision}

module _ {S : Type 0} (lib : Library) (manager_namespace : String)
    (volumes : Client S PersistentVolume) (pods : Client S Pod)
    (event : Recorder S ObjectMeta) where
  -- The volume of a claim is in the cluster: its creation from the pod was accepted.
  abbrev pub WasCreated : PersistentVolumeClaim → Pod → S → Type 0
  WasCreated claim pod s =
      let json = annotation pod.meta ann_storage_provisioner_spec in
      (p : StorageProvisioner) × (stored : PersistentVolume) × (storage_provisioner_from_json lib
          json
        ≡ ok p)
      × ((volumes.create
            (record (persistent_volume_for_claim claim p json) {
              meta =
                  copy_annotations pod.meta (persistent_volume_for_claim claim p json).meta
                    p.spec.env;
            })
            s).0
          ≡ ok stored)

  create_volume_done :
      (claim : PersistentVolumeClaim) (pod : Pod) (s : S)
      → (create_volume lib manager_namespace volumes pods event claim pod s).0 ≡ (true, none)
      → WasCreated claim pod s
  unfolding create_volume
  create_volume_done claim pod s h =
      let json = annotation pod.meta ann_storage_provisioner_spec in
      elim (Result-cases (storage_provisioner_from_json lib json)) [
        | inr (x, e) ↦ ground (arith, e, h)
        | inl (p, e) ↦
            let pv : PersistentVolume = record (persistent_volume_for_claim claim p json) {
              meta =
                  copy_annotations pod.meta (persistent_volume_for_claim claim p json).meta
                    p.spec.env;
            } in
            elim (Result-cases (volumes.create pv s).0) [
              | inr (x, f) ↦ ground (arith, e, f, h)
              | inl (stored, f) ↦ (p, stored, e, f)
            ]
      ]

  -- The provisioner's job, if it is to run, is done without an error only if its pod was read in phase
  -- `Succeeded`, then the volume was created from the pod, and then, as the last call, the deletion of the
  -- pod found it gone.
  pub run_provisioner_done :
      (claim : PersistentVolumeClaim) (p : StorageProvisioner) (env : List Core.EnvVar) (s : S)
      → (run_provisioner lib manager_namespace volumes pods event claim p env true s).0
        ≡ (true, none)
      → let req = provision_request lib manager_namespace volumes pods event claim p env true in
        (pod : Pod) × (u : S) × WasRead pods
          (provisioner_pod_name lib manager_namespace claim)
          pod
          u
        × WasCreated claim pod (announced pods event claim_owner_keys req u)
        × IsCompleted pods event claim_owner_keys req pod u
            (run_provisioner lib manager_namespace volumes pods event claim p env true s).1
  unfolding run_provisioner
  run_provisioner_done claim p env s h =
      let req = provision_request lib manager_namespace volumes pods event claim p env true in
      elim (Option-cases (reconcile_job pods event claim_owner_keys req s).0.1) [
        | inr (x, e) ↦ ground (arith, e, h)
        | inl e ↦
            let (pod, u, read, (completed, gone, ends)) =
              reconcile_job_done pods event claim_owner_keys req s refl (ground (arith, e, h)) in
            (
              pod,
              u,
              read,
              create_volume_done claim pod (announced pods event claim_owner_keys req u) completed,
              (completed, gone, ground (arith, e, ends)),
            )
      ]

-- What a claim and its class are checked for.
pub record IsDue (claim : PersistentVolumeClaim) (p : StorageProvisioner)
    (found : Result StorageClass) : Type 0 where
  pub unbound : claim.spec.volume_name ≡ ""
  pub mode : String
  pub asked : claim.spec.volume_mode ≡ some mode
  pub offered : p.spec.persistent_volume_template.volume_mode ≡ some mode
  pub classed : claim.spec.storage_class_name ≢ none
  pub class : StorageClass
  pub there : found ≡ ok class
  pub placed :
      class.volume_binding_mode ≡ some wait_for_first_consumer
      → annotation claim.meta ann_selected_node ≢ ""

-- The volume that a claim gets is one that the volumes' controller takes care of when it is deleted,
-- whatever provisioners are registered, and it carries the provisioner's text.
is_watched-persistent_volume_for_claim :
    (r : Registry) (claim : PersistentVolumeClaim) (p : StorageProvisioner) (json : String) (t : ℕ)
    → let pv = persistent_volume_for_claim claim p json in
      (is_watched r (record (pv.meta) { deletion_timestamp = some t }) ≡ true)
      × (annotation pv.meta ann_storage_provisioner_spec ≡ json)
unfolding is_watched persistent_volume_for_claim has_string annotation string_eq value_at
    Dict.lookup
is_watched-persistent_volume_for_claim r claim p json t =
    let pv = persistent_volume_for_claim claim p json in
    let meta : ObjectMeta = record (pv.meta) { deletion_timestamp = some t } in
    (
      elim (Option-cases (resolve_provisioner meta r)) [
        | inl e ↦ ground (arith, e)
        | inr (q, e) ↦ ground (arith, e)
      ],
      refl,
    )

module _ {S : Type 0} (classes : Client S StorageClass) (event : Recorder S ObjectMeta) where
  -- The class that the claim names, as the cluster has it.
  abbrev pub class_of : PersistentVolumeClaim → S → Result StorageClass
  class_of claim s =
      (classes.get (record { name = persistent_volume_claim_class claim; namespace = "" }) s).0

  -- `shouldProvision` answers true without an error exactly if the claim has no volume and names a class, the
  -- class exists, the claim asks for the mode that the provisioner offers, and, if the class waits for a
  -- first consumer, the claim has its node.
  pub should_provision-eq-true :
      (claim : PersistentVolumeClaim) (p : StorageProvisioner) (s : S)
      → ((should_provision classes event claim p s).0 ≡ (true, none))
        ↔ IsDue claim p (class_of claim s)
  unfolding should_provision check_class same_mode is_placed
  should_provision-eq-true claim p s = (
    λ h. elim (Option-cases claim.spec.storage_class_name) [
      | inl a ↦ ground (arith, a, h)
      | inr (name, a) ↦ elim (Option-cases p.spec.persistent_volume_template.volume_mode) [
        | inl b ↦ ground (arith, a, b, h)
        | inr (mode, b) ↦ elim (Option-cases claim.spec.volume_mode) [
          | inl c ↦ ground (arith, a, b, c, h)
          | inr (asked, c) ↦ elim (Result-cases (class_of claim s)) [
            | inr (x, d) ↦ ground (arith, a, b, c, d, h)
            | inl (class, d) ↦ record {
              unbound = ground (arith, a, b, c, d, h);
              mode = mode;
              asked = ground (arith, a, b, c, d, h);
              offered = b;
              classed = λ none_named. ground (arith, a, none_named);
              class = class;
              there = d;
              placed = λ waits nowhere. ground (arith, a, b, c, d, h, waits, nowhere);
            }
          ]
        ]
      ]
    ],
    λ d. elim (Option-cases claim.spec.storage_class_name) [
      | inl a ↦ ground (arith, a, d.classed)
      | inr (name, a) ↦ elim (Option-cases d.class.volume_binding_mode) [
        | inl b ↦ ground (arith, a, b, d.unbound, d.asked, d.offered, d.there)
        | inr (binding, b) ↦ ground (arith, a, b, d.unbound, d.asked, d.offered, d.there, d.placed)
      ]
    ],
  )
