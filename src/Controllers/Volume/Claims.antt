-- ===== src/Controllers/Volume/Claims.antt =====
-- internal/controllers/persistentvolume_controller.go: `canDeprovision`, which waits for a volume's claim to
-- go and removes the reference to it.
use k8storagex.Base.{
  String, Bool, true, false, Option, none, some, ok, err, Error, wrap, is_not_found, is_conflict,
  Io, ◌==◌, string_eq, if◌then◌else◌,
}
use k8storagex.Api.Meta.{NamespacedName, ObjectMeta}
use k8storagex.Api.Core.{PersistentVolume, PersistentVolumeClaim, ObjectReference, volume_bound}
use k8storagex.Cluster.{Client}
use k8storagex.Library.{Library}
use k8storagex.Registry.{Registry}
use k8storagex.Controllers.Volume.{resolve_provisioner, set_claim_ref_annotation}

abbrev pub claim_name_of : ObjectReference → NamespacedName
claim_name_of claim = record { name = claim.name; namespace = claim.namespace }

abbrev pub name_of : ObjectMeta → NamespacedName
name_of meta = record { name = meta.name; namespace = meta.namespace }

-- What a round of the loop in `canDeprovision` ends with: a result, a `break` with `err`, or a `continue`
-- with `err` and the volume as it was read again.
pub data Round : Type 0 where
  answer : Bool → PersistentVolume → Round
  stop : Option Error → PersistentVolume → Round
  again : Error → PersistentVolume → Round

abbrev pub remove_claim_ref_text : String
remove_claim_ref_text = "remove claimRef from persistentvolume"

-- The end of the second round.
unfoldable pub last_round : Round → (Bool × Option Error) × PersistentVolume
last_round (answer b pv) = ((b, none), pv)
last_round (stop e pv) = ((false, wrap remove_claim_ref_text e), pv)
last_round (again e pv) = ((false, wrap remove_claim_ref_text (some e)), pv)

module _ {S : Type 0} (lib : Library) (volumes : Client S PersistentVolume)
    (claims : Client S PersistentVolumeClaim) (provisioners : Registry) where
  -- The removal of the reference to a claim that is gone.
  unfoldable pub remove_claim_ref : PersistentVolume → ObjectReference → Io S Round
  unfolding set_claim_ref_annotation
  remove_claim_ref pv claim s =
      let marked = set_claim_ref_annotation lib pv claim in
      let bare : PersistentVolume = record marked {
        spec = record (marked.spec) { claim_ref = none };
      } in
      let (updated, s') = volumes.update bare s in
      elim updated [
        | ok stored ↦ (answer false stored, s')
        | err e ↦
            let (found, s'') = volumes.get (name_of bare.meta) s' in
            if is_conflict e
            then (elim found [ err x ↦ stop (some x) bare | ok current ↦ again e current ], s'')
            else (stop (some e) bare, s')
      ]

  -- The second test for a missing reference, after the first one, never holds and is left out.
  unfoldable pub deprovision_round : PersistentVolume → Io S Round
  unfolding remove_claim_ref resolve_provisioner
  deprovision_round pv s =
      if pv.phase == volume_bound then (answer false pv, s) else elim (pv.spec.claim_ref) [
        | none ↦ (answer true pv, s)
        | some claim ↦
            let (found, s') = claims.get (claim_name_of claim) s in
            elim found [
              | ok _ ↦ (stop none pv, s')
              | err e ↦
                  if is_not_found e
                  then elim (resolve_provisioner pv.meta provisioners) [
                    | none ↦ (answer false pv, s')
                    | some _ ↦ remove_claim_ref pv claim s'
                  ]
                  else (stop (some e) pv, s')
            ]
      ]

  -- `canDeprovision`, with the volume as the call leaves it.
  unfoldable pub can_deprovision :
      PersistentVolume → Io S ((Bool × Option Error) × PersistentVolume)
  unfolding deprovision_round last_round
  can_deprovision pv s =
      let (r, s') = deprovision_round pv s in
      elim r [
        | answer b pv' ↦ (((b, none), pv'), s')
        | stop e pv' ↦ (((false, wrap remove_claim_ref_text e), pv'), s')
        | again _ pv' ↦ let (r', s'') = deprovision_round pv' s' in (last_round r', s'')
      ]
