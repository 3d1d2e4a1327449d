-- ===== src/Utils/Provisioner.antt =====
-- internal/utils/template.go, provisioner.go, nodepath.go, and `SubstituteProvisionerPlaceholders` of
-- podtemplate.go.
use k8storagex.Base.{
  ℕ, suc, String, ◌<>◌, true, false, Option, none, some, List, [], ◌∷◌, Error, Result, ok, err,
  new_error, wrap,
}
use k8storagex.Base.Dict.{Dict}
use k8storagex.Api.Meta.{NamespacedName}
use k8storagex.Api.Provisioner.{StorageProvisioner, NodePath}
use k8storagex.Template.{substitute_map}
use k8storagex.Library.{Library}

pub record ProvisionerParams : Type 0 where
  pub node_name : String
  pub node_path : String
  pub persistent_volume_name : String
  pub persistent_volume_claim : NamespacedName

abbrev pub substitution_values : ProvisionerParams → Dict String
substitution_values p =
    ("STORAGE_NODE_NAME", p.node_name)
    ∷ ("STORAGE_NODE_PATH", p.node_path)
    ∷ ("STORAGE_PV_NAME", p.persistent_volume_name)
    ∷ ("STORAGE_PVC_NAME", p.persistent_volume_claim.name)
    ∷ ("STORAGE_PVC_NAMESPACE", p.persistent_volume_claim.namespace)
    ∷ []

abbrev error_at : String → Error → Error
error_at m e = record e { message = m <> ": " <> e.message }

module _ (lib : Library) where
  -- `Substitute`. The object is changed in place, and comes back beside the error.
  unfoldable pub substitute_object :
      Dict String → StorageProvisioner → StorageProvisioner × Option Error
  substitute_object values o = elim (lib.to_unstructured o) [
    | err e ↦ (o, some (error_at "convert to unstructured" e))
    | ok u ↦ elim (substitute_map (lib.parse values) lib.show u "") [
      | err e ↦ (o, some (error_at "substitute" e))
      | ok u' ↦
          let (o', failure) = lib.from_unstructured u' o in
          (o', wrap "convert unstructured" failure)
    ]
  ]

  unfoldable pub substitute_placeholders :
      StorageProvisioner → ProvisionerParams → StorageProvisioner × Option Error
  unfolding substitute_object
  substitute_placeholders tpl p =
      let (tpl', e) = substitute_object (substitution_values p) tpl in
      (tpl', wrap ("invalid provisioner template " <> tpl'.meta.name) e)

  -- `StorageProvisionerFromJSON` and `StorageProvisionerToJSON`
  unfoldable pub storage_provisioner_from_json : String → Result StorageProvisioner
  storage_provisioner_from_json text = elim (lib.from_json text) [
    | ok p ↦ ok p
    | err e ↦ err (error_at "unmarshal provisioner spec" e)
  ]

  unfoldable pub storage_provisioner_to_json : StorageProvisioner → Result String
  storage_provisioner_to_json p =
      let bare : StorageProvisioner = record {
        meta = record {
          name = p.meta.name;
          namespace = p.meta.namespace;
          uid = p.meta.uid;
          resource_version = "";
          generation = p.meta.generation;
          deletion_timestamp = none;
          finalizers = [];
          annotations = none;
        };
        spec = p.spec;
        conditions = [];
      } in
      elim (lib.to_json bare) [
        | ok text ↦ ok text
        | err e ↦ err (error_at "marshal provisioner spec" e)
      ]

  -- The loop of `StorageRootPathForNode`, from index `i` on.
  unfoldable pub root_path_from : ℕ → String → List NodePath → Result String
  root_path_from i node [] = err (new_error ("no storage root path mapped for node " <> node))
  root_path_from i node (m ∷ mapping) = elim (lib.match m.name node) [
    | err e ↦
        err (
          new_error
            ("invalid node name matcher specified in spec.nodes[" <> lib.show i <> "].name"))
    | ok true ↦ ok m.path
    | ok false ↦ root_path_from (suc i) node mapping
  ]

  unfoldable pub storage_root_path_for_node : String → List NodePath → Result String
  unfolding root_path_from
  storage_root_path_for_node = root_path_from 0
