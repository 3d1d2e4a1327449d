-- ===== src/Registry.antt =====
-- internal/controllers/storageprovisioner_registry.go. The mutex makes each operation atomic. A nil
-- pointer in the map, which marks a disabled name, is `none`.
pub mod Laws
use k8storagex.Base.{
  ℕ, suc, String, ◌<>◌, Bool, true, false, ◌||◌, not, Option, none, some, List, [], ◌∷◌, Error, ok,
  err, new_error, wrap, ◌==◌, ◌!=◌, string_eq, if◌then◌else◌,
}
use k8storagex.Base.Dict
use k8storagex.Base.Dict.{Dict}
use k8storagex.Api.Provisioner.{
  StorageProvisioner, StorageProvisionerSpec, NodePath, EnvVar, provisioner_name,
}
use k8storagex.Library.{Library}
use k8storagex.Utils.PodTemplate.{new_provisioner_pod}
use k8storagex.Utils.Provisioner.{ProvisionerParams, substitute_placeholders}

abbrev pub Registry : Type 0
Registry = Dict (Option StorageProvisioner)

abbrev test_params : ProvisionerParams
test_params = record {
  node_name = "test-node";
  node_path = "/test-node-path";
  persistent_volume_name = "test-pv";
  persistent_volume_claim = record { name = "test-pvc"; namespace = "test-pvc-ns" };
}

-- The map already holds the name, disabled or for another resource.
unfoldable pub is_taken : Registry → StorageProvisioner → Bool
is_taken r p = elim (Dict.lookup (provisioner_name p) r) [
  | none ↦ false
  | some none ↦ true
  | some (some existing) ↦
      p.meta.name != existing.meta.name || p.meta.namespace != existing.meta.namespace
]

-- The names that are not disabled.
unfoldable pub enabled_keys : Registry → List String
enabled_keys [] = []
enabled_keys ((k, none) ∷ r) = enabled_keys r
enabled_keys ((k, some p) ∷ r) = k ∷ enabled_keys r

module _ (lib : Library) where
  unfoldable pub validate_env : ℕ → List EnvVar → Option Error
  validate_env i [] = none
  validate_env i (env ∷ rest) =
      let more = validate_env (suc i) rest in
      if env.name == ""
      then some (new_error ("spec.env[" <> lib.show i <> "].name is empty"))
      else if env.annotation == ""
      then some (new_error ("spec.env[" <> lib.show i <> "].annotation is empty"))
      else more

  -- The checks of one element of `spec.nodes`.
  unfoldable pub validate_node : ℕ → NodePath → Option Error
  validate_node i node =
      if node.name == ""
      then some (new_error ("spec.nodes[" <> lib.show i <> "].name is empty"))
      else elim (lib.match node.name "test-node") [
        | err e ↦ some (
            new_error
              ("spec.nodes[" <> lib.show i <> "].name is an invalid matcher: " <> e.message))
        | ok _ ↦
            let path = lib.clean node.path in
            if lib.dir path == path || not (lib.is_abs path)
            then some (
                new_error (
                  "spec.nodes["
                  <> lib.show i
                  <> "].path must be an absolute sub directory but is "
                  <> path))
            else none
      ]

  unfoldable pub validate_nodes : ℕ → List NodePath → Option Error
  validate_nodes i [] = none
  validate_nodes i (node ∷ rest) = elim (validate_node i node) [
    | some e ↦ some e
    | none ↦ validate_nodes (suc i) rest
  ]

  -- The checks behind `NewProvisionerPod`.
  unfoldable pub validate_spec : StorageProvisionerSpec → Option Error
  unfolding validate_env validate_nodes validate_node
  validate_spec spec = elim (spec.persistent_volume_template.volume_mode) [
    | none ↦ some (new_error "spec.persistentVolumeTemplate.VolumeMode is empty")
    | some _ ↦ elim (validate_env 0 spec.env) [
      | some e ↦ some e
      | none ↦ elim (spec.nodes) [
        | [] ↦ some (new_error "spec.nodes is empty")
        | node ∷ nodes ↦ validate_nodes 0 (node ∷ nodes)
      ]
    ]
  ]

  -- The substitution changes a copy; its error is dropped.
  unfoldable pub validate_provisioner : StorageProvisioner → Option Error
  unfolding validate_spec
  validate_provisioner p =
      let copy = (substitute_placeholders lib p test_params).0 in
      let (pod, copy') =
        new_provisioner_pod lib.sort_strings
          (record { name = "test-pod"; namespace = "test-namespace" }) copy
          copy.spec.containers.provisioner [] in
      elim pod [ err e ↦ some e | ok _ ↦ validate_spec copy'.spec ]

  unfoldable pub put : Registry → StorageProvisioner → Registry × Option Error
  put r p = elim (validate_provisioner p) [
    | some e ↦ (r, wrap ("validate StorageProvisioner " <> p.meta.name) (some e))
    | none ↦
        if is_taken r p
        then (
          Dict.insert (provisioner_name p) none r,
          some (
              new_error
                ("duplicate provisioner " <> provisioner_name p <> " - key is disabled now")),
        )
        else (Dict.insert (provisioner_name p) (some p) r, none)
  ]

  unfoldable pub keys : Registry → List String
  unfolding enabled_keys
  keys r = lib.sort_strings (enabled_keys r)

  -- `LoadProvisioners`, over the list that the cluster returns: an invalid one is logged and left out.
  unfoldable pub load_provisioners : Registry → List StorageProvisioner → Registry
  load_provisioners r [] = r
  load_provisioners r (p ∷ ps) = load_provisioners (put r p).0 ps

unfoldable pub get : Registry → String → Option StorageProvisioner
get r name = elim (Dict.lookup name r) [ none ↦ none | some p ↦ p ]

unfoldable pub delete : Registry → StorageProvisioner → Registry
delete r p = Dict.erase (provisioner_name p) r
