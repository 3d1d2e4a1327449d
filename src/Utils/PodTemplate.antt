-- ===== src/Utils/PodTemplate.antt =====
-- internal/utils/podtemplate.go: the pod of a provisioner, and unique env vars.
pub mod Env
pub mod Volumes
use k8storagex.Base.{
  false, not, true, String, ◌<>◌, Bool, ◌||◌, Option, none, some, List, [], ◌∷◌, ◌++◌, map, Error,
  new_error, Result, ok, err, ◌==◌, ◌!=◌, string_eq, if◌then◌else◌,
}
use k8storagex.Base.Dict
use k8storagex.Base.Dict.{Dict}
use k8storagex.Api.Meta.{ObjectMeta, NamespacedName}
use k8storagex.Api.Core.{EnvVar, Container, Pod, PodSpec}
use k8storagex.Api.Provisioner.{StorageProvisioner, ProvisionerContainer}

-- The pointer to the first container of the name.
unfoldable pub find_container : List Container → String → Option Container
find_container [] name = none
find_container (c ∷ cs) name = if c.name == name then some c else find_container cs name

-- A write through that pointer.
unfoldable pub write_container : List Container → String → (Container → Container) → List Container
write_container [] name f = []
write_container (c ∷ cs) name f = if c.name == name then f c ∷ cs else c ∷ write_container cs name f

-- The first loop of `uniqueEnv`: the map from names to their last variables.
unfoldable pub env_map : Dict EnvVar → List EnvVar → Dict EnvVar
env_map m [] = m
env_map m (v ∷ env) = env_map (Dict.insert v.name v m) env

unfoldable pub env_names : Dict EnvVar → List String
env_names [] = []
env_names ((k, _) ∷ m) = k ∷ env_names m

abbrev pub no_env_var : EnvVar
no_env_var = record { name = ""; value = "" }

-- `m[name]`
unfoldable pub env_at : Dict EnvVar → String → EnvVar
env_at m name = elim (Dict.lookup name m) [ none ↦ no_env_var | some v ↦ v ]

-- `sort.Strings` is a parameter.
module _ (sort_strings : List String → List String) where
  unfoldable pub unique_env : List EnvVar → List EnvVar
  unfolding env_at env_map env_names
  unique_env env = let m = env_map [] env in map (env_at m) (sort_strings (env_names m))

  abbrev pub main_container : String
  main_container = "main"

  -- The writes to the main container: its env, and its command if the container sets one.
  unfoldable pub configured : ProvisionerContainer → List EnvVar → Container → Container
  unfolding unique_env
  configured container env c = record c {
    env = unique_env (c.env ++ (container.env ++ env));
    command = elim (container.command) [ none ↦ c.command | some command ↦ command ];
  }

  abbrev is_empty {ℓ} : {A : Type ℓ} → List A → Bool
  is_empty [] = true
  is_empty (x ∷ xs) = false

  -- The checks at the end of `NewProvisionerPod`.
  unfoldable pub check_container : String → Container → Option Error
  check_container provisioner c =
      if c.image == ""
      then some (
          new_error (
            "provisioner " <> provisioner
            <> " pod template does not specify an image for the main container"))
      else if is_empty c.command
      then some (
          new_error (
            "provisioner " <> provisioner
            <> " pod template does not specify a command for the main container"))
      else if not (is_empty c.args)
      then some (
          new_error (
            "provisioner " <> provisioner <> " pod template specifies args for the main container"))
      else none

  abbrev pub pod_of : NamespacedName → PodSpec → Pod
  pod_of name spec = record {
    meta = record {
      name = name.name;
      namespace = name.namespace;
      uid = "";
      resource_version = "";
      generation = 0;
      deletion_timestamp = none;
      finalizers = [];
      annotations = some [];
    };
    spec = spec;
    phase = "";
  }

  -- The pod's spec shares its containers with the provisioner's template, so that the writes to the main
  -- container change the provisioner that is passed as well: it comes back beside the result.
  unfoldable pub new_provisioner_pod :
      NamespacedName
      → StorageProvisioner
      → ProvisionerContainer
      → List EnvVar
      → Result Pod × StorageProvisioner
  unfolding configured check_container
  new_provisioner_pod name p container env =
      let template = p.spec.pod_template in
      elim (find_container template.containers main_container) [
        | none ↦ (
          err (
              new_error
                ("provisioner " <> p.meta.name <> " pod template does not specify container main")),
          p,
        )
        | some c ↦
            let spec : PodSpec = record template {
              containers =
                  write_container template.containers main_container (configured container env);
            } in
            let p' : StorageProvisioner = record p {
              spec = record (p.spec) { pod_template = spec };
            } in
            elim (check_container p.meta.name (configured container env c)) [
              | some e ↦ (err e, p')
              | none ↦ (ok (pod_of name spec), p')
            ]
      ]
