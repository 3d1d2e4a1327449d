-- ===== src/Library.antt =====
-- What the program calls of Go's standard library and of third-party packages, as parameters.
use k8storagex.Base.{ℕ, String, Bool, Option, List, Result, Error}
use k8storagex.Base.Dict.{Dict}
use k8storagex.Api.Core.{ObjectReference}
use k8storagex.Api.Provisioner.{StorageProvisioner}
use k8storagex.Template.{Fields}

pub record Library : Type 0 where
  -- `sort.Strings`
  pub sort_strings : List String → List String
  -- `filepath.Match(pattern, name)`, `Clean`, `Dir`, `Base`, `IsAbs`
  pub match : String → String → Result Bool
  pub clean : String → String
  pub dir : String → String
  pub base : String → String
  pub is_abs : String → Bool
  -- SHA-256 in hex
  pub digest : String → String
  -- `envsubst/parse`, over the given values
  pub parse : Dict String → String → Result String
  -- `%d`
  pub show : ℕ → String
  -- `runtime.DefaultUnstructuredConverter`; what `FromUnstructured` has written stays written
  pub to_unstructured : StorageProvisioner → Result Fields
  pub from_unstructured : Fields → StorageProvisioner → StorageProvisioner × Option Error
  -- `json.Marshal`, `json.Unmarshal`
  pub to_json : StorageProvisioner → Result String
  pub from_json : String → Result StorageProvisioner
  -- The same of a reference to a claim
  pub reference_to_json : ObjectReference → Result String
  pub reference_from_json : String → Result ObjectReference
