-- ===== src/Tests/Helpers.antt =====
-- Witnesses for the helpers.
use k8storagex.Base.{
  ◌≡◌, ◌↔◌, ◌≤◌, arith, len, String, none, some, List, [], ◌∷◌, Result, ok, string_eq,
}
use k8storagex.Api.Meta.{Condition}
use k8storagex.Api.Provisioner
use k8storagex.Utils.Strings.{resource_name, len-resource_name}
use k8storagex.Utils.Annotations.{annotations_to_env, HasRequired, annotations_to_env-ok}
use k8storagex.Template.{Value, text, object, scalar, field, end, substitute}
use k8storagex.Template.Laws.{IsParseable, replaced, substitute_iff}
use k8storagex.Tests.{demo_meta}

len-resource_name_example :
    (name : String) × (resource_name (λ text. text) "pvc-4711" "provisioner" ≡ some name)
    × (len name ≤ 63)
len-resource_name_example = len-resource_name (λ text. text) "pvc-4711" "provisioner" (ground arith)

abbrev condition : String → Condition
condition status = record {
  type = "Configured";
  status = status;
  observed_generation = 1;
  last_transition_time = 1;
  reason = "Done";
  message = "";
}

abbrev mapping : List Provisioner.EnvVar
mapping = record { name = "SIZE"; annotation = "size"; required = none } ∷ []

annotations_to_env-ok_example :
    ((annotations_to_env demo_meta mapping).1 ≡ none) ↔ HasRequired demo_meta mapping
annotations_to_env-ok_example = annotations_to_env-ok demo_meta mapping

abbrev tree : Value
tree = object (field "path" (text "${DIR}") (field "size" (scalar "3") end))

abbrev parse : String → Result String
parse s = ok "/data"

substitute_iff_example :
    (substitute parse (λ n. "0") tree "spec" ≡ ok (replaced parse tree))
    ↔ (IsParseable parse tree × (replaced parse tree ≡ replaced parse tree))
substitute_iff_example = substitute_iff parse (λ n. "0") tree (replaced parse tree) "spec"
