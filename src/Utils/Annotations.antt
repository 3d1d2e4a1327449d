-- ===== src/Utils/Annotations.antt =====
-- internal/utils/annotationtoenv.go and the annotation helper of
-- internal/controllers/pod_controller.go.
use k8storagex.Base.{
  ◌≡◌, refl, ◌≢◌, ◌↔◌, String, ◌<>◌, Bool, true, false, ◌||◌, Option, none, some, List, [], ◌∷◌,
  All, arith, Error, new_error, Option-cases, inl, inr, ◌==◌, ◌!=◌, string_eq, if◌then◌else◌,
}
use k8storagex.Base.Dict
use k8storagex.Base.Dict.{Dict, value_at}
use k8storagex.Api.Meta.{ObjectMeta}
use k8storagex.Api.Core
use k8storagex.Api.Provisioner.{EnvVar}

-- `a[key]` of the annotations, which may be a nil map.
unfoldable pub annotation : ObjectMeta → String → String
annotation o key = elim (o.annotations) [ none ↦ "" | some a ↦ value_at key a ]

-- `m.Required == nil || *m.Required`
unfoldable pub is_required : EnvVar → Bool
is_required m = elim (m.required) [ none ↦ true | some b ↦ b ]

abbrev pub missing : EnvVar → Error
missing m = new_error ("missing or empty annotation " <> m.annotation)

-- The env vars of the annotations that are set. The error is the first one.
unfoldable pub annotations_to_env : ObjectMeta → List EnvVar → List Core.EnvVar × Option Error
annotations_to_env o [] = ([], none)
annotations_to_env o (m ∷ mapping) =
    let v = annotation o m.annotation in
    let (env, e) = annotations_to_env o mapping in
    if v != ""
    then (record { name = m.name; value = v } ∷ env, e)
    else if is_required m
    then (env, some (missing m))
    else (env, e)

-- The environment is complete: every annotation that is required is set.
abbrev pub HasRequired : ObjectMeta → List EnvVar → Type 0
HasRequired o = All (λ m. is_required m ≡ true → annotation o m.annotation ≢ "")

-- There is no error exactly if each required annotation is there and not empty.
pub annotations_to_env-ok :
    (o : ObjectMeta) (mapping : List EnvVar)
    → ((annotations_to_env o mapping).1 ≡ none) ↔ HasRequired o mapping
unfolding annotations_to_env
annotations_to_env-ok o [] = (λ _. tt, λ _. refl)
annotations_to_env-ok o (m ∷ mapping) = (
  λ h. (λ r e. ground (arith, h), (annotations_to_env-ok o mapping).0 (ground arith)),
  λ h. ground (arith, h.0, (annotations_to_env-ok o mapping).1 h.1),
)

-- What a mapping makes of one annotation.
abbrev pub env_of : ObjectMeta → EnvVar → List Core.EnvVar → List Core.EnvVar
env_of o m rest =
    if annotation o m.annotation != ""
    then record { name = m.name; value = annotation o m.annotation } ∷ rest
    else rest

-- `dest` is a map of annotations already: a nil one is replaced by an empty one.
copy_all : Dict String → Dict String → List EnvVar → Dict String
copy_all a b [] = b
copy_all a b (m ∷ mapping) =
    copy_all a (Dict.insert m.annotation (value_at m.annotation a) b) mapping

unfoldable pub copy_annotations : ObjectMeta → ObjectMeta → List EnvVar → ObjectMeta
unfolding copy_all
copy_annotations src dest mapping =
    let b : Dict String = elim (dest.annotations) [ none ↦ [] | some b ↦ b ] in
    record dest {
      annotations = some (elim (src.annotations) [ none ↦ b | some a ↦ copy_all a b mapping ]);
    }

abbrev pub maps : List EnvVar → String → Bool
maps [] key = false
maps (m ∷ mapping) key = m.annotation == key || maps mapping key

value_at-nil : (k : String) → value_at k [] ≡ ""
unfolding value_at Dict.lookup
value_at-nil k = refl

value_at-insert :
    (k j v : String) (d : Dict String)
    → value_at j (Dict.insert k v d) ≡ (if k == j then v else value_at j d)
unfolding value_at
value_at-insert k j v d = ground (arith, Dict.lookup-insert k j v d)

value_at-copy_all :
    (a b : Dict String) (mapping : List EnvVar) (key : String)
    → value_at key (copy_all a b mapping)
      ≡ (if maps mapping key then value_at key a else value_at key b)
unfolding copy_all
value_at-copy_all a b [] key = refl
value_at-copy_all a b (m ∷ mapping) key = ground (
  arith,
  value_at-copy_all a (Dict.insert m.annotation (value_at m.annotation a) b) mapping key,
  value_at-insert m.annotation key (value_at m.annotation a) b,
)

-- Copying gives the destination the source's value of each annotation that is mapped, and leaves the
-- others; a source without annotations leaves all of them.
annotation-copy_annotations :
    (src dest : ObjectMeta) (mapping : List EnvVar) (key : String) (a : Dict String)
    → src.annotations ≡ some a
    → annotation (copy_annotations src dest mapping) key
      ≡ (if maps mapping key then annotation src key else annotation dest key)
unfolding copy_annotations annotation
annotation-copy_annotations src dest mapping key a has = elim (Option-cases dest.annotations) [
  | inl e ↦ ground (arith, has, e, value_at-copy_all a [] mapping key, value_at-nil key)
  | inr (b, e) ↦ ground (arith, has, e, value_at-copy_all a b mapping key)
]
