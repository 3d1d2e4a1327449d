-- ===== src/Utils/Jobs/Owner.antt =====
-- A job's pod leads back to its owner.
use k8storagex.Base.{
  ◌≡◌, refl, ◌≢◌, String, some, [], ◌∷◌, arith, Option-cases, inl, inr, ◌==◌, string_eq,
  if◌then◌else◌,
}
use k8storagex.Base.Dict
use k8storagex.Base.Dict.{Dict, value_at}
use k8storagex.Api.Meta.{NamespacedName, ObjectMeta}
use k8storagex.Api.Core.{Pod}
use k8storagex.Utils.Annotations.{annotation}
use k8storagex.Utils.Jobs.{OwnerKeys, named, annotate, owned_pod, requests_of}

value_at-annotate :
    (key value other : String) (meta : ObjectMeta)
    → annotation (annotate key value meta) other
      ≡ (if key == other then value else annotation meta other)
unfolding annotate annotation value_at Dict.lookup
value_at-annotate key value other meta = elim (Option-cases meta.annotations) [
  | inl e ↦ ground (arith, e)
  | inr (a, e) ↦ ground (arith, e, Dict.lookup-insert key other value a)
]

annotation_some :
    (meta : ObjectMeta) (a : Dict String) (key : String)
    → meta.annotations ≡ some a
    → annotation meta key ≡ value_at key a
unfolding annotation
annotation_some meta a key e = ground (arith, e)

requests_of_found :
    (namespace : String) (keys : OwnerKeys) (owner : NamespacedName) (meta : ObjectMeta)
    (a : Dict String)
    → meta.namespace ≡ namespace
    → meta.annotations ≡ some a
    → annotation meta keys.owner_name ≡ owner.name
    → annotation meta keys.owner_namespace ≡ owner.namespace
    → owner.name ≢ ""
    → owner.namespace ≢ ""
    → requests_of namespace keys meta ≡ owner ∷ []
unfolding requests_of
requests_of_found namespace keys owner meta a here e name ns named spaced = ground (
  arith,
  here,
  e,
  annotation_some meta a keys.owner_name e,
  annotation_some meta a keys.owner_namespace e,
)

-- A job's pod leads back to its owner: the pods' watch makes of it exactly the request for the owner, if
-- the owner has a name and a namespace, the annotations have different names, and the pod is in the
-- namespace that is watched.
pub requests_of-owned_pod :
    (namespace : String) (keys : OwnerKeys) (owner : ObjectMeta) (pod : Pod)
    → pod.meta.namespace ≡ namespace
    → owner.name ≢ ""
    → owner.namespace ≢ ""
    → keys.owner_namespace ≢ ""
    → keys.owner_name ≢ keys.owner_namespace
    → requests_of namespace keys (owned_pod keys owner pod).meta
      ≡ record { name = owner.name; namespace = owner.namespace } ∷ []
unfolding owned_pod annotate
requests_of-owned_pod namespace keys owner pod here name ns key other =
    let once : ObjectMeta = annotate keys.owner_name owner.name pod.meta in
    let first = value_at-annotate keys.owner_name owner.name keys.owner_name pod.meta in
    let kept = value_at-annotate keys.owner_namespace owner.namespace keys.owner_name once in
    let last = value_at-annotate keys.owner_namespace owner.namespace keys.owner_namespace once in
    let found =
      requests_of_found namespace keys (record { name = owner.name; namespace = owner.namespace })
        (annotate keys.owner_namespace owner.namespace once) _ here refl
        (ground (arith, first, kept, other)) (ground (arith, last)) name ns in
    ground (arith, found, key)
