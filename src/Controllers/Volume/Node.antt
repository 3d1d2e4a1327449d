-- ===== src/Controllers/Volume/Node.antt =====
-- internal/controllers/persistentvolume_controller.go: where a volume lies, and the volume of a claim.
use mathlib.Core.List.{Memᴰ}
use mathlib.Core.List.Memᴰ.{head, tail}
use k8storagex.Base.{
  ◌≡◌, refl, ◌≢◌, String, ◌&&◌, Option, none, some, List, [], ◌∷◌, Result, ok, err, new_error, ◌==◌,
  string_eq, if◌then◌else◌, arith, inl, inr, Bool-cases, Option-cases, Result-cases,
}
use k8storagex.Api.Meta.{NamespacedName}
use k8storagex.Api.Core.{
  NodeAffinity, NodeSelectorRequirement, NodeSelectorTerm, PersistentVolume, PersistentVolumeClaim,
  operator_in,
}

abbrev key_node : String
key_node = "kubernetes.io/hostname"

host_path_from_pv : PersistentVolume → String
host_path_from_pv pv = elim (pv.spec.host_path) [ none ↦ "" | some path ↦ path ]

-- The only value of an expression.
only_value : List String → Result String
only_value (v ∷ []) = ok v
only_value [] = err (new_error "multiple values for the node affinity")
only_value (v ∷ w ∷ vs) = err (new_error "multiple values for the node affinity")

-- The inner loop: it ends at the first expression on the node.
term_node : NodeSelectorTerm → Result String
unfolding only_value
term_node [] = ok ""
term_node (e ∷ es) =
    let rest = term_node es in
    if e.key == key_node && e.operator == operator_in then only_value e.values else rest

-- The outer loop: it ends with the first term that gives a node.
required_node : List NodeSelectorTerm → Result String
unfolding term_node
required_node [] = ok ""
required_node (t ∷ ts) =
    let rest = required_node ts in
    elim (term_node t) [ err e ↦ err e | ok node ↦ if node == "" then rest else ok node ]

node_name_from_pv : PersistentVolume → Result String
unfolding required_node
node_name_from_pv pv = elim (pv.spec.node_affinity) [
  | none ↦ err (new_error "no NodeAffinity set")
  | some affinity ↦ elim (affinity.required) [
    | none ↦ err (new_error "no NodeAffinity.Required set")
    | some terms ↦ elim (required_node terms) [
      | err e ↦ err e
      | ok node ↦ if node == "" then err (new_error "cannot find affinited node") else ok node
    ]
  ]
]

-- The function that `pvcToRequestMapper` hands over; an object of another type is `none`.
claim_to_requests : Option PersistentVolumeClaim → List NamespacedName
claim_to_requests none = []
claim_to_requests (some claim) =
    if claim.spec.volume_name == ""
    then []
    else record { name = claim.spec.volume_name; namespace = "" } ∷ []

-- The expression asks for exactly this node.
abbrev PinsTo : String → NodeSelectorRequirement → Type 0
PinsTo node e = (e.key ≡ key_node) × (e.operator ≡ operator_in) × (e.values ≡ node ∷ [])

only_value_ok : (vs : List String) (node : String) → only_value vs ≡ ok node → vs ≡ node ∷ []
unfolding only_value
only_value_ok [] node h = ground (arith, h)
only_value_ok (v ∷ []) node h = ground (arith, h)
only_value_ok (v ∷ w ∷ vs) node h = ground (arith, h)

term_node_ok :
    (t : NodeSelectorTerm) (node : String)
    → term_node t ≡ ok node
    → node ≢ ""
    → (e : NodeSelectorRequirement) × Memᴰ e t × PinsTo node e
unfolding term_node
term_node_ok [] node h n = ground (arith, h, n)
term_node_ok (e ∷ es) node h n =
    elim (Bool-cases (e.key == key_node && e.operator == operator_in)) [
      | inl b ↦
          let found : only_value e.values ≡ ok node = ground (arith, b, h) in
          (e, head refl, (ground (arith, b), ground (arith, b), only_value_ok e.values node found))
      | inr b ↦
          let (x, at, pins) = term_node_ok es node (ground (arith, b, h)) n in (x, tail at, pins)
    ]

required_node_ok :
    (ts : List NodeSelectorTerm) (node : String)
    → required_node ts ≡ ok node
    → node ≢ ""
    → (t : NodeSelectorTerm) × Memᴰ t ts
      × ((e : NodeSelectorRequirement) × Memᴰ e t × PinsTo node e)
unfolding required_node
required_node_ok [] node h n = ground (arith, h, n)
required_node_ok (t ∷ ts) node h n = elim (Result-cases (term_node t)) [
  | inr (e, r) ↦ ground (arith, r, h)
  | inl (m, r) ↦ elim (Bool-cases (m == "")) [
    | inl b ↦
        let (x, at, pins) = required_node_ok ts node (ground (arith, r, b, h)) n in
        (x, tail at, pins)
    | inr b ↦
        let same : term_node t ≡ ok node = ground (arith, r, b, h) in
        (t, head refl, term_node_ok t node same n)
  ]
]

-- A node that `nodeNameFromPV` returns is not empty, and an expression among the required terms of the
-- volume's affinity asks for exactly this node.
node_name_from_pv_ok :
    (pv : PersistentVolume) (node : String)
    → node_name_from_pv pv ≡ ok node
    → (node ≢ "")
      × ((affinity : NodeAffinity) × (ts : List NodeSelectorTerm) × (t : NodeSelectorTerm)
          × (pv.spec.node_affinity ≡ some affinity)
          × (affinity.required ≡ some ts)
          × Memᴰ t ts
          × ((e : NodeSelectorRequirement) × Memᴰ e t × PinsTo node e))
unfolding node_name_from_pv
node_name_from_pv_ok pv node h = elim (Option-cases pv.spec.node_affinity) [
  | inl a ↦ ground (arith, a, h)
  | inr (affinity, a) ↦ elim (Option-cases affinity.required) [
    | inl r ↦ ground (arith, a, r, h)
    | inr (ts, r) ↦ elim (Result-cases (required_node ts)) [
      | inr (e, q) ↦ ground (arith, a, r, q, h)
      | inl (m, q) ↦ elim (Bool-cases (m == "")) [
        | inl b ↦ ground (arith, a, r, q, b, h)
        | inr b ↦
            let same : required_node ts ≡ ok node = ground (arith, a, r, q, b, h) in
            let full : node ≢ "" = ground (arith, a, r, q, b, h) in
            let (t, at, pinned) = required_node_ok ts node same full in
            (full, (affinity, ts, t, a, r, at, pinned))
      ]
    ]
  ]
]
