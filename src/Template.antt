-- ===== src/Template.antt =====
-- internal/template/template.go: placeholders in a tree of values, as it is decoded from JSON. The
-- parser of github.com/a8m/envsubst is the parameter `parse`, the printing of an index `show`. A map is a
-- list in the order in which its entries are visited.
pub mod Laws
use k8storagex.Base.{ℕ, zero, suc, String, ◌<>◌, Result, ok, err, Error}

mutual
  pub data Value : Type 0 where
    text : String → Value
    object : Fields → Value
    array : Items → Value
    scalar : String → Value

  pub data Fields : Type 0 where
    end : Fields
    field : String → Value → Fields → Fields

  pub data Items : Type 0 where
    nil : Items
    item : Value → Items → Items

-- `fmt.Errorf("%s: %w", path, err)`
abbrev pub at_path : String → Error → Error
at_path path e = record e { message = path <> ": " <> e.message }

abbrev pub map_ok : {A B : Type 0} → (A → B) → Result A → Result B
map_ok f (ok a) = ok (f a)
map_ok f (err e) = err e

-- The value or the error of the first part, before the rest is looked at.
abbrev pub both : {A B C : Type 0} → (A → B → C) → String → Result A → Result B → Result C
both f path (err e) rest = err (at_path path e)
both f path (ok a) (err e) = err e
both f path (ok a) (ok b) = ok (f a b)

module _ (parse : String → Result String) (show : ℕ → String) where
  unfoldable mutual
    pub substitute : Value → String → Result Value
    substitute (text s) path = map_ok text (parse s)
    substitute (object f) path = map_ok object (substitute_map f path)
    substitute (array l) path = map_ok array (substitute_slice l 0 path)
    substitute (scalar s) path = ok (scalar s)

    pub substitute_map : Fields → String → Result Fields
    substitute_map end parent = ok end
    substitute_map (field k v f) parent =
        both (field k) (parent <> "." <> k) (substitute v (parent <> "." <> k))
          (substitute_map f parent)

    pub substitute_slice : Items → ℕ → String → Result Items
    substitute_slice nil i parent = ok nil
    substitute_slice (item v l) i parent =
        both item (parent <> "[" <> show i <> "]") (substitute v (parent <> "[" <> show i <> "]"))
          (substitute_slice l (suc i) parent)
