-- ===== src/Template/Laws.antt =====
-- Substitution keeps the shape of a tree and parses each of its strings, or fails.
use k8storagex.Base.{
  ℕ, suc, ◌≡◌, refl, ◌↔◌, ◌∙◌, String, ◌<>◌, Bool, true, false, Result, ok, err, arith,
}
use k8storagex.Template.{
  Value, text, object, array, scalar, Fields, end, field, Items, nil, item, substitute,
  substitute_map, substitute_slice,
}

abbrev pub is_ok : {A : Type 0} → Result A → Bool
is_ok (ok a) = true
is_ok (err e) = false

abbrev pub or_empty : Result String → String
or_empty (ok s) = s
or_empty (err e) = ""

module _ (parse : String → Result String) where
  -- Every string of the tree can be parsed.
  unfoldable mutual
    pub IsParseable : Value → Type 0
    IsParseable (text s) = is_ok (parse s) ≡ true
    IsParseable (object f) = AreParseableFields f
    IsParseable (array l) = AreParseable l
    IsParseable (scalar s) = Unit

    pub AreParseableFields : Fields → Type 0
    AreParseableFields end = Unit
    AreParseableFields (field k v f) = IsParseable v × AreParseableFields f

    pub AreParseable : Items → Type 0
    AreParseable nil = Unit
    AreParseable (item v l) = IsParseable v × AreParseable l

  -- The tree with each string replaced.
  unfoldable mutual
    pub replaced : Value → Value
    replaced (text s) = text (or_empty (parse s))
    replaced (object f) = object (replaced_fields f)
    replaced (array l) = array (replaced_items l)
    replaced (scalar s) = scalar s

    pub replaced_fields : Fields → Fields
    replaced_fields end = end
    replaced_fields (field k v f) = field k (replaced v) (replaced_fields f)

    pub replaced_items : Items → Items
    replaced_items nil = nil
    replaced_items (item v l) = item (replaced v) (replaced_items l)

  module _ (show : ℕ → String) where
    mutual
      unfolding IsParseable AreParseableFields AreParseable replaced replaced_fields replaced_items
          substitute substitute_map substitute_slice

      complete :
          (v : Value) (path : String)
          → IsParseable v
          → substitute parse show v path ≡ ok (replaced v)
      complete (text s) path h = ground (arith, h)
      complete (object f) path h = rw (complete_fields f path h)
      complete (array l) path h = rw (complete_items l 0 path h)
      complete (scalar s) path h = refl

      complete_fields :
          (f : Fields) (path : String)
          → AreParseableFields f
          → substitute_map parse show f path ≡ ok (replaced_fields f)
      complete_fields end path h = refl
      complete_fields (field k v f) path h =
          rw (complete v (path <> "." <> k) h.0, complete_fields f path h.1)

      complete_items :
          (l : Items) (i : ℕ) (path : String)
          → AreParseable l
          → substitute_slice parse show l i path ≡ ok (replaced_items l)
      complete_items nil i path h = refl
      complete_items (item v l) i path h =
          rw (complete v (path <> "[" <> show i <> "]") h.0, complete_items l (suc i) path h.1)

    mutual
      unfolding IsParseable AreParseableFields AreParseable substitute substitute_map
          substitute_slice

      sound :
          (v : Value) (path : String) → is_ok (substitute parse show v path) ≡ true → IsParseable v
      sound (text s) path h = ground (arith, h)
      sound (object f) path h = sound_fields f path (ground (arith, h))
      sound (array l) path h = sound_items l 0 path (ground (arith, h))
      sound (scalar s) path h = tt

      sound_fields :
          (f : Fields) (path : String)
          → is_ok (substitute_map parse show f path) ≡ true
          → AreParseableFields f
      sound_fields end path h = tt
      sound_fields (field k v f) path h =
          (sound v (path <> "." <> k) (ground (arith, h)), sound_fields f path (ground (arith, h)))

      sound_items :
          (l : Items) (i : ℕ) (path : String)
          → is_ok (substitute_slice parse show l i path) ≡ true
          → AreParseable l
      sound_items nil i path h = tt
      sound_items (item v l) i path h = (
        sound v (path <> "[" <> show i <> "]") (ground (arith, h)),
        sound_items l (suc i) path (ground (arith, h)),
      )

    -- A substitution succeeds exactly if every string of the tree can be parsed, and then it gives the
    -- tree of the same shape with each string replaced by what it parses to.
    pub substitute_iff :
        (v w : Value) (path : String)
        → (substitute parse show v path ≡ ok w) ↔ (IsParseable v × (w ≡ replaced v))
    substitute_iff v w path = (
      λ h.
          let parseable : IsParseable v = sound v path (ground (arith, h)) in
          (parseable, ground (arith, h, complete v path parseable)),
      λ h. complete v path h.0 ∙ ground (arith, h.1),
    )
