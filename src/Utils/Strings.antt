-- ===== src/Utils/Strings.antt =====
-- internal/utils/strings.go
use Prim.Native.Nat.{compare, Ordering}
use Prim.Native.Char.{Char, len_utf8}
use Prim.Native.String.len
use Prim.Native.String.slice
use Prim.Native.String.{slice, fits}
use text.Mathlib.TextPositions.{len-append}
use k8storagex.Base.{
  Bool-cases, inl, inr, ℕ, ◌-◌, ◌≤◌, ◌≡◌, refl, String, ◌<>◌, len, Bool, true, false, ◌&&◌, ◌||◌,
  not, Option, none, some, List, [], ◌∷◌, ◌++◌, arith, ltb, ◌==◌, string_eq, if◌then◌else◌,
}

-- The filtered slice, and whether something was removed.
unfoldable pub remove_string : List String → String → List String × Bool
remove_string [] s = ([], false)
remove_string (item ∷ items) s =
    let (filtered, removed) = remove_string items s in
    if item == s then (filtered, true) else (item ∷ filtered, removed)

unfoldable pub has_string : List String → String → Bool
has_string [] s = false
has_string (item ∷ items) s = if item == s then true else has_string items s

unfoldable pub add_string : List String → String → List String × Bool
add_string items s = if has_string items s then (items, false) else (items ++ (s ∷ []), true)

has_string-append :
    (items : List String) (s t : String)
    → has_string (items ++ (s ∷ [])) t ≡ (s == t || has_string items t)
unfolding has_string
has_string-append [] s t = ground arith
has_string-append (x ∷ xs) s t = ground (arith, has_string-append xs s t)

-- Adding reports true exactly for a string that was not there, and afterwards the string is there with
-- all others as they were.
has_string-add_string :
    (items : List String) (s t : String)
    → ((add_string items s).1 ≡ not (has_string items s))
      × (has_string (add_string items s).0 t ≡ (s == t || has_string items t))
unfolding add_string
has_string-add_string items s t = ground (arith, has_string-append items s t)

-- Removing reports true exactly for a string that was there, and afterwards the string is gone with all
-- others as they were.
pub has_string-remove_string :
    (items : List String) (s t : String)
    → ((remove_string items s).1 ≡ has_string items s)
      × (has_string (remove_string items s).0 t ≡ (not (s == t) && has_string items t))
unfolding remove_string has_string
has_string-remove_string [] s t = ground arith
has_string-remove_string (x ∷ xs) s t = ground (arith, has_string-remove_string xs s t)

-- `63 - 8 - 1 - len(suffix)`, where the suffix is not too long for it.
abbrev max_len : String → ℕ
max_len suffix = 63 - 8 - 1 - len suffix

-- The digest is the SHA-256 of a name in hex. `none` is the panic of slicing with a negative length.
module _ (digest : String → String) where
  unfoldable pub resource_name : String → String → Option String
  resource_name owner suffix =
      let name = owner <> "-" <> suffix in
      if ltb (63 - 8 - 1) (len suffix)
      then none
      else if ltb (max_len suffix) (len owner)
      then some (slice owner 0 (max_len suffix) <> "-" <> slice (digest name) 0 7)
      else some name

len-fits :
    (o : Ordering) (c : Char) (s : String) (b : ℕ)
    → compare (len_utf8 c) b ≡ o
    → len s ≤ b - len_utf8 c
    → len (fits o c s) ≤ b
len-fits Ordering.lt c s b e h = rw (len.cons c s) (ground arith)
len-fits Ordering.eq c s b e h = rw (len.cons c s) (ground arith)
len-fits Ordering.gt c s b e h = omega arith

-- A slice of the first `b` bytes has at most `b` bytes.
len-slice : (s : String) (b : ℕ) → len (slice s 0 b) ≤ b
len-slice String.[] b = rw (slice.nil 0 b) (omega arith)
len-slice (String.◌∷◌ c s) b = rw (slice.cons-zero c s b) (
    len-fits (compare (len_utf8 c) b) c (slice s 0 (b - len_utf8 c)) b refl
      (len-slice s (b - len_utf8 c)))

not_long : (a b : ℕ) → ltb a b ≡ false → b ≤ a
not_long a b h = ground arith

-- A name is never longer than 63 bytes, whatever the owner and the digest are, and there is one unless
-- the suffix is longer than 54 bytes.
pub len-resource_name :
    (digest : String → String) (owner suffix : String)
    → len suffix ≤ 54
    → (name : String) × (resource_name digest owner suffix ≡ some name) × (len name ≤ 63)
unfolding resource_name
len-resource_name digest owner suffix h = elim (Bool-cases (ltb (max_len suffix) (len owner))) [
  | inl long ↦ (
    slice owner 0 (max_len suffix) <> "-" <> slice (digest (owner <> "-" <> suffix)) 0 7,
    ground arith,
    omega (
      arith,
      len-append (slice owner 0 (max_len suffix))
          ("-" <> slice (digest (owner <> "-" <> suffix)) 0 7),
      len-append "-" (slice (digest (owner <> "-" <> suffix)) 0 7),
      len-slice owner (max_len suffix),
      len-slice (digest (owner <> "-" <> suffix)) 7,
    ),
  )
  | inr short ↦ (
    owner <> "-" <> suffix,
    ground arith,
    omega (arith, len-append owner ("-" <> suffix), len-append "-" suffix, not_long _ _ short),
  )
]
