-- ===== src/Prune/History.antt =====
-- internal/layerfs/prune.go: the comparison of histories.
pub mod Laws
use k8storagex.Base.{
  ℕ, zero, suc, String, Bool, true, false, ◌||◌, not, Option, none, some, List, [], ◌∷◌, length,
  ◌==◌, ◌!=◌, nat_eq, string_eq, if◌then◌else◌,
}
use k8storagex.Storage.{History}

-- Whether the pointers differ in being nil, or the instants differ.
unfoldable pub times_differ : Option ℕ → Option ℕ → Bool
times_differ none none = false
times_differ none (some t) = true
times_differ (some s) none = true
times_differ (some s) (some t) = s != t

abbrev pub bools_differ : Bool → Bool → Bool
bools_differ true b = not b
bools_differ false b = b

-- The body of the loop, whether it breaks.
unfoldable pub entries_differ : History → History → Bool
unfolding times_differ
entries_differ a b =
    times_differ a.created b.created
    || a.created_by != b.created_by
    || a.author != b.author
    || a.comment != b.comment
    || bools_differ a.empty_layer b.empty_layer

-- The loop, whether it ends before the end of `a`.
unfoldable pub any_entry_differs : List History → List History → Bool
any_entry_differs [] b = false
any_entry_differs (x ∷ a) [] = true
any_entry_differs (x ∷ a) (y ∷ b) = entries_differ x y || any_entry_differs a b

unfoldable pub histories_differ : List History → List History → Bool
unfolding any_entry_differs
histories_differ a b = if length a != length b then true else any_entry_differs a b
