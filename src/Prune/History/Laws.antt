-- ===== src/Prune/History/Laws.antt =====
-- What the comparison of histories decides.
use k8storagex.Base.{
  ℕ, ◌≡◌, refl, Bool, true, false, ◌||◌, Option, none, some, List, [], ◌∷◌, length, nat_eq,
  string_eq, arith, ◌↔◌,
}
use k8storagex.Storage.{History}
use k8storagex.Prune.History.{
  times_differ, bools_differ, entries_differ, any_entry_differs, histories_differ,
}

times_differ-eq-false : (s t : Option ℕ) → times_differ s t ≡ false → s ≡ t
unfolding times_differ
times_differ-eq-false none none h = refl
times_differ-eq-false none (some t) h = absurd (ground (arith, h))
times_differ-eq-false (some s) none h = absurd (ground (arith, h))
times_differ-eq-false (some s) (some t) h = ground (arith, h)

bools_differ-eq-false : (a b : Bool) → bools_differ a b ≡ false → a ≡ b
bools_differ-eq-false true true h = refl
bools_differ-eq-false true false h = absurd (ground (arith, h))
bools_differ-eq-false false true h = absurd (ground (arith, h))
bools_differ-eq-false false false h = refl

times_differ_self : (s : Option ℕ) → times_differ s s ≡ false
unfolding times_differ
times_differ_self none = refl
times_differ_self (some t) = ground arith

bools_differ_self : (a : Bool) → bools_differ a a ≡ false
bools_differ_self true = refl
bools_differ_self false = refl

or-eq-false : (a b : Bool) → (a || b) ≡ false → (a ≡ false) × (b ≡ false)
or-eq-false a b h = ground (arith, h)

entries_differ_self : (a : History) → entries_differ a a ≡ false
unfolding entries_differ
entries_differ_self a = ground (arith, times_differ_self a.created, bools_differ_self a.empty_layer)

entries_differ-eq-false : (a b : History) → entries_differ a b ≡ false → a ≡ b
unfolding entries_differ
entries_differ-eq-false a b h =
    let t : a.created ≡ b.created = times_differ-eq-false a.created b.created (ground (arith, h)) in
    let c : a.created_by ≡ b.created_by = ground (arith, h) in
    let u : a.author ≡ b.author = ground (arith, h) in
    let m : a.comment ≡ b.comment = ground (arith, h) in
    let l : a.empty_layer ≡ b.empty_layer =
      bools_differ-eq-false a.empty_layer b.empty_layer (ground (arith, h)) in
    λ i. record { created = t i; created_by = c i; author = u i; comment = m i; empty_layer = l i }

any_entry_differs_self : (a : List History) → any_entry_differs a a ≡ false
unfolding any_entry_differs
any_entry_differs_self [] = refl
any_entry_differs_self (x ∷ a) = ground (arith, entries_differ_self x, any_entry_differs_self a)

any_entry_differs-eq-false :
    (a b : List History) → length a ≡ length b → any_entry_differs a b ≡ false → a ≡ b
unfolding any_entry_differs
any_entry_differs-eq-false [] [] e h = refl
any_entry_differs-eq-false [] (y ∷ b) e h = absurd (omega arith)
any_entry_differs-eq-false (x ∷ a) [] e h = absurd (omega arith)
any_entry_differs-eq-false (x ∷ a) (y ∷ b) e h =
    let (head, tail) = or-eq-false (entries_differ x y) (any_entry_differs a b) h in
    let same = entries_differ-eq-false x y head in
    let rest = any_entry_differs-eq-false a b (omega arith) tail in λ i. same i ∷ rest i

-- Two histories do not differ exactly if they are equal: of the same length, and entry by entry with the
-- same instant or none, creator, author, comment and mark of an empty layer.
pub histories_differ_iff : (a b : List History) → (histories_differ a b ≡ false) ↔ (a ≡ b)
unfolding histories_differ
histories_differ_iff a b = (
  λ h. any_entry_differs-eq-false a b (ground (arith, h)) (ground (arith, h)),
  λ e. rw (e, histories_differ) (ground (arith, any_entry_differs_self b)),
)
