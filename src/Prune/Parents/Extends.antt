-- ===== src/Prune/Parents/Extends.antt =====
-- What it says of two configurations that one extends the other.
use k8storagex.Base.{
  ◌+◌, ◌≡◌, refl, String, true, ◌&&◌, ◌||◌, not, List, [], ◌∷◌, ◌++◌, length, ltb, nat_eq,
  string_eq, arith,
}
use k8storagex.Storage.{History, Config}
use k8storagex.Prune.History.Laws.{histories_differ_iff}
use k8storagex.Prune.Parents.{take, uses_layers, extends_history, extends_layers}

-- A list that is one longer than its own beginning `xs` is `xs` and one more.
take-snoc {ℓ} :
    {A : Type ℓ} (xs ys : List A)
    → length xs + 1 ≡ length ys
    → xs ≡ take (length xs) ys
    → (y : A) × (ys ≡ xs ++ y ∷ [])
take-snoc [] [] e h = absurd (omega arith)
take-snoc [] (y ∷ []) e h = (y, refl)
take-snoc [] (y ∷ z ∷ ys) e h = absurd (omega arith)
take-snoc (x ∷ xs) [] e h = absurd (omega arith)
take-snoc (x ∷ xs) (y ∷ ys) e h =
    let (z, e') = take-snoc xs ys (omega arith) (ground (arith, h)) in
    let same : y ≡ x = ground (arith, h) in (z, λ i. same i ∷ e' i)

pub extends_history_lem :
    (parent child : Config)
    → extends_history parent child ≡ true
    → (entry : History) × (child.history ≡ parent.history ++ entry ∷ [])
unfolding extends_history
extends_history_lem parent child h =
    take-snoc parent.history child.history (ground (arith, h))
      ((histories_differ_iff _ _).0 (ground (arith, h)))

uses_layers_lem :
    (parent child : List String)
    → uses_layers parent child ≡ true
    → (more : List String) × (child ≡ parent ++ more)
unfolding uses_layers
uses_layers_lem [] child h = (child, refl)
uses_layers_lem (p ∷ parent) [] h = absurd (ground (arith, h))
uses_layers_lem (p ∷ parent) (c ∷ child) h =
    let (more, e) = uses_layers_lem parent child (ground (arith, h)) in
    let same : c ≡ p = ground (arith, h) in (more, λ i. same i ∷ e i)

layers_lem :
    (parent child : List String)
    → (not (ltb 0 (length parent))
        || not (ltb (length child) (length parent)) && uses_layers parent child)
      ≡ true
    → (more : List String) × (child ≡ parent ++ more)
layers_lem [] child h = (child, refl)
layers_lem (p ∷ parent) child h = uses_layers_lem (p ∷ parent) child (ground (arith, h))

pub extends_layers_lem :
    (parent child : Config)
    → extends_layers parent child ≡ true
    → (more : List String) × (child.diff_ids ≡ parent.diff_ids ++ more)
unfolding extends_layers
extends_layers_lem parent child h = layers_lem parent.diff_ids child.diff_ids h
