-- ===== src/Base/Calls.antt =====
-- Errors as values, and calls that change a world. A Go function that returns `error` returns an
-- `Option Error`, with `none` for `nil`; one that returns `(T, error)` returns a `Result`.
use Prim.Native.String.{String, ◌++◌ as ◌<>◌}
use mathlib.Core.Path.{◌≡◌, refl}
use mathlib.Core.Logic.{◌⊎◌, inl, inr}
use mathlib.Core.Bool.{Bool, true, false}
use mathlib.Core.Option.{Option, none, some}

-- What `apierrors.IsNotFound` and its siblings tell apart.
pub data Reason : Type 0 where
  not_found already_exists conflict other : Reason

pub record Error : Type 0 where
  pub reason : Reason
  pub message : String

pub data Result {ℓ} (A : Type ℓ) : Type ℓ where
  ok : A → Result A
  err : Error → Result A

pub Result-cases {ℓ} :
    {A : Type ℓ} (r : Result A) → ((a : A) × (r ≡ ok a)) ⊎ ((e : Error) × (r ≡ err e))
Result-cases (ok a) = inl (a, refl)
Result-cases (err e) = inr (e, refl)

-- `errors.Errorf`, `fmt.Errorf` without `%w`
abbrev pub new_error : String → Error
new_error m = record { reason = other; message = m }

-- `errors.Wrap(err, text)`: `nil` stays `nil`.
unfoldable pub wrap : String → Option Error → Option Error
wrap m none = none
wrap m (some e) = some (record e { message = m <> ": " <> e.message })

abbrev is_reason_not_found : Reason → Bool
is_reason_not_found not_found = true
is_reason_not_found _ = false

abbrev is_reason_already_exists : Reason → Bool
is_reason_already_exists already_exists = true
is_reason_already_exists _ = false

abbrev is_reason_conflict : Reason → Bool
is_reason_conflict conflict = true
is_reason_conflict _ = false

-- `apierrors.IsNotFound`, `IsAlreadyExists`, `IsConflict`
abbrev pub is_not_found : Error → Bool
is_not_found e = is_reason_not_found e.reason

abbrev pub is_already_exists : Error → Bool
is_already_exists e = is_reason_already_exists e.reason

abbrev pub is_conflict : Error → Bool
is_conflict e = is_reason_conflict e.reason

-- A call: it reads and changes the world, errors are part of its result.
abbrev pub Io : Type 0 → Type 0 → Type 0
Io S A = S → A × S

module _ {S A : Type 0} where
  abbrev pub pure : A → Io S A
  pure a s = (a, s)

module _ {S A B : Type 0} where
  infixl 5 ◌>>=◌ ◌>>◌
  abbrev pub ◌>>=◌ : Io S A → (A → Io S B) → Io S B
  ◌>>=◌ m f s = f (m s).0 (m s).1

  abbrev pub ◌>>◌ : Io S A → Io S B → Io S B
  ◌>>◌ m n s = n (m s).1

pub wrap-eq-none : (m : String) (e : Option Error) → wrap m e ≡ none → e ≡ none
unfolding wrap
wrap-eq-none m none h = refl
wrap-eq-none m (some e) h = cc
