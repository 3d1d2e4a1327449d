-- ===== src/Cluster.antt =====
-- What the program uses of the Kubernetes client: calls that read and change a world of type `S`, in
-- which other clients act as well. None of it is under this repository, so it is a parameter.
use k8storagex.Base.{
  if◌then◌else◌, Option-cases, Option-cases, ℕ, zero, suc, ◌≡◌, refl, true, Option, none, some,
  Result, ok, err, Error, is_conflict, Io, Bool-cases, inl, inr,
}
use k8storagex.Api.Meta.{NamespacedName}

-- `client.Client` for one kind of object. `create` and the updates return the object as the server
-- stores it, which the Go calls write into their argument.
pub record Client (S A : Type 0) : Type 0 where
  pub get : NamespacedName → Io S (Result A)
  pub create : A → Io S (Result A)
  pub update : A → Io S (Result A)
  pub update_status : A → Io S (Result A)
  pub delete : A → Io S (Option Error)

abbrev pub error_of {ℓ} : {A : Type ℓ} → Result A → Option Error
error_of (ok a) = none
error_of (err e) = some e

-- A row of attempts: every one but the last ended in a conflict, and the last gives the outcome.
pub data Attempts {T : Type 0} (m : Io T (Option Error)) : T → Option Error × T → Type 0 where
  last : {t : T} {o : Option Error × T} → m t ≡ o → Attempts m t o
  again :
      {t t' : T} {e : Error} {o : Option Error × T}
      → m t ≡ (some e, t')
      → is_conflict e ≡ true
      → Attempts m t' o
      → Attempts m t o

-- `retry.RetryOnConflict` of client-go.
pub record RetryOnConflict : Type 1 where
  pub call : (T : Type 0) → Io T (Option Error) → Io T (Option Error)
  pub attempts : (T : Type 0) (m : Io T (Option Error)) (t : T) → Attempts m t (call T m t)

-- A bounded row of attempts, as `wait.Backoff` with `Steps` makes it.
unfoldable pub attempt_times : {T : Type 0} → ℕ → Io T (Option Error) → Io T (Option Error)
attempt_times zero m t = m t
attempt_times (suc k) m t =
    let (r, t') = m t in
    elim r [
      | none ↦ (none, t')
      | some e ↦ let rest = attempt_times k m t' in if is_conflict e then rest else (some e, t')
    ]

pub Attempts-attempt_times :
    {T : Type 0} (k : ℕ) (m : Io T (Option Error)) (t : T) → Attempts m t (attempt_times k m t)
unfolding attempt_times
Attempts-attempt_times zero m t = last refl
Attempts-attempt_times (suc k) m t = elim (Option-cases (m t).0) [
  | inl e ↦ rw (e, attempt_times) (last λ i. (e i, (m t).1))
  | inr (x, e) ↦ elim (Bool-cases (is_conflict x)) [
    | inl c ↦
        rw (e, attempt_times)
          (rw c (
            again {t' = (m t).1} {e = x} (λ i. (e i, (m t).1)) c
              (Attempts-attempt_times k m (m t).1)))
    | inr c ↦ rw (e, attempt_times) (rw c (last λ i. (e i, (m t).1)))
  ]
]
