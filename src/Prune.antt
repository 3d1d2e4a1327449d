-- ===== src/Prune.antt =====
-- internal/layerfs/prune.go: the deletion of images.
pub mod History
pub mod Parents
pub mod References
pub mod Remove
pub mod Reads
pub mod Delete
use k8storagex.Base.{◌≡◌, refl, ◌⊎◌, inl, inr}

-- How a call ends: with a result, by a panic, or not within the rounds that it was given.
pub data Run {ℓ} (A : Type ℓ) : Type ℓ where
  finished : A → Run A
  panicked unfinished : Run A

pub Run-cases {ℓ} :
    {A : Type ℓ} (run : Run A)
    → ((a : A) × (run ≡ finished a)) ⊎ ((run ≡ panicked) ⊎ (run ≡ unfinished))
Run-cases (finished a) = inl (a, refl)
Run-cases panicked = inr (inl refl)
Run-cases unfinished = inr (inr refl)
