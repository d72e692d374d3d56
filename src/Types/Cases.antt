-- ===== src/Types/Cases.antt =====
-- To split on the result of a C function.
use thingsboard_sdk.Base.{◌≡◌, refl, ◌⊎◌, inl, inr}
use thingsboard_sdk.Types.{Errno, Result, ok, err}

pub Result-cases {ℓ} :
    {A : Type ℓ} (r : Result A) → ((a : A) × (r ≡ ok a)) ⊎ ((x : Errno) × (r ≡ err x))
Result-cases (ok a) = inl (a, refl)
Result-cases (err x) = inr (x, refl)
