-- ===== src/Value/Cases.antt =====
-- Splits on results that keep the equation.
use servone.Prelude.{◌≡◌, refl, ◌⊎◌, inl, inr}
use servone.Value.{Error, Result, ok, err}

pub Result-cases {ℓ} :
    {A : Type ℓ} (r : Result A) → ((a : A) × (r ≡ ok a)) ⊎ ((e : Error) × (r ≡ err e))
Result-cases (ok a) = inl (a, refl)
Result-cases (err e) = inr (e, refl)
