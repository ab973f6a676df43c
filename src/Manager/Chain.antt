-- ===== src/Manager/Chain.antt =====
-- What a chain of calls tells of its parts.
use malert.Manager.App.{World, App, Outcome, done, failed, Run, after, AppError, fail}
use malert.Base.{◌≡◌, refl, ◌⊎◌, inl, inr}
use malert.State.Memory.{StoreError, Result, ok, err}

module _ {w : World} where
  -- A chain that returns went through its first call, which returned too.
  pub after_done {ℓ} :
      {A B : Type ℓ} (p : App w × Outcome A) (f : A → Run w B) (out : App w) (y : B)
      → after p f ≡ (out, done y)
      → (x : A) × ((p.1 ≡ done x) × (f x p.0 ≡ (out, done y)))
  after_done (app, done x) f out y h = (x, (refl, h))
  after_done (app, failed e) f out y h = cc

  -- A failure is not a result.
  pub fail_done {ℓ} :
      {A : Type ℓ} (e : AppError) (app out : App w) (y : A) → fail e app ≡ (out, done y) → ⊥
  fail_done e app out y h = cc

-- Nor is an error an outcome.
pub failed_done {ℓ} : {A : Type ℓ} (e : AppError) (x : A) → failed e ≡ done x → ⊥
failed_done e x h = cc

pub Result-cases {ℓ} :
    {A : Type ℓ} (r : Result A) → ((x : A) × (r ≡ ok x)) ⊎ ((e : StoreError) × (r ≡ err e))
Result-cases (ok x) = inl (x, refl)
Result-cases (err e) = inr (e, refl)
