-- ===== src/Base/Outcome.antt =====
-- The outcome of a C function: a result, an access outside the object it names (undefined
-- behaviour), or a loop that has used up the fuel it was given.
use mathlib.Core.Path.{◌≡◌, refl, subst}

pub data Run {ℓ} (A : Type ℓ) : Type ℓ where
  ok : A → Run A
  fault : Run A
  out_of_fuel : Run A

infixl 5 ◌>>=◌
abbrev pub ◌>>=◌ {κ ℓ} : {X : Type κ} {Y : Type ℓ} → Run X → (X → Run Y) → Run Y
ok x >>= next = next x
fault >>= next = fault
out_of_fuel >>= next = out_of_fuel

-- A run that ends with a result for which `P` holds.
pub data Returns {κ ℓ} {X : Type κ} (P : X → Type ℓ) : Run X → Type (κ ⊔ ℓ) where
  returns : {x : X} → P x → Returns P (ok x)

module _ {κ ℓ} {X : Type κ} {P : X → Type ℓ} where
  pub Returns-mono {ℓ'} :
      {run : Run X} {Q : X → Type ℓ'} → Returns P run → ((x : X) → P x → Q x) → Returns Q run
  Returns-mono (returns good) weaken = returns (weaken _ good)

  pub Returns-inv : {run : Run X} → Returns P run → (x : X) × (run ≡ ok x) × P x
  Returns-inv (returns {x} good) = (x, refl, good)

  pub Returns-bind {κ' ℓ'} :
      {Y : Type κ'} {run : Run X} {next : X → Run Y} {Q : Y → Type ℓ'}
      → Returns P run
      → ((x : X) → P x → Returns Q (next x))
      → Returns Q (run >>= next)
  Returns-bind (returns good) continue = continue _ good

  Returns_ok : {x : X} → Returns P (ok x) → P x
  Returns_ok (returns good) = good

  pub Returns_at : {run : Run X} {x : X} → Returns P run → run ≡ ok x → P x
  Returns_at h e = Returns_ok (subst (Returns P) e h)
