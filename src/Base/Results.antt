-- ===== src/Base/Results.antt =====
-- A value or an error, for Go's `(T, error)` returns.
use mathlib.Core.Bool.{Bool, true, false}

pub data Result {ℓ κ} (E : Type ℓ) (A : Type κ) : Type (ℓ ⊔ κ) where
  success : A → Result E A
  failure : E → Result E A

abbrev pub is_success {ℓ κ} : {E : Type ℓ} {A : Type κ} → Result E A → Bool
is_success (success a) = true
is_success (failure e) = false
