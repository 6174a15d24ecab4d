-- ===== src/Base/Outcomes.antt =====
-- Code that may panic: `panic` is Go's run-time panic on an index out of range.
use mathlib.Core.Path.{◌≡◌, refl}
use mathlib.Core.Option.{Option, none, some}
use mathlib.Core.List.{List}
use cliamp.Base.Lists.{get_elem?, length, get_elem?-some}
use Prim.Native.Nat.{ℕ, ◌<◌}

pub data Outcome {ℓ} (A : Type ℓ) : Type ℓ where
  ok : A → Outcome A
  panic : Outcome A

infixl 5 ◌>>=◌
abbrev pub ◌>>=◌ {ℓ κ} : {A : Type ℓ} {B : Type κ} → Outcome A → (A → Outcome B) → Outcome B
ok a >>= f = f a
panic >>= f = panic

abbrev pub of_option {ℓ} : {A : Type ℓ} → Option A → Outcome A
of_option none = panic
of_option (some a) = ok a

-- The index expression `xs[i]`.
abbrev pub index {ℓ} : {A : Type ℓ} → List A → ℕ → Outcome A
index xs i = of_option (get_elem? xs i)

pub >>=-eq-ok {ℓ κ} :
    {A : Type ℓ} {B : Type κ} (first : Outcome A) (rest : A → Outcome B) {end : B}
    → (first >>= rest) ≡ ok end
    → (mid : A) × (first ≡ ok mid) × (rest mid ≡ ok end)
>>=-eq-ok (ok mid) rest returns = (mid, refl, returns)
>>=-eq-ok panic rest returns = cc

pub index-ok {ℓ} :
    {A : Type ℓ} (xs : List A) (i : ℕ) → i < length xs → (a : A) × (index xs i ≡ ok a)
index-ok xs i h = let (a, e) = get_elem?-some xs i h in (a, rw e)
