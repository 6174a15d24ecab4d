-- ===== src/Base/Permutations.antt =====
-- Lists that hold each of the numbers 0 to n - 1 once: the play orders of n tracks.
use cliamp.Base.Tests.{◌==◌, ltb, if◌then◌else◌, Bool-cases}
use cliamp.Base.Lists.{length, get_elem?, range, range_from, length-range_from, length-append}
use cliamp.Base.Counts.{count, count-append, count-range_from, count-pos}
use Prim.Native.Nat.{ℕ, suc, ◌+◌, ◌<◌}
use mathlib.Core.Path.{◌≡◌, ◌∙◌}
use mathlib.Core.Logic.{inl, inr}
use mathlib.Core.Option.{some}
use mathlib.Core.List.{List, [], ◌∷◌, ◌++◌}
use native.Mathlib.Omega.{arith}

pub record IsPermutation (xs : List ℕ) (n : ℕ) : Type 0 where
  pub length_eq : length xs ≡ n
  pub counts : (a : ℕ) → count a xs ≡ (if ltb a n then 1 else 0)

-- Every entry is below n.
pub IsPermutation-lt :
    (xs : List ℕ) (n i : ℕ) {a : ℕ} → IsPermutation xs n → get_elem? xs i ≡ some a → a < n
IsPermutation-lt xs n i {a} h e = ground (arith, h.counts a, count-pos a xs i e)

-- A number that is counted stands somewhere.
pub get_elem?-count :
    (a : ℕ) (xs : List ℕ) → 0 < count a xs → (i : ℕ) × (i < length xs) × (get_elem? xs i ≡ some a)
get_elem?-count a [] h = absurd (omega arith)
get_elem?-count a (x ∷ xs) h = elim (Bool-cases (x == a)) [
  | inl e ↦ (0, omega arith, ground arith)
  | inr e ↦ let (i, l, g) = get_elem?-count a xs (ground arith) in (suc i, omega arith, g)
]

-- Every number below n stands in the list.
pub IsPermutation-get_elem? :
    (xs : List ℕ) (n a : ℕ)
    → IsPermutation xs n
    → a < n
    → (i : ℕ) × (i < length xs) × (get_elem? xs i ≡ some a)
IsPermutation-get_elem? xs n a h l = get_elem?-count a xs (ground (arith, h.counts a))

pub range-IsPermutation : (n : ℕ) → IsPermutation (range n) n
range-IsPermutation n = record {
  length_eq = length-range_from 0 n;
  counts = λ a. ground (arith, count-range_from a 0 n);
}

-- The next k numbers appended.
pub append-IsPermutation :
    (xs : List ℕ) (n k : ℕ) → IsPermutation xs n → IsPermutation (xs ++ range_from n k) (n + k)
append-IsPermutation xs n k h = record {
  length_eq = omega (arith, length-append xs (range_from n k), length-range_from n k, h.length_eq);
  counts =
      λ a. ground (arith, count-append a xs (range_from n k), count-range_from a n k, h.counts a);
}

-- A list with the same counts and length.
pub IsPermutation-of_counts :
    (xs ys : List ℕ) (n : ℕ)
    → length ys ≡ length xs
    → ((a : ℕ) → count a ys ≡ count a xs)
    → IsPermutation xs n
    → IsPermutation ys n
IsPermutation-of_counts xs ys n l c h = record {
  length_eq = l ∙ h.length_eq;
  counts = λ a. c a ∙ h.counts a;
}
