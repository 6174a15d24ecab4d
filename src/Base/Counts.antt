-- ===== src/Base/Counts.antt =====
-- How often a number stands in a list, and what rearranging a list does to that.
use cliamp.Base.Tests.{◌==◌, ltb, leb, if◌then◌else◌}
use cliamp.Base.Lists.{get_elem?, set, range_from}
use Prim.Native.Nat.{ℕ, zero, suc, ◌+◌, ◌<◌}
use mathlib.Core.Path.{◌≡◌}
use mathlib.Core.Bool.{◌&&◌}
use mathlib.Core.Option.{some}
use mathlib.Core.List.{List, [], ◌∷◌, ◌++◌}
use native.Mathlib.Omega.{arith}

abbrev pub count : ℕ → List ℕ → ℕ
count a [] = 0
count a (x ∷ xs) = (if x == a then 1 else 0) + count a xs

pub count-append :
    (n : ℕ) (front back : List ℕ) → count n (front ++ back) ≡ count n front + count n back
count-append n [] back = omega arith
count-append n (m ∷ front) back = omega (arith, count-append n front back)

pub count-set :
    (a : ℕ) (xs : List ℕ) (i v : ℕ) {x : ℕ}
    → get_elem? xs i ≡ some x
    → count a (set xs i v) + (if x == a then 1 else 0) ≡ count a xs + (if v == a then 1 else 0)
count-set a [] i v h = absurd (ground arith)
count-set a (y ∷ ys) zero v h = ground arith
count-set a (y ∷ ys) (suc i) v h = omega (arith, count-set a ys i v h)

-- The numbers from `i` on, `k` of them, hold each of these numbers once and no other.
pub count-range_from :
    (a i k : ℕ) → count a (range_from i k) ≡ (if leb i a && ltb a (i + k) then 1 else 0)
count-range_from a i zero = ground arith
count-range_from a i (suc k) = ground (arith, count-range_from a (i + 1) k)

-- A number that stands at some place is counted.
pub count-pos : (a : ℕ) (xs : List ℕ) (i : ℕ) → get_elem? xs i ≡ some a → 0 < count a xs
count-pos a [] i h = absurd (ground arith)
count-pos a (x ∷ xs) zero h = ground arith
count-pos a (x ∷ xs) (suc i) h = omega (arith, count-pos a xs i h)
