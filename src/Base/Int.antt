-- ===== src/Base/Int.antt =====
-- Go's signed `int` as it is passed to the playlist's operations, and the test `i < 0 || i >= n`.
use cliamp.Base.Tests.{ltb, if◌then◌else◌}
use Prim.Native.Nat.{ℕ, ◌<◌}
use mathlib.Core.Path.{◌≡◌}
use mathlib.Core.Option.{Option, none, some}
use native.Mathlib.Omega.{arith}

-- `negsuc n` is -(n + 1).
pub data ℤ : Type 0 where
  pos : ℕ → ℤ
  negsuc : ℕ → ℤ

-- The guard `if i < 0 || i >= n`: `none` where it fires, the index otherwise.
abbrev pub index_in : ℤ → ℕ → Option ℕ
index_in (pos i) n = if ltb i n then some i else none
index_in (negsuc i) n = none

-- `max(0, i)`.
abbrev pub to_ℕ : ℤ → ℕ
to_ℕ (pos i) = i
to_ℕ (negsuc i) = 0

pub index_in-lt : (z : ℤ) (n : ℕ) {i : ℕ} → index_in z n ≡ some i → i < n
index_in-lt (pos j) n h = ground arith
index_in-lt (negsuc j) n h = absurd (ground arith)
