-- ===== src/Base/Texts.antt =====
-- Texts as their code points, which are their bytes where they are ASCII, with the tests of Go's
-- `strings` package that the code makes of them.
use Prim.Native.Char.{code}
use Prim.Native.String.{String}
use Prim.Native.Nat.{ℕ}
use mathlib.Core.Bool.{Bool, true, false, ◌&&◌, ◌||◌}
use mathlib.Core.List.{List, [], ◌∷◌}
use cliamp.Base.Tests.{ltb, ◌==◌}

abbrev pub codes : String → List ℕ
codes String.[] = []
codes (String.◌∷◌ c s) = code c ∷ codes s

-- `strings.HasPrefix(s, prefix)`.
abbrev pub has_prefix : List ℕ → List ℕ → Bool
has_prefix s [] = true
has_prefix [] (p ∷ prefix) = false
has_prefix (c ∷ s) (p ∷ prefix) = c == p && has_prefix s prefix

-- `strings.HasSuffix(s, c)` for one byte.
abbrev pub ends_with : List ℕ → ℕ → Bool
ends_with [] b = false
ends_with (c ∷ []) b = c == b
ends_with (c ∷ d ∷ s) b = ends_with (d ∷ s) b

-- `strings.Contains(s, sub)`.
abbrev pub contains_text : List ℕ → List ℕ → Bool
contains_text [] sub = has_prefix [] sub
contains_text (c ∷ s) sub = has_prefix (c ∷ s) sub || contains_text s sub

-- `a <= b` on strings: bytewise, a proper prefix first.
abbrev pub text_leb : List ℕ → List ℕ → Bool
text_leb [] t = true
text_leb (c ∷ s) [] = false
text_leb (c ∷ s) (d ∷ t) = ltb c d || (c == d && text_leb s t)
