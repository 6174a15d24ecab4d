-- ===== src/Base/Slices.antt =====
-- A Go slice: its elements, and whether it is the nil slice. Only tests against nil tell a nil
-- slice from an empty one.
use mathlib.Core.Bool.{Bool, true, false, ◌&&◌}
use mathlib.Core.List.{List, [], ◌∷◌, ◌++◌}

pub record Slice {ℓ} (A : Type ℓ) : Type ℓ where
  pub items : List A
  pub is_nil : Bool

module _ {ℓ} {A : Type ℓ} where
  abbrev pub nil_slice : Slice A
  nil_slice = record { items = []; is_nil = true }

  -- `make`, or a literal.
  abbrev pub made : List A → Slice A
  made xs = record { items = xs; is_nil = false }

  -- New contents in the same slice header: a write, a reslice, `slices.Delete`, `slices.Clone`.
  abbrev pub with_items : Slice A → List A → Slice A
  with_items s xs = record s { items = xs }

  abbrev pub is_empty : List A → Bool
  is_empty [] = true
  is_empty (x ∷ xs) = false

  -- `append(s, xs...)`, which leaves a nil slice nil if it adds nothing.
  abbrev pub append_items : Slice A → List A → Slice A
  append_items s xs = record { items = s.items ++ xs; is_nil = s.is_nil && is_empty xs }
