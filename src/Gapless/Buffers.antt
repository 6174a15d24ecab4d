-- ===== src/Gapless/Buffers.antt =====
-- player/gapless.go: what `Stream` leaves in its buffer, whatever methods run while it reads.
use cliamp.Base.{
  ℕ, ◌+◌, ◌-◌, ◌<◌, ◌≡◌, ◌⊎◌, Bool, true, false, Option, none, some, List, [], ◌∷◌, ◌++◌, length,
}
use cliamp.Gapless.{Streamer, silent}
use cliamp.Gapless.Transitions.{Method, sets_next, replacements}

-- The source that the last `SetNext` gave, or else the one given on.
abbrev pub prepared : List Method → Option ℕ → Option ℕ
prepared [] s = s
prepared (sets_next s ∷ ms) _ = prepared ms s
prepared (_ ∷ ms) s = prepared ms s

-- What a buffer holds behind a `Stream`.
pub data Content {ℓ} {A : Type ℓ} (silence : A) (len : ℕ) (g : Streamer) (ms : List Method)
    (goes_on : Bool) (xs ys b : List A) : Type ℓ where
  no_source : g.current ≡ none → b ≡ silent silence len → Content silence len g ms goes_on xs ys b
  whole : goes_on ≡ true → length xs ≡ len → b ≡ xs → Content silence len g ms goes_on xs ys b
  overtaken :
      0 < replacements ms
      → b ≡ xs ++ silent silence (len - length xs)
      → Content silence len g ms goes_on xs ys b
  continued :
      (s : ℕ)
      → replacements ms ≡ 0
      → prepared ms g.next ≡ some s
      → (goes_on ≡ false) ⊎ (length xs < len)
      → b ≡ xs ++ ys ++ silent silence (len - (length xs + length ys))
      → Content silence len g ms goes_on xs ys b
  dry :
      replacements ms ≡ 0
      → prepared ms g.next ≡ none
      → (goes_on ≡ false) ⊎ (length xs < len)
      → b ≡ xs ++ silent silence (len - length xs)
      → Content silence len g ms goes_on xs ys b
