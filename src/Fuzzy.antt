-- ===== src/Fuzzy.antt =====
-- internal/fuzzy/fuzzy.go: the relevance score of a case-insensitive subsequence match. A string is
-- the list of its code points, and `unicode.ToLower` is the parameter `to_lower`.
use cliamp.Base.{
  ℕ, ◌+◌, ◌<◌, ◌≡◌, refl, Bool, true, false, ◌||◌, Option, none, some, List, [], ◌∷◌, ◌==◌, ◌≢◌,
  if◌then◌else◌, arith, Bool-cases, inl, inr,
}

-- `scoreMatch`, `bonusFirstChar`, `bonusBoundary` and `bonusConsecutive`.
abbrev score_match : ℕ
score_match = 1

abbrev bonus_first_char : ℕ
bonus_first_char = 6

abbrev bonus_boundary : ℕ
bonus_boundary = 4

abbrev bonus_consecutive : ℕ
bonus_consecutive = 4

-- `isSeparator`: space, - _ / \ . : ( ) [ ]
is_separator : ℕ → Bool
is_separator r =
    r == 32
    || r == 45
    || r == 95
    || r == 47
    || r == 92
    || r == 46
    || r == 58
    || r == 40
    || r == 41
    || r == 91
    || r == 93

-- What one matched rune adds: `first` is `ti == 0`, `run` is `ti == lastMatch+1`.
gain : Bool → ℕ → Bool → ℕ
unfolding is_separator
gain first prev run =
    score_match
    + (if first then bonus_first_char else if is_separator prev then bonus_boundary else 0)
    + (if run then bonus_consecutive else 0)

gain-lt : (first : Bool) (prev : ℕ) (run : Bool) (score : ℕ) → score < score + gain first prev run
unfolding gain
gain-lt first prev run score = omega arith

module _ (to_lower : ℕ → ℕ) where
  -- The loop over `target` at its rune `ti`, with the query runes that are left, the current one
  -- first. `run` is `ti == lastMatch+1`, which holds after a match only (`lastMatch` is -2 at first).
  scan : ℕ → List ℕ → ℕ → Bool → ℕ → ℕ → List ℕ → Option ℕ
  unfolding gain
  scan q qs ti run prev score [] = none
  scan q [] ti run prev score (r ∷ target) =
      let missed = scan q [] (ti + 1) false r score target in
      if to_lower r == to_lower q then some (score + gain (ti == 0) prev run) else missed
  scan q (q' ∷ qs) ti run prev score (r ∷ target) =
      let matched = scan q' qs (ti + 1) true r (score + gain (ti == 0) prev run) target in
      let missed = scan q (q' ∷ qs) (ti + 1) false r score target in
      if to_lower r == to_lower q then matched else missed

  -- `Match`: the score, or `none` for `0, false`.
  pub fuzzy_match : List ℕ → List ℕ → Option ℕ
  unfolding scan
  fuzzy_match [] target = some 0
  fuzzy_match (q ∷ qs) target = scan q qs 0 false 0 0 target

  -- The folded query is a subsequence of the folded target.
  pub data Subsequence : List ℕ → List ℕ → Type 0 where
    done : {target : List ℕ} → Subsequence [] target
    take_rune :
        {q r : ℕ} {qs target : List ℕ}
        → to_lower r ≡ to_lower q
        → Subsequence qs target
        → Subsequence (q ∷ qs) (r ∷ target)
    skip_rune : {r : ℕ} {qs target : List ℕ} → Subsequence qs target → Subsequence qs (r ∷ target)

  Subsequence-tail :
      {q : ℕ} {qs target : List ℕ} → Subsequence (q ∷ qs) target → Subsequence qs target
  Subsequence-tail (take_rune e s) = skip_rune s
  Subsequence-tail (skip_rune s) = skip_rune (Subsequence-tail s)

  Subsequence-step :
      {q r : ℕ} {qs target : List ℕ} → Subsequence (q ∷ qs) (r ∷ target) → Subsequence qs target
  Subsequence-step (take_rune e s) = s
  Subsequence-step (skip_rune s) = Subsequence-tail s

  Subsequence-skip :
      {q r : ℕ} {qs target : List ℕ}
      → (to_lower r == to_lower q) ≡ false
      → Subsequence (q ∷ qs) (r ∷ target)
      → Subsequence (q ∷ qs) target
  Subsequence-skip e (take_rune f s) = absurd (ground arith)
  Subsequence-skip e (skip_rune s) = s

  scan-Subsequence :
      (q : ℕ) (qs : List ℕ) (ti : ℕ) (run : Bool) (prev score : ℕ) (target : List ℕ) (s : ℕ)
      → scan q qs ti run prev score target ≡ some s
      → Subsequence (q ∷ qs) target
  unfolding scan
  scan-Subsequence q qs ti run prev score [] s h = absurd (ground arith)
  scan-Subsequence q [] ti run prev score (r ∷ target) s h =
      elim (Bool-cases (to_lower r == to_lower q)) [
        | inl e ↦ take_rune (ground arith) done
        | inr e ↦ skip_rune (scan-Subsequence q [] _ _ _ _ target s (rw e at h))
      ]
  scan-Subsequence q (q' ∷ qs) ti run prev score (r ∷ target) s h =
      elim (Bool-cases (to_lower r == to_lower q)) [
        | inl e ↦ take_rune (ground arith) (scan-Subsequence q' qs _ _ _ _ target s (rw e at h))
        | inr e ↦ skip_rune (scan-Subsequence q (q' ∷ qs) _ _ _ _ target s (rw e at h))
      ]

  Subsequence-scan :
      (q : ℕ) (qs : List ℕ) (ti : ℕ) (run : Bool) (prev score : ℕ) (target : List ℕ)
      → Subsequence (q ∷ qs) target
      → (s : ℕ) × (scan q qs ti run prev score target ≡ some s) × (score < s)
  unfolding scan gain
  Subsequence-scan q [] ti run prev score [] h = elim h [ ]
  Subsequence-scan q (q' ∷ qs) ti run prev score [] h = elim h [ ]
  Subsequence-scan q [] ti run prev score (r ∷ target) h =
      elim (Bool-cases (to_lower r == to_lower q)) [
        | inl e ↦ (score + gain (ti == 0) prev run, rw e refl, gain-lt (ti == 0) prev run score)
        | inr e ↦
            let (s, f, l) =
              Subsequence-scan q [] (ti + 1) false r score target (Subsequence-skip e h) in
            (s, rw e f, l)
      ]
  Subsequence-scan q (q' ∷ qs) ti run prev score (r ∷ target) h =
      elim (Bool-cases (to_lower r == to_lower q)) [
        | inl e ↦
            let (s, f, l) =
              Subsequence-scan q' qs (ti + 1) true r (score + gain (ti == 0) prev run) target
                (Subsequence-step h) in
            (s, rw e f, omega (arith, gain-lt (ti == 0) prev run score))
        | inr e ↦
            let (s, f, l) =
              Subsequence-scan q (q' ∷ qs) (ti + 1) false r score target (Subsequence-skip e h) in
            (s, rw e f, l)
      ]

  -- `Match` scores a target if and only if the query is a subsequence of it, letter case folded, and
  -- the score of a query that is not empty is positive.
  pub fuzzy_match-Subsequence :
      (query target : List ℕ)
      → ((s : ℕ) → fuzzy_match query target ≡ some s → Subsequence query target)
        × (Subsequence query target → (s : ℕ) × (fuzzy_match query target ≡ some s))
        × ((s : ℕ) → query ≢ [] → fuzzy_match query target ≡ some s → 0 < s)
  unfolding fuzzy_match
  fuzzy_match-Subsequence [] target = (λ s h. done, λ h. (0, refl), λ s ne h. absurd (ne refl))
  fuzzy_match-Subsequence (q ∷ qs) target = (
    λ s h. scan-Subsequence q qs 0 false 0 0 target s h,
    λ h. let (s, e, l) = Subsequence-scan q qs 0 false 0 0 target h in (s, e),
    λ s ne h.
        let (s', e, l) =
          Subsequence-scan q qs 0 false 0 0 target (scan-Subsequence q qs 0 false 0 0 target s h) in
        ground (arith, e, h, l),
  )
