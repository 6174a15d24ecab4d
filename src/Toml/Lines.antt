-- ===== src/Toml/Lines.antt =====
-- internal/tomlutil: how the lines that the writers print are read.
use cliamp.Base.{
  ℕ, Bool, true, false, not, ◌&&◌, Option, some, [], ◌∷◌, ◌++◌, ◌==◌, ◌≡◌, refl, sym, ap, ◌∙◌,
  arith, Bool-cases, inl, inr,
}
use cliamp.Toml.{
  Text, is_space, is_blank, trim_left, trim_right, trim_space, add_first, split_lines, add_key, cut,
  ends_quoted, unquote, Fields, set_field, set_line, line_read, line_step,
}

-- A text without the rune c.
abbrev pub lacks : ℕ → Text → Bool
lacks c [] = true
lacks c (d ∷ s) = not (d == c) && lacks c s

pub lacks-append :
    (c : ℕ) (s t : Text) → lacks c s ≡ true → lacks c t ≡ true → lacks c (s ++ t) ≡ true
lacks-append c [] t h k = k
lacks-append c (d ∷ s) t h k = ground (arith, h, lacks-append c s t (ground (arith, h)) k)

-- What `%q` prints for a text: quotes around runes without a newline, which `strconv.Unquote` reads.
pub record IsQuote (quote : Text → Text) (strconv_unquote : Text → Option Text) : Type 0 where
  pub inside : Text → Text
  pub quoted : (t : Text) → quote t ≡ 34 ∷ (inside t ++ 34 ∷ [])
  pub one_line : (t : Text) → lacks 10 (inside t) ≡ true
  pub read_back : (t : Text) → strconv_unquote (quote t) ≡ some t

pub split_lines-line :
    (l rest : Text) → lacks 10 l ≡ true → split_lines (l ++ 10 ∷ rest) ≡ l ∷ split_lines rest
unfolding split_lines
split_lines-line [] rest h = refl
split_lines-line (c ∷ l) rest h =
    let other : (c == 10) ≡ false = ground (arith, h) in
    let more = split_lines-line l rest (ground (arith, h)) in rw other (ap (add_first c) more)

append-not_blank : (s : Text) (c : ℕ) (t : Text) → is_blank (s ++ c ∷ t) ≡ false
append-not_blank [] c t = refl
append-not_blank (d ∷ s) c t = refl

trim_right-end : (s : Text) (c : ℕ) → is_space c ≡ false → trim_right (s ++ c ∷ []) ≡ s ++ c ∷ []
unfolding trim_right
trim_right-end [] c h = rw h refl
trim_right-end (d ∷ s) c h =
    let rest = trim_right-end s c h in rw rest (rw (append-not_blank s c []) refl)

-- A text that neither starts nor ends with a space.
pub trim_space-framed :
    (b : ℕ) (s : Text) (c : ℕ)
    → is_space b ≡ false
    → is_space c ≡ false
    → trim_space (b ∷ (s ++ c ∷ [])) ≡ b ∷ (s ++ c ∷ [])
unfolding trim_left
trim_space-framed b s c h k = rw h (trim_right-end (b ∷ s) c k)

ends_quoted-end : (s : Text) → ends_quoted (s ++ 34 ∷ []) ≡ true
ends_quoted-end [] = refl
ends_quoted-end (c ∷ []) = refl
ends_quoted-end (c ∷ d ∷ s) = ends_quoted-end (d ∷ s)

cut-key : (key value : Text) → lacks 61 key ≡ true → cut (key ++ 61 ∷ value) ≡ some (key, value)
unfolding cut
cut-key [] value h = refl
cut-key (c ∷ key) value h =
    let other : (c == 61) ≡ false = ground (arith, h) in
    rw other (ap (add_key c) (cut-key key value (ground (arith, h))))

append_assoc : (s t u : Text) → (s ++ t) ++ u ≡ s ++ (t ++ u)
append_assoc [] t u = refl
append_assoc (c ∷ s) t u = ap (λ x. c ∷ x) (append_assoc s t u)

module _ (quote : Text → Text) (strconv_unquote : Text → Option Text)
    (is_quote : IsQuote quote strconv_unquote) where
  unquote-quote : (t : Text) → unquote strconv_unquote (quote t) ≡ t
  unfolding unquote
  unquote-quote t =
      let back : strconv_unquote (34 ∷ (is_quote.inside t ++ 34 ∷ [])) ≡ some t =
        ap strconv_unquote (sym (is_quote.quoted t)) ∙ is_quote.read_back t in
      rw (is_quote.quoted t) (rw (ends_quoted-end (is_quote.inside t)) (rw back refl))

  pub lacks-quote : (t : Text) → lacks 10 (quote t) ≡ true
  lacks-quote t =
      rw (is_quote.quoted t)
        (lacks-append 10 (is_quote.inside t) (34 ∷ []) (is_quote.one_line t) refl)

  trim_space-quote : (t : Text) → trim_space (32 ∷ quote t) ≡ quote t
  unfolding trim_left
  trim_space-quote t =
      rw (is_quote.quoted t) (trim_space-framed 34 (is_quote.inside t) 34 refl refl)

  line_read-field :
      (section name : Text) (fs : Fields) (c : ℕ) (key value : Text)
      → (c == 35) ≡ false
      → (c == 91) ≡ false
      → lacks 61 (c ∷ key) ≡ true
      → trim_space (c ∷ (key ++ 32 ∷ [])) ≡ c ∷ key
      → line_read strconv_unquote
          (section ∷ [])
          (some (name, fs))
          (c ∷ (key ++ 32 ∷ 61 ∷ 32 ∷ quote value))
        ≡ (some (name, set_field (c ∷ key) value fs), [])
  unfolding line_read set_line
  line_read-field section name fs c key value no_comment no_header no_eq trimmed =
      let flipped : (91 == c) ≡ false = ground (arith, no_header) in
      let apart : cut (c ∷ (key ++ 32 ∷ 61 ∷ 32 ∷ quote value))
          ≡ some (c ∷ (key ++ 32 ∷ []), 32 ∷ quote value) =
        ap (λ k. cut (c ∷ k)) (sym (append_assoc key (32 ∷ []) (61 ∷ 32 ∷ quote value)))
        ∙ cut-key (c ∷ (key ++ 32 ∷ [])) (32 ∷ quote value)
            (lacks-append 61 (c ∷ key) (32 ∷ []) no_eq refl) in
      rw no_comment (
        rw flipped (
          rw no_header
            (rw apart (rw trimmed (rw (trim_space-quote value) (rw (unquote-quote value) refl))))))

  -- A line `key = "value"` in an open section sets the field to the value.
  pub line_step-field :
      (section name : Text) (fs : Fields) (c : ℕ) (key value : Text)
      → is_space c ≡ false
      → (c == 35) ≡ false
      → (c == 91) ≡ false
      → lacks 61 (c ∷ key) ≡ true
      → trim_space (c ∷ (key ++ 32 ∷ [])) ≡ c ∷ key
      → line_step strconv_unquote
          (section ∷ [])
          (some (name, fs))
          (c ∷ (key ++ 32 ∷ 61 ∷ 32 ∷ quote value))
        ≡ (some (name, set_field (c ∷ key) value fs), [])
  unfolding line_step
  line_step-field section name fs c key value no_space no_comment no_header no_eq trimmed =
      let before : Text = key ++ 32 ∷ 61 ∷ 32 ∷ 34 ∷ is_quote.inside value in
      let framed : c ∷ (key ++ 32 ∷ 61 ∷ 32 ∷ quote value) ≡ c ∷ (before ++ 34 ∷ []) =
        ap (λ q. c ∷ (key ++ 32 ∷ 61 ∷ 32 ∷ q)) (is_quote.quoted value)
        ∙ ap (λ x. c ∷ x)
            (sym (append_assoc key (32 ∷ 61 ∷ 32 ∷ 34 ∷ is_quote.inside value) (34 ∷ []))) in
      let whole : trim_space (c ∷ (key ++ 32 ∷ 61 ∷ 32 ∷ quote value))
          ≡ c ∷ (key ++ 32 ∷ 61 ∷ 32 ∷ quote value) =
        ap trim_space framed ∙ (trim_space-framed c before 34 no_space refl ∙ sym framed) in
      ap (line_read strconv_unquote (section ∷ []) (some (name, fs))) whole
      ∙ line_read-field section name fs c key value no_comment no_header no_eq trimmed

trim_right-twice : (t : Text) → trim_right (trim_right t) ≡ trim_right t
unfolding trim_right
trim_right-twice [] = refl
trim_right-twice (c ∷ cs) = elim (Bool-cases (is_blank (trim_right cs) && is_space c)) [
  | inl e ↦ rw e refl
  | inr e ↦ rw e (rw (trim_right-twice cs) (rw e refl))
]

trim_left-trim_space : (t : Text) → trim_left (trim_space t) ≡ trim_space t
unfolding trim_left trim_right
trim_left-trim_space [] = refl
trim_left-trim_space (c ∷ cs) = elim (Bool-cases (is_space c)) [
  | inl e ↦ rw e (trim_left-trim_space cs)
  | inr e ↦
      let kept : (is_blank (trim_right cs) && is_space c) ≡ false = ground (arith, e) in
      rw e (rw kept (rw e refl))
]

pub trim_space-twice : (t : Text) → trim_space (trim_space t) ≡ trim_space t
trim_space-twice t = ap trim_right (trim_left-trim_space t) ∙ trim_right-twice (trim_left t)
