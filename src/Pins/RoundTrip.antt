-- ===== src/Pins/RoundTrip.antt =====
-- external/radio/pins.go: `loadPlaces` on the file that `save` writes.
use cliamp.Base.{
  true, false, Option, none, some, List, [], ◌∷◌, ◌++◌, if◌then◌else◌, ◌≡◌, refl, sym, ap, ◌∙◌,
  arith, Bool-cases, All, All-append, inl, inr,
}
use cliamp.Base.Texts.{codes}
use cliamp.Toml.{
  Text, is_blank, trim_left, trim_right, trim_space, split_lines, Fields, set_field, field, header,
  Open, flush, line_read, line_step, parse_lines, parse_named_sections, second_all, parse_sections,
}
use cliamp.Toml.Lines.{lacks, lacks-append, IsQuote, split_lines-line, lacks-quote, line_step-field}
use cliamp.Pins.{
  Place, normalize_country_code, quoted_line, place_lines, more_lines, all_lines, print_lines, save,
  checked_place, place_of, places_of, load_places,
}

-- What `loadPlaces` leaves as it is.
pub record IsTidy (p : Place) : Type 0 where
  pub code_eq : normalize_country_code p.code ≡ p.code
  pub has_code : is_blank p.code ≡ false
  pub has_name : is_blank p.name ≡ false
  pub state_eq : trim_space p.state ≡ p.state

abbrev OneLine : Text → Type 0
OneLine l = lacks 10 l ≡ true

split_lines-print_lines :
    (ls : List Text) → All OneLine ls → split_lines (print_lines ls) ≡ ls ++ [] ∷ []
unfolding split_lines
split_lines-print_lines [] h = refl
split_lines-print_lines (l ∷ ls) h =
    split_lines-line l (print_lines ls) h.0 ∙ ap (λ x. l ∷ x) (split_lines-print_lines ls h.1)

-- The section of a place.
abbrev fields : Place → Fields
fields p =
    (codes "code", p.code)
    ∷ (codes "name", p.name)
    ∷ (if is_blank p.state then [] else (codes "state", p.state) ∷ [])

abbrev section : Place → Text × Fields
section p = (codes "country", fields p)

abbrev sections : List Place → List (Text × Fields)
sections [] = []
sections (p ∷ ps) = section p ∷ sections ps

is_blank-nil : (t : Text) → is_blank t ≡ true → t ≡ []
is_blank-nil [] h = refl
is_blank-nil (c ∷ t) h = absurd (ground (arith, h))

field-state : (p : Place) → field (codes "state") (fields p) ≡ p.state
unfolding field
field-state p = elim (Bool-cases (is_blank p.state)) [
  | inl e ↦ rw e (sym (is_blank-nil p.state e))
  | inr e ↦ rw e refl
]

place_of-fields : (p : Place) → IsTidy p → place_of (fields p) ≡ some p
unfolding place_of field
place_of-fields p h =
    let state : trim_space (field (codes "state") (fields p)) ≡ p.state =
      ap trim_space (field-state p) ∙ h.state_eq in
    let same : place_of (fields p) ≡ checked_place p.code p.name p.state =
      ap (checked_place (normalize_country_code p.code) p.name) state
      ∙ ap (λ c. checked_place c p.name p.state) h.code_eq in
    same ∙ rw h.has_code (rw h.has_name refl)

places_of-sections : (ps : List Place) → All IsTidy ps → places_of (second_all (sections ps)) ≡ ps
places_of-sections [] h = refl
places_of-sections (p ∷ ps) h =
    rw (place_of-fields p h.0) (ap (λ x. p ∷ x) (places_of-sections ps h.1))

append_lines : (a b c : List Text) → (a ++ b) ++ c ≡ a ++ (b ++ c)
append_lines [] b c = refl
append_lines (x ∷ a) b c = ap (λ y. x ∷ y) (append_lines a b c)

module _ (quote : Text → Text) (strconv_unquote : Text → Option Text)
    (is_quote : IsQuote quote strconv_unquote) where
  quoted_line-OneLine : (key value : Text) → OneLine key → OneLine (quoted_line quote key value)
  quoted_line-OneLine key value h =
      lacks-append 10 key _ h (ground (arith, lacks-quote quote strconv_unquote is_quote value))

  place_lines-OneLine : (p : Place) → All OneLine (place_lines quote p)
  place_lines-OneLine p =
      let code = quoted_line-OneLine (codes "code") p.code refl in
      let name = quoted_line-OneLine (codes "name") p.name refl in
      let state = quoted_line-OneLine (codes "state") p.state refl in
      elim (Bool-cases (is_blank p.state)) [
        | inl e ↦ rw e (refl, (code, (name, tt)))
        | inr e ↦ rw e (refl, (code, (name, (state, tt))))
      ]

  more_lines-OneLine : (ps : List Place) → All OneLine (more_lines quote ps)
  more_lines-OneLine [] = tt
  more_lines-OneLine (p ∷ ps) = (
    refl,
    All-append OneLine (place_lines quote p) _ (place_lines-OneLine p) (more_lines-OneLine ps),
  )

  abbrev parse : Open → List Text → List (Text × Fields)
  parse = parse_lines strconv_unquote (codes "country" ∷ [])

  parse-line :
      (st st' : Open) (l : Text) (out : List (Text × Fields)) (rest : List Text)
      → line_step strconv_unquote (codes "country" ∷ []) st l ≡ (st', out)
      → parse st (l ∷ rest) ≡ out ++ parse st' rest
  unfolding parse_lines
  parse-line st st' l out rest e = ap (λ x. x.1 ++ parse x.0 rest) e

  header-step :
      (st : Open)
      → line_step strconv_unquote (codes "country" ∷ []) st (header (codes "country"))
        ≡ (some (codes "country", []), flush st)
  unfolding line_step line_read trim_left trim_right
  header-step st = refl

  -- The line of the state, if there is one.
  parse-state :
      (p : Place) (rest : List Text)
      → let known : Fields = (codes "code", p.code) ∷ (codes "name", p.name) ∷ [] in
        parse (some (codes "country", known)) (
          (if is_blank p.state then [] else quoted_line quote (codes "state") p.state ∷ []) ++ rest)
        ≡ parse (some (section p)) rest
  unfolding set_field trim_left trim_right
  parse-state p rest = elim (Bool-cases (is_blank p.state)) [
    | inl e ↦ rw e refl
    | inr e ↦ rw e (
        parse-line _ _ _ [] rest (
          line_step-field quote strconv_unquote is_quote (codes "country") (codes "country")
            ((codes "code", p.code) ∷ (codes "name", p.name) ∷ []) 115 (codes "tate") p.state refl
            refl refl refl refl))
  ]

  parse-place :
      (st : Open) (p : Place) (rest : List Text)
      → parse st (place_lines quote p ++ rest) ≡ flush st ++ parse (some (section p)) rest
  unfolding set_field trim_left trim_right
  parse-place st p rest =
      let name : Text = codes "country" in
      let code_line =
        line_step-field quote strconv_unquote is_quote name name [] 99 (codes "ode") p.code refl
          refl refl refl refl in
      let name_line =
        line_step-field quote strconv_unquote is_quote name name ((codes "code", p.code) ∷ []) 110
          (codes "ame") p.name refl refl refl refl refl in
      parse-line st _ (header name) (flush st) _ (header-step st)
      ∙ ap (λ x. flush st ++ x)
          (parse-line _ _ (quoted_line quote (codes "code") p.code) [] _ code_line
            ∙ (parse-line _ _ (quoted_line quote (codes "name") p.name) [] _ name_line
                ∙ parse-state p rest))

  parse-more :
      (s : Text × Fields) (ps : List Place)
      → parse (some s) (more_lines quote ps ++ [] ∷ []) ≡ s ∷ sections ps
  unfolding parse_lines line_step line_read trim_left trim_right
  parse-more s [] = refl
  parse-more s (p ∷ ps) =
      ap (parse (some s)) (append_lines ([] ∷ place_lines quote p) (more_lines quote ps) ([] ∷ []))
      ∙ (parse-place (some s) p (more_lines quote ps ++ [] ∷ [])
          ∙ ap (λ x. s ∷ x) (parse-more (section p) ps))

  parse-all : (ps : List Place) → parse none (all_lines quote ps ++ [] ∷ []) ≡ sections ps
  unfolding parse_lines line_step line_read trim_left trim_right
  parse-all [] = refl
  parse-all (p ∷ ps) =
      ap (parse none) (append_lines (place_lines quote p) (more_lines quote ps) ([] ∷ []))
      ∙ (parse-place none p (more_lines quote ps ++ [] ∷ []) ∙ parse-more (section p) ps)

  all_lines-OneLine : (ps : List Place) → All OneLine (all_lines quote ps)
  all_lines-OneLine [] = tt
  all_lines-OneLine (p ∷ ps) =
      All-append OneLine (place_lines quote p) _ (place_lines-OneLine p) (more_lines-OneLine ps)

  -- If `%q` prints texts on one line and `strconv.Unquote` reads them back, `loadPlaces` reads exactly the list that
  -- `save` has written, with whatever runes the names hold, provided that each place has a code in its
  -- normal form, a name, and a state without spaces around it.
  pub load_places-save :
      (ps : List Place) → All IsTidy ps → load_places strconv_unquote (some (save quote ps)) ≡ ps
  unfolding load_places save parse_sections parse_named_sections
  load_places-save ps h =
      ap (λ ls. places_of (second_all (parse none ls)))
        (split_lines-print_lines (all_lines quote ps) (all_lines-OneLine ps))
      ∙ (ap (λ ss. places_of (second_all ss)) (parse-all ps) ∙ places_of-sections ps h)
