-- ===== src/Pins/Toggling.antt =====
-- external/radio/pins.go: `Toggle` and the file.
use cliamp.Base.{
  ℕ, Bool, true, false, not, ◌&&◌, ◌||◌, Option, none, some, List, [], ◌∷◌, ◌++◌, ◌==◌, ◌≡◌, refl,
  sym, ap, ◌∙◌, arith, Bool-cases, Option-cases, All, All-append, inl, inr,
}
use cliamp.Base.Texts.{codes}
use cliamp.Base.Results.{success}
use cliamp.Toml.{Text, is_space, is_blank, trim_space, text_eq, Fields, field, parse_sections}
use cliamp.Toml.Lines.{IsQuote, trim_space-framed, trim_space-twice}
use cliamp.Pins.{
  Place, id, normalize_country_code, two_letters, known_letters, is_upper, to_upper, checked_place,
  place_of, places_of, load_places, contains, delete_place, Toggled, toggled_places, no_fault,
  toggle,
}
use cliamp.Pins.RoundTrip.{IsTidy, load_places-save}

letters-normal :
    (x y : ℕ)
    → is_upper x ≡ true
    → is_upper y ≡ true
    → (x == 88 && y == 88) ≡ false
    → normalize_country_code (x ∷ y ∷ []) ≡ x ∷ y ∷ []
unfolding normalize_country_code
letters-normal x y h k unknown =
    let no_space : is_space x ≡ false = ground (arith, h) in
    let no_space' : is_space y ≡ false = ground (arith, k) in
    let same : to_upper x ≡ x = ground (arith, h) in
    let same' : to_upper y ≡ y = ground (arith, k) in
    ap two_letters (trim_space-framed x [] y no_space no_space')
    ∙ rw same (rw same' (rw unknown (rw h (rw k refl))))

known_letters-normal :
    (x y : ℕ)
    → is_blank (known_letters x y) ≡ false
    → normalize_country_code (known_letters x y) ≡ known_letters x y
known_letters-normal x y h =
    elim (Bool-cases ((x == 88 && y == 88) || not (is_upper x && is_upper y))) [
      | inl e ↦ absurd (ground (arith, rw e at h))
      | inr e ↦
          rw e (letters-normal x y (ground (arith, e)) (ground (arith, e)) (ground (arith, e)))
    ]

two_letters-normal :
    (t : Text)
    → is_blank (two_letters t) ≡ false
    → normalize_country_code (two_letters t) ≡ two_letters t
two_letters-normal [] h = absurd (ground (arith, h))
two_letters-normal (a ∷ []) h = absurd (ground (arith, h))
two_letters-normal (a ∷ b ∷ []) h = known_letters-normal (to_upper a) (to_upper b) h
two_letters-normal (a ∷ b ∷ c ∷ t) h = absurd (ground (arith, h))

abbrev code_of : Option Place → Text
code_of none = []
code_of (some p) = p.code

abbrev name_of : Option Place → Text
name_of none = []
name_of (some p) = p.name

abbrev state_of : Option Place → Text
state_of none = []
state_of (some p) = p.state

checked_place-name :
    (code name state : Text)
    → is_blank code ≡ false
    → is_blank (name_of (checked_place code name state)) ≡ false
checked_place-name code name state e = elim (Bool-cases (is_blank name)) [
  | inl f ↦ rw e (rw f e)
  | inr f ↦ rw e (rw f f)
]

checked_place-IsTidy :
    (t name raw_state : Text) (p : Place)
    → checked_place (two_letters t) name (trim_space raw_state) ≡ some p
    → IsTidy p
checked_place-IsTidy t name raw_state p h = elim (Bool-cases (is_blank (two_letters t))) [
  | inl e ↦ absurd (ground (arith, rw e at h))
  | inr e ↦
      let code : p.code ≡ two_letters t = ap code_of (sym h) ∙ rw e refl in
      let state : p.state ≡ trim_space raw_state = ap state_of (sym h) ∙ rw e refl in
      record {
        code_eq = ap normalize_country_code code ∙ (two_letters-normal t e ∙ sym code);
        has_code = ap is_blank code ∙ e;
        has_name =
            ap (λ o. is_blank (name_of o)) (sym h)
            ∙ checked_place-name (two_letters t) name (trim_space raw_state) e;
        state_eq = ap trim_space state ∙ (trim_space-twice raw_state ∙ sym state);
      }
]

place_of-IsTidy : (f : Fields) (p : Place) → place_of f ≡ some p → IsTidy p
unfolding place_of normalize_country_code
place_of-IsTidy f p h =
    checked_place-IsTidy (trim_space (field (codes "code") f)) (field (codes "name") f)
      (field (codes "state") f) p h

places_of-IsTidy : (fs : List Fields) → All IsTidy (places_of fs)
places_of-IsTidy [] = tt
places_of-IsTidy (f ∷ fs) = elim (Option-cases (place_of f)) [
  | inl e ↦ rw e (places_of-IsTidy fs)
  | inr (p, e) ↦ rw e (place_of-IsTidy f p e, places_of-IsTidy fs)
]

-- Whatever the file holds, each place that `loadPlaces` gives is tidy.
load_places-IsTidy :
    (strconv_unquote : Text → Option Text) (file : Option Text)
    → All IsTidy (load_places strconv_unquote file)
unfolding load_places
load_places-IsTidy strconv_unquote none = tt
load_places-IsTidy strconv_unquote (some text) =
    places_of-IsTidy (parse_sections strconv_unquote (codes "country") text)

delete_place-IsTidy : (t : Text) (ps : List Place) → All IsTidy ps → All IsTidy (delete_place t ps)
delete_place-IsTidy t [] h = tt
delete_place-IsTidy t (p ∷ ps) h = elim (Bool-cases (text_eq (id p) t)) [
  | inl e ↦ rw e (delete_place-IsTidy t ps h.1)
  | inr e ↦ rw e (h.0, delete_place-IsTidy t ps h.1)
]

contains-delete_place : (t : Text) (ps : List Place) → contains t (delete_place t ps) ≡ false
contains-delete_place t [] = refl
contains-delete_place t (p ∷ ps) = elim (Bool-cases (text_eq (id p) t)) [
  | inl e ↦ rw e (contains-delete_place t ps)
  | inr e ↦ rw e (rw e (contains-delete_place t ps))
]

text_eq_refl : (t : Text) → text_eq t t ≡ true
text_eq_refl [] = refl
text_eq_refl (c ∷ t) = ground (arith, text_eq_refl t)

contains-append : (p : Place) (ps : List Place) → contains (id p) (ps ++ p ∷ []) ≡ true
contains-append p [] = rw (text_eq_refl (id p)) refl
contains-append p (q ∷ ps) = ground (arith, contains-append p ps)

toggled_places-IsTidy :
    (was : Bool) (p : Place) (ps : List Place)
    → IsTidy p
    → All IsTidy ps
    → All IsTidy (toggled_places was p ps)
toggled_places-IsTidy true p ps h k = delete_place-IsTidy (id p) ps k
toggled_places-IsTidy false p ps h k = All-append IsTidy ps (p ∷ []) k (h, tt)

contains-toggled_places :
    (was : Bool) (p : Place) (ps : List Place) → contains (id p) (toggled_places was p ps) ≡ not was
contains-toggled_places true p ps = contains-delete_place (id p) ps
contains-toggled_places false p ps = contains-append p ps

-- A call of `Toggle` in which nothing fails, for a place that `loadPlaces` would keep as it is, and whatever the
-- file held and other instances wrote to it: it reports the opposite of what this instance knew; the
-- file then holds exactly the list in memory; and the place is in that list if and only if it is reported
-- as pinned.
pub toggle-load_places :
    (quote : Text → Text) (strconv_unquote : Text → Option Text)
    → IsQuote quote strconv_unquote
    → (place : Place) (mine : List Place) (file : Option Text) → IsTidy place
    → let was : Bool = contains (id place) mine in
      let t : Toggled = toggle quote strconv_unquote no_fault place mine file in
      (t.result ≡ success (not was))
      × (load_places strconv_unquote t.file ≡ t.places)
      × (contains (id place) t.places ≡ not was)
unfolding toggle
toggle-load_places quote strconv_unquote is_quote place mine file tidy =
    let was : Bool = contains (id place) mine in
    let latest : List Place = load_places strconv_unquote file in
    let next_tidy =
      toggled_places-IsTidy was place latest tidy (load_places-IsTidy strconv_unquote file) in
    elim (Bool-cases
      ((contains (id place) latest && was) || not (contains (id place) latest || was))) [
        | inl e ↦ rw e (
          refl,
          load_places-save quote strconv_unquote is_quote (toggled_places was place latest)
              next_tidy,
          contains-toggled_places was place latest,
        )
        | inr e ↦ rw e (refl, refl, ground (arith, e))
      ]
