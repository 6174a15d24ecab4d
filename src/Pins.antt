-- ===== src/Pins.antt =====
-- external/radio/pins.go: the pinned places, in memory and in their file. A text is its code points.
-- Files, directories and locks are outside: a call is given which of them fail.
pub mod RoundTrip
pub mod Toggling
use cliamp.Base.{
  ℕ, ◌+◌, ◌-◌, Bool, true, false, not, ◌&&◌, ◌||◌, Option, none, some, List, [], ◌∷◌, ◌++◌, leb,
  ◌==◌, if◌then◌else◌,
}
use cliamp.Base.Texts.{codes}
use cliamp.Base.Results.{Result, success, failure}
use cliamp.Toml.{
  Text, is_blank, trim_left, trim_right, trim_space, text_eq, Fields, field, parse_sections, header,
}

pub record Place : Type 0 where
  pub code : Text
  pub name : Text
  pub state : Text

-- `Place.ID`.
pub id : Place → Text
id p = if is_blank p.state then p.code else p.code ++ 47 ∷ p.state

-- `unicode.ToUpper` as far as it gives ASCII letters: two runes that are not ASCII have such an upper case.
abbrev to_upper : ℕ → ℕ
to_upper c =
    if leb 97 c && leb c 122 then c - 32 else if c == 305 then 73 else if c == 383 then 83 else c

abbrev is_upper : ℕ → Bool
is_upper c = leb 65 c && leb c 90

abbrev known_letters : ℕ → ℕ → Text
known_letters x y =
    if (x == 88 && y == 88) || not (is_upper x && is_upper y) then [] else x ∷ y ∷ []

abbrev two_letters : Text → Text
two_letters (a ∷ b ∷ []) = known_letters (to_upper a) (to_upper b)
two_letters t = []

-- `normalizeCountryCode`.
unfoldable pub normalize_country_code : Text → Text
unfolding trim_left trim_right
normalize_country_code code = two_letters (trim_space code)

abbrev quoted_line : (Text → Text) → Text → Text → Text
quoted_line quote key value = key ++ 32 ∷ 61 ∷ 32 ∷ quote value

-- The lines that `save` prints for a place.
abbrev place_lines : (Text → Text) → Place → List Text
place_lines quote p =
    header (codes "country")
    ∷ quoted_line quote (codes "code") p.code
    ∷ quoted_line quote (codes "name") p.name
    ∷ (if is_blank p.state then [] else quoted_line quote (codes "state") p.state ∷ [])

-- The places behind the first: an empty line comes before each.
abbrev more_lines : (Text → Text) → List Place → List Text
more_lines quote [] = []
more_lines quote (p ∷ ps) = [] ∷ (place_lines quote p ++ more_lines quote ps)

abbrev all_lines : (Text → Text) → List Place → List Text
all_lines quote [] = []
all_lines quote (p ∷ ps) = place_lines quote p ++ more_lines quote ps

abbrev print_lines : List Text → Text
print_lines [] = []
print_lines (l ∷ ls) = l ++ 10 ∷ print_lines ls

-- The text that `save` writes.
pub save : (Text → Text) → List Place → Text
save quote places = print_lines (all_lines quote places)

-- The place with a code that is normalized, a name and a state, if the code is one.
abbrev checked_place : Text → Text → Text → Option Place
checked_place code name state =
    if is_blank code
    then none
    else some (record { code = code; name = if is_blank name then code else name; state = state })

-- The function that `loadPlaces` gives to `ParseSections`.
place_of : Fields → Option Place
unfolding normalize_country_code field trim_left trim_right
place_of f =
    checked_place (normalize_country_code (field (codes "code") f)) (field (codes "name") f)
      (trim_space (field (codes "state") f))

abbrev add_place : Option Place → List Place → List Place
add_place none ps = ps
add_place (some p) ps = p ∷ ps

abbrev places_of : List Fields → List Place
places_of [] = []
places_of (f ∷ fs) = add_place (place_of f) (places_of fs)

-- `loadPlaces`; a missing file has no place.
pub load_places : (Text → Option Text) → Option Text → List Place
unfolding parse_sections place_of
load_places strconv_unquote none = []
load_places strconv_unquote (some text) =
    places_of (parse_sections strconv_unquote (codes "country") text)

abbrev pub contains : Text → List Place → Bool
contains t [] = false
contains t (p ∷ ps) = text_eq (id p) t || contains t ps

abbrev delete_place : Text → List Place → List Place
delete_place t [] = []
delete_place t (p ∷ ps) =
    let rest = delete_place t ps in if text_eq (id p) t then rest else p ∷ rest

-- What fails: nothing, what comes before the save, or the save.
pub data Fault : Type 0 where
  no_fault before_save at_save : Fault

-- What `Toggle` leaves: the list in memory, the file, and whether the place is pinned, or an error.
pub record Toggled : Type 0 where
  pub places : List Place
  pub file : Option Text
  pub result : Result Bool Bool

abbrev toggled_places : Bool → Place → List Place → List Place
toggled_places true p ps = delete_place (id p) ps
toggled_places false p ps = ps ++ p ∷ []

-- `Toggle` once it has read the file: whether the save works, the list that the file holds, whether the
-- place was pinned here, the list here, and the file.
abbrev toggle_loaded :
    (Text → Text) → Bool → Place → List Place → Bool → List Place → Option Text → Toggled
toggle_loaded quote works place latest was mine file =
    let next : List Place = toggled_places was place latest in
    if (contains (id place) latest && was) || not (contains (id place) latest || was)
    then (if works
        then record { places = next; file = some (save quote next); result = success (not was) }
        else record { places = mine; file = file; result = failure was })
    else record { places = latest; file = file; result = success (not was) }

-- `Toggle`. An error of the directory, the lock or the read comes before all else.
unfoldable pub toggle :
    (Text → Text) → (Text → Option Text) → Fault → Place → List Place → Option Text → Toggled
unfolding id save load_places
toggle quote strconv_unquote before_save place mine file = record {
  places = mine;
  file = file;
  result = failure (contains (id place) mine);
}
toggle quote strconv_unquote at_save place mine file =
    toggle_loaded quote false place (load_places strconv_unquote file) (contains (id place) mine)
      mine file
toggle quote strconv_unquote no_fault place mine file =
    toggle_loaded quote true place (load_places strconv_unquote file) (contains (id place) mine)
      mine file
