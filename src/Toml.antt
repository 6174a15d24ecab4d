-- ===== src/Toml.antt =====
-- internal/tomlutil: the sections of a small TOML document. A text is the list of its code points.
-- `strconv.Unquote` is a parameter; `%q` writes what it reads.
pub mod Lines
use cliamp.Base.{
  ℕ, ◌≤◌, Bool, true, false, not, ◌&&◌, ◌||◌, Option, none, some, List, [], ◌∷◌, ◌++◌, leb, ◌==◌,
  if◌then◌else◌,
}
use cliamp.Base.Texts.{codes, has_prefix}
use Prim.Native.String.{String}

abbrev pub Text : Type 0
Text = List ℕ

-- `unicode.IsSpace`.
abbrev pub is_space : ℕ → Bool
is_space c =
    (leb 9 c && leb c 13)
    || c == 32
    || c == 133
    || c == 160
    || c == 5760
    || (leb 8192 c && leb c 8202)
    || c == 8232
    || c == 8233
    || c == 8239
    || c == 8287
    || c == 12288

abbrev pub is_blank : Text → Bool
is_blank [] = true
is_blank (c ∷ cs) = false

unfoldable pub trim_left : Text → Text
trim_left [] = []
trim_left (c ∷ cs) = let rest = trim_left cs in if is_space c then rest else c ∷ cs

unfoldable pub trim_right : Text → Text
trim_right [] = []
trim_right (c ∷ cs) =
    let rest = trim_right cs in if is_blank rest && is_space c then [] else c ∷ rest

-- `strings.TrimSpace`.
abbrev pub trim_space : Text → Text
trim_space t = trim_right (trim_left t)

abbrev pub text_eq : Text → Text → Bool
text_eq [] [] = true
text_eq [] (d ∷ t) = false
text_eq (c ∷ s) [] = false
text_eq (c ∷ s) (d ∷ t) = c == d && text_eq s t

-- `strings.HasSuffix`.
abbrev has_suffix : Text → Text → Bool
has_suffix [] suffix = is_blank suffix
has_suffix (c ∷ s) suffix = text_eq (c ∷ s) suffix || has_suffix s suffix

-- The first line, and the text behind it if there is a newline.
abbrev add_first : ℕ → List Text → List Text
add_first c [] = (c ∷ []) ∷ []
add_first c (l ∷ ls) = (c ∷ l) ∷ ls

-- `strings.SplitSeq(s, "\n")`.
unfoldable pub split_lines : Text → List Text
split_lines [] = [] ∷ []
split_lines (c ∷ cs) = let rest = split_lines cs in if c == 10 then [] ∷ rest else add_first c rest

abbrev add_key : ℕ → Option (Text × Text) → Option (Text × Text)
add_key c none = none
add_key c (some (k, v)) = some (c ∷ k, v)

-- `strings.Cut(line, "=")`.
cut : Text → Option (Text × Text)
cut [] = none
cut (c ∷ cs) = let rest = cut cs in if c == 61 then some ([], cs) else add_key c rest

abbrev all_but_last : Text → Text
all_but_last [] = []
all_but_last (c ∷ []) = []
all_but_last (c ∷ d ∷ s) = c ∷ all_but_last (d ∷ s)

abbrev ends_quoted : Text → Bool
ends_quoted [] = false
ends_quoted (c ∷ []) = c == 34
ends_quoted (c ∷ d ∷ s) = ends_quoted (d ∷ s)

abbrev option_or_text : Option Text → Text → Text
option_or_text none t = t
option_or_text (some u) t = u

-- `Unquote`.
unquote : (Text → Option Text) → Text → Text
unquote strconv_unquote [] = []
unquote strconv_unquote (c ∷ s) =
    if c == 34 && ends_quoted s
    then option_or_text (strconv_unquote (c ∷ s)) (all_but_last s)
    else c ∷ s

-- The fields of a section: a key that comes again keeps its place and takes the last value.
abbrev pub Fields : Type 0
Fields = List (Text × Text)

unfoldable pub set_field : Text → Text → Fields → Fields
set_field key value [] = (key, value) ∷ []
set_field key value ((k, v) ∷ fs) =
    let rest = set_field key value fs in if text_eq k key then (k, value) ∷ fs else (k, v) ∷ rest

-- `f[key]`, the empty text if it is not there.
unfoldable pub field : Text → Fields → Text
field key [] = []
field key ((k, v) ∷ fs) = let rest = field key fs in if text_eq k key then v else rest

abbrev pub header : Text → Text
header s = 91 ∷ 91 ∷ (s ++ 93 ∷ 93 ∷ [])

abbrev find_header : Text → List Text → Option Text
find_header line [] = none
find_header line (s ∷ ss) =
    let rest = find_header line ss in if text_eq (header s) line then some s else rest

-- The section that is open, and its fields.
abbrev pub Open : Type 0
Open = Option (Text × Fields)

abbrev pub flush : Open → List (Text × Fields)
flush none = []
flush (some s) = s ∷ []

set_line : (Text → Option Text) → Open → Option (Text × Text) → Open
unfolding set_field trim_left trim_right unquote
set_line strconv_unquote none kv = none
set_line strconv_unquote (some s) none = some s
set_line strconv_unquote (some (name, fs)) (some (k, v)) =
    some (name, set_field (trim_space k) (unquote strconv_unquote (trim_space v)) fs)

-- The body of the loop of `ParseNamedSections` for a line without the spaces around it: the section that is
-- open after the line, and what it emits.
unfoldable pub line_read :
    (Text → Option Text) → List Text → Open → Text → Open × List (Text × Fields)
unfolding set_line cut
line_read strconv_unquote sections st line =
    if is_blank line || has_prefix line (35 ∷ [])
    then (st, [])
    else elim (find_header line sections) [
      | some name ↦ (some (name, []), flush st)
      | none ↦
          if has_prefix line (91 ∷ 91 ∷ []) && has_suffix line (93 ∷ 93 ∷ [])
          then (none, flush st)
          else (set_line strconv_unquote st (cut line), [])
    ]

unfoldable pub line_step :
    (Text → Option Text) → List Text → Open → Text → Open × List (Text × Fields)
unfolding line_read trim_left trim_right
line_step strconv_unquote sections st raw = line_read strconv_unquote sections st (trim_space raw)

unfoldable pub parse_lines :
    (Text → Option Text) → List Text → Open → List Text → List (Text × Fields)
unfolding line_step
parse_lines strconv_unquote sections st [] = flush st
parse_lines strconv_unquote sections st (l ∷ ls) =
    let (st', out) = line_step strconv_unquote sections st l in
    out ++ parse_lines strconv_unquote sections st' ls

-- `ParseNamedSections`: what it passes to `emit`, in order.
unfoldable pub parse_named_sections : (Text → Option Text) → List Text → Text → List (Text × Fields)
unfolding parse_lines split_lines
parse_named_sections strconv_unquote sections text =
    parse_lines strconv_unquote sections none (split_lines text)

abbrev pub second_all : List (Text × Fields) → List Fields
second_all [] = []
second_all ((n, fs) ∷ ss) = fs ∷ second_all ss

-- `ParseSections`.
unfoldable pub parse_sections : (Text → Option Text) → Text → Text → List Fields
unfolding parse_named_sections
parse_sections strconv_unquote section text =
    second_all (parse_named_sections strconv_unquote (section ∷ []) text)
