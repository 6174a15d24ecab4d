-- ===== src/Tests/Files.antt =====
-- player/nav_buffer.go and external/radio/pins.go on small inputs.
use cliamp.Base.{
  ℕ, ◌+◌, ◌≡◌, refl, ◌∙◌, ap, sym, true, false, not, ◌||◌, Option, none, some, List, [], ◌∷◌, ◌++◌,
  ◌==◌, if◌then◌else◌, length, take, arith, Bool-cases, inl, inr, ◌≤◌,
}
use cliamp.Base.Texts.{codes}
use cliamp.Base.Results.{success}
use cliamp.NavBuffer.{new_nav_buffer, Supply, at_eof, at_body, stopped, close_begin, completed_path}
use cliamp.NavBuffer.Reader.{eof, selecting, holding, take_bytes}
use cliamp.NavBuffer.System.{
  World, Move, download_move, begin_move, read_move, run, step, new_world,
}
use cliamp.NavBuffer.Contents.{has_ended}
use cliamp.NavBuffer.Wakeups.{IsStuck}
use cliamp.NavBuffer.Runs.{run-output, completed_path-received, run-wakes, run-reads, is_waiting}
use cliamp.NavBuffer.Closing.{download, close_begin-download}
use cliamp.Toml.{Text, is_blank}
use cliamp.Toml.Lines.{IsQuote, lacks}
use cliamp.Pins.{Place, id, save, load_places, contains, toggle, no_fault}
use cliamp.Pins.RoundTrip.{IsTidy, load_places-save}
use cliamp.Pins.Toggling.{toggle-load_places}

abbrev gives_three : Supply
gives_three = record {
  bytes = 7 ∷ 8 ∷ 9 ∷ [];
  body_end = at_eof;
  written = 3;
  write_err = none;
  request_err = none;
}

-- The reader waits before the first bytes are there.
abbrev early : List Move
early =
    begin_move 4
    ∷ read_move 4 0
    ∷ download_move gives_three
    ∷ download_move gives_three
    ∷ download_move gives_three
    ∷ download_move gives_three
    ∷ download_move gives_three
    ∷ []

-- The download ends, and the reader takes what is there.
abbrev complete : List Move
complete =
    early
    ++ download_move gives_three
      ∷ download_move gives_three
      ∷ download_move gives_three
      ∷ download_move gives_three
      ∷ read_move 4 0
      ∷ read_move 4 0
      ∷ read_move 4 0
      ∷ read_move 4 0
      ∷ begin_move 4
      ∷ read_move 4 0
      ∷ read_move 4 0
      ∷ []

abbrev after_early : World
after_early = run early (new_world "/tmp/nav" (some 3) [])

abbrev after_complete : World
after_complete = run complete (new_world "/tmp/nav" (some 3) [])

waits_early : after_early.reader.phase ≡ selecting 4 0 0
unfolding run
waits_early = refl

read_all :
    (after_complete.reader.output ≡ 7 ∷ 8 ∷ 9 ∷ []) × (after_complete.reader.last_err ≡ some eof)
unfolding run
read_all = (refl, refl)

is_free : IsStuck after_early.buffer after_early.reader.pos → ⊥
unfolding run
is_free h = omega (arith, h.no_byte)

has_path : completed_path after_complete.buffer ≡ some "/tmp/nav"
unfolding run completed_path
has_path = refl

run-output_example :
    (after_complete.reader.output
      ≡ take (length after_complete.reader.output) after_complete.received)
    × (after_complete.reader.last_err ≡ some eof
        → (after_complete.reader.output ≡ after_complete.received)
          × (has_ended after_complete.downloader ≡ true))
run-output_example = run-output "/tmp/nav" (some 3) [] complete

completed_path-received_example :
    (after_complete.buffer.file ≡ some after_complete.received)
    × ((n : ℕ) → after_complete.buffer.total ≡ some n → n ≤ length after_complete.received)
completed_path-received_example =
    completed_path-received "/tmp/nav" (some 3) [] complete "/tmp/nav" has_path

run-wakes_example :
    is_waiting (step (read_move 4 0) (step (read_move 4 0) after_early)).reader.phase ≡ false
run-wakes_example = run-wakes "/tmp/nav" (some 3) [] early 4 0 0 4 0 waits_early is_free

-- The reader is about to read the file.
abbrev at_file : List Move
at_file = early ++ read_move 4 0 ∷ read_move 4 0 ∷ read_move 4 0 ∷ []

abbrev after_at_file : World
after_at_file = run at_file (new_world "/tmp/nav" (some 3) [])

holds_lock : after_at_file.reader.phase ≡ holding 3
unfolding run
holds_lock = refl

run-reads_example :
    ((step (read_move 4 0) after_at_file).reader
      ≡ take_bytes 3 4 0 after_at_file.buffer after_at_file.reader)
    × ((take_bytes 3 4 0 after_at_file.buffer after_at_file.reader).pos
        ≡ after_at_file.reader.pos + 3)
    × ((take_bytes 3 4 0 after_at_file.buffer after_at_file.reader).last_err ≡ none)
    × ((take_bytes 3 4 0 after_at_file.buffer after_at_file.reader).output
        ≡ take (after_at_file.reader.pos + 3) after_at_file.received)
run-reads_example = run-reads "/tmp/nav" (some 3) [] at_file 3 4 0 holds_lock (omega arith)

abbrev six : List Supply
six = gives_three ∷ gives_three ∷ gives_three ∷ gives_three ∷ gives_three ∷ gives_three ∷ []

close_begin-download_example :
    (download six (
      at_body ("https://a/2" ∷ "https://a/3" ∷ []) 0,
      close_begin (new_nav_buffer "/tmp/nav" none),
    )).0
    ≡ stopped
close_begin-download_example =
    close_begin-download six (at_body ("https://a/2" ∷ "https://a/3" ∷ []) 0)
      (new_nav_buffer "/tmp/nav" none) (omega arith)

-- A printer of quoted texts that escapes newlines, quotes and backslashes, and its reader.
abbrev escape : Text → Text
escape [] = []
escape (c ∷ s) =
    let rest = escape s in
    if c == 10 then 92 ∷ 110 ∷ rest else if c == 92 || c == 34 then 92 ∷ c ∷ rest else c ∷ rest

abbrev quote : Text → Text
quote t = 34 ∷ (escape t ++ 34 ∷ [])

abbrev push : ℕ → Option Text → Option Text
push c none = none
push c (some t) = some (c ∷ t)

abbrev unescape : Text → Option Text
unescape [] = none
unescape (c ∷ []) = if c == 34 then some [] else none
unescape (c ∷ d ∷ s) =
    let skip = unescape s in
    let on = unescape (d ∷ s) in
    if c == 92 then push (if d == 110 then 10 else d) skip else push c on

abbrev read_quoted : Text → Option Text
read_quoted [] = none
read_quoted (c ∷ s) = if c == 34 then unescape s else none

unescape-plain :
    (c : ℕ) (s : Text)
    → (c == 92) ≡ false
    → is_blank s ≡ false
    → unescape (c ∷ s) ≡ push c (unescape s)
unescape-plain c [] e h = absurd (ground (arith, h))
unescape-plain c (d ∷ s) e h = rw e refl

escape-not_blank : (t : Text) → is_blank (escape t ++ 34 ∷ []) ≡ false
escape-not_blank [] = refl
escape-not_blank (c ∷ t) = ground arith

unescape-escape : (t : Text) → unescape (escape t ++ 34 ∷ []) ≡ some t
unescape-escape [] = refl
unescape-escape (c ∷ t) =
    let rest = unescape-escape t in
    elim (Bool-cases (c == 10)) [
      | inl e ↦
          let newline : c ≡ 10 = ground (arith, e) in
          rw e (ap (push 10) rest ∙ ap (λ d. some (d ∷ t)) (sym newline))
      | inr e ↦ elim (Bool-cases (c == 92 || c == 34)) [
        | inl f ↦
            let no_letter : (c == 110) ≡ false = ground (arith, f) in
            rw e (rw f (rw no_letter (ap (push c) rest)))
        | inr f ↦
            let plain : (c == 92) ≡ false = ground (arith, f) in
            rw e (
              rw f (
                unescape-plain c (escape t ++ 34 ∷ []) plain (escape-not_blank t)
                ∙ ap (push c) rest))
      ]
    ]

lacks-escape : (t : Text) → lacks 10 (escape t) ≡ true
lacks-escape [] = refl
lacks-escape (c ∷ t) = ground (arith, lacks-escape t)

quote-IsQuote : IsQuote quote read_quoted
quote-IsQuote = record {
  inside = escape;
  quoted = λ t. refl;
  one_line = lacks-escape;
  read_back = unescape-escape;
}

abbrev norway : Place
norway = record { code = codes "NO"; name = codes "Norway"; state = [] }

-- A name with a quote and a newline.
abbrev oslo : Place
oslo = record { code = codes "NO"; name = 34 ∷ 10 ∷ codes "Oslo"; state = codes "Oslo" }

norway-IsTidy : IsTidy norway
unfolding cliamp.Pins.normalize_country_code cliamp.Toml.trim_left cliamp.Toml.trim_right
norway-IsTidy = record { code_eq = refl; has_code = refl; has_name = refl; state_eq = refl }

oslo-IsTidy : IsTidy oslo
unfolding cliamp.Pins.normalize_country_code cliamp.Toml.trim_left cliamp.Toml.trim_right
oslo-IsTidy = record { code_eq = refl; has_code = refl; has_name = refl; state_eq = refl }

load_places-save_example :
    load_places read_quoted (some (save quote (oslo ∷ norway ∷ []))) ≡ oslo ∷ norway ∷ []
load_places-save_example =
    load_places-save quote read_quoted quote-IsQuote (oslo ∷ norway ∷ [])
      (oslo-IsTidy, (norway-IsTidy, tt))

toggle-load_places_example :
    ((toggle quote read_quoted no_fault oslo
        (norway ∷ [])
        (some (codes "[[country]]\ncode = \"SE\"\n"))).result
      ≡ success (not (contains (id oslo) (norway ∷ []))))
    × (load_places read_quoted
          (toggle quote read_quoted no_fault oslo
            (norway ∷ [])
            (some (codes "[[country]]\ncode = \"SE\"\n"))).file
        ≡ (toggle quote read_quoted no_fault oslo
            (norway ∷ [])
            (some (codes "[[country]]\ncode = \"SE\"\n"))).places)
    × (contains
          (id oslo)
          (toggle quote read_quoted no_fault oslo
            (norway ∷ [])
            (some (codes "[[country]]\ncode = \"SE\"\n"))).places
        ≡ not (contains (id oslo) (norway ∷ [])))
toggle-load_places_example =
    toggle-load_places quote read_quoted quote-IsQuote oslo (norway ∷ [])
      (some (codes "[[country]]\ncode = \"SE\"\n")) oslo-IsTidy
