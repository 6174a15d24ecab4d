-- ===== src/NavBuffer/Contents.antt =====
-- player/nav_buffer.go: the temporary file and the bytes that have arrived.
use cliamp.Base.{
  ℕ, ◌≤◌, Bool, true, false, none, some, List, [], ◌∷◌, ◌++◌, length, ◌≡◌, refl, ap, ◌⊎◌,
}
use cliamp.NavBuffer.{
  NavBuffer, Downloader, at_top, at_body, at_chunk, at_file, at_written, at_next, at_finish,
  at_exit, stopped, write_at,
}

abbrev pub IsPrefix : List ℕ → List ℕ → Type 0
IsPrefix f r = (xs : List ℕ) × (r ≡ f ++ xs)

-- The file of a download that goes on: what has arrived is the file and the rest of the chunk.
abbrev pub Extends : ℕ → List ℕ → List ℕ → List ℕ → Type 0
Extends offset chunk f r = (offset ≡ length f) × (r ≡ f ++ chunk)

abbrev pub Keeps : Downloader → List ℕ → List ℕ → Type 0
Keeps (at_top rest offset) f r = Extends offset [] f r
Keeps (at_body rest offset) f r = Extends offset [] f r
Keeps (at_chunk rest offset chunk end) f r = Extends offset chunk f r
Keeps (at_file rest offset chunk end) f r = Extends offset chunk f r
Keeps (at_written rest offset chunk end wn e) f r = Extends offset chunk f r
Keeps (at_next rest offset) f r = Extends offset [] f r
Keeps (at_finish none) f r = r ≡ f
Keeps (at_finish (some e)) f r = IsPrefix f r
Keeps at_exit f r = IsPrefix f r
Keeps stopped f r = IsPrefix f r

abbrev pub has_ended : Downloader → Bool
has_ended at_exit = true
has_ended stopped = true
has_ended d = false

abbrev pub has_stopped : Downloader → Bool
has_stopped stopped = true
has_stopped d = false

-- The file is there, and holds the bytes f. A download that is done without an error has brought all.
pub record Held (d : Downloader) (b : NavBuffer) (r f : List ℕ) : Type 0 where
  pub file_eq : b.file ≡ some f
  pub keeps : Keeps d f r
  pub downloaded_le : b.downloaded ≤ length f
  pub ends : b.done ≡ true → b.closed ≡ false → has_ended d ≡ true
  pub complete : b.done ≡ true → b.closed ≡ false → b.err ≡ none → r ≡ f
  pub last : b.download_done ≡ true → has_stopped d ≡ true

-- `Close` has removed the file.
pub record Removed (d : Downloader) (b : NavBuffer) : Type 0 where
  pub file_eq : b.file ≡ none
  pub ends : has_stopped d ≡ true
  pub is_closed : b.closed ≡ true

abbrev pub Contents : Downloader → NavBuffer → List ℕ → Type 0
Contents d b r = ((f : List ℕ) × Held d b r f) ⊎ Removed d b

pub write_at-length : (f new : List ℕ) → write_at f (length f) new ≡ f ++ new
unfolding write_at
write_at-length [] new = refl
write_at-length (b ∷ bs) new = ap (λ x. b ∷ x) (write_at-length bs new)

pub append_nil : (f : List ℕ) → f ++ [] ≡ f
append_nil [] = refl
append_nil (x ∷ xs) = ap (λ y. x ∷ y) (append_nil xs)
