-- ===== src/NavBuffer/Progress.antt =====
-- player/nav_buffer.go: `downloaded` follows the file, and what a step of the download leaves to the readers.
use cliamp.Base.{
  ℕ, zero, suc, ◌+◌, ◌≤◌, min, Bool, true, false, not, ◌&&◌, ◌||◌, Option, none, some, List, [],
  ◌∷◌, ◌++◌, ltb, if◌then◌else◌, length, take, ◌≡◌, refl, sym, ap, ◌∙◌, arith, inl, inr, Bool-cases,
  length-append, length-take,
}
use Prim.Native.String.{String}
use cliamp.NavBuffer.{
  NavError, NavBuffer, BodyEnd, more, at_eof, failed, Supply, Downloader, at_top, at_body, at_chunk,
  at_file, at_written, at_next, at_finish, at_exit, stopped, download_step, publish, finish,
  write_at, is_open, first_error, written_next, chunk_done, requested, signal, close_begin,
}
use cliamp.NavBuffer.System.{arrived}
use cliamp.NavBuffer.Contents.{Held, has_ended, write_at-length, append_nil}

-- `downloaded` is the length of the file, but between a write and its `publish`.
abbrev Published : Downloader → ℕ → ℕ → Type 0
Published (at_written rest offset chunk end wn e) n m = n + wn ≡ m
Published d n m = n ≡ m

abbrev file_length : Option (List ℕ) → ℕ
file_length none = 0
file_length (some f) = length f

abbrev pub IsExact : Downloader → NavBuffer → Type 0
IsExact d b = b.closed ≡ false → Published d b.downloaded (file_length b.file)

either-Published :
    (c : Bool) (d d' : Downloader) (n m : ℕ)
    → Published d n m
    → Published d' n m
    → Published (if c then d else d') n m
either-Published true d d' n m h k = h
either-Published false d d' n m h k = k

written_next-Published :
    (rest : List String) (offset : ℕ) (chunk : List ℕ) (end : BodyEnd) (wn : ℕ) (e : Option ℕ)
    (n : ℕ) (m : ℕ)
    → n ≡ m
    → Published (written_next rest offset chunk end wn e) n m
written_next-Published rest offset chunk end wn (some e) n m h = h
written_next-Published rest offset chunk end zero none n m h = h
written_next-Published rest offset chunk end (suc wn) none n m h = h

chunk_done-Published :
    (rest : List String) (offset : ℕ) (end : BodyEnd) (n m : ℕ)
    → n ≡ m
    → Published (chunk_done rest offset end) n m
chunk_done-Published rest offset more n m h = h
chunk_done-Published rest offset at_eof n m h = h
chunk_done-Published rest offset (failed e) n m h = h

requested-Published :
    (rest : List String) (offset : ℕ) (e : Option ℕ) (n m : ℕ)
    → n ≡ m
    → Published (requested rest offset e) n m
requested-Published rest offset none n m h = h
requested-Published rest offset (some e) n m h = h

-- What `publish` may change.
publish-same :
    (c : Bool) (n : ℕ) (b : NavBuffer)
    → let b' : NavBuffer = if c then signal (record b { downloaded = n }) else b in
      (b'.closed ≡ b.closed)
      × (b'.file ≡ b.file)
      × (b'.done ≡ b.done)
      × (b'.err ≡ b.err)
      × (b'.downloaded ≡ (if c then n else b.downloaded))
publish-same true n b = (refl, refl, refl, refl, refl)
publish-same false n b = (refl, refl, refl, refl, refl)

publish_written :
    (wn offset m : ℕ) (b : NavBuffer)
    → b.closed ≡ false
    → b.downloaded + wn ≡ m
    → offset ≡ m
    → (if ltb 0 wn then publish offset b else b).downloaded ≡ m
unfolding publish
publish_written wn offset m b c h e =
    let (i, j, k, l, same) = publish-same (not b.closed && ltb b.downloaded offset) offset b in
    elim (Bool-cases (ltb 0 wn)) [
      | inl pos ↦ rw pos (same ∙ ground (arith, c, h, e, pos))
      | inr zero_bytes ↦ rw zero_bytes (ground (arith, h, zero_bytes))
    ]

publish_written-closed :
    (c : Bool) (offset : ℕ) (b : NavBuffer) → (if c then publish offset b else b).closed ≡ b.closed
unfolding publish
publish_written-closed true offset b =
    (publish-same (not b.closed && ltb b.downloaded offset) offset b).0
publish_written-closed false offset b = refl

publish_written-file :
    (c : Bool) (offset : ℕ) (b : NavBuffer) → (if c then publish offset b else b).file ≡ b.file
unfolding publish
publish_written-file true offset b =
    (publish-same (not b.closed && ltb b.downloaded offset) offset b).1
publish_written-file false offset b = refl

finish-IsExact :
    (e : Option NavError) (c : Bool) (b : NavBuffer)
    → (b.closed ≡ false → b.downloaded ≡ file_length b.file)
    → IsExact at_exit
        (if c then b else signal (record b { err = first_error b.err e; done = true }))
finish-IsExact e true b h = h
finish-IsExact e false b h = h

pub download_step-IsExact :
    (s : Supply) (d : Downloader) (b : NavBuffer) (r f : List ℕ)
    → Held d b r f
    → IsExact d b
    → let x = download_step s d b in IsExact x.0 x.1
unfolding download_step finish
download_step-IsExact s (at_top rest offset) b r f h e =
    λ c. either-Published b.closed at_exit (at_body rest offset) _ _ (e c) (e c)
download_step-IsExact s (at_body rest offset) b r f h e = e
download_step-IsExact s (at_chunk rest offset [] end) b r f h e =
    λ c. chunk_done-Published rest offset end _ _ (e c)
download_step-IsExact s (at_chunk rest offset (x ∷ xs) end) b r f h e = λ c.
    either-Published (b.closed || not (is_open b.file)) at_exit (at_file rest offset (x ∷ xs) end) _
      _ (e c) (e c)
download_step-IsExact s (at_file rest offset chunk end) b r f h e =
    let wn : ℕ = min s.written (length chunk) in
    let grown = length-append f (take wn chunk) in
    let added = length-take wn chunk in
    let at_end =
      ap (λ n. write_at f n (take wn chunk)) h.keeps.0 ∙ write_at-length f (take wn chunk) in
    λ c.
      let before : b.downloaded ≡ length f = e c ∙ ap file_length h.file_eq in
      rw h.file_eq (rw at_end (omega (arith, before, grown, added)))
download_step-IsExact s (at_written rest offset chunk end wn e) b r f h x = λ c.
    let open_now = sym (publish_written-closed (ltb 0 wn) offset b) ∙ c in
    let len : file_length b.file ≡ length f = ap file_length h.file_eq in
    written_next-Published rest offset chunk end wn e _ _ (
      publish_written wn offset _ b open_now (x open_now) (h.keeps.0 ∙ sym len)
      ∙ sym (ap file_length (publish_written-file (ltb 0 wn) offset b)))
download_step-IsExact s (at_next [] offset) b r f h e = e
download_step-IsExact s (at_next (u ∷ us) offset) b r f h e =
    λ c. requested-Published us offset s.request_err _ _ (e c)
download_step-IsExact s (at_finish e) b r f h x = finish-IsExact e b.closed b x
download_step-IsExact s at_exit b r f h e = e
download_step-IsExact s stopped b r f h e = e

-- What the readers rely on, from one state of the buffer to a later one.
pub record Later (b b' : NavBuffer) : Type 0 where
  pub downloaded_le : b.downloaded ≤ b'.downloaded
  pub open_before : b'.closed ≡ false → b.closed ≡ false
  pub finished :
      b'.closed ≡ false → b.done ≡ true → b.err ≡ none → (b'.done ≡ true) × (b'.err ≡ none)

Later-same : (b : NavBuffer) → Later b b
Later-same b = record {
  downloaded_le = omega arith;
  open_before = λ c. c;
  finished = λ c d e. (d, e);
}

publish-Later :
    (c : Bool) (offset : ℕ) (b : NavBuffer) → Later b (if c then publish offset b else b)
unfolding publish
publish-Later false offset b = Later-same b
publish-Later true offset b =
    let (i, j, k, l, same) = publish-same (not b.closed && ltb b.downloaded offset) offset b in
    record {
      downloaded_le = ground (arith, same);
      open_before = λ c. sym i ∙ c;
      finished = λ c d e. (k ∙ d, l ∙ e);
    }

finish-Later :
    (e : Option NavError) (c : Bool) (b : NavBuffer)
    → (b.done ≡ true → b.closed ≡ false → ⊥)
    → Later b (if c then b else signal (record b { err = first_error b.err e; done = true }))
finish-Later e true b h = Later-same b
finish-Later e false b h = record {
  downloaded_le = omega arith;
  open_before = λ c. c;
  finished = λ c d x. absurd (h d c);
}

pub download_step-Later :
    (s : Supply) (d : Downloader) (b : NavBuffer) (r f : List ℕ)
    → Held d b r f
    → Later b (download_step s d b).1
unfolding download_step finish
download_step-Later s (at_top rest offset) b r f h = Later-same b
download_step-Later s (at_body rest offset) b r f h = Later-same b
download_step-Later s (at_chunk rest offset [] end) b r f h = Later-same b
download_step-Later s (at_chunk rest offset (c ∷ cs) end) b r f h = Later-same b
download_step-Later s (at_file rest offset chunk end) b r f h = record {
  downloaded_le = omega arith;
  open_before = λ c. c;
  finished = λ c d e. (d, e);
}
download_step-Later s (at_written rest offset chunk end wn e) b r f h =
    publish-Later (ltb 0 wn) offset b
download_step-Later s (at_next [] offset) b r f h = Later-same b
download_step-Later s (at_next (u ∷ us) offset) b r f h = Later-same b
download_step-Later s (at_finish e) b r f h =
    finish-Later e b.closed b (λ d c. absurd (ground (arith, h.ends d c)))
download_step-Later s at_exit b r f h = record {
  downloaded_le = omega arith;
  open_before = λ c. c;
  finished = λ c d e. (d, e);
}
download_step-Later s stopped b r f h = Later-same b

pub close_begin-Later : (b : NavBuffer) → Later b (close_begin b)
unfolding close_begin
close_begin-Later b = record {
  downloaded_le = omega arith;
  open_before = λ c. absurd (ground (arith, c));
  finished = λ c. absurd (ground (arith, c));
}

-- What arrives is added, and nothing does once the download has ended.
pub arrived-grows :
    (s : Supply) (d : Downloader) (b : NavBuffer) (r : List ℕ)
    → ((xs : List ℕ) × (arrived s d r ≡ r ++ xs))
      × (has_ended d ≡ true → (arrived s d r ≡ r) × (has_ended (download_step s d b).0 ≡ true))
unfolding download_step
arrived-grows s (at_body rest offset) b r = ((s.bytes, refl), λ e. absurd (ground (arith, e)))
arrived-grows s (at_top rest offset) b r =
    (([], sym (append_nil r)), λ e. absurd (ground (arith, e)))
arrived-grows s (at_chunk rest offset chunk end) b r =
    (([], sym (append_nil r)), λ e. absurd (ground (arith, e)))
arrived-grows s (at_file rest offset chunk end) b r =
    (([], sym (append_nil r)), λ e. absurd (ground (arith, e)))
arrived-grows s (at_written rest offset chunk end wn e) b r =
    (([], sym (append_nil r)), λ x. absurd (ground (arith, x)))
arrived-grows s (at_next rest offset) b r =
    (([], sym (append_nil r)), λ e. absurd (ground (arith, e)))
arrived-grows s (at_finish e) b r = (([], sym (append_nil r)), λ x. absurd (ground (arith, x)))
arrived-grows s at_exit b r = (([], sym (append_nil r)), λ e. (refl, refl))
arrived-grows s stopped b r = (([], sym (append_nil r)), λ e. (refl, refl))

Published-ended : (d : Downloader) (n m : ℕ) → has_ended d ≡ true → Published d n m → n ≡ m
Published-ended at_exit n m e h = h
Published-ended stopped n m e h = h
Published-ended (at_top rest offset) n m e h = h
Published-ended (at_body rest offset) n m e h = h
Published-ended (at_chunk rest offset chunk end) n m e h = h
Published-ended (at_file rest offset chunk end) n m e h = h
Published-ended (at_written rest offset chunk end wn x) n m e h = absurd (ground (arith, e))
Published-ended (at_next rest offset) n m e h = h
Published-ended (at_finish x) n m e h = h

-- After the download has ended, all that the file holds is published.
pub ended-exact :
    (d : Downloader) (b : NavBuffer) (r f : List ℕ)
    → Held d b r f
    → IsExact d b
    → has_ended d ≡ true
    → b.closed ≡ false
    → b.downloaded ≡ length f
ended-exact d b r f h e ended open_now =
    Published-ended d _ _ ended (e open_now) ∙ ap file_length h.file_eq
