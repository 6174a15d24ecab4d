-- ===== src/NavBuffer/Keeping.antt =====
-- player/nav_buffer.go: the contents of the file behind each step of the download and of `Close`.
use cliamp.Base.{
  ℕ, zero, suc, ◌+◌, ◌≤◌, min, Bool, true, false, not, ◌&&◌, ◌||◌, Option, none, some, List, [],
  ◌∷◌, ◌++◌, ltb, if◌then◌else◌, length, take, drop, ◌≡◌, refl, sym, ap, ◌∙◌, arith, length-append,
  take-append-drop, length-take,
}
use Prim.Native.String.{String}
use cliamp.NavBuffer.{
  NavError, NavBuffer, BodyEnd, more, at_eof, failed, Supply, Downloader, at_top, at_body, at_chunk,
  at_file, at_written, at_next, at_finish, at_exit, stopped, download_step, publish, finish,
  write_at, is_open, first_error, written_next, chunk_done, requested, close_begin, close_end,
  signal,
}
use cliamp.NavBuffer.System.{arrived}
use cliamp.NavBuffer.Contents.{
  IsPrefix, Extends, Keeps, has_ended, has_stopped, Held, Removed, write_at-length, append_nil,
}

-- A step that changes neither the file nor the flags.
moved :
    {d d' : Downloader} {b : NavBuffer} {r r' f : List ℕ}
    → Held d b r f
    → has_ended d ≡ false
    → Keeps d' f r'
    → has_stopped d' ≡ has_stopped d
    → Held d' b r' f
moved h e k s = record {
  file_eq = h.file_eq;
  keeps = k;
  downloaded_le = h.downloaded_le;
  ends = λ x y. absurd (ground (arith, h.ends x y, e));
  complete = λ x y. absurd (ground (arith, h.ends x y, e));
  last = λ x. s ∙ h.last x;
}

either-Held :
    (c : Bool) {d d' : Downloader} {b : NavBuffer} {r f : List ℕ}
    → Held d b r f
    → Held d' b r f
    → Held (if c then d else d') b r f
either-Held true h k = h
either-Held false h k = k

either_buffer-Held :
    (c : Bool) {d : Downloader} {b b' : NavBuffer} {r f : List ℕ}
    → Held d b r f
    → Held d b' r f
    → Held d (if c then b else b') r f
either_buffer-Held true h k = h
either_buffer-Held false h k = k

publish-Held :
    (n : ℕ) {d : Downloader} {b : NavBuffer} {r f : List ℕ}
    → Held d b r f
    → n ≤ length f
    → Held d (publish n b) r f
unfolding publish
publish-Held n {d} {b} h le =
    either_buffer-Held (not b.closed && ltb b.downloaded n)
      (record {
        file_eq = h.file_eq;
        keeps = h.keeps;
        downloaded_le = le;
        ends = h.ends;
        complete = h.complete;
        last = h.last;
      })
      h

first_error-some : (o : Option NavError) (e : NavError) → first_error o (some e) ≡ none → ⊥
first_error-some none e h = absurd (ground (arith, h))
first_error-some (some x) e h = absurd (ground (arith, h))

finished-prefix : (e : Option NavError) (f r : List ℕ) → Keeps (at_finish e) f r → IsPrefix f r
finished-prefix none f r k = ([], k ∙ sym (append_nil f))
finished-prefix (some e) f r k = k

finished_complete :
    (e : Option NavError) (f r : List ℕ) (o : Option NavError)
    → Keeps (at_finish e) f r
    → first_error o e ≡ none
    → r ≡ f
finished_complete none f r o k h = k
finished_complete (some e) f r o k h = absurd (first_error-some o e h)

finish-Held :
    (e : Option NavError) {b : NavBuffer} {r f : List ℕ}
    → Held (at_finish e) b r f
    → (c : Bool) → b.closed ≡ c
    → Held at_exit
        (if c then b else signal (record b { err = first_error b.err e; done = true }))
        r
        f
finish-Held e {b} {r} {f} h true c = record {
  file_eq = h.file_eq;
  keeps = finished-prefix e f r h.keeps;
  downloaded_le = h.downloaded_le;
  ends = λ x y. refl;
  complete = λ x y. absurd (ground (arith, c, y));
  last = h.last;
}
finish-Held e {b} {r} {f} h false c = record {
  file_eq = h.file_eq;
  keeps = finished-prefix e f r h.keeps;
  downloaded_le = h.downloaded_le;
  ends = λ x y. refl;
  complete = λ x y z. finished_complete e f r b.err h.keeps z;
  last = h.last;
}

written_next-Keeps :
    (rest : List String) (offset : ℕ) (chunk : List ℕ) (end : BodyEnd) (wn : ℕ) (e : Option ℕ)
    (f r : List ℕ)
    → Extends offset chunk f r
    → Keeps (written_next rest offset chunk end wn e) f r
      × (has_stopped (written_next rest offset chunk end wn e) ≡ false)
written_next-Keeps rest offset chunk end wn (some e) f r k = ((chunk, k.1), refl)
written_next-Keeps rest offset chunk end zero none f r k = ((chunk, k.1), refl)
written_next-Keeps rest offset chunk end (suc wn) none f r k = (k, refl)

chunk_done-Keeps :
    (rest : List String) (offset : ℕ) (end : BodyEnd) (f r : List ℕ)
    → Extends offset [] f r
    → Keeps (chunk_done rest offset end) f r × (has_stopped (chunk_done rest offset end) ≡ false)
chunk_done-Keeps rest offset more f r k = (k, refl)
chunk_done-Keeps rest offset at_eof f r k = (k, refl)
chunk_done-Keeps rest offset (failed e) f r k = (([], k.1), refl)

requested-Keeps :
    (rest : List String) (offset : ℕ) (e : Option ℕ) (f r : List ℕ)
    → Extends offset [] f r
    → Keeps (requested rest offset e) f r × (has_stopped (requested rest offset e) ≡ false)
requested-Keeps rest offset none f r k = (k, refl)
requested-Keeps rest offset (some e) f r k = (([], k.1), refl)

append_assoc : (x y z : List ℕ) → (x ++ y) ++ z ≡ x ++ (y ++ z)
append_assoc [] y z = refl
append_assoc (a ∷ x) y z = ap (λ t. a ∷ t) (append_assoc x y z)

-- `WriteAt` at the end of the file, of the first wn bytes of the chunk.
written-Held :
    (rest : List String) (offset wn : ℕ) (chunk : List ℕ) (end : BodyEnd) (e : Option ℕ)
    (b : NavBuffer) (r f : List ℕ)
    → Held (at_file rest offset chunk end) b r f
    → wn ≤ length chunk
    → Held
        (at_written rest (offset + wn) (drop wn chunk) end wn e)
        (record b { file = some (write_at f offset (take wn chunk)) })
        r
        (f ++ take wn chunk)
written-Held rest offset wn chunk end e b r f h le =
    let grown = length-append f (take wn chunk) in
    let added : length (take wn chunk) ≡ wn = omega (arith, length-take wn chunk, le) in
    record {
      file_eq =
          ap some
            (ap (λ n. write_at f n (take wn chunk)) h.keeps.0 ∙ write_at-length f (take wn chunk));
      keeps = (
        omega (arith, grown, added, h.keeps.0),
        h.keeps.1
            ∙ (ap (λ x. f ++ x) (sym (take-append-drop wn chunk))
                ∙ sym (append_assoc f (take wn chunk) (drop wn chunk))),
      );
      downloaded_le = omega (arith, grown, h.downloaded_le);
      ends = h.ends;
      complete = λ x y. absurd (ground (arith, h.ends x y));
      last = h.last;
    }

pub download_step-Held :
    (s : Supply) (d : Downloader) (b : NavBuffer) (r f : List ℕ)
    → Held d b r f
    → let x = download_step s d b in (f' : List ℕ) × Held x.0 x.1 (arrived s d r) f'
unfolding download_step finish
download_step-Held s (at_top rest offset) b r f h =
    (f, either-Held b.closed (moved h refl ([], h.keeps.1) refl) (moved h refl h.keeps refl))
download_step-Held s (at_body rest offset) b r f h =
    (f, moved h refl (h.keeps.0, ap (λ x. x ++ s.bytes) (h.keeps.1 ∙ append_nil f)) refl)
download_step-Held s (at_chunk rest offset [] end) b r f h =
    let (k, n) = chunk_done-Keeps rest offset end f r h.keeps in (f, moved h refl k n)
download_step-Held s (at_chunk rest offset (c ∷ cs) end) b r f h = (
  f,
  either-Held (b.closed || not (is_open b.file)) (moved h refl (c ∷ cs, h.keeps.1) refl)
      (moved h refl h.keeps refl),
)
download_step-Held s (at_file rest offset chunk end) b r f h = rw h.file_eq (
  _,
  written-Held rest offset (min s.written (length chunk)) chunk end s.write_err b r f h
      (omega arith),
)
download_step-Held s (at_written rest offset chunk end wn e) b r f h =
    let (k, n) = written_next-Keeps rest offset chunk end wn e f r h.keeps in
    let h' = moved h refl k n in
    (f, either_buffer-Held (ltb 0 wn) (publish-Held offset h' (omega (arith, h.keeps.0))) h')
download_step-Held s (at_next [] offset) b r f h = (f, moved h refl (h.keeps.1 ∙ append_nil f) refl)
download_step-Held s (at_next (u ∷ us) offset) b r f h =
    let (k, n) = requested-Keeps us offset s.request_err f r h.keeps in (f, moved h refl k n)
download_step-Held s (at_finish e) b r f h = (f, finish-Held e h b.closed refl)
download_step-Held s at_exit b r f h = (
  f,
  record {
    file_eq = h.file_eq;
    keeps = h.keeps;
    downloaded_le = h.downloaded_le;
    ends = λ x y. refl;
    complete = h.complete;
    last = λ x. refl;
  },
)
download_step-Held s stopped b r f h = (f, h)

-- A download that has stopped takes no step.
pub download_step-stopped :
    (s : Supply) (d : Downloader) (b : NavBuffer) (r : List ℕ)
    → has_stopped d ≡ true
    → (download_step s d b ≡ (d, b)) × (arrived s d r ≡ r)
unfolding download_step
download_step-stopped s stopped b r h = (refl, refl)
download_step-stopped s (at_top rest offset) b r h = absurd (ground (arith, h))
download_step-stopped s (at_body rest offset) b r h = absurd (ground (arith, h))
download_step-stopped s (at_chunk rest offset chunk end) b r h = absurd (ground (arith, h))
download_step-stopped s (at_file rest offset chunk end) b r h = absurd (ground (arith, h))
download_step-stopped s (at_written rest offset chunk end wn e) b r h = absurd (ground (arith, h))
download_step-stopped s (at_next rest offset) b r h = absurd (ground (arith, h))
download_step-stopped s (at_finish e) b r h = absurd (ground (arith, h))
download_step-stopped s at_exit b r h = absurd (ground (arith, h))

pub close_begin-Held :
    {d : Downloader} {b : NavBuffer} {r f : List ℕ} → Held d b r f → Held d (close_begin b) r f
unfolding close_begin
close_begin-Held h = record {
  file_eq = h.file_eq;
  keeps = h.keeps;
  downloaded_le = h.downloaded_le;
  ends = λ x y. absurd (ground (arith, y));
  complete = λ x y. absurd (ground (arith, y));
  last = h.last;
}

pub close_end-Removed :
    (errors : List NavError) {d : Downloader} {b : NavBuffer} {r f : List ℕ}
    → Held d b r f
    → b.closed ≡ true
    → b.download_done ≡ true
    → Removed d (close_end errors b)
unfolding close_end
close_end-Removed errors h c e = record { file_eq = refl; ends = h.last e; is_closed = c }
