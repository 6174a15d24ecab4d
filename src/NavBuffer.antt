-- ===== src/NavBuffer.antt =====
-- player/nav_buffer.go: a progressive download into a temporary file, and the readers of it. A critical
-- section of `mu` is one step, as are a read of a body, a write to the file and a read of it; the steps
-- of the download, of a reader and of `Close` interleave in any order. The temporary file is its bytes.
-- The channel `wait`, which `signalLocked` closes and makes anew, is the number of those made before it.
-- An error of the libraries is a number, and what they answer is an argument of the step.
pub mod Reader
pub mod System
pub mod Contents
pub mod Keeping
pub mod Progress
pub mod Reads
pub mod Wakeups
pub mod Closing
pub mod Histories
pub mod Runs
use cliamp.Base.{
  ℕ, zero, suc, ◌+◌, ◌-◌, ◌≤◌, min, Bool, true, false, not, ◌&&◌, ◌||◌, Option, none, some, List,
  [], ◌∷◌, ◌++◌, ltb, leb, ◌==◌, if◌then◌else◌, length, take, drop,
}
use Prim.Native.String.{String}
use text.Mathlib.Text.{◌==◌ as str_eq}

abbrev nav_buffer_chunk_size : ℕ
nav_buffer_chunk_size = 32768

pub data NavError : Type 0 where
  buffer_closed read_stalled short_write : NavError
  request_error body_error write_error read_error : ℕ → NavError

pub record NavBuffer : Type 0 where
  pub wait : ℕ
  pub download_done : Bool
  pub file : Option (List ℕ)
  pub path : String
  pub downloaded : ℕ
  pub total : Option ℕ
  pub done : Bool
  pub err : Option NavError
  pub closed : Bool
  pub canceled : Bool
  pub close_err : List NavError

-- `newNavBufferFor`; `newNavBufferSegments` sets the total to -1, which is `none`.
abbrev pub new_nav_buffer : String → Option ℕ → NavBuffer
new_nav_buffer path total = record {
  wait = 0;
  download_done = false;
  file = some [];
  path = path;
  downloaded = 0;
  total = total;
  done = false;
  err = none;
  closed = false;
  canceled = false;
  close_err = [];
}

-- `signalLocked`.
abbrev signal : NavBuffer → NavBuffer
signal b = record b { wait = b.wait + 1 }

-- `publish`.
publish : ℕ → NavBuffer → NavBuffer
publish n b = if not b.closed && ltb b.downloaded n then signal (record b { downloaded = n }) else b

abbrev first_error : Option NavError → Option NavError → Option NavError
first_error none e = e
first_error (some x) e = some x

-- `finish`.
finish : Option NavError → NavBuffer → NavBuffer
finish e b = if b.closed then b else signal (record b { err = first_error b.err e; done = true })

-- How a read of a body ends, beside the bytes it gives.
pub data BodyEnd : Type 0 where
  more at_eof : BodyEnd
  failed : ℕ → BodyEnd

-- What the libraries answer to the download: to a read of the body, to a write, and to the request of
-- the next segment.
pub record Supply : Type 0 where
  pub bytes : List ℕ
  pub body_end : BodyEnd
  pub written : ℕ
  pub write_err : Option ℕ
  pub request_err : Option ℕ

-- Where the goroutine of `download` or `downloadSegments` stands, with the segments to come, the offset,
-- and the bytes of the chunk that are not written yet. At `at_written` the write has ended with an
-- error or not, and the file holds its bytes.
pub data Downloader : Type 0 where
  at_top at_body : List String → ℕ → Downloader
  at_chunk at_file : List String → ℕ → List ℕ → BodyEnd → Downloader
  at_written : List String → ℕ → List ℕ → BodyEnd → ℕ → Option ℕ → Downloader
  at_next : List String → ℕ → Downloader
  at_finish : Option NavError → Downloader
  at_exit stopped : Downloader

-- `WriteAt` on the bytes of a file; a gap is filled with zeros.
unfoldable pub write_at : List ℕ → ℕ → List ℕ → List ℕ
write_at [] zero new = new
write_at [] (suc n) new = 0 ∷ write_at [] n new
write_at (b ∷ bs) zero new = new ++ drop (length new) (b ∷ bs)
write_at (b ∷ bs) (suc n) new = b ∷ write_at bs n new

abbrev write_file : Option (List ℕ) → ℕ → List ℕ → Option (List ℕ)
write_file none n new = none
write_file (some f) n new = some (write_at f n new)

abbrev is_open : Option (List ℕ) → Bool
is_open none = false
is_open (some f) = true

-- After the inner loop of `copyBody`.
abbrev chunk_done : List String → ℕ → BodyEnd → Downloader
chunk_done rest offset more = at_top rest offset
chunk_done rest offset at_eof = at_next rest offset
chunk_done rest offset (failed e) = at_finish (some (body_error e))

-- After `publish` in the inner loop: the error of the write, a write of no bytes, or the next round.
abbrev written_next : List String → ℕ → List ℕ → BodyEnd → ℕ → Option ℕ → Downloader
written_next rest offset chunk end wn (some e) = at_finish (some (write_error e))
written_next rest offset chunk end zero none = at_finish (some short_write)
written_next rest offset chunk end (suc wn) none = at_chunk rest offset chunk end

abbrev requested : List String → ℕ → Option ℕ → Downloader
requested rest offset none = at_top rest offset
requested rest offset (some e) = at_finish (some (request_error e))

-- A step of the download. A write of a file that is closed fails.
unfoldable pub download_step : Supply → Downloader → NavBuffer → Downloader × NavBuffer
unfolding publish finish write_at
download_step s (at_top rest offset) b = (if b.closed then at_exit else at_body rest offset, b)
download_step s (at_body rest offset) b = (at_chunk rest offset s.bytes s.body_end, b)
download_step s (at_chunk rest offset [] end) b = (chunk_done rest offset end, b)
download_step s (at_chunk rest offset (c ∷ cs) end) b =
    (if b.closed || not (is_open b.file) then at_exit else at_file rest offset (c ∷ cs) end, b)
download_step s (at_file rest offset chunk end) b =
    let wn : ℕ = if is_open b.file then min s.written (length chunk) else 0 in
    (
      at_written rest (offset + wn) (drop wn chunk) end wn
          (if is_open b.file then s.write_err else some 0),
      record b { file = write_file b.file offset (take wn chunk) },
    )
download_step s (at_written rest offset chunk end wn e) b =
    (written_next rest offset chunk end wn e, if ltb 0 wn then publish offset b else b)
download_step s (at_next [] offset) b = (at_finish none, b)
download_step s (at_next (u ∷ us) offset) b = (requested us offset s.request_err, b)
download_step s (at_finish e) b = (at_exit, finish e b)
download_step s at_exit b = (stopped, record b { download_done = true })
download_step s stopped b = (stopped, b)

-- `completedPath` once the goroutine of the download has ended.
unfoldable pub completed_path : NavBuffer → Option String
completed_path b =
    let short : Bool = elim b.total [ none ↦ false | some n ↦ ltb b.downloaded n ] in
    elim b.err [
      | some e ↦ none
      | none ↦ if b.closed || not b.done || str_eq b.path "" || short then none else some b.path
    ]

-- `Close` up to its wait for the download, once.
pub close_begin : NavBuffer → NavBuffer
close_begin b = signal (record b {
  closed = true;
  done = true;
  err = first_error b.err (some buffer_closed);
  canceled = true;
})

-- The rest of `Close`, with the errors of the file's close and removal; that the file does not exist is
-- no error.
unfoldable pub close_end : List NavError → NavBuffer → NavBuffer
close_end errors b = record b { file = none; path = ""; close_err = errors }
