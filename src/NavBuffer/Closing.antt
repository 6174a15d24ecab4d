-- ===== src/NavBuffer/Closing.antt =====
-- player/nav_buffer.go: the download once the buffer is closed.
use cliamp.Base.{
  ℕ, zero, suc, ◌-◌, ◌≤◌, ◌<◌, Bool, true, false, not, ◌&&◌, Option, none, some, List, [], ◌∷◌, ltb,
  if◌then◌else◌, length, ◌≡◌, refl, arith,
}
use Prim.Native.String.{String}
use cliamp.NavBuffer.{
  NavBuffer, BodyEnd, more, at_eof, failed, Supply, Downloader, at_top, at_body, at_chunk, at_file,
  at_written, at_next, at_finish, at_exit, stopped, download_step, publish, finish, written_next,
  chunk_done, requested, close_begin,
}

-- How many steps are left, at most, once the buffer is closed.
abbrev rank : Downloader → ℕ
rank stopped = 0
rank at_exit = 1
rank (at_finish e) = 2
rank (at_top rest offset) = 2
rank (at_next rest offset) = 3
rank (at_chunk rest offset chunk end) = 4
rank (at_body rest offset) = 5
rank (at_written rest offset chunk end wn e) = 5
rank (at_file rest offset chunk end) = 6

abbrev closed_if :
    (c : Bool) (b b' : NavBuffer)
    → (b.closed ≡ true)
    → (b'.closed ≡ true)
    → (if c then b else b').closed ≡ true
closed_if true b b' h k = h
closed_if false b b' h k = k

written_next-rank :
    (rest : List String) (offset : ℕ) (chunk : List ℕ) (end : BodyEnd) (wn : ℕ) (e : Option ℕ)
    → rank (written_next rest offset chunk end wn e) < 5
written_next-rank rest offset chunk end wn (some e) = omega arith
written_next-rank rest offset chunk end zero none = omega arith
written_next-rank rest offset chunk end (suc wn) none = omega arith

chunk_done-rank :
    (rest : List String) (offset : ℕ) (end : BodyEnd) → rank (chunk_done rest offset end) < 4
chunk_done-rank rest offset more = omega arith
chunk_done-rank rest offset at_eof = omega arith
chunk_done-rank rest offset (failed e) = omega arith

requested-rank :
    (rest : List String) (offset : ℕ) (e : Option ℕ) → rank (requested rest offset e) < 3
requested-rank rest offset none = omega arith
requested-rank rest offset (some e) = omega arith

download_step-rank :
    (s : Supply) (d : Downloader) (b : NavBuffer)
    → b.closed ≡ true
    → let x = download_step s d b in (rank x.0 ≤ rank d - 1) × (x.1.closed ≡ true)
unfolding download_step finish publish
download_step-rank s (at_top rest offset) b c = (rw c (omega arith), c)
download_step-rank s (at_body rest offset) b c = (omega arith, c)
download_step-rank s (at_chunk rest offset [] end) b c =
    (omega (arith, chunk_done-rank rest offset end), c)
download_step-rank s (at_chunk rest offset (x ∷ xs) end) b c = (rw c (omega arith), c)
download_step-rank s (at_file rest offset chunk end) b c = (omega arith, c)
download_step-rank s (at_written rest offset chunk end wn e) b c = (
  omega (arith, written_next-rank rest offset chunk end wn e),
  closed_if (ltb 0 wn) _ b (closed_if (not b.closed && ltb b.downloaded offset) _ b c c) c,
)
download_step-rank s (at_next [] offset) b c = (omega arith, c)
download_step-rank s (at_next (u ∷ us) offset) b c =
    (omega (arith, requested-rank us offset s.request_err), c)
download_step-rank s (at_finish e) b c = (omega arith, closed_if b.closed b _ c c)
download_step-rank s at_exit b c = (omega arith, c)
download_step-rank s stopped b c = (omega arith, c)

pub download : List Supply → Downloader × NavBuffer → Downloader × NavBuffer
unfolding download_step
download [] x = x
download (s ∷ ss) x = download ss (download_step s x.0 x.1)

download-rank :
    (ss : List Supply) (d : Downloader) (b : NavBuffer)
    → b.closed ≡ true
    → rank (download ss (d, b)).0 ≤ rank d - length ss
unfolding download
download-rank [] d b c = omega arith
download-rank (s ∷ ss) d b c =
    let (le, c') = download_step-rank s d b c in
    let rest = download-rank ss (download_step s d b).0 (download_step s d b).1 c' in
    omega (arith, rest, le)

rank-stopped : (d : Downloader) → rank d ≡ 0 → d ≡ stopped
rank-stopped stopped h = refl
rank-stopped at_exit h = absurd (omega (arith, h))
rank-stopped (at_finish e) h = absurd (omega (arith, h))
rank-stopped (at_top rest offset) h = absurd (omega (arith, h))
rank-stopped (at_next rest offset) h = absurd (omega (arith, h))
rank-stopped (at_chunk rest offset chunk end) h = absurd (omega (arith, h))
rank-stopped (at_body rest offset) h = absurd (omega (arith, h))
rank-stopped (at_written rest offset chunk end wn e) h = absurd (omega (arith, h))
rank-stopped (at_file rest offset chunk end) h = absurd (omega (arith, h))

rank-le : (d : Downloader) → rank d ≤ 6
rank-le stopped = omega arith
rank-le at_exit = omega arith
rank-le (at_finish e) = omega arith
rank-le (at_top rest offset) = omega arith
rank-le (at_next rest offset) = omega arith
rank-le (at_chunk rest offset chunk end) = omega arith
rank-le (at_body rest offset) = omega arith
rank-le (at_written rest offset chunk end wn e) = omega arith
rank-le (at_file rest offset chunk end) = omega arith

-- Once `Close` has begun, the download stops within six of its steps wherever it stands, with any
-- number of segments to come and whatever the bodies, the writes and the requests answer: the wait of
-- `Close` for it ends.
pub close_begin-download :
    (ss : List Supply) (d : Downloader) (b : NavBuffer)
    → 6 ≤ length ss
    → (download ss (d, close_begin b)).0 ≡ stopped
unfolding close_begin
close_begin-download ss d b h =
    rank-stopped _ (omega (arith, download-rank ss d (close_begin b) refl, rank-le d, h))
