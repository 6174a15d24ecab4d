-- ===== src/NavBuffer/System.antt =====
-- player/nav_buffer.go: a buffer with its download, one of its readers, and `Close`. A reader changes
-- nothing that another one reads but `readMu`, which only delays, so one reader stands for each.
use cliamp.Base.{ℕ, Bool, false, List, [], ◌∷◌, ◌++◌, Option, if◌then◌else◌, ◌&&◌}
use Prim.Native.String.{String}
use cliamp.NavBuffer.{
  NavError, NavBuffer, new_nav_buffer, Supply, Downloader, at_top, at_body, download_step,
  close_begin, close_end, is_open,
}
use cliamp.NavBuffer.Reader.{
  Phase, idle, holding, Reader, new_reader, begin_read, read_step, expire, close_reader,
}

-- `received` is what the bodies have given to the download, one after the other.
pub record World : Type 0 where
  pub buffer : NavBuffer
  pub downloader : Downloader
  pub received : List ℕ
  pub reader : Reader

pub data Move : Type 0 where
  download_move : Supply → Move
  begin_move : ℕ → Move
  read_move : ℕ → ℕ → Move
  timer_move close_reader_move close_begin_move : Move
  close_end_move : List NavError → Move

-- What has arrived after a step of the download: a read of a body adds to it.
abbrev pub arrived : Supply → Downloader → List ℕ → List ℕ
arrived s (at_body rest offset) r = r ++ s.bytes
arrived s d r = r

-- `Read` is called when the one before has returned.
abbrev pub begin_idle : ℕ → NavBuffer → Reader → Phase → Reader
begin_idle n b r idle = begin_read n b r
begin_idle n b r p = r

-- The download has ended, and no reader holds `readMu`.
abbrev pub may_end : NavBuffer → Phase → Bool
may_end b (holding count) = false
may_end b p = b.download_done

unfoldable pub step : Move → World → World
unfolding download_step begin_read read_step expire close_reader close_begin close_end
step (download_move s) w =
    let (d, b) = download_step s w.downloader w.buffer in
    record w { buffer = b; downloader = d; received = arrived s w.downloader w.received }
step (begin_move n) w = record w { reader = begin_idle n w.buffer w.reader w.reader.phase }
step (read_move got e) w = record w { reader = read_step got e w.buffer w.reader w.reader.phase }
step timer_move w = record w { reader = expire w.reader w.reader.phase }
step close_reader_move w = record w { reader = close_reader w.reader }
step close_begin_move w = record w {
  buffer = if w.buffer.closed then w.buffer else close_begin w.buffer;
}
step (close_end_move errors) w = record w {
  buffer =
      if w.buffer.closed && is_open w.buffer.file && may_end w.buffer w.reader.phase
      then close_end errors w.buffer
      else w.buffer;
}

unfoldable pub run : List Move → World → World
unfolding step
run [] w = w
run (m ∷ ms) w = run ms (step m w)

-- A buffer whose download is about to read its first body, and a reader of it.
abbrev pub new_world : String → Option ℕ → List String → World
new_world path total rest = record {
  buffer = new_nav_buffer path total;
  downloader = at_top rest 0;
  received = [];
  reader = new_reader;
}
