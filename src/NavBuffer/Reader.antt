-- ===== src/NavBuffer/Reader.antt =====
-- player/nav_buffer.go: `navReader`, and what it does on the buffer.
use cliamp.Base.{
  ℕ, zero, suc, ◌+◌, ◌-◌, min, Bool, true, false, not, ◌||◌, Option, none, some, List, [], ◌++◌,
  ltb, leb, ◌==◌, if◌then◌else◌, length, take, drop,
}
use cliamp.NavBuffer.{
  NavError, buffer_closed, read_stalled, read_error, NavBuffer, nav_buffer_chunk_size,
}

-- What a round of `waitFor` does: it returns, or it waits on the channel, with the count of its last
-- progress.
pub data Round : Type 0 where
  gives : Option NavError → Round
  waits : ℕ → Round

-- A round of `waitFor` up to its `select`.
unfoldable pub wait_round : ℕ → Bool → ℕ → Bool → NavBuffer → Round
wait_round target canceled last expired b =
    if canceled
    then gives (some buffer_closed)
    else if b.closed
    then gives (some buffer_closed)
    else if leb target b.downloaded
    then gives none
    else elim b.err [
      | some e ↦ gives (some e)
      | none ↦
          if b.done
          then gives none
          else if ltb last b.downloaded
          then waits b.downloaded
          else if expired
          then gives (some read_stalled)
          else waits last
    ]

-- `navReader.Read`: where it stands. `waiting` is at the top of the loop of `waitFor` and `selecting` in
-- its `select`, on the channel it has read; `ready` is past it; `holding` holds `readMu` and is about
-- to read a number of bytes of the file.
pub data Phase : Type 0 where
  idle : Phase
  waiting : ℕ → ℕ → Bool → Phase
  selecting : ℕ → ℕ → ℕ → Phase
  ready : ℕ → Phase
  holding : ℕ → Phase

-- The error of a `Read`: the end of the file, or another one.
pub data ReadError : Type 0 where
  eof : ReadError
  nav_error : NavError → ReadError

-- A reader; `output` holds the bytes that its reads have given, and `last_err` the error of the last one.
pub record Reader : Type 0 where
  pub pos : ℕ
  pub canceled : Bool
  pub phase : Phase
  pub output : List ℕ
  pub last_err : Option ReadError

-- `newReader`.
abbrev pub new_reader : Reader
new_reader = record { pos = 0; canceled = false; phase = idle; output = []; last_err = none }

abbrev fails : ReadError → Reader → Reader
fails e r = record r { phase = idle; last_err = some e }

-- The start of `Read` into n bytes.
unfoldable pub begin_read : ℕ → NavBuffer → Reader → Reader
begin_read zero b r = record r { last_err = none }
begin_read (suc n) b r = record r {
  phase = waiting (min (suc n) nav_buffer_chunk_size) b.downloaded false;
}

-- The round of `waitFor` in `Read`.
abbrev pub after_round : ℕ → NavBuffer → Round → Reader → Reader
after_round want b (gives (some e)) r = fails (nav_error e) r
after_round want b (gives none) r = record r { phase = ready want }
after_round want b (waits last) r = record r { phase = selecting want last b.wait }

-- `readAt` up to the read of the file.
abbrev pub look : ℕ → NavBuffer → Reader → Reader
look want b r =
    if b.closed
    then fails (nav_error buffer_closed) r
    else if leb b.downloaded r.pos
    then fails eof r
    else record r { phase = holding (min want (b.downloaded - r.pos)) }

abbrev pub read_file : Option (List ℕ) → ℕ → ℕ → List ℕ
read_file none pos n = []
read_file (some f) pos n = take n (drop pos f)

-- The error of `readAt` once the file is read: a read that is short has one.
abbrev pub read_outcome : Bool → ℕ → NavBuffer → Reader → Option ReadError
read_outcome short e b r =
    if not short
    then none
    else if r.canceled || b.closed
    then some (nav_error buffer_closed)
    else some (nav_error (read_error e))

-- The rest of `readAt` and of `Read`: the file gives at most `got` bytes.
abbrev pub take_bytes : ℕ → ℕ → ℕ → NavBuffer → Reader → Reader
take_bytes count got e b r =
    let bytes : List ℕ = read_file b.file r.pos (min got count) in
    record r {
      pos = r.pos + length bytes;
      phase = idle;
      output = r.output ++ bytes;
      last_err = read_outcome (ltb (length bytes) count) e b r;
    }

-- A step of the goroutine that reads, on its own: `e` is the error of the file if the read is short.
unfoldable pub read_step : ℕ → ℕ → NavBuffer → Reader → Phase → Reader
unfolding wait_round
read_step got e b r idle = r
read_step got e b r (waiting want last expired) =
    after_round want b (wait_round (r.pos + 1) r.canceled last expired b) r
read_step got e b r (selecting want last gen) =
    if r.canceled
    then fails (nav_error buffer_closed) r
    else if gen == b.wait
    then r
    else record r { phase = waiting want last false }
read_step got e b r (ready want) = look want b r
read_step got e b r (holding count) = take_bytes count got e b r

-- The timer of `waitFor`, which the `select` receives.
unfoldable pub expire : Reader → Phase → Reader
expire r (selecting want last gen) = record r { phase = waiting want last true }
expire r p = r

-- `navReader.Close`.
unfoldable pub close_reader : Reader → Reader
close_reader r = record r { canceled = true }
