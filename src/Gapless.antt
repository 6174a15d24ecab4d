-- ===== src/Gapless.antt =====
-- player/gapless.go: the streamer at the bottom of the audio pipeline. A source is a handle, the
-- identity of a `beep.Streamer`. What a source's `Stream` returned is an input: the samples it
-- filled, and its flag. `Stream` is two critical sections with a read outside the lock between
-- them and the callback behind them: three steps, between which other methods may run. Speaker lock
-- and atomics add no state.
pub mod Transitions
pub mod Buffers
use cliamp.Base.{
  ℕ, zero, suc, ◌+◌, ◌-◌, ◌%◌, ◌^◌, Bool, true, false, not, ◌||◌, Option, none, some, List, [], ◌∷◌,
  ◌++◌, ltb, ◌==◌, if◌then◌else◌, length, take,
}

pub record Streamer : Type 0 where
  pub current : Option ℕ
  pub next : Option ℕ
  pub current_version : ℕ
  pub next_token : ℕ
  pub next_token_seq : ℕ
  pub drained : Bool

-- The zero value.
abbrev pub idle : Streamer
idle = record {
  current = none;
  next = none;
  current_version = 0;
  next_token = 0;
  next_token_seq = 0;
  drained = false;
}

-- `x++` on a uint64.
abbrev increment : ℕ → ℕ
increment n = (n + 1) % 2 ^ 64

-- `SetNext`: the streamer behind it, and the token.
pub set_next : Option ℕ → Streamer → Streamer × ℕ
set_next none g = (record g { next = none; next_token = 0 }, 0)
set_next (some s) g =
    let token : ℕ = increment g.next_token_seq in
    (record g { next = some s; next_token = token; next_token_seq = token }, token)

-- `Replace`.
unfoldable pub replace_source : Option ℕ → Streamer → Streamer
replace_source s g = record g {
  current = s;
  next = none;
  current_version = increment g.current_version;
  next_token = 0;
  drained = false;
}

-- `Clear`.
unfoldable pub clear_sources : Streamer → Streamer
clear_sources g = record g {
  current = none;
  next = none;
  current_version = increment g.current_version;
  next_token = 0;
  drained = false;
}

-- The first critical section of `Stream`: the source to read and the version, or `none` when the
-- buffer is filled with silence at once.
unfoldable pub stream_begin : Streamer → Option (ℕ × ℕ)
stream_begin g = elim g.current [ none ↦ none | some cur ↦ some (cur, g.current_version) ]

-- How the second critical section goes on.
pub data Handover : Type 0 where
  unchanged : Handover
  stale : Handover
  promoted : ℕ → ℕ → Handover
  ran_dry : Handover

-- The second critical section, behind a read that filled `n` of `len` samples: no handover while the
-- source goes on, a stale one if the version has changed since; otherwise the next source takes over.
-- `promoted` carries its handle and its token.
pub stream_commit : ℕ → Bool → ℕ → ℕ → Streamer → Streamer × Handover
stream_commit version goes_on n len g =
    if not (not goes_on || ltb n len)
    then (g, unchanged)
    else if not (version == g.current_version)
    then (g, stale)
    else (
      record g {
        current = g.next;
        next = none;
        next_token = 0;
        current_version = increment g.current_version;
      },
      elim g.next [ none ↦ ran_dry | some s ↦ promoted s g.next_token ],
    )

-- Behind the critical section: the token that `onSwap` is called with, and the `drained` flag.
stream_publish : Handover → Streamer → Streamer × Option ℕ
stream_publish unchanged g = (g, none)
stream_publish stale g = (g, none)
stream_publish (promoted s token) g = (record g { drained = false }, some token)
stream_publish ran_dry g = (record g { drained = true }, none)

module _ {ℓ} {Sample : Type ℓ} where
  -- `n` zero samples.
  abbrev silent : Sample → ℕ → List Sample
  silent silence zero = []
  silent silence (suc n) = silence ∷ silent silence n

  -- What `Stream` with a current source leaves in a buffer of `len` samples: what this source filled,
  -- what the next one filled of the rest (the call is made if there is a rest), and silence.
  pub filled : Sample → ℕ → Handover → List Sample → List Sample → List Sample
  filled silence len (promoted s token) xs ys =
      let more : List Sample = if ltb (length xs) len then ys else [] in
      xs ++ more ++ silent silence (len - (length xs + length more))
  filled silence len _ xs ys = xs ++ silent silence (len - length xs)

  -- `Stream` of a buffer of `len` samples, as what it leaves there: it begins in the first streamer, and the
  -- second is what other methods have made of it when the read is over. `xs` is what the current source
  -- fills, with its flag, and `ys` what the next one fills if it is called.
  pub stream_buffer :
      Sample → ℕ → Streamer → Bool → List Sample → Streamer → List Sample → List Sample
  unfolding filled stream_begin stream_commit
  stream_buffer silence len g goes_on xs later ys = elim (stream_begin g) [
    | none ↦ silent silence len
    | some begun ↦ filled silence len (stream_commit begun.1 goes_on (length xs) len later).1 xs ys
  ]
