-- ===== src/Tap/Clock.antt =====
-- player/tap.go: the frames that have been played since the last write, on a clock without overflow.
use cliamp.Base.{ℕ, ◌+◌, ◌-◌, ◌*◌, ◌%◌, ◌^◌, ltb, true, lt→ltb, ◌≤◌, ◌<◌, ◌≡◌, arith}
use cliamp.Tap.{Tap, audible_end, elapsed_frames}

-- The whole frames of a time that is not too long, from their bounds.
elapsed_frames_lem :
    (waited rate since : ℕ)
    → waited * rate < 2 ^ 63
    → since * 1000000000 ≤ waited * rate
    → waited * rate < (since + 1) * 1000000000
    → elapsed_frames waited rate ≡ since
elapsed_frames_lem waited rate since small lower upper =
    let product : ℕ = waited * rate in
    let plain : product % 2 ^ 64 ≡ product = omega (arith, small) in
    let below : ltb product (2 ^ 63) ≡ true = lt→ltb product (2 ^ 63) small in
    rw plain (rw below (omega (arith, lower, upper)))

-- Where the reader ends, with `since` frames played since the last write.
pub audible_end_lem :
    {A : Type 0} (t : Tap A) (waited since rate n : ℕ)
    → waited < 2 ^ 63
    → waited * rate < 2 ^ 63
    → since * 1000000000 ≤ waited * rate
    → waited * rate < (since + 1) * 1000000000
    → (now : ℕ) → now ≡ t.write_at + waited
    → t.sample_rate ≡ rate
    → t.written ≡ n
    → audible_end t now ≡ n - (t.speaker_frames - since)
audible_end_lem t waited since rate n short small lower upper now late same_rate all_written =
    let passed : (now + 2 ^ 64 - t.write_at) % 2 ^ 64 ≡ waited = omega (arith, late, short) in
    rw (passed, audible_end, same_rate)
      (rw (elapsed_frames_lem waited rate since small lower upper) (omega (arith, all_written)))
