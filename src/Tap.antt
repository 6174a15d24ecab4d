-- ===== src/Tap.antt =====
-- player/tap.go: the ring buffer of the latest frames. A frame is a value of a type A, `silence` is the
-- zero one, and `mono` is the mean of its two samples. What the inner streamer gives is an argument.
pub mod Window
pub mod Latest
pub mod Clock
pub mod Readers
use cliamp.Base.{
  ℕ, zero, suc, ◌+◌, ◌-◌, ◌*◌, ◌/◌, ◌%◌, ◌^◌, min, max, List, [], ◌∷◌, ◌++◌, map, length, take,
  drop, set, ltb, leb, ◌==◌, ◌||◌, Bool, true, false, if◌then◌else◌,
}

pub record Tap (A : Type 0) : Type 0 where
  pub buf : List A
  pub pos : ℕ
  pub written : ℕ
  pub write_at : ℕ
  pub size : ℕ
  pub sample_rate : ℕ
  pub speaker_frames : ℕ

abbrev silent : {A : Type 0} → A → ℕ → List A
silent silence zero = []
silent silence (suc n) = silence ∷ silent silence n

-- `newTap`; the size of the speaker's buffer is not negative.
abbrev pub new_tap : {A : Type 0} → A → ℕ → ℕ → ℕ → Tap A
new_tap silence buf_size sample_rate speaker_frames = record {
  buf = silent silence buf_size;
  pos = 0;
  written = 0;
  write_at = 0;
  size = buf_size;
  sample_rate = sample_rate;
  speaker_frames = speaker_frames;
}

-- The loop of `Stream`: the buffer and the position.
unfoldable pub write_frames : {A : Type 0} → ℕ → List A → ℕ → List A → List A × ℕ
write_frames size buf p [] = (buf, p)
write_frames size buf p (x ∷ xs) = write_frames size (set buf p x) ((p + 1) % size) xs

-- `Stream`, of frames that the inner streamer has given, at a time in nanoseconds.
stream : {A : Type 0} → List A → ℕ → Tap A → Tap A
unfolding write_frames
stream frames now t =
    let (buf, p) = write_frames t.size t.buf t.pos frames in
    record t { buf = buf; pos = p; written = t.written + length frames; write_at = now }

-- n frames of the ring from `start` on.
abbrev window : {A : Type 0} → ℕ → List A → ℕ → ℕ → List A
window size buf start n =
    let first : ℕ = min n (size - start) in take first (drop start buf) ++ take (n - first) buf

abbrev pub count_at : {A : Type 0} → Tap A → ℕ → ℕ → ℕ
count_at t want end = min (min want t.size) end

-- `samplesIntoAt`, for a slice of length `want`. Where nothing is to be read the ring may be empty.
samples_into_at : {A B : Type 0} → (A → B) → Tap A → ℕ → ℕ → List B
samples_into_at mono t want end =
    if min want t.size == 0 || end == 0
    then []
    else map mono (window t.size t.buf ((end - count_at t want end) % t.size) (count_at t want end))

-- `SamplesInto`.
unfoldable pub samples_into : {A B : Type 0} → (A → B) → Tap A → ℕ → List B
unfolding samples_into_at
samples_into mono t want = samples_into_at mono t want t.written

-- The frames that have been played since the last write, from a 64-bit number of nanoseconds; a product
-- beyond 2 ^ 63 is negative, and counts as none.
abbrev pub elapsed_frames : ℕ → ℕ → ℕ
elapsed_frames nanoseconds rate =
    let product : ℕ = nanoseconds * rate % 2 ^ 64 in
    if ltb product (2 ^ 63) then product / 1000000000 else 0

-- Where `WaveformSamplesInto` ends to read, with the speaker's buffer in use.
abbrev pub audible_end : {A : Type 0} → Tap A → ℕ → ℕ
audible_end t now =
    min
      (t.written
        + elapsed_frames ((now + 2 ^ 64 - t.write_at) % 2 ^ 64) t.sample_rate
        - t.speaker_frames)
      t.written

-- `WaveformSamplesInto`.
unfoldable pub waveform_samples_into : {A B : Type 0} → (A → B) → Tap A → ℕ → ℕ → List B
unfolding samples_into_at
waveform_samples_into mono t want now =
    if t.written == 0 || t.sample_rate == 0
    then []
    else if t.speaker_frames == 0
    then samples_into_at mono t want t.written
    else samples_into_at mono t want (audible_end t now)

-- `StereoSamplesInto`.
pub stereo_samples_into : {A : Type 0} → Tap A → ℕ → List A
stereo_samples_into t want =
    let n : ℕ = min want t.size in window t.size t.buf ((t.pos + t.size - n) % t.size) n
