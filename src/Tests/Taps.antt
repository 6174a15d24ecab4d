-- ===== src/Tests/Taps.antt =====
-- player/tap.go on small inputs.
use cliamp.Base.{ℕ, ◌+◌, ◌-◌, ◌≡◌, refl, min, List, [], ◌∷◌, map, length, take, drop, arith}
use cliamp.Tap.{Tap, new_tap, samples_into, waveform_samples_into, stereo_samples_into}
use cliamp.Tap.Window.{heard}
use cliamp.Tap.Readers.{
  played, all_frames, samples_into-latest, stereo_samples_into-latest,
  waveform_samples_into-audible,
}

abbrev calls : List (List ℕ × ℕ)
calls = (1 ∷ 2 ∷ 3 ∷ [], 10) ∷ (4 ∷ 5 ∷ 6 ∷ [], 1000000000) ∷ []

abbrev mono : ℕ → ℕ
mono frame = frame + 100

-- A ring of four places, one frame a second, and a speaker that buffers two frames.
abbrev tap : Tap ℕ
tap = played calls (new_tap 0 4 1 2)

latest_two : samples_into mono tap 2 ≡ 105 ∷ 106 ∷ []
unfolding samples_into played
latest_two = refl

audible : waveform_samples_into mono tap 2 2000000000 ≡ 104 ∷ 105 ∷ []
unfolding waveform_samples_into played
audible = refl

samples_into-latest_example :
    samples_into mono tap 3
    ≡ map mono (drop (length (all_frames calls) - min 3 tap.size) (all_frames calls))
samples_into-latest_example = samples_into-latest 0 mono 4 1 2 calls 3 (omega arith)

stereo_samples_into-latest_example :
    stereo_samples_into tap 3
    ≡ drop
        (tap.size + length (all_frames calls) - min 3 tap.size)
        (heard 0 tap.size (all_frames calls))
stereo_samples_into-latest_example = stereo_samples_into-latest 0 4 1 2 calls 3 (omega arith)

waveform_samples_into-audible_example :
    waveform_samples_into mono (played calls (new_tap 0 4 1 2)) 2 (1000000000 + 1000000000)
    ≡ map mono (take 2 (drop 3 (all_frames calls)))
waveform_samples_into-audible_example =
    waveform_samples_into-audible 0 mono 4 1 2 calls 2 1000000000 1 (omega arith) (omega arith)
      (omega arith) (omega arith) (omega arith) (omega arith) (omega arith) (omega arith)
