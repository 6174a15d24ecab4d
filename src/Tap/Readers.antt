-- ===== src/Tap/Readers.antt =====
-- player/tap.go: `SamplesInto`, `WaveformSamplesInto` and `StereoSamplesInto` after any calls of `Stream`.
use cliamp.Base.{
  ℕ, zero, suc, ◌+◌, ◌-◌, ◌*◌, ◌%◌, ◌^◌, ◌≤◌, ◌<◌, min, List, [], ◌∷◌, ◌++◌, map, length, take,
  drop, get_elem?, ◌==◌, ◌||◌, false, ◌≡◌, refl, sym, ap, ◌∙◌, arith, inl, inr, Bool-cases,
  length-append, length-drop,
}
use native.Mathlib.Nat.{mod-eq_of_lt, mod-add-mod, add-mod_right, zero-mod}
use cliamp.Tap.{
  Tap, new_tap, silent, stream, window, samples_into_at, samples_into, waveform_samples_into,
  stereo_samples_into, audible_end, count_at,
}
use cliamp.Tap.Window.{length-silent, heard, Holds, length-heard, write_frames-Holds, append_nil}
use cliamp.Tap.Clock.{audible_end_lem}
use cliamp.Tap.Latest.{window-heard}

-- Calls of `Stream`, each with its frames and its time, and all their frames.
unfoldable pub played : {A : Type 0} → List (List A × ℕ) → Tap A → Tap A
unfolding stream
played [] t = t
played ((frames, now) ∷ calls) t = played calls (stream frames now t)

abbrev pub all_frames : {A : Type 0} → List (List A × ℕ) → List A
all_frames [] = []
all_frames ((frames, now) ∷ calls) = frames ++ all_frames calls

pub record IsTap {A : Type 0} (silence : A) (all : List A) (t : Tap A) : Type 0 where
  pub holds : Holds silence t.size t.buf t.pos all
  pub written_eq : t.written ≡ length all

-- The time of the last call of `Stream`, from the one given on.
abbrev pub last_time : {A : Type 0} → List (List A × ℕ) → ℕ → ℕ
last_time [] now = now
last_time ((frames, later) ∷ calls) now = last_time calls later

played-settings :
    {A : Type 0} (calls : List (List A × ℕ)) (t : Tap A)
    → ((played calls t).size ≡ t.size)
      × ((played calls t).sample_rate ≡ t.sample_rate)
      × ((played calls t).speaker_frames ≡ t.speaker_frames)
      × ((played calls t).write_at ≡ last_time calls t.write_at)
unfolding played stream
played-settings [] t = (refl, refl, refl, refl)
played-settings ((frames, now) ∷ calls) t = played-settings calls (stream frames now t)

drop_append : {A : Type 0} (xs ys : List A) (m : ℕ) → drop (length xs + m) (xs ++ ys) ≡ drop m ys
drop_append [] ys m = ap (λ n. drop n ys) (omega arith)
drop_append (x ∷ xs) ys m =
    let shifted : length (x ∷ xs) + m ≡ suc (length xs + m) = omega arith in
    ap (λ n. drop n (x ∷ (xs ++ ys))) shifted ∙ drop_append xs ys m

take_all : {A : Type 0} (n : ℕ) (xs : List A) → length xs ≤ n → take n xs ≡ xs
take_all zero [] h = refl
take_all zero (x ∷ xs) h = absurd (omega (arith, h))
take_all (suc n) [] h = refl
take_all (suc n) (x ∷ xs) h = ap (λ l. x ∷ l) (take_all n xs (omega (arith, h)))

append_assoc : {A : Type 0} (a b c : List A) → (a ++ b) ++ c ≡ a ++ (b ++ c)
append_assoc [] b c = refl
append_assoc (x ∷ a) b c = ap (λ y. x ∷ y) (append_assoc a b c)

module _ {A : Type 0} (silence : A) where
  new_tap-IsTap :
      (size rate speaker : ℕ) → 0 < size → IsTap silence [] (new_tap silence size rate speaker)
  new_tap-IsTap size rate speaker h = record {
    holds = record {
      length_eq = length-silent silence size;
      positive = h;
      pos_eq = sym (zero-mod size);
      frame_eq = λ i small.
          let plain : 0 + i ≡ i = omega arith in
          rw plain (
            ap (get_elem? (silent silence size)) (mod-eq_of_lt small)
            ∙ ap (λ l. get_elem? l i) (sym (append_nil (silent silence size))));
    };
    written_eq = refl;
  }

  played-IsTap :
      (calls : List (List A × ℕ)) (t : Tap A) (all : List A)
      → IsTap silence all t
      → IsTap silence (all ++ all_frames calls) (played calls t)
  unfolding played stream
  played-IsTap [] t all h = rw (append_nil all) h
  played-IsTap ((frames, now) ∷ calls) t all h = rw⁻¹ (append_assoc all frames (all_frames calls)) (
      played-IsTap calls (stream frames now t) (all ++ frames) (record {
        holds = write_frames-Holds silence t.size t.buf t.pos all frames h.holds;
        written_eq = omega (arith, h.written_eq, length-append all frames);
      }))

  -- `StereoSamplesInto` gives the latest frames too, behind silence where fewer have been written.
  pub stereo_samples_into-latest :
      (size rate speaker : ℕ) (calls : List (List A × ℕ)) (want : ℕ)
      → 0 < size
      → let t : Tap A = played calls (new_tap silence size rate speaker) in
        let all : List A = all_frames calls in
        stereo_samples_into t want
        ≡ drop (t.size + length all - min want t.size) (heard silence t.size all)
  unfolding stereo_samples_into
  stereo_samples_into-latest size rate speaker calls want positive =
      let t : Tap A = played calls (new_tap silence size rate speaker) in
      let all : List A = all_frames calls in
      let h =
        played-IsTap calls (new_tap silence size rate speaker) []
          (new_tap-IsTap size rate speaker positive) in
      let n : ℕ = min want t.size in
      let from : ℕ = t.size + length all - n in
      let apart : t.pos + t.size - n ≡ t.pos + (t.size - n) = omega arith in
      let joined : length all + (t.size - n) ≡ from = omega arith in
      let start : (t.pos + t.size - n) % t.size ≡ from % t.size =
        ap (λ m. m % t.size) apart
        ∙ (ap (λ p. (p + (t.size - n)) % t.size) h.holds.pos_eq
            ∙ (mod-add-mod (length all) t.size (t.size - n) ∙ ap (λ m. m % t.size) joined)) in
      ap (λ m. window t.size t.buf m n) start
      ∙ (window-heard silence t.size t.buf t.pos all from n h.holds (omega arith) (omega arith)
            (omega arith)
          ∙ take_all n (drop from (heard silence t.size all)) (
              omega (
                arith,
                length-drop from (heard silence t.size all),
                length-heard silence t.size all,
              )))

module _ {A B : Type 0} (silence : A) (mono : A → B) where
  samples_into_at-latest :
      (t : Tap A) (all : List A) (want end : ℕ)
      → IsTap silence all t
      → end ≤ length all
      → length all + count_at t want end ≤ end + t.size
      → samples_into_at mono t want end
        ≡ map mono (take (count_at t want end) (drop (end - count_at t want end) all))
  unfolding samples_into_at
  samples_into_at-latest t all want end h le kept =
      let c : ℕ = count_at t want end in
      elim (Bool-cases (min want t.size == 0 || end == 0)) [
        | inl nothing ↦
            let none_wanted : c ≡ 0 = ground (arith, nothing) in
            rw nothing (sym (ap (λ k. map mono (take k (drop (end - k) all))) none_wanted))
        | inr some_wanted ↦
            let from : ℕ = end - c + t.size in
            let same : from % t.size ≡ (end - c) % t.size = add-mod_right (end - c) t.size in
            let stretch =
              window-heard silence t.size t.buf t.pos all from c h.holds (omega arith)
                (omega (arith, kept)) (omega (arith, le)) in
            let start : from ≡ length (silent silence t.size) + (end - c) =
              omega (arith, length-silent silence t.size) in
            rw some_wanted (
              ap (map mono) (
                ap (λ m. window t.size t.buf m c) (sym same)
                ∙ (stretch
                    ∙ ap (take c) (
                        ap (λ m. drop m (heard silence t.size all)) start
                        ∙ drop_append (silent silence t.size) all (end - c)))))
      ]

  -- After any calls of `Stream` on a new tap with a ring that is not empty, `SamplesInto` gives the mono mix of
  -- the latest frames, as many as are asked for, fit in the ring and have been written, in order.
  pub samples_into-latest :
      (size rate speaker : ℕ) (calls : List (List A × ℕ)) (want : ℕ)
      → 0 < size
      → let t : Tap A = played calls (new_tap silence size rate speaker) in
        let all : List A = all_frames calls in
        samples_into mono t want ≡ map mono (drop (length all - min want t.size) all)
  unfolding samples_into
  samples_into-latest size rate speaker calls want positive =
      let t : Tap A = played calls (new_tap silence size rate speaker) in
      let all : List A = all_frames calls in
      let h =
        played-IsTap silence calls (new_tap silence size rate speaker) []
          (new_tap-IsTap silence size rate speaker positive) in
      let c : ℕ = count_at t want (length all) in
      let from : length all - c ≡ length all - min want t.size = omega arith in
      ap (samples_into_at mono t want) h.written_eq
      ∙ (samples_into_at-latest t all want (length all) h (omega arith) (omega arith)
          ∙ ap (map mono) (
              take_all c (drop (length all - c) all)
                (omega (arith, length-drop (length all - c) all))
              ∙ ap (λ m. drop m all) from))

  -- `WaveformSamplesInto` on a tap with a sample rate and a speaker's buffer, in a ring that holds this buffer
  -- beside the frames asked for, `waited` nanoseconds after the last call of `Stream`, in which `since` whole
  -- frames have been played, on a clock without overflow: it gives the mono mix of consecutive frames, as many
  -- as are asked for, fit in the ring and exist. They end `speaker - since` frames before the last frame
  -- written, with the last one written if `speaker` is not above `since`.
  pub waveform_samples_into-audible :
      (size rate speaker : ℕ) (calls : List (List A × ℕ)) (want waited since : ℕ)
      → 0 < size
      → 0 < rate
      → 0 < speaker
      → min want size + speaker ≤ size
      → waited * rate < 2 ^ 63
      → last_time calls 0 + waited < 2 ^ 63
      → since * 1000000000 ≤ waited * rate
      → waited * rate < (since + 1) * 1000000000
      → let all : List A = all_frames calls in
        let end : ℕ = length all - (speaker - since) in
        let count : ℕ = min (min want size) end in
        waveform_samples_into mono
          (played calls (new_tap silence size rate speaker))
          want
          (last_time calls 0 + waited)
        ≡ map mono (take count (drop (end - count) all))
  unfolding waveform_samples_into
  waveform_samples_into-audible size rate speaker calls want waited since positive has_rate
        has_speaker fits small_product clock lower upper =
      let t : Tap A = played calls (new_tap silence size rate speaker) in
      let all : List A = all_frames calls in
      let now : ℕ = last_time calls 0 + waited in
      let end : ℕ = length all - (speaker - since) in
      let h =
        played-IsTap silence calls (new_tap silence size rate speaker) []
          (new_tap-IsTap silence size rate speaker positive) in
      let kept = played-settings calls (new_tap silence size rate speaker) in
      let audible : audible_end t now ≡ end =
        audible_end_lem t waited since rate (length all) (omega (arith, clock)) small_product lower
          upper now (omega (arith, kept.3)) kept.1 h.written_eq
        ∙ omega (arith, kept.2) in
      let latest =
        samples_into_at-latest t all want end h (omega arith) (omega (arith, fits, kept.0)) in
      let counts : count_at t want end ≡ min (min want size) end = omega (arith, kept.0) in
      let rate_test : (t.sample_rate == 0) ≡ false = ground (arith, kept.1, has_rate) in
      let speaker_test : (t.speaker_frames == 0) ≡ false = ground (arith, kept.2, has_speaker) in
      let read : samples_into_at mono t want end
          ≡ map mono (take (min (min want size) end) (drop (end - min (min want size) end) all)) =
        latest ∙ ap (λ c. map mono (take c (drop (end - c) all))) counts in
      elim (Bool-cases (t.written == 0)) [
        | inl e ↦
            let nothing : t.written ≡ 0 = ground (arith, e) in
            let none_wanted : min (min want size) end ≡ 0 = omega (arith, nothing, h.written_eq) in
            rw e (sym (ap (λ k. map mono (take k (drop (end - k) all))) none_wanted))
        | inr e ↦
            rw e (rw rate_test (rw speaker_test (ap (samples_into_at mono t want) audible ∙ read)))
      ]
