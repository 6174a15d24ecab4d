-- ===== src/NavBuffer/Reads.antt =====
-- player/nav_buffer.go: what a reader has read.
use cliamp.Base.{
  ℕ, zero, suc, ◌+◌, ◌-◌, ◌≤◌, ◌<◌, min, Bool, true, false, ◌||◌, Option, none, some, List, [], ◌∷◌,
  ◌++◌, ltb, leb, ◌==◌, if◌then◌else◌, length, take, drop, ◌≡◌, refl, sym, ap, ◌∙◌, arith, ◌⊎◌, inl,
  inr, Bool-cases, Option-cases, length-append, length-take, length-drop,
}
use cliamp.NavBuffer.{
  buffer_closed, NavBuffer, Downloader, at_top, at_body, at_chunk, at_file, at_written, at_next,
  at_finish, at_exit, stopped, is_open,
}
use cliamp.NavBuffer.Reader.{
  ReadError, eof, nav_error, Round, gives, waits, wait_round, Phase, idle, waiting, selecting,
  ready, holding, Reader, after_round, look, read_file, read_outcome, take_bytes, read_step,
}
use cliamp.NavBuffer.Contents.{Contents, Keeps, IsPrefix, has_ended, append_nil}
use cliamp.NavBuffer.Progress.{Later, IsExact, ended-exact}

abbrev pub PhaseOk : NavBuffer → ℕ → Phase → Type 0
PhaseOk b pos (ready want) =
    b.closed ≡ false → (pos < b.downloaded) ⊎ ((b.done ≡ true) × (b.err ≡ none))
PhaseOk b pos (holding count) = (pos + count ≤ b.downloaded) × (is_open b.file ≡ true)
PhaseOk b pos p = Unit

-- The output is what has arrived up to the position; after the error `eof` it is all that arrives.
pub record Reads (d : Downloader) (b : NavBuffer) (r : List ℕ) (x : Reader) : Type 0 where
  pub pos_eq : x.pos ≡ length x.output
  pub output_eq : x.output ≡ take x.pos r
  pub pos_le : x.pos ≤ length r
  pub phase_ok : PhaseOk b x.pos x.phase
  pub eof_ok : x.last_err ≡ some eof → (x.output ≡ r) × (has_ended d ≡ true)

take_more : (n : ℕ) (f xs : List ℕ) → take (length (take n f)) (f ++ xs) ≡ take n f
take_more zero f xs = refl
take_more (suc n) [] xs = refl
take_more (suc n) (a ∷ f) xs = ap (λ t. a ∷ t) (take_more n f xs)

take_nil : (n : ℕ) → take {A = ℕ} n [] ≡ []
take_nil zero = refl
take_nil (suc n) = refl

take_slice :
    (pos n : ℕ) (f xs : List ℕ)
    → take (pos + length (take n (drop pos f))) (f ++ xs)
      ≡ take pos (f ++ xs) ++ take n (drop pos f)
take_slice zero n f xs = ap (λ k. take k (f ++ xs)) (omega arith) ∙ take_more n f xs
take_slice (suc pos) n [] xs =
    let none_more : suc pos + 0 ≡ suc pos = omega arith in
    rw (take_nil n) (ap (λ k. take k xs) none_more ∙ sym (append_nil (take (suc pos) xs)))
take_slice (suc pos) n (a ∷ f) xs =
    let n' : ℕ = length (take n (drop pos f)) in
    let shifted : suc pos + n' ≡ suc (pos + n') = omega arith in
    ap (λ k. take k (a ∷ (f ++ xs))) shifted ∙ ap (λ t. a ∷ t) (take_slice pos n f xs)

take_all : (n : ℕ) (r : List ℕ) → length r ≤ n → take n r ≡ r
take_all zero [] h = refl
take_all (suc n) [] h = refl
take_all zero (x ∷ r) h = absurd (omega (arith, h))
take_all (suc n) (x ∷ r) h = ap (λ t. x ∷ t) (take_all n r (omega (arith, h)))

take_prefix : (n : ℕ) (r xs : List ℕ) → n ≤ length r → take n (r ++ xs) ≡ take n r
take_prefix zero r xs h = refl
take_prefix (suc n) [] xs h = absurd (omega (arith, h))
take_prefix (suc n) (x ∷ r) xs h = ap (λ t. x ∷ t) (take_prefix n r xs (omega (arith, h)))

Keeps-IsPrefix : (d : Downloader) (f r : List ℕ) → Keeps d f r → IsPrefix f r
Keeps-IsPrefix (at_top rest offset) f r k = ([], k.1)
Keeps-IsPrefix (at_body rest offset) f r k = ([], k.1)
Keeps-IsPrefix (at_chunk rest offset chunk end) f r k = (chunk, k.1)
Keeps-IsPrefix (at_file rest offset chunk end) f r k = (chunk, k.1)
Keeps-IsPrefix (at_written rest offset chunk end wn e) f r k = (chunk, k.1)
Keeps-IsPrefix (at_next rest offset) f r k = ([], k.1)
Keeps-IsPrefix (at_finish none) f r k = ([], k ∙ sym (append_nil f))
Keeps-IsPrefix (at_finish (some e)) f r k = k
Keeps-IsPrefix at_exit f r k = k
Keeps-IsPrefix stopped f r k = k

-- What stays when the buffer moves on.
Later-PhaseOk :
    {b b' : NavBuffer} (pos : ℕ) (p : Phase)
    → Later b b'
    → (is_open b.file ≡ true → is_open b'.file ≡ true)
    → PhaseOk b pos p
    → PhaseOk b' pos p
Later-PhaseOk pos idle l o h = tt
Later-PhaseOk pos (waiting want last expired) l o h = tt
Later-PhaseOk pos (selecting want last gen) l o h = tt
Later-PhaseOk pos (ready want) l o h = λ c. elim (h (l.open_before c)) [
  | inl lt ↦ inl (omega (arith, lt, l.downloaded_le))
  | inr (d, e) ↦ inr (l.finished c d e)
]
Later-PhaseOk pos (holding count) l o h = (omega (arith, h.0, l.downloaded_le), o h.1)

pub Later-Reads :
    {d d' : Downloader} {b b' : NavBuffer} {r r' : List ℕ} (x : Reader)
    → Later b b'
    → (is_open b.file ≡ true → is_open b'.file ≡ true)
    → (xs : List ℕ) × (r' ≡ r ++ xs)
    → (has_ended d ≡ true → (r' ≡ r) × (has_ended d' ≡ true))
    → Reads d b r x
    → Reads d' b' r' x
Later-Reads {r = r} x l o (xs, grown) same h = record {
  pos_eq = h.pos_eq;
  output_eq = h.output_eq ∙ (sym (take_prefix x.pos r xs h.pos_le) ∙ ap (take x.pos) (sym grown));
  pos_le = rw grown (omega (arith, h.pos_le, length-append r xs));
  phase_ok = Later-PhaseOk x.pos x.phase l o h.phase_ok;
  eof_ok = λ e. let (all, ended) = h.eof_ok e in let (s, t) = same ended in (all ∙ sym s, t);
}

-- A step of the reader that reads no byte and does not end with `eof`.
pub rephased :
    {d : Downloader} {b : NavBuffer} {r : List ℕ} (x : Reader) (p : Phase) (e : Option ReadError)
    → Reads d b r x
    → PhaseOk b x.pos p
    → (e ≡ some eof → (x.output ≡ r) × (has_ended d ≡ true))
    → Reads d b r (record x { phase = p; last_err = e })
rephased x p e h k z = record {
  pos_eq = h.pos_eq;
  output_eq = h.output_eq;
  pos_le = h.pos_le;
  phase_ok = k;
  eof_ok = z;
}

-- The end of the file is the end of what arrives.
eof_complete :
    (d : Downloader) (b : NavBuffer) (r : List ℕ) (x : Reader)
    → Reads d b r x
    → Contents d b r
    → IsExact d b
    → b.closed ≡ false
    → b.downloaded ≤ x.pos
    → PhaseOk b x.pos (ready 0)
    → (x.output ≡ r) × (has_ended d ≡ true)
eof_complete d b r x h c e open_now le ok = elim c [
  | inr gone ↦ absurd (ground (arith, gone.is_closed, open_now))
  | inl (f, held) ↦ elim (ok open_now) [
    | inl lt ↦ absurd (omega (arith, lt, le))
    | inr (done, no_err) ↦
        let all = held.complete done open_now no_err in
        let ended = held.ends done open_now in
        let exact : b.downloaded ≡ length r =
          ended-exact d b r f held e ended open_now ∙ ap length (sym all) in
        (h.output_eq ∙ take_all x.pos r (omega (arith, exact, le)), ended)
  ]
]

-- A round of `waitFor` that returns nil has found its target, or a download that is done.
wait_round-ready :
    (target last : ℕ) (canceled expired : Bool) (b : NavBuffer)
    → wait_round target canceled last expired b ≡ gives none
    → (target ≤ b.downloaded) ⊎ ((b.done ≡ true) × (b.err ≡ none))
unfolding wait_round
wait_round-ready target last canceled expired b h = elim (Option-cases b.err) [
  | inl e ↦ ground (arith, e, h)
  | inr (x, e) ↦ ground (arith, e, h)
]

after_round-Reads :
    {d : Downloader} {b : NavBuffer} {r : List ℕ} (x : Reader) (want : ℕ) (o : Round)
    → Reads d b r x
    → (o ≡ gives none → (x.pos < b.downloaded) ⊎ ((b.done ≡ true) × (b.err ≡ none)))
    → Reads d b r (after_round want b o x)
after_round-Reads x want (gives (some e)) h k =
    rephased x idle (some (nav_error e)) h tt (λ z. absurd (ground (arith, z)))
after_round-Reads x want (gives none) h k =
    rephased x (ready want) x.last_err h (λ c. k refl) h.eof_ok
after_round-Reads {b = b} x want (waits last) h k =
    rephased x (selecting want last b.wait) x.last_err h tt h.eof_ok

either-Reads :
    (c : Bool) {d : Downloader} {b : NavBuffer} {r : List ℕ} {x y : Reader}
    → (c ≡ true → Reads d b r x)
    → (c ≡ false → Reads d b r y)
    → Reads d b r (if c then x else y)
either-Reads true h k = h refl
either-Reads false h k = k refl

is_open-Contents :
    {d : Downloader} {b : NavBuffer} {r : List ℕ}
    → b.closed ≡ false
    → Contents d b r
    → is_open b.file ≡ true
is_open-Contents open_now (inl (f, held)) = ap is_open held.file_eq
is_open-Contents open_now (inr gone) = absurd (ground (arith, gone.is_closed, open_now))

look-Reads :
    {d : Downloader} {b : NavBuffer} {r : List ℕ} (x : Reader) (want : ℕ)
    → Reads d b r x
    → Contents d b r
    → IsExact d b
    → PhaseOk b x.pos (ready want)
    → Reads d b r (look want b x)
look-Reads {d} {b} {r} x want h c e ok =
    either-Reads b.closed
      (λ closed.
        rephased x idle (some (nav_error buffer_closed)) h tt (λ z. absurd (ground (arith, z))))
      (λ open_now.
        either-Reads (leb b.downloaded x.pos)
          (λ at_end.
            rephased x idle (some eof) h tt
              (λ z. eof_complete d b r x h c e open_now (ground (arith, at_end)) ok))
          (λ within.
            rephased x (holding (min want (b.downloaded - x.pos))) x.last_err h
              (ground (arith, within), is_open-Contents open_now c) h.eof_ok))

read_outcome-eof :
    (short : Bool) (e : ℕ) (b : NavBuffer) (x : Reader) → read_outcome short e b x ≡ some eof → ⊥
read_outcome-eof false e b x h = absurd (ground (arith, h))
read_outcome-eof true e b x h = elim (Bool-cases (x.canceled || b.closed)) [
  | inl c ↦ absurd (ground (arith, rw c at h))
  | inr c ↦ absurd (ground (arith, rw c at h))
]

-- The bytes that a read of the file gives are those that have arrived at its position.
read_file-received :
    {d : Downloader} {b : NavBuffer} {r : List ℕ} (pos n : ℕ)
    → Contents d b r
    → pos ≤ length r
    → let bytes : List ℕ = read_file b.file pos n in
      (take (pos + length bytes) r ≡ take pos r ++ bytes) × (pos + length bytes ≤ length r)
read_file-received {d} {b} {r} pos n (inl (f, held)) le =
    let (xs, e) = Keeps-IsPrefix d f r held.keeps in
    rw held.file_eq (
      rw e (
        take_slice pos n f xs,
        omega (
          arith,
          le,
          ap length e,
          length-append f xs,
          length-take n (drop pos f),
          length-drop pos f,
        ),
      ))
read_file-received {r = r} pos n (inr gone) le =
    rw gone.file_eq
      (ap (λ k. take k r) (omega arith) ∙ sym (append_nil (take pos r)), omega (arith, le))

pub take_bytes-Reads :
    {d : Downloader} {b : NavBuffer} {r : List ℕ} (x : Reader) (count got e : ℕ)
    → Reads d b r x
    → Contents d b r
    → Reads d b r (take_bytes count got e b x)
take_bytes-Reads {d} {b} {r} x count got e h c =
    let bytes : List ℕ = read_file b.file x.pos (min got count) in
    let (front, le) = read_file-received x.pos (min got count) c h.pos_le in
    record {
      pos_eq = omega (arith, h.pos_eq, length-append x.output bytes);
      output_eq = ap (λ o. o ++ bytes) h.output_eq ∙ sym front;
      pos_le = le;
      phase_ok = tt;
      eof_ok = λ z. absurd (read_outcome-eof (ltb (length bytes) count) e b x z);
    }

pub read_step-Reads :
    {d : Downloader} {b : NavBuffer} {r : List ℕ} (x : Reader) (got e : ℕ) (p : Phase)
    → Reads d b r x
    → Contents d b r
    → IsExact d b
    → PhaseOk b x.pos p
    → Reads d b r (read_step got e b x p)
unfolding read_step
read_step-Reads x got e idle h c exact ok = h
read_step-Reads {b = b} x got e (waiting want last expired) h c exact ok =
    after_round-Reads x want (wait_round (x.pos + 1) x.canceled last expired b) h
      (λ z. ground (arith, wait_round-ready (x.pos + 1) last x.canceled expired b z))
read_step-Reads {b = b} x got e (selecting want last gen) h c exact ok =
    either-Reads x.canceled
      (λ z. rephased x idle (some (nav_error buffer_closed)) h tt (λ z. absurd (ground (arith, z))))
      (λ z.
        either-Reads (gen == b.wait) (λ y. h)
          (λ y. rephased x (waiting want last false) x.last_err h tt h.eof_ok))
read_step-Reads x got e (ready want) h c exact ok = look-Reads x want h c exact ok
read_step-Reads x got e (holding count) h c exact ok = take_bytes-Reads x count got e h c
