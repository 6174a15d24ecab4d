-- ===== src/NavBuffer/Runs.antt =====
-- player/nav_buffer.go: what holds after any run of the download, a reader and `Close`.
use cliamp.Base.{
  min, drop, ltb, length-take, length-drop, ℕ, ◌+◌, ◌≤◌, Bool, true, false, Option, none, some,
  List, ◌==◌, if◌then◌else◌, length, take, ◌≡◌, refl, sym, ap, subst, ◌∙◌, arith, inl, inr,
  Bool-cases, Option-cases,
}
use Prim.Native.String.{String}
use cliamp.NavBuffer.{NavBuffer, Downloader, completed_path, is_open}
use cliamp.NavBuffer.Reader.{
  eof, Round, gives, waits, wait_round, Phase, waiting, selecting, holding, Reader, after_round,
  read_file, take_bytes, read_step,
}
use cliamp.NavBuffer.System.{World, Move, read_move, step, run, new_world}
use cliamp.NavBuffer.Contents.{Contents, has_ended}
use cliamp.NavBuffer.Progress.{IsExact, ended-exact}
use cliamp.NavBuffer.Reads.{PhaseOk, take_bytes-Reads}
use cliamp.NavBuffer.Wakeups.{IsStuck, Waits, wait_round-IsStuck}
use cliamp.NavBuffer.Histories.{run-IsValid, new_world-IsValid}

-- Whatever the interleaving, the answers of the libraries, the closings and the expired timers, what a reader
-- has read is at each moment the first bytes of what the bodies have given, in order, and if its last
-- `Read` gave `io.EOF`, it is all of them, and the download has ended.
pub run-output :
    (path : String) (total : Option ℕ) (rest : List String) (ms : List Move)
    → let w : World = run ms (new_world path total rest) in
      (w.reader.output ≡ take (length w.reader.output) w.received)
      × (w.reader.last_err ≡ some eof
          → (w.reader.output ≡ w.received) × (has_ended w.downloader ≡ true))
run-output path total rest ms =
    let h =
      (run-IsValid ms (new_world path total rest) (new_world-IsValid path total rest)).reads in
    (
      h.output_eq ∙ ap (λ n. take n (run ms (new_world path total rest)).received) h.pos_eq,
      h.eof_ok,
    )

completed-received :
    (d : Downloader) (b : NavBuffer) (r : List ℕ) (p : String)
    → Contents d b r
    → IsExact d b
    → completed_path b ≡ some p
    → (b.file ≡ some r) × ((n : ℕ) → b.total ≡ some n → n ≤ length r)
unfolding completed_path
completed-received d b r p c e h = elim (Option-cases b.err) [
  | inr (x, has_err) ↦ absurd (ground (arith, has_err, h))
  | inl no_err ↦
      let done : b.done ≡ true = ground (arith, no_err, h) in
      let open_now : b.closed ≡ false = ground (arith, no_err, h) in
      elim c [
        | inr gone ↦ absurd (ground (arith, gone.is_closed, open_now))
        | inl (f, held) ↦
            let all = held.complete done open_now no_err in
            let exact = ended-exact d b r f held e (held.ends done open_now) open_now in
            (
              held.file_eq ∙ ap some (sym all),
              λ n t. ground (arith, no_err, h, t, exact, ap length all),
            )
      ]
]

-- Whatever the interleaving, when `completedPath` gives a path, the file holds exactly what the bodies
-- gave, and no less than the length that the server announced, if it did.
pub completed_path-received :
    (path : String) (total : Option ℕ) (rest : List String) (ms : List Move) (p : String)
    → let w : World = run ms (new_world path total rest) in
      completed_path w.buffer ≡ some p
      → (w.buffer.file ≡ some w.received)
        × ((n : ℕ) → w.buffer.total ≡ some n → n ≤ length w.received)
completed_path-received path total rest ms p h =
    let w : World = run ms (new_world path total rest) in
    let v = run-IsValid ms (new_world path total rest) (new_world-IsValid path total rest) in
    completed-received w.downloader w.buffer w.received p v.contents v.exact h

abbrev pub is_waiting : Phase → Bool
is_waiting (waiting want last expired) = true
is_waiting (selecting want last gen) = true
is_waiting p = false

after_round-is_waiting :
    (want : ℕ) (b : NavBuffer) (o : Round) (x : Reader)
    → ((last : ℕ) → o ≡ waits last → ⊥)
    → is_waiting (after_round want b o x).phase ≡ false
after_round-is_waiting want b (gives none) x h = refl
after_round-is_waiting want b (gives (some e)) x h = refl
after_round-is_waiting want b (waits last) x h = absurd (h last refl)

third_choice :
    (P : Reader → Type 0) (c k : Bool) (x y z : Reader)
    → k ≡ false
    → P x
    → P z
    → P (if c then x else if k then y else z)
third_choice P true k x y z e p q = p
third_choice P false true x y z e p q = absurd (ground (arith, e))
third_choice P false false x y z e p q = q

returns_soon :
    (b : NavBuffer) (x : Reader) (want last gen got e : ℕ)
    → Waits b x.pos (selecting want last gen)
    → (IsStuck b x.pos → ⊥)
    → let y : Reader = read_step got e b x (selecting want last gen) in
      is_waiting (read_step got e b y y.phase).phase ≡ false
unfolding read_step
returns_soon b x want last gen got e h free =
    let stale : (gen == b.wait) ≡ false = elim (Bool-cases (gen == b.wait)) [
      | inl same ↦ absurd (free (h.1 (ground (arith, same))))
      | inr stale ↦ stale
    ] in
    third_choice (λ y. is_waiting (read_step got e b y y.phase).phase ≡ false) x.canceled
      (gen == b.wait) _ x (record x { phase = waiting want last false }) stale refl
      (after_round-is_waiting want b (wait_round (x.pos + 1) x.canceled last false b)
        (record x { phase = waiting want last false })
        (λ last' o. free (wait_round-IsStuck x.pos last last' x.canceled false b o)))

-- No wake-up is lost: whatever the interleaving before, if a reader waits in the `select` of `waitFor`
-- while the buffer is closed, or done, or holds the byte at its position, or has an error, then its next step
-- leaves the `select`, and its round of the loop after it returns.
pub run-wakes :
    (path : String) (total : Option ℕ) (rest : List String) (ms : List Move)
    (want last gen got e : ℕ)
    → let w : World = run ms (new_world path total rest) in
      w.reader.phase ≡ selecting want last gen
      → (IsStuck w.buffer w.reader.pos → ⊥)
      → let w' : World = step (read_move got e) (step (read_move got e) w) in
        is_waiting w'.reader.phase ≡ false
unfolding step
run-wakes path total rest ms want last gen got e at_select free =
    let w : World = run ms (new_world path total rest) in
    let v = run-IsValid ms (new_world path total rest) (new_world-IsValid path total rest) in
    let waits_ok = subst (Waits w.buffer w.reader.pos) at_select v.wakes in
    let soon = returns_soon w.buffer w.reader want last gen got e waits_ok free in
    subst
      (λ p.
        let y : Reader = read_step got e w.buffer w.reader p in
        is_waiting (read_step got e w.buffer y y.phase).phase ≡ false)
      (sym at_select) soon

take_bytes-full :
    (b : NavBuffer) (x : Reader) (count got e : ℕ) (f : List ℕ)
    → b.file ≡ some f
    → x.pos + count ≤ length f
    → count ≤ got
    → ((take_bytes count got e b x).pos ≡ x.pos + count)
      × ((take_bytes count got e b x).last_err ≡ none)
take_bytes-full b x count got e f same fits enough =
    let n : ℕ = min got count in
    let full : length (read_file b.file x.pos n) ≡ count =
      ap (λ o. length (read_file o x.pos n)) same
      ∙ omega (arith, length-take n (drop x.pos f), length-drop x.pos f, fits, enough) in
    let not_short : ltb (length (read_file b.file x.pos n)) count ≡ false = ground (arith, full) in
    (omega (arith, full), rw not_short refl)

-- Whatever the interleaving before, also when `Close` has begun: when a reader is about to read a number
-- of bytes, the file is still there and holds them, so if the file's read gives as many, `Read` returns
-- exactly that many bytes without an error, and the reader has then read all up to there.
pub run-reads :
    (path : String) (total : Option ℕ) (rest : List String) (ms : List Move) (count got e : ℕ)
    → let w : World = run ms (new_world path total rest) in
      w.reader.phase ≡ holding count
      → count ≤ got
      → let r : Reader = take_bytes count got e w.buffer w.reader in
        ((step (read_move got e) w).reader ≡ r)
        × (r.pos ≡ w.reader.pos + count)
        × (r.last_err ≡ none)
        × (r.output ≡ take (w.reader.pos + count) w.received)
unfolding step read_step
run-reads path total rest ms count got e at_file enough =
    let w : World = run ms (new_world path total rest) in
    let v = run-IsValid ms (new_world path total rest) (new_world-IsValid path total rest) in
    let held_bytes = subst (PhaseOk w.buffer w.reader.pos) at_file v.reads.phase_ok in
    let moved : read_step got e w.buffer w.reader w.reader.phase
        ≡ take_bytes count got e w.buffer w.reader =
      ap (read_step got e w.buffer w.reader) at_file in
    let after = take_bytes-Reads w.reader count got e v.reads v.contents in
    elim v.contents [
      | inl (f, held) ↦
          let (pos, err) =
            take_bytes-full w.buffer w.reader count got e f held.file_eq
              (omega (arith, held_bytes.0, held.downloaded_le)) enough in
          (moved, pos, err, after.output_eq ∙ ap (λ n. take n w.received) pos)
      | inr gone ↦ absurd (ground (arith, held_bytes.1, ap is_open gone.file_eq))
    ]
