-- ===== src/NavBuffer/Wakeups.antt =====
-- player/nav_buffer.go: how a waiting reader is woken.
use cliamp.Base.{
  ℕ, ◌+◌, ◌≤◌, ◌<◌, Bool, true, false, not, ◌&&◌, none, some, [], ◌∷◌, ltb, leb, ◌==◌,
  if◌then◌else◌, ◌≡◌, refl, ◌∙◌, arith, ◌⊎◌, inl, inr, Option-cases,
}
use cliamp.NavBuffer.{
  NavBuffer, Supply, Downloader, at_top, at_body, at_chunk, at_file, at_written, at_next, at_finish,
  at_exit, stopped, download_step, publish, finish, close_begin,
}
use cliamp.NavBuffer.Reader.{
  Round, gives, waits, wait_round, Phase, idle, waiting, selecting, ready, holding, Reader,
  after_round, read_step,
}

-- Nothing that `waitFor` waits for has happened.
pub record IsStuck (b : NavBuffer) (pos : ℕ) : Type 0 where
  pub open_now : b.closed ≡ false
  pub no_byte : b.downloaded ≤ pos
  pub not_done : b.done ≡ false
  pub no_err : b.err ≡ none

-- A reader in `select` waits on a channel that was the newest when it looked, and if it still is, then
-- the reader is rightly stuck.
abbrev pub Waits : NavBuffer → ℕ → Phase → Type 0
Waits b pos (selecting want last gen) = (gen ≤ b.wait) × (gen ≡ b.wait → IsStuck b pos)
Waits b pos p = Unit

-- A step of the buffer leaves what readers wait for, or makes a new channel.
abbrev Signals : NavBuffer → NavBuffer → Type 0
Signals b b' =
    (b.wait < b'.wait) ⊎ ((b'.wait ≡ b.wait) × ((pos : ℕ) → IsStuck b pos → IsStuck b' pos))

Signals-same : (b : NavBuffer) → Signals b b
Signals-same b = inr (refl, λ pos h. h)

Signals-if :
    (c : Bool) (b x y : NavBuffer) → Signals b x → Signals b y → Signals b (if c then x else y)
Signals-if true b x y h k = h
Signals-if false b x y h k = k

pub download_step-Signals :
    (s : Supply) (d : Downloader) (b : NavBuffer) → Signals b (download_step s d b).1
unfolding download_step publish finish
download_step-Signals s (at_top rest offset) b = Signals-same b
download_step-Signals s (at_body rest offset) b = Signals-same b
download_step-Signals s (at_chunk rest offset [] end) b = Signals-same b
download_step-Signals s (at_chunk rest offset (c ∷ cs) end) b = Signals-same b
download_step-Signals s (at_file rest offset chunk end) b = inr (
  refl,
  λ pos h. record {
    open_now = h.open_now;
    no_byte = h.no_byte;
    not_done = h.not_done;
    no_err = h.no_err;
  },
)
download_step-Signals s (at_written rest offset chunk end wn e) b =
    Signals-if (ltb 0 wn) b _ b
      (Signals-if (not b.closed && ltb b.downloaded offset) b _ b (inl (omega arith))
        (Signals-same b))
      (Signals-same b)
download_step-Signals s (at_next [] offset) b = Signals-same b
download_step-Signals s (at_next (u ∷ us) offset) b = Signals-same b
download_step-Signals s (at_finish e) b =
    Signals-if b.closed b b _ (Signals-same b) (inl (omega arith))
download_step-Signals s at_exit b = inr (
  refl,
  λ pos h. record {
    open_now = h.open_now;
    no_byte = h.no_byte;
    not_done = h.not_done;
    no_err = h.no_err;
  },
)
download_step-Signals s stopped b = Signals-same b

pub close_begin-Signals : (b : NavBuffer) → Signals b (close_begin b)
unfolding close_begin
close_begin-Signals b = inl (omega arith)

pub Signals-Waits :
    {b b' : NavBuffer} (pos : ℕ) (p : Phase) → Signals b b' → Waits b pos p → Waits b' pos p
Signals-Waits pos idle s h = tt
Signals-Waits pos (waiting want last expired) s h = tt
Signals-Waits pos (ready want) s h = tt
Signals-Waits pos (holding count) s h = tt
Signals-Waits pos (selecting want last gen) (inl lt) h =
    (omega (arith, lt, h.0), λ e. absurd (omega (arith, lt, h.0, e)))
Signals-Waits pos (selecting want last gen) (inr (same, keep)) h =
    (omega (arith, same, h.0), λ e. keep pos (h.1 (e ∙ same)))

pub wait_round-IsStuck :
    (pos last last' : ℕ) (canceled expired : Bool) (b : NavBuffer)
    → wait_round (pos + 1) canceled last expired b ≡ waits last'
    → IsStuck b pos
unfolding wait_round
wait_round-IsStuck pos last last' canceled expired b h = elim (Option-cases b.err) [
  | inl e ↦ record {
    open_now = ground (arith, e, h);
    no_byte = ground (arith, e, h);
    not_done = ground (arith, e, h);
    no_err = e;
  }
  | inr (x, e) ↦ absurd (ground (arith, e, h))
]

after_round-Waits :
    (want : ℕ) (b : NavBuffer) (o : Round) (x : Reader)
    → ((last : ℕ) → o ≡ waits last → IsStuck b x.pos)
    → Waits b (after_round want b o x).pos (after_round want b o x).phase
after_round-Waits want b (gives none) x h = tt
after_round-Waits want b (gives (some e)) x h = tt
after_round-Waits want b (waits last) x h = (omega arith, λ e. h last refl)

Waits-if :
    (c : Bool) (b : NavBuffer) (x y : Reader)
    → Waits b x.pos x.phase
    → Waits b y.pos y.phase
    → Waits b (if c then x else y).pos (if c then x else y).phase
Waits-if true b x y h k = h
Waits-if false b x y h k = k

pub read_step-Waits :
    (got e : ℕ) (b : NavBuffer) (x : Reader) (p : Phase)
    → x.phase ≡ p
    → Waits b x.pos p
    → Waits b (read_step got e b x p).pos (read_step got e b x p).phase
unfolding read_step
read_step-Waits got e b x idle same h = rw same tt
read_step-Waits got e b x (waiting want last expired) same h =
    after_round-Waits want b (wait_round (x.pos + 1) x.canceled last expired b) x
      (λ last'. wait_round-IsStuck x.pos last last' x.canceled expired b)
read_step-Waits got e b x (selecting want last gen) same h =
    Waits-if x.canceled b _ _ tt (Waits-if (gen == b.wait) b x _ (rw same h) tt)
read_step-Waits got e b x (ready want) same h =
    Waits-if b.closed b _ _ tt (Waits-if (leb b.downloaded x.pos) b _ _ tt tt)
read_step-Waits got e b x (holding count) same h = tt
