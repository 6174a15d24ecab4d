-- ===== src/NavBuffer/Histories.antt =====
-- player/nav_buffer.go: the steps of a download, a reader and `Close`, in any order.
use cliamp.Base.{
  ℕ, zero, suc, Bool, true, false, Option, none, some, List, [], ◌∷◌, if◌then◌else◌, ◌≡◌, refl, sym,
  ap, arith, inl, inr,
}
use Prim.Native.String.{String}
use cliamp.NavBuffer.{
  NavError, NavBuffer, Supply, Downloader, download_step, is_open, close_begin, close_end,
}
use cliamp.NavBuffer.Reader.{
  ReadError, eof, Phase, idle, waiting, selecting, ready, holding, Reader, begin_read, expire,
  close_reader,
}
use cliamp.NavBuffer.System.{
  World, Move, download_move, begin_move, read_move, timer_move, close_reader_move,
  close_begin_move, close_end_move, arrived, begin_idle, may_end, step, run, new_world,
}
use cliamp.NavBuffer.Contents.{Contents, has_ended, append_nil}
use cliamp.NavBuffer.Keeping.{
  download_step-Held, download_step-stopped, close_begin-Held, close_end-Removed,
}
use cliamp.NavBuffer.Progress.{
  IsExact, download_step-IsExact, download_step-Later, close_begin-Later, arrived-grows,
}
use cliamp.NavBuffer.Reads.{Reads, PhaseOk, Later-Reads, rephased, read_step-Reads}
use cliamp.NavBuffer.Wakeups.{
  Waits, download_step-Signals, close_begin-Signals, Signals-Waits, read_step-Waits,
}

pub record Parts (d : Downloader) (b : NavBuffer) (r : List ℕ) (x : Reader) : Type 0 where
  pub contents : Contents d b r
  pub exact : IsExact d b
  pub reads : Reads d b r x
  pub wakes : Waits b x.pos x.phase

abbrev IsValid : World → Type 0
IsValid w = Parts w.downloader w.buffer w.received w.reader

download-Parts :
    (s : Supply) (d : Downloader) (b : NavBuffer) (r : List ℕ) (x : Reader)
    → Parts d b r x
    → Parts (download_step s d b).0 (download_step s d b).1 (arrived s d r) x
download-Parts s d b r x p = elim p.contents [
  | inr gone ↦
      let (same, none_more) = download_step-stopped s d b r gone.ends in rw same (rw none_more p)
  | inl (f, held) ↦
      let (f', held') = download_step-Held s d b r f held in
      let (grown, ended) = arrived-grows s d b r in
      record {
        contents = inl (f', held');
        exact = download_step-IsExact s d b r f held p.exact;
        reads =
            Later-Reads x (download_step-Later s d b r f held) (λ o. ap is_open held'.file_eq) grown
              ended p.reads;
        wakes = Signals-Waits x.pos x.phase (download_step-Signals s d b) p.wakes;
      }
]

close_begin-Contents :
    {d : Downloader} {b : NavBuffer} {r : List ℕ}
    → Contents d b r
    → b.closed ≡ false
    → Contents d (close_begin b) r
close_begin-Contents (inl (f, held)) c = inl (f, close_begin-Held held)
close_begin-Contents (inr gone) c = absurd (ground (arith, gone.is_closed, c))

close_begin-Parts :
    (c : Bool) (d : Downloader) (b : NavBuffer) (r : List ℕ) (x : Reader)
    → b.closed ≡ c
    → Parts d b r x
    → Parts d (if c then b else close_begin b) r x
unfolding close_begin
close_begin-Parts true d b r x c p = p
close_begin-Parts false d b r x c p = record {
  contents = close_begin-Contents p.contents c;
  exact = λ e. absurd (ground (arith, e));
  reads =
      Later-Reads x (close_begin-Later b) (λ o. o) ([], sym (append_nil r)) (λ e. (refl, e))
        p.reads;
  wakes = Signals-Waits x.pos x.phase (close_begin-Signals b) p.wakes;
}

may_end-download_done : (b : NavBuffer) (p : Phase) → may_end b p ≡ true → b.download_done ≡ true
may_end-download_done b idle m = m
may_end-download_done b (waiting want last expired) m = m
may_end-download_done b (selecting want last gen) m = m
may_end-download_done b (ready want) m = m
may_end-download_done b (holding count) m = absurd (ground (arith, m))

may_end-PhaseOk :
    (b b' : NavBuffer) (pos : ℕ) (p : Phase)
    → may_end b p ≡ true
    → b'.closed ≡ true
    → PhaseOk b' pos p
may_end-PhaseOk b b' pos idle m c = tt
may_end-PhaseOk b b' pos (waiting want last expired) m c = tt
may_end-PhaseOk b b' pos (selecting want last gen) m c = tt
may_end-PhaseOk b b' pos (ready want) m c = λ e. absurd (ground (arith, c, e))
may_end-PhaseOk b b' pos (holding count) m c = absurd (ground (arith, m))

close_end-Contents :
    (errors : List NavError) {d : Downloader} {b : NavBuffer} {r : List ℕ}
    → Contents d b r
    → b.closed ≡ true
    → b.download_done ≡ true
    → Contents d (close_end errors b) r
unfolding close_end
close_end-Contents errors (inl (f, held)) c e = inr (close_end-Removed errors held c e)
close_end-Contents errors (inr gone) c e =
    inr (record { file_eq = refl; ends = gone.ends; is_closed = c })

close_end-Parts :
    (errors : List NavError) (ends : Bool) (d : Downloader) (b : NavBuffer) (r : List ℕ)
    (x : Reader)
    → (ends ≡ true → (b.closed ≡ true) × (may_end b x.phase ≡ true))
    → Parts d b r x
    → Parts d (if ends then close_end errors b else b) r x
unfolding close_end
close_end-Parts errors false d b r x may p = p
close_end-Parts errors true d b r x may p =
    let (c, m) = may refl in
    let h = p.reads in
    record {
      contents = close_end-Contents errors p.contents c (may_end-download_done b x.phase m);
      exact = λ e. absurd (ground (arith, c, e));
      reads = record {
        pos_eq = h.pos_eq;
        output_eq = h.output_eq;
        pos_le = h.pos_le;
        phase_ok = may_end-PhaseOk b (close_end errors b) x.pos x.phase m c;
        eof_ok = h.eof_ok;
      };
      wakes =
          Signals-Waits x.pos x.phase (inr (refl, λ pos k. absurd (ground (arith, c, k.open_now))))
            p.wakes;
    }

-- What a call of the reader leaves, when it is not a read of the file.
restarted :
    {d : Downloader} {b : NavBuffer} {r : List ℕ} (x : Reader) (p : Phase) (e : Option ReadError)
    → Parts d b r x
    → PhaseOk b x.pos p
    → Waits b x.pos p
    → (e ≡ some eof → (x.output ≡ r) × (has_ended d ≡ true))
    → Parts d b r (record x { phase = p; last_err = e })
restarted x p e h k w z = record {
  contents = h.contents;
  exact = h.exact;
  reads = rephased x p e h.reads k z;
  wakes = w;
}

begin-Parts :
    (n : ℕ) {d : Downloader} {b : NavBuffer} {r : List ℕ} (x : Reader) (p : Phase)
    → x.phase ≡ p
    → Parts d b r x
    → Parts d b r (begin_idle n b x p)
unfolding begin_read
begin-Parts zero x idle same h =
    restarted x x.phase none h h.reads.phase_ok h.wakes (λ z. absurd (ground (arith, z)))
begin-Parts (suc n) x idle same h = restarted x _ x.last_err h tt tt h.reads.eof_ok
begin-Parts n x (waiting want last expired) same h = h
begin-Parts n x (selecting want last gen) same h = h
begin-Parts n x (ready want) same h = h
begin-Parts n x (holding count) same h = h

expire-Parts :
    {d : Downloader} {b : NavBuffer} {r : List ℕ} (x : Reader) (p : Phase)
    → Parts d b r x
    → Parts d b r (expire x p)
unfolding expire
expire-Parts x (selecting want last gen) h = restarted x _ x.last_err h tt tt h.reads.eof_ok
expire-Parts x idle h = h
expire-Parts x (waiting want last expired) h = h
expire-Parts x (ready want) h = h
expire-Parts x (holding count) h = h

close_reader-Parts :
    {d : Downloader} {b : NavBuffer} {r : List ℕ} (x : Reader)
    → Parts d b r x
    → Parts d b r (close_reader x)
unfolding close_reader
close_reader-Parts x p = record {
  contents = p.contents;
  exact = p.exact;
  reads = record {
    pos_eq = p.reads.pos_eq;
    output_eq = p.reads.output_eq;
    pos_le = p.reads.pos_le;
    phase_ok = p.reads.phase_ok;
    eof_ok = p.reads.eof_ok;
  };
  wakes = p.wakes;
}

step-IsValid : (m : Move) (w : World) → IsValid w → IsValid (step m w)
unfolding step
step-IsValid (download_move s) w h = download-Parts s w.downloader w.buffer w.received w.reader h
step-IsValid (begin_move n) w h = begin-Parts n w.reader w.reader.phase refl h
step-IsValid (read_move got e) w h = record {
  contents = h.contents;
  exact = h.exact;
  reads = read_step-Reads w.reader got e w.reader.phase h.reads h.contents h.exact h.reads.phase_ok;
  wakes = read_step-Waits got e w.buffer w.reader w.reader.phase refl h.wakes;
}
step-IsValid timer_move w h = expire-Parts w.reader w.reader.phase h
step-IsValid close_reader_move w h = close_reader-Parts w.reader h
step-IsValid close_begin_move w h =
    close_begin-Parts w.buffer.closed w.downloader w.buffer w.received w.reader refl h
step-IsValid (close_end_move errors) w h =
    close_end-Parts errors _ w.downloader w.buffer w.received w.reader (λ e. ground (arith, e)) h

pub run-IsValid : (ms : List Move) (w : World) → IsValid w → IsValid (run ms w)
unfolding run
run-IsValid [] w h = h
run-IsValid (m ∷ ms) w h = run-IsValid ms (step m w) (step-IsValid m w h)

pub new_world-IsValid :
    (path : String) (total : Option ℕ) (rest : List String) → IsValid (new_world path total rest)
new_world-IsValid path total rest = record {
  contents = inl (
    [],
    record {
      file_eq = refl;
      keeps = (refl, refl);
      downloaded_le = omega arith;
      ends = λ x. absurd (ground (arith, x));
      complete = λ x. absurd (ground (arith, x));
      last = λ x. absurd (ground (arith, x));
    },
  );
  exact = λ c. refl;
  reads = record {
    pos_eq = refl;
    output_eq = refl;
    pos_le = omega arith;
    phase_ok = tt;
    eof_ok = λ x. absurd (ground (arith, x));
  };
  wakes = tt;
}
