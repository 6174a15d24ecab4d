-- ===== src/Playlist/Revisions.antt =====
-- playlist/playlist.go: what `AddSmart` does to the revision.
use cliamp.Base.{
  ℕ, ◌≡◌, refl, ap, inl, inr, true, false, not, ◌||◌, List, ◌++◌, map, leb, ◌==◌, arith, length,
  get_elem?, Bool-cases, Option-cases,
}
use cliamp.Base.Slices.{is_empty}
use cliamp.Base.Outcomes.{Outcome, ok, panic}
use cliamp.Playlist.Track.{Track}
use cliamp.Playlist.State.{Playlist}
use cliamp.Playlist.Shuffle.{Draws, do_shuffle, mix_in, append_tracks}
use cliamp.Playlist.Smart.{add_smart, mark_smart}
use cliamp.Playlist.Invariant.{IsWellFormed, Returns}
use cliamp.Playlist.Invariant.Loads.{add_smart-IsWellFormed}

Frame : Playlist → Playlist → Type 0
Frame p q = (q.revision ≡ p.revision) × (q.tracks ≡ p.tracks)

do_shuffle-Frame : (d : Draws) (p q : Playlist) → do_shuffle d p ≡ ok q → Frame p q
unfolding do_shuffle Frame
do_shuffle-Frame d p q h = elim (Option-cases (get_elem? p.order.items p.pos)) [
  | inl e ↦ absurd (ground (arith, e, h))
  | inr (a, e) ↦ (ground (arith, e, h), ground (arith, e, h))
]

mix_in-Frame : (d : Draws) (start : ℕ) (p q : Playlist) → mix_in d start p ≡ ok q → Frame p q
unfolding mix_in Frame
mix_in-Frame d start p q h = elim (Bool-cases (start == 0)) [
  | inl e ↦ do_shuffle-Frame d (record p { pos = 0 }) q (rw e at h)
  | inr e ↦ elim (Bool-cases (leb (length p.order.items) p.pos)) [
    | inl f ↦ do_shuffle-Frame d (record p { pos = 0 }) q (rw f at (rw e at h))
    | inr f ↦ (ground (arith, e, f, h), ground (arith, e, f, h))
  ]
]

returned :
    (P : Playlist → Type 0) (m : Outcome Playlist) → Returns P m → (q : Playlist) × (m ≡ ok q)
returned P (ok q) h = (q, refl)
returned P panic h = absurd h

-- On a well-formed playlist in shuffle mode, `AddSmart` with at least one track returns; it appends the
-- tracks, marked as smart, and leaves the revision as it was.
pub add_smart-revision :
    (d : Draws) (ts : List Track) (p : Playlist)
    → IsWellFormed p
    → p.shuffle ≡ true
    → is_empty ts ≡ false
    → (q : Playlist) × (add_smart d ts p ≡ ok q)
      × (q.tracks.items ≡ p.tracks.items ++ map mark_smart ts)
      × (q.revision ≡ p.revision)
unfolding add_smart Frame append_tracks
add_smart-revision d ts p w on more =
    let (q, e) = returned IsWellFormed (add_smart d ts p) (add_smart-IsWellFormed d ts p w) in
    let adds : (not p.shuffle || is_empty ts) ≡ false = ground (arith, on, more) in
    let f =
      mix_in-Frame d (length p.tracks.items) (append_tracks (map mark_smart ts) p) q
        (rw adds at e) in
    (q, e, ap (λ s. s.items) f.1, f.0)
