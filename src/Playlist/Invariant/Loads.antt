-- ===== src/Playlist/Invariant/Loads.antt =====
-- `New`, `Replace`, `Add`, `AddSmart` and `Restore` give a well-formed playlist, and do not panic on
-- one.
use cliamp.Base.{
  ℕ, ◌<◌, ◌≡◌, refl, ◌∙◌, inl, inr, Bool, true, false, not, ◌&&◌, ◌||◌, none, List, [], ◌∷◌, map,
  arith, ltb, if◌then◌else◌, Bool-cases, length, range, length-append,
}
use cliamp.Base.Slices.{Slice, nil_slice, made, is_empty}
use cliamp.Base.Outcomes.{ok}
use cliamp.Playlist.Track.{Track}
use cliamp.Playlist.State.{Playlist, Snapshot, new, snapshot_of}
use cliamp.Playlist.Shuffle.{Draws, do_shuffle, mix_in, append_tracks}
use cliamp.Playlist.Smart.{mark_smart, add_smart}
use cliamp.Playlist.Loading.{bump_unless_matches, replace, add, restore}
use cliamp.Base.Permutations.{range-IsPermutation}
use cliamp.Playlist.Invariant.{IsSoundSnapshot, IsWellFormed, Returns, Returns-bind}
use cliamp.Playlist.Invariant.Positions.{rebuild-IsCoherent, nil-IsCoherent}
use cliamp.Playlist.Invariant.Order.{
  do_shuffle-IsWellFormed, mix_in-IsWellFormed, append_tracks-IsWellFormed, bump_if-IsWellFormed,
}

pub new-IsWellFormed : IsWellFormed new
unfolding new
new-IsWellFormed = record {
  sound = record {
    permutation = range-IsPermutation 0;
    pos_le = omega arith;
    straight = λ off. refl;
    queue_below = tt;
    queued_below = tt;
  };
  coherent = nil-IsCoherent;
}

bump_unless_matches-IsWellFormed :
    (before p : Playlist) → IsWellFormed p → IsWellFormed (bump_unless_matches before p)
unfolding bump_unless_matches
bump_unless_matches-IsWellFormed before p w = bump_if-IsWellFormed _ p w

-- A playlist just loaded, in track order.
loaded-IsWellFormed :
    (p : Playlist) (tracks : Slice Track)
    → IsWellFormed (record p {
      tracks = tracks;
      order = made (range (length tracks.items));
      pos = 0;
      queue = nil_slice;
      queue_positions = none;
      queued_idx = none;
    })
loaded-IsWellFormed p tracks = record {
  sound = record {
    permutation = range-IsPermutation (length tracks.items);
    pos_le = omega arith;
    straight = λ off. refl;
    queue_below = tt;
    queued_below = tt;
  };
  coherent = nil-IsCoherent;
}

shuffled_if :
    (d : Draws) (p : Playlist) (b : Bool)
    → IsWellFormed p
    → p.shuffle ≡ b
    → Returns IsWellFormed (if b && ltb 0 (length p.tracks.items) then do_shuffle d p else ok p)
shuffled_if d p false w e = w
shuffled_if d p true w e = elim (Bool-cases (ltb 0 (length p.tracks.items))) [
  | inl more ↦ rw more (do_shuffle-IsWellFormed d p w e (ground arith))
  | inr nothing ↦ rw nothing w
]

pub replace-IsWellFormed :
    (d : Draws) (tracks : Slice Track) (p : Playlist) → Returns IsWellFormed (replace d tracks p)
unfolding replace
replace-IsWellFormed d tracks p =
    Returns-bind IsWellFormed IsWellFormed _ _
      (shuffled_if d _ p.shuffle (loaded-IsWellFormed p tracks) refl)
      (λ q v. bump_unless_matches-IsWellFormed p q v)

mixed_if :
    (d : Draws) (start : ℕ) (p : Playlist) (b : Bool)
    → IsWellFormed p
    → p.shuffle ≡ b
    → 0 < length p.tracks.items
    → Returns IsWellFormed (if b then mix_in d start p else ok p)
mixed_if d start p true w e h = mix_in-IsWellFormed d start p w e h
mixed_if d start p false w e h = w

appended_pos :
    (ts : List Track) (p : Playlist)
    → is_empty ts ≡ false
    → 0 < length (append_tracks ts p).tracks.items
unfolding append_tracks
appended_pos [] p h = absurd (ground arith)
appended_pos (t ∷ ts) p h = omega (arith, length-append p.tracks.items (t ∷ ts))

append_tracks-shuffle : (ts : List Track) (p : Playlist) → (append_tracks ts p).shuffle ≡ p.shuffle
unfolding append_tracks
append_tracks-shuffle ts p = refl

pub add-IsWellFormed :
    (d : Draws) (ts : List Track) (p : Playlist)
    → IsWellFormed p
    → Returns IsWellFormed (add d ts p)
unfolding add
add-IsWellFormed d ts p w = elim (Bool-cases (is_empty ts)) [
  | inl e ↦ rw e w
  | inr more ↦ rw more (
      Returns-bind IsWellFormed IsWellFormed _ _
        (mixed_if d (length p.tracks.items) (append_tracks ts p) p.shuffle
          (append_tracks-IsWellFormed ts p w) (append_tracks-shuffle ts p) (appended_pos ts p more))
        (λ q v. bump_if-IsWellFormed true q v))
]

is_empty-map : (ts : List Track) → is_empty ts ≡ false → is_empty (map mark_smart ts) ≡ false
is_empty-map [] h = h
is_empty-map (t ∷ ts) h = refl

pub add_smart-IsWellFormed :
    (d : Draws) (ts : List Track) (p : Playlist)
    → IsWellFormed p
    → Returns IsWellFormed (add_smart d ts p)
unfolding add_smart
add_smart-IsWellFormed d ts p w = elim (Bool-cases (not p.shuffle || is_empty ts)) [
  | inl e ↦ rw e w
  | inr more ↦ rw more (
      mix_in-IsWellFormed d (length p.tracks.items) (append_tracks (map mark_smart ts) p)
        (append_tracks-IsWellFormed (map mark_smart ts) p w)
        (append_tracks-shuffle (map mark_smart ts) p ∙ ground arith)
        (appended_pos (map mark_smart ts) p (is_empty-map ts (ground arith))))
]

pub restore-IsWellFormed :
    (s : Snapshot) (p : Playlist) → IsSoundSnapshot s → IsWellFormed (restore s p)
unfolding restore
restore-IsWellFormed s p h =
    bump_unless_matches-IsWellFormed p _
      (record { sound = h; coherent = rebuild-IsCoherent s.queue.items })

pub snapshot_of-IsSound : (p : Playlist) → IsWellFormed p → IsSoundSnapshot (snapshot_of p)
unfolding snapshot_of
snapshot_of-IsSound p w = w.sound
