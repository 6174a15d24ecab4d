-- ===== src/Playlist/Invariant/Edits.antt =====
-- `Move`, `SetTrack`, `ToggleBookmark`, `ToggleShuffle` and the repeat mode keep a playlist
-- well-formed, and do not panic on one.
use cliamp.Base.{
  ℕ, ◌-◌, ◌≤◌, ◌<◌, ◌≡◌, refl, sym, subst, ◌∙◌, ◌≢◌, inl, inr, Bool, true, false, not, Option, none,
  some, List, [], ◌∷◌, map, arith, ◌==◌, if◌then◌else◌, Bool-cases, Option-cases, length, get_elem?,
  set, range, length-set, length-map, get_elem?-some,
}
use cliamp.Base.Slices.{made, with_items, is_empty}
use cliamp.Base.Outcomes.{ok, ◌>>=◌, index}
use cliamp.Base.Int.{ℤ, index_in, index_in-lt}
use cliamp.Base.Counts.{count}
use cliamp.Playlist.Track.{Track, equal_track}
use cliamp.Playlist.State.{Playlist, RepeatMode, bump, equal_repeat}
use cliamp.Playlist.Shuffle.{Draws, do_shuffle}
use cliamp.Playlist.Editing.{
  swap_ref, move, swap_all, straighten, move_within, swap_tracks, set_track_within, flip_bookmark,
  set_track, toggle_bookmark, toggle_shuffle, cycle_repeat, set_repeat,
}
use cliamp.Base.Permutations.{IsPermutation, IsPermutation-lt, range-IsPermutation}
use cliamp.Playlist.Invariant.{QueuedBelow, AllBelow, IsSound, IsWellFormed, Returns, Returns-bind}
use cliamp.Playlist.Invariant.Positions.{rebuild-IsCoherent}
use cliamp.Playlist.Invariant.Order.{
  pos-lt, do_shuffle-IsWellFormed, straightened-IsWellFormed, bump_if-IsWellFormed,
}
use cliamp.Playlist.Navigation.Safety.{length_of_empty, empty_cases, Keeps}

pub swap_ref-lt : (i j a n : ℕ) → i < n → j < n → a < n → swap_ref i j a < n
unfolding swap_ref
swap_ref-lt i j a n h k l = ground arith

count-map-swap_ref :
    (i j a : ℕ) (xs : List ℕ) → i ≢ j → count a (map (swap_ref i j) xs) ≡ count (swap_ref i j a) xs
unfolding swap_ref
count-map-swap_ref i j a [] ne = refl
count-map-swap_ref i j a (x ∷ xs) ne = ground (arith, count-map-swap_ref i j a xs)

map-swap_ref-IsPermutation :
    (i j n : ℕ) (xs : List ℕ)
    → i < n
    → j < n
    → i ≢ j
    → IsPermutation xs n
    → IsPermutation (map (swap_ref i j) xs) n
unfolding swap_ref
map-swap_ref-IsPermutation i j n xs h k ne w = record {
  length_eq = length-map (swap_ref i j) xs ∙ w.length_eq;
  counts = λ a. count-map-swap_ref i j a xs ne ∙ w.counts (swap_ref i j a) ∙ ground arith;
}

AllBelow-map-swap_ref :
    (i j n : ℕ) (xs : List ℕ) → i < n → j < n → AllBelow n xs → AllBelow n (map (swap_ref i j) xs)
AllBelow-map-swap_ref i j n [] h k a = tt
AllBelow-map-swap_ref i j n (x ∷ xs) h k a =
    (swap_ref-lt i j x n h k a.0, AllBelow-map-swap_ref i j n xs h k a.1)

length-swap_tracks : (ts : List Track) (i j : ℕ) → length (swap_tracks ts i j) ≡ length ts
unfolding swap_tracks
length-swap_tracks ts i j = elim (Option-cases (get_elem? ts i)) [
  | inl e ↦ rw (e, swap_tracks) refl
  | inr (a, e) ↦ elim (Option-cases (get_elem? ts j)) [
    | inl f ↦ rw (e, swap_tracks) (rw (f, swap_tracks) refl)
    | inr (b, f) ↦ ground (arith, length-set ts i b, length-set (set ts i b) j a)
  ]
]

QueuedBelow-swap_ref :
    (i j n : ℕ) (q : Option ℕ)
    → i < n
    → j < n
    → QueuedBelow n q
    → QueuedBelow n (elim q [ none ↦ none | some k ↦ some (swap_ref i j k) ])
QueuedBelow-swap_ref i j n none h k b = tt
QueuedBelow-swap_ref i j n (some m) h k b = swap_ref-lt i j m n h k b

module _ (p : Playlist) (i j : ℕ) (w : IsWellFormed p) (il : i < length p.tracks.items)
    (jl : j < length p.tracks.items) (ne : i ≢ j) where
  -- The swapped playlist with an order and a position that fit it.
  swap_all-IsWellFormed :
      (order : List ℕ) (position : ℕ)
      → IsPermutation order (length p.tracks.items)
      → position ≤ length p.tracks.items - 1
      → (p.shuffle ≡ false → order ≡ range (length p.tracks.items))
      → IsWellFormed (record (swap_all p i j) { order = with_items p.order order; pos = position })
  unfolding swap_all
  swap_all-IsWellFormed order position perm le straight = record {
    sound =
        subst
          (λ n.
            IsSound n order position p.shuffle (map (swap_ref i j) p.queue.items)
              (elim p.queued_idx [ none ↦ none | some k ↦ some (swap_ref i j k) ]))
          (sym (length-swap_tracks p.tracks.items i j))
          (record {
            permutation = perm;
            pos_le = le;
            straight = straight;
            queue_below = AllBelow-map-swap_ref i j _ p.queue.items il jl w.sound.queue_below;
            queued_below = QueuedBelow-swap_ref i j _ p.queued_idx il jl w.sound.queued_below;
          });
    coherent = rebuild-IsCoherent (map (swap_ref i j) p.queue.items);
  }

  straighten-swap_all-IsWellFormed :
      IsPermutation (map (swap_ref i j) p.order.items) (length p.tracks.items)
      → Returns IsWellFormed (straighten (swap_all p i j))
  unfolding straighten swap_all
  straighten-swap_all-IsWellFormed perm =
      let n : ℕ = length p.tracks.items in
      let (cur, e) =
        get_elem?-some (map (swap_ref i j) p.order.items) p.pos
          (omega (arith, perm.length_eq, w.sound.pos_le)) in
      let cur_lt : cur < n = IsPermutation-lt _ n p.pos perm e in
      rw (e, straighten)
        (rw perm.length_eq
          (swap_all-IsWellFormed (range n) cur (range-IsPermutation n) (omega arith) (λ off. refl)))

  moved-IsWellFormed :
      (b : Bool)
      → p.shuffle ≡ b
      → Returns IsWellFormed (if b then ok (swap_all p i j) else straighten (swap_all p i j))
  unfolding swap_all
  moved-IsWellFormed true on =
      swap_all-IsWellFormed (map (swap_ref i j) p.order.items) p.pos
        (map-swap_ref-IsPermutation i j _ p.order.items il jl ne w.sound.permutation) w.sound.pos_le
        (λ off. cc)
  moved-IsWellFormed false off =
      straighten-swap_all-IsWellFormed
        (map-swap_ref-IsPermutation i j _ p.order.items il jl ne w.sound.permutation)

  pub move_within-IsWellFormed : Returns IsWellFormed (move_within p i j)
  unfolding move_within
  move_within-IsWellFormed =
      Returns-bind IsWellFormed IsWellFormed
        (if p.shuffle then ok (swap_all p i j) else straighten (swap_all p i j)) _
        (moved-IsWellFormed p.shuffle refl) (λ q v. bump_if-IsWellFormed true q v)

pub move-Keeps : (p : Playlist) (from to : ℤ) → IsWellFormed p → Returns Keeps (move p from to)
unfolding move
move-Keeps p from to w = elim (Option-cases (index_in from (length p.tracks.items))) [
  | inl e ↦ rw (e, move) w
  | inr (i, e) ↦ elim (Option-cases (index_in to (length p.tracks.items))) [
    | inl f ↦ rw (e, move) (rw (f, move) w)
    | inr (j, f) ↦ elim (Bool-cases (i == j)) [
      | inl g ↦ rw (e, move) (rw (f, move) (rw g w))
      | inr g ↦
          rw (e, move)
            (rw (f, move)
              (rw g (
                Returns-bind IsWellFormed Keeps (move_within p i j) _
                  (move_within-IsWellFormed p i j w (index_in-lt from _ e) (index_in-lt to _ f)
                    (ground arith))
                  (λ q v. v))))
    ]
  ]
]

-- Other tracks, as many as before.
retracked-IsWellFormed :
    (p : Playlist) (r : ℕ) (ts : List Track)
    → length ts ≡ length p.tracks.items
    → IsWellFormed p
    → IsWellFormed (record p { revision = r; tracks = with_items p.tracks ts })
retracked-IsWellFormed p r ts e w = record {
  sound =
      subst (λ n. IsSound n p.order.items p.pos p.shuffle p.queue.items p.queued_idx) (sym e)
        w.sound;
  coherent = w.coherent;
}

pub set_track-IsWellFormed :
    (p : Playlist) (i : ℤ) (t : Track) → IsWellFormed p → IsWellFormed (set_track p i t)
unfolding set_track set_track_within
set_track-IsWellFormed p i t w = elim (Option-cases (index_in i (length p.tracks.items))) [
  | inl e ↦ rw (e, set_track) w
  | inr (j, e) ↦
      let (old, g) = get_elem?-some p.tracks.items j (index_in-lt i _ e) in
      elim (Bool-cases (equal_track old t)) [
        | inl same ↦ rw (e, set_track) (rw (g, set_track_within) (rw same w))
        | inr differs ↦
            rw (e, set_track)
              (rw (g, set_track_within)
                (rw differs (retracked-IsWellFormed p _ _ (length-set p.tracks.items j t) w)))
      ]
]

pub toggle_bookmark-IsWellFormed :
    (p : Playlist) (i : ℤ) → IsWellFormed p → IsWellFormed (toggle_bookmark p i)
unfolding toggle_bookmark
toggle_bookmark-IsWellFormed p i w = elim (Option-cases (index_in i (length p.tracks.items))) [
  | inl e ↦ rw (e, toggle_bookmark) w
  | inr (j, e) ↦
      let (old, g) = get_elem?-some p.tracks.items j (index_in-lt i _ e) in
      rw (e, toggle_bookmark)
        (rw (g, toggle_bookmark)
          (retracked-IsWellFormed p _ _ (length-set p.tracks.items j (flip_bookmark old)) w))
]

pub cycle_repeat-IsWellFormed : (p : Playlist) → IsWellFormed p → IsWellFormed (cycle_repeat p)
unfolding cycle_repeat
cycle_repeat-IsWellFormed p w = record { sound = w.sound; coherent = w.coherent }

pub set_repeat-IsWellFormed :
    (p : Playlist) (m : RepeatMode) → IsWellFormed p → IsWellFormed (set_repeat p m)
unfolding set_repeat
set_repeat-IsWellFormed p m w = elim (Bool-cases (equal_repeat p.repeat m)) [
  | inl e ↦ rw e w
  | inr e ↦ rw e (record { sound = w.sound; coherent = w.coherent })
]

-- Another shuffle flag that the order fits.
flagged-IsWellFormed :
    (p : Playlist) (b : Bool)
    → IsWellFormed p
    → (b ≡ false → p.order.items ≡ range (length p.tracks.items))
    → IsWellFormed (record p { shuffle = b })
flagged-IsWellFormed p b w h = record {
  sound = record {
    permutation = w.sound.permutation;
    pos_le = w.sound.pos_le;
    straight = h;
    queue_below = w.sound.queue_below;
    queued_below = w.sound.queued_below;
  };
  coherent = w.coherent;
}

eq_nil_of_length {ℓ} : {A : Type ℓ} (xs : List A) → length xs ≡ 0 → xs ≡ []
eq_nil_of_length [] h = refl
eq_nil_of_length (x ∷ xs) h = absurd (omega arith)

no_tracks-straight :
    (p : Playlist)
    → IsWellFormed p
    → is_empty p.tracks.items ≡ true
    → p.order.items ≡ range (length p.tracks.items)
no_tracks-straight p w e =
    let none_left : length p.tracks.items ≡ 0 = length_of_empty p.tracks.items e in
    rw none_left (eq_nil_of_length p.order.items (w.sound.permutation.length_eq ∙ none_left))

-- `ToggleShuffle` in a playlist with tracks, whose flag is `b`.
toggled-IsWellFormed :
    (d : Draws) (p : Playlist)
    → IsWellFormed p
    → 0 < length p.tracks.items
    → (b : Bool)
    → Returns IsWellFormed (
        if not b then (do r ← do_shuffle d (record p { shuffle = not b }); ok (bump r)) else (do
          cur ← index p.order.items p.pos
          ok (
              bump (record p {
                shuffle = not b;
                order = made (range (length p.tracks.items));
                pos = cur;
              }))))
toggled-IsWellFormed d p w h false =
    Returns-bind IsWellFormed IsWellFormed (do_shuffle d (record p { shuffle = true })) _
      (do_shuffle-IsWellFormed d (record p { shuffle = true })
        (flagged-IsWellFormed p true w (λ e. cc)) refl h)
      (λ q v. bump_if-IsWellFormed true q v)
toggled-IsWellFormed d p w h true =
    let n : ℕ = length p.tracks.items in
    let (cur, e) = get_elem?-some p.order.items p.pos (pos-lt p w h) in
    let cur_lt : cur < n = IsPermutation-lt p.order.items n p.pos w.sound.permutation e in
    rw e (
      bump_if-IsWellFormed true _ (
        flagged-IsWellFormed (record p { order = made (range n); pos = cur }) false
          (straightened-IsWellFormed p cur false w cur_lt) (λ f. refl)))

pub toggle_shuffle-IsWellFormed :
    (d : Draws) (p : Playlist) → IsWellFormed p → Returns IsWellFormed (toggle_shuffle d p)
unfolding toggle_shuffle
toggle_shuffle-IsWellFormed d p w = elim (empty_cases p.tracks.items) [
  | inl e ↦ rw e (
      bump_if-IsWellFormed true _
        (flagged-IsWellFormed p (not p.shuffle) w (λ off. no_tracks-straight p w e)))
  | inr (more, h) ↦ rw more (toggled-IsWellFormed d p w h p.shuffle)
]
