-- ===== src/Playlist/Editing.antt =====
-- playlist/playlist.go: `Move`, `Remove`, `SetTrack`, `ToggleBookmark`, `ToggleShuffle` and the
-- repeat mode.
use cliamp.Base.{
  ℕ, ◌+◌, ◌-◌, Bool, true, false, not, Option, none, some, List, [], ◌∷◌, map, ltb, leb, ◌==◌,
  if◌then◌else◌, length, get_elem?, set, delete, range,
}
use cliamp.Base.Slices.{made, with_items, is_empty}
use cliamp.Base.Outcomes.{Outcome, ok, ◌>>=◌, index}
use cliamp.Base.Int.{ℤ, index_in}
use cliamp.Playlist.Track.{Track, equal_track}
use cliamp.Playlist.State.{
  Playlist, RepeatMode, repeat_off, repeat_all, repeat_one, bump, rebuild_queue_positions,
  equal_repeat,
}
use cliamp.Playlist.Shuffle.{Draws, do_shuffle}

-- A reference to one of two swapped tracks follows it.
unfoldable pub swap_ref : ℕ → ℕ → ℕ → ℕ
swap_ref from to idx = if idx == from then to else if idx == to then from else idx

-- `p.tracks[from], p.tracks[to] = p.tracks[to], p.tracks[from]`.
unfoldable pub swap_tracks : List Track → ℕ → ℕ → List Track
swap_tracks ts i j = elim (get_elem? ts i) [
  | none ↦ ts
  | some a ↦ elim (get_elem? ts j) [ none ↦ ts | some b ↦ set (set ts i b) j a ]
]

-- The first part of `Move`: the tracks swapped and every reference to them.
unfoldable pub swap_all : Playlist → ℕ → ℕ → Playlist
unfolding swap_ref swap_tracks rebuild_queue_positions
swap_all p from to =
    let queue : List ℕ = map (swap_ref from to) p.queue.items in
    record p {
      tracks = with_items p.tracks (swap_tracks p.tracks.items from to);
      order = with_items p.order (map (swap_ref from to) p.order.items);
      queue = with_items p.queue queue;
      queue_positions = rebuild_queue_positions queue;
      queued_idx = elim p.queued_idx [ none ↦ none | some i ↦ some (swap_ref from to i) ];
    }

-- Without shuffle the play order goes back to the track order, at the current track.
unfoldable pub straighten : Playlist → Outcome Playlist
straighten p = do
  cur ← index p.order.items p.pos
  ok (record p { order = with_items p.order (range (length p.order.items)); pos = cur })

-- The body of `Move` behind its guard.
unfoldable pub move_within : Playlist → ℕ → ℕ → Outcome Playlist
unfolding swap_all straighten
move_within p from to = do
  q ← if p.shuffle then ok (swap_all p from to) else straighten (swap_all p from to)
  ok (bump q)

-- `Move`.
unfoldable pub move : Playlist → ℤ → ℤ → Outcome (Playlist × Bool)
unfolding move_within
move p from to = elim (index_in from (length p.tracks.items)) [
  | none ↦ ok (p, false)
  | some i ↦ elim (index_in to (length p.tracks.items)) [
    | none ↦ ok (p, false)
    | some j ↦ if i == j then ok (p, false) else (do q ← move_within p i j; ok (q, true))
  ]
]

-- The references that are left when track `idx` goes, renumbered.
unfoldable pub drop_refs : ℕ → List ℕ → List ℕ
drop_refs idx [] = []
drop_refs idx (x ∷ xs) =
    let rest = drop_refs idx xs in
    if x == idx then rest else if ltb idx x then (x - 1) ∷ rest else x ∷ rest

-- `removedOrderPos`: the last slot from `i` on that holds `idx`.
pub last_index_of : ℕ → List ℕ → ℕ → Option ℕ
last_index_of idx [] i = none
last_index_of idx (x ∷ xs) i = elim (last_index_of idx xs (i + 1)) [
  | some j ↦ some j
  | none ↦ if x == idx then some i else none
]

-- The position after a removal: one down if the removed slot `r` stood before it, then clamped to
-- the new order of length `n`. (For an empty order Go's -1 becomes 0, as here.)
unfoldable pub removed_pos : Option ℕ → ℕ → ℕ → ℕ
removed_pos r position n =
    let moved : ℕ = elim r [
      | none ↦ position
      | some j ↦ if ltb j position then position - 1 else position
    ] in
    if leb n moved then n - 1 else moved

-- `queuedIdx` after the removal of track `idx`.
unfoldable pub shift_queued : ℕ → Option ℕ → Option ℕ
shift_queued idx none = none
shift_queued idx (some q) = if q == idx then none else if ltb idx q then some (q - 1) else some q

-- The body of `removeLocked` behind its guard.
unfoldable pub remove_within : Playlist → ℕ → Playlist
unfolding drop_refs last_index_of removed_pos shift_queued rebuild_queue_positions
remove_within p idx =
    let order : List ℕ = drop_refs idx p.order.items in
    let queue : List ℕ = drop_refs idx p.queue.items in
    bump (record p {
      tracks = with_items p.tracks (delete p.tracks.items idx);
      order = with_items p.order order;
      pos = removed_pos (last_index_of idx p.order.items 0) p.pos (length order);
      queue = with_items p.queue queue;
      queue_positions = rebuild_queue_positions queue;
      queued_idx = shift_queued idx p.queued_idx;
    })

-- `Remove` and `removeLocked`.
unfoldable pub remove : Playlist → ℤ → Playlist × Bool
unfolding remove_within
remove p i = elim (index_in i (length p.tracks.items)) [
  | none ↦ (p, false)
  | some idx ↦ (remove_within p idx, true)
]

-- `SetTrack` behind its guard.
unfoldable pub set_track_within : Playlist → ℕ → Track → Playlist
unfolding equal_track
set_track_within p i t = elim (get_elem? p.tracks.items i) [
  | none ↦ p
  | some old ↦
      if equal_track old t
      then p
      else bump (record p { tracks = with_items p.tracks (set p.tracks.items i t) })
]

-- `SetTrack`.
unfoldable pub set_track : Playlist → ℤ → Track → Playlist
unfolding set_track_within
set_track p i t = elim (index_in i (length p.tracks.items)) [
  | none ↦ p
  | some idx ↦ set_track_within p idx t
]

abbrev pub flip_bookmark : Track → Track
flip_bookmark t = record t { info = record (t.info) { bookmark = not t.info.bookmark } }

-- `ToggleBookmark`.
unfoldable pub toggle_bookmark : Playlist → ℤ → Playlist
toggle_bookmark p i = elim (index_in i (length p.tracks.items)) [
  | none ↦ p
  | some idx ↦ elim (get_elem? p.tracks.items idx) [
    | none ↦ p
    | some t ↦
        bump (record p { tracks = with_items p.tracks (set p.tracks.items idx (flip_bookmark t)) })
  ]
]

-- `ToggleShuffle`.
unfoldable pub toggle_shuffle : Draws → Playlist → Outcome Playlist
toggle_shuffle d p =
    let q = record p { shuffle = not p.shuffle } in
    if is_empty p.tracks.items
    then ok (bump q)
    else if not p.shuffle
    then (do r ← do_shuffle d q; ok (bump r))
    else (do
      cur ← index p.order.items p.pos
      ok (bump (record q { order = made (range (length p.tracks.items)); pos = cur })))

-- `CycleRepeat`: off, all, one.
unfoldable pub cycle_repeat : Playlist → Playlist
cycle_repeat p = bump (record p {
  repeat = elim p.repeat [
    | repeat_off ↦ repeat_all
    | repeat_all ↦ repeat_one
    | repeat_one ↦ repeat_off
  ];
})

-- `SetRepeat`.
unfoldable pub set_repeat : Playlist → RepeatMode → Playlist
set_repeat p mode = if equal_repeat p.repeat mode then p else bump (record p { repeat = mode })
