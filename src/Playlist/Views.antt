-- ===== src/Playlist/Views.antt =====
-- playlist/playlist.go: the methods that read the playlist. They return values, which stand for the
-- copies that the code makes.
use cliamp.Base.{
  ℕ, zero, suc, ◌+◌, ◌-◌, not, ◌||◌, Bool, Option, none, some, List, [], ◌∷◌, ltb, leb, ◌==◌,
  if◌then◌else◌, length, get_elem?, take, drop,
}
use cliamp.Base.Slices.{is_empty}
use cliamp.Base.Outcomes.{Outcome, ok, ◌>>=◌, of_option, index}
use cliamp.Base.Int.{ℤ, index_in, to_ℕ}
use Prim.Native.String.{String}
use text.Mathlib.Text.{◌==◌ as str_eq}
use cliamp.Playlist.Track.{Track}
use cliamp.Playlist.State.{Playlist}
use cliamp.Playlist.Slots.{current_track_index, is_some}

-- `cloneTracksAt`.
pub tracks_at : List Track → List ℕ → Outcome (List Track)
tracks_at tracks [] = ok []
tracks_at tracks (idx ∷ indices) = do
  t ← index tracks idx
  rest ← tracks_at tracks indices
  ok (t ∷ rest)

-- `Current`: `none` for `Track{}, -1`. With tracks but no order the code indexes at -1.
unfoldable pub current : Playlist → Outcome (Option (Track × ℕ))
current p = if is_empty p.tracks.items then ok none else do
  at_idx ← current_track_index p
  idx ← of_option at_idx
  t ← index p.tracks.items idx
  ok (some (t, idx))

-- `IndexOfPath`.
pub path_from : String → List Track → ℕ → Option ℕ
path_from path [] i = none
path_from path (t ∷ ts) i = if str_eq t.path path then some i else path_from path ts (i + 1)

unfoldable pub index_of_path : Playlist → String → Option ℕ
unfolding path_from
index_of_path p path = path_from path p.tracks.items 0

-- `windowBounds`.
pub window_bounds : ℕ → ℤ → ℤ → ℕ × ℕ
window_bounds n start limit =
    let s : ℕ = to_ℕ start in
    let l : ℕ = to_ℕ limit in
    if l == 0 || leb n s then (0, 0) else if ltb l (n - s) then (s, s + l) else (s, n)

-- `xs[from:to]`.
abbrev pub slice {ℓ} : {A : Type ℓ} → List A → ℕ → ℕ → List A
slice xs from to = take (to - from) (drop from xs)

-- `OrderWindow`.
unfoldable pub order_window : Playlist → ℤ → ℤ → Outcome (List ℕ × List Track)
unfolding window_bounds tracks_at
order_window p start limit =
    let bounds = window_bounds (length p.order.items) start limit in
    if bounds.0 == bounds.1 then ok ([], []) else (do
      let indices = slice p.order.items bounds.0 bounds.1
      tracks ← tracks_at p.tracks.items indices
      ok (indices, tracks))

-- `QueueWindow`.
unfoldable pub queue_window : Playlist → ℤ → ℤ → Outcome (List Track)
unfolding window_bounds tracks_at
queue_window p start limit =
    let bounds = window_bounds (length p.queue.items) start limit in
    if bounds.0 == bounds.1
    then ok []
    else tracks_at p.tracks.items (slice p.queue.items bounds.0 bounds.1)

-- `QueueTracks`.
unfoldable pub queue_tracks : Playlist → Outcome (List Track)
unfolding tracks_at
queue_tracks p = tracks_at p.tracks.items p.queue.items

-- `QueueEntries`: index and track of each entry.
pub entries_at : List Track → List ℕ → Outcome (List (ℕ × Track))
entries_at tracks [] = ok []
entries_at tracks (idx ∷ indices) = do
  t ← index tracks idx
  rest ← entries_at tracks indices
  ok ((idx, t) ∷ rest)

unfoldable pub queue_entries : Playlist → Outcome (List (ℕ × Track))
unfolding entries_at
queue_entries p = entries_at p.tracks.items p.queue.items

-- The loop of `Upcoming`, with room for `limit` more entries.
pub upcoming_from : List Track → List ℕ → ℕ → List (ℕ × Track)
upcoming_from tracks [] limit = []
upcoming_from tracks (idx ∷ order) zero = []
upcoming_from tracks (idx ∷ order) (suc limit) =
    let skip = upcoming_from tracks order (suc limit) in
    let keep = upcoming_from tracks order limit in
    elim (get_elem? tracks idx) [
      | none ↦ skip
      | some t ↦ if t.unplayable then skip else (idx, t) ∷ keep
    ]

-- `Upcoming`.
unfoldable pub upcoming : Playlist → ℤ → List (ℕ × Track)
unfolding upcoming_from
upcoming p limit = upcoming_from p.tracks.items (drop (p.pos + 1) p.order.items) (to_ℕ limit)

-- `slices.Index`.
pub index_from : ℕ → List ℕ → ℕ → Option ℕ
index_from idx [] i = none
index_from idx (x ∷ xs) i = if x == idx then some i else index_from idx xs (i + 1)

-- `OrderPosition`, with `none` for -1.
unfoldable pub order_position : Playlist → ℤ → Option ℕ
unfolding index_from
order_position p i = elim (index_in i (length p.tracks.items)) [
  | none ↦ none
  | some idx ↦ if not p.shuffle then some idx else index_from idx p.order.items 0
]

-- `Track`.
unfoldable pub track_at : Playlist → ℤ → Option Track
track_at p i = elim (index_in i (length p.tracks.items)) [
  | none ↦ none
  | some idx ↦ get_elem? p.tracks.items idx
]

-- `BookmarkCount`.
pub bookmarks : List Track → ℕ
bookmarks [] = 0
bookmarks (t ∷ ts) = (if t.bookmark then 1 else 0) + bookmarks ts

unfoldable pub bookmark_count : Playlist → ℕ
unfolding bookmarks
bookmark_count p = bookmarks p.tracks.items

-- `Len`.
unfoldable len : Playlist → ℕ
len p = length p.tracks.items

-- `Index`, with `none` for -1.
unfoldable index_of_current : Playlist → Outcome (Option ℕ)
index_of_current p = current_track_index p

-- `CurrentIsQueued`.
unfoldable current_is_queued : Playlist → Bool
current_is_queued p = is_some p.queued_idx

-- `QueueLen`.
unfoldable queue_len : Playlist → ℕ
queue_len p = length p.queue.items

-- `Tracks`: an empty slice for an empty playlist.
unfoldable tracks_of : Playlist → List Track
tracks_of p = p.tracks.items

-- `TracksAndQueue`: the tracks, and the queued track indices.
unfoldable tracks_and_queue : Playlist → List Track × List ℕ
tracks_and_queue p = (p.tracks.items, p.queue.items)
