-- ===== src/Playlist/State.antt =====
-- playlist/playlist.go: the playlist's state, its snapshots, the revision counter and the map of
-- queue positions. A track index is never negative in the state, so `pos` and the entries of
-- `order` and `queue` are natural numbers, and `none` stands for the -1 of `queuedIdx`. The mutex
-- makes each exported method one step, so no lock is modelled.
use cliamp.Base.{
  ℕ, ◌+◌, ◌%◌, ◌^◌, Bool, true, false, not, ◌&&◌, Option, none, some, List, [], ◌∷◌, ◌==◌,
  if◌then◌else◌,
}
use cliamp.Base.Slices.{Slice, nil_slice, is_empty}
use cliamp.Playlist.Track.{Track, equal_track}

pub data RepeatMode : Type 0 where
  repeat_off repeat_all repeat_one : RepeatMode

abbrev pub is_repeat_all : RepeatMode → Bool
is_repeat_all repeat_all = true
is_repeat_all _ = false

abbrev pub is_repeat_one : RepeatMode → Bool
is_repeat_one repeat_one = true
is_repeat_one _ = false

pub record Playlist : Type 0 where
  pub revision : ℕ
  pub tracks : Slice Track
  pub order : Slice ℕ
  pub pos : ℕ
  pub shuffle : Bool
  pub smart : Bool
  pub repeat : RepeatMode
  pub queue : Slice ℕ
  pub queue_positions : Option (List (ℕ × ℕ))
  pub queued_idx : Option ℕ

pub record Snapshot : Type 0 where
  pub tracks : Slice Track
  pub order : Slice ℕ
  pub pos : ℕ
  pub shuffle : Bool
  pub smart : Bool
  pub repeat : RepeatMode
  pub queue : Slice ℕ
  pub queued_idx : Option ℕ

-- `New`.
unfoldable pub new : Playlist
new = record {
  revision = 0;
  tracks = nil_slice;
  order = nil_slice;
  pos = 0;
  shuffle = false;
  smart = false;
  repeat = repeat_off;
  queue = nil_slice;
  queue_positions = none;
  queued_idx = none;
}

-- `p.revision++` on a uint64.
abbrev pub bump : Playlist → Playlist
bump p = record p { revision = (p.revision + 1) % 2 ^ 64 }

abbrev pub bump_if : Bool → Playlist → Playlist
bump_if b p = if b then bump p else p

-- `p.queuePositions[idx]`, 0 for a missing key or a nil map.
abbrev pub lookup_in : List (ℕ × ℕ) → ℕ → ℕ
lookup_in [] k = 0
lookup_in ((j, v) ∷ m) k = if j == k then v else lookup_in m k

abbrev pub lookup_position : Option (List (ℕ × ℕ)) → ℕ → ℕ
lookup_position none k = 0
lookup_position (some m) k = lookup_in m k

abbrev pub has_key : List (ℕ × ℕ) → ℕ → Bool
has_key [] k = false
has_key ((j, v) ∷ m) k = if j == k then true else has_key m k

-- `if _, exists := m[k]; !exists { m[k] = v }`.
abbrev pub insert_new : ℕ → ℕ → List (ℕ × ℕ) → List (ℕ × ℕ)
insert_new k v m = if has_key m k then m else (k, v) ∷ m

-- The loop of `rebuildQueuePositions`, at the queue's entries from `i` on.
unfoldable pub rebuild_from : ℕ → List ℕ → List (ℕ × ℕ) → List (ℕ × ℕ)
rebuild_from i [] m = m
rebuild_from i (idx ∷ q) m = rebuild_from (i + 1) q (insert_new idx (i + 1) m)

-- `rebuildQueuePositions`: the new value of the map.
unfoldable pub rebuild_queue_positions : List ℕ → Option (List (ℕ × ℕ))
unfolding rebuild_from
rebuild_queue_positions q = if is_empty q then none else some (rebuild_from 0 q [])

-- The state that a snapshot copies.
unfoldable pub snapshot_of : Playlist → Snapshot
snapshot_of p = record {
  tracks = p.tracks;
  order = p.order;
  pos = p.pos;
  shuffle = p.shuffle;
  smart = p.smart;
  repeat = p.repeat;
  queue = p.queue;
  queued_idx = p.queued_idx;
}

abbrev pub equal_bool : Bool → Bool → Bool
equal_bool true b = b
equal_bool false b = not b

-- `equalTracks` and `equalIndices`: both nil or neither, and equal entry by entry.
pub equal_track_lists : List Track → List Track → Bool
equal_track_lists [] [] = true
equal_track_lists (a ∷ as') (b ∷ bs) = equal_track a b && equal_track_lists as' bs
equal_track_lists _ _ = false

pub equal_tracks : Slice Track → Slice Track → Bool
unfolding equal_track_lists
equal_tracks a b = equal_bool a.is_nil b.is_nil && equal_track_lists a.items b.items

-- `slices.Equal` on indices.
pub equal_index_lists : List ℕ → List ℕ → Bool
equal_index_lists [] [] = true
equal_index_lists (a ∷ as') (b ∷ bs) = a == b && equal_index_lists as' bs
equal_index_lists _ _ = false

pub equal_indices : Slice ℕ → Slice ℕ → Bool
unfolding equal_index_lists
equal_indices a b = equal_bool a.is_nil b.is_nil && equal_index_lists a.items b.items

abbrev pub equal_repeat : RepeatMode → RepeatMode → Bool
equal_repeat repeat_off repeat_off = true
equal_repeat repeat_all repeat_all = true
equal_repeat repeat_one repeat_one = true
equal_repeat _ _ = false

abbrev pub equal_queued : Option ℕ → Option ℕ → Bool
equal_queued none none = true
equal_queued (some a) (some b) = a == b
equal_queued _ _ = false

-- `matches`: all that a snapshot holds but the Smart Shuffle flag.
unfoldable pub matches : Playlist → Snapshot → Bool
unfolding equal_tracks equal_indices
matches p s =
    equal_tracks p.tracks s.tracks
    && equal_indices p.order s.order
    && p.pos == s.pos
    && equal_bool p.shuffle s.shuffle
    && equal_repeat p.repeat s.repeat
    && equal_indices p.queue s.queue
    && equal_queued p.queued_idx s.queued_idx
