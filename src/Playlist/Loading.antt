-- ===== src/Playlist/Loading.antt =====
-- playlist/playlist.go: `Replace`, `Add` and `Restore`.
use cliamp.Base.{ℕ, not, ◌&&◌, none, List, ltb, if◌then◌else◌, length, range}
use cliamp.Base.Slices.{Slice, nil_slice, made, is_empty}
use cliamp.Base.Outcomes.{Outcome, ok, ◌>>=◌}
use cliamp.Playlist.Track.{Track}
use cliamp.Playlist.State.{
  Playlist, Snapshot, bump, bump_if, rebuild_queue_positions, snapshot_of, matches,
}
use cliamp.Playlist.Shuffle.{Draws, do_shuffle, mix_in, append_tracks}

-- `if !p.matches(before) { p.revision++ }`.
unfoldable pub bump_unless_matches : Playlist → Playlist → Playlist
bump_unless_matches before p = bump_if (not (matches p (snapshot_of before))) p

-- `Replace`.
unfoldable pub replace : Draws → Slice Track → Playlist → Outcome Playlist
replace d tracks p = do
  let n : ℕ = length tracks.items
  let loaded : Playlist = record p {
    tracks = tracks;
    order = made (range n);
    pos = 0;
    queue = nil_slice;
    queue_positions = none;
    queued_idx = none;
  }
  q ← if p.shuffle && ltb 0 n then do_shuffle d loaded else ok loaded
  ok (bump_unless_matches p q)

-- `Add`.
unfoldable pub add : Draws → List Track → Playlist → Outcome Playlist
add d ts p = if is_empty ts then ok p else (do
  q ←
      if p.shuffle
      then mix_in d (length p.tracks.items) (append_tracks ts p)
      else ok (append_tracks ts p)
  ok (bump q))

-- `Restore`.
unfoldable pub restore : Snapshot → Playlist → Playlist
restore s p = bump_unless_matches p (record p {
  tracks = s.tracks;
  order = s.order;
  pos = s.pos;
  shuffle = s.shuffle;
  smart = s.smart;
  repeat = s.repeat;
  queue = s.queue;
  queue_positions = rebuild_queue_positions s.queue.items;
  queued_idx = s.queued_idx;
})
