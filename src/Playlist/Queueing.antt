-- ===== src/Playlist/Queueing.antt =====
-- playlist/playlist.go: the play-next queue.
use cliamp.Base.{
  ℕ, ◌+◌, Bool, true, false, not, ◌&&◌, Option, none, some, List, [], ◌∷◌, ◌==◌, if◌then◌else◌,
  length, delete,
}
use cliamp.Base.Slices.{nil_slice, with_items, is_empty, append_items}
use cliamp.Base.Int.{ℤ, pos, negsuc, index_in}
use cliamp.Playlist.State.{Playlist, bump, insert_new, rebuild_queue_positions, lookup_position}
use cliamp.Playlist.Slots.{is_some}
use cliamp.Playlist.Shuffle.{swap}

-- `Queue`.
unfoldable pub queue_track : Playlist → ℤ → Playlist
queue_track p track_idx = elim (index_in track_idx (length p.tracks.items)) [
  | none ↦ p
  | some i ↦ bump (record p {
    queue = append_items p.queue (i ∷ []);
    queue_positions = some (elim p.queue_positions [
      | none ↦ (i, length p.queue.items + 1) ∷ []
      | some m ↦ insert_new i (length p.queue.items + 1) m
    ]);
  })
]

-- The queue with the entry at `i` deleted, and the positions rebuilt.
unfoldable pub delete_queue_at : Playlist → ℕ → Playlist
unfolding rebuild_queue_positions
delete_queue_at p i =
    let rest : List ℕ = delete p.queue.items i in
    bump
      (record p { queue = with_items p.queue rest; queue_positions = rebuild_queue_positions rest })

-- The first place from `i` on where the queue holds track `idx`.
pub find_queued : ℕ → List ℕ → ℕ → Option ℕ
find_queued idx [] i = none
find_queued idx (x ∷ xs) i = if x == idx then some i else find_queued idx xs (i + 1)

-- `Dequeue`; a negative index is not in the queue.
unfoldable pub dequeue : Playlist → ℤ → Playlist × Bool
unfolding delete_queue_at find_queued
dequeue p (negsuc n) = (p, false)
dequeue p (pos idx) = elim (find_queued idx p.queue.items 0) [
  | none ↦ (p, false)
  | some i ↦ (delete_queue_at p i, true)
]

-- `QueuePosition`.
unfoldable pub queue_position : Playlist → ℤ → ℕ
queue_position p (negsuc n) = 0
queue_position p (pos idx) = lookup_position p.queue_positions idx

-- `ClearQueue`.
unfoldable pub clear_queue : Playlist → Playlist
clear_queue p =
    if is_empty p.queue.items && not (is_some p.queue_positions)
    then p
    else bump (record p { queue = nil_slice; queue_positions = none })

-- `RemoveQueueAt`.
unfoldable pub remove_queue_at : Playlist → ℤ → Playlist
unfolding delete_queue_at
remove_queue_at p at_pos = elim (index_in at_pos (length p.queue.items)) [
  | none ↦ p
  | some i ↦ delete_queue_at p i
]

-- The body of `MoveQueue` behind its guard.
unfoldable pub swap_queue : Playlist → ℕ → ℕ → Playlist
unfolding swap rebuild_queue_positions
swap_queue p i j =
    let swapped : List ℕ = swap p.queue.items i j in
    bump (record p {
      queue = with_items p.queue swapped;
      queue_positions = rebuild_queue_positions swapped;
    })

-- `MoveQueue`.
unfoldable pub move_queue : Playlist → ℤ → ℤ → Playlist × Bool
unfolding swap_queue
move_queue p from to = elim (index_in from (length p.queue.items)) [
  | none ↦ (p, false)
  | some i ↦ elim (index_in to (length p.queue.items)) [
    | none ↦ (p, false)
    | some j ↦ if i == j then (p, false) else (swap_queue p i j, true)
  ]
]
