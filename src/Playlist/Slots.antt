-- ===== src/Playlist/Slots.antt =====
-- playlist/playlist.go: the searches for a playable track in the play order and in the queue.
pub mod Laws
use cliamp.Base.{
  ℕ, zero, suc, ◌+◌, ◌-◌, min, Bool, true, false, not, ◌&&◌, Option, none, some, List, [], ◌∷◌, leb,
  if◌then◌else◌, length, get_elem?, drop,
}
use cliamp.Base.Slices.{is_empty}
use cliamp.Base.Outcomes.{Outcome, ok, ◌>>=◌, index}
use cliamp.Playlist.Track.{Track}
use cliamp.Playlist.State.{Playlist, is_repeat_all}

-- `isPlayable`, at an index that is not negative.
unfoldable pub is_playable : List Track → ℕ → Bool
is_playable tracks idx = elim (get_elem? tracks idx) [ none ↦ false | some t ↦ not t.unplayable ]

-- `firstPlayableOrderSlot`'s loop over the rest of the order, which begins at slot `i`, for at most
-- `k` rounds. The result is the slot and the track index.
pub first_slot : List Track → List ℕ → ℕ → ℕ → Option (ℕ × ℕ)
unfolding is_playable
first_slot tracks [] i k = none
first_slot tracks (idx ∷ order) i zero = none
first_slot tracks (idx ∷ order) i (suc k) =
    if is_playable tracks idx then some (i, idx) else first_slot tracks order (i + 1) k

unfoldable pub first_playable_order_slot : Playlist → ℕ → ℕ → Option (ℕ × ℕ)
unfolding first_slot
first_playable_order_slot p from to =
    first_slot p.tracks.items (drop from p.order.items) from (to - from)

-- `lastPlayableOrderSlot`'s loop over the slots below `n`, from the highest down.
pub last_slot : List Track → List ℕ → ℕ → Option (ℕ × ℕ)
unfolding is_playable
last_slot tracks order zero = none
last_slot tracks order (suc i) =
    let rest = last_slot tracks order i in
    elim (get_elem? order i) [
      | none ↦ rest
      | some idx ↦ if is_playable tracks idx then some (i, idx) else rest
    ]

-- `lastPlayableOrderSlot(below - 1)`, clamped to the end of the order.
pub last_playable_order_slot : Playlist → ℕ → Option (ℕ × ℕ)
unfolding last_slot
last_playable_order_slot p below =
    last_slot p.tracks.items p.order.items (min below (length p.order.items))

-- `nextPlayableQueued`: the first playable entry of the queue, and the entries behind it.
unfoldable pub playable_queued : List Track → List ℕ → Option (ℕ × List ℕ)
unfolding is_playable
playable_queued tracks [] = none
playable_queued tracks (idx ∷ queue) =
    if is_playable tracks idx then some (idx, queue) else playable_queued tracks queue

unfoldable pub next_playable_queued : Playlist → Option (ℕ × List ℕ)
unfolding playable_queued
next_playable_queued p = playable_queued p.tracks.items p.queue.items

-- `currentOrderTrackIndex`, with `none` for -1.
unfoldable pub current_order_track_index : Playlist → Outcome (Option ℕ)
current_order_track_index p =
    if is_empty p.order.items then ok none else do i ← index p.order.items p.pos; ok (some i)

-- `currentTrackIndex`.
unfoldable pub current_track_index : Playlist → Outcome (Option ℕ)
current_track_index p =
    if is_empty p.order.items
    then ok none
    else elim p.queued_idx [ some i ↦ ok (some i) | none ↦ current_order_track_index p ]

abbrev pub is_some {ℓ} : {A : Type ℓ} → Option A → Bool
is_some none = false
is_some (some a) = true

-- `atShuffleWrap`.
unfoldable pub at_shuffle_wrap : Playlist → Bool
at_shuffle_wrap p =
    is_repeat_all p.repeat
    && p.shuffle
    && is_empty p.queue.items
    && not (is_some p.queued_idx)
    && leb (length p.order.items) (p.pos + 1)

-- `resolveSelectedPlayablePos`.
unfoldable pub resolve_selected_playable_pos : Playlist → Outcome (Option (ℕ × ℕ))
resolve_selected_playable_pos p = if is_empty p.order.items then ok none else do
  idx ← index p.order.items p.pos
  ok (
      if is_playable p.tracks.items idx
      then some (p.pos, idx)
      else elim (first_playable_order_slot p (p.pos + 1) (length p.order.items)) [
        | some s ↦ some s
        | none ↦ if is_repeat_all p.repeat then first_playable_order_slot p 0 p.pos else none
      ])
