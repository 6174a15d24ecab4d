-- ===== src/Playlist/Invariant.antt =====
-- The well-formedness of a playlist (playlist/playlist.go), which every operation keeps.
pub mod Positions
pub mod Order
pub mod Queue
pub mod Edits
pub mod Removal
pub mod Loads
use cliamp.Base.{
  ℕ, zero, suc, ◌+◌, ◌-◌, ◌%◌, ◌^◌, ◌≤◌, ◌<◌, min, max, ◌≡◌, refl, sym, ap, subst, ◌∙◌, ◌≢◌, ◌↔◌,
  ◌⊎◌, inl, inr, Bool, true, false, not, ◌&&◌, ◌||◌, Option, none, some, List, [], ◌∷◌, ◌++◌, map,
  arith, ltb, leb, ◌==◌, if◌then◌else◌, Bool-cases, Option-cases, length, get_elem?, set, take,
  drop, delete, range, range_from, All, length-append, length-set, length-take, length-drop,
  length-delete, length-map, length-range_from, get_elem?-some, get_elem?-lt, get_elem?-ge,
  get_elem?-set, get_elem?-range_from, take-append-drop, All-append, All-get_elem?,
}
use cliamp.Base.Slices.{Slice, nil_slice, made, with_items, is_empty, append_items}
use cliamp.Base.Outcomes.{Outcome, ok, panic, ◌>>=◌, of_option, index, index-ok, >>=-eq-ok}
use cliamp.Base.Int.{ℤ, index_in, to_ℕ, index_in-lt}
use cliamp.Base.Counts.{count, count-append, count-set, count-range_from, count-pos}
use cliamp.Playlist.Track.{Track, equal_track, equal_track_iff}
use cliamp.Playlist.State.{
  Playlist, RepeatMode, repeat_off, repeat_all, repeat_one, is_repeat_all, is_repeat_one, Snapshot,
  new, bump, bump_if, insert_new, rebuild_from, rebuild_queue_positions, lookup_in, has_key,
  lookup_position, snapshot_of, equal_tracks, equal_indices, equal_index_lists, equal_track_lists,
  equal_repeat, equal_queued, equal_bool, matches,
}
use cliamp.Playlist.Shuffle.{
  Draws, swap, shuffle_down, fisher_yates, others_from, do_shuffle, shuffle_tail, mix_in,
  append_tracks,
}
use cliamp.Playlist.Slots.{
  is_playable, first_slot, first_playable_order_slot, last_slot, last_playable_order_slot,
  playable_queued, next_playable_queued, current_order_track_index, current_track_index, is_some,
  at_shuffle_wrap, resolve_selected_playable_pos,
}
use cliamp.Playlist.Navigation.{
  next_shuffle_wrap, advance_from_order, next_from_queue, next_repeat_one, next_in_order,
  clear_spent_queue, next_without_queue, next, has_next, peek_next, prev_to, prev,
  activate_selected, peek_selected, set_index, find_index, slot_of, Activation,
}
use cliamp.Playlist.Queueing.{
  delete_queue_at, find_queued, swap_queue, queue_track, dequeue, remove_queue_at, move_queue,
  clear_queue, queue_position,
}
use cliamp.Playlist.Editing.{
  swap_ref, move, drop_refs, last_index_of, removed_pos, shift_queued, remove_within, swap_all,
  straighten, move_within, swap_tracks, set_track_within, remove, set_track, toggle_bookmark,
  toggle_shuffle, cycle_repeat, set_repeat,
}
use cliamp.Playlist.Smart.{
  upcoming_order, enable_smart, collect_smart, insert_sorted, sort, remove_all, disable_smart,
  smart_pending, remaining, mark_smart, add_smart,
}
use cliamp.Playlist.Loading.{bump_unless_matches, replace, add, restore}
use cliamp.Playlist.Views.{
  index_of_path, path_from, entries_at, queue_entries, queue_tracks, index_from, track_at,
  bookmark_count, bookmarks, slice, current, window_bounds, order_window, order_position,
  upcoming_from, upcoming, queue_window, tracks_at,
}
use cliamp.Base.Permutations.{
  IsPermutation, IsPermutation-lt, IsPermutation-get_elem?, range-IsPermutation,
  append-IsPermutation, IsPermutation-of_counts, get_elem?-count,
}
use cliamp.Playlist.Shuffle.Laws.{
  length-swap, count-swap, fisher_yates-counts, length-fisher_yates, shuffled-IsPermutation,
  shuffle_tail-counts, length-shuffle_tail, shuffle_tail-IsPermutation, count-others_from,
  length-others_from,
}

-- A queued track index is the index of a track.
abbrev pub QueuedBelow : ℕ → Option ℕ → Type 0
QueuedBelow n none = Unit {0}
QueuedBelow n (some i) = i < n

abbrev pub AllBelow : ℕ → List ℕ → Type 0
AllBelow n = All (λ i. i < n)

-- The fields that hold track indices, for n tracks: the order holds every track once, and without
-- shuffle in track order; the position is a slot of the order, or 0 in an empty playlist.
pub record IsSound (n : ℕ) (order : List ℕ) (pos : ℕ) (shuffle : Bool) (queue : List ℕ)
    (queued : Option ℕ) : Type 0 where
  pub permutation : IsPermutation order n
  pub pos_le : pos ≤ n - 1
  pub straight : shuffle ≡ false → order ≡ range n
  pub queue_below : AllBelow n queue
  pub queued_below : QueuedBelow n queued

-- The 1-based place of the first entry `k` in the queue, 0 if there is none.
abbrev first_position : List ℕ → ℕ → ℕ
first_position [] k = 0
first_position (x ∷ xs) k =
    let rest : ℕ = first_position xs k in if x == k then 1 else if rest == 0 then 0 else suc rest

abbrev has_position : Option (List (ℕ × ℕ)) → ℕ → Bool
has_position none k = false
has_position (some m) k = has_key m k

-- The map of queue positions gives each track its first place, has the queued tracks for
-- keys, and is nil for an empty queue.
pub record IsCoherent (m : Option (List (ℕ × ℕ))) (queue : List ℕ) : Type 0 where
  pub finds : (k : ℕ) → lookup_position m k ≡ first_position queue k
  pub keys : (k : ℕ) → has_position m k ≡ not (first_position queue k == 0)
  pub nil_of_empty : queue ≡ [] → m ≡ none

abbrev pub IsSoundSnapshot : Snapshot → Type 0
IsSoundSnapshot s =
    IsSound (length s.tracks.items) s.order.items s.pos s.shuffle s.queue.items s.queued_idx

pub record IsWellFormed (p : Playlist) : Type 0 where
  pub sound :
      IsSound (length p.tracks.items) p.order.items p.pos p.shuffle p.queue.items p.queued_idx
  pub coherent : IsCoherent p.queue_positions p.queue.items

-- The call returns, without a panic, and the result satisfies `P`.
abbrev pub Returns {ℓ} : {A : Type ℓ} → (A → Type 0) → Outcome A → Type 0
Returns P (ok a) = P a
Returns P panic = ⊥

-- A further step, from what the first one returns.
pub Returns-bind {ℓ κ} :
    {A : Type ℓ} {B : Type κ} (P : A → Type 0) (Q : B → Type 0) (m : Outcome A) (f : A → Outcome B)
    → Returns P m
    → ((a : A) → P a → Returns Q (f a))
    → Returns Q (m >>= f)
Returns-bind P Q (ok a) f h k = k a h
Returns-bind P Q panic f h k = h
