-- ===== src/Playlist/Session.antt =====
-- Histories of a playlist (playlist/playlist.go): every exported method that changes it, called in
-- any order, with the snapshots taken so far. The methods hold the mutex throughout, so a concurrent
-- history is a sequence of calls.
pub mod Safety
use cliamp.Base.{
  ℕ, ℕ_discrete, zero, suc, ◌+◌, ◌-◌, ◌%◌, ◌^◌, ◌≤◌, ◌<◌, min, max, ◌≡◌, refl, sym, ap, subst, ◌∙◌,
  ◌≢◌, ◌↔◌, ◌⊎◌, inl, inr, Bool, true, false, not, ◌&&◌, ◌||◌, Option, none, some, List, [], ◌∷◌,
  ◌++◌, map, arith, ltb, leb, ◌==◌, if◌then◌else◌, Bool-cases, Option-cases, length, get_elem?, set,
  take, drop, delete, range, range_from, All, length-append, length-set, length-take, length-drop,
  length-delete, length-map, length-range_from, get_elem?-some, get_elem?-lt, get_elem?-ge,
  get_elem?-set, get_elem?-range_from, take-append-drop, All-append, All-get_elem?,
}
use cliamp.Base.Slices.{Slice, nil_slice, made, with_items, is_empty, append_items}
use cliamp.Base.Outcomes.{Outcome, ok, panic, ◌>>=◌, of_option, index, index-ok, >>=-eq-ok}
use cliamp.Base.Int.{ℤ, pos, negsuc, index_in, to_ℕ, index_in-lt}
use cliamp.Base.Counts.{count, count-append, count-set, count-range_from, count-pos}
use cliamp.Playlist.Track.{Track, equal_track, equal_track_iff}
use cliamp.Playlist.State.{
  Playlist, RepeatMode, repeat_off, repeat_all, repeat_one, is_repeat_all, is_repeat_one, Snapshot,
  new, bump, bump_if, insert_new, rebuild_from, rebuild_queue_positions, lookup_in, has_key,
  lookup_position, snapshot_of, equal_tracks, equal_indices, equal_index_lists, equal_track_lists,
  equal_repeat, equal_queued, equal_bool, matches,
}
use cliamp.Playlist.Shuffle.{
  Draws, swap, shuffle_down, fisher_yates, others_from, do_shuffle, shuffle_tail, mix_in,
  append_tracks,
}
use cliamp.Playlist.Slots.{
  is_playable, first_slot, first_playable_order_slot, last_slot, last_playable_order_slot,
  playable_queued, next_playable_queued, current_order_track_index, current_track_index, is_some,
  at_shuffle_wrap, resolve_selected_playable_pos,
}
use cliamp.Playlist.Navigation.{
  next_shuffle_wrap, advance_from_order, next_from_queue, next_repeat_one, next_in_order,
  clear_spent_queue, next_without_queue, next, has_next, peek_next, prev_to, prev_fallback,
  prev_wrapped, prev, activate_selected, peek_selected, set_index, find_index, slot_of, Activation,
}
use cliamp.Playlist.Queueing.{
  delete_queue_at, find_queued, swap_queue, queue_track, dequeue, remove_queue_at, move_queue,
  clear_queue, queue_position,
}
use cliamp.Playlist.Editing.{
  swap_ref, move, drop_refs, last_index_of, removed_pos, shift_queued, remove_within, swap_all,
  straighten, move_within, swap_tracks, set_track_within, flip_bookmark, remove, set_track,
  toggle_bookmark, toggle_shuffle, cycle_repeat, set_repeat,
}
use cliamp.Playlist.Smart.{
  upcoming_order, enable_smart, collect_smart, insert_sorted, sort, remove_all, disable_smart,
  smart_pending, remaining, mark_smart, add_smart,
}
use cliamp.Playlist.Loading.{bump_unless_matches, replace, add, restore}
use cliamp.Playlist.Views.{
  index_of_path, path_from, entries_at, queue_entries, queue_tracks, index_from, track_at,
  bookmark_count, bookmarks, slice, current, window_bounds, order_window, order_position,
  upcoming_from, upcoming, queue_window, tracks_at,
}
use cliamp.Base.Permutations.{
  IsPermutation, IsPermutation-lt, IsPermutation-get_elem?, range-IsPermutation,
  append-IsPermutation, IsPermutation-of_counts, get_elem?-count,
}
use mathlib.Core.Bool.{false≢true}
use mathlib.Core.Option.{some-injective}

pub data Call : Type 0 where
  replaces : Draws → Slice Track → Call
  adds : Draws → List Track → Call
  activates : Call
  goes_next : Draws → Call
  peeks_next : Draws → Call
  goes_prev : Call
  sets_index : ℤ → Call
  queues : ℤ → Call
  dequeues : ℤ → Call
  clears_queue : Call
  takes_snapshot : Call
  restores : ℕ → Call
  removes_queue_at : ℤ → Call
  moves_queue : ℤ → ℤ → Call
  moves : ℤ → ℤ → Call
  removes : ℤ → Call
  sets_track : ℤ → Track → Call
  toggles_bookmark : ℤ → Call
  enables_smart : Call
  disables_smart : Call
  adds_smart : Draws → List Track → Call
  toggles_shuffle : Draws → Call
  cycles_repeat : Call
  sets_repeat : RepeatMode → Call

-- The playlist after a call that also returns a value.
abbrev state_of {ℓ} : {A : Type ℓ} → Outcome (Playlist × A) → Outcome Playlist
state_of (ok r) = ok r.0
state_of panic = panic

-- `Restore` takes what `Snapshot` returned: the i-th snapshot, if there is one.
restore_nth : List Snapshot → ℕ → Playlist → Playlist
restore_nth shots i p = elim (get_elem? shots i) [ none ↦ p | some s ↦ restore s p ]

pub step : Call → List Snapshot → Playlist → Outcome Playlist
step (replaces d tracks) shots p = replace d tracks p
step (adds d ts) shots p = add d ts p
step activates shots p = state_of (activate_selected p)
step (goes_next d) shots p = state_of (next d p)
step (peeks_next d) shots p = state_of (peek_next d p)
step goes_prev shots p = state_of (prev p)
step (sets_index i) shots p = ok (set_index p i)
step (queues i) shots p = ok (queue_track p i)
step (dequeues i) shots p = ok (dequeue p i).0
step clears_queue shots p = ok (clear_queue p)
step takes_snapshot shots p = ok p
step (restores i) shots p = ok (restore_nth shots i p)
step (removes_queue_at i) shots p = ok (remove_queue_at p i)
step (moves_queue from to) shots p = ok (move_queue p from to).0
step (moves from to) shots p = state_of (move p from to)
step (removes i) shots p = ok (remove p i).0
step (sets_track i t) shots p = ok (set_track p i t)
step (toggles_bookmark i) shots p = ok (toggle_bookmark p i)
step enables_smart shots p = ok (enable_smart p)
step disables_smart shots p = state_of (disable_smart p)
step (adds_smart d ts) shots p = add_smart d ts p
step (toggles_shuffle d) shots p = toggle_shuffle d p
step cycles_repeat shots p = ok (cycle_repeat p)
step (sets_repeat m) shots p = ok (set_repeat p m)

-- The snapshots after a call.
keep_snapshot : Call → List Snapshot → Playlist → List Snapshot
keep_snapshot takes_snapshot shots p = shots ++ snapshot_of p ∷ []
keep_snapshot _ shots p = shots

-- The calls in order; a panic ends the history.
pub run : List Call → List Snapshot → Playlist → Outcome Playlist
run [] shots p = ok p
run (c ∷ calls) shots p = do q ← step c shots p; run calls (keep_snapshot c shots p) q
