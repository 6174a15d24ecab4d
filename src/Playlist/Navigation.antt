-- ===== src/Playlist/Navigation.antt =====
-- playlist/playlist.go: `Next`, `HasNext`, `PeekNext`, `Prev`, `SetIndex`, `ActivateSelected` and
-- `PeekSelected`. A call that the code answers with `Track{}, false` has the result `none`.
pub mod Advance
pub mod Selection
pub mod Safety
pub mod Finds
pub mod Peeks
pub mod Plays
pub mod Announces
use cliamp.Base.{
  ℕ, zero, suc, ◌+◌, ◌-◌, ◌%◌, ◌^◌, ◌≤◌, ◌<◌, min, max, ◌≡◌, refl, sym, ap, subst, ◌∙◌, ◌≢◌, ◌↔◌,
  ◌⊎◌, inl, inr, Bool, true, false, not, ◌&&◌, ◌||◌, Option, none, some, List, [], ◌∷◌, ◌++◌, map,
  arith, ltb, leb, ◌==◌, if◌then◌else◌, Bool-cases, Option-cases, length, get_elem?, set, take,
  drop, delete, range, range_from, All, length-append, length-set, length-take, length-drop,
  length-delete, length-map, length-range_from, get_elem?-some, get_elem?-lt, get_elem?-ge,
  get_elem?-set, get_elem?-range_from, take-append-drop, All-append, All-get_elem?,
}
use cliamp.Base.Slices.{Slice, nil_slice, made, with_items, is_empty, append_items}
use cliamp.Base.Outcomes.{Outcome, ok, panic, ◌>>=◌, of_option, index, index-ok, >>=-eq-ok}
use cliamp.Base.Int.{ℤ, pos, negsuc, index_in, to_ℕ, index_in-lt}
use cliamp.Base.Counts.{count, count-append, count-set, count-range_from, count-pos}
use cliamp.Playlist.Track.{Track, equal_track, equal_track_iff}
use cliamp.Playlist.State.{
  Playlist, RepeatMode, repeat_off, repeat_all, repeat_one, is_repeat_all, is_repeat_one, Snapshot,
  new, bump, bump_if, insert_new, rebuild_from, rebuild_queue_positions, lookup_in, has_key,
  lookup_position, snapshot_of, equal_tracks, equal_indices, equal_index_lists, equal_track_lists,
  equal_repeat, equal_queued, equal_bool, matches,
}
use cliamp.Playlist.Shuffle.{
  Draws, swap, shuffle_down, fisher_yates, others_from, do_shuffle, shuffle_tail, mix_in,
  append_tracks,
}
use cliamp.Playlist.Slots.{
  is_playable, first_slot, first_playable_order_slot, last_slot, last_playable_order_slot,
  playable_queued, next_playable_queued, current_order_track_index, current_track_index, is_some,
  at_shuffle_wrap, resolve_selected_playable_pos,
}

-- `nextShuffleWrap`: a new shuffle, undone if it shows no playable track.
pub next_shuffle_wrap : Draws → Playlist → Outcome (Playlist × Option (ℕ × ℕ))
next_shuffle_wrap d p = do
  q ← do_shuffle d p
  ok (elim (first_playable_order_slot q 1 (length q.order.items)) [
    | some s ↦ (q, some s)
    | none ↦ elim (first_playable_order_slot q 0 1) [
      | some s ↦ (q, some s)
      | none ↦ (record q { order = p.order; pos = p.pos }, none)
    ]
  ])

-- `advanceFromOrder`: the next playable slot, and the playlist, which a wrap may have shuffled.
unfoldable pub advance_from_order : Draws → Playlist → Outcome (Playlist × Option (ℕ × ℕ))
advance_from_order d p = elim (first_playable_order_slot p (p.pos + 1) (length p.order.items)) [
  | some s ↦ ok (p, some s)
  | none ↦
      if not (is_repeat_all p.repeat)
      then ok (p, none)
      else if p.shuffle && at_shuffle_wrap p
      then next_shuffle_wrap d p
      else ok (p, first_playable_order_slot p 0 (length p.order.items))
]

-- `Next` where the queue holds a playable track.
pub next_from_queue : Playlist → ℕ → List ℕ → Outcome (Playlist × Option Track)
next_from_queue p idx remaining = do
  t ← index p.tracks.items idx
  ok (
    bump (record p {
      queue = with_items p.queue remaining;
      queue_positions = rebuild_queue_positions remaining;
      queued_idx = some idx;
    }),
    some t,
  )

-- A queue with entries, none of them playable, is cleared.
unfoldable pub clear_spent_queue : Playlist → Playlist
clear_spent_queue p =
    if is_empty p.queue.items then p else record p { queue = nil_slice; queue_positions = none }

-- `Next` under repeat-one, with the queue cleared if `cleared`.
pub next_repeat_one : Playlist → Bool → Outcome (Playlist × Option Track)
next_repeat_one p cleared = do
  current ← current_order_track_index p
  elim current [
    | none ↦ ok (bump_if cleared p, none)
    | some idx ↦
        if is_playable p.tracks.items idx
        then (do
          t ← index p.tracks.items idx
          ok (bump_if (cleared || is_some p.queued_idx) (record p { queued_idx = none }), some t))
        else ok (bump_if cleared p, none)
  ]

-- `Next` in play order, with the queue cleared if `cleared`.
pub next_in_order : Draws → Playlist → Bool → Outcome (Playlist × Option Track)
next_in_order d p cleared = do
  advanced ← advance_from_order d p
  elim advanced.1 [
    | none ↦
        ok (bump_if cleared (record advanced.0 { pos = p.pos; queued_idx = p.queued_idx }), none)
    | some s ↦ do
      t ← index advanced.0.tracks.items s.1
      ok (
        bump_if
            (cleared
              || is_some p.queued_idx
              || not (p.pos == s.0)
              || (at_shuffle_wrap p
                  && not (equal_index_lists advanced.0.order.items p.order.items)))
            (record advanced.0 { queued_idx = none; pos = s.0 }),
        some t,
      )
  ]

-- `Next` where the queue holds no playable track.
pub next_without_queue : Draws → Playlist → Outcome (Playlist × Option Track)
next_without_queue d p =
    let q = clear_spent_queue p in
    let cleared = not (is_empty p.queue.items) in
    if is_repeat_one p.repeat then next_repeat_one q cleared else next_in_order d q cleared

-- `Next`.
pub next : Draws → Playlist → Outcome (Playlist × Option Track)
next d p = if is_empty p.tracks.items then ok (p, none) else elim (next_playable_queued p) [
  | some (idx, remaining) ↦ next_from_queue p idx remaining
  | none ↦ next_without_queue d p
]

-- `HasNext`.
pub has_next : Playlist → Outcome Bool
has_next p =
    if is_empty p.tracks.items
    then ok false
    else if is_some (next_playable_queued p)
    then ok true
    else if is_repeat_one p.repeat
    then (do
      current ← current_order_track_index p
      ok (elim current [ none ↦ false | some idx ↦ is_playable p.tracks.items idx ]))
    else if is_some (first_playable_order_slot p (p.pos + 1) (length p.order.items))
    then ok true
    else if not (is_repeat_all p.repeat)
    then ok false
    else ok (is_some (first_playable_order_slot p 0 (length p.order.items)))

-- `PeekNext` in play order.
unfoldable pub peek_in_order : Draws → Playlist → Outcome (Playlist × Option Track)
peek_in_order d p = do
  advanced ← advance_from_order d p
  elim advanced.1 [
    | none ↦ ok (advanced.0, none)
    | some s ↦ do t ← index advanced.0.tracks.items s.1; ok (advanced.0, some t)
  ]

-- `PeekNext`. It goes through `advanceFromOrder`, so it takes draws and returns the playlist.
unfoldable pub peek_next : Draws → Playlist → Outcome (Playlist × Option Track)
peek_next d p = if is_empty p.tracks.items then ok (p, none) else elim (next_playable_queued p) [
  | some s ↦ do t ← index p.tracks.items s.0; ok (p, some t)
  | none ↦
      if is_repeat_one p.repeat
      then (do
        current ← current_order_track_index p
        elim current [
          | none ↦ ok (p, none)
          | some idx ↦
              if is_playable p.tracks.items idx
              then (do t ← index p.tracks.items idx; ok (p, some t))
              else ok (p, none)
        ])
      else if at_shuffle_wrap p
      then ok (p, none)
      else peek_in_order d p
]

-- `Prev` where a slot was found.
pub prev_to : Playlist → ℕ × ℕ → Outcome (Playlist × (Option Track × Bool))
prev_to p s = do
  t ← index p.tracks.items s.1
  ok (
    bump_if (not (s.0 == p.pos) || is_some p.queued_idx)
        (record p { queued_idx = none; pos = s.0 }),
    (some t, true),
  )

-- The end of `Prev`, where no other track is playable: the current one with `false`.
pub prev_fallback : Playlist → Option ℕ → Outcome (Playlist × (Option Track × Bool))
prev_fallback p (some i) = do t ← index p.tracks.items i; ok (p, (some t, false))
prev_fallback p none = do
  i ← index p.order.items p.pos
  t ← index p.tracks.items i
  ok (p, (some t, false))

-- `Prev` where no slot before the current one is playable.
pub prev_wrapped : Playlist → Outcome (Playlist × (Option Track × Bool))
prev_wrapped p =
    elim (if is_repeat_all p.repeat
      then last_playable_order_slot p (length p.order.items)
      else none) [ some s ↦ prev_to p s | none ↦ prev_fallback p p.queued_idx ]

-- `Prev`.
pub prev : Playlist → Outcome (Playlist × (Option Track × Bool))
prev p =
    if is_empty p.tracks.items
    then ok (p, (none, false))
    else elim (last_playable_order_slot p p.pos) [ some s ↦ prev_to p s | none ↦ prev_wrapped p ]

-- The first slot from `i` on that holds track `idx`.
pub find_index : ℕ → List ℕ → ℕ → Option ℕ
find_index idx [] i = none
find_index idx (x ∷ xs) i = if x == idx then some i else find_index idx xs (i + 1)

-- The loop of `SetIndex`; a negative index is in no slot.
pub slot_of : ℤ → List ℕ → Option ℕ
unfolding find_index
slot_of (pos idx) order = find_index idx order 0
slot_of (negsuc n) order = none

-- `SetIndex`.
pub set_index : Playlist → ℤ → Playlist
unfolding slot_of
set_index p i =
    let slot : ℕ = elim (slot_of i p.order.items) [ none ↦ p.pos | some s ↦ s ] in
    bump_if (not (slot == p.pos) || is_some p.queued_idx)
      (record p { queued_idx = none; pos = slot })

pub record Activation : Type 0 where
  pub track : Track
  pub index : ℕ
  pub skipped : Bool

-- `ActivateSelected`.
pub activate_selected : Playlist → Outcome (Playlist × Option Activation)
activate_selected p = do
  resolved ← resolve_selected_playable_pos p
  elim resolved [
    | none ↦ ok (p, none)
    | some s ↦ do
      t ← index p.tracks.items s.1
      ok (
        bump_if (not (s.0 == p.pos) || is_some p.queued_idx)
            (record p { queued_idx = none; pos = s.0 }),
        some (record { track = t; index = s.1; skipped = not (s.0 == p.pos) }),
      )
  ]

-- `PeekSelected`.
unfoldable pub peek_selected : Playlist → Outcome (Option Track)
peek_selected p = do
  resolved ← resolve_selected_playable_pos p
  elim resolved [ none ↦ ok none | some s ↦ do t ← index p.tracks.items s.1; ok (some t) ]
