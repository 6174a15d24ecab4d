-- ===== src/Tests/Playlists.antt =====
-- Small playlists of playlist/playlist.go.
use cliamp.Base.{
  ◌++◌, map, ℕ, ◌≤◌, ◌<◌, ◌≡◌, refl, inl, Bool, true, false, Option, none, some, List, [], ◌∷◌,
  arith, All, subst, get_elem?, length,
}
use cliamp.Base.Slices.{made}
use cliamp.Base.Int.{pos}
use cliamp.Base.Outcomes.{ok}
use cliamp.Base.Permutations.{IsPermutation, range-IsPermutation}
use cliamp.Playlist.Track.{Track}
use cliamp.Playlist.State.{Playlist, repeat_off, repeat_all, new, rebuild_queue_positions}
use cliamp.Playlist.Shuffle.{Draws, do_shuffle, shuffle_tail}
use cliamp.Playlist.Slots.{
  is_playable, at_shuffle_wrap, next_playable_queued, is_some, first_playable_order_slot,
}
use cliamp.Playlist.Navigation.{next, has_next, peek_next, clear_spent_queue, advance_from_order}
use cliamp.Playlist.Views.{current}
use cliamp.Playlist.Slots.{current_track_index}
use cliamp.Playlist.Editing.{move, toggle_shuffle}
use cliamp.Playlist.Continuity.{move-current, toggle_shuffle-current}
use cliamp.Playlist.Smart.{add_smart, mark_smart}
use cliamp.Playlist.Revisions.{add_smart-revision}
use cliamp.Playlist.Session.{
  step, run, adds, queues, toggles_shuffle, goes_next, removes, restores, takes_snapshot,
}
use cliamp.Playlist.Session.Safety.{step-IsWellFormed, run-new-IsWellFormed}
use cliamp.Playlist.Invariant.{IsWellFormed, Returns, IsCoherent}
use cliamp.Playlist.Invariant.Positions.{rebuild-IsCoherent}
use cliamp.Playlist.Navigation.Peeks.{has_next-next, peek_next-unchanged}
use cliamp.Playlist.Navigation.Plays.{next-PlaysQueued, next-PlaysSlot, PlaysQueued, PlaysSlot}
use cliamp.Playlist.Navigation.Announces.{peek_next-next, peek_next_stale}
use cliamp.Playlist.Navigation.Advance.{advance_from_order-Advance, Advance}
use cliamp.Playlist.Shuffle.Laws.{do_shuffle-IsPermutation, shuffle_tail-IsPermutation}
use cliamp.Playlist.Slots.Laws.{
  IsFirstQueued, IsFirstPlayable, first_playable_order_slot_lem, FirstPlayable,
}
use Prim.Native.String.{String}

-- `rand.Intn` that always draws 0.
abbrev lowest : Draws
lowest = record { pick = λ i. 0; pick_le = λ i. omega arith }

abbrev track : String → Bool → Track
track path unplayable = record {
  info = record {
    path = path;
    title = path;
    artist = "";
    album = "";
    genre = "";
    year = pos 0;
    track_number = pos 0;
    stream = false;
    realtime = false;
    feed = false;
    duration_secs = pos 60;
    bookmark = false;
    smart = false;
    restricted = false;
    unplayable = unplayable;
    dir_sourced = false;
    embedded_lyrics = "";
    album_art_url = "";
    provider_meta = none;
  };
  playback_context = [];
  playback_context_index = 0;
}

abbrev three_tracks : List Track
three_tracks = track "a" false ∷ track "b" true ∷ track "c" false ∷ []

-- Three tracks, the second unplayable, the first one playing, with the given queue.
abbrev three : List ℕ → Playlist
three queue = record {
  revision = 7;
  tracks = made three_tracks;
  order = made (0 ∷ 1 ∷ 2 ∷ []);
  pos = 0;
  shuffle = false;
  smart = false;
  repeat = repeat_off;
  queue = made queue;
  queue_positions = rebuild_queue_positions queue;
  queued_idx = none;
}

-- The last slot of a shuffled round under repeat-all, with an unplayable track in the queue.
abbrev round_end : Playlist
round_end = record (three (1 ∷ [])) { shuffle = true; repeat = repeat_all; pos = 2 }

identity_three : IsPermutation (0 ∷ 1 ∷ 2 ∷ []) 3
identity_three = range-IsPermutation 3

three-IsWellFormed : (queue : List ℕ) → All (λ i. i < 3) queue → IsWellFormed (three queue)
three-IsWellFormed queue b = record {
  sound = record {
    permutation = identity_three;
    pos_le = omega arith;
    straight = λ e. refl;
    queue_below = b;
    queued_below = tt;
  };
  coherent = rebuild-IsCoherent queue;
}

round_end-IsWellFormed : IsWellFormed round_end
round_end-IsWellFormed = record {
  sound = record {
    permutation = identity_three;
    pos_le = omega arith;
    straight = λ e. cc;
    queue_below = (omega arith, tt);
    queued_below = tt;
  };
  coherent = rebuild-IsCoherent (1 ∷ []);
}

run-new-IsWellFormed_example : Returns IsWellFormed (
    run
      (adds lowest three_tracks
        ∷ queues (pos 2)
        ∷ takes_snapshot
        ∷ toggles_shuffle lowest
        ∷ goes_next lowest
        ∷ removes (pos 0)
        ∷ restores 0
        ∷ goes_next lowest
        ∷ [])
      []
      new)
run-new-IsWellFormed_example = run-new-IsWellFormed (
    adds lowest three_tracks
    ∷ queues (pos 2)
    ∷ takes_snapshot
    ∷ toggles_shuffle lowest
    ∷ goes_next lowest
    ∷ removes (pos 0)
    ∷ restores 0
    ∷ goes_next lowest
    ∷ [])

step-IsWellFormed_example : Returns IsWellFormed (step (removes (pos 1)) [] (three (2 ∷ 1 ∷ [])))
step-IsWellFormed_example =
    step-IsWellFormed (removes (pos 1)) [] (three (2 ∷ 1 ∷ [])) tt
      (three-IsWellFormed (2 ∷ 1 ∷ []) (omega arith, (omega arith, tt)))

has_next-next_example :
    (q : Playlist) × (o : Option Track) × (next lowest (three []) ≡ ok (q, o))
    × (has_next (three []) ≡ ok (is_some o))
has_next-next_example = has_next-next lowest (three []) (three-IsWellFormed [] tt)

peek_next-unchanged_example :
    (o : Option Track) × (peek_next lowest (three (1 ∷ 2 ∷ [])) ≡ ok (three (1 ∷ 2 ∷ []), o))
peek_next-unchanged_example =
    peek_next-unchanged lowest (three (1 ∷ 2 ∷ []))
      (three-IsWellFormed (1 ∷ 2 ∷ []) (omega arith, (omega arith, tt)))

second_queued : IsFirstQueued three_tracks (1 ∷ 2 ∷ 0 ∷ []) (2, 0 ∷ [])
unfolding is_playable
second_queued = record { skipped = 1 ∷ []; splits = refl; playable = refl; unplayable = (refl, tt) }

next-PlaysQueued_example :
    (q : Playlist) × (t : Track) × (next lowest (three (1 ∷ 2 ∷ 0 ∷ [])) ≡ ok (q, some t))
    × PlaysQueued (three (1 ∷ 2 ∷ 0 ∷ [])) q (2, 0 ∷ []) t
next-PlaysQueued_example =
    next-PlaysQueued lowest (three (1 ∷ 2 ∷ 0 ∷ [])) (2, 0 ∷ []) second_queued

third_slot : IsFirstPlayable three_tracks (0 ∷ 1 ∷ 2 ∷ []) 1 (2, 2)
unfolding is_playable
third_slot = record { from_le = omega arith; holds = refl; playable = refl; first = only_second }
  where
    only_second :
        (j a : ℕ)
        → 1 ≤ j
        → j < 2
        → get_elem? (0 ∷ 1 ∷ 2 ∷ []) j ≡ some a
        → is_playable three_tracks a ≡ false
    only_second j a l h e =
        let one : j ≡ 1 = omega arith in
        let f : get_elem? (0 ∷ 1 ∷ 2 ∷ []) 1 ≡ some a =
          subst (λ k. get_elem? (0 ∷ 1 ∷ 2 ∷ []) k ≡ some a) one e in
        let second : 1 ≡ a = cc f in subst (λ k. is_playable three_tracks k ≡ false) second refl

unplayable_second : is_playable three_tracks 1 ≡ false
unfolding is_playable
unplayable_second = refl

next-PlaysSlot_example :
    (q : Playlist) × (t : Track) × (next lowest (three (1 ∷ [])) ≡ ok (q, some t))
    × PlaysSlot (three (1 ∷ [])) q (2, 2) t
next-PlaysSlot_example =
    next-PlaysSlot lowest (three (1 ∷ [])) (2, 2) (unplayable_second, tt) refl third_slot

peeked : peek_next lowest (three []) ≡ ok (three [], some (track "c" false))
unfolding peek_next next_playable_queued at_shuffle_wrap cliamp.Playlist.Navigation.peek_in_order
    advance_from_order first_playable_order_slot
peeked = refl

peek_next-next_example : (q : Playlist) × (next lowest (three []) ≡ ok (q, some (track "c" false)))
peek_next-next_example =
    peek_next-next lowest lowest (three []) (track "c" false) (three-IsWellFormed [] tt) (inl refl)
      peeked

wraps : at_shuffle_wrap (clear_spent_queue round_end) ≡ true
unfolding at_shuffle_wrap clear_spent_queue
wraps = refl

first_plays : is_playable three_tracks 0 ≡ true
unfolding is_playable
first_plays = refl

peek_next_stale_example :
    (t : Track) × (peek_next lowest round_end ≡ ok (round_end, some t))
    × (peek_next lowest (clear_spent_queue round_end) ≡ ok (clear_spent_queue round_end, none))
peek_next_stale_example =
    peek_next_stale lowest round_end 0 round_end-IsWellFormed (unplayable_second, tt) refl wraps
      first_plays

advance_from_order-Advance_example :
    (q : Playlist) × (r : Option (ℕ × ℕ)) × (advance_from_order lowest round_end ≡ ok (q, r))
    × Advance round_end q r
advance_from_order-Advance_example =
    advance_from_order-Advance lowest round_end round_end-IsWellFormed (omega arith)

do_shuffle-IsPermutation_example :
    (q : Playlist) × (do_shuffle lowest round_end ≡ ok q)
    × (q ≡ record round_end { order = q.order; pos = 0 })
    × (get_elem? q.order.items q.pos ≡ some 2)
    × IsPermutation q.order.items (length q.tracks.items)
do_shuffle-IsPermutation_example = do_shuffle-IsPermutation lowest round_end 2 refl (omega arith)

shuffle_tail-IsPermutation_example : IsPermutation (shuffle_tail lowest 1 (0 ∷ 1 ∷ 2 ∷ [])) 3
shuffle_tail-IsPermutation_example =
    shuffle_tail-IsPermutation lowest 1 3 (0 ∷ 1 ∷ 2 ∷ []) identity_three

first_playable_order_slot_example :
    FirstPlayable three_tracks (0 ∷ 1 ∷ 2 ∷ []) 1 3 (first_playable_order_slot (three []) 1 3)
first_playable_order_slot_example = first_playable_order_slot_lem (three []) 1 3

rebuild-IsCoherent_example : IsCoherent (rebuild_queue_positions (2 ∷ 0 ∷ 2 ∷ [])) (2 ∷ 0 ∷ 2 ∷ [])
rebuild-IsCoherent_example = rebuild-IsCoherent (2 ∷ 0 ∷ 2 ∷ [])

now_playing : current (three (2 ∷ [])) ≡ ok (some (track "a" false, 0))
unfolding current current_track_index cliamp.Playlist.Slots.current_order_track_index
now_playing = refl

move-current_example :
    (r : Playlist × Bool) × (l : ℕ) × (move (three (2 ∷ [])) (pos 0) (pos 2) ≡ ok r)
    × (current r.0 ≡ ok (some (track "a" false, l)))
move-current_example =
    move-current (three (2 ∷ [])) (pos 0) (pos 2) (track "a" false) 0
      (three-IsWellFormed (2 ∷ []) (omega arith, tt)) now_playing

toggle_shuffle-current_example :
    (q : Playlist) × (toggle_shuffle lowest (three (2 ∷ [])) ≡ ok q)
    × (q.shuffle ≡ true)
    × (current q ≡ ok (some (track "a" false, 0)))
toggle_shuffle-current_example =
    toggle_shuffle-current lowest (three (2 ∷ [])) (track "a" false) 0
      (three-IsWellFormed (2 ∷ []) (omega arith, tt)) now_playing

add_smart-revision_example :
    (q : Playlist) × (add_smart lowest (track "d" false ∷ []) round_end ≡ ok q)
    × (q.tracks.items ≡ three_tracks ++ map mark_smart (track "d" false ∷ []))
    × (q.revision ≡ 7)
add_smart-revision_example =
    add_smart-revision lowest (track "d" false ∷ []) round_end round_end-IsWellFormed refl refl
