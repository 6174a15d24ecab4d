-- ===== src/Playlist/Session/Safety.antt =====
-- No history of calls panics or leaves the playlist ill-formed.
use cliamp.Base.{
  ℕ, inl, inr, List, [], ◌∷◌, Option-cases, get_elem?, All, All-append, All-get_elem?,
}
use cliamp.Base.Outcomes.{Outcome, ok, panic}
use cliamp.Playlist.State.{Playlist, Snapshot, new, snapshot_of}
use cliamp.Playlist.Shuffle.{Draws}
use cliamp.Playlist.Navigation.{peek_next}
use cliamp.Playlist.Smart.{enable_smart}
use cliamp.Playlist.Invariant.{IsSoundSnapshot, IsWellFormed, Returns, Returns-bind}
use cliamp.Playlist.Navigation.Safety.{Keeps, next-Keeps}
use cliamp.Playlist.Navigation.Selection.{
  prev-Keeps, set_index-IsWellFormed, activate_selected-Keeps,
}
use cliamp.Playlist.Invariant.Edits.{
  move-Keeps, set_track-IsWellFormed, toggle_bookmark-IsWellFormed, cycle_repeat-IsWellFormed,
  set_repeat-IsWellFormed, toggle_shuffle-IsWellFormed,
}
use cliamp.Playlist.Invariant.Removal.{remove-IsWellFormed, disable_smart-Keeps}
use cliamp.Playlist.Invariant.Loads.{
  new-IsWellFormed, replace-IsWellFormed, add-IsWellFormed, add_smart-IsWellFormed,
  restore-IsWellFormed, snapshot_of-IsSound,
}
use cliamp.Playlist.Session.{
  Call, replaces, adds, activates, goes_next, peeks_next, goes_prev, sets_index, queues, dequeues,
  clears_queue, takes_snapshot, restores, removes_queue_at, moves_queue, moves, removes, sets_track,
  toggles_bookmark, enables_smart, disables_smart, adds_smart, toggles_shuffle, cycles_repeat,
  sets_repeat, state_of, restore_nth, step, keep_snapshot, run,
}
use cliamp.Playlist.Invariant.Queue.{
  dequeue-IsWellFormed, remove_queue_at-IsWellFormed, move_queue-IsWellFormed,
  clear_queue-IsWellFormed, queue_track-IsWellFormed,
}
use cliamp.Playlist.Navigation.Peeks.{peek_next-unchanged}

peek_next-Keeps : (d : Draws) (p : Playlist) → IsWellFormed p → Returns Keeps (peek_next d p)
peek_next-Keeps d p w = let (o, e) = peek_next-unchanged d p w in rw e w

state_of-Returns {ℓ} :
    {A : Type ℓ} (m : Outcome (Playlist × A)) → Returns Keeps m → Returns IsWellFormed (state_of m)
state_of-Returns (ok r) h = h
state_of-Returns panic h = h

restore_nth-IsWellFormed :
    (shots : List Snapshot) (i : ℕ) (p : Playlist)
    → All IsSoundSnapshot shots
    → IsWellFormed p
    → IsWellFormed (restore_nth shots i p)
unfolding restore_nth
restore_nth-IsWellFormed shots i p a w = elim (Option-cases (get_elem? shots i)) [
  | inl e ↦ rw (e, restore_nth) w
  | inr (s, e) ↦
      rw (e, restore_nth) (restore-IsWellFormed s p (All-get_elem? IsSoundSnapshot shots i a e))
]

-- Any call on a well-formed playlist, restoring sound snapshots only, returns without a panic, and
-- leaves the playlist well-formed.
pub step-IsWellFormed :
    (c : Call) (shots : List Snapshot) (p : Playlist)
    → All IsSoundSnapshot shots
    → IsWellFormed p
    → Returns IsWellFormed (step c shots p)
unfolding step enable_smart
step-IsWellFormed (replaces d tracks) shots p a w = replace-IsWellFormed d tracks p
step-IsWellFormed (adds d ts) shots p a w = add-IsWellFormed d ts p w
step-IsWellFormed activates shots p a w = state_of-Returns _ (activate_selected-Keeps p w)
step-IsWellFormed (goes_next d) shots p a w = state_of-Returns _ (next-Keeps d p w)
step-IsWellFormed (peeks_next d) shots p a w = state_of-Returns _ (peek_next-Keeps d p w)
step-IsWellFormed goes_prev shots p a w = state_of-Returns _ (prev-Keeps p w)
step-IsWellFormed (sets_index i) shots p a w = set_index-IsWellFormed p i w
step-IsWellFormed (queues i) shots p a w = queue_track-IsWellFormed p i w
step-IsWellFormed (dequeues i) shots p a w = dequeue-IsWellFormed p i w
step-IsWellFormed clears_queue shots p a w = clear_queue-IsWellFormed p w
step-IsWellFormed takes_snapshot shots p a w = w
step-IsWellFormed (restores i) shots p a w = restore_nth-IsWellFormed shots i p a w
step-IsWellFormed (removes_queue_at i) shots p a w = remove_queue_at-IsWellFormed p i w
step-IsWellFormed (moves_queue from to) shots p a w = move_queue-IsWellFormed p from to w
step-IsWellFormed (moves from to) shots p a w = state_of-Returns _ (move-Keeps p from to w)
step-IsWellFormed (removes i) shots p a w = remove-IsWellFormed p i w
step-IsWellFormed (sets_track i t) shots p a w = set_track-IsWellFormed p i t w
step-IsWellFormed (toggles_bookmark i) shots p a w = toggle_bookmark-IsWellFormed p i w
step-IsWellFormed enables_smart shots p a w = record { sound = w.sound; coherent = w.coherent }
step-IsWellFormed disables_smart shots p a w = state_of-Returns _ (disable_smart-Keeps p w)
step-IsWellFormed (adds_smart d ts) shots p a w = add_smart-IsWellFormed d ts p w
step-IsWellFormed (toggles_shuffle d) shots p a w = toggle_shuffle-IsWellFormed d p w
step-IsWellFormed cycles_repeat shots p a w = cycle_repeat-IsWellFormed p w
step-IsWellFormed (sets_repeat m) shots p a w = set_repeat-IsWellFormed p m w

keep_snapshot-IsSound :
    (c : Call) (shots : List Snapshot) (p : Playlist)
    → All IsSoundSnapshot shots
    → IsWellFormed p
    → All IsSoundSnapshot (keep_snapshot c shots p)
unfolding keep_snapshot
keep_snapshot-IsSound takes_snapshot shots p a w =
    All-append IsSoundSnapshot shots (snapshot_of p ∷ []) a (snapshot_of-IsSound p w, tt)
keep_snapshot-IsSound _ shots p a w = a

run-IsWellFormed :
    (calls : List Call) (shots : List Snapshot) (p : Playlist)
    → All IsSoundSnapshot shots
    → IsWellFormed p
    → Returns IsWellFormed (run calls shots p)
unfolding run
run-IsWellFormed [] shots p a w = w
run-IsWellFormed (c ∷ calls) shots p a w =
    Returns-bind IsWellFormed IsWellFormed (step c shots p) _ (step-IsWellFormed c shots p a w)
      (λ q v.
        run-IsWellFormed calls (keep_snapshot c shots p) q (keep_snapshot-IsSound c shots p a w) v)

-- A new playlist: whatever calls are made on it, none panics, and it is well-formed after them.
pub run-new-IsWellFormed : (calls : List Call) → Returns IsWellFormed (run calls [] new)
run-new-IsWellFormed calls = run-IsWellFormed calls [] new tt new-IsWellFormed
