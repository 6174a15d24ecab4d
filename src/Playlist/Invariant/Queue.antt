-- ===== src/Playlist/Invariant/Queue.antt =====
-- The operations on the play-next queue keep a playlist well-formed.
use cliamp.Base.{
  ℕ, zero, suc, ◌+◌, ◌<◌, inl, inr, not, ◌&&◌, Option, none, some, List, [], ◌∷◌, ◌++◌, ◌==◌,
  Bool-cases, Option-cases, length, get_elem?, set, delete, All-append, All-get_elem?,
}
use cliamp.Base.Slices.{Slice, nil_slice, is_empty}
use cliamp.Base.Int.{ℤ, pos, negsuc, index_in, index_in-lt}
use cliamp.Playlist.State.{Playlist, insert_new}
use cliamp.Playlist.Shuffle.{swap}
use cliamp.Playlist.Slots.{is_some}
use cliamp.Playlist.Queueing.{
  delete_queue_at, find_queued, swap_queue, queue_track, dequeue, remove_queue_at, move_queue,
  clear_queue,
}
use cliamp.Playlist.Invariant.{AllBelow, IsCoherent, IsWellFormed}
use cliamp.Playlist.Invariant.Positions.{
  rebuild-IsCoherent, nil-IsCoherent, append-IsCoherent, append-IsCoherent_nil,
}

-- A queue and position map put in place of the old ones, with any revision.
pub with_queue-IsWellFormed :
    (p : Playlist) (r : ℕ) (q : Slice ℕ) (m : Option (List (ℕ × ℕ)))
    → IsWellFormed p
    → AllBelow (length p.tracks.items) q.items
    → IsCoherent m q.items
    → IsWellFormed (record p { revision = r; queue = q; queue_positions = m })
with_queue-IsWellFormed p r q m w b c = record {
  sound = record {
    permutation = w.sound.permutation;
    pos_le = w.sound.pos_le;
    straight = w.sound.straight;
    queue_below = b;
    queued_below = w.sound.queued_below;
  };
  coherent = c;
}

AllBelow-delete : (n : ℕ) (xs : List ℕ) (i : ℕ) → AllBelow n xs → AllBelow n (delete xs i)
AllBelow-delete n [] i h = tt
AllBelow-delete n (x ∷ xs) zero h = h.1
AllBelow-delete n (x ∷ xs) (suc i) h = (h.0, AllBelow-delete n xs i h.1)

AllBelow-set : (n : ℕ) (xs : List ℕ) (i v : ℕ) → v < n → AllBelow n xs → AllBelow n (set xs i v)
AllBelow-set n [] i v h a = tt
AllBelow-set n (x ∷ xs) zero v h a = (h, a.1)
AllBelow-set n (x ∷ xs) (suc i) v h a = (a.0, AllBelow-set n xs i v h a.1)

AllBelow-swap : (n : ℕ) (xs : List ℕ) (i j : ℕ) → AllBelow n xs → AllBelow n (swap xs i j)
unfolding swap
AllBelow-swap n xs i j h = elim (Option-cases (get_elem? xs i)) [
  | inl e ↦ rw (e, swap) h
  | inr (a, e) ↦ elim (Option-cases (get_elem? xs j)) [
    | inl f ↦ rw (e, swap) (rw (f, swap) h)
    | inr (b, f) ↦
        rw (e, swap)
          (rw (f, swap)
            (AllBelow-set n _ j a (All-get_elem? _ xs i h e)
              (AllBelow-set n xs i b (All-get_elem? _ xs j h f) h)))
  ]
]

delete_queue_at-IsWellFormed :
    (p : Playlist) (i : ℕ) → IsWellFormed p → IsWellFormed (delete_queue_at p i)
unfolding delete_queue_at
delete_queue_at-IsWellFormed p i w =
    with_queue-IsWellFormed p _ _ _ w
      (AllBelow-delete (length p.tracks.items) p.queue.items i w.sound.queue_below)
      (rebuild-IsCoherent (delete p.queue.items i))

pub dequeue-IsWellFormed : (p : Playlist) (i : ℤ) → IsWellFormed p → IsWellFormed (dequeue p i).0
unfolding dequeue
dequeue-IsWellFormed p (negsuc n) w = w
dequeue-IsWellFormed p (pos idx) w = elim (Option-cases (find_queued idx p.queue.items 0)) [
  | inl e ↦ rw (e, dequeue) w
  | inr (i, e) ↦ rw (e, dequeue) (delete_queue_at-IsWellFormed p i w)
]

pub remove_queue_at-IsWellFormed :
    (p : Playlist) (i : ℤ) → IsWellFormed p → IsWellFormed (remove_queue_at p i)
unfolding remove_queue_at
remove_queue_at-IsWellFormed p i w = elim (Option-cases (index_in i (length p.queue.items))) [
  | inl e ↦ rw (e, remove_queue_at) w
  | inr (j, e) ↦ rw (e, remove_queue_at) (delete_queue_at-IsWellFormed p j w)
]

swap_queue-IsWellFormed :
    (p : Playlist) (i j : ℕ) → IsWellFormed p → IsWellFormed (swap_queue p i j)
unfolding swap_queue
swap_queue-IsWellFormed p i j w =
    with_queue-IsWellFormed p _ _ _ w
      (AllBelow-swap (length p.tracks.items) p.queue.items i j w.sound.queue_below)
      (rebuild-IsCoherent (swap p.queue.items i j))

pub move_queue-IsWellFormed :
    (p : Playlist) (from to : ℤ) → IsWellFormed p → IsWellFormed (move_queue p from to).0
unfolding move_queue
move_queue-IsWellFormed p from to w = elim (Option-cases (index_in from (length p.queue.items))) [
  | inl e ↦ rw (e, move_queue) w
  | inr (i, e) ↦ elim (Option-cases (index_in to (length p.queue.items))) [
    | inl f ↦ rw (e, move_queue) (rw (f, move_queue) w)
    | inr (j, f) ↦ elim (Bool-cases (i == j)) [
      | inl g ↦ rw (e, move_queue) (rw (f, move_queue) (rw g w))
      | inr g ↦ rw (e, move_queue) (rw (f, move_queue) (rw g (swap_queue-IsWellFormed p i j w)))
    ]
  ]
]

pub clear_queue-IsWellFormed : (p : Playlist) → IsWellFormed p → IsWellFormed (clear_queue p)
unfolding clear_queue
clear_queue-IsWellFormed p w =
    elim (Bool-cases (is_empty p.queue.items && not (is_some p.queue_positions))) [
      | inl e ↦ rw e w
      | inr e ↦ rw e (with_queue-IsWellFormed p _ nil_slice none w tt nil-IsCoherent)
    ]

queue_at-IsCoherent :
    (m : Option (List (ℕ × ℕ))) (q : List ℕ) (i : ℕ)
    → IsCoherent m q
    → IsCoherent
        (some (elim m [ none ↦ (i, length q + 1) ∷ [] | some m' ↦ insert_new i (length q + 1) m' ]))
        (q ++ i ∷ [])
queue_at-IsCoherent none q i c = append-IsCoherent_nil q i c
queue_at-IsCoherent (some m) q i c = append-IsCoherent m q i c

pub queue_track-IsWellFormed :
    (p : Playlist) (i : ℤ) → IsWellFormed p → IsWellFormed (queue_track p i)
unfolding queue_track
queue_track-IsWellFormed p i w = elim (Option-cases (index_in i (length p.tracks.items))) [
  | inl e ↦ rw (e, queue_track) w
  | inr (j, e) ↦
      rw (e, queue_track)
        (with_queue-IsWellFormed p _ _ _ w
          (All-append _ p.queue.items (j ∷ []) w.sound.queue_below
            (index_in-lt i (length p.tracks.items) e, tt))
          (queue_at-IsCoherent p.queue_positions p.queue.items j w.coherent))
]
