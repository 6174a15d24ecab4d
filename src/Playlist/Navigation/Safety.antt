-- ===== src/Playlist/Navigation/Safety.antt =====
-- `Next` of playlist/playlist.go keeps a playlist well-formed, and does not panic on one.
use cliamp.Base.{
  ℕ, ◌-◌, ◌≤◌, ◌<◌, ◌≡◌, refl, sym, subst, ◌∙◌, ◌⊎◌, inl, inr, Bool, true, false, Option, none,
  some, List, [], ◌∷◌, ◌++◌, arith, Bool-cases, Option-cases, length, get_elem?, get_elem?-some,
  get_elem?-lt,
}
use cliamp.Base.Slices.{Slice, nil_slice, with_items, is_empty}
use cliamp.Base.Outcomes.{ok}
use cliamp.Playlist.Track.{Track}
use cliamp.Playlist.State.{Playlist, is_repeat_one, bump_if, rebuild_queue_positions}
use cliamp.Playlist.Shuffle.{Draws}
use cliamp.Playlist.Slots.{
  is_playable, playable_queued, next_playable_queued, current_order_track_index,
}
use cliamp.Playlist.Navigation.{
  next_from_queue, next_repeat_one, next_in_order, clear_spent_queue, next_without_queue, next,
}
use cliamp.Playlist.Invariant.{QueuedBelow, AllBelow, IsWellFormed, Returns}
use cliamp.Playlist.Invariant.Positions.{rebuild-IsCoherent, nil-IsCoherent}
use cliamp.Playlist.Invariant.Order.{pos-lt, bump_if-IsWellFormed}
use cliamp.Playlist.Invariant.Queue.{with_queue-IsWellFormed}
use cliamp.Playlist.Slots.Laws.{is_playable-track, IsFirstQueued, FirstQueued, playable_queued_lem}
use cliamp.Playlist.Navigation.Advance.{
  Advance, ahead, wraps, reshuffles, ends, exhausted, advance_from_order-Advance,
}
use mathlib.Core.Option.{some-injective}

-- Another position and queued track, with any revision.
pub placed-IsWellFormed :
    (p : Playlist) (r position : ℕ) (queued : Option ℕ)
    → IsWellFormed p
    → position ≤ length p.tracks.items - 1
    → QueuedBelow (length p.tracks.items) queued
    → IsWellFormed (record p { revision = r; pos = position; queued_idx = queued })
placed-IsWellFormed p r position queued w h b = record {
  sound = record {
    permutation = w.sound.permutation;
    pos_le = h;
    straight = w.sound.straight;
    queue_below = w.sound.queue_below;
    queued_below = b;
  };
  coherent = w.coherent;
}

pub bumped_place-IsWellFormed :
    (b : Bool) (p : Playlist) (position : ℕ)
    → IsWellFormed p
    → position < length p.order.items
    → IsWellFormed (bump_if b (record p { queued_idx = none; pos = position }))
bumped_place-IsWellFormed b p position w h = bump_if-IsWellFormed b _ (
    placed-IsWellFormed p p.revision position none w (omega (arith, w.sound.permutation.length_eq))
      tt)

pub clear_spent_queue-tracks : (p : Playlist) → (clear_spent_queue p).tracks ≡ p.tracks
unfolding clear_spent_queue
clear_spent_queue-tracks p = ground arith

pub clear_spent_queue-IsWellFormed :
    (p : Playlist) → IsWellFormed p → IsWellFormed (clear_spent_queue p)
unfolding clear_spent_queue
clear_spent_queue-IsWellFormed p w = elim (Bool-cases (is_empty p.queue.items)) [
  | inl e ↦ rw e w
  | inr e ↦ rw e (with_queue-IsWellFormed p p.revision nil_slice none w tt nil-IsCoherent)
]

Advance-IsWellFormed :
    {p q : Playlist} {r : Option (ℕ × ℕ)} → IsWellFormed p → Advance p q r → IsWellFormed q
Advance-IsWellFormed w (ahead s e f g h) = rw f w
Advance-IsWellFormed w (wraps s e f g h i j k) = rw f w
Advance-IsWellFormed w (reshuffles s e re g h i j) = re.well_formed
Advance-IsWellFormed w (ends e f g h) = rw f w
Advance-IsWellFormed w (exhausted e f g h) = rw f w

-- A slot that was found lies in the order, and holds a playable track.
pub record InOrder (q : Playlist) (s : ℕ × ℕ) : Type 0 where
  pub slot_lt : s.0 < length q.order.items
  pub playable : is_playable q.tracks.items s.1 ≡ true

InOrder-of :
    (q : Playlist) (r : Option (ℕ × ℕ)) (s s' : ℕ × ℕ)
    → r ≡ some s
    → r ≡ some s'
    → is_playable q.tracks.items s'.1 ≡ true
    → s'.0 < length q.order.items
    → InOrder q s
InOrder-of q r s s' e f play lt =
    subst (InOrder q) (some-injective _ _ (sym f ∙ e)) (record { slot_lt = lt; playable = play })

pub Advance-InOrder :
    {p q : Playlist} {r : Option (ℕ × ℕ)} (s : ℕ × ℕ) → r ≡ some s → Advance p q r → InOrder q s
Advance-InOrder {p} {q} {r} s e (ahead s' f g h i) = rw g (InOrder-of p r s s' e f h.playable i)
Advance-InOrder {p} {q} {r} s e (wraps s' f g h i j k l) =
    rw g (InOrder-of p r s s' e f k.playable l)
Advance-InOrder {p} {q} {r} s e (reshuffles s' f re g h (inl i) j) =
    InOrder-of q r s s' e f i.playable j
Advance-InOrder {p} {q} {r} s e (reshuffles s' f re g h (inr i) j) =
    InOrder-of q r s s' e f i.1.playable j
Advance-InOrder s e (ends f g h i) = absurd (ground arith)
Advance-InOrder s e (exhausted f g h i) = absurd (ground arith)

-- Where no slot was found the playlist is as it was.
Advance-none : {p q : Playlist} {r : Option (ℕ × ℕ)} → r ≡ none → Advance p q r → q ≡ p
Advance-none e (ahead s f g h i) = absurd (ground arith)
Advance-none e (wraps s f g h i j k l) = absurd (ground arith)
Advance-none e (reshuffles s f re g h i j) = absurd (ground arith)
Advance-none e (ends f g h i) = g
Advance-none e (exhausted f g h i) = g

-- The result of a call whose playlist is its first part.
abbrev pub Keeps {ℓ} : {A : Type ℓ} → Playlist × A → Type 0
Keeps r = IsWellFormed r.0

next_in_order-Keeps :
    (d : Draws) (p : Playlist) (cleared : Bool)
    → IsWellFormed p
    → 0 < length p.tracks.items
    → Returns Keeps (next_in_order d p cleared)
unfolding next_in_order
next_in_order-Keeps d p cleared w h =
    let (q, r, done, a) = advance_from_order-Advance d p w h in
    let v : IsWellFormed q = Advance-IsWellFormed w a in
    elim (Option-cases r) [
      | inl e ↦
          rw (done, next_in_order)
            (rw (e, next_in_order) (rw (Advance-none e a) (bump_if-IsWellFormed cleared p w)))
      | inr (s, e) ↦
          let o : InOrder q s = Advance-InOrder s e a in
          let (t, g, u) = is_playable-track q.tracks.items s.1 o.playable in
          rw (done, next_in_order)
            (rw (e, next_in_order) (rw g (bumped_place-IsWellFormed _ q s.0 v o.slot_lt)))
    ]

pub current_order_track_index-ok :
    (p : Playlist)
    → IsWellFormed p
    → 0 < length p.tracks.items
    → (i : ℕ) × (current_order_track_index p ≡ ok (some i))
      × (get_elem? p.order.items p.pos ≡ some i)
unfolding current_order_track_index
current_order_track_index-ok p w h =
    let (i, e) = get_elem?-some p.order.items p.pos (pos-lt p w h) in (i, ground arith, e)

next_repeat_one-Keeps :
    (p : Playlist) (cleared : Bool)
    → IsWellFormed p
    → 0 < length p.tracks.items
    → Returns Keeps (next_repeat_one p cleared)
unfolding next_repeat_one
next_repeat_one-Keeps p cleared w h =
    let (i, done, e) = current_order_track_index-ok p w h in
    elim (Bool-cases (is_playable p.tracks.items i)) [
      | inl f ↦
          let (t, g, u) = is_playable-track p.tracks.items i f in
          rw (done, next_repeat_one)
            (rw f (
              rw g (
                bump_if-IsWellFormed _ _
                  (placed-IsWellFormed p p.revision p.pos none w w.sound.pos_le tt))))
      | inr f ↦ rw (done, next_repeat_one) (rw f (bump_if-IsWellFormed cleared p w))
    ]

pub length_of_empty {ℓ} : {A : Type ℓ} (xs : List A) → is_empty xs ≡ true → length xs ≡ 0
length_of_empty [] h = refl
length_of_empty (x ∷ xs) h = absurd (ground arith)

pub empty_cases {ℓ} :
    {A : Type ℓ} (ts : List A) → (is_empty ts ≡ true) ⊎ ((is_empty ts ≡ false) × (0 < length ts))
empty_cases [] = inl refl
empty_cases (t ∷ ts) = inr (refl, omega arith)

next_without_queue-Keeps :
    (d : Draws) (p : Playlist)
    → IsWellFormed p
    → 0 < length p.tracks.items
    → Returns Keeps (next_without_queue d p)
unfolding next_without_queue
next_without_queue-Keeps d p w h =
    let v : IsWellFormed (clear_spent_queue p) = clear_spent_queue-IsWellFormed p w in
    let l : 0 < length (clear_spent_queue p).tracks.items =
      subst (λ (x : Slice Track). 0 < length x.items) (sym (clear_spent_queue-tracks p)) h in
    elim (Bool-cases (is_repeat_one p.repeat)) [
      | inl e ↦ rw e (next_repeat_one-Keeps (clear_spent_queue p) _ v l)
      | inr e ↦ rw e (next_in_order-Keeps d (clear_spent_queue p) _ v l)
    ]

-- What stands behind the entry that plays is below the number of tracks.
AllBelow-rest :
    (n : ℕ) (xs : List ℕ) (a : ℕ) (ys : List ℕ) → AllBelow n (xs ++ a ∷ ys) → AllBelow n ys
AllBelow-rest n [] a ys h = h.1
AllBelow-rest n (x ∷ xs) a ys h = AllBelow-rest n xs a ys h.1

next_from_queue-Keeps :
    (p : Playlist) (s : ℕ × List ℕ)
    → IsWellFormed p
    → IsFirstQueued p.tracks.items p.queue.items s
    → Returns Keeps (next_from_queue p s.0 s.1)
unfolding next_from_queue
next_from_queue-Keeps p s w f =
    let (t, g, u) = is_playable-track p.tracks.items s.0 f.playable in
    rw g (
      placed-IsWellFormed
        (record p { queue = with_items p.queue s.1; queue_positions = rebuild_queue_positions s.1 })
        _ p.pos (some s.0)
        (with_queue-IsWellFormed p p.revision _ _ w
          (AllBelow-rest (length p.tracks.items) f.skipped s.0 s.1
            (subst (AllBelow (length p.tracks.items)) f.splits w.sound.queue_below))
          (rebuild-IsCoherent s.1))
        w.sound.pos_le (get_elem?-lt p.tracks.items s.0 g))

pub next-Keeps : (d : Draws) (p : Playlist) → IsWellFormed p → Returns Keeps (next d p)
unfolding next next_playable_queued
next-Keeps d p w = elim (empty_cases p.tracks.items) [
  | inl e ↦ rw e w
  | inr (more, some_tracks) ↦ rw more (
      queue_cases (playable_queued p.tracks.items p.queue.items)
        (playable_queued_lem p.tracks.items p.queue.items) some_tracks)
]
  where
    queue_cases :
        (r : Option (ℕ × List ℕ))
        → FirstQueued p.tracks.items p.queue.items r
        → 0 < length p.tracks.items
        → Returns Keeps (elim r [
          | none ↦ next_without_queue d p
          | some (idx, remaining) ↦ next_from_queue p idx remaining
        ])
    queue_cases none f h = next_without_queue-Keeps d p w h
    queue_cases (some (idx, remaining)) f h = next_from_queue-Keeps p (idx, remaining) w f
