-- ===== src/Playlist/Navigation/Plays.antt =====
-- Which track `Next` of playlist/playlist.go plays, and that `PeekNext` announces it.
use cliamp.Base.{
  ℕ, ◌+◌, ◌≤◌, ◌<◌, ◌≡◌, refl, sym, ap, ◌∙◌, ◌⊎◌, inl, inr, Bool, true, false, not, ◌&&◌, ◌||◌,
  Option, none, some, List, [], ◌∷◌, ◌++◌, arith, ◌==◌, Bool-cases, Option-cases, length, get_elem?,
  All, get_elem?-lt,
}
use cliamp.Base.Slices.{nil_slice, with_items, is_empty}
use cliamp.Base.Outcomes.{Outcome, ok, panic}
use cliamp.Playlist.Track.{Track}
use cliamp.Playlist.State.{
  Playlist, is_repeat_one, bump, bump_if, rebuild_queue_positions, equal_index_lists,
}
use cliamp.Playlist.Shuffle.{Draws}
use cliamp.Playlist.Slots.{
  is_playable, first_playable_order_slot, playable_queued, next_playable_queued, is_some,
  at_shuffle_wrap,
}
use cliamp.Playlist.Navigation.{
  advance_from_order, next_from_queue, next_in_order, clear_spent_queue, next_without_queue, next,
  peek_in_order,
}
use cliamp.Playlist.Invariant.{IsWellFormed}
use mathlib.Core.Bool.{false≢true}
use cliamp.Playlist.Slots.Laws.{
  is_playable-track, IsFirstPlayable, first_playable_order_slot_lem, IsFirstQueued,
}
use cliamp.Playlist.Navigation.Advance.{advance_from_order-Advance}
use mathlib.Core.Option.{some-injective}
use cliamp.Playlist.Navigation.Safety.{length_of_empty, empty_cases, InOrder, Advance-InOrder}

-- The first playable slot is the only one.
IsFirstPlayable-unique :
    (tracks : List Track) (order : List ℕ) (from : ℕ) (s s' : ℕ × ℕ)
    → IsFirstPlayable tracks order from s
    → IsFirstPlayable tracks order from s'
    → s ≡ s'
IsFirstPlayable-unique tracks order from s s' f g = elim (ltb_cases s.0 s'.0) [
  | inl l ↦ absurd (false≢true (sym (g.first s.0 s.1 f.from_le l f.holds) ∙ f.playable))
  | inr l ↦ elim (ltb_cases s'.0 s.0) [
    | inl k ↦ absurd (false≢true (sym (f.first s'.0 s'.1 g.from_le k g.holds) ∙ g.playable))
    | inr k ↦
        let e : s.0 ≡ s'.0 = omega arith in
        let h : s.1 ≡ s'.1 = some-injective _ _ (sym f.holds ∙ ap (get_elem? order) e ∙ g.holds) in
        cc
  ]
]
  where
    ltb_cases : (j k : ℕ) → (j < k) ⊎ (k ≤ j)
    ltb_cases j k = omega arith

-- The search finds the first playable slot below its bound.
first_playable_order_slot-some :
    (p : Playlist) (from to : ℕ) (s : ℕ × ℕ)
    → IsFirstPlayable p.tracks.items p.order.items from s
    → s.0 < to
    → first_playable_order_slot p from to ≡ some s
first_playable_order_slot-some p from to s f l =
    elim (Option-cases (first_playable_order_slot p from to)) [
      | inl e ↦ absurd (
          false≢true (
            sym (rw e at (first_playable_order_slot_lem p from to) s.0 s.1 f.from_le l f.holds)
            ∙ f.playable))
      | inr (s', e) ↦
          e
          ∙ ap some (
              IsFirstPlayable-unique p.tracks.items p.order.items from s' s
                (rw e at (first_playable_order_slot_lem p from to)).0 f)
    ]

playable_queued-some :
    (tracks : List Track) (skipped : List ℕ) (a : ℕ) (rest : List ℕ)
    → All (λ x. is_playable tracks x ≡ false) skipped
    → is_playable tracks a ≡ true
    → playable_queued tracks (skipped ++ a ∷ rest) ≡ some (a, rest)
unfolding playable_queued
playable_queued-some tracks [] a rest u h = rw h refl
playable_queued-some tracks (x ∷ skipped) a rest u h =
    rw (u.0) (playable_queued-some tracks skipped a rest u.1 h)

pub playable_queued-none :
    (tracks : List Track) (queue : List ℕ)
    → All (λ x. is_playable tracks x ≡ false) queue
    → playable_queued tracks queue ≡ none
unfolding playable_queued
playable_queued-none tracks [] u = refl
playable_queued-none tracks (x ∷ queue) u = rw (u.0) (playable_queued-none tracks queue u.1)

-- What `Next` leaves after playing track `t` at index `idx` from the queue.
pub record PlaysQueued (p q : Playlist) (s : ℕ × List ℕ) (t : Track) : Type 0 where
  pub plays : get_elem? p.tracks.items s.0 ≡ some t
  pub queue_eq : q.queue.items ≡ s.1
  pub queued_eq : q.queued_idx ≡ some s.0
  pub pos_eq : q.pos ≡ p.pos
  pub order_eq : q.order ≡ p.order

-- If the queue has a playable entry, `Next` returns its first one's track; that entry and those before it
-- leave the queue, the track is the queued one, and the play order and the position in it stay.
pub next-PlaysQueued :
    (d : Draws) (p : Playlist) (s : ℕ × List ℕ)
    → IsFirstQueued p.tracks.items p.queue.items s
    → (q : Playlist) × (t : Track) × (next d p ≡ ok (q, some t)) × PlaysQueued p q s t
unfolding next next_playable_queued next_from_queue
next-PlaysQueued d p s f =
    let (t, g, u) = is_playable-track p.tracks.items s.0 f.playable in
    let e : playable_queued p.tracks.items p.queue.items ≡ some s =
      ap (playable_queued p.tracks.items) f.splits
      ∙ playable_queued-some p.tracks.items f.skipped s.0 s.1 f.unplayable f.playable in
    elim (empty_cases p.tracks.items) [
      | inl none_left ↦ absurd (
          omega
            (arith, get_elem?-lt p.tracks.items s.0 g, length_of_empty p.tracks.items none_left))
      | inr (more, h) ↦ (
        bump (record p {
          queue = with_items p.queue s.1;
          queue_positions = rebuild_queue_positions s.1;
          queued_idx = some s.0;
        }),
        t,
        rw more (rw (e, next) (rw g refl)),
        record { plays = g; queue_eq = refl; queued_eq = refl; pos_eq = refl; order_eq = refl },
      )
    ]

-- What `Next` leaves after playing track `t` from slot `s` of the play order.
pub record PlaysSlot (p q : Playlist) (s : ℕ × ℕ) (t : Track) : Type 0 where
  pub plays : get_elem? p.tracks.items s.1 ≡ some t
  pub pos_eq : q.pos ≡ s.0
  pub queued_eq : q.queued_idx ≡ none
  pub queue_eq : q.queue.items ≡ []
  pub order_eq : q.order ≡ p.order

bump_if-PlaysSlot :
    (b : Bool) (p q : Playlist) (s : ℕ × ℕ) (t : Track)
    → PlaysSlot p q s t
    → PlaysSlot p (bump_if b q) s t
bump_if-PlaysSlot true p q s t h = record {
  plays = h.plays;
  pos_eq = h.pos_eq;
  queued_eq = h.queued_eq;
  queue_eq = h.queue_eq;
  order_eq = h.order_eq;
}
bump_if-PlaysSlot false p q s t h = h

next_in_order-PlaysSlot :
    (d : Draws) (p : Playlist) (cleared : Bool) (s : ℕ × ℕ)
    → IsFirstPlayable p.tracks.items p.order.items (p.pos + 1) s
    → p.queue.items ≡ []
    → (q : Playlist) × (t : Track) × (next_in_order d p cleared ≡ ok (q, some t))
      × PlaysSlot p q s t
unfolding next_in_order advance_from_order
next_in_order-PlaysSlot d p cleared s f e =
    let found =
      first_playable_order_slot-some p (p.pos + 1) (length p.order.items) s f
        (get_elem?-lt p.order.items s.0 f.holds) in
    let (t, g, u) = is_playable-track p.tracks.items s.1 f.playable in
    let played : Playlist = record p { queued_idx = none; pos = s.0 } in
    let b : Bool =
      cleared
      || is_some p.queued_idx
      || not (p.pos == s.0)
      || (at_shuffle_wrap p && not (equal_index_lists p.order.items p.order.items)) in
    (
      bump_if b played,
      t,
      rw (found, next_in_order, advance_from_order) (rw g refl),
      bump_if-PlaysSlot b p played s t
          (record { plays = g; pos_eq = refl; queued_eq = refl; queue_eq = e; order_eq = refl }),
    )

eq_nil : (xs : List ℕ) → is_empty xs ≡ true → xs ≡ []
eq_nil [] h = refl
eq_nil (x ∷ xs) h = absurd (ground arith)

pub cleared_same : (p : Playlist) → is_empty p.queue.items ≡ true → clear_spent_queue p ≡ p
unfolding clear_spent_queue
cleared_same p e = rw e refl

pub cleared_fresh :
    (p : Playlist)
    → is_empty p.queue.items ≡ false
    → clear_spent_queue p ≡ record p { queue = nil_slice; queue_positions = none }
unfolding clear_spent_queue
cleared_fresh p e = rw e refl

-- With no playable track in the queue, repeat-one off, and a playable slot behind the current one,
-- `Next` returns the track of the first such slot, stands at that slot with no queued track, empties
-- the queue and keeps the order.
pub next-PlaysSlot :
    (d : Draws) (p : Playlist) (s : ℕ × ℕ)
    → All (λ a. is_playable p.tracks.items a ≡ false) p.queue.items
    → is_repeat_one p.repeat ≡ false
    → IsFirstPlayable p.tracks.items p.order.items (p.pos + 1) s
    → (q : Playlist) × (t : Track) × (next d p ≡ ok (q, some t)) × PlaysSlot p q s t
unfolding next next_playable_queued next_without_queue
next-PlaysSlot d p s u off f =
    let (t, g, v) = is_playable-track p.tracks.items s.1 f.playable in
    let e : playable_queued p.tracks.items p.queue.items ≡ none =
      playable_queued-none p.tracks.items p.queue.items u in
    let cleared : Bool = not (is_empty p.queue.items) in
    elim (empty_cases p.tracks.items) [
      | inl none_left ↦ absurd (
          omega
            (arith, get_elem?-lt p.tracks.items s.1 g, length_of_empty p.tracks.items none_left))
      | inr (more, h) ↦ elim (Bool-cases (is_empty p.queue.items)) [
        | inl k ↦
            let (q, x, done, r) =
              next_in_order-PlaysSlot d p cleared s f (eq_nil p.queue.items k) in
            (
              q,
              x,
              rw more (
                  rw (e, next)
                    (rw (off) (ap (λ y. next_in_order d y cleared) (cleared_same p k) ∙ done))),
              r,
            )
        | inr k ↦
            let c : Playlist = record p { queue = nil_slice; queue_positions = none } in
            let (q, x, done, r) = next_in_order-PlaysSlot d c cleared s f refl in
            (
              q,
              x,
              rw more (
                  rw (e, next)
                    (rw off (ap (λ y. next_in_order d y cleared) (cleared_fresh p k) ∙ done))),
              record {
                plays = r.plays;
                pos_eq = r.pos_eq;
                queued_eq = r.queued_eq;
                queue_eq = r.queue_eq;
                order_eq = r.order_eq;
              },
            )
      ]
    ]

-- Short of a wrap the draws are not used.
advance_from_order-draws :
    (d d' : Draws) (p : Playlist)
    → at_shuffle_wrap p ≡ false
    → advance_from_order d p ≡ advance_from_order d' p
unfolding advance_from_order
advance_from_order-draws d d' p h = ground arith

-- The track in a result.
abbrev pub announced : Outcome (Playlist × Option Track) → Option Track
announced (ok r) = r.1
announced panic = none

pub next_in_order-announced :
    (d d' : Draws) (p : Playlist) (cleared : Bool)
    → IsWellFormed p
    → 0 < length p.tracks.items
    → at_shuffle_wrap p ≡ false
    → announced (next_in_order d p cleared) ≡ announced (peek_in_order d' p)
unfolding next_in_order peek_in_order
next_in_order-announced d d' p cleared w h e =
    let (q, r, done, a) = advance_from_order-Advance d p w h in
    let done' : advance_from_order d' p ≡ ok (q, r) = advance_from_order-draws d' d p e ∙ done in
    elim (Option-cases r) [
      | inl f ↦
          rw (done, done', next_in_order, peek_in_order) (rw (f, next_in_order, peek_in_order) refl)
      | inr (s, f) ↦
          let o : InOrder q s = Advance-InOrder s f a in
          let (t, g, u) = is_playable-track q.tracks.items s.1 o.playable in
          rw (done, done', next_in_order, peek_in_order)
            (rw (f, next_in_order, peek_in_order) (rw g refl))
    ]
