-- ===== src/Playlist/Navigation/Peeks.antt =====
-- `HasNext` and `PeekNext` of playlist/playlist.go answer what `Next` would do.
use cliamp.Base.{
  ℕ, ◌<◌, ◌≡◌, refl, sym, ap, subst, ◌∙◌, ◌⊎◌, inl, inr, Bool, true, false, not, ◌&&◌, ◌||◌, Option,
  none, some, List, arith, ◌==◌, if◌then◌else◌, Bool-cases, Option-cases, length,
}
use cliamp.Base.Slices.{Slice, nil_slice, with_items, is_empty}
use cliamp.Base.Outcomes.{Outcome, ok, ◌>>=◌}
use cliamp.Playlist.Track.{Track}
use cliamp.Playlist.State.{
  Playlist, is_repeat_one, bump, bump_if, rebuild_queue_positions, equal_index_lists,
}
use cliamp.Playlist.Shuffle.{Draws}
use cliamp.Playlist.Slots.{
  is_playable, first_playable_order_slot, next_playable_queued, current_order_track_index, is_some,
  at_shuffle_wrap,
}
use cliamp.Playlist.Navigation.{
  next_from_queue, next_repeat_one, next_in_order, clear_spent_queue, next_without_queue, next,
  has_next, peek_in_order, peek_next,
}
use cliamp.Playlist.Views.{current}
use cliamp.Playlist.Invariant.{IsWellFormed}
use cliamp.Playlist.Slots.Laws.{is_playable-track, IsFirstQueued, FirstQueued, playable_queued_lem}
use cliamp.Playlist.Navigation.Advance.{
  Advance, ahead, wraps, reshuffles, ends, exhausted, advance_from_order-Advance,
}
use cliamp.Playlist.Navigation.Safety.{
  empty_cases, clear_spent_queue-tracks, clear_spent_queue-IsWellFormed, InOrder, Advance-InOrder,
  current_order_track_index-ok,
}
use cliamp.Playlist.Navigation.Finds.{Advance-has_next, has_next_in_order}

-- `Next` in play order yields a track exactly when `advanceFromOrder` finds a slot.
next_in_order-has_next :
    (d : Draws) (p : Playlist) (cleared : Bool)
    → IsWellFormed p
    → 0 < length p.tracks.items
    → (q : Playlist) × (o : Option Track) × (next_in_order d p cleared ≡ ok (q, o))
      × (is_some o ≡ has_next_in_order p)
unfolding next_in_order
next_in_order-has_next d p cleared w h =
    let (q, r, done, a) = advance_from_order-Advance d p w h in
    let agrees : is_some r ≡ has_next_in_order p = Advance-has_next p q r w a in
    elim (Option-cases r) [
      | inl e ↦ (
        bump_if cleared (record q { pos = p.pos; queued_idx = p.queued_idx }),
        none,
        rw (done, next_in_order) (rw (e, next_in_order) refl),
        rw e at agrees,
      )
      | inr (s, e) ↦
          let o : InOrder q s = Advance-InOrder s e a in
          let (t, g, u) = is_playable-track q.tracks.items s.1 o.playable in
          (
            bump_if
                (cleared
                  || is_some p.queued_idx
                  || not (p.pos == s.0)
                  || (at_shuffle_wrap p && not (equal_index_lists q.order.items p.order.items)))
                (record q { queued_idx = none; pos = s.0 }),
            some t,
            rw (done, next_in_order) (rw (e, next_in_order) (rw g refl)),
            rw e at agrees,
          )
    ]

clear_spent_queue-has_next :
    (p : Playlist) → has_next_in_order (clear_spent_queue p) ≡ has_next_in_order p
unfolding clear_spent_queue
clear_spent_queue-has_next p = elim (Bool-cases (is_empty p.queue.items)) [
  | inl e ↦ rw e refl
  | inr e ↦ rw e (unfold first_playable_order_slot in refl)
]

abbrev has_next_repeat_one : Playlist → Outcome Bool
has_next_repeat_one p = do
  current ← current_order_track_index p
  ok (elim current [ none ↦ false | some idx ↦ is_playable p.tracks.items idx ])

next_repeat_one-has_next :
    (p : Playlist) (cleared : Bool)
    → IsWellFormed p
    → 0 < length p.tracks.items
    → (q : Playlist) × (o : Option Track) × (next_repeat_one p cleared ≡ ok (q, o))
      × (has_next_repeat_one p ≡ ok (is_some o))
unfolding next_repeat_one
next_repeat_one-has_next p cleared w h =
    let (i, done, e) = current_order_track_index-ok p w h in
    elim (Bool-cases (is_playable p.tracks.items i)) [
      | inl f ↦
          let (t, g, u) = is_playable-track p.tracks.items i f in
          (
            bump_if (cleared || is_some p.queued_idx) (record p { queued_idx = none }),
            some t,
            rw (done, next_repeat_one) (rw f (rw g refl)),
            rw done (rw f refl),
          )
      | inr f ↦
          (bump_if cleared p, none, rw (done, next_repeat_one) (rw f refl), rw done (rw f refl))
    ]

clear_spent_queue_cases :
    (p : Playlist)
    → (clear_spent_queue p ≡ p)
      ⊎ (clear_spent_queue p ≡ record p { queue = nil_slice; queue_positions = none })
unfolding clear_spent_queue
clear_spent_queue_cases p = elim (Bool-cases (is_empty p.queue.items)) [
  | inl e ↦ inl (rw e refl)
  | inr e ↦ inr (rw e refl)
]

clear_spent_queue-has_next_repeat_one :
    (p : Playlist) → has_next_repeat_one (clear_spent_queue p) ≡ has_next_repeat_one p
clear_spent_queue-has_next_repeat_one p = elim (clear_spent_queue_cases p) [
  | inl e ↦ ap (λ x. has_next_repeat_one x) e
  | inr e ↦ ap (λ x. has_next_repeat_one x) e ∙ unfold current_order_track_index in refl
]

-- `HasNext` where the queue holds no playable track.
abbrev has_next_without_queue : Playlist → Outcome Bool
has_next_without_queue p =
    if is_repeat_one p.repeat then has_next_repeat_one p else ok (has_next_in_order p)

next_without_queue-has_next :
    (d : Draws) (p : Playlist)
    → IsWellFormed p
    → 0 < length p.tracks.items
    → (q : Playlist) × (o : Option Track) × (next_without_queue d p ≡ ok (q, o))
      × (has_next_without_queue p ≡ ok (is_some o))
unfolding next_without_queue
next_without_queue-has_next d p w h =
    let v : IsWellFormed (clear_spent_queue p) = clear_spent_queue-IsWellFormed p w in
    let l : 0 < length (clear_spent_queue p).tracks.items =
      subst (λ (x : Slice Track). 0 < length x.items) (sym (clear_spent_queue-tracks p)) h in
    let cleared : Bool = not (is_empty p.queue.items) in
    elim (Bool-cases (is_repeat_one p.repeat)) [
      | inl e ↦
          let (q, o, f, g) = next_repeat_one-has_next (clear_spent_queue p) cleared v l in
          (q, o, rw e f, rw e (sym (clear_spent_queue-has_next_repeat_one p) ∙ g))
      | inr e ↦
          let (q, o, f, g) = next_in_order-has_next d (clear_spent_queue p) cleared v l in
          (q, o, rw e f, rw e (ap ok (sym (clear_spent_queue-has_next p) ∙ sym g)))
    ]

has_next_tests : Bool → Bool → Playlist → Outcome Bool
has_next_tests none_left queued p =
    if none_left then ok false else if queued then ok true else has_next_without_queue p

has_next_lem :
    (p : Playlist)
    → has_next p ≡ has_next_tests (is_empty p.tracks.items) (is_some (next_playable_queued p)) p
unfolding has_next has_next_tests
has_next_lem p = ground arith

pub next_playable_queued-some :
    (p : Playlist) (s : ℕ × List ℕ)
    → next_playable_queued p ≡ some s
    → IsFirstQueued p.tracks.items p.queue.items s
unfolding next_playable_queued
next_playable_queued-some p s e =
    subst (FirstQueued p.tracks.items p.queue.items) e
      (playable_queued_lem p.tracks.items p.queue.items)

next_from_queue-track :
    (p : Playlist) (s : ℕ × List ℕ)
    → IsFirstQueued p.tracks.items p.queue.items s
    → (q : Playlist) × (t : Track) × (next_from_queue p s.0 s.1 ≡ ok (q, some t))
unfolding next_from_queue
next_from_queue-track p s f =
    let (t, g, u) = is_playable-track p.tracks.items s.0 f.playable in
    (
      bump (record p {
        queue = with_items p.queue s.1;
        queue_positions = rebuild_queue_positions s.1;
        queued_idx = some s.0;
      }),
      t,
      rw g refl,
    )

-- On a well-formed playlist `Next` and `HasNext` return, and `HasNext` says whether `Next` yields a
-- track.
pub has_next-next :
    (d : Draws) (p : Playlist)
    → IsWellFormed p
    → (q : Playlist) × (o : Option Track) × (next d p ≡ ok (q, o)) × (has_next p ≡ ok (is_some o))
unfolding next has_next_tests
has_next-next d p w = elim (empty_cases p.tracks.items) [
  | inl e ↦ (p, none, rw e refl, has_next_lem p ∙ rw e refl)
  | inr (more, h) ↦ elim (Option-cases (next_playable_queued p)) [
    | inl e ↦
        let (q, o, f, g) = next_without_queue-has_next d p w h in
        (q, o, rw more (rw (e, next) f), has_next_lem p ∙ rw (more, e) g)
    | inr (s, e) ↦
        let (q, t, f) = next_from_queue-track p s (queued s e) in
        (q, some t, rw more (rw (e, next) f), has_next_lem p ∙ rw (more, e) refl)
  ]
]
  where
    queued :
        (s : ℕ × List ℕ)
        → next_playable_queued p ≡ some s
        → IsFirstQueued p.tracks.items p.queue.items s
    queued s e = next_playable_queued-some p s e

-- The slot search of `PeekNext` leaves the playlist alone, since it stops before a reshuffle.
pub Advance-unshuffled :
    (p q : Playlist) (r : Option (ℕ × ℕ)) → at_shuffle_wrap p ≡ false → Advance p q r → q ≡ p
Advance-unshuffled p q r h (ahead s e f g l) = f
Advance-unshuffled p q r h (wraps s e f all i spent g l) = f
Advance-unshuffled p q r h (reshuffles s e re wrap spent g l) = cc
Advance-unshuffled p q r h (ends e f off spent) = f
Advance-unshuffled p q r h (exhausted e f all none_left) = f

-- `PeekNext` returns, and never changes a well-formed playlist.
pub peek_next-unchanged :
    (d : Draws) (p : Playlist) → IsWellFormed p → (o : Option Track) × (peek_next d p ≡ ok (p, o))
unfolding peek_next peek_in_order
peek_next-unchanged d p w = elim (empty_cases p.tracks.items) [
  | inl e ↦ (none, rw e refl)
  | inr (more, h) ↦ elim (Option-cases (next_playable_queued p)) [
    | inr (s, e) ↦
        let (t, g, u) =
          is_playable-track p.tracks.items s.0 (next_playable_queued-some p s e).playable in
        (some t, rw more (rw (e, peek_next) (rw g refl)))
    | inl e ↦ elim (Bool-cases (is_repeat_one p.repeat)) [
      | inl one ↦
          let (i, done, at_pos) = current_order_track_index-ok p w h in
          elim (Bool-cases (is_playable p.tracks.items i)) [
            | inl f ↦
                let (t, g, u) = is_playable-track p.tracks.items i f in
                (
                  some t,
                  rw more (rw (e, peek_next) (rw one (rw (done, peek_next) (rw f (rw g refl))))),
                )
            | inr f ↦
                (none, rw more (rw (e, peek_next) (rw one (rw (done, peek_next) (rw f refl)))))
          ]
      | inr other ↦ elim (Bool-cases (at_shuffle_wrap p)) [
        | inl wrap ↦ (none, rw more (rw (e, peek_next) (rw other (rw wrap refl))))
        | inr straight ↦
            let (q, r, done, a) = advance_from_order-Advance d p w h in
            let same : q ≡ p = Advance-unshuffled p q r straight a in
            elim (Option-cases r) [
              | inl f ↦ (
                none,
                rw more (
                    rw (e, peek_next)
                      (rw (other, straight)
                        (rw (done, peek_in_order)
                          (rw (f, peek_in_order) (ap (λ (x : Playlist). ok (x, none)) same))))),
              )
              | inr (s, f) ↦
                  let o : InOrder q s = Advance-InOrder s f a in
                  let (t, g, u) = is_playable-track q.tracks.items s.1 o.playable in
                  (
                    some t,
                    rw more (
                        rw (e, peek_next)
                          (rw (other, straight)
                            (rw (done, peek_in_order)
                              (rw (f, peek_in_order)
                                (rw g (ap (λ (x : Playlist). ok (x, some t)) same)))))),
                  )
            ]
      ]
    ]
  ]
]
