-- ===== src/Playlist/Navigation/Announces.antt =====
-- `PeekNext` of playlist/playlist.go against `Next`.
use cliamp.Base.{
  ℕ, ◌+◌, ◌<◌, ◌≡◌, refl, sym, ap, subst, ◌∙◌, ◌⊎◌, inl, inr, Bool, true, false, not, Option, none,
  some, List, [], ◌∷◌, arith, if◌then◌else◌, Bool-cases, Option-cases, length, All, get_elem?-lt,
}
use cliamp.Base.Slices.{nil_slice, is_empty}
use cliamp.Base.Outcomes.{ok}
use cliamp.Playlist.Track.{Track}
use cliamp.Playlist.State.{
  Playlist, RepeatMode, repeat_off, repeat_all, repeat_one, is_repeat_all, is_repeat_one,
}
use cliamp.Playlist.Shuffle.{Draws}
use cliamp.Playlist.Slots.{
  is_playable, first_playable_order_slot, playable_queued, next_playable_queued, is_some,
  at_shuffle_wrap,
}
use cliamp.Playlist.Navigation.{
  next_from_queue, next_repeat_one, next_in_order, clear_spent_queue, next_without_queue, next,
  peek_in_order, peek_next,
}
use cliamp.Playlist.Invariant.{IsWellFormed}
use mathlib.Core.Bool.{false≢true}
use cliamp.Playlist.Slots.Laws.{is_playable-track}
use cliamp.Playlist.Navigation.Advance.{at_shuffle_wrap-shuffle, advance_from_order-Advance}
use cliamp.Playlist.Navigation.Safety.{
  length_of_empty, empty_cases, InOrder, Advance-InOrder, current_order_track_index-ok,
}
use cliamp.Playlist.Navigation.Peeks.{has_next-next, next_playable_queued-some, Advance-unshuffled}
use cliamp.Playlist.Navigation.Finds.{has_next_in_order, Advance-has_next, playable_somewhere}
use cliamp.Playlist.Navigation.Plays.{
  cleared_same, cleared_fresh, playable_queued-none, announced, next_in_order-announced,
}

next_repeat_one-announced :
    (d : Draws) (p : Playlist) (cleared : Bool)
    → IsWellFormed p
    → 0 < length p.tracks.items
    → is_repeat_one p.repeat ≡ true
    → next_playable_queued p ≡ none
    → announced (peek_next d p) ≡ announced (next_repeat_one p cleared)
unfolding peek_next next_repeat_one
next_repeat_one-announced d p cleared w h one e =
    let (i, done, at_pos) = current_order_track_index-ok p w h in
    elim (empty_cases p.tracks.items) [
      | inl none_left ↦ absurd (omega (arith, length_of_empty p.tracks.items none_left))
      | inr (more, l) ↦ elim (Bool-cases (is_playable p.tracks.items i)) [
        | inl f ↦
            let (t, g, u) = is_playable-track p.tracks.items i f in
            rw more (
              rw (e, peek_next) (rw one (rw (done, peek_next, next_repeat_one) (rw f (rw g refl)))))
        | inr f ↦
            rw more (rw (e, peek_next) (rw one (rw (done, peek_next, next_repeat_one) (rw f refl))))
      ]
    ]

-- The queue gives `PeekNext` and `Next` the same answer.
queued-announced :
    (d d' : Draws) (p : Playlist) (s : ℕ × List ℕ)
    → next_playable_queued p ≡ some s
    → announced (peek_next d p) ≡ announced (next d' p)
unfolding peek_next next next_from_queue
queued-announced d d' p s e =
    let f = next_playable_queued-some p s e in
    let (t, g, u) = is_playable-track p.tracks.items s.0 f.playable in
    elim (empty_cases p.tracks.items) [
      | inl none_left ↦ rw none_left refl
      | inr (more, l) ↦ rw more (rw (e, peek_next, next) (rw g refl))
    ]

nothing_announced :
    (d : Draws) (p : Playlist) → is_empty p.tracks.items ≡ true → announced (peek_next d p) ≡ none
unfolding peek_next
nothing_announced d p e = rw e refl

next_without :
    (d : Draws) (p : Playlist)
    → is_empty p.tracks.items ≡ false
    → next_playable_queued p ≡ none
    → next d p ≡ (
        if is_repeat_one p.repeat
        then next_repeat_one (clear_spent_queue p) (not (is_empty p.queue.items))
        else next_in_order d (clear_spent_queue p) (not (is_empty p.queue.items)))
unfolding next next_without_queue
next_without d p more e = rw more (rw (e, next) refl)

-- `PeekNext` in play order, once the queue and repeat-one are ruled out.
peek_without :
    (d : Draws) (p : Playlist)
    → is_empty p.tracks.items ≡ false
    → next_playable_queued p ≡ none
    → is_repeat_one p.repeat ≡ false
    → peek_next d p ≡ (if at_shuffle_wrap p then ok (p, none) else peek_in_order d p)
unfolding peek_next
peek_without d p more e other = rw more (rw (e, peek_next) (rw other refl))

-- With an empty queue, `PeekNext` says nothing at a shuffle wrap, and otherwise what `Next` plays.
empty_queue-announced :
    (d d' : Draws) (p : Playlist)
    → IsWellFormed p
    → p.queue.items ≡ []
    → next_playable_queued p ≡ none
    → (announced (peek_next d p) ≡ none) ⊎ (announced (peek_next d p) ≡ announced (next d' p))
empty_queue-announced d d' p w q e = elim (empty_cases p.tracks.items) [
  | inl none_left ↦ inl (nothing_announced d p none_left)
  | inr (more, h) ↦ elim (Bool-cases (is_repeat_one p.repeat)) [
    | inl one ↦
        inr (next_repeat_one-announced d p cleared w h one e ∙ rw (played more, one, same) refl)
    | inr other ↦ elim (Bool-cases (at_shuffle_wrap p)) [
      | inl wrap ↦ inl (wrapped more other wrap)
      | inr straight ↦ inr (
          peeked more other straight
          ∙ sym (next_in_order-announced d' d p cleared w h straight)
          ∙ rw (played more, other, same) refl)
    ]
  ]
]
  where
    cleared : Bool
    cleared = not (is_empty p.queue.items)

    same : clear_spent_queue p ≡ p
    same = cleared_same p (ap is_empty q)

    played :
        is_empty p.tracks.items ≡ false
        → next d' p ≡ (
            if is_repeat_one p.repeat
            then next_repeat_one (clear_spent_queue p) cleared
            else next_in_order d' (clear_spent_queue p) cleared)
    played more = next_without d' p more e

    wrapped :
        is_empty p.tracks.items ≡ false
        → is_repeat_one p.repeat ≡ false
        → at_shuffle_wrap p ≡ true
        → announced (peek_next d p) ≡ none
    wrapped more other wrap = rw (peek_without d p more e other, wrap) refl

    peeked :
        is_empty p.tracks.items ≡ false
        → is_repeat_one p.repeat ≡ false
        → at_shuffle_wrap p ≡ false
        → announced (peek_next d p) ≡ announced (peek_in_order d p)
    peeked more other straight = rw (peek_without d p more e other, straight) refl

-- On a well-formed playlist whose queue is empty or holds a playable track: if `PeekNext` announces a
-- track, then `Next` returns and plays that track, whatever it draws.
pub peek_next-next :
    (d d' : Draws) (p : Playlist) (t : Track)
    → IsWellFormed p
    → (p.queue.items ≡ []) ⊎ (is_some (next_playable_queued p) ≡ true)
    → peek_next d p ≡ ok (p, some t)
    → (q : Playlist) × (next d' p ≡ ok (q, some t))
peek_next-next d d' p t w c h =
    let (q, o, done, tells) = has_next-next d' p w in
    let told : announced (peek_next d p) ≡ some t = ap announced h in
    (
      q,
      done
          ∙ ap (λ (x : Option Track). ok (q, x))
              (sym (ap announced done) ∙ sym (agrees told) ∙ told),
    )
  where
    agrees : announced (peek_next d p) ≡ some t → announced (peek_next d p) ≡ announced (next d' p)
    agrees told = elim (Option-cases (next_playable_queued p)) [
      | inr (s, e) ↦ queued-announced d d' p s e
      | inl e ↦ elim c [
        | inr k ↦ absurd (false≢true (sym (ap is_some e) ∙ k))
        | inl k ↦ elim (empty_queue-announced d d' p w k e) [ inl silent ↦ cc | inr same ↦ same ]
      ]
    ]

not_empty : (ts : List Track) → 0 < length ts → is_empty ts ≡ false
not_empty [] h = absurd (omega arith)
not_empty (t ∷ ts) h = refl

repeat_all-not_one : (m : RepeatMode) → is_repeat_all m ≡ true → is_repeat_one m ≡ false
repeat_all-not_one repeat_all h = refl
repeat_all-not_one repeat_off h = refl
repeat_all-not_one repeat_one h = sym h

queued-not_wrap : (p : Playlist) → is_empty p.queue.items ≡ false → at_shuffle_wrap p ≡ false
unfolding at_shuffle_wrap
queued-not_wrap p h = ground arith

peek_in_order-some :
    (d : Draws) (p : Playlist) (a : ℕ)
    → IsWellFormed p
    → 0 < length p.tracks.items
    → is_repeat_all p.repeat ≡ true
    → at_shuffle_wrap p ≡ false
    → is_playable p.tracks.items a ≡ true
    → (t : Track) × (peek_in_order d p ≡ ok (p, some t))
unfolding peek_in_order
peek_in_order-some d p a w h all straight play =
    let (q, r, done, adv) = advance_from_order-Advance d p w h in
    let same : q ≡ p = Advance-unshuffled p q r straight adv in
    let tells : is_some r ≡ has_next_in_order p = Advance-has_next p q r w adv in
    elim (Option-cases r) [
      | inl e ↦ absurd (false≢true (ap is_some (sym e) ∙ tells ∙ has_next_all p a w all play))
      | inr (s, e) ↦
          let o : InOrder q s = Advance-InOrder s e adv in
          let (t, g, v) = is_playable-track q.tracks.items s.1 o.playable in
          (
            t,
            rw (done, peek_in_order)
                (rw (e, peek_in_order) (rw g (ap (λ (x : Playlist). ok (x, some t)) same))),
          )
    ]
  where
    has_next_all :
        (x : Playlist) (b : ℕ)
        → IsWellFormed x
        → is_repeat_all x.repeat ≡ true
        → is_playable x.tracks.items b ≡ true
        → has_next_in_order x ≡ true
    has_next_all x b v on k =
        elim (Bool-cases
          (is_some (first_playable_order_slot x (x.pos + 1) (length x.order.items)))) [
            | inl f ↦ rw f refl
            | inr f ↦ rw (f, on) (playable_somewhere x b v k)
          ]

-- For a well-formed playlist with a playable track, a queue that is not empty and holds unplayable
-- tracks only, and a shuffle wrap once that queue is cleared: `PeekNext` announces a track, though it
-- announces none after the clearing that `Next` begins with, and it changes neither playlist.
pub peek_next_stale :
    (d : Draws) (p : Playlist) (a : ℕ)
    → IsWellFormed p
    → All (λ x. is_playable p.tracks.items x ≡ false) p.queue.items
    → is_empty p.queue.items ≡ false
    → at_shuffle_wrap (clear_spent_queue p) ≡ true
    → is_playable p.tracks.items a ≡ true
    → (t : Track) × (peek_next d p ≡ ok (p, some t))
      × (peek_next d (clear_spent_queue p) ≡ ok (clear_spent_queue p, none))
unfolding next_playable_queued playable_queued
peek_next_stale d p a w u some_queued wrap play =
    let (t₀, g₀, u₀) = is_playable-track p.tracks.items a play in
    let h : 0 < length p.tracks.items = omega (arith, get_elem?-lt p.tracks.items a g₀) in
    let c : Playlist = record p { queue = nil_slice; queue_positions = none } in
    let fresh : clear_spent_queue p ≡ c = cleared_fresh p some_queued in
    let wrap_c : at_shuffle_wrap c ≡ true = subst (λ x. at_shuffle_wrap x ≡ true) fresh wrap in
    let all : is_repeat_all p.repeat ≡ true = (at_shuffle_wrap-shuffle c wrap_c).1 in
    let other : is_repeat_one p.repeat ≡ false = repeat_all-not_one p.repeat all in
    let straight : at_shuffle_wrap p ≡ false = queued-not_wrap p some_queued in
    let e : next_playable_queued p ≡ none = playable_queued-none p.tracks.items p.queue.items u in
    let (t, f) = peek_in_order-some d p a w h all straight play in
    let more : is_empty p.tracks.items ≡ false = not_empty p.tracks.items h in
    (
      t,
      rw (peek_without d p more e other, straight) f,
      subst (λ x. peek_next d x ≡ ok (x, none)) (sym fresh)
          (rw (peek_without d c more refl other, wrap_c) refl),
    )
