-- ===== src/Playlist/Navigation/Finds.antt =====
-- Whether a search of the play order finds a slot.
use cliamp.Base.{
  ℕ, ◌+◌, ◌<◌, ◌≡◌, refl, sym, ap, subst, ◌∙◌, ◌⊎◌, inl, inr, Bool, true, false, not, Option,
  if◌then◌else◌, Option-cases, length,
}
use cliamp.Base.Slices.{Slice}
use cliamp.Playlist.Track.{Track}
use cliamp.Playlist.State.{Playlist, is_repeat_all}
use cliamp.Playlist.Slots.{is_playable, first_playable_order_slot, is_some}
use cliamp.Playlist.Invariant.{IsWellFormed}
use mathlib.Core.Bool.{false≢true}
use cliamp.Playlist.Slots.Laws.{IsFirstPlayable, NonePlayable, first_playable_order_slot_lem}
use cliamp.Playlist.Navigation.Advance.{
  IsReshuffled, Advance, ahead, wraps, reshuffles, ends, exhausted, NonePlayable-AllUnplayable,
  at_shuffle_wrap-shuffle,
}

FirstPlayable-is_some :
    (p : Playlist) (from to : ℕ) (s : ℕ × ℕ)
    → IsFirstPlayable p.tracks.items p.order.items from s
    → s.0 < to
    → is_some (first_playable_order_slot p from to) ≡ true
FirstPlayable-is_some p from to s f l = elim (Option-cases (first_playable_order_slot p from to)) [
  | inr (s', e) ↦ rw e refl
  | inl e ↦ absurd (
      false≢true (
        sym (rw e at (first_playable_order_slot_lem p from to) s.0 s.1 f.from_le l f.holds)
        ∙ f.playable))
]

NonePlayable-is_some :
    (p : Playlist) (from to : ℕ)
    → NonePlayable p.tracks.items p.order.items from to
    → is_some (first_playable_order_slot p from to) ≡ false
NonePlayable-is_some p from to f = elim (Option-cases (first_playable_order_slot p from to)) [
  | inl e ↦ rw e refl
  | inr (s, e) ↦
      let (g, l) = rw e at (first_playable_order_slot_lem p from to) in
      absurd (false≢true (sym (f s.0 s.1 g.from_le l g.holds) ∙ g.playable))
]

-- The last tests of `HasNext`.
abbrev pub has_next_in_order : Playlist → Bool
has_next_in_order p =
    if is_some (first_playable_order_slot p (p.pos + 1) (length p.order.items))
    then true
    else if not (is_repeat_all p.repeat)
    then false
    else is_some (first_playable_order_slot p 0 (length p.order.items))

-- If some track is playable, some slot of the order is.
pub playable_somewhere :
    (p : Playlist) (a : ℕ)
    → IsWellFormed p
    → is_playable p.tracks.items a ≡ true
    → is_some (first_playable_order_slot p 0 (length p.order.items)) ≡ true
playable_somewhere p a w h =
    elim (Option-cases (first_playable_order_slot p 0 (length p.order.items))) [
      | inr (s, e) ↦ rw e refl
      | inl e ↦ absurd (
          false≢true (
            sym (
              NonePlayable-AllUnplayable p.tracks.items p.order.items w.sound.permutation
                (rw e at (first_playable_order_slot_lem p 0 (length p.order.items))) a)
            ∙ h))
    ]

IsReshuffled-tracks : {p q : Playlist} → IsReshuffled p q → q.tracks ≡ p.tracks
IsReshuffled-tracks re = ap (λ (x : Playlist). x.tracks) re.frame

reshuffled_playable :
    (p q : Playlist) (a : ℕ)
    → IsReshuffled p q
    → is_playable q.tracks.items a ≡ true
    → is_playable p.tracks.items a ≡ true
reshuffled_playable p q a re h =
    subst (λ (x : Slice Track). is_playable x.items a ≡ true) (IsReshuffled-tracks re) h

pub Advance-has_next :
    (p q : Playlist) (r : Option (ℕ × ℕ))
    → IsWellFormed p
    → Advance p q r
    → is_some r ≡ has_next_in_order p
Advance-has_next p q r w (ahead s e f g l) =
    rw (e, FirstPlayable-is_some p (p.pos + 1) (length p.order.items) s g l) refl
Advance-has_next p q r w (wraps s e f all h spent g l) =
    rw
      (
        e,
        NonePlayable-is_some p (p.pos + 1) (length p.order.items) spent,
        all,
        FirstPlayable-is_some p 0 (length p.order.items) s g l,
      )
      refl
Advance-has_next p q r w (reshuffles s e re wrap spent g l) =
    rw
      (
        e,
        NonePlayable-is_some p (p.pos + 1) (length p.order.items) spent,
        (at_shuffle_wrap-shuffle p wrap).1,
        playable_somewhere p s.1 w (reshuffled_playable p q s.1 re (found_playable g)),
      )
      refl
  where
    found_playable :
        IsFirstPlayable q.tracks.items q.order.items 1 s
          ⊎ ((s.0 ≡ 0)
              × IsFirstPlayable q.tracks.items q.order.items 0 s
              × NonePlayable q.tracks.items q.order.items 1 (length q.order.items))
        → is_playable q.tracks.items s.1 ≡ true
    found_playable (inl f) = f.playable
    found_playable (inr f) = f.1.playable
Advance-has_next p q r w (ends e f off spent) =
    rw (e, NonePlayable-is_some p (p.pos + 1) (length p.order.items) spent, off) refl
Advance-has_next p q r w (exhausted e f all none_left) =
    rw
      (
        e,
        NonePlayable-is_some p (p.pos + 1) (length p.order.items) (λ j a l u g. none_left a),
        all,
        NonePlayable-is_some p 0 (length p.order.items) (λ j a l u g. none_left a),
      )
      refl
