-- ===== src/Playlist/Navigation/Selection.antt =====
-- `Prev`, `SetIndex` and `ActivateSelected` of playlist/playlist.go keep a playlist well-formed.
use cliamp.Base.{
  ℕ, suc, ◌+◌, ◌<◌, ◌≡◌, refl, subst, inl, inr, Option, none, some, List, [], ◌∷◌, arith, ◌==◌,
  Bool-cases, Option-cases, length, get_elem?, get_elem?-some, get_elem?-lt,
}
use cliamp.Base.Outcomes.{ok}
use cliamp.Base.Int.{ℤ, pos, negsuc}
use cliamp.Playlist.State.{Playlist, is_repeat_all}
use cliamp.Playlist.Slots.{
  is_playable, first_playable_order_slot, last_playable_order_slot, resolve_selected_playable_pos,
}
use cliamp.Playlist.Navigation.{
  prev_to, prev_fallback, prev_wrapped, prev, activate_selected, set_index, find_index, slot_of,
}
use cliamp.Base.Permutations.{IsPermutation-lt}
use cliamp.Playlist.Invariant.{QueuedBelow, IsWellFormed, Returns}
use cliamp.Playlist.Invariant.Order.{pos-lt, bump_if-IsWellFormed}
use cliamp.Playlist.Slots.Laws.{
  is_playable-track, first_playable_order_slot_lem, IsLastPlayable, LastPlayable,
  last_playable_order_slot_lem,
}
use mathlib.Core.Option.{some-injective}
use cliamp.Playlist.Navigation.Safety.{
  InOrder, Keeps, bumped_place-IsWellFormed, empty_cases, placed-IsWellFormed,
}

-- `Prev` to a slot that was found.
prev_to-Keeps :
    (p : Playlist) (s : ℕ × ℕ) (below : ℕ)
    → IsWellFormed p
    → IsLastPlayable p.tracks.items p.order.items below s
    → Returns Keeps (prev_to p s)
unfolding prev_to
prev_to-Keeps p s below w h =
    let (t, g, u) = is_playable-track p.tracks.items s.1 h.playable in
    rw g (bumped_place-IsWellFormed _ p s.0 w (get_elem?-lt p.order.items s.0 h.holds))

prev_fallback-Keeps :
    (p : Playlist) (queued : Option ℕ)
    → IsWellFormed p
    → QueuedBelow (length p.tracks.items) queued
    → 0 < length p.tracks.items
    → Returns Keeps (prev_fallback p queued)
unfolding prev_fallback
prev_fallback-Keeps p none w b h =
    let (i, e) = get_elem?-some p.order.items p.pos (pos-lt p w h) in
    let (t, g) =
      get_elem?-some p.tracks.items i
        (IsPermutation-lt p.order.items (length p.tracks.items) p.pos w.sound.permutation e) in
    rw e (rw g w)
prev_fallback-Keeps p (some i) w b h = let (t, g) = get_elem?-some p.tracks.items i b in rw g w

prev_wrapped-Keeps :
    (p : Playlist) → IsWellFormed p → 0 < length p.tracks.items → Returns Keeps (prev_wrapped p)
unfolding prev_wrapped
prev_wrapped-Keeps p w h = elim (Bool-cases (is_repeat_all p.repeat)) [
  | inr e ↦ rw (e, prev_wrapped) (prev_fallback-Keeps p p.queued_idx w w.sound.queued_below h)
  | inl e ↦
      rw (e, prev_wrapped)
        (found (last_playable_order_slot p (length p.order.items)) _
          (last_playable_order_slot_lem p (length p.order.items)))
]
  where
    found :
        (r : Option (ℕ × ℕ)) (below : ℕ)
        → LastPlayable p.tracks.items p.order.items below r
        → Returns Keeps (elim r [ none ↦ prev_fallback p p.queued_idx | some s ↦ prev_to p s ])
    found none below f = prev_fallback-Keeps p p.queued_idx w w.sound.queued_below h
    found (some s) below f = prev_to-Keeps p s below w f

pub prev-Keeps : (p : Playlist) → IsWellFormed p → Returns Keeps (prev p)
unfolding prev
prev-Keeps p w = elim (empty_cases p.tracks.items) [
  | inl e ↦ rw e w
  | inr (more, h) ↦
      rw more
        (earlier (last_playable_order_slot p p.pos) _ (last_playable_order_slot_lem p p.pos) h)
]
  where
    earlier :
        (r : Option (ℕ × ℕ)) (below : ℕ)
        → LastPlayable p.tracks.items p.order.items below r
        → 0 < length p.tracks.items
        → Returns Keeps (elim r [ none ↦ prev_wrapped p | some s ↦ prev_to p s ])
    earlier none below f h = prev_wrapped-Keeps p w h
    earlier (some s) below f h = prev_to-Keeps p s below w f

-- The slot that `SetIndex` finds holds the track.
find_index-some :
    (idx : ℕ) (xs : List ℕ) (i s : ℕ)
    → find_index idx xs i ≡ some s
    → (m : ℕ) × (s ≡ i + m) × (get_elem? xs m ≡ some idx)
unfolding find_index
find_index-some idx [] i s h = absurd (ground arith)
find_index-some idx (x ∷ xs) i s h = elim (Bool-cases (x == idx)) [
  | inl e ↦ (0, ground arith, ground arith)
  | inr e ↦
      let (m, f, g) = find_index-some idx xs (i + 1) s (ground arith) in (suc m, omega arith, g)
]

slot_of-lt : (i : ℤ) (xs : List ℕ) (s : ℕ) → slot_of i xs ≡ some s → s < length xs
unfolding slot_of
slot_of-lt (pos idx) xs s h =
    let (m, f, g) = find_index-some idx xs 0 s h in omega (arith, get_elem?-lt xs m g)
slot_of-lt (negsuc n) xs s h = absurd (ground arith)

pub set_index-IsWellFormed : (p : Playlist) (i : ℤ) → IsWellFormed p → IsWellFormed (set_index p i)
unfolding set_index
set_index-IsWellFormed p i w = elim (Option-cases (slot_of i p.order.items)) [
  | inl e ↦
      rw (e, set_index)
        (bump_if-IsWellFormed _ _ (placed-IsWellFormed p p.revision p.pos none w w.sound.pos_le tt))
  | inr (s, e) ↦
      rw (e, set_index) (bumped_place-IsWellFormed _ p s w (slot_of-lt i p.order.items s e))
]

FirstPlayable-InOrder :
    (p : Playlist) (from to : ℕ) (s : ℕ × ℕ)
    → first_playable_order_slot p from to ≡ some s
    → InOrder p s
FirstPlayable-InOrder p from to s e =
    let f = rw e at (first_playable_order_slot_lem p from to) in
    record { slot_lt = get_elem?-lt p.order.items s.0 f.0.holds; playable = f.0.playable }

resolve_selected_playable_pos-ok :
    (p : Playlist)
    → IsWellFormed p
    → (r : Option (ℕ × ℕ)) × (resolve_selected_playable_pos p ≡ ok r)
      × ((s : ℕ × ℕ) → r ≡ some s → InOrder p s)
unfolding resolve_selected_playable_pos
resolve_selected_playable_pos-ok p w = elim (empty_cases p.order.items) [
  | inl e ↦ (none, rw e refl, λ s h. absurd (ground arith))
  | inr (more, h) ↦
      let (i, e) =
        get_elem?-some p.order.items p.pos
          (pos-lt p w (omega (arith, w.sound.permutation.length_eq))) in
      elim (Bool-cases (is_playable p.tracks.items i)) [
        | inl f ↦ (
          some (p.pos, i),
          rw (more, e, resolve_selected_playable_pos) (rw (f, resolve_selected_playable_pos) refl),
          λ s g.
              subst (InOrder p) (some-injective _ _ g)
                (record { slot_lt = get_elem?-lt p.order.items p.pos e; playable = f }),
        )
        | inr f ↦
            elim (Option-cases (first_playable_order_slot p (p.pos + 1) (length p.order.items))) [
              | inr (s, g) ↦ (
                some s,
                ground arith,
                λ s' k. subst (InOrder p) (some-injective _ _ k) (FirstPlayable-InOrder p _ _ s g),
              )
              | inl g ↦ elim (Bool-cases (is_repeat_all p.repeat)) [
                | inl k ↦ (
                  first_playable_order_slot p 0 p.pos,
                  ground arith,
                  λ s m. FirstPlayable-InOrder p _ _ s m,
                )
                | inr k ↦ (none, ground arith, λ s m. absurd (ground arith))
              ]
            ]
      ]
]

pub activate_selected-Keeps : (p : Playlist) → IsWellFormed p → Returns Keeps (activate_selected p)
unfolding activate_selected
activate_selected-Keeps p w =
    let (r, done, found) = resolve_selected_playable_pos-ok p w in
    elim (Option-cases r) [
      | inl e ↦ rw (done, activate_selected) (rw (e, activate_selected) w)
      | inr (s, e) ↦
          let o : InOrder p s = found s e in
          let (t, g, u) = is_playable-track p.tracks.items s.1 o.playable in
          rw (done, activate_selected)
            (rw (e, activate_selected) (rw g (bumped_place-IsWellFormed _ p s.0 w o.slot_lt)))
    ]
