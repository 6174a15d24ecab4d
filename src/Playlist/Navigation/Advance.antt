-- ===== src/Playlist/Navigation/Advance.antt =====
-- How `advanceFromOrder` of playlist/playlist.go finds the next slot of a well-formed playlist.
use cliamp.Base.{
  ℕ, ◌+◌, ◌≤◌, ◌<◌, ◌≡◌, refl, sym, ap, subst, ◌⊎◌, inl, inr, true, false, Option, none, some, List,
  ◌∷◌, arith, Bool-cases, Option-cases, length, get_elem?, get_elem?-some, get_elem?-lt,
}
use cliamp.Base.Slices.{Slice, made}
use cliamp.Base.Outcomes.{ok}
use cliamp.Playlist.Track.{Track}
use cliamp.Playlist.State.{Playlist, is_repeat_all}
use cliamp.Playlist.Shuffle.{Draws, fisher_yates, others_from, do_shuffle}
use cliamp.Playlist.Slots.{is_playable, first_playable_order_slot, at_shuffle_wrap}
use cliamp.Playlist.Navigation.{next_shuffle_wrap, advance_from_order}
use cliamp.Base.Permutations.{IsPermutation, IsPermutation-get_elem?}
use cliamp.Playlist.Invariant.{IsWellFormed}
use cliamp.Playlist.Invariant.Order.{pos-lt, do_shuffle-IsWellFormed}
use cliamp.Playlist.Slots.Laws.{
  is_playable-track, IsFirstPlayable, NonePlayable, first_playable_order_slot_lem,
}

-- No track of the playlist is playable.
abbrev AllUnplayable : List Track → Type 0
AllUnplayable tracks = (a : ℕ) → is_playable tracks a ≡ false

-- The order after a shuffle at the wrap: the track that played stands first.
pub record IsReshuffled (p q : Playlist) : Type 0 where
  pub well_formed : IsWellFormed q
  pub frame : q ≡ record p { order = q.order; pos = 0 }
  pub leads : get_elem? q.order.items 0 ≡ get_elem? p.order.items p.pos

-- The slot taken from `p`, and the playlist that it stands in.
pub data Advance (p q : Playlist) (r : Option (ℕ × ℕ)) : Type 0 where
  ahead :
      (s : ℕ × ℕ)
      → r ≡ some s
      → q ≡ p
      → IsFirstPlayable p.tracks.items p.order.items (p.pos + 1) s
      → s.0 < length p.order.items
      → Advance p q r
  wraps :
      (s : ℕ × ℕ)
      → r ≡ some s
      → q ≡ p
      → is_repeat_all p.repeat ≡ true
      → at_shuffle_wrap p ≡ false
      → NonePlayable p.tracks.items p.order.items (p.pos + 1) (length p.order.items)
      → IsFirstPlayable p.tracks.items p.order.items 0 s
      → s.0 < length p.order.items
      → Advance p q r
  reshuffles :
      (s : ℕ × ℕ)
      → r ≡ some s
      → IsReshuffled p q
      → at_shuffle_wrap p ≡ true
      → NonePlayable p.tracks.items p.order.items (p.pos + 1) (length p.order.items)
      → IsFirstPlayable q.tracks.items q.order.items 1 s
        ⊎ ((s.0 ≡ 0)
            × IsFirstPlayable q.tracks.items q.order.items 0 s
            × NonePlayable q.tracks.items q.order.items 1 (length q.order.items))
      → s.0 < length q.order.items
      → Advance p q r
  ends :
      r ≡ none
      → q ≡ p
      → is_repeat_all p.repeat ≡ false
      → NonePlayable p.tracks.items p.order.items (p.pos + 1) (length p.order.items)
      → Advance p q r
  exhausted :
      r ≡ none
      → q ≡ p
      → is_repeat_all p.repeat ≡ true
      → AllUnplayable p.tracks.items
      → Advance p q r

-- If no slot of the order is playable, no track is.
pub NonePlayable-AllUnplayable :
    (tracks : List Track) (order : List ℕ)
    → IsPermutation order (length tracks)
    → NonePlayable tracks order 0 (length order)
    → AllUnplayable tracks
NonePlayable-AllUnplayable tracks order h e a = elim (Bool-cases (is_playable tracks a)) [
  | inr f ↦ f
  | inl f ↦
      let (t, g, u) = is_playable-track tracks a f in
      let (i, l, k) = IsPermutation-get_elem? order (length tracks) a h (get_elem?-lt tracks a g) in
      e i a (omega arith) l k
]

do_shuffle-IsReshuffled :
    (d : Draws) (p : Playlist)
    → IsWellFormed p
    → p.shuffle ≡ true
    → 0 < length p.tracks.items
    → (q : Playlist) × (do_shuffle d p ≡ ok q) × IsReshuffled p q
unfolding do_shuffle
do_shuffle-IsReshuffled d p w on h =
    let (cur, e) = get_elem?-some p.order.items p.pos (pos-lt p w h) in
    let shuffled : Playlist = record p {
      order = made (cur ∷ fisher_yates d (others_from cur 0 (length p.tracks.items)));
      pos = 0;
    } in
    let done : do_shuffle d p ≡ ok shuffled = rw e in
    (
      shuffled,
      done,
      record {
        well_formed = rw done at (do_shuffle-IsWellFormed d p w on h);
        frame = refl;
        leads = sym e;
      },
    )

pub at_shuffle_wrap-shuffle :
    (p : Playlist) → at_shuffle_wrap p ≡ true → (p.shuffle ≡ true) × (is_repeat_all p.repeat ≡ true)
unfolding at_shuffle_wrap
at_shuffle_wrap-shuffle p h = ground arith

ltb_cases : (j k : ℕ) → (j < k) ⊎ (k ≤ j)
ltb_cases j k = omega arith

next_shuffle_wrap-Advance :
    (d : Draws) (p : Playlist)
    → IsWellFormed p
    → 0 < length p.tracks.items
    → at_shuffle_wrap p ≡ true
    → NonePlayable p.tracks.items p.order.items (p.pos + 1) (length p.order.items)
    → (q : Playlist) × (r : Option (ℕ × ℕ)) × (next_shuffle_wrap d p ≡ ok (q, r)) × Advance p q r
unfolding next_shuffle_wrap
next_shuffle_wrap-Advance d p w h wrap spent =
    let (q, done, re) = do_shuffle-IsReshuffled d p w (at_shuffle_wrap-shuffle p wrap).0 h in
    let n : ℕ = length q.order.items in
    elim (Option-cases (first_playable_order_slot q 1 n)) [
      | inr (s, e) ↦
          let f = rw e at (first_playable_order_slot_lem q 1 n) in
          (q, some s, ground arith, reshuffles s refl re wrap spent (inl f.0) f.1)
      | inl e ↦
          let later = rw e at (first_playable_order_slot_lem q 1 n) in
          elim (Option-cases (first_playable_order_slot q 0 1)) [
            | inr (s, f) ↦
                let g = rw f at (first_playable_order_slot_lem q 0 1) in
                (
                  q,
                  some s,
                  ground arith,
                  reshuffles s refl re wrap spent (inr (omega (arith, g.1), g.0, later))
                      (get_elem?-lt q.order.items s.0 g.0.holds),
                )
            | inl f ↦
                let lead = rw f at (first_playable_order_slot_lem q 0 1) in
                (
                  record q { order = p.order; pos = p.pos },
                  none,
                  ground arith,
                  exhausted refl
                      (ap (λ (x : Playlist). record x { order = p.order; pos = p.pos }) re.frame)
                      (at_shuffle_wrap-shuffle p wrap).1 (exhausted_by q re lead later),
                )
          ]
    ]
  where
    exhausted_by :
        (q : Playlist)
        → IsReshuffled p q
        → NonePlayable q.tracks.items q.order.items 0 1
        → NonePlayable q.tracks.items q.order.items 1 (length q.order.items)
        → AllUnplayable p.tracks.items
    exhausted_by q re lead later =
        subst (λ (x : Slice Track). AllUnplayable x.items)
          (ap (λ (x : Playlist). x.tracks) re.frame)
          (NonePlayable-AllUnplayable q.tracks.items q.order.items re.well_formed.sound.permutation
            (λ j a l u g. elim (ltb_cases j 1) [
              | inl v ↦ lead j a l v g
              | inr v ↦ later j a v u g
            ]))

-- On a well-formed playlist with tracks, `advanceFromOrder` returns, and its result is one of the cases
-- of `Advance`, in the first two with the playlist as it was:
--   the first playable slot behind the current one;
--   if there is none, under repeat-all and away from the shuffle wrap, the first playable slot of all;
--   if there is none, at the shuffle wrap, the first playable slot behind slot 0 of an order that is
--     reshuffled with the current track in front, or else slot 0;
--   no slot, with the playlist as it was, because there is none ahead and repeat-all is off, or because
--     repeat-all is on and no track is playable.
pub advance_from_order-Advance :
    (d : Draws) (p : Playlist)
    → IsWellFormed p
    → 0 < length p.tracks.items
    → (q : Playlist) × (r : Option (ℕ × ℕ)) × (advance_from_order d p ≡ ok (q, r)) × Advance p q r
unfolding advance_from_order
advance_from_order-Advance d p w h =
    elim (Option-cases (first_playable_order_slot p (p.pos + 1) n)) [
      | inr (s, e) ↦
          let f = rw e at (first_playable_order_slot_lem p (p.pos + 1) n) in
          (p, some s, rw (e, advance_from_order) refl, ahead s refl refl f.0 f.1)
      | inl e ↦
          let spent = rw e at (first_playable_order_slot_lem p (p.pos + 1) n) in
          elim (Bool-cases (is_repeat_all p.repeat)) [
            | inr off ↦ (p, none, ground arith, ends refl refl off spent)
            | inl all ↦ elim (Bool-cases (at_shuffle_wrap p)) [
              | inl wrap ↦
                  let (q, r, done, a) = next_shuffle_wrap-Advance d p w h wrap spent in
                  (q, r, ground (arith, at_shuffle_wrap-shuffle p wrap), a)
              | inr wrap ↦ elim (Option-cases (first_playable_order_slot p 0 n)) [
                | inr (s, f) ↦
                    let g = rw f at (first_playable_order_slot_lem p 0 n) in
                    (p, some s, ground arith, wraps s refl refl all wrap spent g.0 g.1)
                | inl f ↦ (
                  p,
                  none,
                  ground arith,
                  exhausted refl refl all (
                      NonePlayable-AllUnplayable p.tracks.items p.order.items w.sound.permutation
                        (rw f at (first_playable_order_slot_lem p 0 n))),
                )
              ]
            ]
          ]
    ]
  where
    n : ℕ
    n = length p.order.items
