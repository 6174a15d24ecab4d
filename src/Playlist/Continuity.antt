-- ===== src/Playlist/Continuity.antt =====
-- `Move` and `ToggleShuffle` of playlist/playlist.go do not disturb playback: `Current` returns the
-- same track behind them.
use cliamp.Base.{
  not, ℕ, zero, suc, ◌<◌, ◌≡◌, refl, sym, ap, ◌∙◌, ◌≢◌, inl, inr, Bool, true, false, Option, none,
  some, List, [], ◌∷◌, map, arith, ◌==◌, if◌then◌else◌, Bool-cases, Option-cases, length, get_elem?,
  set, range, length-set, length-map, get_elem?-some, get_elem?-lt, get_elem?-set,
  get_elem?-range_from,
}
use cliamp.Playlist.Shuffle.{Draws, do_shuffle, fisher_yates, others_from}
use cliamp.Base.Slices.{made, with_items, is_empty}
use cliamp.Base.Outcomes.{ok, ◌>>=◌}
use cliamp.Base.Int.{ℤ, index_in, index_in-lt}
use cliamp.Playlist.Track.{Track}
use cliamp.Playlist.State.{Playlist, bump}
use cliamp.Playlist.Slots.{current_order_track_index, current_track_index}
use cliamp.Playlist.Editing.{
  toggle_shuffle, swap_ref, move, swap_all, straighten, move_within, swap_tracks,
}
use cliamp.Playlist.Views.{current}
use cliamp.Base.Permutations.{IsPermutation-lt}
use cliamp.Playlist.Invariant.{IsWellFormed}
use cliamp.Playlist.Invariant.Order.{pos-lt}
use cliamp.Playlist.Invariant.Edits.{swap_ref-lt}

abbrev current_index : Playlist → Option ℕ
current_index p = elim p.queued_idx [ some i ↦ some i | none ↦ get_elem? p.order.items p.pos ]

-- What `Current` returned, taken apart.
record IsCurrent (p : Playlist) (t : Track) (i : ℕ) : Type 0 where
  order_ne : is_empty p.order.items ≡ false
  tracks_ne : is_empty p.tracks.items ≡ false
  index_eq : current_index p ≡ some i
  track_eq : get_elem? p.tracks.items i ≡ some t

current-IsCurrent :
    (p : Playlist) (t : Track) (i : ℕ) → current p ≡ ok (some (t, i)) → IsCurrent p t i
unfolding current current_track_index current_order_track_index
current-IsCurrent p t i h = record {
  order_ne = ground arith;
  tracks_ne = ground arith;
  index_eq = ground arith;
  track_eq = ground arith;
}

IsCurrent-current :
    (p : Playlist) (t : Track) (i : ℕ) → IsCurrent p t i → current p ≡ ok (some (t, i))
unfolding current current_track_index current_order_track_index
IsCurrent-current p t i h = ground (arith, h.order_ne, h.tracks_ne, h.index_eq, h.track_eq)

get_elem?-swap_tracks :
    (ts : List Track) (i j a : ℕ)
    → i < length ts
    → j < length ts
    → i ≢ j
    → get_elem? (swap_tracks ts i j) (swap_ref i j a) ≡ get_elem? ts a
unfolding swap_tracks swap_ref
get_elem?-swap_tracks ts i j a il jl ne =
    let (x, e) = get_elem?-some ts i il in
    let (y, f) = get_elem?-some ts j jl in
    let l : j < length (set ts i y) = omega (arith, length-set ts i y) in
    rw (e, swap_tracks)
      (rw (f, swap_tracks)
        (get_elem?-set (set ts i y) j (swap_ref i j a) x l
          ∙ ground (
            arith,
            e,
            f,
            get_elem?-set ts i (swap_ref i j a) y il,
            get_elem?-set ts i i y il,
            get_elem?-set ts i a y il,
          )))

is_empty-get_elem? {ℓ} :
    {A : Type ℓ} (xs : List A) (i : ℕ) {a : A} → get_elem? xs i ≡ some a → is_empty xs ≡ false
is_empty-get_elem? [] i h = absurd (ground arith)
is_empty-get_elem? (x ∷ xs) i h = refl

get_elem?-map :
    (f : ℕ → ℕ) (xs : List ℕ) (i : ℕ) (a : ℕ)
    → get_elem? xs i ≡ some a
    → get_elem? (map f xs) i ≡ some (f a)
get_elem?-map f [] i a h = absurd (ground arith)
get_elem?-map f (x ∷ xs) zero a h = ground arith
get_elem?-map f (x ∷ xs) (suc i) a h = get_elem?-map f xs i a h

is_empty-map : (f : ℕ → ℕ) (xs : List ℕ) → is_empty (map f xs) ≡ is_empty xs
is_empty-map f [] = refl
is_empty-map f (x ∷ xs) = refl

swap_all-IsCurrent :
    (p : Playlist) (i j : ℕ) (t : Track) (k : ℕ)
    → i < length p.tracks.items
    → j < length p.tracks.items
    → i ≢ j
    → IsCurrent p t k
    → IsCurrent (swap_all p i j) t (swap_ref i j k)
unfolding swap_all
swap_all-IsCurrent p i j t k il jl ne c =
    let same = get_elem?-swap_tracks p.tracks.items i j k il jl ne ∙ c.track_eq in
    record {
      order_ne = is_empty-map (swap_ref i j) p.order.items ∙ c.order_ne;
      tracks_ne = is_empty-get_elem? (swap_tracks p.tracks.items i j) (swap_ref i j k) same;
      index_eq = from_queue p.queued_idx c.index_eq;
      track_eq = same;
    }
  where
    from_queue :
        (o : Option ℕ)
        → elim o as (λ x. Option ℕ) [ some a ↦ some a | none ↦ get_elem? p.order.items p.pos ]
          ≡ some k
        → elim (elim o as (λ x. Option ℕ) [ none ↦ none | some a ↦ some (swap_ref i j a) ])
            as (λ x. Option ℕ) [
              | some a ↦ some a
              | none ↦ get_elem? (map (swap_ref i j) p.order.items) p.pos
            ]
          ≡ some (swap_ref i j k)
    from_queue none h = get_elem?-map (swap_ref i j) p.order.items p.pos k h
    from_queue (some a) h = cc h

bump-IsCurrent : (p : Playlist) (t : Track) (k : ℕ) → IsCurrent p t k → IsCurrent (bump p) t k
unfolding bump
bump-IsCurrent p t k c = record {
  order_ne = c.order_ne;
  tracks_ne = c.tracks_ne;
  index_eq = c.index_eq;
  track_eq = c.track_eq;
}

straighten-IsCurrent :
    (p : Playlist) (t : Track) (k cur : ℕ)
    → get_elem? p.order.items p.pos ≡ some cur
    → cur < length p.order.items
    → IsCurrent p t k
    → (q : Playlist) × (straighten p ≡ ok q) × IsCurrent q t k
unfolding straighten
straighten-IsCurrent p t k cur e l c =
    let same : get_elem? (range (length p.order.items)) cur ≡ some cur =
      get_elem?-range_from 0 (length p.order.items) cur l ∙ ap some (omega arith) in
    (
      record p { order = with_items p.order (range (length p.order.items)); pos = cur },
      rw e refl,
      record {
        order_ne = is_empty-get_elem? (range (length p.order.items)) cur same;
        tracks_ne = c.tracks_ne;
        index_eq = from_queue p.queued_idx same c.index_eq;
        track_eq = c.track_eq;
      },
    )
  where
    from_queue :
        (o : Option ℕ)
        → get_elem? (range (length p.order.items)) cur ≡ some cur
        → elim o as (λ x. Option ℕ) [ some a ↦ some a | none ↦ get_elem? p.order.items p.pos ]
          ≡ some k
        → elim o as (λ x. Option ℕ) [
          | some a ↦ some a
          | none ↦ get_elem? (range (length p.order.items)) cur
        ]
          ≡ some k
    from_queue none same h = same ∙ sym e ∙ h
    from_queue (some a) same h = h

move_within-IsCurrent :
    (p : Playlist) (i j : ℕ) (t : Track) (k : ℕ)
    → IsWellFormed p
    → i < length p.tracks.items
    → j < length p.tracks.items
    → i ≢ j
    → IsCurrent p t k
    → (q : Playlist) × (move_within p i j ≡ ok q) × IsCurrent q t (swap_ref i j k)
unfolding move_within swap_all
move_within-IsCurrent p i j t k w il jl ne c =
    let s : Playlist = swap_all p i j in
    let cs : IsCurrent s t (swap_ref i j k) = swap_all-IsCurrent p i j t k il jl ne c in
    let (a, e) = get_elem?-some p.order.items p.pos (pos-lt p w (omega (arith, il))) in
    let moved : get_elem? s.order.items p.pos ≡ some (swap_ref i j a) =
      get_elem?-map (swap_ref i j) p.order.items p.pos a e in
    let a_lt : a < length p.tracks.items =
      IsPermutation-lt p.order.items _ p.pos w.sound.permutation e in
    let low : swap_ref i j a < length s.order.items = omega (
      arith,
      swap_ref-lt i j a (length p.tracks.items) il jl a_lt,
      length-map (swap_ref i j) p.order.items,
      w.sound.permutation.length_eq,
    ) in
    elim (Bool-cases p.shuffle) [
      | inl b ↦ (bump s, chosen p.shuffle b, bump-IsCurrent s t (swap_ref i j k) cs)
      | inr b ↦
          let (q, f, cq) =
            straighten-IsCurrent s t (swap_ref i j k) (swap_ref i j a) moved low cs in
          (bump q, straightened p.shuffle q b f, bump-IsCurrent q t (swap_ref i j k) cq)
    ]
  where
    chosen :
        (b : Bool)
        → b ≡ true
        → ((if b then ok (swap_all p i j) else straighten (swap_all p i j)) >>= (λ q. ok (bump q)))
          ≡ ok (bump (swap_all p i j))
    chosen true h = refl
    chosen false h = cc

    straightened :
        (b : Bool) (q : Playlist)
        → b ≡ false
        → straighten (swap_all p i j) ≡ ok q
        → ((if b then ok (swap_all p i j) else straighten (swap_all p i j)) >>= (λ r. ok (bump r)))
          ≡ ok (bump q)
    straightened true q h f = cc
    straightened false q h f = rw f refl

-- On a well-formed playlist whose `Current` returns a track, `Move` returns, whatever its arguments, and
-- `Current` returns the same track afterwards, at some index.
pub move-current :
    (p : Playlist) (from to : ℤ) (t : Track) (k : ℕ)
    → IsWellFormed p
    → current p ≡ ok (some (t, k))
    → (r : Playlist × Bool) × (l : ℕ) × (move p from to ≡ ok r) × (current r.0 ≡ ok (some (t, l)))
unfolding move
move-current p from to t k w h = elim (Option-cases (index_in from (length p.tracks.items))) [
  | inl e ↦ ((p, false), k, rw (e, move) refl, h)
  | inr (i, e) ↦ elim (Option-cases (index_in to (length p.tracks.items))) [
    | inl f ↦ ((p, false), k, rw (e, move) (rw (f, move) refl), h)
    | inr (j, f) ↦ elim (Bool-cases (i == j)) [
      | inl g ↦ ((p, false), k, rw (e, move) (rw (f, move) (rw g refl)), h)
      | inr g ↦
          let (q, done, c) =
            move_within-IsCurrent p i j t k w (index_in-lt from _ e) (index_in-lt to _ f)
              (ground arith) (current-IsCurrent p t k h) in
          (
            (q, true),
            swap_ref i j k,
            rw (e, move) (rw (f, move) (rw g (rw (done) refl))),
            IsCurrent-current q t (swap_ref i j k) c,
          )
    ]
  ]
]

if-true {ℓ} : {A : Type ℓ} (b : Bool) (x y : A) → b ≡ true → (if b then x else y) ≡ x
if-true b x y h = rw h refl

if-false {ℓ} : {A : Type ℓ} (b : Bool) (x y : A) → b ≡ false → (if b then x else y) ≡ y
if-false b x y h = rw h refl

-- A new order and position that hold the same track index as before.
reordered-IsCurrent :
    (p q : Playlist) (t : Track) (k cur : ℕ)
    → q.tracks ≡ p.tracks
    → q.queued_idx ≡ p.queued_idx
    → get_elem? p.order.items p.pos ≡ some cur
    → get_elem? q.order.items q.pos ≡ some cur
    → IsCurrent p t k
    → IsCurrent q t k
reordered-IsCurrent p q t k cur tracks queued e f c = record {
  order_ne = is_empty-get_elem? q.order.items q.pos f;
  tracks_ne = ap (λ ts. is_empty ts.items) tracks ∙ c.tracks_ne;
  index_eq = from_queue p.queued_idx q.queued_idx queued c.index_eq;
  track_eq = ap (λ ts. get_elem? ts.items k) tracks ∙ c.track_eq;
}
  where
    from_queue :
        (o o' : Option ℕ)
        → o' ≡ o
        → elim o as (λ x. Option ℕ) [ some a ↦ some a | none ↦ get_elem? p.order.items p.pos ]
          ≡ some k
        → elim o' as (λ x. Option ℕ) [ some a ↦ some a | none ↦ get_elem? q.order.items q.pos ]
          ≡ some k
    from_queue none none i h = f ∙ sym e ∙ h
    from_queue none (some a) i h = cc i
    from_queue (some a) none i h = cc i
    from_queue (some a) (some a') i h = cc (i, h)

-- On a well-formed playlist whose `Current` returns a track, `ToggleShuffle` returns and inverts the
-- mode, and `Current` returns the same track at the same index afterwards.
pub toggle_shuffle-current :
    (d : Draws) (p : Playlist) (t : Track) (k : ℕ)
    → IsWellFormed p
    → current p ≡ ok (some (t, k))
    → (q : Playlist) × (toggle_shuffle d p ≡ ok q)
      × (q.shuffle ≡ not p.shuffle)
      × (current q ≡ ok (some (t, k)))
unfolding toggle_shuffle do_shuffle bump
toggle_shuffle-current d p t k w h =
    let c : IsCurrent p t k = current-IsCurrent p t k h in
    let n_pos : 0 < length p.tracks.items =
      omega (arith, get_elem?-lt p.tracks.items k c.track_eq) in
    let (cur, e) = get_elem?-some p.order.items p.pos (pos-lt p w n_pos) in
    let low : cur < length p.tracks.items =
      IsPermutation-lt p.order.items _ p.pos w.sound.permutation e in
    let same : get_elem? (range (length p.tracks.items)) cur ≡ some cur =
      get_elem?-range_from 0 (length p.tracks.items) cur low ∙ ap some (omega arith) in
    let on : Playlist = bump (record p {
      shuffle = not p.shuffle;
      order = made (cur ∷ fisher_yates d (others_from cur 0 (length p.tracks.items)));
      pos = 0;
    }) in
    let off : Playlist = bump (record p {
      shuffle = not p.shuffle;
      order = made (range (length p.tracks.items));
      pos = cur;
    }) in
    elim (Bool-cases (not p.shuffle)) [
      | inl b ↦ (
        on,
        if-false (is_empty p.tracks.items) _ _ c.tracks_ne
            ∙ if-true (not p.shuffle) _ _ b
            ∙ rw e refl,
        refl,
        IsCurrent-current on t k (reordered-IsCurrent p on t k cur refl refl e refl c),
      )
      | inr b ↦ (
        off,
        if-false (is_empty p.tracks.items) _ _ c.tracks_ne
            ∙ if-false (not p.shuffle) _ _ b
            ∙ rw e refl,
        refl,
        IsCurrent-current off t k (reordered-IsCurrent p off t k cur refl refl e same c),
      )
    ]
