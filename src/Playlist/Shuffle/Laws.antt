-- ===== src/Playlist/Shuffle/Laws.antt =====
-- The shuffles of playlist/playlist.go rearrange the play order and lose no track.
use cliamp.Base.{
  ℕ, zero, suc, ◌+◌, ◌-◌, ◌<◌, ◌≡◌, refl, ap, ◌∙◌, inl, inr, ◌&&◌, some, List, ◌∷◌, arith, ltb, leb,
  ◌==◌, if◌then◌else◌, Option-cases, length, get_elem?, set, take, drop, range_from, length-append,
  length-set, get_elem?-lt, get_elem?-set, take-append-drop,
}
use cliamp.Base.Counts.{count, count-append, count-set, count-range_from}
use cliamp.Base.Slices.{made}
use cliamp.Base.Outcomes.{ok}
use cliamp.Playlist.State.{Playlist}
use cliamp.Playlist.Shuffle.{
  Draws, swap, shuffle_down, fisher_yates, others_from, shuffle_tail, do_shuffle,
}
use cliamp.Base.Permutations.{IsPermutation, IsPermutation-of_counts}

pub length-swap : (xs : List ℕ) (i j : ℕ) → length (swap xs i j) ≡ length xs
unfolding swap
length-swap xs i j = elim (Option-cases (get_elem? xs i)) [
  | inl e ↦ rw (e, swap) refl
  | inr (a, e) ↦ elim (Option-cases (get_elem? xs j)) [
    | inl f ↦ rw (e, swap) (rw (f, swap) refl)
    | inr (b, f) ↦ ground (arith, length-set xs i b, length-set (set xs i b) j a)
  ]
]

pub count-swap : (x : ℕ) (xs : List ℕ) (i j : ℕ) → count x (swap xs i j) ≡ count x xs
unfolding swap
count-swap x xs i j = elim (Option-cases (get_elem? xs i)) [
  | inl e ↦ rw (e, swap) refl
  | inr (a, e) ↦ elim (Option-cases (get_elem? xs j)) [
    | inl f ↦ rw (e, swap) (rw (f, swap) refl)
    | inr (b, f) ↦
        let g : get_elem? (set xs i b) j ≡ some b =
          ground (arith, get_elem?-set xs i j b (get_elem?-lt xs i e)) in
        rw (e, swap)
          (rw (f, swap) (omega (arith, count-set x xs i b e, count-set x (set xs i b) j a g)))
  ]
]

shuffle_down-counts :
    (d : Draws) (x i : ℕ) (xs : List ℕ) → count x (shuffle_down d i xs) ≡ count x xs
unfolding shuffle_down
shuffle_down-counts d x zero xs = refl
shuffle_down-counts d x (suc i) xs =
    shuffle_down-counts d x i _ ∙ count-swap x xs (suc i) (d.pick (suc i))

length-shuffle_down : (d : Draws) (i : ℕ) (xs : List ℕ) → length (shuffle_down d i xs) ≡ length xs
unfolding shuffle_down
length-shuffle_down d zero xs = refl
length-shuffle_down d (suc i) xs =
    length-shuffle_down d i _ ∙ length-swap xs (suc i) (d.pick (suc i))

pub fisher_yates-counts :
    (d : Draws) (x : ℕ) (xs : List ℕ) → count x (fisher_yates d xs) ≡ count x xs
unfolding fisher_yates
fisher_yates-counts d x xs = shuffle_down-counts d x (length xs - 1) xs

pub length-fisher_yates : (d : Draws) (xs : List ℕ) → length (fisher_yates d xs) ≡ length xs
unfolding fisher_yates
length-fisher_yates d xs = length-shuffle_down d (length xs - 1) xs

pub count-others_from :
    (a cur i k : ℕ)
    → count a (others_from cur i k) ≡ (if a == cur then 0 else count a (range_from i k))
unfolding others_from
count-others_from a cur i zero = ground arith
count-others_from a cur i (suc k) = ground (arith, count-others_from a cur (i + 1) k)

pub length-others_from :
    (cur i k : ℕ)
    → length (others_from cur i k) + (if leb i cur && ltb cur (i + k) then 1 else 0) ≡ k
unfolding others_from
length-others_from cur i zero = ground arith
length-others_from cur i (suc k) = ground (arith, length-others_from cur (i + 1) k)

-- The order that `doShuffle` makes, the track `cur` below `n` and then the shuffled others, holds each
-- of the indices below `n` once.
pub shuffled-IsPermutation :
    (d : Draws) (cur n : ℕ) → cur < n → IsPermutation (cur ∷ fisher_yates d (others_from cur 0 n)) n
shuffled-IsPermutation d cur n h = record {
  length_eq =
      ground (arith, length-fisher_yates d (others_from cur 0 n), length-others_from cur 0 n);
  counts = λ a. ground (
    arith,
    fisher_yates-counts d a (others_from cur 0 n),
    count-others_from a cur 0 n,
    count-range_from a 0 n,
  );
}

-- `doShuffle` on a playlist whose current slot holds an existing track returns, and changes only the play
-- order and the position: the position is 0, the same track stands there, and the new order holds each
-- index of a track once.
pub do_shuffle-IsPermutation :
    (d : Draws) (p : Playlist) (cur : ℕ)
    → get_elem? p.order.items p.pos ≡ some cur
    → cur < length p.tracks.items
    → (q : Playlist) × (do_shuffle d p ≡ ok q)
      × (q ≡ record p { order = q.order; pos = 0 })
      × (get_elem? q.order.items q.pos ≡ some cur)
      × IsPermutation q.order.items (length q.tracks.items)
unfolding do_shuffle
do_shuffle-IsPermutation d p cur e h =
    let order : List ℕ = cur ∷ fisher_yates d (others_from cur 0 (length p.tracks.items)) in
    (
      record p { order = made order; pos = 0 },
      rw e refl,
      refl,
      refl,
      shuffled-IsPermutation d cur (length p.tracks.items) h,
    )

pub shuffle_tail-counts :
    (d : Draws) (position a : ℕ) (xs : List ℕ) → count a (shuffle_tail d position xs) ≡ count a xs
unfolding shuffle_tail
shuffle_tail-counts d position a xs = omega (
  arith,
  count-append a (take (position + 1) xs) (fisher_yates d (drop (position + 1) xs)),
  fisher_yates-counts d a (drop (position + 1) xs),
  count-append a (take (position + 1) xs) (drop (position + 1) xs),
  ap (count a) (take-append-drop (position + 1) xs),
)

pub length-shuffle_tail :
    (d : Draws) (position : ℕ) (xs : List ℕ) → length (shuffle_tail d position xs) ≡ length xs
unfolding shuffle_tail
length-shuffle_tail d position xs = omega (
  arith,
  length-append (take (position + 1) xs) (fisher_yates d (drop (position + 1) xs)),
  length-fisher_yates d (drop (position + 1) xs),
  length-append (take (position + 1) xs) (drop (position + 1) xs),
  ap length (take-append-drop (position + 1) xs),
)

-- An order that holds every track once still does after the shuffle of the part behind `position`.
pub shuffle_tail-IsPermutation :
    (d : Draws) (position n : ℕ) (xs : List ℕ)
    → IsPermutation xs n
    → IsPermutation (shuffle_tail d position xs) n
shuffle_tail-IsPermutation d position n xs h =
    IsPermutation-of_counts xs (shuffle_tail d position xs) n (length-shuffle_tail d position xs)
      (λ a. shuffle_tail-counts d position a xs) h
