-- ===== src/Playlist/Shuffle.antt =====
-- playlist/playlist.go: `doShuffle`, the Fisher-Yates loops of `Add` and `AddSmart`, and the mixing
-- of appended tracks into the upcoming part of the play order.
pub mod Laws
use cliamp.Base.{
  ℕ, zero, suc, ◌+◌, ◌-◌, ◌≤◌, none, some, List, [], ◌∷◌, ◌++◌, leb, ◌==◌, if◌then◌else◌, length,
  get_elem?, set, take, drop, range_from,
}
use cliamp.Base.Slices.{made, with_items, append_items}
use cliamp.Base.Outcomes.{Outcome, ok, ◌>>=◌, index}
use cliamp.Playlist.Track.{Track}
use cliamp.Playlist.State.{Playlist}

-- The draws of one shuffle: at loop index `i` the code calls `rand.Intn(i + 1)` once, which returns
-- a number from 0 to `i`.
pub record Draws : Type 0 where
  pub pick : ℕ → ℕ
  pub pick_le : (i : ℕ) → pick i ≤ i

-- `xs[i], xs[j] = xs[j], xs[i]`, within the list.
unfoldable pub swap : List ℕ → ℕ → ℕ → List ℕ
swap xs i j = elim (get_elem? xs i) [
  | none ↦ xs
  | some a ↦ elim (get_elem? xs j) [ none ↦ xs | some b ↦ set (set xs i b) j a ]
]

-- `for i := ...; i > 0; i-- { j := rand.Intn(i + 1); swap }`, from index `i` down.
pub shuffle_down : Draws → ℕ → List ℕ → List ℕ
unfolding swap
shuffle_down d zero xs = xs
shuffle_down d (suc i) xs = shuffle_down d i (swap xs (suc i) (d.pick (suc i)))

pub fisher_yates : Draws → List ℕ → List ℕ
unfolding shuffle_down
fisher_yates d xs = shuffle_down d (length xs - 1) xs

-- `for i := range n { if i != cur { others = append(others, i) } }`, from `i` on for `k` rounds.
pub others_from : ℕ → ℕ → ℕ → List ℕ
others_from cur i zero = []
others_from cur i (suc k) =
    let rest = others_from cur (i + 1) k in if i == cur then rest else i ∷ rest

-- `doShuffle`: the current track first, the others in random order behind it.
unfoldable pub do_shuffle : Draws → Playlist → Outcome Playlist
unfolding fisher_yates others_from
do_shuffle d p = do
  cur ← index p.order.items p.pos
  ok (record p {
    order = made (cur ∷ fisher_yates d (others_from cur 0 (length p.tracks.items)));
    pos = 0;
  })

-- The tail of `order` behind `pos` shuffled in place.
pub shuffle_tail : Draws → ℕ → List ℕ → List ℕ
unfolding fisher_yates
shuffle_tail d pos order = take (pos + 1) order ++ fisher_yates d (drop (pos + 1) order)

-- What `Add` and `AddSmart` do in shuffle mode once the new tracks, which begin at index `start`,
-- stand in `tracks` and in `order`. (`pos < 0` cannot occur.)
unfoldable pub mix_in : Draws → ℕ → Playlist → Outcome Playlist
unfolding do_shuffle shuffle_tail
mix_in d start p =
    if start == 0
    then do_shuffle d (record p { pos = 0 })
    else if leb (length p.order.items) p.pos
    then do_shuffle d (record p { pos = 0 })
    else ok (record p { order = with_items p.order (shuffle_tail d p.pos p.order.items) })

-- `p.tracks = append(p.tracks, tracks...)`, and the new indices appended to `p.order`.
unfoldable pub append_tracks : List Track → Playlist → Playlist
append_tracks ts p = record p {
  tracks = append_items p.tracks ts;
  order = append_items p.order (range_from (length p.tracks.items) (length ts));
}
