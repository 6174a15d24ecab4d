-- ===== src/Playlist/Smart.antt =====
-- playlist/playlist.go: Smart Shuffle.
use cliamp.Base.{
  ℕ, ◌+◌, ◌-◌, true, false, not, ◌||◌, List, [], ◌∷◌, map, leb, if◌then◌else◌, length, drop,
}
use cliamp.Base.Slices.{is_empty}
use cliamp.Base.Outcomes.{Outcome, ok, ◌>>=◌, index}
use cliamp.Base.Int.{pos}
use cliamp.Playlist.Track.{Track}
use cliamp.Playlist.State.{Playlist}
use cliamp.Playlist.Shuffle.{Draws, mix_in, append_tracks}
use cliamp.Playlist.Editing.{remove}

-- `EnableSmart`.
unfoldable pub enable_smart : Playlist → Playlist
enable_smart p = record p { smart = true }

-- The track indices of Smart rows among these entries of the order.
unfoldable pub collect_smart : List Track → List ℕ → Outcome (List ℕ)
collect_smart tracks [] = ok []
collect_smart tracks (idx ∷ order) = do
  t ← index tracks idx
  rest ← collect_smart tracks order
  ok (if t.smart then idx ∷ rest else rest)

-- `p.order[min(p.pos+1, len(p.order)):]`.
abbrev pub upcoming_order : Playlist → List ℕ
upcoming_order p = drop (p.pos + 1) p.order.items

-- `slices.Sort`, by insertion.
pub insert_sorted : ℕ → List ℕ → List ℕ
insert_sorted a [] = a ∷ []
insert_sorted a (x ∷ xs) = let rest = insert_sorted a xs in if leb a x then a ∷ x ∷ xs else x ∷ rest

pub sort : List ℕ → List ℕ
unfolding insert_sorted
sort [] = []
sort (x ∷ xs) = insert_sorted x (sort xs)

-- Removes the tracks at these indices, the last of the list first.
unfoldable pub remove_all : Playlist → List ℕ → Playlist
unfolding remove
remove_all p [] = p
remove_all p (idx ∷ doomed) = (remove (remove_all p doomed) (pos idx)).0

-- `DisableSmart`.
unfoldable pub disable_smart : Playlist → Outcome (Playlist × ℕ)
unfolding collect_smart sort remove_all
disable_smart p = do
  doomed ← collect_smart p.tracks.items (upcoming_order p)
  ok (remove_all (record p { smart = false }) (sort doomed), length doomed)

-- `SmartPending`.
unfoldable pub smart_pending : Playlist → Outcome ℕ
unfolding collect_smart
smart_pending p = do rows ← collect_smart p.tracks.items (upcoming_order p); ok (length rows)

-- `Remaining`.
unfoldable pub remaining : Playlist → ℕ
remaining p = length p.order.items - p.pos - 1

abbrev pub mark_smart : Track → Track
mark_smart t = record t { info = record (t.info) { smart = true } }

-- `AddSmart`. It does not touch the revision.
unfoldable pub add_smart : Draws → List Track → Playlist → Outcome Playlist
add_smart d ts p =
    if not p.shuffle || is_empty ts
    then ok p
    else mix_in d (length p.tracks.items) (append_tracks (map mark_smart ts) p)
