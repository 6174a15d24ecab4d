-- ===== src/Favorites.antt =====
-- favorites/favorites.go: the list of favorite tracks, stored as history/history.go stores its own,
-- and the merge of an imported list. The file and the disk are those of History; what it lists is
-- not deduplicated on a read. The `played_at` of an entry is its `FavoritedAt`.
pub mod Membership
use cliamp.Base.{
  ℕ, zero, suc, ◌+◌, ◌-◌, Bool, true, false, not, ◌||◌, Option, none, some, List, [], ◌∷◌, ◌++◌,
  map, ◌==◌, if◌then◌else◌, length,
}
use cliamp.Playlist.Track.{Track}
use cliamp.History.{
  Entry, File, missing, unreadable, holds, Failure, lock_failed, load_failed, write_failed, Disk,
  Change, path_of, seen_in, has_path, save_locked, take_out,
}
use Prim.Native.String.{String}

-- `loadLocked`, with `none` for an error.
unfoldable pub load_favorites : File → Option (List Entry)
load_favorites missing = some []
load_favorites unreadable = none
load_favorites (holds entries) = some entries

-- `Toggle`: whether the track is a favorite afterwards, as the code reports it, with the change.
pub toggle : (String → Bool) → Disk → Track → ℕ → File → Bool × Change
unfolding load_favorites save_locked take_out
toggle is_blank disk t now file =
    if is_blank t.path
    then (false, (file, none))
    else if not disk.locks
    then (false, (file, some lock_failed))
    else elim (load_favorites file) [
      | none ↦ (false, (file, some load_failed))
      | some entries ↦ elim (take_out t.path entries) [
        | some r ↦ (false, save_locked disk r.1 file)
        | none ↦ (true, save_locked disk (record { track = t; played_at = now } ∷ entries) file)
      ]
    ]

-- The loop of `Import`, over the tracks that are left, with the paths of the `seen` map: the entries
-- that it leaves.
import_loop : (String → Bool) → ℕ → List String → List Entry → List Track → List Entry
import_loop is_blank now seen entries [] = entries
import_loop is_blank now seen entries (t ∷ ts) =
    let skip = import_loop is_blank now seen entries ts in
    let keep =
      import_loop is_blank now (t.path ∷ seen)
        (entries ++ record { track = t; played_at = now } ∷ []) ts in
    if is_blank t.path || seen_in t.path seen then skip else keep

-- The same from the entries of the file, whose paths have been seen.
pub import_from : (String → Bool) → ℕ → List Entry → List Track → List Entry
unfolding import_loop
import_from is_blank now entries ts = import_loop is_blank now (map path_of entries) entries ts

-- `Import`: the number of tracks added, as the code reports it, with the change.
unfoldable import : (String → Bool) → Disk → List Track → ℕ → File → ℕ × Change
unfolding load_favorites import_from save_locked
import is_blank disk [] now file = (0, (file, none))
import is_blank disk (t ∷ ts) now file =
    if not disk.locks then (0, (file, some lock_failed)) else elim (load_favorites file) [
      | none ↦ (0, (file, some load_failed))
      | some entries ↦
          let all : List Entry = import_from is_blank now entries (t ∷ ts) in
          let added : ℕ = length all - length entries in
          if added == 0 then (0, (file, none)) else (added, save_locked disk all file)
    ]

-- `IsFavorited`.
pub is_favorited : File → String → Bool
unfolding load_favorites
is_favorited file path = elim (load_favorites file) [
  | none ↦ false
  | some entries ↦ has_path path entries
]

-- `Count`.
unfoldable count_favorites : File → ℕ
unfolding load_favorites
count_favorites file = elim (load_favorites file) [ none ↦ 0 | some entries ↦ length entries ]

-- `Tracks`, with `none` for an error.
unfoldable favorite_tracks : File → Option (List Track)
unfolding load_favorites
favorite_tracks file = elim (load_favorites file) [
  | none ↦ none
  | some entries ↦ some (map (λ e. e.track) entries)
]
