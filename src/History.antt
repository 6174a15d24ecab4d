-- ===== src/History.antt =====
-- history/history.go: the list of recently played tracks. The file is what `loadLocked` finds
-- behind `os.ReadFile`: no file, a file that cannot be read, or the entries that `parse` gives. What is
-- written stands in the file as it will be read: each track as Playlist/Stored says, with what the text
-- keeps of it. The TOML text itself is not modelled. Whether the lock is had, and whether the atomic write
-- succeeds, are inputs of an operation. A time is a number of seconds.
pub mod Recency
pub mod Recording
use cliamp.Base.{
  ℕ, zero, suc, ◌+◌, ◌≤◌, ◌<◌, ◌≡◌, refl, Bool, true, false, not, ◌&&◌, ◌||◌, Option, none, some,
  List, [], ◌∷◌, ◌++◌, map, ltb, ◌==◌, if◌then◌else◌, length, take,
}
use cliamp.Base.Int.{ℤ, pos, negsuc, to_ℕ}
use cliamp.Playlist.Track.{Track, TrackInfo}
use cliamp.Playlist.Stored.{read_back}
use Prim.Native.String.{String}
use text.Mathlib.Text.{◌==◌ as str_eq}

-- `DefaultCap`.
abbrev default_cap : ℕ
default_cap = 200

pub record Entry : Type 0 where
  pub track : Track
  pub played_at : ℕ

pub data File : Type 0 where
  missing unreadable : File
  holds : List Entry → File

pub data Failure : Type 0 where
  lock_failed load_failed write_failed remove_failed : Failure

-- What the file system grants to one operation.
pub record Disk : Type 0 where
  pub locks : Bool
  pub writes : Bool

-- The file behind an operation, and `none` for a nil error.
abbrev pub Change : Type 0
Change = File × Option Failure

abbrev pub path_of : Entry → String
path_of e = e.track.path

abbrev pub has_path : String → List Entry → Bool
has_path path [] = false
has_path path (e ∷ entries) = str_eq (path_of e) path || has_path path entries

-- `dedupeNewestFirst`, with the paths seen so far.
abbrev pub seen_in : String → List String → Bool
seen_in path [] = false
seen_in path (s ∷ seen) = str_eq s path || seen_in path seen

dedupe_from : List String → List Entry → List Entry
dedupe_from seen [] = []
dedupe_from seen (e ∷ entries) =
    let dup = dedupe_from seen entries in
    let fresh = dedupe_from (path_of e ∷ seen) entries in
    if seen_in (path_of e) seen then dup else e ∷ fresh

unfoldable pub dedupe_newest_first : List Entry → List Entry
unfolding dedupe_from
dedupe_newest_first entries = dedupe_from [] entries

-- `loadLocked`, with `none` for an error.
unfoldable pub load_locked : File → Option (List Entry)
unfolding dedupe_newest_first
load_locked missing = some []
load_locked unreadable = none
load_locked (holds entries) = some (dedupe_newest_first entries)

-- `writeEntry`, and what `parse` makes of it; RFC 3339 keeps the seconds of a time.
abbrev pub read_entry : Entry → Entry
read_entry e = record { track = read_back e.track; played_at = e.played_at }

-- `saveLocked`: the file as it will be read; a failed write leaves it as it is. No caller passes an entry
-- with a blank path, which `parse` would drop.
unfoldable pub save_locked : Disk → List Entry → File → Change
save_locked disk entries file =
    if disk.writes then (holds (map read_entry entries), none) else (file, some write_failed)

abbrev or_text : String → String → String
or_text cur prev = if str_eq cur "" then prev else cur

abbrev or_int : ℤ → ℤ → ℤ
or_int (pos zero) prev = prev
or_int cur prev = cur

abbrev has_meta : Option (List (String × String)) → Bool
has_meta none = false
has_meta (some []) = false
has_meta (some (kv ∷ kvs)) = true

-- `mergeTrackMeta`.
merge_info : TrackInfo → TrackInfo → TrackInfo
merge_info prev cur = record cur {
  title = or_text cur.title prev.title;
  artist = or_text cur.artist prev.artist;
  album = or_text cur.album prev.album;
  genre = or_text cur.genre prev.genre;
  year = or_int cur.year prev.year;
  track_number = or_int cur.track_number prev.track_number;
  duration_secs = or_int cur.duration_secs prev.duration_secs;
  album_art_url = or_text cur.album_art_url prev.album_art_url;
  stream = cur.stream || prev.stream;
  feed = cur.feed || prev.feed;
  realtime = if has_meta cur.provider_meta then cur.realtime else cur.realtime || prev.realtime;
  restricted =
      if has_meta cur.provider_meta then cur.restricted else cur.restricted || prev.restricted;
  provider_meta = if has_meta cur.provider_meta then cur.provider_meta else prev.provider_meta;
}

merge_track_meta : Track → Track → Track
unfolding merge_info
merge_track_meta prev cur = record cur { info = merge_info prev.info cur.info }

-- The loop of `Record`: the first entry with the path, and the entries without it.
unfoldable pub take_out : String → List Entry → Option (Entry × List Entry)
take_out path [] = none
take_out path (e ∷ entries) =
    let rest = take_out path entries in
    if str_eq (path_of e) path
    then some (e, entries)
    else elim rest [ none ↦ none | some r ↦ some (r.0, e ∷ r.1) ]

-- The entries after a replay or a first play.
pub recorded : ℕ → Track → ℕ → List Entry → List Entry
unfolding take_out merge_track_meta
recorded cap t at entries = elim (take_out t.path entries) [
  | some r ↦ record { track = merge_track_meta r.0.track t; played_at = at } ∷ r.1
  | none ↦
      let grown : List Entry = record { track = t; played_at = at } ∷ entries in
      if ltb 0 cap && ltb cap (length grown) then take cap grown else grown
]

-- `Record`, on a store that is not nil. `is_blank` is `strings.TrimSpace(path) == ""`.
pub record_track : (String → Bool) → ℕ → Disk → Track → ℕ → File → Change
unfolding recorded load_locked save_locked
record_track is_blank cap disk t at file =
    if is_blank t.path
    then (file, none)
    else if not disk.locks
    then (file, some lock_failed)
    else elim (load_locked file) [
      | none ↦ (file, some load_failed)
      | some entries ↦ save_locked disk (recorded cap t at entries) file
    ]

-- `Recent`, with `none` for an error.
recent : File → ℤ → Option (List Entry)
unfolding load_locked
recent file limit = elim (load_locked file) [
  | none ↦ none
  | some entries ↦
      let l : ℕ = to_ℕ limit in
      some (if ltb 0 l && ltb l (length entries) then take l entries else entries)
]

-- `Tracks`.
unfoldable tracks : File → ℤ → Option (List Track)
unfolding recent
tracks file limit = elim (recent file limit) [
  | none ↦ none
  | some entries ↦ some (map (λ e. e.track) entries)
]

-- `Clear`.
unfoldable clear : Disk → File → Change
clear disk missing = if disk.locks then (missing, none) else (missing, some lock_failed)
clear disk file =
    if not disk.locks
    then (file, some lock_failed)
    else if disk.writes
    then (missing, none)
    else (file, some remove_failed)
