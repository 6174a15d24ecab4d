-- ===== src/Playlist/Stored.antt =====
-- playlist/tracktoml.go, and `IsURL` of playlist/url.go: what the text of a stored track keeps. A section is
-- its values behind `tomlutil.ParseSections`; an absent key is "", `none` or false. The text between is
-- not modelled: `%q` and `%d` are taken to be read back by the unquoting and by `strconv.Atoi`.
pub mod Laws
use Prim.Native.String.{String}
use text.Mathlib.Text.{◌==◌ as str_eq}
use cliamp.Base.{
  ℕ, zero, suc, Bool, true, false, not, ◌&&◌, ◌||◌, Option, none, some, List, [], ◌∷◌, leb, ◌==◌,
  if◌then◌else◌, length, drop,
}
use cliamp.Base.Int.{ℤ, pos, negsuc}
use cliamp.Base.Texts.{codes, has_prefix}
use cliamp.Playlist.Track.{Track, TrackInfo}

-- Digits up to the first colon, which is there.
digits_to_colon : List ℕ → Bool
digits_to_colon [] = false
digits_to_colon (c ∷ rest) =
    let more = digits_to_colon rest in if c == 58 then true else leb 48 c && leb c 57 && more

-- `matchSearchPrefix`.
match_search_prefix : List ℕ → List ℕ → Bool
unfolding digits_to_colon
match_search_prefix path name = has_prefix path name && digits_to_colon (drop (length name) path)

-- `IsYTSearch`.
is_yt_search : List ℕ → Bool
unfolding match_search_prefix
is_yt_search path =
    match_search_prefix path (codes "ytsearch") || match_search_prefix path (codes "scsearch")

-- `IsURL`.
unfoldable pub is_url : String → Bool
unfolding is_yt_search
is_url path =
    has_prefix (codes path) (codes "http://")
    || has_prefix (codes path) (codes "https://")
    || is_yt_search (codes path)

pub record Section : Type 0 where
  pub path : String
  pub title : String
  pub artist : String
  pub album : String
  pub genre : String
  pub year : Option ℤ
  pub track_number : Option ℤ
  pub duration_secs : Option ℤ
  pub stream : Bool
  pub feed : Bool
  pub realtime : Bool
  pub restricted : Bool
  pub album_art_url : String
  pub meta_keys : List (String × String)

-- The bytes that `validMetaKey` admits.
abbrev pub is_key_byte : ℕ → Bool
is_key_byte c =
    (leb 97 c && leb c 122)
    || (leb 65 c && leb c 90)
    || (leb 48 c && leb c 57)
    || c == 46
    || c == 95
    || c == 45

abbrev pub all_key_bytes : List ℕ → Bool
all_key_bytes [] = true
all_key_bytes (c ∷ cs) = is_key_byte c && all_key_bytes cs

-- `validMetaKey`.
unfoldable pub valid_meta_key : String → Bool
valid_meta_key k = not (str_eq k "") && all_key_bytes (codes k)

-- The entries of `ProviderMeta` that `WriteTrackTOML` writes.
pub written_keys : List (String × String) → List (String × String)
unfolding valid_meta_key
written_keys [] = []
written_keys ((k, v) ∷ kvs) =
    let rest = written_keys kvs in if valid_meta_key k then (k, v) ∷ rest else rest

abbrev pub written_meta : Option (List (String × String)) → List (String × String)
written_meta none = []
written_meta (some kvs) = written_keys kvs

abbrev pub unless_zero : ℤ → Option ℤ
unless_zero (pos zero) = none
unless_zero n = some n

abbrev pub or_zero : Option ℤ → ℤ
or_zero none = pos 0
or_zero (some n) = n

-- `WriteTrackTOML`. An empty optional text is left out, and an absent key reads as "".
pub write_track_toml : Track → Section
unfolding is_url written_keys
write_track_toml t = record {
  path = t.path;
  title = t.title;
  artist = t.artist;
  album = t.album;
  genre = t.genre;
  year = unless_zero t.year;
  track_number = unless_zero t.track_number;
  duration_secs = unless_zero t.duration_secs;
  stream = t.stream && not (is_url t.path);
  feed = t.feed;
  realtime = t.realtime;
  restricted = t.restricted;
  album_art_url = t.album_art_url;
  meta_keys = written_meta t.provider_meta;
}

-- The loop of `TrackFromTOML` over the keys of the meta data: whether the legacy key restricts the
-- track, and the entries under the other keys.
pub legacy_restricted : List (String × String) → Bool
legacy_restricted [] = false
legacy_restricted ((k, v) ∷ kvs) =
    (str_eq k "mixcloud.exclusive" && str_eq v "true") || legacy_restricted kvs

pub other_keys : List (String × String) → List (String × String)
other_keys [] = []
other_keys ((k, v) ∷ kvs) =
    let rest = other_keys kvs in if str_eq k "mixcloud.exclusive" then rest else (k, v) ∷ rest

-- A map that is made with its first entry.
abbrev pub made_map : List (String × String) → Option (List (String × String))
made_map [] = none
made_map (kv ∷ kvs) = some (kv ∷ kvs)

-- `TrackFromTOML`.
pub track_from_toml : Section → Track
unfolding is_url legacy_restricted other_keys
track_from_toml f = record {
  info = record {
    path = f.path;
    title = f.title;
    artist = f.artist;
    album = f.album;
    genre = f.genre;
    year = or_zero f.year;
    track_number = or_zero f.track_number;
    stream = is_url f.path || f.stream;
    realtime = f.realtime;
    feed = f.feed;
    duration_secs = or_zero f.duration_secs;
    bookmark = false;
    smart = false;
    restricted = f.restricted || legacy_restricted f.meta_keys;
    unplayable = false;
    dir_sourced = false;
    embedded_lyrics = "";
    album_art_url = f.album_art_url;
    provider_meta = made_map (other_keys f.meta_keys);
  };
  playback_context = [];
  playback_context_index = 0;
}

-- What is read of a track that has been written.
unfoldable pub read_back : Track → Track
unfolding write_track_toml track_from_toml
read_back t = track_from_toml (write_track_toml t)
