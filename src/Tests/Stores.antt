-- ===== src/Tests/Stores.antt =====
-- Small inputs of internal/fuzzy, history, favorites and player/gapless.go.
use cliamp.Base.{
  ℕ, ◌≤◌, ◌<◌, ◌≡◌, ◌≢◌, refl, inl, Bool, true, false, not, none, some, List, [], ◌∷◌, ◌+◌, ◌&&◌,
  leb, if◌then◌else◌, arith, length, take, get_elem?,
}
use cliamp.Base.Int.{pos}
use cliamp.Playlist.Track.{Track}
use cliamp.Fuzzy.{fuzzy_match, Subsequence, fuzzy_match-Subsequence}
use cliamp.History.{Entry, File, holds, load_locked, record_track, dedupe_newest_first}
use cliamp.Playlist.Stored.{read_back, is_url, valid_meta_key}
use cliamp.History.Recording.{record_track-load_locked, IsRecorded}
use cliamp.History.Recency.{IsDistinct, paths, without}
use cliamp.Favorites.{toggle, is_favorited, import_from, load_favorites}
use cliamp.Favorites.Membership.{toggle-is_favorited, import_from-IsDistinct}
use cliamp.Gapless.{Streamer, idle, set_next, stream_begin, stream_commit, stream_buffer}
use cliamp.Gapless.Transitions.{
  replaces, sets_next, calls, stream_commit-calls, swapped-issued, method, commits, observe_all,
  Among, fresh,
}
use Prim.Native.String.{String}
use text.Mathlib.Text.{◌==◌ as str_eq}

-- `unicode.ToLower` on the letters of ASCII.
abbrev to_lower : ℕ → ℕ
to_lower r = if leb 65 r && leb r 90 then r + 32 else r

-- "lz" in "Led Zep".
fuzzy_match-Subsequence_example :
    ((s : ℕ)
      → fuzzy_match to_lower (108 ∷ 122 ∷ []) (76 ∷ 101 ∷ 100 ∷ 32 ∷ 90 ∷ 101 ∷ 112 ∷ []) ≡ some s
      → Subsequence to_lower (108 ∷ 122 ∷ []) (76 ∷ 101 ∷ 100 ∷ 32 ∷ 90 ∷ 101 ∷ 112 ∷ []))
    × (Subsequence to_lower (108 ∷ 122 ∷ []) (76 ∷ 101 ∷ 100 ∷ 32 ∷ 90 ∷ 101 ∷ 112 ∷ [])
        → (s : ℕ) × (fuzzy_match to_lower
              (108 ∷ 122 ∷ [])
              (76 ∷ 101 ∷ 100 ∷ 32 ∷ 90 ∷ 101 ∷ 112 ∷ [])
            ≡ some s))
    × ((s : ℕ)
        → ◌≢◌ {A = List ℕ} (108 ∷ 122 ∷ []) []
        → fuzzy_match to_lower (108 ∷ 122 ∷ []) (76 ∷ 101 ∷ 100 ∷ 32 ∷ 90 ∷ 101 ∷ 112 ∷ []) ≡ some s
        → 0 < s)
fuzzy_match-Subsequence_example =
    fuzzy_match-Subsequence to_lower (108 ∷ 122 ∷ []) (76 ∷ 101 ∷ 100 ∷ 32 ∷ 90 ∷ 101 ∷ 112 ∷ [])

abbrev track : String → Track
track path = record {
  info = record {
    path = path;
    title = "";
    artist = "";
    album = "";
    genre = "";
    year = pos 0;
    track_number = pos 0;
    stream = false;
    realtime = false;
    feed = false;
    duration_secs = pos 0;
    bookmark = false;
    smart = false;
    restricted = false;
    unplayable = false;
    dir_sourced = false;
    embedded_lyrics = "";
    album_art_url = "";
    provider_meta = none;
  };
  playback_context = [];
  playback_context_index = 0;
}

abbrev is_blank : String → Bool
is_blank s = str_eq s ""

abbrev played : String → ℕ → Entry
played path at = record { track = track path; played_at = at }

abbrev two_played : List Entry
two_played = played "a" 5 ∷ played "b" 3 ∷ []

two_load : load_locked (holds two_played) ≡ some two_played
unfolding load_locked dedupe_newest_first
two_load = refl

two_favorites : load_favorites (holds two_played) ≡ some two_played
unfolding load_favorites
two_favorites = refl

two-IsDistinct : IsDistinct (paths two_played)
unfolding IsDistinct
two-IsDistinct = (refl, (refl, tt))

-- A radio station that is played for the first time.
record_track-load_locked_example :
    (after : File) × (read : List Entry) × (first : Entry) × (record_track is_blank 2
        (record { locks = true; writes = true })
        (track "https://c")
        9
        (holds two_played)
      ≡ (after, none))
    × (load_locked after ≡ some read)
    × (paths read ≡ take 2 ("https://c" ∷ without "https://c" (paths two_played)))
    × IsDistinct (paths read)
    × (length read ≤ 2)
    × (get_elem? read 0 ≡ some first)
    × IsRecorded (track "https://c") 9 first
record_track-load_locked_example =
    record_track-load_locked is_blank 2 (track "https://c") 9 (holds two_played) two_played refl
      (omega arith) two_load (omega arith)

station_streams : (read_back (track "https://c")).stream ≡ true
unfolding read_back is_url
station_streams = refl

-- A show of a provider, with a key in its meta data.
abbrev show : Track
show = record {
  info = record (track "nd://7").info {
    title = "Show";
    year = pos 1999;
    realtime = true;
    provider_meta = some (("navidrome.id", "7") ∷ []);
  };
  playback_context = [];
  playback_context_index = 0;
}

show_is_kept : read_back show ≡ show
unfolding read_back is_url valid_meta_key
show_is_kept = refl

toggle-is_favorited_example :
    (new : List Entry) × (toggle is_blank
        (record { locks = true; writes = true })
        (track "b")
        9
        (holds two_played)
      ≡ (not (is_favorited (holds two_played) "b"), (holds new, none)))
    × (is_favorited (holds new) "b" ≡ not (is_favorited (holds two_played) "b"))
    × ((s : String)
        → str_eq "b" s ≡ false
        → is_favorited (holds new) s ≡ is_favorited (holds two_played) s)
    × IsDistinct (paths new)
toggle-is_favorited_example =
    toggle-is_favorited is_blank (track "b") 9 (holds two_played) two_played refl two_favorites
      two-IsDistinct

import_from-IsDistinct_example :
    IsDistinct (paths (import_from is_blank 9 two_played (track "a" ∷ track "c" ∷ track "c" ∷ [])))
import_from-IsDistinct_example =
    import_from-IsDistinct is_blank 9 two_played (track "a" ∷ track "c" ∷ track "c" ∷ [])
      two-IsDistinct

abbrev playing : Streamer
playing = record idle { current = some 4; current_version = 1 }

begun : stream_begin playing ≡ some (4, 1)
unfolding stream_begin
begun = refl

stream_commit-calls_example :
    (stream_commit 1 false 0 512 (calls (sets_next (some 6) ∷ replaces (some 5) ∷ []) playing)).0
    ≡ calls (sets_next (some 6) ∷ replaces (some 5) ∷ []) playing
stream_commit-calls_example =
    stream_commit-calls playing (sets_next (some 6) ∷ replaces (some 5) ∷ []) 4 1 false 0 512 begun
      (omega arith) (omega arith)

-- What a call leaves in five samples while source 6 is prepared and source 4 ends.
abbrev five_samples : List ℕ
five_samples =
    stream_buffer 0 5 playing false (7 ∷ 8 ∷ []) (calls (sets_next (some 6) ∷ []) playing) (9 ∷ [])

announced :
    Among
      (1, 6)
      (observe_all
        (method (replaces (some 4)) ∷ method (sets_next (some 6)) ∷ commits 1 false 0 512 ∷ [])
        fresh).swapped
unfolding observe_all cliamp.Gapless.replace_source
announced = inl refl

swapped-issued_example :
    Among
      (1, 6)
      (observe_all
        (method (replaces (some 4)) ∷ method (sets_next (some 6)) ∷ commits 1 false 0 512 ∷ [])
        fresh).issued
swapped-issued_example =
    swapped-issued
      (method (replaces (some 4)) ∷ method (sets_next (some 6)) ∷ commits 1 false 0 512 ∷ []) 1 6
      announced
