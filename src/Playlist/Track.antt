-- ===== src/Playlist/Track.antt =====
-- playlist/track.go and playlist/context.go: the track record, and the playback context that a
-- track chosen from a list carries. A map is its entries in key order, so that two maps that Go
-- finds deeply equal are one list; `none` is the nil map.
use Prim.Native.String.{String}
use mathlib.Core.Bool.{decide, decide_iff}
use text.Mathlib.Text.{◌==◌ as str_eq}
use text.Mathlib.TextEquality.{eq_iff}
use native.Mathlib.Decide.{ℕ_discrete}
use cliamp.Base.{
  ℕ, ◌+◌, ◌≡◌, Bool, ◌↔◌, true, Option, none, some, List, [], ◌∷◌, map, inl, inr, Bool-cases,
  if◌then◌else◌,
}
use cliamp.Base.Int.{ℤ, to_ℕ}

-- The fields of `Track` but the playback context.
pub record TrackInfo : Type 0 where
  pub path : String
  pub title : String
  pub artist : String
  pub album : String
  pub genre : String
  pub year : ℤ
  pub track_number : ℤ
  pub stream : Bool
  pub realtime : Bool
  pub feed : Bool
  pub duration_secs : ℤ
  pub bookmark : Bool
  pub smart : Bool
  pub restricted : Bool
  pub unplayable : Bool
  pub dir_sourced : Bool
  pub embedded_lyrics : String
  pub album_art_url : String
  pub provider_meta : Option (List (String × String))

-- A track with its context: the tracks of a context carry none themselves, since only
-- `with_playback_context` makes one.
pub record Track : Type 0 where
  pub info : TrackInfo
  pub open info use *
  pub playback_context : List TrackInfo
  pub playback_context_index : ℕ

String-discrete : Discrete String
String-discrete s t = elim (Bool-cases (str_eq s t)) [
  | inl e ↦ yes ((eq_iff s t).0 e)
  | inr e ↦ no (λ h. cc (e, (eq_iff s t).1 h))
]

ℤ-discrete : Discrete ℤ
ℤ-discrete = hlevel ℕ_discrete

TrackInfo-discrete : Discrete TrackInfo
unfolding String-discrete ℤ-discrete ℕ_discrete
TrackInfo-discrete = hlevel (ℕ_discrete, ℤ-discrete, String-discrete)

Track-discrete : Discrete Track
unfolding TrackInfo-discrete
Track-discrete = hlevel (ℕ_discrete, TrackInfo-discrete)

-- `equalTrack`.
unfoldable pub equal_track : Track → Track → Bool
unfolding Track-discrete decide
equal_track a b = decide (Track-discrete a b)

pub equal_track_iff : (a b : Track) → (equal_track a b ≡ true) ↔ (a ≡ b)
unfolding equal_track
equal_track_iff a b = decide_iff (Track-discrete a b)

-- `WithPlaybackContext`: the entry at `i` carries the whole source list and `i`.
unfoldable with_context : List TrackInfo → ℕ → List Track → List Track
with_context context i [] = []
with_context context i (t ∷ ts) =
    record { info = t.info; playback_context = context; playback_context_index = i }
    ∷ with_context context (i + 1) ts

unfoldable with_playback_context : List Track → List Track
with_playback_context tracks = with_context (map (λ t. t.info) tracks) 0 tracks

-- `PlaybackContext`: the source list and the index, if a context is attached.
unfoldable playback_context_of : Track → Option (List TrackInfo × ℕ)
playback_context_of t = elim t.playback_context [
  | [] ↦ none
  | x ∷ xs ↦ some (t.playback_context, t.playback_context_index)
]

-- `TotalDurationSecs`.
unfoldable total_duration_secs : List Track → ℕ
total_duration_secs [] = 0
total_duration_secs (t ∷ ts) = to_ℕ t.duration_secs + total_duration_secs ts

-- The value of a key in a map of strings, "" if it has none.
value_of : String → List (String × String) → String
value_of key [] = ""
value_of key ((k, v) ∷ kvs) = let rest = value_of key kvs in if str_eq k key then v else rest

-- `Meta`.
meta : Track → String → String
unfolding value_of
meta t key = elim t.provider_meta [ none ↦ "" | some kvs ↦ value_of key kvs ]

-- `IsAlbum`, by the keys `MetaKind` and `MetaKindAlbum`.
unfoldable is_album : Track → Bool
unfolding meta
is_album t = str_eq (meta t "kind") "album"

-- `AlbumID`, by the key `MetaAlbumID`.
unfoldable album_id : Track → String
unfolding meta
album_id t = meta t "albumID"
