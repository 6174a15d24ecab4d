-- ===== src/Playlist/Stored/Laws.antt =====
-- playlist/tracktoml.go: a stored track that is stored again reads as before.
use cliamp.Base.{
  Bool, true, false, not, ◌&&◌, ◌||◌, Option, none, some, List, [], ◌∷◌, ◌≡◌, refl, sym, ap, ◌∙◌,
  arith, inl, inr, Bool-cases, zero, suc,
}
use cliamp.Base.Int.{ℤ, pos, negsuc}
use cliamp.Playlist.Track.{Track}
use cliamp.Playlist.Stored.{
  is_url, valid_meta_key, written_keys, written_meta, unless_zero, or_zero, legacy_restricted,
  other_keys, made_map, read_back,
}
use Prim.Native.String.{String}
use text.Mathlib.Text.{◌==◌ as str_eq}

-- The path is kept, and a path that is a URL makes the track a stream.
pub read_back-path : (t : Track) → (read_back t).path ≡ t.path
unfolding read_back
read_back-path t = refl

pub read_back-title : (t : Track) → (read_back t).title ≡ t.title
unfolding read_back
read_back-title t = refl

pub read_back-stream : (t : Track) → (read_back t).stream ≡ is_url t.path || t.stream
unfolding read_back
read_back-stream t = ground arith

or_zero-unless_zero : (n : ℤ) → or_zero (unless_zero n) ≡ n
or_zero-unless_zero (pos zero) = refl
or_zero-unless_zero (pos (suc n)) = refl
or_zero-unless_zero (negsuc n) = refl

-- Keys that are written, and read into the map again.
pub data AreKept : List (String × String) → Type 0 where
  none_left : AreKept []
  kept :
      (k v : String) (kvs : List (String × String))
      → valid_meta_key k ≡ true
      → str_eq k "mixcloud.exclusive" ≡ false
      → AreKept kvs
      → AreKept ((k, v) ∷ kvs)

pub data IsKeptMap : Option (List (String × String)) → Type 0 where
  no_map : IsKeptMap none
  map_of :
      (kv : String × String) (kvs : List (String × String))
      → AreKept (kv ∷ kvs)
      → IsKeptMap (some (kv ∷ kvs))

-- A track that has nothing but what a section holds.
pub record IsStorable (t : Track) : Type 0 where
  pub streams : is_url t.path ≡ true → t.stream ≡ true
  pub no_bookmark : t.bookmark ≡ false
  pub not_smart : t.smart ≡ false
  pub not_unplayable : t.unplayable ≡ false
  pub not_dir_sourced : t.dir_sourced ≡ false
  pub no_lyrics : t.embedded_lyrics ≡ ""
  pub keys : IsKeptMap t.provider_meta
  pub no_context : t.playback_context ≡ []
  pub no_index : t.playback_context_index ≡ 0

written_keys-AreKept : (kvs : List (String × String)) → AreKept kvs → written_keys kvs ≡ kvs
unfolding written_keys
written_keys-AreKept _ none_left = refl
written_keys-AreKept _ (kept k v kvs e f h) =
    rw e (ap (λ rest. (k, v) ∷ rest) (written_keys-AreKept kvs h))

other_keys-AreKept : (kvs : List (String × String)) → AreKept kvs → other_keys kvs ≡ kvs
unfolding other_keys
other_keys-AreKept _ none_left = refl
other_keys-AreKept _ (kept k v kvs e f h) =
    rw f (ap (λ rest. (k, v) ∷ rest) (other_keys-AreKept kvs h))

legacy_restricted-AreKept :
    (kvs : List (String × String)) → AreKept kvs → legacy_restricted kvs ≡ false
unfolding legacy_restricted
legacy_restricted-AreKept _ none_left = refl
legacy_restricted-AreKept _ (kept k v kvs e f h) = rw f (legacy_restricted-AreKept kvs h)

written_meta-IsKeptMap :
    (m : Option (List (String × String)))
    → IsKeptMap m
    → (made_map (other_keys (written_meta m)) ≡ m) × (legacy_restricted (written_meta m) ≡ false)
unfolding written_keys other_keys legacy_restricted
written_meta-IsKeptMap _ no_map = (refl, refl)
written_meta-IsKeptMap _ (map_of kv kvs h) =
    let all : List (String × String) = kv ∷ kvs in
    let w : written_keys all ≡ all = written_keys-AreKept all h in
    (
      ap (λ l. made_map (other_keys l)) w ∙ ap made_map (other_keys-AreKept all h),
      ap legacy_restricted w ∙ legacy_restricted-AreKept all h,
    )

stream_back :
    (url stream : Bool) → (url ≡ true → stream ≡ true) → url || (stream && not url) ≡ stream
stream_back url stream h = ground arith

-- A track that is written and read again is the same, if it has no field that is not written, its flag
-- says stream if its path is a URL, and its provider meta is nil or a map that is not empty, whose keys are
-- valid and not the legacy one.
pub read_back-same : (t : Track) → IsStorable t → read_back t ≡ t
unfolding read_back
read_back-same t h = λ i. record {
  info = record {
    path = t.path;
    title = t.title;
    artist = t.artist;
    album = t.album;
    genre = t.genre;
    year = or_zero-unless_zero t.year i;
    track_number = or_zero-unless_zero t.track_number i;
    stream = stream_back (is_url t.path) t.stream h.streams i;
    realtime = t.realtime;
    feed = t.feed;
    duration_secs = or_zero-unless_zero t.duration_secs i;
    bookmark = sym h.no_bookmark i;
    smart = sym h.not_smart i;
    restricted = restricts i;
    unplayable = sym h.not_unplayable i;
    dir_sourced = sym h.not_dir_sourced i;
    embedded_lyrics = sym h.no_lyrics i;
    album_art_url = t.album_art_url;
    provider_meta = (written_meta-IsKeptMap t.provider_meta h.keys).0 i;
  };
  playback_context = sym h.no_context i;
  playback_context_index = sym h.no_index i;
}
  where
    restricts : t.restricted || legacy_restricted (written_meta t.provider_meta) ≡ t.restricted
    restricts = ground (arith, (written_meta-IsKeptMap t.provider_meta h.keys).1)

-- The keys that are left of any map.
read_keys-AreKept : (kvs : List (String × String)) → AreKept (other_keys (written_keys kvs))
unfolding other_keys written_keys
read_keys-AreKept [] = none_left
read_keys-AreKept ((k, v) ∷ kvs) = elim (Bool-cases (valid_meta_key k)) [
  | inr e ↦ rw e (read_keys-AreKept kvs)
  | inl e ↦ elim (Bool-cases (str_eq k "mixcloud.exclusive")) [
    | inl f ↦ rw e (rw f (read_keys-AreKept kvs))
    | inr f ↦ rw e (rw f (kept k v (other_keys (written_keys kvs)) e f (read_keys-AreKept kvs)))
  ]
]

made_map-IsKeptMap : (kvs : List (String × String)) → AreKept kvs → IsKeptMap (made_map kvs)
made_map-IsKeptMap [] h = no_map
made_map-IsKeptMap (kv ∷ kvs) h = map_of kv kvs h

read_meta-IsKeptMap :
    (m : Option (List (String × String))) → IsKeptMap (made_map (other_keys (written_meta m)))
unfolding other_keys
read_meta-IsKeptMap none = no_map
read_meta-IsKeptMap (some kvs) =
    made_map-IsKeptMap (other_keys (written_keys kvs)) (read_keys-AreKept kvs)

read_back-IsStorable : (t : Track) → IsStorable (read_back t)
unfolding read_back
read_back-IsStorable t = record {
  streams = λ e. ground (arith, e);
  no_bookmark = refl;
  not_smart = refl;
  not_unplayable = refl;
  not_dir_sourced = refl;
  no_lyrics = refl;
  keys = read_meta-IsKeptMap t.provider_meta;
  no_context = refl;
  no_index = refl;
}

-- Whatever a first write loses, a track that has been read does not change when it is stored again.
pub read_back-read_back : (t : Track) → read_back (read_back t) ≡ read_back t
read_back-read_back t = read_back-same (read_back t) (read_back-IsStorable t)
