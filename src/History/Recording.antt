-- ===== src/History/Recording.antt =====
-- history/history.go: what the file of the history holds after `Record`, as `loadLocked` reads it.
use cliamp.Base.{
  ◌&&◌, ℕ, zero, suc, ◌≤◌, ◌<◌, ◌≡◌, refl, sym, ap, ◌∙◌, subst, Bool, true, false, none, some, List,
  [], ◌∷◌, map, ltb, if◌then◌else◌, length, take, arith, inl, inr, length-take, length-map,
  get_elem?, Option-cases,
}
use cliamp.Playlist.Track.{Track}
use cliamp.Playlist.Stored.{is_url, read_back}
use cliamp.Playlist.Stored.Laws.{read_back-path}
use cliamp.History.{
  Entry, File, holds, path_of, load_locked, save_locked, take_out, recorded, record_track,
  merge_track_meta, merge_info, read_entry,
}
use Prim.Native.String.{String}
use text.Mathlib.Text.{◌==◌ as str_eq}
use cliamp.History.Recency.{
  IsDistinct, paths, without, recorded-paths, dedupe-same, loaded-IsDistinct, take-IsDistinct,
  seen_in-without, without-IsDistinct,
}

-- Reading an entry keeps its path.
pub paths-read_entry : (entries : List Entry) → paths (map read_entry entries) ≡ paths entries
paths-read_entry [] = refl
paths-read_entry (e ∷ entries) = cc (read_back-path e.track, paths-read_entry entries)

-- The entry that a record of `t` puts in front, as it is read.
pub record IsRecorded (t : Track) (at : ℕ) (e : Entry) : Type 0 where
  pub same_path : e.track.path ≡ t.path
  pub at_eq : e.played_at ≡ at
  pub same_title : str_eq t.title "" ≡ false → e.track.title ≡ t.title
  pub streams : is_url t.path ≡ true → e.track.stream ≡ true
  pub no_bookmark : e.track.bookmark ≡ false
  pub no_context : e.track.playback_context ≡ []

merged-IsRecorded :
    (prev t : Track) (at : ℕ)
    → IsRecorded t at (read_entry (record { track = merge_track_meta prev t; played_at = at }))
unfolding merge_track_meta merge_info read_back
merged-IsRecorded prev t at = record {
  same_path = refl;
  at_eq = refl;
  same_title = λ e. rw e refl;
  streams = λ e. ground (arith, e);
  no_bookmark = refl;
  no_context = refl;
}

first-IsRecorded :
    (t : Track) (at : ℕ) → IsRecorded t at (read_entry (record { track = t; played_at = at }))
unfolding read_back
first-IsRecorded t at = record {
  same_path = refl;
  at_eq = refl;
  same_title = λ e. refl;
  streams = λ e. ground (arith, e);
  no_bookmark = refl;
  no_context = refl;
}

cut_front :
    (full : Bool) (e : Entry) (cap : ℕ) (entries : List Entry)
    → get_elem? (map read_entry (if full then e ∷ take cap entries else e ∷ entries)) 0
      ≡ some (read_entry e)
cut_front true e cap entries = refl
cut_front false e cap entries = refl

recorded-front :
    (cap : ℕ) (t : Track) (at : ℕ) (entries : List Entry)
    → 0 < cap
    → (e : Entry) × (get_elem? (map read_entry (recorded cap t at entries)) 0 ≡ some e)
      × IsRecorded t at e
unfolding recorded
recorded-front zero t at entries h = absurd (omega (arith, h))
recorded-front (suc n) t at entries h = elim (Option-cases (take_out t.path entries)) [
  | inr (r, e) ↦
      let front : Entry = record { track = merge_track_meta r.0.track t; played_at = at } in
      let same : recorded (suc n) t at entries ≡ front ∷ r.1 = rw (e, recorded) refl in
      (
        read_entry front,
        ap (λ es. get_elem? (map read_entry es) 0) same,
        merged-IsRecorded r.0.track t at,
      )
  | inl e ↦
      let front : Entry = record { track = t; played_at = at } in
      let full : Bool = ltb 0 (suc n) && ltb (suc n) (length (front ∷ entries)) in
      let cut : List Entry = if full then take (suc n) (front ∷ entries) else front ∷ entries in
      let same : recorded (suc n) t at entries ≡ cut = rw (e, recorded) refl in
      (
        read_entry front,
        ap (λ es. get_elem? (map read_entry es) 0) same ∙ cut_front full front n entries,
        first-IsRecorded t at,
      )
]

-- `Record` with a path that is not blank, the lock had and the write done, on a file that loads as at
-- most `cap` entries: it succeeds, and the file then loads as distinct tracks, at most `cap` of them, the
-- recorded track's path first and the other paths behind it in their order, cut at the cap. The first entry
-- has the time of the call, the track's title if it has one, the stream flag if its path is a URL, and
-- neither a bookmark nor a playback context, which the file does not keep.
pub record_track-load_locked :
    (is_blank : String → Bool) (cap : ℕ) (t : Track) (at : ℕ) (file : File) (entries : List Entry)
    → is_blank t.path ≡ false
    → 0 < cap
    → load_locked file ≡ some entries
    → length entries ≤ cap
    → (after : File) × (read : List Entry) × (first : Entry) × (record_track is_blank cap
          (record { locks = true; writes = true })
          t
          at
          file
        ≡ (after, none))
      × (load_locked after ≡ some read)
      × (paths read ≡ take cap (t.path ∷ without t.path (paths entries)))
      × IsDistinct (paths read)
      × (length read ≤ cap)
      × (get_elem? read 0 ≡ some first)
      × IsRecorded t at first
unfolding record_track save_locked IsDistinct
record_track-load_locked is_blank cap t at file entries blank pos_cap e small =
    let apart : IsDistinct (paths entries) = loaded-IsDistinct file entries e in
    let read : List Entry = map read_entry (recorded cap t at entries) in
    let eq =
      paths-read_entry (recorded cap t at entries)
      ∙ recorded-paths cap t at entries pos_cap small apart in
    let distinct : IsDistinct (paths read) = subst IsDistinct (sym eq) (listed apart) in
    let (first, stands, is_recorded) = recorded-front cap t at entries pos_cap in
    (
      holds read,
      read,
      first,
      rw (blank, record_track) (rw (e, record_track) refl),
      dedupe-same read distinct,
      eq,
      distinct,
      omega (
        arith,
        ap length eq,
        length-map path_of read,
        length-take cap (t.path ∷ without t.path (paths entries)),
      ),
      stands,
      is_recorded,
    )
  where
    listed :
        IsDistinct (paths entries) → IsDistinct (take cap (t.path ∷ without t.path (paths entries)))
    listed h =
        take-IsDistinct cap (t.path ∷ without t.path (paths entries))
          (seen_in-without t.path (paths entries), without-IsDistinct t.path (paths entries) h)
