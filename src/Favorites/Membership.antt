-- ===== src/Favorites/Membership.antt =====
-- favorites/favorites.go: membership after a toggle and after an import.
use cliamp.Base.{
  map, ℕ, ◌≡◌, refl, sym, ap, subst, ◌∙◌, inl, inr, Bool, true, false, not, ◌||◌, none, some, List,
  [], ◌∷◌, ◌++◌, arith, Bool-cases, Option-cases,
}
use cliamp.Playlist.Track.{Track}
use cliamp.History.{
  Entry, File, holds, path_of, has_path, save_locked, take_out, seen_in, read_entry,
}
use cliamp.History.Recency.{
  IsDistinct, paths, without, take_out-paths, eq_sym, seen_in-without, without-IsDistinct,
}
use cliamp.History.Recording.{paths-read_entry}
use cliamp.Favorites.{load_favorites, toggle, import_loop, import_from, is_favorited}
use Prim.Native.String.{String}
use text.Mathlib.Text.{◌==◌ as str_eq}
use text.Mathlib.TextEquality.{eq_iff}

has_path-seen_in :
    (s : String) (entries : List Entry) → has_path s entries ≡ seen_in s (paths entries)
has_path-seen_in s [] = refl
has_path-seen_in s (e ∷ entries) = ap (λ b. str_eq (path_of e) s || b) (has_path-seen_in s entries)

-- What is read of the entries has their paths.
has_path-read_entry :
    (s : String) (entries : List Entry) → has_path s (map read_entry entries) ≡ has_path s entries
has_path-read_entry s entries =
    has_path-seen_in s (map read_entry entries)
    ∙ ap (seen_in s) (paths-read_entry entries)
    ∙ sym (has_path-seen_in s entries)

seen_in-without_other :
    (s t : String) (xs : List String) → str_eq t s ≡ false → seen_in s (without t xs) ≡ seen_in s xs
seen_in-without_other s t [] h = refl
seen_in-without_other s t (x ∷ xs) h =
    ground (arith, h, seen_in-without_other s t xs, eq_iff x t, eq_iff x s, eq_iff t s)

take_out-has_path :
    (path : String) (entries : List Entry) (r : Entry × List Entry)
    → take_out path entries ≡ some r
    → has_path path entries ≡ true
unfolding take_out
take_out-has_path path [] r h = cc
take_out-has_path path (e ∷ entries) r h = elim (Bool-cases (str_eq (path_of e) path)) [
  | inl f ↦ rw f refl
  | inr f ↦ elim (Option-cases (take_out path entries)) [
    | inl g ↦ cc (f, g, h)
    | inr (x, g) ↦ rw f (take_out-has_path path entries x g)
  ]
]

is_favorited_lem :
    (file : File) (entries : List Entry) (s : String)
    → load_favorites file ≡ some entries
    → is_favorited file s ≡ has_path s entries
unfolding is_favorited
is_favorited_lem file entries s e = rw (e, is_favorited) refl

-- `Toggle` of a path that is not blank, with the lock had and the write done, on a file of distinct
-- tracks: it reports whether the track is a favorite afterwards, which is the opposite of before; all
-- other paths stay as they were, and the tracks stay distinct.
pub toggle-is_favorited :
    (is_blank : String → Bool) (t : Track) (now : ℕ) (file : File) (entries : List Entry)
    → is_blank t.path ≡ false
    → load_favorites file ≡ some entries
    → IsDistinct (paths entries)
    → (new : List Entry) × (toggle is_blank (record { locks = true; writes = true }) t now file
        ≡ (not (is_favorited file t.path), (holds new, none)))
      × (is_favorited (holds new) t.path ≡ not (is_favorited file t.path))
      × ((s : String) → str_eq t.path s ≡ false → is_favorited (holds new) s ≡ is_favorited file s)
      × IsDistinct (paths new)
unfolding toggle is_favorited load_favorites save_locked IsDistinct
toggle-is_favorited is_blank t now file entries blank e h = elim (take_out-paths t.path entries h) [
  | inl (f, u) ↦
      let out : has_path t.path entries ≡ false = has_path-seen_in t.path entries ∙ u in
      let was : is_favorited file t.path ≡ false = is_favorited_lem file entries t.path e ∙ out in
      let saved : List Entry = record { track = t; played_at = now } ∷ entries in
      (
        map read_entry saved,
        rw (blank, toggle) (rw (e, toggle) (rw (f, toggle) (rw was refl))),
        rw was (has_path-read_entry t.path saved ∙ rw ((eq_iff t.path t.path).1 refl) refl),
        (λ s a. rw (is_favorited_lem file entries s e) (has_path-read_entry s saved ∙ rw a refl)),
        subst IsDistinct (sym (paths-read_entry saved)) (u, h),
      )
  | inr (r, f, u, l) ↦
      let held : has_path t.path entries ≡ true = take_out-has_path t.path entries r f in
      let gone : has_path t.path r.1 ≡ false =
        has_path-seen_in t.path r.1
        ∙ ap (seen_in t.path) u
        ∙ seen_in-without t.path (paths entries) in
      let was : is_favorited file t.path ≡ true = is_favorited_lem file entries t.path e ∙ held in
      (
        map read_entry r.1,
        rw (blank, toggle) (rw (e, toggle) (rw (f, toggle) (rw was refl))),
        rw was (has_path-read_entry t.path r.1 ∙ gone),
        (λ s a. rw (is_favorited_lem file entries s e) (
            has_path-read_entry s r.1
            ∙ has_path-seen_in s r.1
            ∙ ap (seen_in s) u
            ∙ seen_in-without_other s t.path (paths entries) a
            ∙ sym (has_path-seen_in s entries))),
        subst IsDistinct (sym u ∙ sym (paths-read_entry r.1))
            (without-IsDistinct t.path (paths entries) h),
      )
]

seen_in-append_one :
    (s t : String) (xs : List String)
    → seen_in s xs ≡ false
    → str_eq t s ≡ false
    → seen_in s (xs ++ t ∷ []) ≡ false
seen_in-append_one s t [] h n = rw n refl
seen_in-append_one s t (x ∷ xs) h n = ground (arith, h, n, seen_in-append_one s t xs)

IsDistinct-append_one :
    (t : String) (xs : List String)
    → IsDistinct xs
    → seen_in t xs ≡ false
    → IsDistinct (xs ++ t ∷ [])
unfolding IsDistinct
IsDistinct-append_one t [] h n = (refl, tt)
IsDistinct-append_one t (x ∷ xs) h n = (
  seen_in-append_one x t xs h.0 (ground (arith, n, eq_sym x t)),
  IsDistinct-append_one t xs h.1 (ground (arith, n)),
)

paths-append : (xs ys : List Entry) → paths (xs ++ ys) ≡ paths xs ++ paths ys
paths-append [] ys = refl
paths-append (e ∷ xs) ys = ap (λ zs. path_of e ∷ zs) (paths-append xs ys)

-- The paths that have been seen are those of the entries.
AreSeen : List String → List Entry → Type 0
AreSeen seen entries = (s : String) → seen_in s seen ≡ seen_in s (paths entries)

AreSeen-append_one :
    (seen : List String) (entries : List Entry) (e : Entry)
    → AreSeen seen entries
    → AreSeen (path_of e ∷ seen) (entries ++ e ∷ [])
unfolding AreSeen
AreSeen-append_one seen entries e h s =
    ap (λ b. str_eq (path_of e) s || b) (h s)
    ∙ sym (
        ap (seen_in s) (paths-append entries (e ∷ [])) ∙ seen_in-snoc s (path_of e) (paths entries))
  where
    seen_in-snoc :
        (s t : String) (xs : List String) → seen_in s (xs ++ t ∷ []) ≡ str_eq t s || seen_in s xs
    seen_in-snoc s t [] = refl
    seen_in-snoc s t (x ∷ xs) = ground (arith, seen_in-snoc s t xs)

import_loop-IsDistinct :
    (is_blank : String → Bool) (now : ℕ) (seen : List String) (entries : List Entry)
    (ts : List Track)
    → AreSeen seen entries
    → IsDistinct (paths entries)
    → IsDistinct (paths (import_loop is_blank now seen entries ts))
unfolding import_loop AreSeen
import_loop-IsDistinct is_blank now seen entries [] same h = h
import_loop-IsDistinct is_blank now seen entries (t ∷ ts) same h =
    elim (Bool-cases (is_blank t.path || seen_in t.path seen)) [
      | inl f ↦ rw f (import_loop-IsDistinct is_blank now seen entries ts same h)
      | inr f ↦
          let new : Entry = record { track = t; played_at = now } in
          let absent : seen_in t.path seen ≡ false = ground (arith, f) in
          rw f (
            import_loop-IsDistinct is_blank now (t.path ∷ seen) (entries ++ new ∷ []) ts
              (AreSeen-append_one seen entries new same)
              (subst IsDistinct (sym (paths-append entries (new ∷ [])))
                (IsDistinct-append_one t.path (paths entries) h (sym (same t.path) ∙ absent))))
    ]

-- An import into a list of distinct tracks leaves the tracks distinct, whatever tracks it is given.
pub import_from-IsDistinct :
    (is_blank : String → Bool) (now : ℕ) (entries : List Entry) (ts : List Track)
    → IsDistinct (paths entries)
    → IsDistinct (paths (import_from is_blank now entries ts))
unfolding import_from AreSeen
import_from-IsDistinct is_blank now entries ts h =
    import_loop-IsDistinct is_blank now (paths entries) entries ts (λ s. refl) h
