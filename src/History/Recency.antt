-- ===== src/History/Recency.antt =====
-- history/history.go: the history is a list of distinct tracks in listen order, bounded by its cap.
use cliamp.Base.{
  ℕ, zero, suc, ◌≤◌, ◌<◌, ◌≡◌, refl, sym, ap, ◌∙◌, subst, true, false, none, some, List, [], ◌∷◌,
  map, ltb, if◌then◌else◌, length, take, arith, Bool-cases, ◌⊎◌, inl, inr, length-map, lt→ltb,
}
use cliamp.Playlist.Track.{Track}
use cliamp.History.{
  Entry, File, missing, unreadable, holds, path_of, seen_in, dedupe_from, dedupe_newest_first,
  load_locked, take_out, recorded, merge_track_meta, merge_info,
}
use Prim.Native.String.{String}
use text.Mathlib.Text.{◌==◌ as str_eq}
use text.Mathlib.TextEquality.{eq_iff}

unfoldable pub IsDistinct : List String → Type 0
IsDistinct [] = Unit {0}
IsDistinct (x ∷ xs) = (seen_in x xs ≡ false) × IsDistinct xs

abbrev pub paths : List Entry → List String
paths = map path_of

-- The list without the paths equal to the given one.
abbrev pub without : String → List String → List String
without path [] = []
without path (x ∷ xs) =
    let rest : List String = without path xs in if str_eq x path then rest else x ∷ rest

pub eq_sym : (s t : String) → str_eq s t ≡ str_eq t s
eq_sym s t = elim (Bool-cases (str_eq s t)) [
  | inl e ↦ let f : s ≡ t = (eq_iff s t).0 e in rw f refl
  | inr e ↦ elim (Bool-cases (str_eq t s)) [
    | inl f ↦ let g : t ≡ s = (eq_iff t s).0 f in rw g refl
    | inr f ↦ e ∙ sym f
  ]
]

dedupe_from-seen :
    (seen : List String) (entries : List Entry) (s : String)
    → seen_in s seen ≡ true
    → seen_in s (paths (dedupe_from seen entries)) ≡ false
unfolding dedupe_from
dedupe_from-seen seen [] s h = refl
dedupe_from-seen seen (e ∷ entries) s h = elim (Bool-cases (seen_in (path_of e) seen)) [
  | inl f ↦ rw (f, dedupe_from) (dedupe_from-seen seen entries s h)
  | inr f ↦
      ground (arith, f, h, eq_iff (path_of e) s, dedupe_from-seen (path_of e ∷ seen) entries s)
]

dedupe_from-IsDistinct :
    (seen : List String) (entries : List Entry) → IsDistinct (paths (dedupe_from seen entries))
unfolding dedupe_from IsDistinct
dedupe_from-IsDistinct seen [] = tt
dedupe_from-IsDistinct seen (e ∷ entries) = elim (Bool-cases (seen_in (path_of e) seen)) [
  | inl f ↦ rw (f, dedupe_from) (dedupe_from-IsDistinct seen entries)
  | inr f ↦
      rw (f, dedupe_from)
        (
          dedupe_from-seen (path_of e ∷ seen) entries (path_of e)
              (ground (arith, (eq_iff (path_of e) (path_of e)).1 refl)),
          dedupe_from-IsDistinct (path_of e ∷ seen) entries,
        )
]

without_fresh : (s : String) (xs : List String) → seen_in s xs ≡ false → without s xs ≡ xs
without_fresh s [] h = refl
without_fresh s (x ∷ xs) h = ground (arith, without_fresh s xs)

without-seen_in :
    (s t : String) (xs : List String) → seen_in s xs ≡ false → seen_in s (without t xs) ≡ false
without-seen_in s t [] h = refl
without-seen_in s t (x ∷ xs) h = ground (arith, without-seen_in s t xs)

pub seen_in-without : (s : String) (xs : List String) → seen_in s (without s xs) ≡ false
seen_in-without s [] = refl
seen_in-without s (x ∷ xs) = ground (arith, seen_in-without s xs)

pub without-IsDistinct : (s : String) (xs : List String) → IsDistinct xs → IsDistinct (without s xs)
unfolding IsDistinct
without-IsDistinct s [] h = tt
without-IsDistinct s (x ∷ xs) h = elim (Bool-cases (str_eq x s)) [
  | inl e ↦ rw e (without-IsDistinct s xs h.1)
  | inr e ↦ rw e (without-seen_in x s xs h.0, without-IsDistinct s xs h.1)
]

-- What the loop of `Record` finds.
pub take_out-paths :
    (path : String) (entries : List Entry)
    → IsDistinct (paths entries)
    → (take_out path entries ≡ none) × (seen_in path (paths entries) ≡ false)
      ⊎ ((r : Entry × List Entry) × (take_out path entries ≡ some r)
          × (paths r.1 ≡ without path (paths entries))
          × (length entries ≡ suc (length r.1)))
unfolding take_out IsDistinct
take_out-paths path [] h = inl (refl, refl)
take_out-paths path (e ∷ entries) h = elim (Bool-cases (str_eq (path_of e) path)) [
  | inl f ↦
      let same : path_of e ≡ path = (eq_iff (path_of e) path).0 f in
      inr (
        (e, entries),
        rw f refl,
        rw f (
            sym (
              without_fresh path (paths entries)
                (ap (λ s. seen_in s (paths entries)) (sym same) ∙ h.0))),
        refl,
      )
  | inr f ↦ elim (take_out-paths path entries h.1) [
    | inl (g, u) ↦ inl (rw f (rw g refl), rw (f, u) refl)
    | inr (r, g, u, l) ↦
        inr ((r.0, e ∷ r.1), rw f (rw g refl), rw f (ap (λ xs. path_of e ∷ xs) u), ap suc l)
  ]
]

paths-take : (n : ℕ) (entries : List Entry) → paths (take n entries) ≡ take n (paths entries)
paths-take zero entries = refl
paths-take (suc n) [] = refl
paths-take (suc n) (e ∷ entries) = ap (λ xs. path_of e ∷ xs) (paths-take n entries)

take_all : (n : ℕ) (xs : List String) → length xs ≤ n → take n xs ≡ xs
take_all zero [] h = refl
take_all (suc n) [] h = refl
take_all zero (x ∷ xs) h = absurd (omega arith)
take_all (suc n) (x ∷ xs) h = ap (λ ys. x ∷ ys) (take_all n xs (omega arith))

-- On a list of distinct tracks within the cap, `Record` yields the track's path followed by the
-- other paths in their order, cut at the cap.
pub recorded-paths :
    (cap : ℕ) (t : Track) (at : ℕ) (entries : List Entry)
    → 0 < cap
    → length entries ≤ cap
    → IsDistinct (paths entries)
    → paths (recorded cap t at entries) ≡ take cap (t.path ∷ without t.path (paths entries))
unfolding recorded merge_track_meta merge_info
recorded-paths cap t at entries pos_cap small h = elim (take_out-paths t.path entries h) [
  | inl (e, u) ↦
      let grown : List Entry = record { track = t; played_at = at } ∷ entries in
      let old : t.path ∷ paths entries ≡ t.path ∷ without t.path (paths entries) =
        ap (λ xs. t.path ∷ xs) (sym (without_fresh t.path (paths entries) u)) in
      elim (Bool-cases (ltb cap (length grown))) [
        | inl b ↦
            rw (e, recorded)
              (rw (lt→ltb 0 cap pos_cap, b) (paths-take cap grown ∙ ap (λ xs. take cap xs) old))
        | inr b ↦
            let fits : length (t.path ∷ paths entries) ≤ cap =
              ground (arith, b, length-map path_of entries) in
            rw (e, recorded)
              (rw (lt→ltb 0 cap pos_cap, b)
                (sym (take_all cap (t.path ∷ paths entries) fits) ∙ ap (λ xs. take cap xs) old))
      ]
  | inr (r, e, u, l) ↦
      let fits : length (t.path ∷ without t.path (paths entries)) ≤ cap =
        omega (arith, l, ap length u, length-map path_of r.1) in
      rw (e, recorded)
        (ap (λ xs. t.path ∷ xs) u
          ∙ sym (take_all cap (t.path ∷ without t.path (paths entries)) fits))
]

take-seen_in :
    (n : ℕ) (s : String) (xs : List String) → seen_in s xs ≡ false → seen_in s (take n xs) ≡ false
take-seen_in zero s xs h = refl
take-seen_in (suc n) s [] h = refl
take-seen_in (suc n) s (x ∷ xs) h = ground (arith, take-seen_in n s xs)

pub take-IsDistinct : (n : ℕ) (xs : List String) → IsDistinct xs → IsDistinct (take n xs)
unfolding IsDistinct
take-IsDistinct zero xs h = tt
take-IsDistinct (suc n) [] h = tt
take-IsDistinct (suc n) (x ∷ xs) h = (take-seen_in n x xs h.0, take-IsDistinct n xs h.1)

seen_in-cons_apart :
    (seen : List String) (s x : String) → str_eq x s ≡ false → seen_in s (x ∷ seen) ≡ seen_in s seen
seen_in-cons_apart seen s x h = rw h refl

-- No path of the list has been seen.
AllFresh : List String → List String → Type 0
AllFresh seen [] = Unit {0}
AllFresh seen (x ∷ xs) = (seen_in x seen ≡ false) × AllFresh seen xs

AllFresh-cons :
    (seen : List String) (x : String) (xs : List String)
    → AllFresh seen xs
    → seen_in x xs ≡ false
    → AllFresh (x ∷ seen) xs
unfolding AllFresh
AllFresh-cons seen x [] f h = tt
AllFresh-cons seen x (y ∷ xs) f h =
    (ground (arith, f.0, h, eq_sym x y), AllFresh-cons seen x xs f.1 (ground (arith, h)))

dedupe_from-same :
    (seen : List String) (entries : List Entry)
    → AllFresh seen (paths entries)
    → IsDistinct (paths entries)
    → dedupe_from seen entries ≡ entries
unfolding dedupe_from AllFresh IsDistinct
dedupe_from-same seen [] f h = refl
dedupe_from-same seen (e ∷ entries) f h = rw (f.0) (
    ap (λ es. e ∷ es)
      (dedupe_from-same (path_of e ∷ seen) entries
        (AllFresh-cons seen (path_of e) (paths entries) f.1 h.0) h.1))

AllFresh-nil : (xs : List String) → AllFresh [] xs
unfolding AllFresh
AllFresh-nil [] = tt
AllFresh-nil (x ∷ xs) = (refl, AllFresh-nil xs)

-- A list of distinct tracks is read back as it is.
pub dedupe-same :
    (entries : List Entry) → IsDistinct (paths entries) → load_locked (holds entries) ≡ some entries
unfolding load_locked dedupe_newest_first
dedupe-same entries h =
    ap (λ es. some es) (dedupe_from-same [] entries (AllFresh-nil (paths entries)) h)

-- What is read lists each track once.
pub loaded-IsDistinct :
    (file : File) (entries : List Entry)
    → load_locked file ≡ some entries
    → IsDistinct (paths entries)
unfolding load_locked dedupe_newest_first IsDistinct
loaded-IsDistinct missing entries h =
    let g : [] ≡ entries = cc in subst (λ es. IsDistinct (paths es)) g tt
loaded-IsDistinct unreadable entries h = cc
loaded-IsDistinct (holds es) entries h =
    let g : dedupe_from [] es ≡ entries = cc in
    subst (λ x. IsDistinct (paths x)) g (dedupe_from-IsDistinct [] es)
