-- ===== src/Tap/Latest.antt =====
-- player/tap.go: what the readers of the ring get.
use cliamp.Base.{
  ℕ, zero, suc, ◌+◌, ◌-◌, ◌%◌, ◌≤◌, ◌<◌, min, List, [], ◌∷◌, length, take, drop, get_elem?, ltb,
  ◌≡◌, refl, sym, ap, ◌∙◌, arith, inl, inr, Bool-cases, ltb→lt, length-append, length-take,
  length-drop, get_elem?-append_left, get_elem?-append_right,
}
use native.Mathlib.Nat.{mod-eq_of_lt, mod-add-mod}
use cliamp.Tap.{window}
use cliamp.Tap.Window.{mod_under, mod-lt, heard, Holds, length-heard}

get_elem?-take :
    {A : Type 0} (n : ℕ) (xs : List A) (k : ℕ) → k < n → get_elem? (take n xs) k ≡ get_elem? xs k
get_elem?-take zero xs k h = absurd (omega (arith, h))
get_elem?-take (suc n) [] k h = refl
get_elem?-take (suc n) (x ∷ xs) zero h = refl
get_elem?-take (suc n) (x ∷ xs) (suc k) h = get_elem?-take n xs k (omega (arith, h))

get_elem?-drop :
    {A : Type 0} (m : ℕ) (xs : List A) (k : ℕ) → get_elem? (drop m xs) k ≡ get_elem? xs (m + k)
get_elem?-drop zero xs k = ap (get_elem? xs) (omega arith)
get_elem?-drop (suc m) [] k = refl
get_elem?-drop (suc m) (x ∷ xs) k =
    let shifted : suc m + k ≡ suc (m + k) = omega arith in
    get_elem?-drop m xs k ∙ ap (get_elem? (x ∷ xs)) (sym shifted)

-- Lists of the same length with the same elements.
list_ext :
    {A : Type 0} (xs ys : List A)
    → length xs ≡ length ys
    → ((k : ℕ) → k < length xs → get_elem? xs k ≡ get_elem? ys k)
    → xs ≡ ys
list_ext [] [] e h = refl
list_ext [] (y ∷ ys) e h = absurd (omega (arith, e))
list_ext (x ∷ xs) [] e h = absurd (omega (arith, e))
list_ext (x ∷ xs) (y ∷ ys) e h =
    let first : x ≡ y = cc (h 0 (omega arith)) in
    let rest = list_ext xs ys (omega (arith, e)) (λ k l. h (suc k) (omega (arith, l))) in
    rw first (ap (λ l. y ∷ l) rest)

length-window :
    {A : Type 0} (size : ℕ) (buf : List A) (start n : ℕ)
    → length buf ≡ size
    → start < size
    → n ≤ size
    → length (window size buf start n) ≡ n
length-window size buf start n e h small =
    let first : ℕ = min n (size - start) in
    omega (
      arith,
      length-append (take first (drop start buf)) (take (n - first) buf),
      length-take first (drop start buf),
      length-drop start buf,
      length-take (n - first) buf,
      e,
      h,
      small,
    )

get_elem?-window :
    {A : Type 0} (size : ℕ) (buf : List A) (start n k : ℕ)
    → length buf ≡ size
    → start < size
    → n ≤ size
    → k < n
    → get_elem? (window size buf start n) k ≡ get_elem? buf ((start + k) % size)
get_elem?-window size buf start n k e h small lt =
    let first : ℕ = min n (size - start) in
    let front : length (take first (drop start buf)) ≡ first =
      omega (arith, length-take first (drop start buf), length-drop start buf, e) in
    elim (Bool-cases (ltb k first)) [
      | inl within ↦
          let l : k < first = ltb→lt k first within in
          get_elem?-append_left (take first (drop start buf)) (take (n - first) buf) k
            (omega (arith, l, front))
          ∙ (get_elem?-take first (drop start buf) k l
              ∙ (get_elem?-drop start buf k
                  ∙ ap (get_elem? buf) (sym (mod-eq_of_lt (omega (arith, l, h))))))
      | inr beyond ↦
          let past : first ≤ k = ground (arith, beyond) in
          let whole : first ≡ size - start = omega (arith, past, lt) in
          let moved : k ≡ length (take first (drop start buf)) + (k - first) =
            omega (arith, front, past) in
          let around : (start + k) % size ≡ k - first =
            mod_under (start + k) size (omega (arith, whole, past, h)) (omega (arith, h, lt, small))
            ∙ omega (arith, whole, past, h) in
          ap (get_elem? (window size buf start n)) moved
          ∙ (get_elem?-append_right (take first (drop start buf)) (take (n - first) buf) (k - first)
              ∙ (get_elem?-take (n - first) buf (k - first) (omega (arith, past, lt))
                  ∙ ap (get_elem? buf) (sym around)))
    ]

module _ {A : Type 0} (silence : A) where
  -- A window of the ring is a stretch of what was heard, if the ring still holds all of it.
  pub window-heard :
      (size : ℕ) (buf : List A) (pos : ℕ) (all : List A) (from n : ℕ)
      → Holds silence size buf pos all
      → n ≤ size
      → length all ≤ from
      → from + n ≤ length all + size
      → window size buf (from % size) n ≡ take n (drop from (heard silence size all))
  window-heard size buf pos all from n h small low high =
      let start : from % size < size = mod-lt from size h.positive in
      let len = length-window size buf (from % size) n h.length_eq start small in
      let len' = length-take n (drop from (heard silence size all)) in
      let len'' = length-drop from (heard silence size all) in
      list_ext (window size buf (from % size) n) (take n (drop from (heard silence size all)))
        (omega (arith, len, len', len'', length-heard silence size all, high))
        (λ k l.
          let lt : k < n = omega (arith, l, len) in
          let i : ℕ = from + k - length all in
          let same : from + k ≡ length all + i = omega (arith, low) in
          get_elem?-window size buf (from % size) n k h.length_eq start small lt
          ∙ (ap (get_elem? buf) (mod-add-mod from size k ∙ ap (λ m. m % size) same)
              ∙ (h.frame_eq i (omega (arith, low, high, lt))
                  ∙ sym (
                      get_elem?-take n (drop from (heard silence size all)) k lt
                      ∙ (get_elem?-drop from (heard silence size all) k
                          ∙ ap (get_elem? (heard silence size all)) same)))))
