-- ===== src/Tap/Window.antt =====
-- player/tap.go: where the ring holds each frame.
use cliamp.Base.{
  ℕ, zero, suc, ◌+◌, ◌-◌, ◌%◌, ◌≤◌, ◌<◌, List, [], ◌∷◌, ◌++◌, length, set, get_elem?, ltb, ◌==◌,
  true, false, ◌≡◌, refl, sym, ap, ◌∙◌, ◌≢◌, arith, inl, inr, Bool-cases, ltb→lt, length-append,
  length-set, get_elem?-set, get_elem?-append_left, get_elem?-append_right,
}
use native.Mathlib.Nat.{mod-eq_of_lt, mod-eq-sub-mod, mod-add-mod, add-mod_right}
use cliamp.Tap.{silent, write_frames}

pub mod_under : (x s : ℕ) → s ≤ x → x < s + s → x % s ≡ x - s
mod_under x s h k = mod-eq-sub-mod h ∙ mod-eq_of_lt (omega (arith, h, k))

pub mod-lt : (x s : ℕ) → 0 < s → x % s < s
mod-lt x s h = grind (arith, h)

mod_apart : (w d s : ℕ) → 0 < d → d < s → (w + d) % s ≢ w % s
mod_apart w d s pos small e =
    let low : w % s < s = mod-lt w s (omega (arith, pos, small)) in
    let split : (w % s + d) % s ≡ w % s = mod-add-mod w s d ∙ e in
    elim (Bool-cases (ltb (w % s + d) s)) [
      | inl h ↦
          let direct = mod-eq_of_lt (ltb→lt (w % s + d) s h) in omega (arith, direct, split, pos)
      | inr h ↦
          let past : s ≤ w % s + d = ground (arith, h) in
          let around = mod_under (w % s + d) s past (omega (arith, low, small)) in
          omega (arith, around, split, low, small, past)
    ]

other_index : (i j : ℕ) → i ≢ j → (i == j) ≡ false
other_index i j h = elim (Bool-cases (i == j)) [
  | inl e ↦ absurd (h (ground (arith, e)))
  | inr e ↦ e
]

same_index : (i : ℕ) → (i == i) ≡ true
same_index i = ground arith

append_assoc : {A : Type 0} (a b c : List A) → (a ++ b) ++ c ≡ a ++ (b ++ c)
append_assoc [] b c = refl
append_assoc (x ∷ a) b c = ap (λ y. x ∷ y) (append_assoc a b c)

pub append_nil : {A : Type 0} (a : List A) → a ++ [] ≡ a
append_nil [] = refl
append_nil (x ∷ a) = ap (λ y. x ∷ y) (append_nil a)

pub length-silent : {A : Type 0} (silence : A) (n : ℕ) → length (silent silence n) ≡ n
length-silent silence zero = refl
length-silent silence (suc n) = ap suc (length-silent silence n)

-- The frames that a ring of this size has seen: silence at first, then what was written.
abbrev pub heard : {A : Type 0} → A → ℕ → List A → List A
heard silence size all = silent silence size ++ all

-- The place of each of the latest frames.
pub record Holds {A : Type 0} (silence : A) (size : ℕ) (buf : List A) (pos : ℕ) (all : List A)
    : Type 0 where
  pub length_eq : length buf ≡ size
  pub positive : 0 < size
  pub pos_eq : pos ≡ length all % size
  pub frame_eq :
      (i : ℕ)
      → i < size
      → get_elem? buf ((length all + i) % size)
        ≡ get_elem? (heard silence size all) (length all + i)

module _ {A : Type 0} (silence : A) where
  pub length-heard : (size : ℕ) (all : List A) → length (heard silence size all) ≡ size + length all
  length-heard size all =
      omega (arith, length-append (silent silence size) all, length-silent silence size)

  written-frame :
      (size : ℕ) (buf : List A) (pos : ℕ) (all : List A) (x : A) (i : ℕ)
      → Holds silence size buf pos all
      → i < size
      → get_elem? (set buf pos x) ((length all + 1 + i) % size)
        ≡ get_elem? (heard silence size all ++ x ∷ []) (length all + 1 + i)
  written-frame size buf pos all x i h small =
      let w : ℕ = length all in
      let inside : pos < length buf =
        omega (arith, mod-lt w size h.positive, h.pos_eq, h.length_eq) in
      elim (Bool-cases (ltb (i + 1) size)) [
        | inl older ↦
            let moved : w + 1 + i ≡ w + (i + 1) = omega arith in
            let apart : (pos == (w + (i + 1)) % size) ≡ false =
              other_index pos ((w + (i + 1)) % size) (λ e.
                mod_apart w (i + 1) size (omega arith) (ltb→lt (i + 1) size older)
                  (sym e ∙ h.pos_eq)) in
            rw moved (
              get_elem?-set buf pos ((w + (i + 1)) % size) x inside
              ∙ (rw apart (h.frame_eq (i + 1) (ltb→lt (i + 1) size older))
                  ∙ sym (
                      get_elem?-append_left (heard silence size all) (x ∷ []) (w + (i + 1))
                        (omega (arith, length-heard size all, ltb→lt (i + 1) size older)))))
        | inr newest ↦
            let moved : w + 1 + i ≡ w + size = ground (arith, newest, small) in
            let here : (w + size) % size ≡ pos = add-mod_right w size ∙ sym h.pos_eq in
            let last : w + size ≡ length (heard silence size all) + 0 =
              omega (arith, length-heard size all) in
            ap (get_elem? (set buf pos x)) (ap (λ k. k % size) moved ∙ here)
            ∙ (get_elem?-set buf pos pos x inside
                ∙ (rw (same_index pos) refl
                    ∙ sym (
                        ap (get_elem? (heard silence size all ++ x ∷ [])) (moved ∙ last)
                        ∙ get_elem?-append_right (heard silence size all) (x ∷ []) 0)))
      ]

  written-Holds :
      (size : ℕ) (buf : List A) (pos : ℕ) (all : List A) (x : A)
      → Holds silence size buf pos all
      → Holds silence size (set buf pos x) ((pos + 1) % size) (all ++ x ∷ [])
  written-Holds size buf pos all x h =
      let more : length (all ++ x ∷ []) ≡ length all + 1 = length-append all (x ∷ []) in
      record {
        length_eq = length-set buf pos x ∙ h.length_eq;
        positive = h.positive;
        pos_eq =
            ap (λ p. (p + 1) % size) h.pos_eq
            ∙ (mod-add-mod (length all) size 1 ∙ ap (λ n. n % size) (sym more));
        frame_eq = λ i small. rw more (
            written-frame size buf pos all x i h small
            ∙ ap (λ l. get_elem? l (length all + 1 + i))
                (append_assoc (silent silence size) all (x ∷ [])));
      }

  pub write_frames-Holds :
      (size : ℕ) (buf : List A) (pos : ℕ) (all frames : List A)
      → Holds silence size buf pos all
      → let r = write_frames size buf pos frames in Holds silence size r.0 r.1 (all ++ frames)
  unfolding write_frames
  write_frames-Holds size buf pos all [] h = rw (append_nil all) h
  write_frames-Holds size buf pos all (x ∷ frames) h = rw⁻¹ (append_assoc all (x ∷ []) frames) (
      write_frames-Holds size (set buf pos x) ((pos + 1) % size) (all ++ x ∷ []) frames
        (written-Holds size buf pos all x h))
