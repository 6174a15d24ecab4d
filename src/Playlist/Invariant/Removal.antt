-- ===== src/Playlist/Invariant/Removal.antt =====
-- `Remove` and `DisableSmart` keep a playlist well-formed, and do not panic on one.
use cliamp.Base.{
  ℕ, zero, suc, ◌+◌, ◌-◌, ◌≤◌, ◌<◌, ◌≡◌, refl, ap, subst, ◌∙◌, inl, inr, false, Option, none, some,
  List, [], ◌∷◌, arith, ltb, ◌==◌, if◌then◌else◌, Bool-cases, Option-cases, length, get_elem?, drop,
  delete, range, range_from, length-delete, get_elem?-some,
}
use cliamp.Base.Outcomes.{ok}
use cliamp.Base.Int.{ℤ, pos, index_in, index_in-lt}
use cliamp.Base.Counts.{count}
use cliamp.Playlist.Track.{Track}
use cliamp.Playlist.State.{Playlist}
use cliamp.Playlist.Editing.{
  drop_refs, last_index_of, removed_pos, shift_queued, remove_within, remove,
}
use cliamp.Playlist.Smart.{upcoming_order, collect_smart, sort, remove_all, disable_smart}
use cliamp.Base.Permutations.{IsPermutation, IsPermutation-lt}
use cliamp.Playlist.Invariant.{QueuedBelow, AllBelow, IsSound, IsWellFormed, Returns}
use cliamp.Playlist.Invariant.Positions.{rebuild-IsCoherent}
use cliamp.Playlist.Navigation.Safety.{Keeps}

count-drop_refs :
    (idx a : ℕ) (xs : List ℕ)
    → count a (drop_refs idx xs) ≡ (if ltb a idx then count a xs else count (a + 1) xs)
unfolding drop_refs
count-drop_refs idx a [] = ground arith
count-drop_refs idx a (x ∷ xs) = ground (arith, count-drop_refs idx a xs)

length-drop_refs : (idx : ℕ) (xs : List ℕ) → length (drop_refs idx xs) + count idx xs ≡ length xs
unfolding drop_refs
length-drop_refs idx [] = refl
length-drop_refs idx (x ∷ xs) = ground (arith, length-drop_refs idx xs)

drop_refs-IsPermutation :
    (idx n : ℕ) (xs : List ℕ)
    → idx < n
    → IsPermutation xs n
    → IsPermutation (drop_refs idx xs) (n - 1)
drop_refs-IsPermutation idx n xs h w = record {
  length_eq = ground (arith, length-drop_refs idx xs, w.counts idx, w.length_eq);
  counts = λ a. ground (arith, count-drop_refs idx a xs, w.counts a, w.counts (a + 1));
}

-- Below the removed number nothing changes, above it all moves down by one.
drop_refs-range_from_above :
    (idx i k : ℕ) → idx < i → drop_refs idx (range_from i k) ≡ range_from (i - 1) k
unfolding drop_refs
drop_refs-range_from_above idx i zero h = refl
drop_refs-range_from_above idx i (suc k) h =
    let e : range_from (i + 1 - 1) k ≡ range_from (i - 1 + 1) k =
      ap (λ j. range_from j k) (omega arith) in
    ground (arith, drop_refs-range_from_above idx (i + 1) k, e)

drop_refs-range_from :
    (idx i k : ℕ)
    → i ≤ idx
    → idx < i + suc k
    → drop_refs idx (range_from i (suc k)) ≡ range_from i k
unfolding drop_refs
drop_refs-range_from idx i zero h l = ground arith
drop_refs-range_from idx i (suc k) h l = elim (Bool-cases (i == idx)) [
  | inl same ↦
      let e : range_from (i + 1 - 1) (suc k) ≡ range_from i (suc k) =
        ap (λ j. range_from j (suc k)) (omega arith) in
      rw same (drop_refs-range_from_above idx (i + 1) (suc k) (ground arith) ∙ e)
  | inr differs ↦
      let later : ltb idx i ≡ false = ground arith in
      rw (differs, later)
        (ap (◌∷◌ i) (drop_refs-range_from idx (i + 1) k (ground arith) (omega arith)))
]

drop_refs-range : (idx n : ℕ) → idx < n → drop_refs idx (range n) ≡ range (n - 1)
drop_refs-range idx zero h = absurd (omega arith)
drop_refs-range idx (suc n) h =
    drop_refs-range_from idx 0 n (omega arith) (omega arith) ∙ ap range (omega arith)

AllBelow-drop_refs :
    (idx n : ℕ) (xs : List ℕ) → idx < n → AllBelow n xs → AllBelow (n - 1) (drop_refs idx xs)
unfolding drop_refs
AllBelow-drop_refs idx n [] h a = tt
AllBelow-drop_refs idx n (x ∷ xs) h a = ground (arith, AllBelow-drop_refs idx n xs h a.1)

QueuedBelow-shift :
    (idx n : ℕ) (q : Option ℕ)
    → idx < n
    → QueuedBelow n q
    → QueuedBelow (n - 1) (shift_queued idx q)
unfolding shift_queued
QueuedBelow-shift idx n none h b = tt
QueuedBelow-shift idx n (some q) h b = ground arith

removed_pos-le : (r : Option ℕ) (position n : ℕ) → removed_pos r position n ≤ n - 1
unfolding removed_pos
removed_pos-le r position n = ground arith

remove_within-IsWellFormed :
    (p : Playlist) (idx : ℕ)
    → IsWellFormed p
    → idx < length p.tracks.items
    → IsWellFormed (remove_within p idx)
unfolding remove_within
remove_within-IsWellFormed p idx w h =
    let n : ℕ = length p.tracks.items in
    let left : n - 1 ≡ length (delete p.tracks.items idx) =
      omega (arith, length-delete p.tracks.items idx h) in
    record {
      sound =
          subst
            (λ m.
              IsSound m (drop_refs idx p.order.items)
                (removed_pos (last_index_of idx p.order.items 0) p.pos
                  (length (drop_refs idx p.order.items)))
                p.shuffle (drop_refs idx p.queue.items) (shift_queued idx p.queued_idx))
            left
            (record {
              permutation = drop_refs-IsPermutation idx n p.order.items h w.sound.permutation;
              pos_le = omega (
                arith,
                removed_pos-le (last_index_of idx p.order.items 0) p.pos
                    (length (drop_refs idx p.order.items)),
                (drop_refs-IsPermutation idx n p.order.items h w.sound.permutation).length_eq,
              );
              straight = λ off. ap (drop_refs idx) (w.sound.straight off) ∙ drop_refs-range idx n h;
              queue_below = AllBelow-drop_refs idx n p.queue.items h w.sound.queue_below;
              queued_below = QueuedBelow-shift idx n p.queued_idx h w.sound.queued_below;
            });
      coherent = rebuild-IsCoherent (drop_refs idx p.queue.items);
    }

pub remove-IsWellFormed : (p : Playlist) (i : ℤ) → IsWellFormed p → IsWellFormed (remove p i).0
unfolding remove
remove-IsWellFormed p i w = elim (Option-cases (index_in i (length p.tracks.items))) [
  | inl e ↦ rw (e, remove) w
  | inr (j, e) ↦ rw (e, remove) (remove_within-IsWellFormed p j w (index_in-lt i _ e))
]

remove_all-IsWellFormed :
    (p : Playlist) (doomed : List ℕ) → IsWellFormed p → IsWellFormed (remove_all p doomed)
unfolding remove_all
remove_all-IsWellFormed p [] w = w
remove_all-IsWellFormed p (x ∷ doomed) w =
    remove-IsWellFormed (remove_all p doomed) (pos x) (remove_all-IsWellFormed p doomed w)

collect_smart-ok :
    (tracks : List Track) (xs : List ℕ)
    → AllBelow (length tracks) xs
    → (rows : List ℕ) × (collect_smart tracks xs ≡ ok rows)
unfolding collect_smart
collect_smart-ok tracks [] b = ([], refl)
collect_smart-ok tracks (x ∷ xs) b =
    let (t, e) = get_elem?-some tracks x b.0 in
    let (rows, f) = collect_smart-ok tracks xs b.1 in
    (if t.smart then x ∷ rows else rows, rw e (rw f refl))

AllBelow-of_get :
    (n : ℕ) (xs : List ℕ) → ((i a : ℕ) → get_elem? xs i ≡ some a → a < n) → AllBelow n xs
AllBelow-of_get n [] h = tt
AllBelow-of_get n (x ∷ xs) h = (h 0 x refl, AllBelow-of_get n xs (λ i a e. h (suc i) a e))

AllBelow-drop : (n k : ℕ) (xs : List ℕ) → AllBelow n xs → AllBelow n (drop k xs)
AllBelow-drop n zero xs h = h
AllBelow-drop n (suc k) [] h = tt
AllBelow-drop n (suc k) (x ∷ xs) h = AllBelow-drop n k xs h.1

-- The entries of the order behind the position are tracks.
upcoming_order-AllBelow :
    (p : Playlist) → IsWellFormed p → AllBelow (length p.tracks.items) (upcoming_order p)
upcoming_order-AllBelow p w = AllBelow-drop (length p.tracks.items) (p.pos + 1) p.order.items (
    AllBelow-of_get (length p.tracks.items) p.order.items
      (λ i a e. IsPermutation-lt p.order.items _ i w.sound.permutation e))

pub disable_smart-Keeps : (p : Playlist) → IsWellFormed p → Returns Keeps (disable_smart p)
unfolding disable_smart
disable_smart-Keeps p w =
    let (rows, e) =
      collect_smart-ok p.tracks.items (upcoming_order p) (upcoming_order-AllBelow p w) in
    rw e (
      remove_all-IsWellFormed (record p { smart = false }) (sort rows)
        (record { sound = w.sound; coherent = w.coherent }))
