-- ===== src/Playlist/Invariant/Positions.antt =====
-- The map of queue positions: rebuilding it gives every track its first place in the queue.
use mathlib.Core.List.{concat-ne-nil}
use cliamp.Base.{
  ℕ, ◌+◌, ◌≡◌, refl, inl, inr, false, not, ◌||◌, none, some, List, [], ◌∷◌, ◌++◌, arith, ◌==◌,
  if◌then◌else◌, Bool-cases, length,
}
use cliamp.Playlist.State.{insert_new, rebuild_from, rebuild_queue_positions, lookup_in, has_key}
use cliamp.Playlist.Invariant.{first_position, IsCoherent}

lookup_in-has_key : (k : ℕ) (m : List (ℕ × ℕ)) → has_key m k ≡ false → lookup_in m k ≡ 0
lookup_in-has_key k [] h = refl
lookup_in-has_key k ((j, v) ∷ m) h = ground (arith, lookup_in-has_key k m)

rebuild_from-lookup :
    (k i : ℕ) (q : List ℕ) (m : List (ℕ × ℕ))
    → lookup_in (rebuild_from i q m) k ≡ (
        if has_key m k
        then lookup_in m k
        else if first_position q k == 0
        then 0
        else i + first_position q k)
unfolding rebuild_from
rebuild_from-lookup k i [] m = elim (Bool-cases (has_key m k)) [
  | inl e ↦ rw e refl
  | inr e ↦ rw e (lookup_in-has_key k m e)
]
rebuild_from-lookup k i (x ∷ q) m =
    ground (arith, rebuild_from-lookup k (i + 1) q (insert_new x (i + 1) m))

rebuild_from-has_key :
    (k i : ℕ) (q : List ℕ) (m : List (ℕ × ℕ))
    → has_key (rebuild_from i q m) k ≡ (has_key m k || not (first_position q k == 0))
unfolding rebuild_from
rebuild_from-has_key k i [] m = ground arith
rebuild_from-has_key k i (x ∷ q) m =
    ground (arith, rebuild_from-has_key k (i + 1) q (insert_new x (i + 1) m))

-- The rebuilt map gives each track its first place in the queue, or 0, has the queued tracks
-- for keys, and is nil for an empty queue.
pub rebuild-IsCoherent : (q : List ℕ) → IsCoherent (rebuild_queue_positions q) q
unfolding rebuild_queue_positions
rebuild-IsCoherent [] = record { finds = λ k. refl; keys = λ k. refl; nil_of_empty = λ e. refl }
rebuild-IsCoherent (x ∷ q) = record {
  finds = λ k. ground (arith, rebuild_from-lookup k 0 (x ∷ q) []);
  keys = λ k. rebuild_from-has_key k 0 (x ∷ q) [];
  nil_of_empty = λ e. cc;
}

pub nil-IsCoherent : IsCoherent none []
nil-IsCoherent = record { finds = λ k. refl; keys = λ k. refl; nil_of_empty = λ e. refl }

first_position-append :
    (q : List ℕ) (i k : ℕ)
    → first_position (q ++ i ∷ []) k
      ≡ (if first_position q k == 0 then if i == k then length q + 1 else 0 else first_position q k)
first_position-append [] i k = ground arith
first_position-append (x ∷ q) i k = ground (arith, first_position-append q i k)

-- A new entry at the end of the queue takes a place in the map if its track has none.
pub append-IsCoherent :
    (m : List (ℕ × ℕ)) (q : List ℕ) (i : ℕ)
    → IsCoherent (some m) q
    → IsCoherent (some (insert_new i (length q + 1) m)) (q ++ i ∷ [])
append-IsCoherent m q i c = record {
  finds = λ k. ground (arith, first_position-append q i k, c.finds k, c.keys k, c.keys i);
  keys = λ k. ground (arith, first_position-append q i k, c.keys k, c.keys i);
  nil_of_empty = λ e. absurd (concat-ne-nil i q e);
}

pub append-IsCoherent_nil :
    (q : List ℕ) (i : ℕ)
    → IsCoherent none q
    → IsCoherent (some ((i, length q + 1) ∷ [])) (q ++ i ∷ [])
append-IsCoherent_nil q i c = record {
  finds = λ k. ground (arith, first_position-append q i k, c.finds k);
  keys = λ k. ground (arith, first_position-append q i k, c.finds k);
  nil_of_empty = λ e. absurd (concat-ne-nil i q e);
}
