-- ===== src/Playlist/Slots/Laws.antt =====
-- The searches of playlist/playlist.go find the nearest playable slot, and fail only if there is
-- none.
use cliamp.Base.{
  ℕ, ℕ_discrete, zero, suc, ◌+◌, ◌-◌, ◌≤◌, ◌<◌, min, ◌≡◌, refl, sym, ap, ◌∙◌, inl, inr, true, false,
  Option, none, some, List, [], ◌∷◌, ◌++◌, arith, Bool-cases, Option-cases, length, get_elem?, drop,
  All,
}
use cliamp.Playlist.Track.{Track}
use cliamp.Playlist.State.{Playlist}
use cliamp.Playlist.Slots.{
  is_playable, first_slot, first_playable_order_slot, last_slot, last_playable_order_slot,
  playable_queued,
}
use mathlib.Core.Bool.{false≢true}

-- A playable index has a track, which is not marked unplayable.
pub is_playable-track :
    (tracks : List Track) (idx : ℕ)
    → is_playable tracks idx ≡ true
    → (t : Track) × (get_elem? tracks idx ≡ some t) × (t.unplayable ≡ false)
unfolding is_playable
is_playable-track tracks idx h = elim (Option-cases (get_elem? tracks idx)) [
  | inl e ↦ absurd (false≢true (rw (e, is_playable) at h))
  | inr (t, e) ↦ (t, e, ground arith)
]

-- The slot `s.0` holds the playable track `s.1`, and is the first such slot from `from` on.
pub record IsFirstPlayable (tracks : List Track) (order : List ℕ) (from : ℕ) (s : ℕ × ℕ)
    : Type 0 where
  pub from_le : from ≤ s.0
  pub holds : get_elem? order s.0 ≡ some s.1
  pub playable : is_playable tracks s.1 ≡ true
  pub first :
      (j a : ℕ) → from ≤ j → j < s.0 → get_elem? order j ≡ some a → is_playable tracks a ≡ false

-- No slot from `from` up to `to` holds a playable track.
abbrev pub NonePlayable : List Track → List ℕ → ℕ → ℕ → Type 0
NonePlayable tracks order from to =
    (j a : ℕ) → from ≤ j → j < to → get_elem? order j ≡ some a → is_playable tracks a ≡ false

-- What `firstPlayableOrderSlot(from, to)` may return.
abbrev pub FirstPlayable : List Track → List ℕ → ℕ → ℕ → Option (ℕ × ℕ) → Type 0
FirstPlayable tracks order from to none = NonePlayable tracks order from to
FirstPlayable tracks order from to (some s) = IsFirstPlayable tracks order from s × (s.0 < to)

get_elem?-drop {ℓ} :
    {A : Type ℓ} (n j : ℕ) (xs : List A) → get_elem? (drop n xs) j ≡ get_elem? xs (n + j)
get_elem?-drop zero j xs = ap (get_elem? xs) (omega arith)
get_elem?-drop (suc n) j [] = refl
get_elem?-drop (suc n) j (x ∷ xs) =
    let e : suc n + j ≡ suc (n + j) = omega arith in rw e (get_elem?-drop n j xs)

-- The slots of the rest `xs` of the order, which begins at slot `i`.
first_slot-none :
    (tracks : List Track) (xs : List ℕ) (i k : ℕ)
    → first_slot tracks xs i k ≡ none
    → (j a : ℕ) → j < k
    → get_elem? xs j ≡ some a
    → is_playable tracks a ≡ false
unfolding first_slot
first_slot-none tracks [] i k h j a l g = absurd (ground arith)
first_slot-none tracks (x ∷ xs) i zero h j a l g = absurd (omega arith)
first_slot-none tracks (x ∷ xs) i (suc k) h zero a l g = ground arith
first_slot-none tracks (x ∷ xs) i (suc k) h (suc j) a l g =
    first_slot-none tracks xs (i + 1) k (ground arith) j a (omega arith) g

-- The place `m` of the slot found, counted from the start of the rest.
record FoundAt (tracks : List Track) (xs : List ℕ) (i k : ℕ) (s : ℕ × ℕ) : Type 0 where
  place : ℕ
  slot_eq : s.0 ≡ i + place
  place_lt : place < k
  found : get_elem? xs place ≡ some s.1
  playable : is_playable tracks s.1 ≡ true
  before : (j a : ℕ) → j < place → get_elem? xs j ≡ some a → is_playable tracks a ≡ false

FoundAt-cons :
    (tracks : List Track) (x : ℕ) (xs : List ℕ) (i k : ℕ) (s : ℕ × ℕ)
    → is_playable tracks x ≡ false
    → FoundAt tracks xs (i + 1) k s
    → FoundAt tracks (x ∷ xs) i (suc k) s
FoundAt-cons tracks x xs i k s e f = record {
  place = suc f.place;
  slot_eq = omega (arith, f.slot_eq);
  place_lt = omega (arith, f.place_lt);
  found = f.found;
  playable = f.playable;
  before = before_cons;
}
  where
    before_cons :
        (j a : ℕ) → j < suc f.place → get_elem? (x ∷ xs) j ≡ some a → is_playable tracks a ≡ false
    before_cons zero a l g = ground arith
    before_cons (suc j) a l g = f.before j a (omega arith) g

first_slot-some :
    (tracks : List Track) (xs : List ℕ) (i k : ℕ) (s : ℕ × ℕ)
    → first_slot tracks xs i k ≡ some s
    → FoundAt tracks xs i k s
unfolding first_slot
first_slot-some tracks [] i k s h = absurd (ground arith)
first_slot-some tracks (x ∷ xs) i zero s h = absurd (ground arith)
first_slot-some tracks (x ∷ xs) i (suc k) s h = elim (Bool-cases (is_playable tracks x)) [
  | inl e ↦ record {
    place = 0;
    slot_eq = ground arith;
    place_lt = omega arith;
    found = ground arith;
    playable = ground arith;
    before = λ j a l g. absurd (omega arith);
  }
  | inr e ↦ FoundAt-cons tracks x xs i k s e (first_slot-some tracks xs (i + 1) k s (ground arith))
]

-- `firstPlayableOrderSlot` returns the first slot from `from` on and before `to` that holds a playable
-- track, with that track, or, if it returns none, every such slot holds an unplayable one.
pub first_playable_order_slot_lem :
    (p : Playlist) (from to : ℕ)
    → FirstPlayable p.tracks.items p.order.items from to (first_playable_order_slot p from to)
unfolding first_playable_order_slot
first_playable_order_slot_lem p from to =
    elim (Option-cases (first_slot p.tracks.items (drop from p.order.items) from (to - from))) [
      | inl e ↦
          rw (e, first_playable_order_slot)
            (λ j a l h g.
              first_slot-none p.tracks.items (drop from p.order.items) from (to - from) e (j - from)
                a (omega arith)
                (get_elem?-drop from (j - from) p.order.items
                  ∙ ap (get_elem? p.order.items) (omega arith)
                  ∙ g))
      | inr (s, e) ↦
          let f = first_slot-some p.tracks.items (drop from p.order.items) from (to - from) s e in
          rw (e, first_playable_order_slot)
            (
              record {
                from_le = omega (arith, f.slot_eq);
                holds =
                    ap (get_elem? p.order.items) f.slot_eq
                    ∙ sym (get_elem?-drop from f.place p.order.items)
                    ∙ f.found;
                playable = f.playable;
                first = λ j a l h g. f.before (j - from) a (omega (arith, f.slot_eq)) (
                    get_elem?-drop from (j - from) p.order.items
                    ∙ ap (get_elem? p.order.items) (omega arith)
                    ∙ g);
              },
              omega (arith, f.slot_eq, f.place_lt),
            )
    ]

-- The slot is the last playable one below `below`.
pub record IsLastPlayable (tracks : List Track) (order : List ℕ) (below : ℕ) (s : ℕ × ℕ)
    : Type 0 where
  pub lt_below : s.0 < below
  pub holds : get_elem? order s.0 ≡ some s.1
  pub playable : is_playable tracks s.1 ≡ true
  pub last :
      (j a : ℕ) → s.0 < j → j < below → get_elem? order j ≡ some a → is_playable tracks a ≡ false

abbrev pub LastPlayable : List Track → List ℕ → ℕ → Option (ℕ × ℕ) → Type 0
LastPlayable tracks order below none = NonePlayable tracks order 0 below
LastPlayable tracks order below (some s) = IsLastPlayable tracks order below s

NonePlayable-suc :
    (tracks : List Track) (order : List ℕ) (i from : ℕ)
    → NonePlayable tracks order from i
    → ((a : ℕ) → get_elem? order i ≡ some a → is_playable tracks a ≡ false)
    → NonePlayable tracks order from (suc i)
NonePlayable-suc tracks order i from h e j a l u g = elim (ℕ_discrete j i) [
  | yes q ↦ e a (ap (get_elem? order) (sym q) ∙ g)
  | no n ↦ h j a l (omega arith) g
]

-- A slot that holds no playable track leaves the search to the slots below it.
LastPlayable-suc :
    (tracks : List Track) (order : List ℕ) (i : ℕ) (r : Option (ℕ × ℕ))
    → LastPlayable tracks order i r
    → ((a : ℕ) → get_elem? order i ≡ some a → is_playable tracks a ≡ false)
    → LastPlayable tracks order (suc i) r
LastPlayable-suc tracks order i none h e = NonePlayable-suc tracks order i 0 h e
LastPlayable-suc tracks order i (some s) h e = record {
  lt_below = omega (arith, h.lt_below);
  holds = h.holds;
  playable = h.playable;
  last = NonePlayable-suc tracks order i (suc s.0) h.last e;
}

last_slot_lem :
    (tracks : List Track) (order : List ℕ) (n : ℕ)
    → LastPlayable tracks order n (last_slot tracks order n)
unfolding last_slot
last_slot_lem tracks order zero = λ j a l h. absurd (omega arith)
last_slot_lem tracks order (suc i) = elim (Option-cases (get_elem? order i)) [
  | inl e ↦
      rw (e, last_slot)
        (LastPlayable-suc tracks order i _ (last_slot_lem tracks order i) (λ a g. cc))
  | inr (x, e) ↦ elim (Bool-cases (is_playable tracks x)) [
    | inl f ↦
        rw (e, last_slot)
          (rw f (record {
            lt_below = omega arith;
            holds = e;
            playable = f;
            last = λ j a l u g. absurd (omega arith);
          }))
    | inr f ↦
        rw (e, last_slot)
          (rw f (
            LastPlayable-suc tracks order i _ (last_slot_lem tracks order i) (λ a g. ground arith)))
  ]
]

pub last_playable_order_slot_lem :
    (p : Playlist) (below : ℕ)
    → LastPlayable p.tracks.items p.order.items
        (min below (length p.order.items))
        (last_playable_order_slot p below)
unfolding last_playable_order_slot
last_playable_order_slot_lem p below = last_slot_lem p.tracks.items p.order.items _

-- The first playable entry of the queue and what stands behind it.
pub record IsFirstQueued (tracks : List Track) (queue : List ℕ) (s : ℕ × List ℕ) : Type 0 where
  pub skipped : List ℕ
  pub splits : queue ≡ skipped ++ s.0 ∷ s.1
  pub playable : is_playable tracks s.0 ≡ true
  pub unplayable : All (λ a. is_playable tracks a ≡ false) skipped

abbrev pub FirstQueued : List Track → List ℕ → Option (ℕ × List ℕ) → Type 0
FirstQueued tracks queue none = All (λ a. is_playable tracks a ≡ false) queue
FirstQueued tracks queue (some s) = IsFirstQueued tracks queue s

FirstQueued-cons :
    (tracks : List Track) (x : ℕ) (queue : List ℕ) (r : Option (ℕ × List ℕ))
    → is_playable tracks x ≡ false
    → FirstQueued tracks queue r
    → FirstQueued tracks (x ∷ queue) r
FirstQueued-cons tracks x queue none e h = (e, h)
FirstQueued-cons tracks x queue (some s) e h = record {
  skipped = x ∷ h.skipped;
  splits = ap (◌∷◌ x) h.splits;
  playable = h.playable;
  unplayable = (e, h.unplayable);
}

pub playable_queued_lem :
    (tracks : List Track) (queue : List ℕ) → FirstQueued tracks queue (playable_queued tracks queue)
unfolding playable_queued
playable_queued_lem tracks [] = tt
playable_queued_lem tracks (x ∷ queue) = elim (Bool-cases (is_playable tracks x)) [
  | inl e ↦ rw e (record { skipped = []; splits = refl; playable = e; unplayable = tt })
  | inr e ↦ rw e (FirstQueued-cons tracks x queue _ e (playable_queued_lem tracks queue))
]
