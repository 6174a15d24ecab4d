-- ===== src/Playlist/Invariant/Order.antt =====
-- Shuffling, appending and straightening keep a playlist well-formed and do not panic.
use cliamp.Base.{
  ℕ, zero, suc, ◌+◌, ◌≤◌, ◌<◌, ◌≡◌, refl, ap, ◌∙◌, inl, inr, Bool, true, false, Option, none, some,
  List, [], ◌∷◌, ◌++◌, arith, leb, ◌==◌, Bool-cases, length, range, range_from, length-append,
  get_elem?-some,
}
use cliamp.Base.Slices.{with_items}
use cliamp.Playlist.Track.{Track}
use cliamp.Playlist.State.{Playlist, bump_if}
use cliamp.Playlist.Shuffle.{Draws, do_shuffle, shuffle_tail, mix_in, append_tracks}
use cliamp.Base.Permutations.{IsPermutation-lt, range-IsPermutation, append-IsPermutation}
use cliamp.Playlist.Invariant.{QueuedBelow, AllBelow, IsWellFormed, Returns}
use cliamp.Playlist.Shuffle.Laws.{shuffled-IsPermutation, shuffle_tail-IsPermutation}

AllBelow-mono : (m n : ℕ) (xs : List ℕ) → m ≤ n → AllBelow m xs → AllBelow n xs
AllBelow-mono m n [] h a = tt
AllBelow-mono m n (x ∷ xs) h a = (omega arith, AllBelow-mono m n xs h a.1)

QueuedBelow-mono : (m n : ℕ) (q : Option ℕ) → m ≤ n → QueuedBelow m q → QueuedBelow n q
QueuedBelow-mono m n none h b = tt
QueuedBelow-mono m n (some i) h b = omega arith

range_from-append :
    (i j n k : ℕ) → j ≡ i + n → range_from i n ++ range_from j k ≡ range_from i (n + k)
range_from-append i j zero k e =
    ap (λ x. range_from x k) (omega arith) ∙ ap (range_from i) (omega arith)
range_from-append i j (suc n) k e =
    let s : suc n + k ≡ suc (n + k) = omega arith in
    rw s (ap (◌∷◌ i) (range_from-append (i + 1) j n k (omega arith)))

pub pos-lt :
    (p : Playlist) → IsWellFormed p → 0 < length p.tracks.items → p.pos < length p.order.items
pos-lt p w h = omega (arith, w.sound.pos_le, w.sound.permutation.length_eq)

module _ (d : Draws) (p : Playlist) (w : IsWellFormed p) (on : p.shuffle ≡ true)
    (some_tracks : 0 < length p.tracks.items) where
  pub do_shuffle-IsWellFormed : Returns IsWellFormed (do_shuffle d p)
  unfolding do_shuffle
  do_shuffle-IsWellFormed =
      let (cur, e) = get_elem?-some p.order.items p.pos (pos-lt p w some_tracks) in
      rw e (record {
        sound = record {
          permutation =
              shuffled-IsPermutation d cur (length p.tracks.items) (
                IsPermutation-lt p.order.items (length p.tracks.items) p.pos w.sound.permutation e);
          pos_le = omega arith;
          straight = λ f. cc;
          queue_below = w.sound.queue_below;
          queued_below = w.sound.queued_below;
        };
        coherent = w.coherent;
      })

  shuffle_tail-IsWellFormed :
      IsWellFormed (record p { order = with_items p.order (shuffle_tail d p.pos p.order.items) })
  shuffle_tail-IsWellFormed = record {
    sound = record {
      permutation =
          shuffle_tail-IsPermutation d p.pos (length p.tracks.items) p.order.items
            w.sound.permutation;
      pos_le = w.sound.pos_le;
      straight = λ f. cc;
      queue_below = w.sound.queue_below;
      queued_below = w.sound.queued_below;
    };
    coherent = w.coherent;
  }

first-IsWellFormed : (p : Playlist) → IsWellFormed p → IsWellFormed (record p { pos = 0 })
first-IsWellFormed p w = record {
  sound = record {
    permutation = w.sound.permutation;
    pos_le = omega arith;
    straight = w.sound.straight;
    queue_below = w.sound.queue_below;
    queued_below = w.sound.queued_below;
  };
  coherent = w.coherent;
}

pub mix_in-IsWellFormed :
    (d : Draws) (start : ℕ) (p : Playlist)
    → IsWellFormed p
    → p.shuffle ≡ true
    → 0 < length p.tracks.items
    → Returns IsWellFormed (mix_in d start p)
unfolding mix_in
mix_in-IsWellFormed d start p w on h = elim (Bool-cases (start == 0)) [
  | inl e ↦ rw e (do_shuffle-IsWellFormed d (record p { pos = 0 }) (first-IsWellFormed p w) on h)
  | inr e ↦ elim (Bool-cases (leb (length p.order.items) p.pos)) [
    | inl f ↦
        rw (e, f) (do_shuffle-IsWellFormed d (record p { pos = 0 }) (first-IsWellFormed p w) on h)
    | inr f ↦ rw (e, f) (shuffle_tail-IsWellFormed d p w on h)
  ]
]

pub append_tracks-IsWellFormed :
    (ts : List Track) (p : Playlist) → IsWellFormed p → IsWellFormed (append_tracks ts p)
unfolding append_tracks
append_tracks-IsWellFormed ts p w =
    let n : ℕ = length p.tracks.items in
    let grown : length (p.tracks.items ++ ts) ≡ n + length ts = length-append p.tracks.items ts in
    let below : n ≤ length (p.tracks.items ++ ts) = omega arith in
    record {
      sound = record {
        permutation =
            rw grown (append-IsPermutation p.order.items n (length ts) w.sound.permutation);
        pos_le = omega (arith, w.sound.pos_le);
        straight = λ off.
            rw (grown, w.sound.straight off) (range_from-append 0 n n (length ts) (omega arith));
        queue_below = AllBelow-mono n _ p.queue.items below w.sound.queue_below;
        queued_below = QueuedBelow-mono n _ p.queued_idx below w.sound.queued_below;
      };
      coherent = w.coherent;
    }

-- Back to track order at track `cur`.
pub straightened-IsWellFormed :
    (p : Playlist) (cur : ℕ) (is_nil : Bool)
    → IsWellFormed p
    → cur < length p.tracks.items
    → IsWellFormed (record p {
      order = record { items = range (length p.tracks.items); is_nil = is_nil };
      pos = cur;
    })
straightened-IsWellFormed p cur is_nil w h = record {
  sound = record {
    permutation = range-IsPermutation (length p.tracks.items);
    pos_le = omega arith;
    straight = λ off. refl;
    queue_below = w.sound.queue_below;
    queued_below = w.sound.queued_below;
  };
  coherent = w.coherent;
}

pub bump_if-IsWellFormed : (b : Bool) (p : Playlist) → IsWellFormed p → IsWellFormed (bump_if b p)
bump_if-IsWellFormed true p w = record { sound = w.sound; coherent = w.coherent }
bump_if-IsWellFormed false p w = w
