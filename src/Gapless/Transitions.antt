-- ===== src/Gapless/Transitions.antt =====
-- player/gapless.go: manual playback wins over a read under way, and the callback names the source that
-- took over.
use cliamp.Base.{
  ℕ, suc, ◌+◌, ◌%◌, ◌^◌, ◌<◌, ◌≡◌, refl, sym, ◌⊎◌, inl, inr, Bool, false, not, ◌||◌, Option, none,
  some, List, [], ◌∷◌, ◌++◌, ltb, ◌==◌, arith, Bool-cases, Option-cases, subst,
}
use cliamp.Gapless.{
  Streamer, idle, set_next, replace_source, clear_sources, stream_begin, stream_commit,
  stream_publish,
}

-- A method that may run between the two critical sections of `Stream`.
pub data Method : Type 0 where
  sets_next replaces : Option ℕ → Method
  clears : Method

unfoldable pub call : Method → Streamer → Streamer
call (sets_next s) g = (set_next s g).0
call (replaces s) g = replace_source s g
call clears g = clear_sources g

unfoldable pub calls : List Method → Streamer → Streamer
calls [] g = g
calls (m ∷ ms) g = calls ms (call m g)

-- The calls of `Replace` and `Clear`.
abbrev pub replacements : List Method → ℕ
replacements [] = 0
replacements (sets_next s ∷ ms) = replacements ms
replacements (_ ∷ ms) = suc (replacements ms)

pub calls-version :
    (ms : List Method) (g : Streamer)
    → (calls ms g).current_version % 2 ^ 64 ≡ (g.current_version + replacements ms) % 2 ^ 64
unfolding calls call set_next replace_source clear_sources
calls-version [] g = omega arith
calls-version (sets_next none ∷ ms) g = calls-version ms (call (sets_next none) g)
calls-version (sets_next (some s) ∷ ms) g = calls-version ms (call (sets_next (some s)) g)
calls-version (replaces s ∷ ms) g = omega (arith, calls-version ms (replace_source s g))
calls-version (clears ∷ ms) g = omega (arith, calls-version ms (clear_sources g))

-- If `Replace` or `Clear` was called after `Stream` had begun to read, fewer than 2^64 times, then the
-- second critical section leaves the streamer as those calls made it: no stale handover.
pub stream_commit-calls :
    (g : Streamer) (ms : List Method) (cur version : ℕ) (goes_on : Bool) (n len : ℕ)
    → stream_begin g ≡ some (cur, version)
    → 0 < replacements ms
    → replacements ms < 2 ^ 64
    → (stream_commit version goes_on n len (calls ms g)).0 ≡ calls ms g
unfolding stream_begin stream_commit
stream_commit-calls g ms cur version goes_on n len b some_calls few =
    let kept : g.current_version ≡ version = ground arith in
    let moved : (version == (calls ms g).current_version) ≡ false =
      ground (arith, kept, calls-version ms g) in
    elim (Bool-cases (not (not goes_on || ltb n len))) [
      | inl e ↦ rw (e, stream_commit) refl
      | inr e ↦ rw (e, stream_commit) (rw moved refl)
    ]

-- A history of the streamer: its methods, and the second critical section and the publication of a
-- `Stream` call, whose read began under some version.
pub data Event : Type 0 where
  method : Method → Event
  commits : ℕ → Bool → ℕ → ℕ → Event

-- The token and the source of a `SetNext`.
abbrev issued_by : Method → Streamer → List (ℕ × ℕ)
issued_by (sets_next (some s)) g = ((set_next (some s) g).1, s) ∷ []
issued_by _ g = []

-- The token that the callback gets, and the source that plays from then on.
abbrev swapped_to : Option ℕ → Option ℕ → List (ℕ × ℕ)
swapped_to (some token) (some s) = (token, s) ∷ []
swapped_to _ _ = []

pub record History : Type 0 where
  pub streamer : Streamer
  pub issued : List (ℕ × ℕ)
  pub swapped : List (ℕ × ℕ)

observe : Event → History → History
unfolding call set_next stream_commit stream_publish
observe (method m) h = record h {
  streamer = call m h.streamer;
  issued = issued_by m h.streamer ++ h.issued;
}
observe (commits version goes_on n len) h =
    let c = stream_commit version goes_on n len h.streamer in
    let p = stream_publish c.1 c.0 in
    record h { streamer = p.0; swapped = swapped_to p.1 p.0.current ++ h.swapped }

unfoldable pub observe_all : List Event → History → History
unfolding observe
observe_all [] h = h
observe_all (e ∷ es) h = observe_all es (observe e h)

abbrev pub Among : ℕ × ℕ → List (ℕ × ℕ) → Type 0
Among x [] = ⊥
Among x (y ∷ ys) = (x ≡ y) ⊎ Among x ys

pub record IsTracked (h : History) : Type 0 where
  pub pending : (s : ℕ) → h.streamer.next ≡ some s → Among (h.streamer.next_token, s) h.issued
  pub announced : (x : ℕ × ℕ) → Among x h.swapped → Among x h.issued

observe-IsTracked : (e : Event) (h : History) → IsTracked h → IsTracked (observe e h)
unfolding observe call set_next replace_source clear_sources
observe-IsTracked (method (sets_next none)) h w = record {
  pending = λ s e. cc;
  announced = w.announced;
}
observe-IsTracked (method (sets_next (some a))) h w = record {
  pending = λ s e. inl (cc e);
  announced = λ x m. inr (w.announced x m);
}
observe-IsTracked (method (replaces a)) h w = record {
  pending = λ s e. cc;
  announced = w.announced;
}
observe-IsTracked (method clears) h w = record { pending = λ s e. cc; announced = w.announced }
observe-IsTracked (commits version goes_on n len) h w =
    elim (Bool-cases (not (not goes_on || ltb n len))) [
      | inl e ↦ rw e (record { pending = w.pending; announced = w.announced })
      | inr e ↦ elim (Bool-cases (not (version == h.streamer.current_version))) [
        | inl f ↦ rw e (rw f (record { pending = w.pending; announced = w.announced }))
        | inr f ↦ elim (Option-cases h.streamer.next) [
          | inl g ↦ rw e (rw f (rw g (record { pending = λ s i. cc; announced = w.announced })))
          | inr (a, g) ↦ rw e (
              rw f (
                rw g (record {
                  pending = λ s i. cc;
                  announced = λ x m. elim m [
                    | inl q ↦ subst (λ y. Among y h.issued) (sym q) (w.pending a g)
                    | inr k ↦ w.announced x k
                  ];
                })))
        ]
      ]
    ]

observe_all-IsTracked : (es : List Event) (h : History) → IsTracked h → IsTracked (observe_all es h)
unfolding observe_all
observe_all-IsTracked [] h w = w
observe_all-IsTracked (e ∷ es) h w =
    observe_all-IsTracked es (observe e h) (observe-IsTracked e h w)

abbrev pub fresh : History
fresh = record { streamer = idle; issued = []; swapped = [] }

-- Whatever methods and reads happen, in any order: a source that takes over was given to `SetNext`, and
-- the callback gets the token that this `SetNext` returned.
pub swapped-issued :
    (es : List Event) (token source : ℕ)
    → Among (token, source) (observe_all es fresh).swapped
    → Among (token, source) (observe_all es fresh).issued
swapped-issued es token source m =
    (observe_all-IsTracked es fresh start).announced (token, source) m
  where
    start : IsTracked fresh
    start = record { pending = λ s e. cc; announced = λ x a. absurd a }
