-- ===== src/Ipc/Broker/Serving.antt =====
-- ipc/pubsub.go: what `Publish` does to its subscribers.
use cliamp.Base.{
  ℕ, ◌+◌, ◌-◌, ◌^◌, ◌≤◌, ◌<◌, ◌≡◌, refl, ap, ◌∙◌, inl, inr, Bool, true, false, not, ◌&&◌, none,
  some, List, [], ◌∷◌, ◌++◌, arith, ltb, leb, if◌then◌else◌, length, length-append, Bool-cases, All,
}
use Prim.Native.String.{String}
use cliamp.Ipc.Broker.{
  Event, Subscriber, Broker, increment, valid_topic, has_topic, find_retained, retain_event,
  is_found, send_event, returns, overflow_event, deliver, publish_event, publish,
  max_event_payload_size, max_retained_topics,
}

-- A place is free.
abbrev pub HasRoom : Subscriber → Type 0
HasRoom sub = length sub.events < sub.capacity

-- A subscriber of the topic that has no place but the last one.
abbrev is_slow : String → Subscriber → Bool
is_slow topic sub = has_topic topic sub.topics && leb (sub.capacity - 1) (length sub.events)

-- The subscribers that a publication leaves connected, with what they then hold.
pub served : Event → List Subscriber → List Subscriber
served event [] = []
served event (sub ∷ subs) =
    let rest = served event subs in
    if is_slow event.event sub
    then rest
    else if has_topic event.event sub.topics
    then record sub { events = sub.events ++ event ∷ [] } ∷ rest
    else sub ∷ rest

-- Those that it disconnects: each holds a resync signal in its last place, numbered from n + 1 on.
pub disconnected : (ℕ → ℕ) → Event → ℕ → List Subscriber → List Subscriber
disconnected clock event n [] = []
disconnected clock event n (sub ∷ subs) =
    let rest = disconnected clock event n subs in
    let behind = disconnected clock event (n + 1) subs in
    if is_slow event.event sub
    then record sub { events = sub.events ++ overflow_event clock (n + 1) ∷ [] } ∷ behind
    else rest

pub send_event-HasRoom :
    (e : Event) (sub : Subscriber)
    → HasRoom sub
    → send_event e sub ≡ some (record sub { events = sub.events ++ e ∷ [] })
unfolding send_event
send_event-HasRoom e sub h = ground (arith, h)

length-served : (event : Event) (subs : List Subscriber) → length (served event subs) ≤ length subs
unfolding served
length-served event [] = omega arith
length-served event (sub ∷ subs) = ground (arith, length-served event subs)

-- If each subscriber has a free place, and the numbers do not wrap around, the loop of `Publish` returns:
-- it serves the subscribers that are not slow, disconnects the slow ones, and uses one number for each
-- of these.
deliver-served :
    (clock : ℕ → ℕ) (event : Event) (n : ℕ) (subs : List Subscriber)
    → All HasRoom subs
    → n + length subs < 2 ^ 64
    → deliver clock event n subs
      ≡ returns (record {
        counter = n + length (disconnected clock event n subs);
        kept = served event subs;
        gone = disconnected clock event n subs;
      })
unfolding deliver served disconnected
deliver-served clock event n [] h w =
    ap (λ c. returns (record { counter = c; kept = []; gone = [] })) (omega arith)
deliver-served clock event n (sub ∷ subs) h w =
    elim (Bool-cases (has_topic event.event sub.topics)) [
      | inr other ↦ rw other (rw (deliver-served clock event n subs h.1 (omega (arith, w))) refl)
      | inl topic ↦ elim (Bool-cases (leb (sub.capacity - 1) (length sub.events))) [
        | inl slow ↦
            let next : increment n ≡ n + 1 = omega (arith, w) in
            let rest = deliver-served clock event (n + 1) subs h.1 (omega (arith, w)) in
            rw topic (
              rw slow (
                rw next (
                  rw (send_event-HasRoom (overflow_event clock (n + 1)) sub h.0) (
                    rw rest (
                      ap
                        (λ c. returns (record {
                          counter = c;
                          kept = served event subs;
                          gone =
                              record sub {
                                events = sub.events ++ overflow_event clock (n + 1) ∷ [];
                              }
                              ∷ disconnected clock event (n + 1) subs;
                        }))
                        (omega arith))))))
        | inr fast ↦ rw topic (
            rw fast (
              rw (send_event-HasRoom event sub h.0)
                (rw (deliver-served clock event n subs h.1 (omega (arith, w))) refl)))
      ]
    ]

served-HasRoom :
    (event : Event) (subs : List Subscriber) → All HasRoom subs → All HasRoom (served event subs)
unfolding served
served-HasRoom event [] h = tt
served-HasRoom event (sub ∷ subs) h = elim (Bool-cases (has_topic event.event sub.topics)) [
  | inr other ↦ rw other (h.0, served-HasRoom event subs h.1)
  | inl topic ↦ elim (Bool-cases (leb (sub.capacity - 1) (length sub.events))) [
    | inl slow ↦ rw topic (rw slow (served-HasRoom event subs h.1))
    | inr fast ↦ rw topic (
        rw fast (
          ground (arith, fast, length-append sub.events (event ∷ [])),
          served-HasRoom event subs h.1,
        ))
  ]
]

-- `Publish` past its checks.
pub publish-publish_event :
    (valid : List ℕ → Bool) (clock : ℕ → ℕ) (topic : String) (payload : List ℕ) (retain : Bool)
    (b : Broker)
    → valid_topic topic ≡ true
    → length payload ≤ max_event_payload_size
    → valid payload ≡ true
    → b.closed ≡ false
    → (retain
        && not (is_found (find_retained topic b.retained))
        && leb max_retained_topics (length b.retained))
      ≡ false
    → publish valid clock topic payload retain b ≡ publish_event clock topic payload retain b
unfolding publish
publish-publish_event valid clock topic payload retain b named small good open_now place =
    let fits : ltb max_event_payload_size (length payload) ≡ false = ground (arith, small) in
    rw named (rw fits (rw good (rw open_now (rw place refl))))

-- `Publish` of a valid event on an open broker in which each subscriber has a free place, and whose
-- numbers do not wrap around, returns no error: the event takes the next number; the subscribers of the
-- topic with two free places get it at the end of their channel; those with one get the resync
-- signal there and are closed; the others are unchanged; and each signal takes a further number.
pub publish-served :
    (valid : List ℕ → Bool) (clock : ℕ → ℕ) (topic : String) (payload : List ℕ) (retain : Bool)
    (b : Broker)
    → valid_topic topic ≡ true
    → length payload ≤ max_event_payload_size
    → valid payload ≡ true
    → b.closed ≡ false
    → (retain
        && not (is_found (find_retained topic b.retained))
        && leb max_retained_topics (length b.retained))
      ≡ false
    → All HasRoom b.subscribers
    → b.next_event + 1 + length b.subscribers < 2 ^ 64
    → let n : ℕ = b.next_event + 1 in
      let event : Event = record {
        event = topic;
        sequence = n;
        time = clock n;
        retained = false;
        payload = payload;
      } in
      publish valid clock topic payload retain b
      ≡ returns (
        record b {
          next_event = n + length (disconnected clock event n b.subscribers);
          retained = if retain then retain_event topic event b.retained else b.retained;
          subscribers = served event b.subscribers;
          ended = b.ended ++ disconnected clock event n b.subscribers;
        },
        none,
      )
unfolding publish_event
publish-served valid clock topic payload retain b named small good open_now place h w =
    let next : increment b.next_event ≡ b.next_event + 1 = omega (arith, w) in
    publish-publish_event valid clock topic payload retain b named small good open_now place
    ∙ rw next (rw (deliver-served clock _ (b.next_event + 1) b.subscribers h w) refl)
