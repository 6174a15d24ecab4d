-- ===== src/Ipc/Broker/Histories.antt =====
-- ipc/pubsub.go: the calls of a broker, one after the other.
use cliamp.Base.{
  ℕ, ◌+◌, ◌-◌, ◌≤◌, ◌<◌, ◌≡◌, refl, ap, ◌∙◌, inl, inr, Bool, true, false, not, ◌&&◌, Option, none,
  some, List, [], ◌∷◌, ◌++◌, arith, ltb, leb, ◌==◌, if◌then◌else◌, length, length-append,
  Bool-cases, Option-cases, All, All-append,
}
use cliamp.Base.Texts.{codes}
use cliamp.Base.Results.{Result, success, failure}
use Prim.Native.String.{String}
use cliamp.Ipc.Broker.{
  BrokerError, invalid_topic, payload_too_large, invalid_json, broker_closed, too_many_retained,
  no_topics, Event, Subscriber, Broker, new_broker, increment, valid_topic, has_topic,
  find_retained, retain_event, is_found, Step, returns, blocked, then_returns, Delivery, keep_one,
  end_one, overflow_event, deliver, publish_event, publish, max_event_payload_size,
  max_retained_topics, max_topics_per_subscription,
}
use cliamp.Ipc.Broker.Subscribing.{
  topic_set, register, subscribe, clear_from, clear_prefix, close, without_id, unsubscribe,
  take_from, later_events, receive_event,
}
use cliamp.Ipc.Broker.Serving.{HasRoom, send_event-HasRoom}
use cliamp.Ipc.Broker.Blocking.{register-returns, length-topic_set, if-false}

pub data Call : Type 0 where
  publish_call : (ℕ → ℕ) → String → List ℕ → Bool → Call
  subscribe_call : List String → Call
  clear_prefix_call : String → Call
  close_call : Call
  unsubscribe_call receive_call : ℕ → Call

step : (List ℕ → Bool) → Call → Broker → Step Broker
unfolding publish subscribe clear_prefix close unsubscribe receive_event
step valid (publish_call clock topic payload retain) b =
    then_returns (publish valid clock topic payload retain b) (λ r. r.0)
step valid (subscribe_call topics) b = then_returns (subscribe topics b) (λ r. r.0)
step valid (clear_prefix_call prefix) b = returns (clear_prefix prefix b)
step valid close_call b = returns (close b)
step valid (unsubscribe_call id) b = returns (unsubscribe id b)
step valid (receive_call id) b = returns (receive_event id b)

unfoldable pub run : (List ℕ → Bool) → List Call → Broker → Step Broker
unfolding step
run valid [] b = returns b
run valid (c ∷ cs) b = elim (step valid c b) [ returns b' ↦ run valid cs b' | blocked ↦ blocked ]

-- Every `Subscribe` names fewer topics than the 32 that are allowed.
abbrev IsModest : Call → Type 0
IsModest (subscribe_call topics) = length topics < max_topics_per_subscription
IsModest c = Unit

-- Each channel has a free place; a broker keeps at most 256 events; a closed one keeps none, and has no
-- subscriber.
pub record IsOpenHanded (b : Broker) : Type 0 where
  pub room : All HasRoom b.subscribers
  pub few_retained : length b.retained ≤ max_retained_topics
  pub none_after_close : b.closed ≡ true → (b.subscribers ≡ []) × (b.retained ≡ [])

deliver-returns :
    (clock : ℕ → ℕ) (event : Event) (n : ℕ) (subs : List Subscriber)
    → All HasRoom subs
    → (d : Delivery) × (deliver clock event n subs ≡ returns d) × All HasRoom d.kept
unfolding deliver
deliver-returns clock event n [] h = (record { counter = n; kept = []; gone = [] }, refl, tt)
deliver-returns clock event n (sub ∷ subs) h =
    let (d, e, k) = deliver-returns clock event n subs h.1 in
    elim (Bool-cases (has_topic event.event sub.topics)) [
      | inr other ↦ (keep_one sub d, rw other (rw e refl), (h.0, k))
      | inl topic ↦ elim (Bool-cases (leb (sub.capacity - 1) (length sub.events))) [
        | inl slow ↦
            let (d', e', k') = deliver-returns clock event (increment n) subs h.1 in
            (
              end_one
                  (record sub { events = sub.events ++ overflow_event clock (increment n) ∷ [] })
                  d',
              rw topic (
                  rw slow (
                    rw (send_event-HasRoom (overflow_event clock (increment n)) sub h.0)
                      (rw e' refl))),
              k',
            )
        | inr fast ↦ (
          keep_one (record sub { events = sub.events ++ event ∷ [] }) d,
          rw topic (rw fast (rw (send_event-HasRoom event sub h.0) (rw e refl))),
          (ground (arith, fast, length-append sub.events (event ∷ [])), k),
        )
      ]
    ]

length-retain_event :
    (t : String) (e : Event) (es : List (String × Event))
    → length (retain_event t e es) ≤ length es + (if is_found (find_retained t es) then 0 else 1)
unfolding retain_event find_retained
length-retain_event t e [] = omega arith
length-retain_event t e ((u, f) ∷ es) = ground (arith, length-retain_event t e es)

length-clear_from :
    (prefix : List ℕ) (es : List (String × Event)) → length (clear_from prefix es) ≤ length es
length-clear_from prefix [] = omega arith
length-clear_from prefix ((t, e) ∷ es) = ground (arith, length-clear_from prefix es)

without_id-HasRoom :
    (id : ℕ) (subs : List Subscriber) → All HasRoom subs → All HasRoom (without_id id subs)
without_id-HasRoom id [] h = tt
without_id-HasRoom id (s ∷ subs) h = elim (Bool-cases (s.id == id)) [
  | inl e ↦ rw e (without_id-HasRoom id subs h.1)
  | inr e ↦ rw e (h.0, without_id-HasRoom id subs h.1)
]

length-later_events : (es : List Event) → length (later_events es) ≤ length es
length-later_events [] = omega arith
length-later_events (e ∷ es) = omega arith

take_from-HasRoom :
    (id : ℕ) (subs : List Subscriber) → All HasRoom subs → All HasRoom (take_from id subs)
take_from-HasRoom id [] h = tt
take_from-HasRoom id (s ∷ subs) h = elim (Bool-cases (s.id == id)) [
  | inl e ↦ rw e (omega (arith, length-later_events s.events, h.0), h.1)
  | inr e ↦ rw e (h.0, take_from-HasRoom id subs h.1)
]

publish-IsOpenHanded :
    (valid : List ℕ → Bool) (clock : ℕ → ℕ) (topic : String) (payload : List ℕ) (retain : Bool)
    (b : Broker)
    → IsOpenHanded b
    → (r : Broker × Option BrokerError) × (publish valid clock topic payload retain b ≡ returns r)
      × IsOpenHanded r.0
unfolding publish publish_event
publish-IsOpenHanded valid clock topic payload retain b h = elim (Bool-cases (valid_topic topic)) [
  | inr e ↦ ((b, some invalid_topic), rw e refl, h)
  | inl named ↦ elim (Bool-cases (ltb max_event_payload_size (length payload))) [
    | inl e ↦ ((b, some payload_too_large), rw named (rw e refl), h)
    | inr fits ↦ elim (Bool-cases (valid payload)) [
      | inr e ↦ ((b, some invalid_json), rw named (rw fits (rw e refl)), h)
      | inl good ↦ elim (Bool-cases b.closed) [
        | inl e ↦ ((b, some broker_closed), rw named (rw fits (rw good (rw e refl))), h)
        | inr open_now ↦
            elim (Bool-cases (
              retain
              && not (is_found (find_retained topic b.retained))
              && leb max_retained_topics (length b.retained))) [
                | inl e ↦ (
                  (b, some too_many_retained),
                  rw named (rw fits (rw good (rw open_now (rw e refl)))),
                  h,
                )
                | inr place ↦
                    let n : ℕ = increment b.next_event in
                    let event : Event = record {
                      event = topic;
                      sequence = n;
                      time = clock n;
                      retained = false;
                      payload = payload;
                    } in
                    let (d, e, k) = deliver-returns clock event n b.subscribers h.room in
                    (
                      (
                        record b {
                          next_event = d.counter;
                          retained =
                              if retain then retain_event topic event b.retained else b.retained;
                          subscribers = d.kept;
                          ended = b.ended ++ d.gone;
                        },
                        none,
                      ),
                      rw named (rw fits (rw good (rw open_now (rw place (rw e refl))))),
                      record {
                        room = k;
                        few_retained = ground (
                          arith,
                          place,
                          h.few_retained,
                          length-retain_event topic event b.retained,
                        );
                        none_after_close = λ c. absurd (ground (arith, c, open_now));
                      },
                    )
              ]
      ]
    ]
  ]
]

subscribe-IsOpenHanded :
    (topics : List String) (b : Broker)
    → IsOpenHanded b
    → length topics < max_topics_per_subscription
    → (r : Broker × Result BrokerError ℕ) × (subscribe topics b ≡ returns r) × IsOpenHanded r.0
unfolding subscribe
subscribe-IsOpenHanded [] b h few = ((b, failure no_topics), refl, h)
subscribe-IsOpenHanded (t ∷ ts) b h few =
    let few' : ltb max_topics_per_subscription (length (t ∷ ts)) ≡ false = ground (arith, few) in
    elim (Option-cases (topic_set [] (t ∷ ts))) [
      | inl e ↦ ((b, failure invalid_topic), rw few' (rw e refl), h)
      | inr (set, e) ↦ elim (Bool-cases b.closed) [
        | inl c ↦ ((b, failure broker_closed), rw few' (rw e (rw c refl)), h)
        | inr open_now ↦
            let (s, f, topics_eq, capacity, le, full) = register-returns set b in
            let small = length-topic_set [] (t ∷ ts) set e in
            (
              (
                record b { next_sub = increment b.next_sub; subscribers = b.subscribers ++ s ∷ [] },
                success (increment b.next_sub),
              ),
              rw few' (rw e (if-false b.closed _ (register set b) open_now ∙ f)),
              record {
                room =
                    All-append HasRoom b.subscribers (s ∷ []) h.room
                      (omega (arith, le, capacity, small, few), tt);
                few_retained = h.few_retained;
                none_after_close = λ c. absurd (ground (arith, c, open_now));
              },
            )
      ]
    ]

if-IsOpenHanded :
    (c : Bool) (x y : Broker) → IsOpenHanded x → IsOpenHanded y → IsOpenHanded (if c then x else y)
if-IsOpenHanded true x y h k = h
if-IsOpenHanded false x y h k = k

close-IsOpenHanded : (b : Broker) → IsOpenHanded b → IsOpenHanded (close b)
unfolding close
close-IsOpenHanded b h =
    if-IsOpenHanded b.closed b _ h
      (record { room = tt; few_retained = omega arith; none_after_close = λ c. (refl, refl) })

-- A call on such a broker never waits, and leaves such a broker, if a `Subscribe` names fewer than 32 topics.
step-IsOpenHanded :
    (valid : List ℕ → Bool) (c : Call) (b : Broker)
    → IsOpenHanded b
    → IsModest c
    → (b' : Broker) × (step valid c b ≡ returns b') × IsOpenHanded b'
unfolding step clear_prefix unsubscribe receive_event
step-IsOpenHanded valid (publish_call clock topic payload retain) b h m =
    let (r, e, k) = publish-IsOpenHanded valid clock topic payload retain b h in (r.0, rw e refl, k)
step-IsOpenHanded valid (subscribe_call topics) b h m =
    let (r, e, k) = subscribe-IsOpenHanded topics b h m in (r.0, rw e refl, k)
step-IsOpenHanded valid (clear_prefix_call prefix) b h m = (
  _,
  refl,
  record {
    room = h.room;
    few_retained = omega (arith, h.few_retained, length-clear_from (codes prefix) b.retained);
    none_after_close =
        λ c. let (s, r) = h.none_after_close c in (s, ap (clear_from (codes prefix)) r);
  },
)
step-IsOpenHanded valid close_call b h m = (close b, refl, close-IsOpenHanded b h)
step-IsOpenHanded valid (unsubscribe_call id) b h m = (
  _,
  refl,
  record {
    room = without_id-HasRoom id b.subscribers h.room;
    few_retained = h.few_retained;
    none_after_close = λ c. let (s, r) = h.none_after_close c in (ap (without_id id) s, r);
  },
)
step-IsOpenHanded valid (receive_call id) b h m = (
  _,
  refl,
  record {
    room = take_from-HasRoom id b.subscribers h.room;
    few_retained = h.few_retained;
    none_after_close = λ c. let (s, r) = h.none_after_close c in (ap (take_from id) s, r);
  },
)

run-IsOpenHanded :
    (valid : List ℕ → Bool) (cs : List Call) (b : Broker)
    → IsOpenHanded b
    → All IsModest cs
    → (b' : Broker) × (run valid cs b ≡ returns b') × IsOpenHanded b'
unfolding run
run-IsOpenHanded valid [] b h m = (b, refl, h)
run-IsOpenHanded valid (c ∷ cs) b h m =
    let (b', e, k) = step-IsOpenHanded valid c b h m.0 in
    let (b'', f, l) = run-IsOpenHanded valid cs b' k m.1 in (b'', rw (e, run) f, l)

-- From a new broker, no sequence of calls in which each `Subscribe` names fewer than 32 topics ever
-- waits with the mutex held: all return, and after them every channel has a free place, at most 256
-- events are retained, and a closed broker has no subscriber and keeps no event.
pub run-new_broker :
    (valid : List ℕ → Bool) (cs : List Call)
    → All IsModest cs
    → (b : Broker) × (run valid cs new_broker ≡ returns b) × IsOpenHanded b
run-new_broker valid cs m =
    run-IsOpenHanded valid cs new_broker
      (record { room = tt; few_retained = omega arith; none_after_close = λ c. (refl, refl) }) m
