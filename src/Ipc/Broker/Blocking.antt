-- ===== src/Ipc/Broker/Blocking.antt =====
-- ipc/pubsub.go: which calls can wait for a subscriber.
use cliamp.Base.{
  ℕ, suc, ◌+◌, ◌-◌, ◌≤◌, max, ◌≡◌, refl, ap, ◌∙◌, inl, inr, Bool, true, false, not, ◌&&◌, some,
  List, [], ◌∷◌, ◌++◌, arith, ltb, leb, if◌then◌else◌, length, length-append, Bool-cases,
  Option-cases, All,
}
use cliamp.Base.Texts.{codes, text_leb}
use cliamp.Base.Results.{Result, success}
use Prim.Native.String.{String}
use cliamp.Ipc.Broker.{
  BrokerError, Event, Subscriber, Broker, increment, valid_topic, has_topic, find_retained,
  is_found, send_event, returns, blocked, deliver, publish_event, publish, max_event_payload_size,
  max_retained_topics, max_topics_per_subscription, subscriber_buffer_size,
}
use cliamp.Ipc.Broker.Subscribing.{topic_set, insert_text, sort_texts, replay, register, subscribe}
use cliamp.Ipc.Broker.Serving.{publish-publish_event}

length-insert_text : (t : String) (ts : List String) → length (insert_text t ts) ≡ suc (length ts)
unfolding insert_text
length-insert_text t [] = refl
length-insert_text t (u ∷ us) = ground (arith, length-insert_text t us)

length-sort_texts : (ts : List String) → length (sort_texts ts) ≡ length ts
unfolding sort_texts
length-sort_texts [] = refl
length-sort_texts (t ∷ ts) = length-insert_text t (sort_texts ts) ∙ ap suc (length-sort_texts ts)

-- A property of the topics does not depend on their order.
insert_text-All :
    (P : String → Type 0) (t : String) (ts : List String)
    → P t
    → All P ts
    → All P (insert_text t ts)
unfolding insert_text
insert_text-All P t [] p h = (p, tt)
insert_text-All P t (u ∷ us) p h = elim (Bool-cases (text_leb (codes t) (codes u))) [
  | inl e ↦ rw e (p, (h.0, h.1))
  | inr e ↦ rw e (h.0, insert_text-All P t us p h.1)
]

sort_texts-All : (P : String → Type 0) (ts : List String) → All P ts → All P (sort_texts ts)
unfolding sort_texts
sort_texts-All P [] h = tt
sort_texts-All P (t ∷ ts) h = insert_text-All P t (sort_texts ts) h.0 (sort_texts-All P ts h.1)

pub length-topic_set :
    (set ts : List String) (r : List String)
    → topic_set set ts ≡ some r
    → length r ≤ length set + length ts
unfolding topic_set
length-topic_set set [] r h = let e : set ≡ r = cc h in omega (arith, ap length e)
length-topic_set set (t ∷ ts) r h = elim (Bool-cases (valid_topic t)) [
  | inr e ↦ absurd (ground (arith, e, h))
  | inl e ↦ elim (Bool-cases (has_topic t set)) [
    | inl f ↦ omega (arith, length-topic_set set ts r (rw f at (rw e at h)))
    | inr f ↦ omega (
      arith,
      length-topic_set (set ++ t ∷ []) ts r (rw f at (rw e at h)),
      length-append set (t ∷ []),
    )
  ]
]

-- What replay leaves: one event for each retained topic.
abbrev Retained : List (String × Event) → String → Type 0
Retained retained t = is_found (find_retained t retained) ≡ true

pub record Replayed (sub s : Subscriber) (k : ℕ) : Type 0 where
  pub capacity_eq : s.capacity ≡ sub.capacity
  pub topics_eq : s.topics ≡ sub.topics
  pub id_eq : s.id ≡ sub.id
  pub length_le : length s.events ≤ length sub.events + k

replay-Replayed :
    (retained : List (String × Event)) (ts : List String) (sub : Subscriber)
    → length sub.events + length ts ≤ sub.capacity
    → (s : Subscriber) × (replay retained ts sub ≡ returns s)
      × Replayed sub s (length ts)
      × (All (Retained retained) ts → length s.events ≡ length sub.events + length ts)
unfolding replay send_event
replay-Replayed retained [] sub h = (
  sub,
  refl,
  record { capacity_eq = refl; topics_eq = refl; id_eq = refl; length_le = omega arith },
  λ a. omega arith,
)
replay-Replayed retained (t ∷ ts) sub h = elim (Option-cases (find_retained t retained)) [
  | inl e ↦
      let (s, f, r, full) = replay-Replayed retained ts sub (omega (arith, h)) in
      (
        s,
        rw (e, replay) f,
        record {
          capacity_eq = r.capacity_eq;
          topics_eq = r.topics_eq;
          id_eq = r.id_eq;
          length_le = omega (arith, r.length_le);
        },
        λ a. absurd (ground (arith, e, a.0)),
      )
  | inr (x, e) ↦
      let sub' : Subscriber = record sub {
        events = sub.events ++ record x { retained = true } ∷ [];
      } in
      let grown = length-append sub.events (record x { retained = true } ∷ []) in
      let (s, f, r, full) = replay-Replayed retained ts sub' (omega (arith, h, grown)) in
      let room : ltb (length sub.events) sub.capacity ≡ true = ground (arith, h) in
      (
        s,
        rw (e, replay) (rw room f),
        record {
          capacity_eq = r.capacity_eq;
          topics_eq = r.topics_eq;
          id_eq = r.id_eq;
          length_le = omega (arith, r.length_le, grown);
        },
        λ a. omega (arith, full a.1, grown),
      )
]

-- `Subscribe` behind its checks never waits.
pub register-returns :
    (set : List String) (b : Broker)
    → (s : Subscriber) × (register set b
        ≡ returns (
          record b { next_sub = increment b.next_sub; subscribers = b.subscribers ++ s ∷ [] },
          success (increment b.next_sub),
        ))
      × (s.topics ≡ set)
      × (s.capacity ≡ max subscriber_buffer_size (length set))
      × (length s.events ≤ length set)
      × (All (Retained b.retained) set → length s.events ≡ length set)
unfolding register
register-returns set b =
    let sub : Subscriber = record {
      id = increment b.next_sub;
      topics = set;
      events = [];
      capacity = max subscriber_buffer_size (length set);
    } in
    let n = length-sort_texts set in
    let (s, f, r, full) = replay-Replayed b.retained (sort_texts set) sub (omega (arith, n)) in
    (
      s,
      rw f refl,
      r.topics_eq,
      r.capacity_eq,
      omega (arith, r.length_le, n),
      λ a. omega (arith, full (sort_texts-All (Retained b.retained) set a), n),
    )

-- A subscriber of the topic whose channel is full stops the loop.
deliver-blocked :
    (clock : ℕ → ℕ) (event : Event) (n : ℕ) (before after : List Subscriber) (sub : Subscriber)
    → has_topic event.event sub.topics ≡ true
    → sub.capacity ≤ length sub.events
    → deliver clock event n (before ++ sub ∷ after) ≡ blocked
unfolding deliver send_event
deliver-blocked clock event n [] after sub t full =
    let slow : leb (sub.capacity - 1) (length sub.events) ≡ true = ground (arith, full) in
    let none_left : ltb (length sub.events) sub.capacity ≡ false = ground (arith, full) in
    rw t (rw slow (rw none_left refl))
deliver-blocked clock event n (s ∷ before) after sub t full =
    let on = deliver-blocked clock event n before after sub t full in
    let behind = deliver-blocked clock event (increment n) before after sub t full in
    rw on (rw behind (ground arith))

pub if-false : {A : Type 0} (b : Bool) (x y : A) → b ≡ false → (if b then x else y) ≡ y
if-false true x y e = absurd (ground (arith, e))
if-false false x y e = refl

abbrev all_retained : List (String × Event) → List String → Bool
all_retained retained [] = true
all_retained retained (t ∷ ts) = is_found (find_retained t retained) && all_retained retained ts

all_retained-All :
    (retained : List (String × Event)) (ts : List String)
    → all_retained retained ts ≡ true
    → All (Retained retained) ts
all_retained-All retained [] h = tt
all_retained-All retained (t ∷ ts) h =
    (ground (arith, h), all_retained-All retained ts (ground (arith, h)))

-- With 32 topics subscribed to, all of them retained, the replay fills the new channel: `Subscribe`
-- returns, and until the subscriber has read an event, each valid `Publish` on one of its topics waits for it, with
-- the broker's mutex held.
pub subscribe-publish_blocked :
    (valid : List ℕ → Bool) (clock : ℕ → ℕ) (t : String) (ts set : List String) (b : Broker)
    (topic : String) (payload : List ℕ) (retain : Bool)
    → length (t ∷ ts) ≤ max_topics_per_subscription
    → topic_set [] (t ∷ ts) ≡ some set
    → length set ≡ subscriber_buffer_size
    → b.closed ≡ false
    → all_retained b.retained set ≡ true
    → has_topic topic set ≡ true
    → valid_topic topic ≡ true
    → is_found (find_retained topic b.retained) ≡ true
    → length payload ≤ max_event_payload_size
    → valid payload ≡ true
    → (r : Broker × Result BrokerError ℕ) × (subscribe (t ∷ ts) b ≡ returns r)
      × (publish valid clock topic payload retain r.0 ≡ blocked)
unfolding subscribe publish_event
subscribe-publish_blocked valid clock t ts set b topic payload retain few ok_topics many open_now
      all mine named old small good =
    let (s, f, topics, capacity, le, full) = register-returns set b in
    let few' : ltb max_topics_per_subscription (length (t ∷ ts)) ≡ false = ground (arith, few) in
    let fits : ltb max_event_payload_size (length payload) ≡ false = ground (arith, small) in
    let mine' : has_topic topic s.topics ≡ true = ap (has_topic topic) topics ∙ mine in
    let stop : s.capacity ≤ length s.events =
      omega (arith, capacity, full (all_retained-All b.retained set all), many) in
    let b' : Broker = record b {
      next_sub = increment b.next_sub;
      subscribers = b.subscribers ++ s ∷ [];
    } in
    let place : (retain
          && not (is_found (find_retained topic b.retained))
          && leb max_retained_topics (length b.retained))
        ≡ false =
      rw old (ground arith) in
    let n : ℕ = increment b.next_event in
    let event : Event = record {
      event = topic;
      sequence = n;
      time = clock n;
      retained = false;
      payload = payload;
    } in
    let past =
      publish-publish_event valid clock topic payload retain b' named small good open_now place in
    (
      (b', success (increment b.next_sub)),
      rw few' (rw ok_topics (if-false b.closed _ (register set b) open_now ∙ f)),
      past ∙ rw (deliver-blocked clock event n b.subscribers [] s mine' stop) refl,
    )
