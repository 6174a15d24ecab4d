-- ===== src/Ipc/Broker/Subscribing.antt =====
-- ipc/pubsub.go: `Subscribe`, `ClearPrefix`, `Close`, `unsubscribe` and a receive.
use cliamp.Base.{
  ℕ, max, true, Option, none, some, List, [], ◌∷◌, ◌++◌, ltb, ◌==◌, if◌then◌else◌, length,
}
use cliamp.Base.Results.{Result, success, failure}
use cliamp.Base.Texts.{codes, has_prefix, text_leb}
use Prim.Native.String.{String}
use cliamp.Ipc.Broker.{
  Broker, BrokerError, Event, Step, Subscriber, blocked, broker_closed, find_retained, has_topic,
  increment, invalid_topic, max_topics_per_subscription, no_topics, returns, send_event,
  subscriber_buffer_size, then_returns, too_many_topics, valid_topic,
}

-- The loop of `Subscribe` over the topics: their set, or `none` if one is not valid.
unfoldable pub topic_set : List String → List String → Option (List String)
unfolding valid_topic
topic_set set [] = some set
topic_set set (t ∷ ts) =
    let next : List String = if has_topic t set then set else set ++ t ∷ [] in
    let rest = topic_set next ts in if valid_topic t then rest else none

-- `sort.Strings`.
unfoldable pub insert_text : String → List String → List String
insert_text t [] = t ∷ []
insert_text t (u ∷ us) =
    let rest = insert_text t us in if text_leb (codes t) (codes u) then t ∷ u ∷ us else u ∷ rest

unfoldable pub sort_texts : List String → List String
unfolding insert_text
sort_texts [] = []
sort_texts (t ∷ ts) = insert_text t (sort_texts ts)

-- The loop of `Subscribe` that queues the retained events.
unfoldable pub replay : List (String × Event) → List String → Subscriber → Step Subscriber
unfolding find_retained send_event
replay retained [] sub = returns sub
replay retained (t ∷ ts) sub = elim (find_retained t retained) [
  | none ↦ replay retained ts sub
  | some e ↦ elim (send_event (record e { retained = true }) sub) [
    | none ↦ blocked
    | some s ↦ replay retained ts s
  ]
]

-- `Subscribe` once the topics are checked: the broker, and the number of the subscription.
unfoldable pub register : List String → Broker → Step (Broker × Result BrokerError ℕ)
unfolding replay sort_texts
register set b =
    let id : ℕ = increment b.next_sub in
    let sub : Subscriber = record {
      id = id;
      topics = set;
      events = [];
      capacity = max subscriber_buffer_size (length set);
    } in
    then_returns (replay b.retained (sort_texts set) sub)
      (λ s. (record b { next_sub = id; subscribers = b.subscribers ++ s ∷ [] }, success id))

-- `Subscribe`.
unfoldable pub subscribe : List String → Broker → Step (Broker × Result BrokerError ℕ)
unfolding topic_set register
subscribe [] b = returns (b, failure no_topics)
subscribe (t ∷ ts) b =
    if ltb max_topics_per_subscription (length (t ∷ ts))
    then returns (b, failure too_many_topics)
    else elim (topic_set [] (t ∷ ts)) [
      | none ↦ returns (b, failure invalid_topic)
      | some set ↦ if b.closed then returns (b, failure broker_closed) else register set b
    ]

abbrev pub clear_from : List ℕ → List (String × Event) → List (String × Event)
clear_from prefix [] = []
clear_from prefix ((t, e) ∷ es) =
    let rest = clear_from prefix es in if has_prefix (codes t) prefix then rest else (t, e) ∷ rest

-- `ClearPrefix`.
unfoldable pub clear_prefix : String → Broker → Broker
clear_prefix prefix b = record b { retained = clear_from (codes prefix) b.retained }

-- `Broker.Close`.
unfoldable pub close : Broker → Broker
close b = if b.closed then b else record b {
  closed = true;
  subscribers = [];
  ended = b.ended ++ b.subscribers;
  retained = [];
}

abbrev with_id : ℕ → List Subscriber → List Subscriber
with_id id [] = []
with_id id (s ∷ subs) = let rest = with_id id subs in if s.id == id then s ∷ rest else rest

abbrev pub without_id : ℕ → List Subscriber → List Subscriber
without_id id [] = []
without_id id (s ∷ subs) = let rest = without_id id subs in if s.id == id then rest else s ∷ rest

-- `unsubscribe`, and `Subscription.Close`, which calls it once: a second call would find nothing.
unfoldable pub unsubscribe : ℕ → Broker → Broker
unsubscribe id b = record b {
  subscribers = without_id id b.subscribers;
  ended = b.ended ++ with_id id b.subscribers;
}

abbrev pub later_events : List Event → List Event
later_events [] = []
later_events (e ∷ es) = es

abbrev pub take_from : ℕ → List Subscriber → List Subscriber
take_from id [] = []
take_from id (s ∷ subs) =
    let rest = take_from id subs in
    if s.id == id then record s { events = later_events s.events } ∷ subs else s ∷ rest

-- A receive by the consumer of a subscription.
unfoldable pub receive_event : ℕ → Broker → Broker
receive_event id b = record b { subscribers = take_from id b.subscribers }
