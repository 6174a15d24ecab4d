-- ===== src/Ipc/Broker.antt =====
-- ipc/pubsub.go: the broker of events. A method holds the mutex throughout its work on the state, so it is
-- one step. A channel is its buffered events and its capacity; a send to a full one does not return
-- while the mutex is held, and the step is `blocked`. A closed channel keeps what it buffers, so the
-- subscribers that are gone are kept in `ended`. A map is the list of its entries in the order of
-- iteration. `clock n` is the reading of the clock for the event with number n, and `json.Valid` is a
-- parameter. A payload is a list of bytes.
pub mod Subscribing
pub mod Serving
pub mod Blocking
pub mod Histories
use cliamp.Base.{
  ℕ, zero, suc, ◌+◌, ◌-◌, ◌%◌, ◌^◌, max, Bool, true, false, not, ◌&&◌, ◌||◌, Option, none, some,
  List, [], ◌∷◌, ◌++◌, ltb, leb, ◌==◌, if◌then◌else◌, length,
}
use cliamp.Base.Results.{Result, success, failure}
use cliamp.Base.Texts.{codes, has_prefix, ends_with, contains_text, text_leb}
use Prim.Native.String.{String}
use text.Mathlib.Text.{◌==◌ as str_eq}

abbrev max_topics_per_subscription : ℕ
max_topics_per_subscription = 32

abbrev max_retained_topics : ℕ
max_retained_topics = 256

abbrev max_event_payload_size : ℕ
max_event_payload_size = 65536

abbrev subscriber_buffer_size : ℕ
subscriber_buffer_size = 32

abbrev overflow_event_topic : String
overflow_event_topic = "system.overflow"

pub data BrokerError : Type 0 where
  invalid_topic payload_too_large invalid_json broker_closed too_many_retained : BrokerError
  no_topics too_many_topics : BrokerError

pub record Event : Type 0 where
  pub event : String
  pub sequence : ℕ
  pub time : ℕ
  pub retained : Bool
  pub payload : List ℕ

pub record Subscriber : Type 0 where
  pub id : ℕ
  pub topics : List String
  pub events : List Event
  pub capacity : ℕ

pub record Broker : Type 0 where
  pub next_event : ℕ
  pub next_sub : ℕ
  pub retained : List (String × Event)
  pub subscribers : List Subscriber
  pub ended : List Subscriber
  pub closed : Bool

-- `NewBroker`.
abbrev pub new_broker : Broker
new_broker = record {
  next_event = 0;
  next_sub = 0;
  retained = [];
  subscribers = [];
  ended = [];
  closed = false;
}

-- `x++` on a uint64.
abbrev increment : ℕ → ℕ
increment n = (n + 1) % 2 ^ 64

abbrev topic_rune : ℕ → Bool
topic_rune r =
    (leb 97 r && leb r 122)
    || (leb 65 r && leb r 90)
    || (leb 48 r && leb r 57)
    || r == 46
    || r == 95
    || r == 45

abbrev all_topic_runes : List ℕ → Bool
all_topic_runes [] = true
all_topic_runes (r ∷ rs) = topic_rune r && all_topic_runes rs

-- `validTopic`. A topic with a rune that is not ASCII fails the last test, so the length counts bytes.
unfoldable pub valid_topic : String → Bool
valid_topic topic =
    let t : List ℕ = codes topic in
    not (
      str_eq topic overflow_event_topic
      || str_eq topic ""
      || ltb 256 (length t)
      || has_prefix t (codes ".")
      || ends_with t 46
      || contains_text t (codes ".."))
    && all_topic_runes t

abbrev has_topic : String → List String → Bool
has_topic topic [] = false
has_topic topic (t ∷ ts) = str_eq t topic || has_topic topic ts

-- `b.retained[topic]`.
unfoldable pub find_retained : String → List (String × Event) → Option Event
find_retained topic [] = none
find_retained topic ((t, e) ∷ es) = if str_eq t topic then some e else find_retained topic es

-- `b.retained[topic] = event`.
pub retain_event : String → Event → List (String × Event) → List (String × Event)
retain_event topic event [] = (topic, event) ∷ []
retain_event topic event ((t, e) ∷ es) =
    let rest = retain_event topic event es in
    if str_eq t topic then (t, event) ∷ es else (t, e) ∷ rest

abbrev is_found : Option Event → Bool
is_found none = false
is_found (some e) = true

-- A send: `none` if the channel is full.
unfoldable pub send_event : Event → Subscriber → Option Subscriber
send_event e sub =
    if ltb (length sub.events) sub.capacity
    then some (record sub { events = sub.events ++ e ∷ [] })
    else none

pub data Step {ℓ} (A : Type ℓ) : Type ℓ where
  returns : A → Step A
  blocked : Step A

abbrev then_returns {ℓ κ} : {A : Type ℓ} {B : Type κ} → Step A → (A → B) → Step B
then_returns (returns a) f = returns (f a)
then_returns blocked f = blocked

abbrev sent {ℓ} : {A : Type ℓ} → Option Subscriber → (Subscriber → Step A) → Step A
sent none f = blocked
sent (some sub) f = f sub

-- What the loop of `Publish` leaves: the counter, the subscribers that stay, and those that are closed.
pub record Delivery : Type 0 where
  pub counter : ℕ
  pub kept : List Subscriber
  pub gone : List Subscriber

abbrev keep_one : Subscriber → Delivery → Delivery
keep_one sub d = record d { kept = sub ∷ d.kept }

abbrev end_one : Subscriber → Delivery → Delivery
end_one sub d = record d { gone = sub ∷ d.gone }

abbrev overflow_event : (ℕ → ℕ) → ℕ → Event
overflow_event clock n = record {
  event = overflow_event_topic;
  sequence = n;
  time = clock n;
  retained = false;
  payload = codes "{\"resync_required\":true}";
}

-- The loop of `Publish`.
deliver : (ℕ → ℕ) → Event → ℕ → List Subscriber → Step Delivery
unfolding send_event
deliver clock event n [] = returns (record { counter = n; kept = []; gone = [] })
deliver clock event n (sub ∷ subs) =
    let on = deliver clock event n subs in
    let next : ℕ = increment n in
    let behind = deliver clock event next subs in
    if not (has_topic event.event sub.topics)
    then then_returns on (keep_one sub)
    else if leb (sub.capacity - 1) (length sub.events)
    then sent (send_event (overflow_event clock next) sub) (λ s. then_returns behind (end_one s))
    else sent (send_event event sub) (λ s. then_returns on (keep_one s))

-- `Publish` behind its checks.
unfoldable pub publish_event :
    (ℕ → ℕ) → String → List ℕ → Bool → Broker → Step (Broker × Option BrokerError)
unfolding deliver retain_event
publish_event clock topic payload retain b =
    let n : ℕ = increment b.next_event in
    let event : Event = record {
      event = topic;
      sequence = n;
      time = clock n;
      retained = false;
      payload = payload;
    } in
    then_returns (deliver clock event n b.subscribers) (λ d. (
      record b {
        next_event = d.counter;
        retained = if retain then retain_event topic event b.retained else b.retained;
        subscribers = d.kept;
        ended = b.ended ++ d.gone;
      },
      none,
    ))

-- `Publish`: the broker and the error.
unfoldable pub publish :
    (List ℕ → Bool) → (ℕ → ℕ) → String → List ℕ → Bool → Broker → Step (Broker × Option BrokerError)
unfolding valid_topic publish_event find_retained
publish valid clock topic payload retain b =
    if not (valid_topic topic)
    then returns (b, some invalid_topic)
    else if ltb max_event_payload_size (length payload)
    then returns (b, some payload_too_large)
    else if not (valid payload)
    then returns (b, some invalid_json)
    else if b.closed
    then returns (b, some broker_closed)
    else if retain
        && not (is_found (find_retained topic b.retained))
        && leb max_retained_topics (length b.retained)
    then returns (b, some too_many_retained)
    else publish_event clock topic payload retain b
