-- ===== src/MockTopics/State.antt =====
-- internal/p2p/mock_pubsub.go: the service, its topics and their subscriptions. A subscription that
-- Subscribe returns is its position in the topic's list.
use syncmesh.Common.{
  ◌≡◌, ℕ, ltb, length, String, Bool, true, false, none, some, List, [], ◌∷◌, ◌++◌, map, Map, lookup,
  insert, if◌then◌else◌,
}
use syncmesh.FileSync.State.{Bytes}

-- The contexts are one flag each; the channel's waiting messages, oldest first.
pub record MockSubscription : Type 0 where
  pub cancelled : Bool
  pub channel : List Bytes

pub record MockTopic : Type 0 where
  pub name : String
  pub subs : List MockSubscription

pub record MockPubSubService : Type 0 where
  pub topics : Map MockTopic

abbrev pub capacity : ℕ
capacity = 10

-- `NewMockPubSubService`.
unfoldable pub new_mock_pubsub : MockPubSubService
new_mock_pubsub = record { topics = [] }

-- `Join`: the service, and the topic, which is kept if it is known.
unfoldable pub join : String → MockPubSubService → MockPubSubService × MockTopic
join topic_name m = elim (lookup topic_name m.topics) [
  | none ↦
      let topic : MockTopic = record { name = topic_name; subs = [] } in
      (record m { topics = insert topic_name topic m.topics }, topic)
  | some topic ↦ (m, topic)
]

-- `sub.channel <- data`, or nothing if the channel is full.
unfoldable pub offer : Bytes → MockSubscription → MockSubscription
offer message sub =
    if ltb (length sub.channel) capacity
    then record sub { channel = sub.channel ++ message ∷ [] }
    else sub

-- `Publish`.
unfoldable pub publish : Bytes → MockTopic → MockTopic
publish message t = record t { subs = map (offer message) t.subs }

-- `Subscribe`.
unfoldable pub subscribe : MockTopic → MockTopic × MockSubscription
subscribe t =
    let sub : MockSubscription = record { cancelled = false; channel = [] } in
    (record t { subs = t.subs ++ sub ∷ [] }, sub)

-- `Cancel`, and `Close`, which leaves the subscriptions in the list.
unfoldable pub cancel : MockSubscription → MockSubscription
cancel sub = record sub { cancelled = true }

unfoldable pub close : MockTopic → MockTopic
close t = record t { subs = map cancel t.subs }

-- What `Next` returns; its select takes any case that is ready.
pub data Outcome : Type 0 where
  context_done subscription_done : Outcome
  received : Bytes → Outcome

pub data Next (context_is_done : Bool) (sub : MockSubscription)
    : Outcome → MockSubscription → Type 0 where
  by_context : context_is_done ≡ true → Next context_is_done sub context_done sub
  by_cancel : sub.cancelled ≡ true → Next context_is_done sub subscription_done sub
  by_message :
      (message : Bytes) (rest : List Bytes)
      → sub.channel ≡ message ∷ rest
      → Next context_is_done sub (received message) (record sub { channel = rest })
