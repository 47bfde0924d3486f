-- ===== src/Shadow.antt =====
-- The subscriptions of the shadow client to the acknowledgements of its actions:
-- arduino-esp32/AWS_IOT/src/aws_iot_shadow_records.c.
pub mod Subscriptions
pub mod Connected
pub mod Acks
pub mod Json
pub mod Delta
use hornbill_examples.Common.{
  ℕ, zero, suc, ◌+◌, ◌-◌, ◌%◌, ◌^◌, ◌==◌, ◌||◌, ◌&&◌, ltb, if◌then◌else◌, not, Bool, true, false,
  List, [], ◌∷◌, ◌++◌, Option, none, some, get_elem?, take, codes, same,
}
use hornbill_examples.Errors.{Result, ok, err, fault}

pub data ShadowAction : Type 0 where
  shadow_get shadow_update shadow_delete : ShadowAction

pub data ShadowAckTopicType : Type 0 where
  shadow_accepted shadow_rejected shadow_action : ShadowAckTopicType

-- SubscriptionRecord_t
pub record SubscriptionRecord : Type 0 where
  pub topic : List ℕ
  pub count : ℕ
  pub is_free : Bool
  pub is_sticky : Bool

abbrev pub max_shadow_topic_length_bytes : ℕ
max_shadow_topic_length_bytes = 80

abbrev pub action_text : ShadowAction → List ℕ
action_text shadow_get = codes "get"
action_text shadow_update = codes "update"
action_text shadow_delete = codes "delete"

abbrev pub ack_text : ShadowAckTopicType → List ℕ
ack_text shadow_accepted = codes "/accepted"
ack_text shadow_rejected = codes "/rejected"
ack_text shadow_action = []

-- topicNameFromThingAndAction: snprintf leaves room for the NUL.
unfoldable pub topic_name_from_thing_and_action :
    List ℕ → ShadowAction → ShadowAckTopicType → List ℕ
topic_name_from_thing_and_action thing_name action ack_type =
    take (max_shadow_topic_length_bytes - 1) (
      codes "$aws/things/"
      ++ (thing_name ++ (codes "/shadow/" ++ (action_text action ++ ack_text ack_type))))

-- An assignment to the entry at an index.
abbrev pub update_at :
    (SubscriptionRecord → SubscriptionRecord)
    → ℕ
    → List SubscriptionRecord
    → List SubscriptionRecord
update_at f i [] = []
update_at f zero (r ∷ records) = f r ∷ records
update_at f (suc i) (r ∷ records) = r ∷ update_at f i records

abbrev pub next_index : Option ℕ → Option ℕ
next_index none = none
next_index (some i) = some (suc i)

-- The loop of getNextFreeIndexOfSubscriptionList, without the assignment.
unfoldable pub first_free : List SubscriptionRecord → Option ℕ
first_free [] = none
first_free (r ∷ records) =
    let rest = first_free records in if r.is_free then some 0 else next_index rest

abbrev pub occupy : SubscriptionRecord → SubscriptionRecord
occupy r = record r { is_free = false }

abbrev pub release : SubscriptionRecord → SubscriptionRecord
release r = record r { is_free = true }

abbrev pub occupied : Option ℕ → List SubscriptionRecord → Option ℕ × List SubscriptionRecord
occupied none records = (none, records)
occupied (some i) records = (some i, update_at occupy i records)

-- getNextFreeIndexOfSubscriptionList: -1 is none.
unfoldable pub get_next_free_index_of_subscription_list :
    List SubscriptionRecord → Option ℕ × List SubscriptionRecord
get_next_free_index_of_subscription_list records = occupied (first_free records) records

-- The loop of isSubscriptionPresent, with its two flags.
unfoldable pub present_loop : List ℕ → List ℕ → Bool → Bool → List SubscriptionRecord → Bool
present_loop accepted rejected is_accepted is_rejected [] = is_rejected && is_accepted
present_loop accepted rejected is_accepted is_rejected (r ∷ records) =
    let found_accepted = not r.is_free && same accepted r.topic in
    let found_rejected = not r.is_free && (not (same accepted r.topic) && same rejected r.topic) in
    present_loop accepted rejected (is_accepted || found_accepted) (is_rejected || found_rejected)
      records

-- isSubscriptionPresent
unfoldable pub is_subscription_present : List ℕ → ShadowAction → List SubscriptionRecord → Bool
is_subscription_present thing_name action records =
    present_loop (topic_name_from_thing_and_action thing_name action shadow_accepted)
      (topic_name_from_thing_and_action thing_name action shadow_rejected) false false records

-- incrementSubscriptionCnt
unfoldable pub increment_subscription_cnt :
    List ℕ → ShadowAction → Bool → List SubscriptionRecord → List SubscriptionRecord
increment_subscription_cnt thing_name action is_sticky [] = []
increment_subscription_cnt thing_name action is_sticky (r ∷ records) =
    (if not r.is_free
        && (same (topic_name_from_thing_and_action thing_name action shadow_accepted) r.topic
            || same (topic_name_from_thing_and_action thing_name action shadow_rejected) r.topic)
      then record r { count = (r.count + 1) % 2 ^ 8; is_sticky = is_sticky }
      else r)
    ∷ increment_subscription_cnt thing_name action is_sticky records

-- What the records use of the client: aws_iot_mqtt_subscribe with AckStatusCallback,
-- aws_iot_mqtt_unsubscribe, and waiting until a subscription takes effect.
pub record Subscriber {ℓ} (C : Type ℓ) : Type ℓ where
  pub subscribe_topic : List ℕ → C → Result (Unit {0}) × C
  pub unsubscribe_topic : List ℕ → C → Result (Unit {0}) × C
  pub settle : C → C

module _ {ℓ} {C : Type ℓ} (client : Subscriber C) where
  abbrev pub Subscribed : Type ℓ
  Subscribed = Result (Unit {0}) × (List SubscriptionRecord × C)

  -- `if(SubscriptionList[index].count == 1) aws_iot_mqtt_unsubscribe(…);` for the entry.
  abbrev pub unsubscribe_counted : Option SubscriptionRecord → C → C
  unsubscribe_counted none c = c
  unsubscribe_counted (some r) c =
      let (rc, c') = client.unsubscribe_topic r.topic c in if r.count == 1 then c' else c

  -- The entries are cleared. Without an index the entry at -1 is read.
  abbrev pub cleared :
      Result (Unit {0}) → Option ℕ → Option ℕ → List SubscriptionRecord → C → Subscribed
  cleared rc none rejected records c = (fault, (records, c))
  cleared rc (some i) rejected records c =
      let records' = update_at release i records in
      (rc, (records', unsubscribe_counted (get_elem? records' i) c))

  abbrev pub counted : Bool → SubscriptionRecord → SubscriptionRecord
  counted is_sticky r = record r { count = 1; is_sticky = is_sticky }

  abbrev pub named : List ℕ → SubscriptionRecord → SubscriptionRecord
  named topic r = record r { topic = topic }

  -- What follows the second subscribe.
  abbrev pub after_rejected :
      Bool → ℕ → ℕ → List SubscriptionRecord → Result (Unit {0}) × C → Subscribed
  after_rejected is_sticky i j records (ok _, c) =
      (ok tt, (update_at (counted is_sticky) j records, client.settle c))
  after_rejected is_sticky i j records (err e, c) = cleared (err e) (some i) (some j) records c
  after_rejected is_sticky i j records (fault, c) = (fault, (records, c))

  -- What follows the first subscribe.
  abbrev pub after_accepted :
      List ℕ → Bool → ℕ → ℕ → List SubscriptionRecord → Result (Unit {0}) × C → Subscribed
  after_accepted topic is_sticky i j records (ok _, c) =
      let records' = update_at (named topic) j (update_at (counted is_sticky) i records) in
      after_rejected is_sticky i j records' (client.subscribe_topic topic c)
  after_accepted topic is_sticky i j records (err e, c) =
      cleared (err e) (some i) (some j) records c
  after_accepted topic is_sticky i j records (fault, c) = (fault, (records, c))

  abbrev pub with_entries :
      List ℕ → ShadowAction → Bool → Option ℕ → Option ℕ → List SubscriptionRecord → C → Subscribed
  with_entries thing_name action is_sticky (some i) (some j) records c =
      let accepted = topic_name_from_thing_and_action thing_name action shadow_accepted in
      let rejected = topic_name_from_thing_and_action thing_name action shadow_rejected in
      after_accepted rejected is_sticky i j (update_at (named accepted) i records)
        (client.subscribe_topic accepted c)
  with_entries thing_name action is_sticky (some i) none records c =
      cleared (ok tt) (some i) none records c
  with_entries thing_name action is_sticky none j records c = cleared (ok tt) none j records c

  -- subscribeToShadowActionAcks
  unfoldable pub subscribe_to_shadow_action_acks :
      List ℕ → ShadowAction → Bool → List SubscriptionRecord → C → Subscribed
  subscribe_to_shadow_action_acks thing_name action is_sticky records c =
      let (i, records1) = get_next_free_index_of_subscription_list records in
      let (j, records2) = get_next_free_index_of_subscription_list records1 in
      with_entries thing_name action is_sticky i j records2 c

-- findIndexOfSubscriptionList
unfoldable pub find_index_of_subscription_list : List ℕ → List SubscriptionRecord → Option ℕ
find_index_of_subscription_list topic [] = none
find_index_of_subscription_list topic (r ∷ records) =
    let rest = find_index_of_subscription_list topic records in
    if not r.is_free && same topic r.topic then some 0 else next_index rest

abbrev pub reduce : SubscriptionRecord → SubscriptionRecord
reduce r = record r { count = r.count - 1 }

module _ {ℓ} {C : Type ℓ} (client : Subscriber C) where
  abbrev pub Records : Type ℓ
  Records = List SubscriptionRecord × C

  abbrev pub after_unsubscribe : ℕ → List SubscriptionRecord → Result (Unit {0}) × C → Records
  after_unsubscribe i records (ok _, c) = (update_at release i records, c)
  after_unsubscribe i records (err e, c) = (records, c)
  after_unsubscribe i records (fault, c) = (records, c)

  -- One half of unsubscribeFromAcceptedAndRejected, at the entry that it reads.
  abbrev pub drop_entry :
      List ℕ → ℕ → Option SubscriptionRecord → List SubscriptionRecord → C → Records
  drop_entry topic i none records c = (records, c)
  drop_entry topic i (some r) records c =
      if not r.is_sticky && r.count == 1
      then after_unsubscribe i records (client.unsubscribe_topic topic c)
      else (if ltb 1 r.count then (update_at reduce i records, c) else (records, c))

  abbrev pub drop_at : List ℕ → Option ℕ → List SubscriptionRecord → C → Records
  drop_at topic none records c = (records, c)
  drop_at topic (some i) records c = drop_entry topic i (get_elem? records i) records c

  -- unsubscribeFromAcceptedAndRejected, with the thing name and the action of the entry of the list
  -- of acknowledgements.
  unfoldable pub unsubscribe_from_accepted_and_rejected :
      List ℕ → ShadowAction → List SubscriptionRecord → C → Records
  unsubscribe_from_accepted_and_rejected thing_name action records c =
      let accepted = topic_name_from_thing_and_action thing_name action shadow_accepted in
      let rejected = topic_name_from_thing_and_action thing_name action shadow_rejected in
      let (records1, c1) =
        drop_at accepted (find_index_of_subscription_list accepted records) records c in
      drop_at rejected (find_index_of_subscription_list rejected records1) records1 c1

-- The loop over the subscriptions of initializeRecords.
unfoldable pub initialize_subscriptions : List SubscriptionRecord → List SubscriptionRecord
initialize_subscriptions [] = []
initialize_subscriptions (r ∷ records) =
    record r { count = 0; is_free = true; is_sticky = false } ∷ initialize_subscriptions records
