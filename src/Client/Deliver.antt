-- ===== src/Client/Deliver.antt =====
-- _aws_iot_mqtt_internal_deliver_message:
-- arduino-esp32/AWS_IOT/src/aws_iot_mqtt_client_common_internal.c. What the application's handlers
-- do to the client is a parameter.
pub mod Dispatch
pub mod Filters
use hornbill_examples.Common.{
  ℕ, zero, suc, ◌==◌, if◌then◌else◌, ◌&&◌, ◌||◌, Bool, true, false, List, Option, none, some,
  get_elem?, take, same_up_to,
}
use hornbill_examples.Errors.{err, null_value_error}
use hornbill_examples.Topic.{is_topic_matched}
use hornbill_examples.Threads.{Semaphore}
use hornbill_examples.Client.{Client, MessageHandler, connected_wait_for_cb_return}
use hornbill_examples.Client.State.{Outcome, set_client_state}
use hornbill_examples.Client.Handlers.{num_subscribe_handlers}

-- IoT_Publish_Message_Params
pub record PublishMessageParams : Type 0 where
  pub qos : ℕ
  pub is_retained : ℕ
  pub is_dup : ℕ
  pub id : ℕ
  pub payload : List ℕ
  pub payload_len : ℕ

-- A received message: the characters from pTopicName on, topicNameLen, and pMessageParams.
pub record Delivery : Type 0 where
  pub topic_name : List ℕ
  pub topic_name_len : ℕ
  pub params : PublishMessageParams

-- What the application's function at an address does to the client, for a message and for the data
-- address that it was registered with.
abbrev pub Application : Type 0
Application = ℕ → ℕ → Delivery → Client → Client

-- The two tests of the loop: the entry is taken, and its topic is the message's or matches it.
unfoldable pub is_addressed : Delivery → MessageHandler → Bool
is_addressed m h = elim h.topic_name [
  | none ↦ false
  | some filter ↦
      (m.topic_name_len == h.topic_name_len && same_up_to m.topic_name_len m.topic_name filter)
      || is_topic_matched (some filter) (some (take m.topic_name_len m.topic_name))
]

unfoldable pub call_handler : Application → Delivery → MessageHandler → Client → Client
call_handler app m h c =
    if is_addressed m h
    then elim h.application_handler [
      | none ↦ c
      | some address ↦ app address h.application_handler_data m c
    ]
    else c

-- One iteration, at the entry that it reads.
abbrev pub deliver_at : Application → Delivery → Option MessageHandler → Client → Client
deliver_at app m none c = c
deliver_at app m (some h) c = call_handler app m h c

-- The loop, with the number of iterations that are left. It reads the table anew each time, since a
-- handler may change it.
unfoldable pub deliver_loop : Application → Delivery → ℕ → ℕ → Client → Client
deliver_loop app m zero itr c = c
deliver_loop app m (suc left) itr c =
    deliver_loop app m left (suc itr) (deliver_at app m (get_elem? c.message_handlers itr) c)

-- The topic's pointer may be NULL. The result of the first state change is overwritten.
unfoldable pub deliver_message :
    Application
    → Semaphore
    → Semaphore
    → Option (List ℕ)
    → ℕ
    → PublishMessageParams
    → Client
    → Outcome
deliver_message app s1 s2 none len params c = (err null_value_error, c)
deliver_message app s1 s2 (some name) len params c =
    let m : Delivery = record { topic_name = name; topic_name_len = len; params = params } in
    let (_, waiting) = set_client_state s1 c.client_state connected_wait_for_cb_return c in
    let called = deliver_loop app m num_subscribe_handlers 0 waiting in
    set_client_state s2 connected_wait_for_cb_return c.client_state called
