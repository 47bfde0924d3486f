-- ===== src/Client/Handlers.antt =====
-- The table of message handlers: _aws_iot_mqtt_get_free_message_handler_index and the write at the
-- end of _aws_iot_mqtt_internal_subscribe, both of
-- arduino-esp32/AWS_IOT/src/aws_iot_mqtt_client_subscribe.c, and the two loops of
-- _aws_iot_mqtt_internal_unsubscribe of arduino-esp32/AWS_IOT/src/aws_iot_mqtt_client_unsubscribe.c.
pub mod Table
use hornbill_examples.Common.{
  ℕ, zero, suc, if◌then◌else◌, ◌&&◌, ◌||◌, Bool, true, false, List, [], ◌∷◌, Option, none, some,
  set, same,
}
use hornbill_examples.Wire.Header.{QoS}
use hornbill_examples.Client.{Client, MessageHandler}

-- AWS_IOT_MQTT_NUM_SUBSCRIBE_HANDLERS of aws_iot_config.h
abbrev pub num_subscribe_handlers : ℕ
num_subscribe_handlers = 5

abbrev pub is_free : MessageHandler → Bool
is_free h = elim h.topic_name [ none ↦ true | some _ ↦ false ]

-- The loop over the table, which a client has with all its entries.
unfoldable pub free_index : List MessageHandler → ℕ
free_index [] = 0
free_index (h ∷ handlers) = let rest = free_index handlers in if is_free h then 0 else suc rest

unfoldable pub get_free_message_handler_index : Client → ℕ
get_free_message_handler_index c = free_index c.message_handlers

-- The assignments behind the SUBACK.
unfoldable pub store_handler : ℕ → MessageHandler → Client → Client
store_handler index h c = record c { message_handlers = set c.message_handlers index h }

-- `topicName != NULL && strcmp(topicName, pTopicFilter) == 0`
abbrev pub is_for : List ℕ → MessageHandler → Bool
is_for topic_filter h = elim h.topic_name [ none ↦ false | some name ↦ same name topic_filter ]

-- The first loop.
unfoldable pub subscription_exists : List ℕ → List MessageHandler → Bool
subscription_exists topic_filter [] = false
subscription_exists topic_filter (h ∷ handlers) =
    is_for topic_filter h || subscription_exists topic_filter handlers

-- The second loop, which does not stop at the first match.
unfoldable pub remove_handlers : List ℕ → List MessageHandler → List MessageHandler
remove_handlers topic_filter [] = []
remove_handlers topic_filter (h ∷ handlers) =
    (if is_for topic_filter h then record h { topic_name = none } else h)
    ∷ remove_handlers topic_filter handlers
