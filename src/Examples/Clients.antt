-- ===== src/Examples/Clients.antt =====
-- A concrete client, with two subscriptions.
use hornbill_examples.Common.{
  ℕ, ◌+◌, ◌<◌, ◌≤◌, ◌≡◌, ◌≢◌, ◌⊎◌, refl, arith, true, false, List, [], ◌∷◌, ◌++◌, Option, some,
  none, length, codes, set, take, drop,
}
use hornbill_examples.Errors.{
  ok, err, guard, mutex_lock_error, mutex_unlock_error, mqtt_unexpected_client_state_error,
}
use hornbill_examples.Threads.{Semaphore, thread_mutex_init}
use hornbill_examples.Wire.Header.{qos1}
use hornbill_examples.Client.{
  Client, MessageHandler, connected_idle, connected_publish_in_progress,
  connected_wait_for_cb_return,
}
use hornbill_examples.Client.State.{set_client_state}
use hornbill_examples.Client.State.CompareAndSet.{IsLocked, set_client_state_lem}
use hornbill_examples.Client.PacketId.{get_next_packet_id}
use hornbill_examples.Client.PacketId.Cycle.{after_calls, get_next_packet_id-distinct}
use hornbill_examples.Client.Handlers.{free_index, remove_handlers}
use hornbill_examples.Client.Handlers.Table.{
  subscriptions, without, store_handler-subscriptions, remove_handlers-subscriptions,
}
use hornbill_examples.Client.Init.{InitParams, InitAnswers, default_options, mutexes_init}
use hornbill_examples.Client.Init.Fresh.{IsComplete}
use hornbill_examples.Client.Deliver.{Application, PublishMessageParams, Delivery, deliver_message}
use hornbill_examples.Client.Deliver.Dispatch.{IsQuiet}
use hornbill_examples.Client.Deliver.Filters.{run_meant, deliver_message-filters}
use hornbill_examples.Topic.Levels.{Filter, any_last, last_word, word_then, last_level, level_then}

abbrev handler_for : Option (List ℕ) → ℕ → ℕ → MessageHandler
handler_for name len address = record {
  topic_name = name;
  topic_name_len = len;
  qos = qos1;
  application_handler = some address;
  application_handler_data = 0;
}

abbrev table : List MessageHandler
table =
    handler_for (some (codes "a/b")) 3 1
    ∷ handler_for none 0 0
    ∷ handler_for (some (codes "a/+")) 3 2
    ∷ handler_for none 0 0
    ∷ handler_for (some (codes "c")) 1 3
    ∷ []

abbrev idle_client : Client
idle_client = record {
  ping_timer = record { start_ticks = 0; timeout_ticks = 0; last_polled_ticks = 0 };
  reconnect_delay_timer = record { start_ticks = 0; timeout_ticks = 0; last_polled_ticks = 0 };
  client_state = connected_idle;
  is_ping_outstanding = false;
  is_auto_reconnect_enabled = true;
  next_packet_id = 65534;
  packet_timeout_ms = 2000;
  command_timeout_ms = 20000;
  keep_alive_interval = 10;
  current_reconnect_wait_interval = 0;
  counter_network_disconnected = 0;
  write_buf_size = 512;
  read_buf_size = 512;
  write_buf = [];
  read_buf = [];
  is_block_on_thread_lock_enabled = false;
  options = default_options;
  message_handlers = table;
  disconnect_handler = none;
  disconnect_handler_data = 0;
}

abbrev free_semaphore : Semaphore
free_semaphore = record { taken = true; given = true }

set_client_state_lem_example :
    (IsLocked free_semaphore idle_client
      × (idle_client.client_state ≡ connected_idle)
      × (set_client_state free_semaphore connected_idle connected_publish_in_progress idle_client
          ≡ (
            guard free_semaphore.given mutex_unlock_error,
            record idle_client { client_state = connected_publish_in_progress },
          )))
    ⊎ ((IsLocked free_semaphore idle_client
          × (idle_client.client_state ≢ connected_idle)
          × (set_client_state free_semaphore connected_idle connected_publish_in_progress
                idle_client
              ≡ (err mqtt_unexpected_client_state_error, idle_client)))
        ⊎ ((IsLocked free_semaphore idle_client → ⊥)
            × (set_client_state free_semaphore connected_idle connected_publish_in_progress
                  idle_client
                ≡ (err mutex_lock_error, idle_client))))
set_client_state_lem_example =
    set_client_state_lem free_semaphore connected_idle connected_publish_in_progress idle_client

get_next_packet_id-distinct_example :
    (1 ≤ (get_next_packet_id (after_calls 0 idle_client)).0)
    × ((get_next_packet_id (after_calls 0 idle_client)).0 ≤ 65535)
    × ((get_next_packet_id (after_calls 0 idle_client)).0
        ≢ (get_next_packet_id (after_calls 2 idle_client)).0)
get_next_packet_id-distinct_example =
    get_next_packet_id-distinct 0 2 idle_client (omega arith) (omega arith) (omega arith)
      (omega arith)

-- The id 65535 is followed by 1.
wrapped_id : (get_next_packet_id (after_calls 1 idle_client)).0 ≡ 1
unfolding get_next_packet_id
wrapped_id = refl

abbrev new_handler : MessageHandler
new_handler = handler_for (some (codes "d")) 1 4

room_in_table : free_index table < length table
unfolding free_index
room_in_table = omega arith

store_handler-subscriptions_example :
    subscriptions (set table (free_index table) new_handler)
    ≡ take (free_index table) (subscriptions table)
      ++ (new_handler ∷ drop (free_index table) (subscriptions table))
store_handler-subscriptions_example =
    store_handler-subscriptions table new_handler refl room_in_table

remove_handlers-subscriptions_example :
    subscriptions (remove_handlers (codes "a/b") table)
    ≡ without (codes "a/b") (subscriptions table)
remove_handlers-subscriptions_example = remove_handlers-subscriptions (codes "a/b") table

-- An application whose handlers count their calls in a field of the client.
abbrev counting : Application
counting address data_address m c = record c {
  counter_network_disconnected = c.counter_network_disconnected + 1;
}

counting-IsQuiet : IsQuiet counting
counting-IsQuiet address data_address m c = (refl, refl, refl)

abbrev message : PublishMessageParams
message = record { qos = 0; is_retained = 0; is_dup = 0; id = 0; payload = []; payload_len = 0 }

abbrev delivery : Delivery
delivery = record { topic_name = codes "a/b" ++ codes "on"; topic_name_len = 3; params = message }

-- `a/b` of the message is the first filter and matches the third.
abbrev some_filters : List (Option Filter)
some_filters =
    some (word_then (codes "a") (last_word (codes "b")))
    ∷ none
    ∷ some (word_then (codes "a") any_last)
    ∷ none
    ∷ some (last_word (codes "c"))
    ∷ []

abbrev called : Client
called =
    run_meant counting delivery (level_then (codes "a") (last_level (codes "b"))) table some_filters
      (record idle_client { client_state = connected_wait_for_cb_return })

called_test : called.counter_network_disconnected ≡ idle_client.counter_network_disconnected + 2
called_test = refl

deliver_message-filters_example :
    deliver_message counting free_semaphore free_semaphore
      (some (codes "a/b" ++ codes "on"))
      3
      message
      idle_client
    ≡ (guard true mutex_unlock_error, record called { client_state = connected_idle })
deliver_message-filters_example =
    deliver_message-filters counting free_semaphore free_semaphore
      (level_then (codes "a") (last_level (codes "b"))) (codes "on") message some_filters
      idle_client counting-IsQuiet refl
      (
        (refl, refl, ground arith),
        (refl, ((refl, refl, ground arith), (refl, ((refl, refl, ground arith), tt)))),
      )
      (ground arith) (ground arith) refl refl

abbrev init_params : InitParams
init_params = record {
  enable_auto_reconnect = true;
  host_url = some (codes "host");
  port = 8883;
  root_ca_location = some [];
  device_cert_location = some [];
  device_private_key_location = some [];
  mqtt_packet_timeout_ms = 20000;
  mqtt_command_timeout_ms = 20000;
  tls_handshake_timeout_ms = 5000;
  is_ssl_hostname_verify = true;
  disconnect_handler = none;
  disconnect_handler_data = 0;
  is_block_on_thread_lock_enabled = false;
}

abbrev all_created : InitAnswers
all_created = record {
  state_change_mutex = true;
  tls_read_mutex = true;
  tls_write_mutex = true;
  tls_init = ok tt;
}

init_params-IsComplete : IsComplete init_params
init_params-IsComplete = (refl, (omega arith), refl, refl, refl)

mutexes_created : mutexes_init all_created ≡ ok tt
unfolding thread_mutex_init
mutexes_created = refl
