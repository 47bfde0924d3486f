-- ===== src/Examples/Operations.antt =====
-- Concrete runs of the operations over a network that reads and writes a list.
use hornbill_examples.Common.{
  ℕ, ◌/◌, ◌≤◌, ltb, leb-false, if◌then◌else◌, take, ◌≡◌, ◌⊎◌, inr, refl, arith, true, false, List,
  [], ◌∷◌, ◌++◌, some, none, length, leb, codes,
}
use hornbill_examples.Errors.{
  IotError, Result, ok, err, fault, network_already_connected_error, network_disconnected_error,
  network_physical_layer_connected, network_attempting_reconnect,
}
use hornbill_examples.Timer.{Timer, countdown_ms}
use hornbill_examples.Wire.Header.{qos1}
use hornbill_examples.Wire.Length.{get_final_packet_length_from_remaining_length}
use hornbill_examples.Client.{
  connected_publish_in_progress, Client, MessageHandler, connected_idle, disconnected_error,
  disconnected_manually, pending_reconnect, is_client_connected, is_client_state_valid_for_connect,
}
use hornbill_examples.Client.Handlers.{subscription_exists}
use hornbill_examples.Client.Deliver.{Delivery}
use hornbill_examples.Transport.Send.Delivery.{IsReliable, IsInTime}
use hornbill_examples.Exec.{Running}
use hornbill_examples.Session.{System, timer_ms}
use hornbill_examples.Session.Publish.{publish}
use hornbill_examples.Session.Publish.Arrival.{
  plain_message, plain_packet, HasRoom, publish-arrives,
}
use hornbill_examples.Session.Unsubscribe.{unsubscribe}
use hornbill_examples.Session.Unsubscribe.Forgets.{unsubscribe-forgets}
use hornbill_examples.Session.Connect.{connect, disconnect}
use hornbill_examples.Session.Connect.Lifecycle.{Ends, connect_lem, disconnect_lem}
use hornbill_examples.Session.Yield.{yield}
use hornbill_examples.Session.Yield.Outcome.{YieldEnds, yield_lem}
use hornbill_examples.Session.Steady.{KeepsState, IsIn}
use hornbill_examples.Session.Restore.{HasLocks, moved}
use hornbill_examples.Session.Restore.Calls.{
  Call, publishing, subscribing, unsubscribing, resubscribing, run_all, run_all-restores,
}
use hornbill_examples.Examples.Networks.{
  listed, kept, hundred_ticks, open_semaphore, sending_client,
}

-- Its semaphores are free, its stack always connects, and no function of the application does
-- anything to the client.
abbrev system : System (List ℕ)
system = record {
  network = listed;
  stack_connect = λ w. (ok tt, w);
  stack_disconnect = λ w. w;
  stack_destroy = λ w. (ok tt, w);
  is_connected = some (λ w. (err network_physical_layer_connected, w));
  semaphore = λ w. (open_semaphore, w);
  application = λ address data_address m c. c;
  on_disconnect = λ address data_address c. c;
  rounds = 4;
}

system-HasLocks : HasLocks system
system-HasLocks = record { taken = λ w. refl; given = λ w. refl }

system-KeepsState : KeepsState system.application
system-KeepsState address data_address m c = refl

abbrev idle : Running (List ℕ)
idle = record { client = sending_client; timer = hundred_ticks; world = 9 ∷ [] }

-- A clock that moves on with what is sent, for twenty ticks.
abbrev twenty_ticks : ℕ → ℕ
twenty_ticks n = if ltb n 40 then n / 2 else 20

abbrev ticking : System (List ℕ)
ticking = record system { network = record listed { tick_count = λ w. twenty_ticks (length w) } }

ticking-HasLocks : HasLocks ticking
ticking-HasLocks = record { taken = λ w. refl; given = λ w. refl }

ticking-IsReliable : IsReliable ticking.network kept
ticking-IsReliable = record {
  takes = λ bytes n timer w h. record {
    sent_len = 1;
    world = w ++ take 1 bytes;
    result = refl;
    some_sent = omega arith;
    fits = omega (arith, h);
    arrived = refl;
  };
  sleeps = λ w. refl;
}

twenty_ticks_le : (n : ℕ) → twenty_ticks n ≤ 20
twenty_ticks_le n = ground arith

in_time : IsInTime ticking.network (
    timer_ms ticking idle.client.command_timeout_ms
      (moved ticking connected_publish_in_progress idle))
unfolding timer_ms countdown_ms
in_time w = leb-false _ _ (omega (arith, twenty_ticks_le (length w)))

room_for_message : HasRoom 0 (codes "a/b") (codes "on") sending_client
unfolding get_final_packet_length_from_remaining_length
room_for_message = record {
  buffer = omega arith;
  small = omega arith;
  short = omega arith;
  room = omega arith;
}

publish-arrives_example :
    ((publish ticking (some (codes "a/b")) 3 (some (plain_message 0 0 (codes "on"))) idle).0
      ≡ ok tt)
    × (kept
          (publish ticking
            (some (codes "a/b"))
            3
            (some (plain_message 0 0 (codes "on")))
            idle).1.world
        ≡ (9 ∷ []) ++ plain_packet 0 0 (codes "a/b") (codes "on"))
    × IsIn connected_idle
        (publish ticking (some (codes "a/b")) 3 (some (plain_message 0 0 (codes "on"))) idle).1
publish-arrives_example =
    publish-arrives ticking ticking-HasLocks kept ticking-IsReliable (λ w. refl) 0 0 (codes "a/b")
      (codes "on") idle refl (omega arith) room_for_message in_time

abbrev some_calls : List Call
some_calls =
    publishing (some (codes "a/b")) 3 (some (plain_message 0 0 (codes "on")))
    ∷ subscribing (some (codes "a/+")) 3 qos1 (some 1) 0
    ∷ unsubscribing (some (codes "a/+")) 3
    ∷ resubscribing
    ∷ []

run_all-restores_example :
    ((run_all system some_calls idle).0 ≡ fault)
    ⊎ ((run_all system some_calls idle).1.client.client_state ≡ connected_idle)
run_all-restores_example = run_all-restores system system-HasLocks system-KeepsState some_calls idle

abbrev lost : Running (List ℕ)
lost = record idle { client = record sending_client { client_state = disconnected_error } }

connect_lem_example :
    ((is_client_state_valid_for_connect disconnected_error ≡ false)
      × (connect system none lost ≡ (err network_already_connected_error, lost)))
    ⊎ ((is_client_state_valid_for_connect disconnected_error ≡ true)
        × Ends connected_idle disconnected_error (connect system none lost))
connect_lem_example = connect_lem system system-HasLocks system-KeepsState none lost

disconnect_lem_example :
    ((is_client_connected (some sending_client) ≡ false)
      × (disconnect system idle ≡ (err network_disconnected_error, idle)))
    ⊎ ((is_client_connected (some sending_client) ≡ true)
        × Ends disconnected_manually connected_idle (disconnect system idle))
disconnect_lem_example = disconnect_lem system system-HasLocks idle

abbrev waiting : Running (List ℕ)
waiting = record idle {
  client = record sending_client {
    client_state = pending_reconnect;
    current_reconnect_wait_interval = 1000;
  };
}

abbrev failed : Result (Unit {0})
failed = err network_attempting_reconnect

yield_lem_example :
    ((yield system 100 waiting).0 ≡ fault)
    ⊎ ((((yield system 100 waiting).0 ≡ ok tt) × IsIn connected_idle (yield system 100 waiting).1)
        ⊎ ((e : IotError) × (((yield system 100 waiting).0 ≡ err e)
              × YieldEnds e (yield system 100 waiting).1)))
yield_lem_example = yield_lem system system-HasLocks system-KeepsState 100 waiting (inr refl)

abbrev a_plus : MessageHandler
a_plus = record {
  topic_name = some (codes "a/+");
  topic_name_len = 3;
  qos = qos1;
  application_handler = some 1;
  application_handler_data = 0;
}

-- The answer of the server is there already.
abbrev subscribed : Running (List ℕ)
subscribed = record idle {
  client = record sending_client { message_handlers = a_plus ∷ [] };
  world = 176 ∷ 2 ∷ 0 ∷ 2 ∷ [];
}

unsubscribed : (unsubscribe system (some (codes "a/+")) 3 subscribed).0 ≡ ok tt
unfolding unsubscribe hornbill_examples.Exec.◌>>=◌ hornbill_examples.Exec.lift
    hornbill_examples.Session.Publish.require_idle hornbill_examples.Exec.gets is_client_connected
    hornbill_examples.Exec.pure hornbill_examples.Exec.attempt
    hornbill_examples.Session.change_state hornbill_examples.Session.next_semaphore
    hornbill_examples.Session.change_state_with hornbill_examples.Client.State.set_client_state
    hornbill_examples.Session.Unsubscribe.internal_unsubscribe subscription_exists
    hornbill_examples.Session.with_timer hornbill_examples.Session.next_id
    hornbill_examples.Session.chars hornbill_examples.Session.serialize
    hornbill_examples.Client.Deliver.call_handler hornbill_examples.Client.Deliver.deliver_loop
    hornbill_examples.Client.Deliver.deliver_message hornbill_examples.Client.Deliver.is_addressed
    hornbill_examples.Client.Handlers.remove_handlers
    hornbill_examples.Client.PacketId.get_next_packet_id hornbill_examples.Client.State.lock_mutex
    hornbill_examples.Client.State.unlock_mutex hornbill_examples.Client.get_client_state
    hornbill_examples.Exec.modify hornbill_examples.Exec.raise
    hornbill_examples.Packet.Ack.deserialize_ack hornbill_examples.Packet.Ack.serialize_ack
    hornbill_examples.Packet.Publish.deserialize_publish
    hornbill_examples.Packet.Publish.read_string_with_len
    hornbill_examples.Packet.Unsubscribe.deserialize_unsuback
    hornbill_examples.Packet.Unsubscribe.serialize_unsubscribe
    hornbill_examples.Packet.Unsubscribe.unsubscribe_rem_len
    hornbill_examples.Packet.Unsubscribe.write_topics hornbill_examples.Session.Read.cycle_read
    hornbill_examples.Session.Read.deliver hornbill_examples.Session.Read.deliver_with
    hornbill_examples.Session.Read.dispatch hornbill_examples.Session.Read.handle_publish
    hornbill_examples.Session.Read.restart_ping hornbill_examples.Session.Read.wait_for_read
    hornbill_examples.Session.Read.wait_loop hornbill_examples.Session.expired
    hornbill_examples.Session.receive hornbill_examples.Session.send
    hornbill_examples.Session.send_with timer_ms hornbill_examples.Session.timer_sec
    hornbill_examples.Threads.thread_mutex_lock hornbill_examples.Threads.thread_mutex_trylock
    hornbill_examples.Threads.thread_mutex_unlock countdown_ms hornbill_examples.Timer.countdown_sec
    hornbill_examples.Timer.has_timer_expired hornbill_examples.Topic.is_topic_matched
    hornbill_examples.Topic.match_loop hornbill_examples.Topic.skip_level
    hornbill_examples.Transport.Receive.decode_packet_remaining_len
    hornbill_examples.Transport.Receive.drop_loop
    hornbill_examples.Transport.Receive.packet_len_loop
    hornbill_examples.Transport.Receive.read_packet hornbill_examples.Transport.Send.send_loop
    hornbill_examples.Transport.Send.send_packet hornbill_examples.Transport.poll
    hornbill_examples.Wire.Header.init_header hornbill_examples.Wire.Length.decode_len_loop
    hornbill_examples.Wire.Length.decode_remaining_length_from_buffer
    get_final_packet_length_from_remaining_length hornbill_examples.Wire.Length.write_len_loop
    hornbill_examples.Wire.Length.write_len_to_buffer hornbill_examples.Wire.memcpy
    hornbill_examples.Wire.read_char hornbill_examples.Wire.read_uint16_t
    hornbill_examples.Wire.write_char hornbill_examples.Wire.write_uint_16
    hornbill_examples.Wire.write_utf8_string
unsubscribed = refl

unsubscribe-forgets_example :
    subscription_exists
      (codes "a/+")
      (unsubscribe system (some (codes "a/+")) 3 subscribed).1.client.message_handlers
    ≡ false
unsubscribe-forgets_example =
    unsubscribe-forgets system system-HasLocks (codes "a/+") 3 subscribed unsubscribed

-- The first semaphore is not given back.
abbrev stuck_once : System (List ℕ)
stuck_once = record system {
  semaphore = λ w. (record { taken = true; given = leb 1 (length w) }, 1 ∷ w);
}

abbrev unheard : Running (List ℕ)
unheard = record subscribed { world = [] }

-- Then unsubscribe takes back the change of state, and returns the code of that: SUCCESS, although the
-- table is as it was and nothing is sent.
unsubscribed_nothing :
    unsubscribe stuck_once (some (codes "a/+")) 3 unheard
    ≡ (ok tt, record unheard { world = 1 ∷ 1 ∷ [] })
unfolding unsubscribe hornbill_examples.Exec.◌>>=◌ hornbill_examples.Exec.lift
    hornbill_examples.Session.Publish.require_idle hornbill_examples.Exec.gets is_client_connected
    hornbill_examples.Exec.pure hornbill_examples.Exec.attempt
    hornbill_examples.Session.change_state hornbill_examples.Session.next_semaphore
    hornbill_examples.Session.change_state_with hornbill_examples.Client.State.set_client_state
    hornbill_examples.Client.State.lock_mutex hornbill_examples.Client.State.unlock_mutex
    hornbill_examples.Client.get_client_state hornbill_examples.Threads.thread_mutex_lock
    hornbill_examples.Threads.thread_mutex_trylock hornbill_examples.Threads.thread_mutex_unlock
unsubscribed_nothing = refl
