-- ===== src/Examples/Networks.antt =====
-- Concrete networks: one that takes a byte with each write, and one that reads from a list.
use hornbill_examples.Common.{
  ℕ, ◌≡◌, refl, arith, true, false, List, [], ◌∷◌, ◌++◌, none, codes, take, drop, replicate,
}
use hornbill_examples.Errors.{fault, ok}
use hornbill_examples.Timer.{Timer}
use hornbill_examples.Threads.{Semaphore}
use hornbill_examples.Wire.Writing.{uint16_bytes}
use hornbill_examples.Packet.Frame.{frame}
use hornbill_examples.Client.{Client, connected_idle}
use hornbill_examples.Client.Init.{default_options}
use hornbill_examples.Transport.{Network, Io}
use hornbill_examples.Transport.Send.{send_packet}
use hornbill_examples.Transport.Send.Delivery.{IsReliable, IsInTime, send_packet-arrives}
use hornbill_examples.Transport.Receive.{read_packet}
use hornbill_examples.Transport.Receive.Remaining.{Feeds}
use hornbill_examples.Transport.Receive.Overflow.{read_packet-fault}
use hornbill_examples.Transport.Receive.Frames.{read_packet-frame}

abbrev pub listed : Network (List ℕ)
listed = record {
  write = λ bytes n timer w. (ok 1, w ++ take 1 bytes);
  read = λ n timer w. (ok (take n w), drop n w);
  tick_count = λ w. 7;
  delay = λ w. w;
  tick_ms = 10;
}

abbrev pub kept : List ℕ → List ℕ
kept w = w

pub listed-IsReliable : IsReliable listed kept
listed-IsReliable = record {
  takes = λ bytes n timer w h. record {
    sent_len = 1;
    world = w ++ take 1 bytes;
    result = refl;
    some_sent = omega arith;
    fits = omega (arith, h);
    arrived = refl;
  };
  sleeps = λ w. refl;
}

listed-Feeds : Feeds listed kept
listed-Feeds = record {
  reads = λ n timer w h. record { world = drop n w; result = refl; left = refl };
}

abbrev pub hundred_ticks : Timer
hundred_ticks = record { start_ticks = 0; timeout_ticks = 100; last_polled_ticks = 0 }

abbrev pub open_semaphore : Semaphore
open_semaphore = record { taken = true; given = true }

abbrev pub sending_client : Client
sending_client = record {
  ping_timer = hundred_ticks;
  reconnect_delay_timer = hundred_ticks;
  client_state = connected_idle;
  is_ping_outstanding = false;
  is_auto_reconnect_enabled = true;
  next_packet_id = 1;
  packet_timeout_ms = 2000;
  command_timeout_ms = 20000;
  keep_alive_interval = 10;
  current_reconnect_wait_interval = 0;
  counter_network_disconnected = 0;
  write_buf_size = 32;
  read_buf_size = 8;
  write_buf = codes "packet" ++ replicate 26 0;
  read_buf = replicate 8 0;
  is_block_on_thread_lock_enabled = false;
  options = default_options;
  message_handlers = [];
  disconnect_handler = none;
  disconnect_handler_data = 0;
}

abbrev started : Io (List ℕ)
started = record { timer = hundred_ticks; world = 1 ∷ 2 ∷ [] }

hundred_ticks-IsInTime : IsInTime listed hundred_ticks
hundred_ticks-IsInTime w = refl

send_packet-arrives_example :
    ((send_packet listed open_semaphore sending_client 6 started).0 ≡ ok tt)
    × (kept (send_packet listed open_semaphore sending_client 6 started).1.world
        ≡ (1 ∷ 2 ∷ []) ++ take 6 sending_client.write_buf)
send_packet-arrives_example =
    send_packet-arrives listed kept listed-IsReliable open_semaphore sending_client 6 started
      hundred_ticks-IsInTime refl refl (omega arith) (omega arith)

abbrev puback_stream : List ℕ
puback_stream = frame 64 (uint16_bytes 7) ++ codes "more"

read_packet-frame_example :
    (world : List ℕ) × ((read_packet listed 4 sending_client hundred_ticks puback_stream
        ≡ (ok 4, (frame 64 (uint16_bytes 7) ++ drop 4 sending_client.read_buf, world)))
      × (kept world ≡ codes "more"))
read_packet-frame_example =
    read_packet-frame listed kept listed-Feeds 4 sending_client hundred_ticks 64 (uint16_bytes 7)
      (codes "more") puback_stream (omega arith) (omega arith) (omega arith) (omega arith) refl

-- Seven bytes pass the check against the size 8, and end one byte behind the buffer.
abbrev long_body : List ℕ
long_body = codes "1234567"

read_packet-fault_example :
    (read_packet listed 4 sending_client hundred_ticks (frame 48 long_body)).0 ≡ fault
read_packet-fault_example =
    read_packet-fault listed kept listed-Feeds 4 sending_client hundred_ticks 48 long_body []
      (frame 48 long_body) (omega arith) (omega arith) (omega arith) (omega arith) (omega arith)
      refl
