-- ===== src/Examples/Boards.antt =====
-- Concrete runs of the Arduino class and of the data logger.
use hornbill_examples.Common.{
  ℕ, zero, suc, ◌≡◌, ◌+◌, ◌-◌, ◌*◌, ◌/◌, refl, arith, Bool, true, false, List, [], ◌∷◌, some, none,
  codes, replicate,
}
use hornbill_examples.Errors.{Result, ok, err, network_ssl_nothing_to_read, tcp_connection_error}
use hornbill_examples.Packet.Connect.{ConnectParams}
use hornbill_examples.Timer.{countdown_ms, has_timer_expired, init_timer}
use hornbill_examples.Client.{Client, connected_idle, disconnected_error}
use hornbill_examples.Client.Init.{InitAnswers, init}
use hornbill_examples.Exec.{Running}
use hornbill_examples.Session.{System, timer_ms}
use hornbill_examples.Session.Connect.{connect}
use hornbill_examples.Session.Steady.{KeepsState}
use hornbill_examples.Session.Restore.{HasLocks}
use hornbill_examples.Examples.Networks.{listed, hundred_ticks, open_semaphore, sending_client}
use hornbill_examples.AwsIot.{Platform, init_params, connect_loop, connect_params, class_connect}
use hornbill_examples.AwsIot.Connecting.{Ended, connect_loop-retries, class_connect_lem}
use hornbill_examples.Sensors.Thermocouple.{Gpio, Pins, max6675_read_celsius}
use hornbill_examples.Sensors.Thermocouple.Frames.{word_bits, device_word, read_celsius-word}
use hornbill_examples.Sensors.Current.{Double, Converter, Meter, current_sensor_calc_irms}
use hornbill_examples.Sensors.Current.Mean.{
  samples, sampled, centred, last_offset, root_mean_square, calc_irms-root_mean_square,
}

-- Nothing comes in, and a tick is two seconds long.
abbrev board_system : System (List ℕ)
board_system = record {
  network = record listed {
    read = λ n timer w. (err network_ssl_nothing_to_read, w);
    tick_ms = 2000;
  };
  stack_connect = λ w. (ok tt, w);
  stack_disconnect = λ w. w;
  stack_destroy = λ w. (ok tt, w);
  is_connected = none;
  semaphore = λ w. (open_semaphore, w);
  application = λ address data_address m c. c;
  on_disconnect = λ address data_address c. c;
  rounds = 4;
}

board_system-HasLocks : HasLocks board_system
board_system-HasLocks = record { taken = λ w. refl; given = λ w. refl }

board_system-KeepsState : KeepsState board_system.application
board_system-KeepsState address data_address m c = refl

abbrev platform : Platform (List ℕ)
platform = record {
  system = board_system;
  root_ca = [];
  certificate = [];
  private_key = [];
  disconnect_callback_handler = 1;
  iot_subscribe_callback_handler = 2;
  start_task = λ w. w;
  task_delay = λ n w. w;
}

abbrev board_client : Client
board_client = record sending_client {
  write_buf_size = 512;
  write_buf = replicate 512 0;
  read_buf_size = 512;
  read_buf = replicate 512 0;
}

abbrev idle_board : Running (List ℕ)
idle_board = record { client = board_client; timer = hundred_ticks; world = [] }

abbrev answers : InitAnswers
answers = record {
  state_change_mutex = true;
  tls_read_mutex = true;
  tls_write_mutex = true;
  tls_init = ok tt;
}

class_connect_lem_example :
    Ended
      (init (init_params platform (codes "host")) answers board_client)
      idle_board
      (class_connect platform 3 (codes "host") (codes "thing") answers idle_board)
class_connect_lem_example =
    class_connect_lem platform board_system-HasLocks board_system-KeepsState 3 (codes "host")
      (codes "thing") answers idle_board

-- The first attempt to connect fails, and for the second there is a CONNACK to read.
abbrev dial : List ℕ → Result (Unit {0}) × List ℕ
dial [] = (err tcp_connection_error, 32 ∷ 2 ∷ 0 ∷ 0 ∷ [])
dial (b ∷ bytes) = (ok tt, b ∷ bytes)

abbrev dialling : Platform (List ℕ)
dialling = record platform {
  system = record board_system { network = listed; stack_connect = dial };
}

abbrev fresh : Running (List ℕ)
fresh = record idle_board { client = record board_client { client_state = disconnected_error } }

abbrev once_failed : Running (List ℕ)
once_failed = (connect dialling.system (some (connect_params (codes "id"))) fresh).1

abbrev connected : Running (List ℕ)
connected = (connect dialling.system (some (connect_params (codes "id"))) once_failed).1

failing :
    connect dialling.system (some (connect_params (codes "id"))) fresh
    ≡ (err tcp_connection_error, once_failed)
unfolding connect hornbill_examples.Client.State.set_client_state
    hornbill_examples.Client.is_client_state_valid_for_connect
    hornbill_examples.Client.set_connect_params hornbill_examples.Exec.attempt
    hornbill_examples.Exec.gets hornbill_examples.Exec.raise hornbill_examples.Exec.◌>>=◌
    hornbill_examples.Session.Connect.close_stack hornbill_examples.Session.Connect.internal_connect
    hornbill_examples.Session.Connect.use_params hornbill_examples.Session.change_state
    hornbill_examples.Session.change_state_with hornbill_examples.Session.next_semaphore
    hornbill_examples.Session.outside
failing = refl

succeeding :
    connect dialling.system (some (connect_params (codes "id"))) once_failed ≡ (ok tt, connected)
unfolding connect countdown_ms has_timer_expired hornbill_examples.Client.Deliver.call_handler
    hornbill_examples.Client.Deliver.deliver_loop hornbill_examples.Client.Deliver.deliver_message
    hornbill_examples.Client.Deliver.is_addressed hornbill_examples.Client.State.lock_mutex
    hornbill_examples.Client.State.set_client_state hornbill_examples.Client.State.unlock_mutex
    hornbill_examples.Client.get_client_state
    hornbill_examples.Client.is_client_state_valid_for_connect
    hornbill_examples.Client.set_connect_params hornbill_examples.Exec.attempt
    hornbill_examples.Exec.gets hornbill_examples.Exec.lift hornbill_examples.Exec.modify
    hornbill_examples.Exec.pure hornbill_examples.Exec.raise hornbill_examples.Exec.◌>>=◌
    hornbill_examples.Packet.Ack.serialize_ack hornbill_examples.Packet.Connect.deserialize_connack
    hornbill_examples.Packet.Connect.get_connect_packet_length
    hornbill_examples.Packet.Connect.serialize_connect
    hornbill_examples.Packet.Publish.deserialize_publish
    hornbill_examples.Packet.Publish.read_string_with_len
    hornbill_examples.Session.Connect.close_stack hornbill_examples.Session.Connect.exchange_connect
    hornbill_examples.Session.Connect.internal_connect hornbill_examples.Session.Connect.use_params
    hornbill_examples.Session.Read.cycle_read hornbill_examples.Session.Read.deliver
    hornbill_examples.Session.Read.deliver_with hornbill_examples.Session.Read.dispatch
    hornbill_examples.Session.Read.handle_publish hornbill_examples.Session.Read.restart_ping
    hornbill_examples.Session.Read.wait_for_read hornbill_examples.Session.Read.wait_loop
    hornbill_examples.Session.change_state hornbill_examples.Session.change_state_with
    hornbill_examples.Session.expired hornbill_examples.Session.next_semaphore
    hornbill_examples.Session.outside hornbill_examples.Session.receive
    hornbill_examples.Session.send hornbill_examples.Session.send_with
    hornbill_examples.Session.serialize hornbill_examples.Session.timer_sec
    hornbill_examples.Session.with_timer hornbill_examples.Threads.thread_mutex_lock
    hornbill_examples.Threads.thread_mutex_trylock hornbill_examples.Threads.thread_mutex_unlock
    hornbill_examples.Timer.countdown_sec hornbill_examples.Topic.is_topic_matched
    hornbill_examples.Topic.match_loop hornbill_examples.Topic.skip_level
    hornbill_examples.Transport.Receive.decode_packet_remaining_len
    hornbill_examples.Transport.Receive.drop_loop
    hornbill_examples.Transport.Receive.packet_len_loop
    hornbill_examples.Transport.Receive.read_packet hornbill_examples.Transport.Send.send_loop
    hornbill_examples.Transport.Send.send_packet hornbill_examples.Transport.poll
    hornbill_examples.Wire.Header.init_header hornbill_examples.Wire.Length.decode_len_loop
    hornbill_examples.Wire.Length.decode_remaining_length_from_buffer
    hornbill_examples.Wire.Length.get_final_packet_length_from_remaining_length
    hornbill_examples.Wire.Length.write_len_loop hornbill_examples.Wire.Length.write_len_to_buffer
    hornbill_examples.Wire.memcpy hornbill_examples.Wire.read_char
    hornbill_examples.Wire.read_uint16_t hornbill_examples.Wire.write_char
    hornbill_examples.Wire.write_uint_16 hornbill_examples.Wire.write_utf8_string timer_ms
succeeding = refl

connect_loop-retries_example :
    connect_loop dialling 3 (connect_params (codes "id")) fresh ≡ (ok tt, connected)
connect_loop-retries_example =
    connect_loop-retries dialling (connect_params (codes "id")) 3 1 fresh once_failed connected
      (omega arith) (tcp_connection_error, once_failed, failing, refl) succeeding

-- The bits that are left are the world; the clock that goes high takes one away.
abbrev next_bit : List Bool → ℕ
next_bit [] = 0
next_bit (true ∷ bits) = 1
next_bit (false ∷ bits) = 0

abbrev without_first : List Bool → List Bool
without_first [] = []
without_first (b ∷ bits) = bits

abbrev at_level : ℕ → List Bool → List Bool
at_level zero bits = bits
at_level (suc n) bits = without_first bits

-- Only the clock pin, which is 0 here, shifts.
abbrev at_pin : ℕ → ℕ → List Bool → List Bool
at_pin zero level bits = at_level level bits
at_pin (suc n) level bits = bits

abbrev line : Gpio (List Bool)
line = record {
  select = λ pin w. w;
  set_direction = λ pin output w. w;
  set_level = at_pin;
  get_level = λ pin w. next_bit w;
  delay_us = λ us w. w;
}

abbrev line_pins : Pins
line_pins = record { sclk_pin = 0; cs_pin = 14; miso_pin = 27 }

read_celsius-word_example :
    (max6675_read_celsius line line_pins (word_bits (device_word 85 false false true))).0 ≡ 85
read_celsius-word_example =
    read_celsius-word line line_pins 85 false false true
      (word_bits (device_word 85 false false true)) (omega arith)
      (
        refl,
        (
          refl,
          (
            refl,
            (
              refl,
              (
                refl,
                (
                  refl,
                  (
                    refl,
                    (refl, (refl, (refl, (refl, (refl, (refl, (refl, (refl, (refl, tt))))))))),
                  ),
                ),
              ),
            ),
          ),
        ),
      )

-- Numbers that do not round, in place of doubles.
abbrev whole : Double ℕ
whole = record {
  of_int = λ n. n;
  add = λ a b. a + b;
  sub = λ a b. a - b;
  mul = λ a b. a * b;
  div = λ a b. a / b;
  sqrt = λ a. a;
}

abbrev waves : Converter (List ℕ)
waves = record { configure = λ pin w. w; get_voltage = λ pin w. (2100, w) }

abbrev meter : Meter ℕ
meter = record {
  in_pin_i = 0;
  ical = 111;
  sample_i = 0;
  offset_i = 2048;
  filtered_i = 0;
  sq_i = 0;
  sum_i = 0;
  irms = 0;
}

calc_irms-root_mean_square_example :
    let (m', w') = current_sensor_calc_irms whole waves 3 meter [] in
    let xs = samples waves 0 3 [] in
    (m'.irms ≡ root_mean_square whole 111 3 (centred whole 2048 xs))
    × (m'.offset_i ≡ last_offset whole 2048 xs)
    × (m'.sum_i ≡ 0)
    × (w' ≡ sampled waves 0 3 [])
calc_irms-root_mean_square_example = calc_irms-root_mean_square whole waves 3 meter [] refl
