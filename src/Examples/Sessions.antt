-- ===== src/Examples/Sessions.antt =====
-- Concrete connects, timers and topics.
use hornbill_examples.Common.{
  ℕ, ◌+◌, ◌/◌, ◌%◌, ◌^◌, leb, if◌then◌else◌, ◌≡◌, refl, arith, true, false, List, [], some, none,
  length, replicate, codes,
}
use hornbill_examples.Errors.{ok, err, mqtt_tx_buffer_too_short_error}
use hornbill_examples.Wire.{start}
use hornbill_examples.Wire.Writing.{advance}
use hornbill_examples.Wire.Header.{qos0}
use hornbill_examples.Wire.Length.{get_final_packet_length_from_remaining_length}
use hornbill_examples.Packet.Frame.{frame}
use hornbill_examples.Packet.Connect.{ConnectParams, serialize_connect}
use hornbill_examples.Packet.Connect.Serialize.{IsConsistent, connect_body, serialize_connect_lem}
use hornbill_examples.Timer.{Timer, has_timer_expired, countdown_ms}
use hornbill_examples.Timer.Expiry.{has_timer_expired-countdown_ms}
use hornbill_examples.Topic.{match_loop, is_topic_matched}
use hornbill_examples.Topic.Levels.{
  Filter, Name, IsFilter, IsName, matches, last_word, any_then, word_then, level_then, last_level,
  filter_text, name_text, is_topic_matched-matches,
}

abbrev room : List ℕ
room = replicate 32 0

abbrev payload : List ℕ
payload = codes "on"

abbrev connect_params : ConnectParams
connect_params = record {
  mqtt_version = 4;
  client_id = some (codes "hornbill");
  client_id_len = 8;
  keep_alive_interval_in_sec = 10;
  is_clean_session = true;
  is_will_msg_present = false;
  will = record {
    topic_name = [];
    topic_name_len = 0;
    message = [];
    msg_len = 0;
    is_retained = false;
    qos = qos0;
  };
  username = none;
  username_len = 0;
  password = none;
  password_len = 0;
}

connect_params-IsConsistent : IsConsistent connect_params
connect_params-IsConsistent = record {
  version = refl;
  client_id_given = refl;
  client_id = refl;
  topic_name = refl;
  message = refl;
  username = tt;
  password = tt;
  short_client_id = omega arith;
  short_topic_name = omega arith;
  short_message = omega arith;
  short_username = omega arith;
  short_password = omega arith;
}

serialize_connect_lem_example : serialize_connect (some room) 32 (some connect_params) ≡ (
    if leb (get_final_packet_length_from_remaining_length (length (connect_body connect_params))) 32
    then ok (advance (start room) (frame 16 (connect_body connect_params)))
    else err mqtt_tx_buffer_too_short_error)
serialize_connect_lem_example =
    serialize_connect_lem room 32 connect_params (omega arith) (omega arith)
      connect_params-IsConsistent

has_timer_expired-countdown_ms_example :
    (has_timer_expired ((4294967290 + 100) % 2 ^ 32) (countdown_ms 10 4294967290 1000)).expired
    ≡ leb (1000 / 10) 100
has_timer_expired-countdown_ms_example =
    has_timer_expired-countdown_ms 10 4294967290 1000 100 (omega arith) (omega arith)

abbrev running : Timer
running = record { start_ticks = 5; timeout_ticks = 20; last_polled_ticks = 7 }

abbrev any_device : Filter
any_device = word_then (codes "dev") (any_then (last_word (codes "on")))

abbrev device_on : Name
device_on = level_then (codes "dev") (level_then (codes "7") (last_level (codes "on")))

any_device-IsFilter : IsFilter any_device
any_device-IsFilter = ground arith

device_on-IsName : IsName device_on
device_on-IsName = ground arith

is_topic_matched-matches_example :
    is_topic_matched (some (filter_text any_device)) (some (name_text device_on))
    ≡ matches any_device device_on
is_topic_matched-matches_example =
    is_topic_matched-matches any_device device_on any_device-IsFilter device_on-IsName

-- `#` does not match the level above it, nor does `+` match an empty level.
parent_of_hash : is_topic_matched (some (codes "a/#")) (some (codes "a")) ≡ false
unfolding is_topic_matched match_loop
parent_of_hash = refl

empty_level_of_plus : is_topic_matched (some (codes "a/+/b")) (some (codes "a//b")) ≡ false
unfolding is_topic_matched match_loop
empty_level_of_plus = refl
