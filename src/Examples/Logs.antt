-- ===== src/Examples/Logs.antt =====
-- The data logger on a bench: a clock and the calls of publish.
use hornbill_examples.Common.{ℕ, ◌+◌, ◌-◌, ◌*◌, ◌/◌, leb, true, List, [], ◌∷◌, codes}
use hornbill_examples.Errors.{ok, err, mqtt_request_timeout_error}
use hornbill_examples.Sensors.Thermocouple.{Gpio}
use hornbill_examples.Sensors.Current.{Double, Converter}
use hornbill_examples.Logger.{MqttClient, Board, Logging}
use hornbill_examples.Logger.Spacing.{Publish}

abbrev Bench : Type 0
Bench = ℕ × List Publish

-- A yield takes its time, a publish five milliseconds, and it never hears of an answer.
abbrev bench_client : MqttClient Bench ℕ
bench_client = record {
  init = λ p s. (ok tt, s);
  connect = λ p s. (ok tt, s);
  autoreconnect_set_status = λ b s. (ok tt, s);
  is_autoreconnect_enabled = λ s. true;
  attempt_reconnect = λ s. (ok tt, s);
  yield_for = λ ms s. (ok tt, (s.0 + ms, s.1));
  publish = λ topic len m s. (
    err mqtt_request_timeout_error,
    (s.0 + 5, record { at = s.0; topic = topic; topic_len = len; outgoing = m } ∷ s.1),
  );
  countdown_ms = λ ms s. s.0 + ms;
  has_timer_expired = λ t s. leb t s.0;
}

abbrev still_line : Gpio Bench
still_line = record {
  select = λ pin w. w;
  set_direction = λ pin output w. w;
  set_level = λ pin level w. w;
  get_level = λ pin w. 0;
  delay_us = λ us w. w;
}

abbrev whole : Double ℕ
whole = record {
  of_int = λ n. n;
  add = λ a b. a + b;
  sub = λ a b. a - b;
  mul = λ a b. a * b;
  div = λ a b. a / b;
  sqrt = λ a. a;
}

abbrev waves : Converter Bench
waves = record { configure = λ pin w. w; get_voltage = λ pin w. (2100, w) }

abbrev logger : Board Bench ℕ ℕ
logger = record {
  client = bench_client;
  gpio = still_line;
  pins = record { sclk_pin = 12; cs_pin = 14; miso_pin = 27 };
  double = whole;
  converter = waves;
  task_delay = λ n s. (s.0 + n, s.1);
  tick_ms = 10;
  wifi_connect = λ s. s;
  mqtt_host = codes "host";
  mqtt_port = 8883;
  mqtt_client_id = codes "thing";
  disconnect_callback_handler = 1;
  report = λ t p. codes "report";
}

abbrev logging : Logging Bench ℕ ℕ
logging = record {
  system = (100, []);
  sendit = 1600;
  meter = record {
    in_pin_i = 0;
    ical = 111;
    sample_i = 0;
    offset_i = 2048;
    filtered_i = 0;
    sq_i = 0;
    sum_i = 0;
    irms = 0;
  };
  rc = ok tt;
  reconnect_attempts = 0;
  reconnected_count = 0;
}

abbrev time : Bench → ℕ
time s = s.0

abbrev log : Bench → List Publish
log s = s.1

abbrev ends_at : ℕ → ℕ
ends_at t = t

-- The timer has expired after the yield.
abbrev due : Logging Bench ℕ ℕ
due = record logging { system = (1000, []) }
