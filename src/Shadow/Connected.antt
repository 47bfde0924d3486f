-- ===== src/Shadow/Connected.antt =====
-- The client that arduino-esp32/AWS_IOT/src/aws_iot_shadow_records.c calls for its subscriptions,
-- with the address of AckStatusCallback.
use hornbill_examples.Common.{ℕ, zero, suc, ◌%◌, ◌^◌, if◌then◌else◌, some, length}
use hornbill_examples.Wire.Header.{qos0}
use hornbill_examples.Transport.{Network, Io, poll}
use hornbill_examples.Exec.{Running}
use hornbill_examples.Session.{System, timer_sec}
use hornbill_examples.Session.Subscribe.{subscribe}
use hornbill_examples.Session.Unsubscribe.{unsubscribe}
use hornbill_examples.Shadow.{Subscriber}

-- SUBSCRIBE_SETTLING_TIME
abbrev pub subscribe_settling_time : ℕ
subscribe_settling_time = 2

-- `while(!has_timer_expired(&subSettlingtimer));`, for a number of rounds at most.
unfoldable pub settle_loop {ℓ} : {W : Type ℓ} → Network W → ℕ → Io W → W
settle_loop net zero io = io.world
settle_loop net (suc rounds) io =
    let (b, io') = poll net io in
    let rest = settle_loop net rounds io' in if b then io'.world else rest

unfoldable pub shadow_client {ℓ} : {W : Type ℓ} → System W → ℕ → Subscriber (Running W)
shadow_client sys ack_status_callback = record {
  subscribe_topic = λ topic s.
      subscribe sys (some topic) (length topic % 2 ^ 16) qos0 (some ack_status_callback) 0 s;
  unsubscribe_topic = λ topic s. unsubscribe sys (some topic) (length topic % 2 ^ 16) s;
  settle = λ s. record s {
    world =
        settle_loop sys.network sys.rounds
          (record { timer = timer_sec sys subscribe_settling_time s; world = s.world });
  };
}
