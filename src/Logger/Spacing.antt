-- ===== src/Logger/Spacing.antt =====
-- What the logger publishes, and when.
use hornbill_examples.Common.{ℕ, ◌+◌, ◌≤◌, ◌<◌, true, List, [], ◌∷◌, All, some, codes, length, ◌≡◌}
use hornbill_examples.Wire.Header.{qos0}
use hornbill_examples.Sensors.Thermocouple.{max6675_read_celsius}
use hornbill_examples.Sensors.Current.{Meter, current_sensor_calc_irms}
use hornbill_examples.Session.Publish.{Outgoing}
use hornbill_examples.Logger.{Board, Logging}

-- A call of aws_iot_mqtt_publish, with the time of the call.
pub record Publish : Type 0 where
  pub at : ℕ
  pub topic : List ℕ
  pub topic_len : ℕ
  pub outgoing : Outgoing

-- The later state has the same calls behind it, and its time is not before the earlier one's.
abbrev pub Follows {ℓ} : {S : Type ℓ} → (S → ℕ) → (S → List Publish) → S → S → Type 0
Follows now calls before after = (calls after ≡ calls before) × (now before ≤ now after)

-- A report: QoS 0, not retained, on the topic of the shadow.
abbrev pub shadow_topic : List ℕ
shadow_topic = codes "$aws/things/c0ee87d2bd955a0cf217bbc263/shadow/update"

abbrev pub report_of : List ℕ → Outgoing
report_of payload = record {
  qos = qos0;
  is_retained = 0;
  id = 0;
  payload = some payload;
  payload_len = length payload;
}

-- The text for the temperature and for 230 times the current over 2000 samples, read in this order.
abbrev pub reading {ℓ} :
    {S : Type ℓ} {T D : Type 0} → Board S T D → Meter D → S → List ℕ × (Meter D × S)
reading board m s =
    let (temperature, s1) = max6675_read_celsius board.gpio board.pins s in
    let (m', s2) = current_sensor_calc_irms board.double board.converter 2000 m s1 in
    (board.report temperature (board.double.mul m'.irms (board.double.of_int 230)), (m', s2))

-- A clock in milliseconds, the calls of publish so far, the last one first, and the time at which a
-- timer ends: a timer that is set ends after its time, and has expired only from then on.
pub record IsTimed {ℓ} {S : Type ℓ} {T D : Type 0} (board : Board S T D) (now : S → ℕ)
    (calls : S → List Publish) (ends_at : T → ℕ) : Type ℓ where
  pub publishes :
      (topic : List ℕ) (len : ℕ) (m : Outgoing) (s : S)
      → (calls (board.client.publish topic len m s).1
          ≡ record { at = now s; topic = topic; topic_len = len; outgoing = m } ∷ calls s)
        × (now s ≤ now (board.client.publish topic len m s).1)
  pub yields : (ms : ℕ) (s : S) → Follows now calls s (board.client.yield_for ms s).1
  pub senses : (m : Meter D) (s : S) → Follows now calls s (reading board m s).1.1
  pub delays : (ticks : ℕ) (s : S) → Follows now calls s (board.task_delay ticks s)
  pub sets : (ms : ℕ) (s : S) → ends_at (board.client.countdown_ms ms s) ≡ now s + ms
  pub expires : (t : T) (s : S) → board.client.has_timer_expired t s ≡ true → ends_at t ≤ now s

-- Each call is 150 ms or more after the one before.
abbrev pub Spaced : List Publish → Type 0
Spaced [] = Unit {0}
Spaced (p ∷ []) = Unit {0}
Spaced (p ∷ q ∷ ps) = (q.at + 150 ≤ p.at) × Spaced (q ∷ ps)

-- A message on the topic of the shadow with QoS 0 that is not retained, whose text fits cPayload.
abbrev pub IsReport : Publish → Type 0
IsReport p =
    (payload : List ℕ) × (p.topic ≡ shadow_topic)
    × (p.topic_len ≡ length shadow_topic)
    × (p.outgoing ≡ report_of payload)
    × (length payload < 150)

-- The last call is 150 ms or more before a time.
abbrev pub Before : ℕ → List Publish → Type 0
Before t [] = Unit {0}
Before t (p ∷ ps) = p.at + 150 ≤ t

abbrev pub AllFine : List Publish → Type 0
AllFine ps = Spaced ps × All IsReport ps

module _ {ℓ} {S : Type ℓ} {T D : Type 0} (board : Board S T D) (now : S → ℕ)
    (calls : S → List Publish) (ends_at : T → ℕ) where
  -- One more call, with the text of what the sensors give, and the timer set to 150 ms behind it.
  abbrev pub Sends : Logging S T D → Logging S T D → Type 0
  Sends l after =
      let (payload, (m, s)) = reading board l.meter l.system in
      (calls after.system
        ≡ record {
          at = now s;
          topic = shadow_topic;
          topic_len = length shadow_topic;
          outgoing = report_of payload;
        }
          ∷ calls l.system)
      × (ends_at after.sendit ≡ now after.system + 150)

module _ {ℓ} {S : Type ℓ} {T D : Type 0} (board : Board S T D) (now : S → ℕ)
    (calls : S → List Publish) (ends_at : T → ℕ) (timed : IsTimed board now calls ends_at) where
  -- What the loop keeps.
  abbrev Holds : Logging S T D → Type 0
  Holds l = AllFine (calls l.system) × Before (ends_at l.sendit) (calls l.system)
