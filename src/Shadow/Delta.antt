-- ===== src/Shadow/Delta.antt =====
-- The tokens that the application registers for the changes of a shadow, and shadow_delta_callback:
-- arduino-esp32/AWS_IOT/src/aws_iot_shadow_records.c. A callback of the application is taken not to
-- call the shadow client.
pub mod Versions
use hornbill_examples.Common.{
  ℕ, ◌-◌, ltb, leb, if◌then◌else◌, not, Bool, true, false, List, [], ◌∷◌, ◌++◌, Option, none, some,
  length, take, drop, codes,
}
use hornbill_examples.Errors.{Result, ok, err, fault, failure}
use hornbill_examples.Shadow.{max_shadow_topic_length_bytes}
use hornbill_examples.Shadow.Acks.{Documents, shadow_max_size_of_rx_buffer, Waiting}

-- JsonTokenTable_t; the struct and its callback are addresses. Its key is not read.
pub record TokenEntry : Type 0 where
  pub struct_address : ℕ
  pub callback : Option ℕ
  pub is_free : Bool

-- What the tokens use: aws_iot_mqtt_subscribe with shadow_delta_callback, the position and the length
-- of the value for the key of a struct, which isJsonKeyMatchingAndUpdateValue stores there too, and a
-- callback with the text from the value on, its length and the struct.
pub record DeltaClient {ℓ} (C : Type ℓ) : Type ℓ where
  pub subscribe_delta : List ℕ → C → Result (Unit {0}) × C
  pub update_value : List ℕ → ℕ → C → Option (ℕ × ℕ) × C
  pub call_back : ℕ → List ℕ → ℕ → ℕ → C → C

-- The table has the entries below tokenTableIndex.
pub record Deltas {ℓ} (C : Type ℓ) : Type ℓ where
  pub waiting : Waiting C
  pub token_table : List TokenEntry
  pub is_topic_subscribed : Bool
  pub is_old_discarded : Bool

abbrev pub max_json_token_expected : ℕ
max_json_token_expected = 120

abbrev pub delta_topic : List ℕ → List ℕ
delta_topic thing_name =
    take (max_shadow_topic_length_bytes - 1)
      (codes "$aws/things/" ++ (thing_name ++ codes "/shadow/update/delta"))

-- initDeltaTokens
unfoldable pub init_delta_tokens {ℓ} : {C : Type ℓ} → Deltas C → Deltas C
init_delta_tokens s = record s { token_table = []; is_topic_subscribed = false }

module _ {ℓ} {C : Type ℓ} (client : DeltaClient C) where
  abbrev pub with_client : Deltas C → C → Deltas C
  with_client s c = record s { waiting = record s.waiting { client = c } }

  abbrev pub subscribed : Deltas C → Result (Unit {0}) × C → Result (Unit {0}) × Deltas C
  subscribed s (rc, c) = (rc, record (with_client s c) { is_topic_subscribed = true })

  abbrev pub subscribe_once : List ℕ → Deltas C → Result (Unit {0}) × Deltas C
  subscribe_once thing_name s =
      if s.is_topic_subscribed
      then (ok tt, s)
      else subscribed s (client.subscribe_delta (delta_topic thing_name) s.waiting.client)

  abbrev pub add_token : ℕ → Option ℕ → Result (Unit {0}) × Deltas C → Result (Unit {0}) × Deltas C
  add_token struct_address callback (rc, s) =
      if leb max_json_token_expected (length s.token_table) then (err failure, s) else (
        rc,
        record s {
          token_table =
              s.token_table
              ++ (record { struct_address = struct_address; callback = callback; is_free = false }
                  ∷ []);
        },
      )

  -- registerJsonTokenOnDelta, with myThingName.
  unfoldable pub register_json_token_on_delta :
      List ℕ → ℕ → Option ℕ → Deltas C → Result (Unit {0}) × Deltas C
  register_json_token_on_delta thing_name struct_address callback s =
      add_token struct_address callback (subscribe_once thing_name s)

  abbrev pub told : List ℕ → TokenEntry → Option ℕ → Option (ℕ × ℕ) × C → C
  told received entry callback (none, c) = c
  told received entry none (some found, c) = c
  told received entry (some f) (some (position, len), c) =
      client.call_back f (drop position received) len entry.struct_address c

  -- The loop of shadow_delta_callback.
  unfoldable pub delta_loop : List ℕ → List TokenEntry → C → C
  delta_loop received [] c = c
  delta_loop received (entry ∷ entries) c = delta_loop received entries (
      if not entry.is_free
      then told received entry entry.callback (client.update_value received entry.struct_address c)
      else c)

  abbrev pub all_told : Deltas C → Deltas C
  all_told s = with_client s (delta_loop s.waiting.rx_buf s.token_table s.waiting.client)

  abbrev pub told_if_newer : Option ℕ → Deltas C → Deltas C
  told_if_newer none s = all_told s
  told_if_newer (some n) s =
      if ltb s.waiting.json_version_num n
      then all_told (record s { waiting = record s.waiting { json_version_num = n } })
      else s

  -- shadow_delta_callback after the payload is in shadowRxBuf.
  abbrev pub delta_received : Documents → Deltas C → Deltas C
  delta_received docs s =
      if not (docs.is_json_valid s.waiting.rx_buf)
      then s
      else (if s.is_old_discarded
          then told_if_newer (docs.version_number s.waiting.rx_buf) s
          else all_told s)

  -- shadow_delta_callback. The NUL behind a payload as long as shadowRxBuf is written behind it.
  unfoldable pub shadow_delta_callback : Documents → List ℕ → Deltas C → Result (Deltas C)
  shadow_delta_callback docs payload s =
      if ltb shadow_max_size_of_rx_buffer (length payload)
      then ok s
      else (if ltb (length payload) shadow_max_size_of_rx_buffer
          then ok
              (delta_received docs (record s { waiting = record s.waiting { rx_buf = payload } }))
          else fault)
