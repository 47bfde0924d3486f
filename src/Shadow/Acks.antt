-- ===== src/Shadow/Acks.antt =====
-- The list of the acknowledgements that the shadow client waits for, AckWaitList of
-- arduino-esp32/AWS_IOT/src/aws_iot_shadow_records.c, and aws_iot_shadow_internal_action of
-- arduino-esp32/AWS_IOT/src/aws_iot_shadow_actions.c. A callback of the application is taken not to
-- call the shadow client.
pub mod Expiry
pub mod Answers
use hornbill_examples.Common.{
  ℕ, zero, suc, ◌+◌, ◌%◌, ◌^◌, ◌==◌, ◌||◌, ◌&&◌, ltb, if◌then◌else◌, not, Bool, true, false, List,
  [], ◌∷◌, ◌++◌, Option, none, some, length, take, map, codes, same,
}
use hornbill_examples.Errors.{Result, ok, err, fault, failure, null_value_error}
use hornbill_examples.Timer.{Timer, has_timer_expired, countdown_sec}
use hornbill_examples.Shadow.{
  ShadowAction, shadow_action, SubscriptionRecord, Subscriber, topic_name_from_thing_and_action,
  is_subscription_present, increment_subscription_cnt, subscribe_to_shadow_action_acks,
  unsubscribe_from_accepted_and_rejected, next_index, initialize_subscriptions,
}

pub data ShadowAckStatus : Type 0 where
  shadow_ack_timeout shadow_ack_rejected shadow_ack_accepted : ShadowAckStatus

-- ToBeReceivedAckRecord_t; the callback is its address.
pub record AckRecord : Type 0 where
  pub client_token_id : List ℕ
  pub thing_name : List ℕ
  pub action : ShadowAction
  pub callback : Option ℕ
  pub callback_context : ℕ
  pub is_free : Bool
  pub timer : Timer

-- One call of a callback, with the text in shadowRxBuf.
pub record Answer : Type 0 where
  pub callback : ℕ
  pub thing_name : List ℕ
  pub action : ShadowAction
  pub status : ShadowAckStatus
  pub received : List ℕ
  pub callback_context : ℕ

-- What the list uses: the client with its subscriptions, aws_iot_mqtt_publish with QoS 0, the
-- callbacks of the application, and the clock.
pub record ShadowClient {ℓ} (C : Type ℓ) : Type ℓ where
  pub subscriber : Subscriber C
  pub publish_text : List ℕ → List ℕ → C → Result (Unit {0}) × C
  pub call_back : Answer → C → C
  pub tick_count : C → ℕ
  pub delay : C → C
  pub tick_ms : ℕ

-- What is read of a document: isJsonValidAndParse, extractVersionNumber and extractClientToken of
-- aws_iot_shadow_json.c.
pub record Documents : Type 0 where
  pub is_json_valid : List ℕ → Bool
  pub version_number : List ℕ → Option ℕ
  pub client_token : List ℕ → Option (List ℕ)

abbrev pub shadow_max_size_of_rx_buffer : ℕ
shadow_max_size_of_rx_buffer = 513

-- The lists of the file, shadowRxBuf, shadowJsonVersionNum, and the client.
pub record Waiting {ℓ} (C : Type ℓ) : Type ℓ where
  pub ack_wait_list : List AckRecord
  pub subscription_list : List SubscriptionRecord
  pub rx_buf : List ℕ
  pub json_version_num : ℕ
  pub client : C

abbrev pub freed : AckRecord → AckRecord
freed r = record r { is_free = true }

-- strstr(text, part) != NULL
unfoldable pub contains : List ℕ → List ℕ → Bool
contains part [] = same part []
contains part (a ∷ text) = same (take (length part) (a ∷ text)) part || contains part text

-- getNextFreeIndexOfAckWaitList
unfoldable pub get_next_free_index_of_ack_wait_list : List AckRecord → Option ℕ
get_next_free_index_of_ack_wait_list [] = none
get_next_free_index_of_ack_wait_list (r ∷ records) =
    let rest = get_next_free_index_of_ack_wait_list records in
    if r.is_free then some 0 else next_index rest

-- isAckForMyThingName
unfoldable pub is_ack_for_my_thing_name : List ℕ → List ℕ → Bool
is_ack_for_my_thing_name my_thing_name topic_name =
    contains my_thing_name topic_name
    && (contains (codes "get/accepted") topic_name
        || (contains (codes "update/accepted") topic_name || contains (codes "delta") topic_name))

-- The status that a topic stands for.
unfoldable pub ack_status : List ℕ → Option ShadowAckStatus
ack_status topic_name =
    if contains (codes "accepted") topic_name
    then some shadow_ack_accepted
    else (if contains (codes "rejected") topic_name then some shadow_ack_rejected else none)

-- `if(tempVersionNumber > shadowJsonVersionNum) shadowJsonVersionNum = tempVersionNumber;`
abbrev pub newer_version : Option ℕ → ℕ → ℕ
newer_version none old = old
newer_version (some n) old = if ltb old n then n else old

abbrev pub max_size_client_id_with_sequence : ℕ
max_size_client_id_with_sequence = 90

abbrev pub max_size_of_thing_name : ℕ
max_size_of_thing_name = 20

-- An assignment to the entry at an index.
abbrev pub set_ack : ℕ → AckRecord → List AckRecord → List AckRecord
set_ack i v [] = []
set_ack zero v (r ∷ records) = v ∷ records
set_ack (suc i) v (r ∷ records) = r ∷ set_ack i v records

module _ {ℓ} {C : Type ℓ} (shadow : ShadowClient C) where
  -- `if(AckWaitList[i].callback != NULL) AckWaitList[i].callback(…);`
  abbrev pub called : Option ℕ → AckRecord → ShadowAckStatus → List ℕ → C → C
  called none r status received c = c
  called (some f) r status received c =
      shadow.call_back
        (record {
          callback = f;
          thing_name = r.thing_name;
          action = r.action;
          status = status;
          received = received;
          callback_context = r.callback_context;
        })
        c

  -- The callback, and unsubscribeFromAcceptedAndRejected.
  abbrev pub answered :
      AckRecord
      → ShadowAckStatus
      → List ℕ
      → List SubscriptionRecord
      → C
      → List SubscriptionRecord × C
  answered r status received records c =
      unsubscribe_from_accepted_and_rejected shadow.subscriber r.thing_name r.action records
        (called r.callback r status received c)

  abbrev pub Looped : Type ℓ
  Looped = List AckRecord × (List SubscriptionRecord × C)

  abbrev pub behind : AckRecord → Looped → Looped
  behind r (rs, rest) = (r ∷ rs, rest)

  -- The timer of an entry is asked, which may sleep.
  abbrev pub asked : AckRecord → C → Bool × (AckRecord × C)
  asked r c =
      let p = has_timer_expired (shadow.tick_count c) r.timer in
      (p.expired, (record r { timer = p.timer }, if p.delayed then shadow.delay c else c))

  -- The loop of HandleExpiredResponseCallbacks.
  unfoldable pub expire_loop : List ℕ → List AckRecord → List SubscriptionRecord → C → Looped
  expire_loop received [] records c = ([], (records, c))
  expire_loop received (r ∷ rs) records c =
      let kept = behind r (expire_loop received rs records c) in
      let (expired, (r', c1)) = asked r c in
      let still = behind r' (expire_loop received rs records c1) in
      let (records2, c2) = answered r' shadow_ack_timeout received records c1 in
      let gone = behind (freed r') (expire_loop received rs records2 c2) in
      if r.is_free then kept else (if expired then gone else still)

  abbrev pub looped : Waiting C → Looped → Waiting C
  looped s (acks, (records, c)) = record s {
    ack_wait_list = acks;
    subscription_list = records;
    client = c;
  }

  unfoldable pub handle_expired_response_callbacks : Waiting C → Waiting C
  handle_expired_response_callbacks s =
      looped s (expire_loop s.rx_buf s.ack_wait_list s.subscription_list s.client)

  -- Whether an entry waits for the token, `strcmp(…) == 0`.
  abbrev pub waits_for : List ℕ → AckRecord → Bool
  waits_for token r = not r.is_free && same r.client_token_id token

  -- The loop of AckStatusCallback, for a topic that stands for a status. For any other every entry is
  -- passed over.
  unfoldable pub answer_loop :
      ShadowAckStatus → List ℕ → List ℕ → List AckRecord → List SubscriptionRecord → C → Looped
  answer_loop status token received [] records c = ([], (records, c))
  answer_loop status token received (r ∷ rs) records c =
      let rest = behind r (answer_loop status token received rs records c) in
      if waits_for token r then (freed r ∷ rs, answered r status received records c) else rest

  abbrev pub answer_with : Option (List ℕ) → Option ShadowAckStatus → Waiting C → Waiting C
  answer_with none status s = s
  answer_with (some token) none s = s
  answer_with (some token) (some status) s =
      looped s (answer_loop status token s.rx_buf s.ack_wait_list s.subscription_list s.client)

  -- AckStatusCallback after the payload is in shadowRxBuf.
  abbrev pub document_received : Documents → List ℕ → List ℕ → Waiting C → Waiting C
  document_received docs my_thing_name topic_name s =
      if not (docs.is_json_valid s.rx_buf)
      then s
      else answer_with (docs.client_token s.rx_buf) (ack_status topic_name) (record s {
        json_version_num =
            if is_ack_for_my_thing_name my_thing_name topic_name
            then newer_version (docs.version_number s.rx_buf) s.json_version_num
            else s.json_version_num;
      })

  -- AckStatusCallback. The NUL behind a payload as long as shadowRxBuf is written behind the buffer.
  -- The topic is what stands from its pointer on, up to a NUL.
  unfoldable pub ack_status_callback :
      Documents → List ℕ → List ℕ → List ℕ → Waiting C → Result (Waiting C)
  ack_status_callback docs my_thing_name topic_name payload s =
      if ltb shadow_max_size_of_rx_buffer (length payload)
      then ok s
      else (if ltb (length payload) shadow_max_size_of_rx_buffer
          then ok (document_received docs my_thing_name topic_name (record s { rx_buf = payload }))
          else fault)

  -- addToAckWaitList. strncpy leaves a text that fills its field without a NUL, and then the field is
  -- read beyond its end when the entry is answered.
  unfoldable pub add_to_ack_wait_list :
      ℕ
      → List ℕ
      → ShadowAction
      → List ℕ
      → Option ℕ
      → ℕ
      → ℕ
      → Waiting C
      → Result (Unit {0}) × Waiting C
  add_to_ack_wait_list i thing_name action token callback context timeout_seconds s =
      let r : AckRecord = record {
        client_token_id = token;
        thing_name = thing_name;
        action = action;
        callback = callback;
        callback_context = context;
        is_free = false;
        timer = (countdown_sec shadow.tick_ms (shadow.tick_count s.client) timeout_seconds).0;
      } in
      if ltb (length token) max_size_client_id_with_sequence
        && ltb (length thing_name) max_size_of_thing_name
      then (ok tt, record s { ack_wait_list = set_ack i r s.ack_wait_list })
      else (fault, s)

  abbrev pub with_client : Waiting C → Result (Unit {0}) × C → Result (Unit {0}) × Waiting C
  with_client s (rc, c) = (rc, record s { client = c })

  -- publishToShadowAction
  unfoldable pub publish_to_shadow_action :
      List ℕ → ShadowAction → List ℕ → Waiting C → Result (Unit {0}) × Waiting C
  publish_to_shadow_action thing_name action document s = with_client s (
      shadow.publish_text (topic_name_from_thing_and_action thing_name action shadow_action)
        document s.client)

  abbrev pub with_subscribed :
      Waiting C → Result (Unit {0}) × (List SubscriptionRecord × C) → Result (Unit {0}) × Waiting C
  with_subscribed s (rc, (records, c)) = (rc, record s { subscription_list = records; client = c })

  -- The subscriptions of an action whose acknowledgement is waited for.
  unfoldable pub hold_subscription :
      List ℕ → ShadowAction → Bool → Waiting C → Result (Unit {0}) × Waiting C
  hold_subscription thing_name action is_sticky s =
      if is_subscription_present thing_name action s.subscription_list
      then (
        ok tt,
        record s {
          subscription_list =
              increment_subscription_cnt thing_name action is_sticky s.subscription_list;
        },
      )
      else with_subscribed s (
          subscribe_to_shadow_action_acks shadow.subscriber thing_name action is_sticky
            s.subscription_list s.client)

  abbrev pub after_ok :
      (Waiting C → Result (Unit {0}) × Waiting C)
      → Result (Unit {0}) × Waiting C
      → Result (Unit {0}) × Waiting C
  after_ok f (ok _, s) = f s
  after_ok f (err e, s) = (err e, s)
  after_ok f (fault, s) = (fault, s)

  -- An action whose acknowledgement is waited for, with the free index.
  abbrev pub awaited_action :
      List ℕ
      → ShadowAction
      → List ℕ
      → List ℕ
      → ℕ
      → ℕ
      → ℕ
      → Bool
      → Option ℕ
      → Waiting C
      → Result (Unit {0}) × Waiting C
  awaited_action thing_name action document token f context timeout is_sticky none s =
      (err failure, s)
  awaited_action thing_name action document token f context timeout is_sticky (some i) s =
      after_ok (add_to_ack_wait_list i thing_name action token (some f) context timeout) (
        after_ok (publish_to_shadow_action thing_name action document)
          (hold_subscription thing_name action is_sticky s))

  abbrev pub action_with :
      List ℕ
      → ShadowAction
      → List ℕ
      → Option (List ℕ)
      → Option ℕ
      → ℕ
      → ℕ
      → Bool
      → Waiting C
      → Result (Unit {0}) × Waiting C
  action_with thing_name action document (some token) (some f) context timeout is_sticky s =
      awaited_action thing_name action document token f context timeout is_sticky
        (get_next_free_index_of_ack_wait_list s.ack_wait_list) s
  action_with thing_name action document none f context timeout is_sticky s =
      publish_to_shadow_action thing_name action document s
  action_with thing_name action document (some token) none context timeout is_sticky s =
      publish_to_shadow_action thing_name action document s

  -- aws_iot_shadow_internal_action, whose name and document may be NULL.
  unfoldable pub internal_action :
      Documents
      → Option (List ℕ)
      → ShadowAction
      → Option (List ℕ)
      → Option ℕ
      → ℕ
      → ℕ
      → Bool
      → Waiting C
      → Result (Unit {0}) × Waiting C
  internal_action docs none action document callback context timeout is_sticky s =
      (err null_value_error, s)
  internal_action docs (some thing_name) action none callback context timeout is_sticky s =
      (err null_value_error, s)
  internal_action docs (some thing_name) action (some document) callback context timeout is_sticky
        s =
      action_with thing_name action document (docs.client_token document) callback context timeout
        is_sticky s

-- initializeRecords
unfoldable pub initialize_records {ℓ} : {C : Type ℓ} → C → Waiting C → Waiting C
initialize_records c s = record s {
  ack_wait_list = map freed s.ack_wait_list;
  subscription_list = initialize_subscriptions s.subscription_list;
  client = c;
}
