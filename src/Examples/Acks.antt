-- ===== src/Examples/Acks.antt =====
-- The acknowledgements of the shadow client at concrete lists.
use hornbill_examples.Common.{
  ℕ, ◌≡◌, refl, arith, true, false, List, [], ◌∷◌, ◌++◌, none, some, map, codes,
}
use hornbill_examples.Errors.{ok, err, ◌>>=◌, mqtt_request_timeout_error}
use hornbill_examples.Shadow.Delta.{
  DeltaClient, Deltas, register_json_token_on_delta, shadow_delta_callback,
}
use hornbill_examples.Shadow.Delta.Versions.{
  register_all, shadow_delta_callback-once, register_json_token_on_delta-unsubscribed,
}
use hornbill_examples.Timer.{Timer}
use hornbill_examples.Shadow.{shadow_get, shadow_update}
use hornbill_examples.Shadow.Acks.{
  AckRecord, Answer, ShadowClient, Documents, Waiting, shadow_ack_accepted, contains, ack_status,
  ack_status_callback, handle_expired_response_callbacks, internal_action, initialize_records,
}
use hornbill_examples.Shadow.Acks.Expiry.{
  IsLogged, expired_entry, timeout_answers, handle_expired_response_callbacks_lem,
}
use hornbill_examples.Shadow.Acks.Answers.{
  Answered, Waits, ack_status_callback-Answered, internal_action-Waits,
}

-- A client that logs the calls of the callbacks, at tick 50.
abbrev log_client : ShadowClient (List Answer)
log_client = record {
  subscriber = record {
    subscribe_topic = λ topic log. (ok tt, log);
    unsubscribe_topic = λ topic log. (ok tt, log);
    settle = λ log. log;
  };
  publish_text = λ topic text log. (ok tt, log);
  call_back = λ answer log. log ++ (answer ∷ []);
  tick_count = λ log. 50;
  delay = λ log. log;
  tick_ms = 10;
}

abbrev whole_log : List Answer → List Answer
whole_log log = log

log_client-IsLogged : IsLogged log_client whole_log 50
log_client-IsLogged = record {
  clock = λ c. refl;
  calls = λ a c. refl;
  unsubscribes = λ topic c. refl;
  sleeps = λ c. refl;
}

abbrev ticks : ℕ → Timer
ticks n = record { start_ticks = 0; timeout_ticks = n; last_polled_ticks = 0 }

abbrev waiting_for : List ℕ → ℕ → AckRecord
waiting_for token n = record {
  client_token_id = token;
  thing_name = codes "lamp";
  action = shadow_update;
  callback = some 7;
  callback_context = 0;
  is_free = false;
  timer = ticks n;
}

-- The time of the first entry is over, that of the second is not, and the third is free.
abbrev waiting : Waiting (List Answer)
waiting = record {
  ack_wait_list =
      waiting_for (codes "one") 20
      ∷ waiting_for (codes "two") 100
      ∷ record (waiting_for (codes "old") 20) { is_free = true }
      ∷ [];
  subscription_list = [];
  rx_buf = codes "none";
  json_version_num = 3;
  client = [];
}

handle_expired_response_callbacks_lem_example :
    let after = handle_expired_response_callbacks log_client waiting in
    (after.ack_wait_list ≡ map (expired_entry 50) waiting.ack_wait_list)
    × (whole_log after.client ≡ [] ++ timeout_answers 50 (codes "none") waiting.ack_wait_list)
handle_expired_response_callbacks_lem_example =
    handle_expired_response_callbacks_lem log_client whole_log 50 log_client-IsLogged waiting

-- Every text is valid and has the token `two`.
abbrev two_documents : Documents
two_documents = record {
  is_json_valid = λ text. true;
  version_number = λ text. some 4;
  client_token = λ text. some (codes "two");
}

accepted_topic : ack_status (codes "lamp/shadow/update/accepted") ≡ some shadow_ack_accepted
unfolding ack_status contains
accepted_topic = refl

ack_status_callback-Answered_example :
    (s' : Waiting (List Answer)) × (ack_status_callback log_client two_documents
        (codes "lamp")
        (codes "lamp/shadow/update/accepted")
        (codes "on")
        waiting
      ≡ ok s')
    × Answered log_client shadow_ack_accepted
        (codes "two")
        (codes "on")
        waiting.ack_wait_list
        []
        []
        (s'.ack_wait_list, (s'.subscription_list, s'.client))
ack_status_callback-Answered_example =
    ack_status_callback-Answered log_client two_documents (codes "lamp")
      (codes "lamp/shadow/update/accepted") (codes "on") (codes "two") shadow_ack_accepted waiting
      (omega arith) refl refl accepted_topic

internal_action-Waits_example :
    Waits log_client (codes "lamp") shadow_get (codes "two") 7 0 5 waiting (
      internal_action log_client two_documents
        (some (codes "lamp"))
        shadow_get
        (some (codes "on"))
        (some 7)
        0
        5
        false
        waiting)
internal_action-Waits_example =
    internal_action-Waits log_client two_documents (codes "lamp") shadow_get (codes "on")
      (codes "two") 7 0 5 false waiting refl

-- A client whose subscribe fails, and whose structs have a value behind the first byte.
abbrev failing : DeltaClient (List Answer)
failing = record {
  subscribe_delta = λ topic log. (err mqtt_request_timeout_error, log);
  update_value = λ received address log. (some (1, 2), log);
  call_back = λ f text len address log.
      log
      ++ (record {
        callback = f;
        thing_name = [];
        action = shadow_get;
        status = shadow_ack_accepted;
        received = text;
        callback_context = len;
      }
          ∷ []);
}

abbrev deltas : Deltas (List Answer)
deltas = record {
  waiting = waiting;
  token_table = record { struct_address = 5; callback = some 9; is_free = false } ∷ [];
  is_topic_subscribed = false;
  is_old_discarded = true;
}

abbrev fourth : Documents
fourth = record {
  is_json_valid = λ text. true;
  version_number = λ text. some 4;
  client_token = λ text. none;
}

shadow_delta_callback-once_example :
    (shadow_delta_callback failing fourth (codes "{}") deltas
      >>= shadow_delta_callback failing fourth (codes "{}"))
    ≡ shadow_delta_callback failing fourth (codes "{}") deltas
shadow_delta_callback-once_example =
    shadow_delta_callback-once failing fourth (codes "{}") 4 deltas refl refl

register_json_token_on_delta-unsubscribed_example :
    ((register_json_token_on_delta failing (codes "lamp") 6 none deltas).0
      ≡ err mqtt_request_timeout_error)
    × ((register_all failing (codes "lamp") ((6, none) ∷ (7, some 9) ∷ []) deltas).waiting.client
        ≡ [])
register_json_token_on_delta-unsubscribed_example =
    register_json_token_on_delta-unsubscribed failing (codes "lamp") 6 none
      mqtt_request_timeout_error [] ((7, some 9) ∷ []) deltas refl (omega arith) refl

-- A new connection frees every entry.
initialize_records_test :
    map (λ r. r.is_free) (initialize_records [] waiting).ack_wait_list ≡ true ∷ true ∷ true ∷ []
unfolding initialize_records
initialize_records_test = refl
