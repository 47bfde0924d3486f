-- ===== src/Session/Steady/Operations.antt =====
-- What publish, subscribe, unsubscribe and resubscribe do between their changes of state leaves the
-- state of the client as it is.
use hornbill_examples.Common.{ℕ, zero, suc, List, Option, none, some, ◌≡◌, refl}
use hornbill_examples.Wire.Header.{QoS, qos0, qos1}
use hornbill_examples.Client.{Client, ClientState, MessageHandler}
use hornbill_examples.Client.Handlers.{store_handler}
use hornbill_examples.Exec.Keeps.{Keeps, keeps_rules}
use hornbill_examples.Session.{System}
use hornbill_examples.Session.Publish.{Outgoing, message_packet_id, await_ack, internal_publish}
use hornbill_examples.Session.Subscribe.{
  exchange_subscribe, internal_subscribe, resubscribe_entry, resubscribe_loop, internal_resubscribe,
}
use hornbill_examples.Session.Unsubscribe.{internal_unsubscribe}
use hornbill_examples.Session.Steady.{KeepsState, IsIn, IsTaken, steady_rules}
use hornbill_examples.Session.Steady.Reading.{Keeps-wait_for_read}

module _ {ℓ} {W : Type ℓ} (sys : System W) (k : ClientState) (taken : IsTaken sys)
    (quiet : KeepsState sys.application) where
  message_packet_id-Keeps : (q : QoS) (id : ℕ) → Keeps (IsIn k) (message_packet_id sys q id)
  message_packet_id-Keeps qos0 id = search keeps_rules
  message_packet_id-Keeps qos1 id = search steady_rules

  await_ack-Keeps : (q : QoS) → Keeps (IsIn k) (await_ack sys q)
  await_ack-Keeps qos0 = search keeps_rules
  await_ack-Keeps qos1 = search (keeps_rules, Keeps-wait_for_read sys k taken quiet) depth 12

  pub Keeps-internal_publish :
      (topic_name : List ℕ) (len : ℕ) (p : Outgoing)
      → Keeps (IsIn k) (internal_publish sys topic_name len p)
  unfolding internal_publish
  Keeps-internal_publish topic_name len p =
      search (keeps_rules, steady_rules, message_packet_id-Keeps, await_ack-Keeps) depth 16

  Keeps-exchange_subscribe : (n : ℕ) → Keeps (IsIn k) (exchange_subscribe sys n)
  unfolding exchange_subscribe
  Keeps-exchange_subscribe n =
      search (keeps_rules, steady_rules, Keeps-wait_for_read sys k taken quiet) depth 16

  store_handler-state :
      (index : ℕ) (h : MessageHandler) (c : Client)
      → (store_handler index h c).client_state ≡ c.client_state
  unfolding store_handler
  store_handler-state index h c = refl

  pub Keeps-internal_subscribe :
      (topic_name : List ℕ) (len : ℕ) (qos : QoS) (handler handler_data : ℕ)
      → Keeps (IsIn k) (internal_subscribe sys topic_name len qos handler handler_data)
  unfolding internal_subscribe
  Keeps-internal_subscribe topic_name len qos handler handler_data =
      search (keeps_rules, steady_rules, Keeps-exchange_subscribe, store_handler-state) depth 20

  resubscribe_entry-Keeps :
      (entry : Option MessageHandler) → Keeps (IsIn k) (resubscribe_entry sys entry)
  resubscribe_entry-Keeps none = search keeps_rules
  resubscribe_entry-Keeps (some h) =
      search (keeps_rules, steady_rules, Keeps-exchange_subscribe) depth 20

  resubscribe_loop-Keeps : (left itr : ℕ) → Keeps (IsIn k) (resubscribe_loop sys left itr)
  unfolding resubscribe_loop
  resubscribe_loop-Keeps zero itr = search keeps_rules
  resubscribe_loop-Keeps (suc left) itr =
      search (keeps_rules, resubscribe_entry-Keeps, resubscribe_loop-Keeps left) depth 10

  pub Keeps-internal_resubscribe : Keeps (IsIn k) (internal_resubscribe sys)
  unfolding internal_resubscribe
  Keeps-internal_resubscribe = search (keeps_rules, resubscribe_loop-Keeps)

  pub Keeps-internal_unsubscribe :
      (topic_filter : List ℕ) (len : ℕ) → Keeps (IsIn k) (internal_unsubscribe sys topic_filter len)
  unfolding internal_unsubscribe
  Keeps-internal_unsubscribe topic_filter len =
      search (keeps_rules, steady_rules, Keeps-wait_for_read sys k taken quiet) depth 24
