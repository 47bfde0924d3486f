-- ===== src/Examples/Shadows.antt =====
-- The subscriptions of the shadow client at a concrete table.
use hornbill_examples.Common.{ℕ, suc, ◌≡◌, refl, arith, true, false, List, [], ◌∷◌, codes}
use hornbill_examples.Errors.{ok, err, failure}
use hornbill_examples.Shadow.{
  SubscriptionRecord, Subscriber, shadow_update, first_free, is_subscription_present,
  subscribe_to_shadow_action_acks, get_next_free_index_of_subscription_list,
}
use hornbill_examples.Shadow.Subscriptions.{HasTwoFree}
use hornbill_examples.Shadow.Subscriptions.Present.{subscribe_to_shadow_action_acks-present}
use hornbill_examples.Shadow.Subscriptions.Leak.{free_count, subscribe_to_shadow_action_acks-leaks}

abbrev free_entry : SubscriptionRecord
free_entry = record { topic = []; count = 0; is_free = true; is_sticky = false }

abbrev used_entry : SubscriptionRecord
used_entry = record { topic = codes "x"; count = 1; is_free = false; is_sticky = false }

abbrev entries : List SubscriptionRecord
entries = used_entry ∷ free_entry ∷ free_entry ∷ []

entries-HasTwoFree : HasTwoFree entries
unfolding first_free
entries-HasTwoFree = record { first = 1; second = 2; found_first = refl; found_second = refl }

-- A client that logs its topics.
abbrev logging : Subscriber (List (List ℕ))
logging = record {
  subscribe_topic = λ topic log. (ok tt, topic ∷ log);
  unsubscribe_topic = λ topic log. (ok tt, log);
  settle = λ log. log;
}

abbrev refusing : Subscriber (List (List ℕ))
refusing = record logging { subscribe_topic = λ topic log. (err failure, log) }

acks_subscribed :
    (subscribe_to_shadow_action_acks logging (codes "lamp") shadow_update true entries []).0 ≡ ok tt
unfolding subscribe_to_shadow_action_acks get_next_free_index_of_subscription_list first_free
acks_subscribed = refl

subscribe_to_shadow_action_acks-present_example :
    is_subscription_present
      (codes "lamp")
      shadow_update
      (subscribe_to_shadow_action_acks logging (codes "lamp") shadow_update true entries []).1.0
    ≡ true
subscribe_to_shadow_action_acks-present_example =
    subscribe_to_shadow_action_acks-present logging (codes "lamp") shadow_update true entries []
      entries-HasTwoFree (omega arith) acks_subscribed

acks_refused :
    (subscribe_to_shadow_action_acks refusing (codes "lamp") shadow_update true entries []).0
    ≡ err failure
unfolding subscribe_to_shadow_action_acks get_next_free_index_of_subscription_list first_free
acks_refused = refl

subscribe_to_shadow_action_acks-leaks_example :
    suc (
      free_count
        (subscribe_to_shadow_action_acks refusing (codes "lamp") shadow_update true entries []).1.0)
    ≡ free_count entries
subscribe_to_shadow_action_acks-leaks_example =
    subscribe_to_shadow_action_acks-leaks refusing (codes "lamp") shadow_update true entries []
      failure entries-HasTwoFree acks_refused
