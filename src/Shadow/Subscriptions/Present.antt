-- ===== src/Shadow/Subscriptions/Present.antt =====
-- A subscribe to the acknowledgements that succeeds.
use hornbill_examples.Common.{
  ℕ, zero, suc, ◌<◌, ◌≤◌, ==_refl, ◌||◌, ◌&&◌, not, Bool, true, false, Bool-cases, List, [], ◌∷◌,
  ◌++◌, some, get_elem?, length, length-append, take, take_all, codes, same, same_refl, same_sound,
  ◌≡◌, ◌≢◌, refl, ◌∙◌, sym, ap, arith, inl, inr,
}
use hornbill_examples.Errors.{Result, ok, err, fault}
use hornbill_examples.Shadow.{
  ShadowAction, ShadowAckTopicType, shadow_get, shadow_update, shadow_delete, shadow_accepted,
  shadow_rejected, SubscriptionRecord, action_text, ack_text, topic_name_from_thing_and_action,
  update_at, occupy, present_loop, is_subscription_present, Subscriber, counted, named,
  after_rejected, after_accepted, subscribe_to_shadow_action_acks,
}
use hornbill_examples.Shadow.Subscriptions.{
  HasTwoFree, taken, differ, first_free-FirstFree, get-update_at, get-update_other,
  subscribe_entries,
}

-- An entry that is in use for the topic.
abbrev is_listed : List ℕ → SubscriptionRecord → Bool
is_listed topic r = not r.is_free && same topic r.topic

abbrev lists : List ℕ → List SubscriptionRecord → Bool
lists topic [] = false
lists topic (r ∷ records) = is_listed topic r || lists topic records

lists_at :
    (topic : List ℕ) (i : ℕ) (records : List SubscriptionRecord) (r : SubscriptionRecord)
    → get_elem? records i ≡ some r
    → is_listed topic r ≡ true
    → lists topic records ≡ true
lists_at topic i [] r h l = cc
lists_at topic zero (x ∷ records) r h l =
    let e : x ≡ r = ground (arith, h) in
    let t : is_listed topic x ≡ true = ap (is_listed topic) e ∙ l in ground (arith, t)
lists_at topic (suc i) (x ∷ records) r h l = ground (arith, lists_at topic i records r h l)

present_loop-lists :
    (accepted rejected : List ℕ) (p q : Bool) (records : List SubscriptionRecord)
    → ((t : List ℕ) → same accepted t ≡ true → same rejected t ≡ false)
    → present_loop accepted rejected p q records
      ≡ ((q || lists rejected records) && (p || lists accepted records))
unfolding present_loop
present_loop-lists accepted rejected p q [] d = ground arith
present_loop-lists accepted rejected p q (r ∷ records) d = ground (
  arith,
  present_loop-lists accepted rejected (p || (not r.is_free && same accepted r.topic))
      (q || (not r.is_free && (not (same accepted r.topic) && same rejected r.topic))) records d,
  d r.topic,
)

same-append : (p a b : List ℕ) → same (p ++ a) (p ++ b) ≡ same a b
same-append [] a b = refl
same-append (x ∷ p) a b = ground (arith, same-append p a b, ==_refl x)

length-action_text : (action : ShadowAction) → length (action_text action) ≤ 6
length-action_text shadow_get = omega arith
length-action_text shadow_update = omega arith
length-action_text shadow_delete = omega arith

-- The two topics of an action differ, where the thing name leaves room for them.
topics_differ :
    (thing_name : List ℕ) (action : ShadowAction)
    → length thing_name < 20
    → same
        (topic_name_from_thing_and_action thing_name action shadow_accepted)
        (topic_name_from_thing_and_action thing_name action shadow_rejected)
      ≡ false
unfolding topic_name_from_thing_and_action
topics_differ thing_name action h =
    let tail : ShadowAckTopicType → List ℕ =
      λ t. codes "/shadow/" ++ (action_text action ++ ack_text t) in
    let short : (t : ShadowAckTopicType)
        → length (ack_text t) ≤ 9
        → take 67 (thing_name ++ tail t) ≡ thing_name ++ tail t =
      λ t b. take_all 67 (thing_name ++ tail t) (
        omega (
          arith,
          length-append thing_name (tail t),
          length-append (action_text action) (ack_text t),
          length-action_text action,
          h,
          b,
        )) in
    let a = short shadow_accepted (omega arith) in
    let r = short shadow_rejected (omega arith) in
    ap (λ x. same x (take 67 (thing_name ++ tail shadow_rejected))) a
    ∙ ap (same (thing_name ++ tail shadow_accepted)) r
    ∙ same-append thing_name (tail shadow_accepted) (tail shadow_rejected)
    ∙ same-append (codes "/shadow/") (action_text action ++ ack_text shadow_accepted)
        (action_text action ++ ack_text shadow_rejected)
    ∙ same-append (action_text action) (ack_text shadow_accepted) (ack_text shadow_rejected)

not_both : (a b t : List ℕ) → same a b ≡ false → same a t ≡ true → same b t ≡ false
not_both a b t n h = elim (Bool-cases (same b t)) [
  | inr f ↦ f
  | inl s ↦
      let e : a ≡ b = same_sound a t h ∙ sym (same_sound b t s) in
      absurd (ground (arith, n, ap (λ x. same x b) e, same_refl b))
]

present_lists :
    (thing_name : List ℕ) (action : ShadowAction) (records : List SubscriptionRecord)
    → length thing_name < 20
    → lists (topic_name_from_thing_and_action thing_name action shadow_accepted) records ≡ true
    → lists (topic_name_from_thing_and_action thing_name action shadow_rejected) records ≡ true
    → is_subscription_present thing_name action records ≡ true
unfolding is_subscription_present
present_lists thing_name action records h a r =
    let accepted = topic_name_from_thing_and_action thing_name action shadow_accepted in
    let rejected = topic_name_from_thing_and_action thing_name action shadow_rejected in
    present_loop-lists accepted rejected false false records
      (λ t. not_both accepted rejected t (topics_differ thing_name action h))
    ∙ rw (a, r) refl

-- The last table of a call that succeeds.
module _ (is_sticky : Bool) (accepted rejected : List ℕ) (records : List SubscriptionRecord)
    (two : HasTwoFree records) where
  abbrev named_first : List SubscriptionRecord
  named_first = update_at (λ r. record r { topic = accepted }) two.first (taken records two)

  abbrev counted_first : List SubscriptionRecord
  counted_first =
      update_at (λ r. record r { count = 1; is_sticky = is_sticky }) two.first named_first

  abbrev named_second : List SubscriptionRecord
  named_second = update_at (λ r. record r { topic = rejected }) two.second counted_first

  abbrev last_table : List SubscriptionRecord
  last_table =
      update_at (λ r. record r { count = 1; is_sticky = is_sticky }) two.second named_second

  lists_accepted : lists accepted last_table ≡ true
  lists_accepted =
      let one = first_free-FirstFree records two.first two.found_first in
      let back : two.second ≢ two.first = λ e. differ records two (sym e) in
      let at0 = get-update_at occupy two.first records one.entry one.here in
      let at1 =
        get-update_other occupy two.second two.first (update_at occupy two.first records) back
        ∙ at0 in
      let at2 =
        get-update_at (λ r. record r { topic = accepted }) two.first (taken records two) _ at1 in
      let at3 =
        get-update_at (λ r. record r { count = 1; is_sticky = is_sticky }) two.first named_first _
          at2 in
      let at4 =
        get-update_other (λ r. record r { topic = rejected }) two.second two.first counted_first
          back
        ∙ at3 in
      let at5 =
        get-update_other (λ r. record r { count = 1; is_sticky = is_sticky }) two.second two.first
          named_second back
        ∙ at4 in
      lists_at accepted two.first last_table _ at5 (same_refl accepted)

  lists_rejected : lists rejected last_table ≡ true
  lists_rejected =
      let other =
        first_free-FirstFree (update_at occupy two.first records) two.second two.found_second in
      let apart = differ records two in
      let at1 =
        get-update_at occupy two.second (update_at occupy two.first records) other.entry
          other.here in
      let at2 =
        get-update_other (λ r. record r { topic = accepted }) two.first two.second
          (taken records two) apart
        ∙ at1 in
      let at3 =
        get-update_other (λ r. record r { count = 1; is_sticky = is_sticky }) two.first two.second
          named_first apart
        ∙ at2 in
      let at4 = get-update_at (λ r. record r { topic = rejected }) two.second counted_first _ at3 in
      let at5 =
        get-update_at (λ r. record r { count = 1; is_sticky = is_sticky }) two.second named_second _
          at4 in
      lists_at rejected two.second last_table _ at5 (same_refl rejected)

module _ {ℓ} {C : Type ℓ} (client : Subscriber C) where
  after_rejected-table :
      (is_sticky : Bool) (i j : ℕ) (records : List SubscriptionRecord) (o : Result (Unit {0}) × C)
      → (after_rejected client is_sticky i j records o).0 ≡ ok tt
      → (after_rejected client is_sticky i j records o).1.0
        ≡ update_at (counted client is_sticky) j records
  after_rejected-table is_sticky i j records (ok _, c) h = refl
  after_rejected-table is_sticky i j records (err e, c) h = cc
  after_rejected-table is_sticky i j records (fault, c) h = cc

  after_accepted-table :
      (topic : List ℕ) (is_sticky : Bool) (i j : ℕ) (records : List SubscriptionRecord)
      (o : Result (Unit {0}) × C)
      → (after_accepted client topic is_sticky i j records o).0 ≡ ok tt
      → (after_accepted client topic is_sticky i j records o).1.0
        ≡ update_at
            (counted client is_sticky)
            j
            (update_at (named client topic) j (update_at (counted client is_sticky) i records))
  after_accepted-table topic is_sticky i j records (ok _, c) h =
      after_rejected-table is_sticky i j _ (client.subscribe_topic topic c) h
  after_accepted-table topic is_sticky i j records (err e, c) h = cc
  after_accepted-table topic is_sticky i j records (fault, c) h = cc

  -- Where the table has two free entries and the thing name has less than twenty characters, after a
  -- call that returns SUCCESS the subscriptions to the acceptances and to the rejections of the
  -- action are both found in the table.
  pub subscribe_to_shadow_action_acks-present :
      (thing_name : List ℕ) (action : ShadowAction) (is_sticky : Bool)
      (records : List SubscriptionRecord) (c : C)
      → HasTwoFree records
      → length thing_name < 20
      → (subscribe_to_shadow_action_acks client thing_name action is_sticky records c).0 ≡ ok tt
      → is_subscription_present thing_name action
          (subscribe_to_shadow_action_acks client thing_name action is_sticky records c).1.0
        ≡ true
  subscribe_to_shadow_action_acks-present thing_name action is_sticky records c two short h =
      let found = subscribe_entries client thing_name action is_sticky records c two in
      let accepted = topic_name_from_thing_and_action thing_name action shadow_accepted in
      let rejected = topic_name_from_thing_and_action thing_name action shadow_rejected in
      let last = last_table is_sticky accepted rejected records two in
      let table =
        ap (λ (o : Result (Unit {0}) × (List SubscriptionRecord × C)). o.1.0) found
        ∙ after_accepted-table rejected is_sticky two.first two.second
            (update_at (named client accepted) two.first (taken records two))
            (client.subscribe_topic accepted c)
            (sym (ap (λ (o : Result (Unit {0}) × (List SubscriptionRecord × C)). o.0) found) ∙ h) in
      ap (is_subscription_present thing_name action) table
      ∙ present_lists thing_name action last short
          (lists_accepted is_sticky accepted rejected records two)
          (lists_rejected is_sticky accepted rejected records two)
