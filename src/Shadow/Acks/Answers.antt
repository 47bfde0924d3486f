-- ===== src/Shadow/Acks/Answers.antt =====
-- Which entry an acknowledgement answers, and which action waits for one.
use hornbill_examples.Common.{
  ℕ, suc, same, same_sound, same_refl, none, ◌<◌, ltb, lt→ltb, ltb-false, Bool, true, false,
  Bool-cases, Option-cases, if◌then◌else◌, ◌&&◌, List, [], ◌∷◌, ◌++◌, length, Option, some, All,
  ◌≡◌, ◌≢◌, refl, sym, subst, ◌∙◌, ap, arith, ◌⊎◌, inl, inr,
}
use hornbill_examples.Errors.{Result, ok, err, fault}
use hornbill_examples.Timer.{countdown_sec}
use hornbill_examples.Shadow.{
  ShadowAction, SubscriptionRecord, is_subscription_present, unsubscribe_from_accepted_and_rejected,
}
use hornbill_examples.Shadow.Acks.{
  ShadowAckStatus, AckRecord, ShadowClient, Documents, Waiting, freed, behind, answered, waits_for,
  answer_loop, looped, ack_status, is_ack_for_my_thing_name, newer_version, ack_status_callback,
  shadow_max_size_of_rx_buffer, get_next_free_index_of_ack_wait_list, set_ack, add_to_ack_wait_list,
  publish_to_shadow_action, hold_subscription, after_ok, awaited_action, internal_action,
  max_size_client_id_with_sequence, max_size_of_thing_name,
}

-- An entry that is in use for a token.
abbrev pub IsWaiting : List ℕ → AckRecord → Type 0
IsWaiting token r = (r.is_free ≡ false) × (r.client_token_id ≡ token)

module _ {ℓ} {C : Type ℓ} (shadow : ShadowClient C) where
  waits_for-IsWaiting :
      (token : List ℕ) (r : AckRecord) → waits_for shadow token r ≡ true → IsWaiting token r
  waits_for-IsWaiting token r w =
      (ground (arith, w), same_sound r.client_token_id token (ground (arith, w)))

  waits_for-idle :
      (token : List ℕ) (r : AckRecord) → waits_for shadow token r ≡ false → IsWaiting token r → ⊥
  waits_for-idle token r n (used, e) =
      let s : same r.client_token_id token ≡ true = ap (λ t. same t token) e ∙ same_refl token in
      ground (arith, n, used, s)

  -- The first entry that waits for a token, with the entries before and after it.
  pub record FirstWaiting (token : List ℕ) (acks : List AckRecord) : Type 0 where
    pub before : List AckRecord
    pub entry : AckRecord
    pub after : List AckRecord
    pub split : acks ≡ before ++ (entry ∷ after)
    pub none_before : All (λ r. IsWaiting token r → ⊥) before
    pub waits : IsWaiting token entry

  -- The call of an entry's callback, if it has one.
  abbrev pub called_back : Option ℕ → AckRecord → ShadowAckStatus → List ℕ → C → C
  called_back none r status received c = c
  called_back (some f) r status received c =
      shadow.call_back
        (record {
          callback = f;
          thing_name = r.thing_name;
          action = r.action;
          status = status;
          received = received;
          callback_context = r.callback_context;
        })
        c

  -- The list with this entry free, and its callback called and its subscriptions given up.
  abbrev pub answered_at :
      (token : List ℕ) (acks : List AckRecord)
      → FirstWaiting token acks
      → ShadowAckStatus
      → List ℕ
      → List SubscriptionRecord
      → C
      → List AckRecord × (List SubscriptionRecord × C)
  answered_at token acks first status received records c = (
    first.before ++ (record first.entry { is_free = true } ∷ first.after),
    unsubscribe_from_accepted_and_rejected shadow.subscriber first.entry.thing_name
        first.entry.action records (called_back first.entry.callback first.entry status received c),
  )

  abbrev pub Answered :
      ShadowAckStatus
      → List ℕ
      → List ℕ
      → List AckRecord
      → List SubscriptionRecord
      → C
      → List AckRecord × (List SubscriptionRecord × C)
      → Type ℓ
  Answered status token received acks records c o =
      (All (λ r. IsWaiting token r → ⊥) acks × (o ≡ (acks, (records, c))))
      ⊎ ((first : FirstWaiting token acks) × (o
            ≡ answered_at token acks first status received records c))

  later_entry :
      (token : List ℕ) (r : AckRecord) (acks : List AckRecord)
      → (IsWaiting token r → ⊥)
      → FirstWaiting token acks
      → FirstWaiting token (r ∷ acks)
  later_entry token r acks n first = record {
    before = r ∷ first.before;
    entry = first.entry;
    after = first.after;
    split = ap (λ rs. r ∷ rs) first.split;
    none_before = (n, first.none_before);
    waits = first.waits;
  }

  Answered-behind :
      (status : ShadowAckStatus) (token received : List ℕ) (r : AckRecord) (acks : List AckRecord)
      (records : List SubscriptionRecord) (c : C)
      (o : List AckRecord × (List SubscriptionRecord × C))
      → (IsWaiting token r → ⊥)
      → Answered status token received acks records c o
      → Answered status token received (r ∷ acks) records c (behind shadow r o)
  unfolding later_entry
  Answered-behind status token received r acks records c o n (inl (all, e)) =
      inl ((n, all), ap (behind shadow r) e)
  Answered-behind status token received r acks records c o n (inr (first, e)) =
      inr (later_entry token r acks n first, ap (behind shadow r) e)

  answer_loop-Answered :
      (status : ShadowAckStatus) (token received : List ℕ) (acks : List AckRecord)
      (records : List SubscriptionRecord) (c : C)
      → Answered status token received acks records c
          (answer_loop shadow status token received acks records c)
  unfolding answer_loop
  answer_loop-Answered status token received [] records c = inl (tt, refl)
  answer_loop-Answered status token received (r ∷ acks) records c =
      elim (Bool-cases (waits_for shadow token r)) [
        | inl w ↦ inr (
          record {
            before = [];
            entry = r;
            after = acks;
            split = refl;
            none_before = tt;
            waits = waits_for-IsWaiting token r w;
          },
          ap
              (λ b.
                if b
                then (freed r ∷ acks, answered shadow r status received records c)
                else behind shadow r (answer_loop shadow status token received acks records c))
              w,
        )
        | inr n ↦
            subst
              (λ b. Answered status token received (r ∷ acks) records c (
                if b
                then (freed r ∷ acks, answered shadow r status received records c)
                else behind shadow r (answer_loop shadow status token received acks records c)))
              (sym n)
              (Answered-behind status token received r acks records c
                (answer_loop shadow status token received acks records c) (waits_for-idle token r n)
                (answer_loop-Answered status token received acks records c))
      ]

  -- A document that fits shadowRxBuf, is valid and has a client token, on a topic that stands for
  -- `accepted` or `rejected`: if no entry waits for the token, the lists and the client stay as they
  -- are. Otherwise just the first that does is free afterwards, its callback, if it has one, was
  -- called once with the status and the document, and after that its subscriptions were given up.
  pub ack_status_callback-Answered :
      (docs : Documents) (my_thing_name topic_name payload token : List ℕ)
      (status : ShadowAckStatus) (s : Waiting C)
      → length payload < shadow_max_size_of_rx_buffer
      → docs.is_json_valid payload ≡ true
      → docs.client_token payload ≡ some token
      → ack_status topic_name ≡ some status
      → (s' : Waiting C) × (ack_status_callback shadow docs my_thing_name topic_name payload s
          ≡ ok s')
        × Answered status token payload s.ack_wait_list s.subscription_list s.client
            (s'.ack_wait_list, (s'.subscription_list, s'.client))
  unfolding ack_status_callback
  ack_status_callback-Answered docs my_thing_name topic_name payload token status s short valid
        found stands =
      let loop =
        answer_loop shadow status token payload s.ack_wait_list s.subscription_list s.client in
      let s' : Waiting C =
        looped shadow
          (record s {
            rx_buf = payload;
            json_version_num =
                if is_ack_for_my_thing_name my_thing_name topic_name
                then newer_version (docs.version_number payload) s.json_version_num
                else s.json_version_num;
          })
          loop in
      let not_longer =
        ltb-false shadow_max_size_of_rx_buffer (length payload) (omega (arith, short)) in
      let shorter = lt→ltb (length payload) shadow_max_size_of_rx_buffer short in
      (
        s',
        rw (not_longer, shorter, valid, found, stands) refl,
        answer_loop-Answered status token payload s.ack_wait_list s.subscription_list s.client,
      )

-- The entry of an action that waits.
abbrev pub awaited_entry {ℓ} :
    {C : Type ℓ} → ShadowClient C → List ℕ → ShadowAction → List ℕ → ℕ → ℕ → ℕ → C → AckRecord
awaited_entry shadow thing_name action token f context timeout c = record {
  client_token_id = token;
  thing_name = thing_name;
  action = action;
  callback = some f;
  callback_context = context;
  is_free = false;
  timer = (countdown_sec shadow.tick_ms (shadow.tick_count c) timeout).0;
}

module _ {ℓ} {C : Type ℓ} (shadow : ShadowClient C) where
  abbrev Kept : Waiting C → Result (Unit {0}) × Waiting C → Type 0
  Kept s (rc, s') = s'.ack_wait_list ≡ s.ack_wait_list

  hold_subscription-Kept :
      (thing_name : List ℕ) (action : ShadowAction) (is_sticky : Bool) (s : Waiting C)
      → Kept s (hold_subscription shadow thing_name action is_sticky s)
  unfolding hold_subscription
  hold_subscription-Kept thing_name action is_sticky s =
      elim (Bool-cases (is_subscription_present thing_name action s.subscription_list)) [
        | inl t ↦ rw t refl
        | inr t ↦ rw t refl
      ]

  publish-Kept :
      (thing_name : List ℕ) (action : ShadowAction) (document : List ℕ) (s : Waiting C)
      → Kept s (publish_to_shadow_action shadow thing_name action document s)
  unfolding publish_to_shadow_action
  publish-Kept thing_name action document s = refl

  after_ok-Kept :
      (s : Waiting C) (f : Waiting C → Result (Unit {0}) × Waiting C)
      (o : Result (Unit {0}) × Waiting C)
      → ((t : Waiting C) → Kept t (f t))
      → Kept s o
      → Kept s (after_ok shadow f o)
  after_ok-Kept s f (ok _, t) k h = k t ∙ h
  after_ok-Kept s f (err e, t) k h = h
  after_ok-Kept s f (fault, t) k h = h

  -- The first free entry, with the entries before and after it.
  pub record FirstFree (acks : List AckRecord) : Type 0 where
    pub before : List AckRecord
    pub entry : AckRecord
    pub after : List AckRecord
    pub split : acks ≡ before ++ (entry ∷ after)
    pub used_before : All (λ r. r.is_free ≡ false) before
    pub free : entry.is_free ≡ true

  free_at :
      (acks : List AckRecord) (i : ℕ)
      → get_next_free_index_of_ack_wait_list acks ≡ some i
      → (first : FirstFree acks) × ((v : AckRecord)
          → set_ack i v acks ≡ first.before ++ (v ∷ first.after))
  unfolding get_next_free_index_of_ack_wait_list
  free_at [] i found = absurd (ground (arith, found))
  free_at (r ∷ acks) i found = elim (Bool-cases r.is_free) [
    | inl t ↦
        let e : i ≡ 0 = ground (arith, found, t) in
        rw e (
          record { before = []; entry = r; after = acks; split = refl; used_before = tt; free = t },
          λ v. refl,
        )
    | inr t ↦ elim (Option-cases (get_next_free_index_of_ack_wait_list acks)) [
      | inl none_free ↦ absurd (ground (arith, found, t, none_free))
      | inr (j, some_free) ↦
          let e : i ≡ suc j = ground (arith, found, t, some_free) in
          let (first, set) = free_at acks j some_free in
          rw e (
            record {
              before = r ∷ first.before;
              entry = first.entry;
              after = first.after;
              split = ap (λ rs. r ∷ rs) first.split;
              used_before = (t, first.used_before);
              free = first.free;
            },
            λ v. ap (λ rs. r ∷ rs) (set v),
          )
    ]
  ]

  -- SUCCESS comes with an entry that waits, and any other code without one.
  abbrev pub Waits :
      List ℕ
      → ShadowAction
      → List ℕ
      → ℕ
      → ℕ
      → ℕ
      → Waiting C
      → Result (Unit {0}) × Waiting C
      → Type 0
  Waits thing_name action token f context timeout s (rc, s') =
      ((rc ≡ ok tt)
        × (first : FirstFree s.ack_wait_list) × (s'.ack_wait_list
            ≡ first.before
              ++ (awaited_entry shadow thing_name action token f context timeout s'.client
                  ∷ first.after)))
      ⊎ ((rc ≢ ok tt) × (s'.ack_wait_list ≡ s.ack_wait_list))

  add-Waits :
      (thing_name : List ℕ) (action : ShadowAction) (token : List ℕ) (f context timeout i : ℕ)
      (s : Waiting C) (o : Result (Unit {0}) × Waiting C)
      → get_next_free_index_of_ack_wait_list s.ack_wait_list ≡ some i
      → Kept s o
      → Waits thing_name action token f context timeout s (
          after_ok shadow
            (add_to_ack_wait_list shadow i thing_name action token (some f) context timeout)
            o)
  unfolding add_to_ack_wait_list
  add-Waits thing_name action token f context timeout i s (ok _, t) free k =
      let (first, set) = free_at s.ack_wait_list i free in
      elim (Bool-cases (
        ltb (length token) max_size_client_id_with_sequence
        && ltb (length thing_name) max_size_of_thing_name)) [
          | inl fits ↦ rw fits (
              inl (
                refl,
                first,
                ap
                      (set_ack i
                        (awaited_entry shadow thing_name action token f context timeout t.client))
                      k
                    ∙ set (awaited_entry shadow thing_name action token f context timeout t.client),
              ))
          | inr long ↦ rw long (inr (λ e. ground (arith, e), k))
        ]
  add-Waits thing_name action token f context timeout i s (err e, t) free k =
      inr (λ h. ground (arith, h), k)
  add-Waits thing_name action token f context timeout i s (fault, t) free k =
      inr (λ h. ground (arith, h), k)

  -- An action with a callback whose document has a client token: where it returns SUCCESS, the first
  -- free entry of the list waits for the token, with the callback, and its time runs from now, and no
  -- other entry changes. Where it returns anything else, no entry changes.
  pub internal_action-Waits :
      (docs : Documents) (thing_name : List ℕ) (action : ShadowAction) (document token : List ℕ)
      (f context timeout : ℕ) (is_sticky : Bool) (s : Waiting C)
      → docs.client_token document ≡ some token
      → Waits thing_name action token f context timeout s (
          internal_action shadow docs
            (some thing_name)
            action
            (some document)
            (some f)
            context
            timeout
            is_sticky
            s)
  unfolding internal_action
  internal_action-Waits docs thing_name action document token f context timeout is_sticky s found =
      let held = hold_subscription shadow thing_name action is_sticky s in
      let from : Option ℕ → Type 0 = λ index. Waits thing_name action token f context timeout s (
        awaited_action shadow thing_name action document token f context timeout is_sticky index
          s) in
      rw found (elim (Option-cases (get_next_free_index_of_ack_wait_list s.ack_wait_list)) [
        | inl full ↦ subst from (sym full) (inr (λ h. ground (arith, h), refl))
        | inr (i, free) ↦ subst from (sym free) (
            add-Waits thing_name action token f context timeout i s
              (after_ok shadow (publish_to_shadow_action shadow thing_name action document) held)
              free
              (after_ok-Kept s (publish_to_shadow_action shadow thing_name action document) held
                (publish-Kept thing_name action document)
                (hold_subscription-Kept thing_name action is_sticky s)))
      ])
