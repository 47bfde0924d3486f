-- ===== src/Shadow/Acks/Expiry.antt =====
-- Which callbacks hear of a time-out.
use hornbill_examples.Common.{
  ℕ, ◌==◌, ltb, get_elem?, Bool, true, false, Bool-cases, ◌&&◌, not, if◌then◌else◌, List, [], ◌∷◌,
  ◌++◌, append_assoc, append-nil, Option, none, some, map, ◌≡◌, refl, sym, ◌∙◌, ap, inl, inr,
}
use hornbill_examples.Errors.{Result, ok, err, fault}
use hornbill_examples.Timer.{Timer, has_timer_expired}
use hornbill_examples.Shadow.{
  ShadowAction, SubscriptionRecord, shadow_accepted, topic_name_from_thing_and_action, update_at,
  reduce, find_index_of_subscription_list, after_unsubscribe, drop_entry, drop_at,
  unsubscribe_from_accepted_and_rejected,
}
use hornbill_examples.Shadow.Acks.{
  shadow_ack_timeout, AckRecord, Answer, ShadowClient, Waiting, freed, called, behind, answered,
  asked, expire_loop, handle_expired_response_callbacks,
}

-- A client whose calls take no tick of the clock, and whose log has the calls of the callbacks.
pub record IsLogged {ℓ} {C : Type ℓ} (shadow : ShadowClient C) (log : C → List Answer) (now : ℕ)
    : Type ℓ where
  pub clock : (c : C) → shadow.tick_count c ≡ now
  pub calls : (a : Answer) (c : C) → log (shadow.call_back a c) ≡ log c ++ (a ∷ [])
  pub unsubscribes :
      (topic : List ℕ) (c : C) → log (shadow.subscriber.unsubscribe_topic topic c).1 ≡ log c
  pub sleeps : (c : C) → log (shadow.delay c) ≡ log c

-- Whether the time of an entry is over.
abbrev pub is_over : ℕ → AckRecord → Bool
is_over now r = not r.is_free && (has_timer_expired now r.timer).expired

-- The call that an entry is due, if it has a callback.
abbrev pub timeout_answer : Option ℕ → AckRecord → List ℕ → List Answer
timeout_answer none r received = []
timeout_answer (some f) r received =
    record {
      callback = f;
      thing_name = r.thing_name;
      action = r.action;
      status = shadow_ack_timeout;
      received = received;
      callback_context = r.callback_context;
    }
    ∷ []

-- The calls for the entries whose time is over, in the order of the list.
abbrev pub timeout_answers : ℕ → List ℕ → List AckRecord → List Answer
timeout_answers now received [] = []
timeout_answers now received (r ∷ rs) =
    (if is_over now r then timeout_answer r.callback r received else [])
    ++ timeout_answers now received rs

-- An entry that waits, after its timer was asked.
abbrev pub asked_entry : ℕ → AckRecord → AckRecord
asked_entry now r =
    let p = has_timer_expired now r.timer in record r { timer = p.timer; is_free = p.expired }

-- An entry after the loop: free where its time is over, and its timer asked where it waits.
abbrev pub expired_entry : ℕ → AckRecord → AckRecord
expired_entry now r = if r.is_free then r else asked_entry now r

module _ {ℓ} {C : Type ℓ} (shadow : ShadowClient C) (log : C → List Answer) (now : ℕ)
    (logged : IsLogged shadow log now) where
  log-called :
      (f : Option ℕ) (r : AckRecord) (received : List ℕ) (c : C)
      → log (called shadow f r shadow_ack_timeout received c) ≡ log c ++ timeout_answer f r received
  log-called none r received c = sym (append-nil (log c))
  log-called (some f) r received c = logged.calls _ c

  log-after_unsubscribe :
      (i : ℕ) (records : List SubscriptionRecord) (o : Result (Unit {0}) × C)
      → log (after_unsubscribe shadow.subscriber i records o).1 ≡ log o.1
  log-after_unsubscribe i records (ok _, c) = refl
  log-after_unsubscribe i records (err e, c) = refl
  log-after_unsubscribe i records (fault, c) = refl

  log-if :
      (b : Bool) (p q : List SubscriptionRecord × C) (l : List Answer)
      → log p.1 ≡ l
      → log q.1 ≡ l
      → log (if b then p else q).1 ≡ l
  log-if true p q l h k = h
  log-if false p q l h k = k

  log-drop_entry :
      (topic : List ℕ) (i : ℕ) (o : Option SubscriptionRecord) (records : List SubscriptionRecord)
      (c : C)
      → log (drop_entry shadow.subscriber topic i o records c).1 ≡ log c
  log-drop_entry topic i none records c = refl
  log-drop_entry topic i (some r) records c =
      log-if (not r.is_sticky && r.count == 1)
        (after_unsubscribe shadow.subscriber i records
          (shadow.subscriber.unsubscribe_topic topic c))
        (if ltb 1 r.count then (update_at reduce i records, c) else (records, c)) (log c)
        (log-after_unsubscribe i records (shadow.subscriber.unsubscribe_topic topic c)
          ∙ logged.unsubscribes topic c)
        (log-if (ltb 1 r.count) (update_at reduce i records, c) (records, c) (log c) refl refl)

  log-drop_at :
      (topic : List ℕ) (i : Option ℕ) (records : List SubscriptionRecord) (c : C)
      → log (drop_at shadow.subscriber topic i records c).1 ≡ log c
  log-drop_at topic none records c = refl
  log-drop_at topic (some i) records c = log-drop_entry topic i (get_elem? records i) records c

  log-unsubscribe :
      (thing_name : List ℕ) (action : ShadowAction) (records : List SubscriptionRecord) (c : C)
      → log (unsubscribe_from_accepted_and_rejected shadow.subscriber thing_name action records c).1
        ≡ log c
  unfolding unsubscribe_from_accepted_and_rejected
  log-unsubscribe thing_name action records c =
      let accepted = topic_name_from_thing_and_action thing_name action shadow_accepted in
      let i = find_index_of_subscription_list accepted records in
      let (records1, c1) = drop_at shadow.subscriber accepted i records c in
      log-drop_at _ _ records1 c1 ∙ log-drop_at accepted i records c

  log-answered :
      (r : AckRecord) (received : List ℕ) (records : List SubscriptionRecord) (c : C)
      → log (answered shadow r shadow_ack_timeout received records c).1
        ≡ log c ++ timeout_answer r.callback r received
  log-answered r received records c =
      log-unsubscribe r.thing_name r.action records
        (called shadow r.callback r shadow_ack_timeout received c)
      ∙ log-called r.callback r received c

  log-asked : (r : AckRecord) (c : C) → log (asked shadow r c).1.1 ≡ log c
  log-asked r c = elim (Bool-cases (has_timer_expired (shadow.tick_count c) r.timer).delayed) [
    | inl t ↦ rw t (logged.sleeps c)
    | inr t ↦ rw t refl
  ]

  -- The entry and the verdict do not depend on the client, since the clock stands.
  asked-now :
      (r : AckRecord) (c : C)
      → ((asked shadow r c).0 ≡ (has_timer_expired now r.timer).expired)
        × ((asked shadow r c).1.0 ≡ record r { timer = (has_timer_expired now r.timer).timer })
  asked-now r c = (
    ap (λ t. (has_timer_expired t r.timer).expired) (logged.clock c),
    ap (λ t. record r { timer = (has_timer_expired t r.timer).timer }) (logged.clock c),
  )

  -- What the loop leaves of the list, and which calls it makes.
  abbrev pub Settles :
      List ℕ → List AckRecord → C → List AckRecord × (List SubscriptionRecord × C) → Type 0
  Settles received acks before (acks', (records, after)) =
      (acks' ≡ map (expired_entry now) acks)
      × (log after ≡ log before ++ timeout_answers now received acks)

  settled :
      (received : List ℕ) (r r' : AckRecord) (rs rs' : List AckRecord)
      (records : List SubscriptionRecord) (calls : List Answer) (before between after : C)
      → Settles received rs between (rs', (records, after))
      → r' ≡ expired_entry now r
      → log between ≡ log before ++ calls
      → calls ≡ (if is_over now r then timeout_answer r.callback r received else [])
      → Settles received (r ∷ rs) before (r' ∷ rs', (records, after))
  settled received r r' rs rs' records calls before between after (list, heard) entry said due = (
    ap (λ q. q ∷ rs') entry ∙ ap (λ qs. expired_entry now r ∷ qs) list,
    heard
        ∙ ap (λ l. l ++ timeout_answers now received rs) (said ∙ ap (λ x. log before ++ x) due)
        ∙ append_assoc (log before) _ (timeout_answers now received rs),
  )

  Settles-if :
      (received : List ℕ) (acks : List AckRecord) (before : C) (b : Bool)
      (x y : List AckRecord × (List SubscriptionRecord × C))
      → (b ≡ true → Settles received acks before x)
      → (b ≡ false → Settles received acks before y)
      → Settles received acks before (if b then x else y)
  Settles-if received acks before true x y h k = h refl
  Settles-if received acks before false x y h k = k refl

  -- An entry that waits.
  waiting_entry : (r : AckRecord) → r.is_free ≡ false → asked_entry now r ≡ expired_entry now r
  waiting_entry r w = sym (ap (λ b. if b then r else asked_entry now r) w)

  timeout_answer-timer :
      (f : Option ℕ) (r : AckRecord) (t : Timer) (received : List ℕ)
      → timeout_answer f (record r { timer = t }) received ≡ timeout_answer f r received
  timeout_answer-timer none r t received = refl
  timeout_answer-timer (some f) r t received = refl

  due_calls :
      (r : AckRecord) (received : List ℕ) (b : Bool)
      → r.is_free ≡ false
      → (has_timer_expired now r.timer).expired ≡ b
      → (if b then timeout_answer r.callback r received else [])
        ≡ (if is_over now r then timeout_answer r.callback r received else [])
  due_calls r received b w e =
      ap (λ x. if x then timeout_answer r.callback r received else [])
        (sym (ap (λ x. not x && (has_timer_expired now r.timer).expired) w ∙ e))

  expire_loop-Settles :
      (received : List ℕ) (acks : List AckRecord) (records : List SubscriptionRecord) (c : C)
      → Settles received acks c (expire_loop shadow received acks records c)
  unfolding expire_loop
  expire_loop-Settles received [] records c = (refl, sym (append-nil (log c)))
  expire_loop-Settles received (r ∷ rs) records c =
      let p = has_timer_expired now r.timer in
      let a = asked shadow r c in
      let now_r = asked-now r c in
      let o = answered shadow a.1.0 shadow_ack_timeout received records a.1.1 in
      let kept = expire_loop shadow received rs records c in
      let gone = expire_loop shadow received rs o.0 o.1 in
      let still = expire_loop shadow received rs records a.1.1 in
      Settles-if received (r ∷ rs) c r.is_free (behind shadow r kept)
        (if a.0 then behind shadow (freed a.1.0) gone else behind shadow a.1.0 still)
        (λ f.
          settled received r r rs kept.0 kept.1.0 [] c c kept.1.1
            (expire_loop-Settles received rs records c)
            (sym (ap (λ b. if b then r else asked_entry now r) f)) (sym (append-nil (log c)))
            (sym (
              ap (λ b. if not b && p.expired then timeout_answer r.callback r received else []) f)))
        (λ w.
          Settles-if received (r ∷ rs) c a.0 (behind shadow (freed a.1.0) gone)
            (behind shadow a.1.0 still)
            (λ t.
              settled received r (freed a.1.0) rs gone.0 gone.1.0
                (timeout_answer r.callback r received) c o.1 gone.1.1
                (expire_loop-Settles received rs o.0 o.1)
                (ap freed now_r.1
                  ∙ ap (λ b. record r { timer = p.timer; is_free = b }) (sym (sym now_r.0 ∙ t))
                  ∙ waiting_entry r w)
                (log-answered a.1.0 received records a.1.1
                  ∙ ap (λ l. l ++ timeout_answer a.1.0.callback a.1.0 received) (log-asked r c)
                  ∙ ap (λ l. log c ++ l) (timeout_answer-timer r.callback r a.1.0.timer received))
                (due_calls r received true w (sym now_r.0 ∙ t)))
            (λ n.
              settled received r a.1.0 rs still.0 still.1.0 [] c a.1.1 still.1.1
                (expire_loop-Settles received rs records a.1.1)
                (now_r.1
                  ∙ ap (λ b. record r { timer = p.timer; is_free = b }) (w ∙ sym (sym now_r.0 ∙ n))
                  ∙ waiting_entry r w)
                (log-asked r c ∙ sym (append-nil (log c)))
                (due_calls r received false w (sym now_r.0 ∙ n))))

  -- HandleExpiredResponseCallbacks, where the calls of the client take no tick: of the entries that
  -- wait, those whose time is over are free afterwards, and each with a callback has it called once,
  -- with the time-out, its thing name, action and context and the text received last, in the order of
  -- the list. No other callback is called, and no other entry changes but for when its timer was
  -- asked.
  pub handle_expired_response_callbacks_lem :
      (s : Waiting C)
      → let s' = handle_expired_response_callbacks shadow s in
        (s'.ack_wait_list ≡ map (expired_entry now) s.ack_wait_list)
        × (log s'.client ≡ log s.client ++ timeout_answers now s.rx_buf s.ack_wait_list)
  unfolding handle_expired_response_callbacks
  handle_expired_response_callbacks_lem s =
      expire_loop-Settles s.rx_buf s.ack_wait_list s.subscription_list s.client
