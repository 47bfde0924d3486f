-- ===== src/Session/Unsubscribe/Forgets.antt =====
-- After an unsubscribe that returns SUCCESS the topic filter is gone from the table.
use hornbill_examples.Common.{
  ℕ, if◌then◌else◌, false, List, some, ◌≡◌, refl, ◌∙◌, sym, ap, subst, inl, inr, same_refl,
}
use hornbill_examples.Errors.{Result, ok, err, fault, failure}
use hornbill_examples.Threads.{Semaphore}
use hornbill_examples.Client.{Client, ClientState, connected_unsubscribe_in_progress}
use hornbill_examples.Client.State.{Outcome, first_error, set_client_state}
use hornbill_examples.Client.State.CompareAndSet.{set_client_state_lem}
use hornbill_examples.Client.Handlers.{subscription_exists, remove_handlers}
use hornbill_examples.Client.Handlers.Table.{remove_handlers-exists}
use hornbill_examples.Exec.{Running, Exec, lift, attempt, caught, continue, modify, ◌>>=◌}
use hornbill_examples.Exec.Meets.{
  Post, Told, Meets, Meets-bind, Meets-if, Meets-raise, Meets-then, Meets-lift, Meets-errors,
  Meets-Told, Keeps-attempt_Meets, Any,
}
use hornbill_examples.Session.Restore.{HasLocks, moved, change_state-moved}
use hornbill_examples.Session.Steady.{IsIn}
use hornbill_examples.Session.Restore.Calls.{Meets-require_idle}
use hornbill_examples.Exec.Keeps.{Keeps}
use hornbill_examples.Session.{
  System, change_state, with_timer, with_old, timer_ms, next_semaphore, change_state_with,
}
use hornbill_examples.Session.Publish.{require_idle}
use hornbill_examples.Session.Unsubscribe.{internal_unsubscribe, after_change, unsubscribe}

-- No entry of the table is for the filter.
abbrev pub IsForgotten {ℓ} : {W : Type ℓ} → List ℕ → Running W → Type 0
IsForgotten topic_filter s = subscription_exists topic_filter s.client.message_handlers ≡ false

module _ {ℓ} {W : Type ℓ} (sys : System W) (topic_filter : List ℕ) where
  Post-old :
      (t : _) (o : Result (Unit {0}) × Running W)
      → Post (λ _. IsForgotten topic_filter) (λ _. Any) o
      → Post (λ _. IsForgotten topic_filter) (λ _. Any) (with_old sys t o)
  Post-old t (ok _, s) h = h
  Post-old t (err e, s) h = tt
  Post-old t (fault, s) h = tt

  Meets-with_timer :
      (ms : ℕ) (m : Exec W (Unit {0}))
      → Meets Any m (λ _. IsForgotten topic_filter) (λ _. Any)
      → Meets Any (with_timer sys ms m) (λ _. IsForgotten topic_filter) (λ _. Any)
  unfolding with_timer
  Meets-with_timer ms m km = record {
    at = λ s h. Post-old s.timer _ (km.at (record s { timer = timer_ms sys ms s }) tt);
  }

  Meets-remove :
      Meets Any
        (modify
          (λ c. record c { message_handlers = remove_handlers topic_filter c.message_handlers }))
        (λ _. IsForgotten {W = W} topic_filter)
        (λ _. Any)
  unfolding modify
  Meets-remove = record {
    at = λ s h.
        remove_handlers-exists topic_filter topic_filter s.client.message_handlers
        ∙ ap (λ b. if b then false else subscription_exists topic_filter s.client.message_handlers)
            (same_refl topic_filter);
  }

  internal_unsubscribe-forgets :
      (len : ℕ)
      → Meets Any
          (internal_unsubscribe sys topic_filter len)
          (λ _. IsForgotten topic_filter)
          (λ _. Any)
  unfolding internal_unsubscribe
  internal_unsubscribe-forgets len = Meets-then _ _ (λ exists.
      Meets-if _ _ _ (Meets-raise failure (λ s h. tt)) (
        Meets-then _ _ (λ ms. Meets-with_timer ms _ (
          Meets-then _ _ (λ id. Meets-then _ _ (λ name. Meets-then _ _ (λ n. Meets-then _ _ (λ _.
            Meets-then _ _ (λ _. Meets-then _ _ (λ ack. Meets-then _ _ (λ _. Meets-remove)))))))))))

  pub Post-succeeded :
      (o : Result (Unit {0}) × Running W)
      → o.0 ≡ ok tt
      → Post (λ _. IsForgotten topic_filter) (λ _. Any) o
      → IsForgotten topic_filter o.1
  Post-succeeded (ok _, s) e h = h
  Post-succeeded (err x, s) e h = cc
  Post-succeeded (fault, s) e h = cc

  -- The filter is gone if the code is SUCCESS.
  abbrev Gone : Result (Unit {0}) → Running W → Type 0
  Gone r s = Told (λ (_ : Unit {0}). IsForgotten topic_filter) (λ _. Any) r s

  -- The second code matters only where the first is SUCCESS.
  Gone-first :
      (r back : Result (Unit {0})) (s : Running W)
      → Gone r s
      → Post (λ (_ : Unit {0}). IsForgotten topic_filter) (λ _. Any) (first_error r back, s)
  Gone-first (ok _) (ok _) s h = h
  Gone-first (ok _) (err e) s h = tt
  Gone-first (ok _) fault s h = tt
  Gone-first (err e) back s h = tt
  Gone-first fault back s h = absurd h

set_client_state-table :
    (answers : Semaphore) (expected new_state : ClientState) (c : Client)
    → (set_client_state answers expected new_state c).1.message_handlers ≡ c.message_handlers
set_client_state-table answers expected new_state c =
    elim (set_client_state_lem answers expected new_state c) [
      | inl h ↦ ap (λ (o : Outcome). o.1.message_handlers) h.2
      | inr (inl h) ↦ ap (λ (o : Outcome). o.1.message_handlers) h.2
      | inr (inr h) ↦ ap (λ (o : Outcome). o.1.message_handlers) h.1
    ]

module _ {ℓ} {W : Type ℓ} (sys : System W) (topic_filter : List ℕ) where
  Keeps-change_state :
      (expected new_state : ClientState) (r : Result (Unit {0}))
      → Keeps (Gone sys topic_filter r) (change_state sys expected new_state)
  unfolding change_state ◌>>=◌ next_semaphore change_state_with
  Keeps-change_state expected new_state (ok _) = record {
    at = λ s h.
        ap (subscription_exists topic_filter)
          (set_client_state-table (sys.semaphore s.world).0 expected new_state s.client)
        ∙ h;
  }
  Keeps-change_state expected new_state (err e) = record { at = λ s h. tt }
  Keeps-change_state expected new_state fault = record { at = λ s h. h }

  -- What follows a change of state that succeeded.
  changed_forgets :
      (st : ClientState) (len : ℕ)
      → Meets Any
          (after_change sys st (ok tt) (internal_unsubscribe sys topic_filter len))
          (λ _. IsForgotten topic_filter)
          (λ _. Any)
  changed_forgets st len =
      let busy = connected_unsubscribe_in_progress in
      Meets-bind (Gone sys topic_filter) _ _
        (Meets-Told (λ _. Any) _ (internal_unsubscribe-forgets sys topic_filter len))
        (λ r.
          Meets-bind (λ _. Gone sys topic_filter r) _ _
            (Keeps-attempt_Meets (λ _. Any) _ (Keeps-change_state busy st r))
            (λ back.
              Meets-lift (first_error r back) (λ s h. Gone-first sys topic_filter r back s h)))

module _ {ℓ} {W : Type ℓ} (sys : System W) (locks : HasLocks sys) (topic_filter : List ℕ)
    (len : ℕ) where
  forgets_from :
      (st : ClientState)
      → Meets
          (IsIn st)
          (attempt (change_state sys st connected_unsubscribe_in_progress) >>= λ changed.
            after_change sys st changed (internal_unsubscribe sys topic_filter len))
          (λ _. IsForgotten topic_filter)
          (λ _. Any)
  unfolding ◌>>=◌ attempt
  forgets_from st = record {
    at = λ s h.
        let busy = connected_unsubscribe_in_progress in
        let after : Result (Unit {0}) × Running W → Type 0 = λ o.
          Post (λ (_ : Unit {0}). IsForgotten topic_filter) (λ _. Any)
            (continue (caught o).0
              (λ changed. after_change sys st changed (internal_unsubscribe sys topic_filter len))
              (caught o).1) in
        subst after (sym (change_state-moved sys locks st busy s h))
          ((changed_forgets sys topic_filter st len).at (moved sys busy s) tt);
  }

  idle_forgets :
      (k : ClientState)
      → Meets
          (IsIn k)
          (require_idle >>= λ st.
            (attempt (change_state sys st connected_unsubscribe_in_progress) >>= λ changed.
            after_change sys st changed (internal_unsubscribe sys topic_filter len)))
          (λ _. IsForgotten topic_filter)
          (λ _. Any)
  idle_forgets k =
      Meets-bind (λ st s. (st ≡ k) × IsIn k s) _ _ (Meets-errors _ (Meets-require_idle k))
        (λ st. record { at = λ s h. (forgets_from st).at s (h.1 ∙ sym h.0) })

  unsubscribe_meets :
      (k : ClientState)
      → Meets
          (IsIn k)
          (unsubscribe sys (some topic_filter) len)
          (λ _. IsForgotten topic_filter)
          (λ _. Any)
  unfolding unsubscribe lift ◌>>=◌
  unsubscribe_meets k = idle_forgets k

  -- Where an unsubscribe returns SUCCESS, no entry of the table is left for the topic filter. This
  -- holds where every semaphore is had and given back.
  pub unsubscribe-forgets :
      (s : Running W)
      → (unsubscribe sys (some topic_filter) len s).0 ≡ ok tt
      → subscription_exists topic_filter
          (unsubscribe sys (some topic_filter) len s).1.client.message_handlers
        ≡ false
  unsubscribe-forgets s h =
      Post-succeeded sys topic_filter _ h ((unsubscribe_meets s.client.client_state).at s refl)
