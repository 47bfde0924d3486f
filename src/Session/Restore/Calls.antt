-- ===== src/Session/Restore/Calls.antt =====
-- Publish, subscribe, unsubscribe and resubscribe put the client back into the state they found.
use hornbill_examples.Common.{
  ℕ, ◌==◌, if◌then◌else◌, not, Bool, List, [], ◌∷◌, Option, ◌≡◌, refl, ◌∙◌, sym, subst, ==_iff,
  arith, ◌⊎◌, inl, inr,
}
use hornbill_examples.Errors.{IotError, Result, ok, err, fault}
use hornbill_examples.Wire.Header.{QoS}
use hornbill_examples.Client.{
  ClientState, connected_idle, connected_publish_in_progress, connected_subscribe_in_progress,
  connected_unsubscribe_in_progress, connected_resubscribe_in_progress,
}
use hornbill_examples.Client.State.{state_code, first_error}
use hornbill_examples.Client.State.CompareAndSet.{state_code-injective}
use hornbill_examples.Exec.{Running, Exec, attempt, lift, raise, pure, ◌>>=◌}
use hornbill_examples.Exec.Keeps.{Keeps, Keeps-lift}
use hornbill_examples.Exec.Meets.{
  Post, Meets, Keeps-Meets, Keeps-attempt_Meets, Meets-attempt, Meets-bind, Meets-if, Meets-test,
  Meets-gets, Meets-raise, Meets-pure, Meets-lift,
}
use hornbill_examples.Session.{System}
use hornbill_examples.Session.Publish.{Outgoing, require_idle, publish}
use hornbill_examples.Session.Subscribe.{subscribe, resubscribe}
use hornbill_examples.Session.Unsubscribe.{unsubscribe, after_change}
use hornbill_examples.Session.Steady.{KeepsState, IsIn}
use hornbill_examples.Session.Steady.Operations.{
  Keeps-internal_publish, Keeps-internal_subscribe, Keeps-internal_resubscribe,
  Keeps-internal_unsubscribe,
}
use hornbill_examples.Session.Restore.{
  HasLocks, Meets-change_state, Meets-attempt-change_state, Meets-in_state,
}

-- Its value is the state that the client is in.
pub Meets-require_idle {ℓ} :
    {W : Type ℓ} (k : ClientState)
    → Meets (IsIn {W = W} k) require_idle (λ st s. (st ≡ k) × IsIn k s) (λ _. IsIn k)
unfolding require_idle
Meets-require_idle k =
    Meets-bind (λ _. IsIn k) _ _ (Meets-gets _ (λ s h. h))
      (λ connected. Meets-if _ _ _ (Meets-raise _ (λ s h. h)) (
        Meets-bind (λ st s. (st ≡ k) × IsIn k s) _ _ (Meets-gets _ (λ s h. (h, h)))
          (λ st. Meets-if _ _ _ (Meets-pure st (λ s h. h)) (Meets-raise _ (λ s h. h.1)))))

-- `m` leaves the client in the state it found it in, whether it returns SUCCESS or an error.
abbrev pub Restores {ℓ} : {W : Type ℓ} → Exec W (Unit {0}) → Type ℓ
Restores {W = W} m = (k : ClientState) → Meets (IsIn {W = W} k) m (λ _. IsIn k) (λ _. IsIn k)

module _ {ℓ} {W : Type ℓ} where
  Restores-lift :
      {A : Type 0} (r : Result A) (f : A → Exec W (Unit {0}))
      → ((a : A) → Restores (f a))
      → Restores (lift r >>= f)
  Restores-lift r f kf k = Meets-bind (λ _. IsIn k) _ _ (Keeps-Meets _ (Keeps-lift r)) (λ a. kf a k)

  Restores-if :
      (b : Bool) (e : IotError) (m : Exec W (Unit {0}))
      → Restores m
      → Restores (if b then raise e else m)
  Restores-if b e m km k = Meets-if _ _ _ (Meets-raise _ (λ s h. h)) (km k)

  pub Post-state :
      (k : ClientState) (o : Result (Unit {0}) × Running W)
      → Post (λ _. IsIn k) (λ _. IsIn k) o
      → (o.0 ≡ fault) ⊎ (o.1.client.client_state ≡ k)
  Post-state k (ok _, s) h = inr h
  Post-state k (err e, s) h = inr h
  Post-state k (fault, s) h = inl refl

  -- What is in the state `st` and comes back to it, from a state that is `st`.
  Meets-same :
      (st k : ClientState) (m : Exec W (Unit {0}))
      → Meets (IsIn st) m (λ _. IsIn st) (λ _. IsIn st)
      → Meets (λ s. (st ≡ k) × IsIn k s) m (λ _. IsIn k) (λ _. IsIn k)
  Meets-same st k m km = record {
    at = λ s h. subst (λ j. Post (λ _. IsIn j) (λ _. IsIn j) (m s)) h.0 (km.at s (h.1 ∙ sym h.0));
  }

  Restores-require_idle :
      (f : ClientState → Exec W (Unit {0}))
      → ((st : ClientState) → Meets (IsIn st) (f st) (λ _. IsIn st) (λ _. IsIn st))
      → Restores (require_idle >>= f)
  Restores-require_idle f kf k =
      Meets-bind (λ st s. (st ≡ k) × IsIn k s) _ _ (Meets-require_idle k)
        (λ st. Meets-same st k (f st) (kf st))

module _ {ℓ} {W : Type ℓ} (sys : System W) (locks : HasLocks sys)
    (quiet : KeepsState sys.application) where
  pub Restores-publish :
      (topic_name : Option (List ℕ)) (len : ℕ) (params : Option Outgoing)
      → Restores (publish sys topic_name len params)
  unfolding publish
  Restores-publish topic_name len params =
      let busy = connected_publish_in_progress in
      Restores-lift _ _ (λ name. Restores-if _ _ _ (
        Restores-lift _ _ (λ p. Restores-require_idle _ (λ st.
          Meets-in_state sys locks st busy _
            (Keeps-internal_publish sys busy locks.taken quiet name len p)))))

  pub Restores-subscribe :
      (topic_name : Option (List ℕ)) (len : ℕ) (qos : QoS) (handler : Option ℕ) (handler_data : ℕ)
      → Restores (subscribe sys topic_name len qos handler handler_data)
  unfolding subscribe
  Restores-subscribe topic_name len qos handler handler_data =
      let busy = connected_subscribe_in_progress in
      Restores-lift _ _ (λ name. Restores-lift _ _ (λ h. Restores-require_idle _ (λ st.
        Meets-in_state sys locks st busy _
          (Keeps-internal_subscribe sys busy locks.taken quiet name len qos h handler_data))))

  after_change_restores :
      (st : ClientState) (changed : Result (Unit {0})) (m : Exec W (Unit {0}))
      → Keeps (IsIn connected_unsubscribe_in_progress) m
      → Meets
          (IsIn connected_unsubscribe_in_progress)
          (after_change sys st changed m)
          (λ _. IsIn st)
          (λ _. IsIn st)
  after_change_restores st (ok _) m km =
      let busy = connected_unsubscribe_in_progress in
      Meets-bind (λ _. IsIn busy) _ _ (Keeps-attempt_Meets (λ _. IsIn st) m km)
        (λ r.
          Meets-bind (λ _. IsIn st) _ _
            (Meets-attempt-change_state sys locks busy st (λ _. IsIn st))
            (λ back. Keeps-Meets _ (Keeps-lift (first_error r back))))
  after_change_restores st (err e) m km =
      Meets-change_state sys locks connected_unsubscribe_in_progress st (λ _. IsIn st)
  after_change_restores st fault m km = Meets-lift fault (λ s h. tt)

  pub Restores-unsubscribe :
      (topic_filter : Option (List ℕ)) (len : ℕ) → Restores (unsubscribe sys topic_filter len)
  unfolding unsubscribe
  Restores-unsubscribe topic_filter len =
      let busy = connected_unsubscribe_in_progress in
      Restores-lift _ _ (λ name. Restores-require_idle _ (λ st.
        Meets-bind (λ _. IsIn busy) _ _
          (Meets-attempt-change_state sys locks st busy (λ _. IsIn st))
          (λ changed.
            after_change_restores st changed _
              (Keeps-internal_unsubscribe sys busy locks.taken quiet name len))))

  pub Restores-resubscribe : Restores (resubscribe sys)
  unfolding resubscribe
  Restores-resubscribe k =
      let busy = connected_resubscribe_in_progress in
      Meets-bind (λ _. IsIn k) _ _ (Meets-gets _ (λ s h. h))
        (λ connected. Meets-if _ _ _ (Meets-raise _ (λ s h. h)) (
          Meets-bind (λ st s. (st ≡ k) × IsIn k s) _ _ (Meets-gets _ (λ s h. (h, h)))
            (λ st.
              Meets-test (not (state_code connected_idle == state_code st)) _ _
                (λ t. Meets-raise _ (λ s h. h.1))
                (λ t. record {
                  at = λ s h.
                      let e : connected_idle ≡ st =
                        state_code-injective connected_idle st
                          ((==_iff _ _).0 (ground (arith, t))) in
                      (Meets-same connected_idle k _ (
                          Meets-in_state sys locks connected_idle busy _
                            (Keeps-internal_resubscribe sys busy locks.taken quiet))).at
                        s (e ∙ h.0, h.1);
                }))))

-- A call of the API that works in the state of an idle client.
pub data Call : Type 0 where
  publishing : Option (List ℕ) → ℕ → Option Outgoing → Call
  subscribing : Option (List ℕ) → ℕ → QoS → Option ℕ → ℕ → Call
  unsubscribing : Option (List ℕ) → ℕ → Call
  resubscribing : Call

abbrev pub run {ℓ} : {W : Type ℓ} → System W → Call → Exec W (Unit {0})
run sys (publishing topic_name len params) = publish sys topic_name len params
run sys (subscribing topic_name len qos handler handler_data) =
    subscribe sys topic_name len qos handler handler_data
run sys (unsubscribing topic_filter len) = unsubscribe sys topic_filter len
run sys resubscribing = resubscribe sys

-- Calls one after the other, each made whatever code the one before returned.
abbrev pub run_all {ℓ} : {W : Type ℓ} → System W → List Call → Exec W (Unit {0})
run_all sys [] = pure tt
run_all sys (q ∷ calls) = attempt (run sys q) >>= λ r. run_all sys calls

module _ {ℓ} {W : Type ℓ} (sys : System W) (locks : HasLocks sys)
    (quiet : KeepsState sys.application) where
  Restores-run : (q : Call) → Restores (run sys q)
  Restores-run (publishing topic_name len params) =
      Restores-publish sys locks quiet topic_name len params
  Restores-run (subscribing topic_name len qos handler handler_data) =
      Restores-subscribe sys locks quiet topic_name len qos handler handler_data
  Restores-run (unsubscribing topic_filter len) =
      Restores-unsubscribe sys locks quiet topic_filter len
  Restores-run resubscribing = Restores-resubscribe sys locks quiet

  Restores-run_all : (calls : List Call) → Restores (run_all sys calls)
  Restores-run_all [] k = Meets-pure tt (λ s h. h)
  Restores-run_all (q ∷ calls) k =
      Meets-bind (λ _. IsIn k) _ _
        (Meets-attempt (IsIn k) (λ _. IsIn k) (run sys q) (Restores-run q k))
        (λ r. Restores-run_all calls k)

  -- After any sequence of calls of publish, subscribe, unsubscribe and resubscribe, with any
  -- arguments and whatever codes they return, the client is in the state it was in before, unless one
  -- of them made an access outside of a buffer. This holds where every semaphore is had and given
  -- back, and no handler of the application sets the state of the client.
  pub run_all-restores :
      (calls : List Call) (s : Running W)
      → ((run_all sys calls s).0 ≡ fault)
        ⊎ ((run_all sys calls s).1.client.client_state ≡ s.client.client_state)
  run_all-restores calls s =
      Post-state s.client.client_state (run_all sys calls s)
        ((Restores-run_all calls s.client.client_state).at s refl)
