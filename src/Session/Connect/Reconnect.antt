-- ===== src/Session/Connect/Reconnect.antt =====
-- What attempt_reconnect returns, and the state that goes with it.
use hornbill_examples.Common.{
  ◌==◌, ==_iff, if◌then◌else◌, true, false, none, ◌≡◌, refl, ◌∙◌, sym, ap, arith, ◌⊎◌, inl, inr,
}
use hornbill_examples.Errors.{
  IotError, Result, ok, err, fault, network_attempting_reconnect, network_reconnected,
}
use hornbill_examples.Client.{
  ClientState, connected_idle, disconnected_error, pending_reconnect, is_client_connected,
  is_connected_state, is_client_state_valid_for_connect,
}
use hornbill_examples.Client.State.{state_code}
use hornbill_examples.Client.State.CompareAndSet.{state_code-injective}
use hornbill_examples.Exec.{Running, gets, continue, attempt, ◌>>=◌, ◌>>◌}
use hornbill_examples.Exec.Meets.{
  Post, Meets, Meets-attempt, Meets-bind, Meets-raise, Meets-gets, Meets-test,
}
use hornbill_examples.Session.{System}
use hornbill_examples.Session.Connect.{connect, keep_trying, reconnected, attempt_reconnect}
use hornbill_examples.Session.Subscribe.{resubscribe}
use hornbill_examples.Session.Connect.Outcome.{connect_meets}
use hornbill_examples.Session.Steady.{KeepsState, IsIn}
use hornbill_examples.Session.Restore.{HasLocks, Meets-attempt-change_state}
use hornbill_examples.Session.Restore.Calls.{Restores-resubscribe}

-- The state that an attempt to reconnect leaves with a code: an attempt that gives up for now leaves
-- the client waiting for the next one, and any other code comes with a connection.
abbrev pub Reconnects {ℓ} : {W : Type ℓ} → IotError → Running W → Type 0
Reconnects e s =
    ((e ≡ network_attempting_reconnect) × IsIn pending_reconnect s) ⊎ IsIn connected_idle s

-- The client is connected and idle, or it failed to connect.
abbrev Tried {ℓ} : {W : Type ℓ} → Running W → Type 0
Tried s = IsIn connected_idle s ⊎ IsIn disconnected_error s

abbrev pub IsReady {ℓ} : {W : Type ℓ} → Running W → Type 0
IsReady s = is_client_state_valid_for_connect s.client.client_state ≡ true

Post-Tried {ℓ} :
    {W : Type ℓ} (o : Result (Unit {0}) × Running W)
    → Post (λ _. IsIn connected_idle) (λ _. IsIn disconnected_error) o
    → Post (λ _. Tried) (λ _. Tried) o
Post-Tried (ok _, s) h = inl h
Post-Tried (err e, s) h = inr h
Post-Tried (fault, s) h = tt

Post-resubscribed {ℓ} :
    {W : Type ℓ} (o : Result (Unit {0}) × Running W)
    → Post (λ _. IsIn connected_idle) (λ _. IsIn connected_idle) o
    → Post (λ _. IsIn connected_idle) Reconnects o
Post-resubscribed (ok _, s) h = h
Post-resubscribed (err e, s) h = inr h
Post-resubscribed (fault, s) h = tt

module _ {ℓ} {W : Type ℓ} (sys : System W) (locks : HasLocks sys)
    (quiet : KeepsState sys.application) where
  Meets-reconnected : Meets (IsIn connected_idle) (reconnected sys) (λ _ s. ⊥) Reconnects
  unfolding reconnected
  Meets-reconnected =
      Meets-bind (λ _. IsIn connected_idle) _ _
        (record {
          at = λ s h.
              Post-resubscribed (resubscribe sys s)
                ((Restores-resubscribe sys locks quiet connected_idle).at s h);
        })
        (λ _. Meets-raise network_reconnected (λ s h. inr h))

  Meets-keep_trying : Meets (IsIn disconnected_error) (keep_trying sys) (λ _ s. ⊥) Reconnects
  unfolding keep_trying
  Meets-keep_trying =
      Meets-bind (λ _. IsIn pending_reconnect) _ _
        (Meets-attempt-change_state sys locks disconnected_error pending_reconnect Reconnects)
        (λ _. Meets-raise network_attempting_reconnect (λ s h. inl (refl, h)))

  -- The test of the state tells whether the connect succeeded.
  after-Tried :
      (st : ClientState)
      → Meets
          (λ s. (st ≡ s.client.client_state) × Tried s)
          (if state_code connected_idle == state_code st then reconnected sys else keep_trying sys)
          (λ _ s. ⊥)
          Reconnects
  after-Tried st =
      Meets-test (state_code connected_idle == state_code st) _ _
        (λ t. record {
          at = λ s h.
              let e = state_code-injective connected_idle st ((==_iff _ _).0 t) in
              Meets-reconnected.at s (sym (e ∙ h.0));
        })
        (λ t. record {
          at = λ s h. elim h.1 [
            | inl i ↦ absurd (ground (arith, t, h.0, i, ap state_code (h.0 ∙ i)))
            | inr d ↦ Meets-keep_trying.at s d
          ];
        })

  Meets-attempt-connect : Meets IsReady (attempt (connect sys none)) (λ _. Tried) Reconnects
  Meets-attempt-connect = Meets-attempt Tried Reconnects (connect sys none) (record {
    at = λ s h. Post-Tried (connect sys none s) (connect_meets sys locks quiet none s h);
  })

  reconnect_from :
      Meets IsReady
        (do
          attempt (connect sys none)
          st ← gets (λ c. c.client_state)
          if state_code connected_idle == state_code st then reconnected sys else keep_trying sys)
        (λ _ s. ⊥)
        Reconnects
  reconnect_from =
      Meets-bind (λ _. Tried) _ _ Meets-attempt-connect
        (λ _.
          Meets-bind (λ st s. (st ≡ s.client.client_state) × Tried s) _ _
            (Meets-gets _ (λ s h. (refl, h))) after-Tried)

valid_disconnected :
    (st : ClientState) → is_client_state_valid_for_connect st ≡ true → is_connected_state st ≡ false
unfolding is_client_state_valid_for_connect
valid_disconnected st v = ground arith

module _ {ℓ} {W : Type ℓ} (sys : System W) (locks : HasLocks sys)
    (quiet : KeepsState sys.application) where
  pub attempt_reconnect_meets :
      (s : Running W) → IsReady s → Post (λ _ s. ⊥) Reconnects (attempt_reconnect sys s)
  unfolding attempt_reconnect gets ◌>>=◌ is_client_connected
  attempt_reconnect_meets s v =
      rw (valid_disconnected s.client.client_state v) ((reconnect_from sys locks quiet).at s v)

-- The code of an attempt whose connect succeeded, for the code of the resubscribe.
abbrev pub resubscribed_code : Result (Unit {0}) → Result (Unit {0})
resubscribed_code (ok _) = err network_reconnected
resubscribed_code (err e) = err e
resubscribed_code fault = fault

module _ {ℓ} {W : Type ℓ} (sys : System W) where
  -- What an attempt comes to, for what its connect came to.
  abbrev pub AfterConnect : Result (Unit {0}) × Running W → Result (Unit {0}) × Running W → Type 0
  AfterConnect (ok _, s) o =
      (o.0 ≡ resubscribed_code (resubscribe sys s).0) × ((o.0 ≡ fault) ⊎ IsIn connected_idle o.1)
  AfterConnect (err e, s) o = (o.0 ≡ err network_attempting_reconnect) × IsIn pending_reconnect o.1
  AfterConnect (fault, s) o = o.0 ≡ fault

module _ {ℓ} {W : Type ℓ} (sys : System W) (locks : HasLocks sys)
    (quiet : KeepsState sys.application) where
  abbrev announced : Result (Unit {0}) × Running W → Result (Unit {0}) × Running W
  announced (r, s) = continue r (λ _ t. (err network_reconnected, t)) s

  abbrev after_connect : Running W → Result (Unit {0}) × Running W
  after_connect s =
      (if state_code connected_idle == state_code s.client.client_state
          then reconnected sys
          else keep_trying sys)
        s

  abbrev after_attempt : Result (Unit {0}) × Running W → Result (Unit {0}) × Running W
  after_attempt (ok _, s) = after_connect s
  after_attempt (err e, s) = after_connect s
  after_attempt (fault, s) = (fault, s)
