-- ===== src/Session/Connect/Outcome.antt =====
-- The states that connect, disconnect and attempt_reconnect leave.
use hornbill_examples.Common.{ℕ, true, false, Option, none, some, ◌≡◌, refl}
use hornbill_examples.Errors.{
  IotError, Result, ok, err, fault, network_already_connected_error, network_disconnected_error,
}
use hornbill_examples.Packet.Connect.{ConnectParams}
use hornbill_examples.Client.{
  ClientState, connecting, connected_idle, disconnecting, disconnected_error, disconnected_manually,
  is_client_connected, is_client_state_valid_for_connect, set_connect_params,
}
use hornbill_examples.Exec.{Running, raise, lift, gets, attempt, modify, ◌>>=◌, ◌>>◌}
use hornbill_examples.Exec.Keeps.{Keeps, keeps_rules, Keeps-bind, Keeps-gets}
use hornbill_examples.Exec.Meets.{
  Post, Meets, Keeps-attempt_Meets, Meets-bind, Meets-pure, Meets-raise, Meets-lift,
}
use hornbill_examples.Session.{System, change_state}
use hornbill_examples.Session.Connect.{
  set_keep_alive, set_state, use_params, exchange_connect, internal_connect, close_stack,
  after_connect, connect, disconnected_state, internal_disconnect, disconnect,
}
use hornbill_examples.Session.Steady.{
  KeepsState, IsIn, Keeps-modify, Keeps-outside, Keeps-with_timer, steady_rules,
}
use hornbill_examples.Session.Steady.Reading.{Keeps-wait_for_read}
use hornbill_examples.Session.Restore.{HasLocks, Meets-change_state, Meets-attempt-change_state}

module _ {ℓ} {W : Type ℓ} where
  pub Meets-set_state :
      (P : Running W → Type 0) (st : ClientState) (E : IotError → Running W → Type 0)
      → Meets P (set_state st) (λ _. IsIn st) E
  unfolding set_state modify
  Meets-set_state P st E = record { at = λ s h. refl }

module _ {ℓ} {W : Type ℓ} (sys : System W) (k : ClientState) where
  Keeps-use_params : (params : Option ConnectParams) → Keeps (IsIn {W = W} k) (use_params params)
  unfolding use_params set_connect_params
  Keeps-use_params none = record { at = λ s h. h }
  Keeps-use_params (some p) = record { at = λ s h. h }

  pub Keeps-close_stack : Keeps (IsIn k) (close_stack sys)
  unfolding close_stack
  Keeps-close_stack = search (keeps_rules, steady_rules)

  pub Keeps-internal_disconnect : Keeps (IsIn k) (internal_disconnect sys)
  unfolding internal_disconnect
  Keeps-internal_disconnect = search (keeps_rules, steady_rules, Keeps-close_stack) depth 20

module _ {ℓ} {W : Type ℓ} (sys : System W) (locks : HasLocks sys)
    (quiet : KeepsState sys.application) where
  Keeps-exchange_connect : (k : ClientState) (n : ℕ) → Keeps (IsIn k) (exchange_connect sys n)
  unfolding exchange_connect
  Keeps-exchange_connect k n =
      search (keeps_rules, steady_rules, Keeps-wait_for_read sys k locks.taken quiet) depth 20

  Keeps-set_keep_alive : (k : ClientState) → Keeps (IsIn {W = W} k) (modify set_keep_alive)
  Keeps-set_keep_alive k = Keeps-modify k set_keep_alive (λ c. refl)

  Keeps-internal_connect :
      (k : ClientState) (params : Option ConnectParams)
      → Keeps (IsIn k) (internal_connect sys params)
  unfolding internal_connect
  Keeps-internal_connect k params = Keeps-bind _ _ (Keeps-use_params sys k params) (λ _.
      Keeps-bind _ _ (Keeps-outside sys k _) (λ _. Keeps-bind _ _ (Keeps-gets _) (λ ms.
        Keeps-with_timer sys k ms _ (
          Keeps-bind _ _ (Keeps-set_keep_alive k)
            (λ _. search (keeps_rules, steady_rules, Keeps-exchange_connect k) depth 20)))))

  after_connect_meets :
      (r : Result (Unit {0}))
      → Meets
          (IsIn connecting)
          (after_connect sys r)
          (λ _. IsIn connected_idle)
          (λ _. IsIn disconnected_error)
  after_connect_meets (ok _) =
      Meets-bind (λ _. IsIn connected_idle) _ _
        (Meets-attempt-change_state sys locks connecting connected_idle
          (λ _. IsIn disconnected_error))
        (λ _. Meets-pure tt (λ s h. h))
  after_connect_meets (err e) =
      let failed : IotError → Running W → Type 0 = λ _. IsIn disconnected_error in
      Meets-bind (λ _. IsIn connecting) _ _
        (Keeps-attempt_Meets failed (close_stack sys) (Keeps-close_stack sys connecting))
        (λ _.
          Meets-bind (λ _. IsIn disconnected_error) _ _
            (Meets-attempt-change_state sys locks connecting disconnected_error failed)
            (λ _. Meets-raise e (λ s h. h)))
  after_connect_meets fault = Meets-lift fault (λ s h. tt)

  -- What follows the check of the state.
  connect_from :
      (st : ClientState) (params : Option ConnectParams)
      → Meets
          (IsIn st)
          (do
            attempt (change_state sys st connecting)
            r ← attempt (internal_connect sys params)
            after_connect sys r)
          (λ _. IsIn connected_idle)
          (λ _. IsIn disconnected_error)
  connect_from st params =
      let failed : IotError → Running W → Type 0 = λ _. IsIn disconnected_error in
      Meets-bind (λ _. IsIn connecting) _ _
        (Meets-attempt-change_state sys locks st connecting failed)
        (λ _.
          Meets-bind (λ _. IsIn connecting) _ _
            (Keeps-attempt_Meets failed _ (Keeps-internal_connect connecting params))
            after_connect_meets)

  pub connect_meets :
      (params : Option ConnectParams) (s : Running W)
      → is_client_state_valid_for_connect s.client.client_state ≡ true
      → Post (λ _. IsIn connected_idle) (λ _. IsIn disconnected_error) (connect sys params s)
  unfolding connect gets ◌>>=◌
  connect_meets params s v = rw v ((connect_from s.client.client_state params).at s refl)

module _ {ℓ} {W : Type ℓ} (sys : System W) where
  pub connect_refused :
      (params : Option ConnectParams) (s : Running W)
      → is_client_state_valid_for_connect s.client.client_state ≡ false
      → connect sys params s ≡ (err network_already_connected_error, s)
  unfolding connect gets ◌>>=◌ raise
  connect_refused params s v = rw v refl

  pub disconnect_refused :
      (s : Running W)
      → is_client_connected (some s.client) ≡ false
      → disconnect sys s ≡ (err network_disconnected_error, s)
  unfolding disconnect gets ◌>>=◌ raise
  disconnect_refused s v = rw v refl

module _ {ℓ} {W : Type ℓ} (sys : System W) (locks : HasLocks sys) where
  -- After the state is set, the code is passed on.
  disconnect_result :
      (st : ClientState) (r : Result (Unit {0}))
      → Meets
          (IsIn {W = W} disconnecting)
          (set_state (disconnected_state st r) >>= λ _. lift r)
          (λ _. IsIn disconnected_manually)
          (λ _. IsIn st)
  disconnect_result st (ok _) =
      Meets-bind (λ _. IsIn disconnected_manually) _ _
        (Meets-set_state (IsIn disconnecting) disconnected_manually (λ _. IsIn st))
        (λ _. Meets-lift (ok tt) (λ s h. h))
  disconnect_result st (err e) =
      Meets-bind (λ _. IsIn st) _ _ (Meets-set_state (IsIn disconnecting) st (λ _. IsIn st))
        (λ _. Meets-lift (err e) (λ s h. h))
  disconnect_result st fault =
      Meets-bind (λ _. IsIn st) _ _ (Meets-set_state (IsIn disconnecting) st (λ _. IsIn st))
        (λ _. Meets-lift fault (λ s h. tt))

  disconnect_from :
      (st : ClientState)
      → Meets
          (IsIn st)
          (do
            change_state sys st disconnecting
            r ← attempt (internal_disconnect sys)
            set_state (disconnected_state st r)
            lift r)
          (λ _. IsIn disconnected_manually)
          (λ _. IsIn st)
  disconnect_from st =
      Meets-bind (λ _. IsIn disconnecting) _ _
        (Meets-change_state sys locks st disconnecting (λ _. IsIn st))
        (λ _.
          Meets-bind (λ _. IsIn disconnecting) _ _
            (Keeps-attempt_Meets (λ _. IsIn st) _ (Keeps-internal_disconnect sys disconnecting))
            (disconnect_result st))

  pub disconnect_meets :
      (s : Running W)
      → is_client_connected (some s.client) ≡ true
      → Post (λ _. IsIn disconnected_manually) (λ _. IsIn s.client.client_state) (disconnect sys s)
  unfolding disconnect gets ◌>>=◌
  disconnect_meets s v = rw v ((disconnect_from s.client.client_state).at s refl)
