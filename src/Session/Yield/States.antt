-- ===== src/Session/Yield/States.antt =====
-- The states that a yield goes through.
use hornbill_examples.Common.{ℕ, ◌==◌, not, Option, none, some, ◌≡◌, refl, ◌⊎◌, inl, inr}
use hornbill_examples.Errors.{IotError, Result, ok, err, fault, network_disconnected_error}
use hornbill_examples.Timer.{Timer}
use hornbill_examples.Client.{
  Client, ClientState, connected_idle, connected_yield_in_progress, disconnected_error,
  pending_reconnect,
}
use hornbill_examples.Exec.{Running, Exec, pure, modify}
use hornbill_examples.Exec.Keeps.{Keeps, Keeps-gets}
use hornbill_examples.Exec.Meets.{
  Post, Any, Meets, Keeps-Meets, Keeps-attempt_Meets, Meets-Any, Meets-attempt, Meets-bind,
  Meets-if, Meets-pure, Meets-raise, Meets-gets, Meets-lift, Meets-weaken,
}
use hornbill_examples.Session.{System, with_timer, with_old, timer_ms}
use hornbill_examples.Session.Read.{is_error}
use hornbill_examples.Session.Connect.{set_state, close_stack, disconnect}
use hornbill_examples.Session.Yield.{
  is_any, is_ssl_error, ping_expired, start_ping, send_ping, keep_alive, after_read,
  force_client_disconnect, tell, tell_application, handle_disconnect,
}
use hornbill_examples.Session.Connect.Outcome.{Meets-set_state}
use hornbill_examples.Session.Steady.{KeepsState, IsIn, Keeps-send, Keeps-serialize}
use hornbill_examples.Session.Restore.{HasLocks}

-- The end of a lost connection.
abbrev pub IsLost {ℓ} : {W : Type ℓ} → IotError → Running W → Type 0
IsLost e s = (e ≡ network_disconnected_error) × IsIn disconnected_error s

module _ {ℓ} {W : Type ℓ} (sys : System W) where
  Meets-modify-Any : (f : Client → Client) → Meets (Any {W = W}) (modify f) (λ _. Any) IsLost
  unfolding modify
  Meets-modify-Any f = record { at = λ s h. tt }

  Meets-set-IsLost :
      Meets (Any {W = W}) (set_state disconnected_error) (λ _. IsIn disconnected_error) IsLost
  Meets-set-IsLost = Meets-set_state Any disconnected_error IsLost

  Meets-force_client_disconnect : Meets Any (force_client_disconnect sys) (λ _. Any) IsLost
  unfolding force_client_disconnect
  Meets-force_client_disconnect =
      Meets-bind (λ _. IsIn disconnected_error) _ _ Meets-set-IsLost
        (λ _.
          Meets-bind (λ _. Any) _ _ (Meets-attempt Any IsLost (close_stack sys) (Meets-Any _ _))
            (λ r. Meets-pure tt (λ s h. tt)))

  Meets-tell : (o : Option ℕ) (d : ℕ) → Meets (Any {W = W}) (tell sys o d) (λ _. Any) IsLost
  Meets-tell none d = Meets-pure tt (λ s h. tt)
  Meets-tell (some h) d = Meets-modify-Any (sys.on_disconnect h d)

  Meets-tell_application : Meets Any (tell_application sys) (λ _. Any) IsLost
  unfolding tell_application
  Meets-tell_application =
      Meets-bind (λ _. Any) _ _ (Meets-gets _ (λ s h. tt))
        (λ o. Meets-bind (λ _. Any) _ _ (Meets-gets _ (λ s h. tt)) (λ d. Meets-tell o d))

  -- Whatever happens, the client is disconnected by an error, and the code says so.
  pub Meets-handle_disconnect : Meets Any (handle_disconnect sys) (λ _ s. ⊥) IsLost
  unfolding handle_disconnect
  Meets-handle_disconnect =
      Meets-bind (λ _. Any) _ _ (Meets-attempt Any IsLost (disconnect sys) (Meets-Any _ _))
        (λ r.
          Meets-bind (λ _. Any) _ _
            (Meets-if (is_error is_any r) _ _ Meets-force_client_disconnect
              (Meets-pure tt (λ s h. tt)))
            (λ _.
              Meets-bind (λ _. Any) _ _ Meets-tell_application
                (λ _.
                  Meets-bind (λ _. IsIn disconnected_error) _ _ Meets-set-IsLost
                    (λ _. Meets-raise network_disconnected_error (λ s h. (refl, h))))))

-- What yield finds and leaves: the client is connected, and then yielding or idle, or it waits for the
-- next attempt to reconnect.
abbrev pub IsLive {ℓ} : {W : Type ℓ} → Running W → Type 0
IsLive s = IsIn connected_yield_in_progress s ⊎ (IsIn connected_idle s ⊎ IsIn pending_reconnect s)

-- The same, or the connection is lost.
abbrev pub IsKnown {ℓ} : {W : Type ℓ} → Running W → Type 0
IsKnown s = IsIn disconnected_error s ⊎ IsLive s

module _ {ℓ} {W : Type ℓ} (sys : System W) (locks : HasLocks sys)
    (quiet : KeepsState sys.application) (k : ClientState) where
  -- A function that keeps the state, or loses the connection.
  abbrev pub Kept : IotError → Running W → Type 0
  Kept e s = IsIn disconnected_error s ⊎ IsIn k s

  Meets-lost : Meets (IsIn k) (handle_disconnect sys) (λ _. IsIn k) Kept
  Meets-lost = record {
    at = λ s h.
        (Meets-weaken {Q' = λ _. IsIn k} {E' = Kept} (handle_disconnect sys)
            (Meets-handle_disconnect sys) (λ a s f. absurd f) (λ e s f. inl f.1)).at
          s tt;
  }

  Keeps-Kept : {A : Type 0} (m : Exec W A) → Keeps (IsIn k) m → Meets (IsIn k) m (λ _. IsIn k) Kept
  Keeps-Kept m km = Meets-weaken m (Keeps-Meets m km) (λ a s h. h) (λ e s h. inr h)

  Keeps-ping_expired : Keeps (IsIn k) (ping_expired sys)
  unfolding ping_expired
  Keeps-ping_expired = record { at = λ s h. h }

  Keeps-start_ping : Keeps (IsIn k) (start_ping sys)
  unfolding start_ping
  Keeps-start_ping = record { at = λ s h. h }

  Post-old :
      (t : Timer) (o : Result (Unit {0}) × Running W)
      → Post (λ _. IsIn k) Kept o
      → Post (λ _. IsIn k) Kept (with_old sys t o)
  Post-old t (ok _, s) h = h
  Post-old t (err e, s) h = h
  Post-old t (fault, s) h = tt

  Meets-Kept_timer :
      (ms : ℕ) (m : Exec W (Unit {0}))
      → Meets (IsIn k) m (λ _. IsIn k) Kept
      → Meets (IsIn k) (with_timer sys ms m) (λ _. IsIn k) Kept
  unfolding with_timer
  Meets-Kept_timer ms m km = record {
    at = λ s h. Post-old s.timer _ (km.at (record s { timer = timer_ms sys ms s }) h);
  }

  Meets-send_ping : Meets (IsIn k) (send_ping sys) (λ _. IsIn k) Kept
  unfolding send_ping
  Meets-send_ping =
      Meets-bind (λ _. IsIn k) _ _ (Keeps-Kept _ (Keeps-gets _))
        (λ ms. Meets-Kept_timer ms _ (
          Meets-bind (λ _. IsIn k) _ _ (Keeps-Kept _ (Keeps-serialize sys k _))
            (λ n.
              Meets-bind (λ _. IsIn k) _ _ (Keeps-attempt_Meets Kept _ (Keeps-send sys k n))
                (λ r.
                  Meets-if (is_error is_any r) _ _ Meets-lost (Keeps-Kept _ Keeps-start_ping)))))

  Meets-keep_alive : Meets (IsIn k) (keep_alive sys) (λ _. IsIn k) Kept
  unfolding keep_alive
  Meets-keep_alive =
      let kept : Meets (IsIn k) (pure tt) (λ _. IsIn k) Kept = Meets-pure tt (λ s h. h) in
      Meets-bind (λ _. IsIn k) _ _ (Keeps-Kept _ (Keeps-gets _))
        (λ interval. Meets-if (interval == 0) _ _ kept (
          Meets-bind (λ _. IsIn k) _ _ (Keeps-Kept _ Keeps-ping_expired)
            (λ due. Meets-if (not due) _ _ kept (
              Meets-bind (λ _. IsIn k) _ _ (Keeps-Kept _ (Keeps-gets _))
                (λ outstanding. Meets-if outstanding _ _ Meets-lost Meets-send_ping)))))

  pub after_read-Kept :
      (r : Result (Unit {0})) → Meets (IsIn k) (after_read sys r) (λ _. IsIn k) Kept
  after_read-Kept (ok _) = Meets-keep_alive
  after_read-Kept (err e) = Meets-if (is_ssl_error e) _ _ Meets-lost (Meets-raise e (λ s h. inr h))
  after_read-Kept fault = Meets-lift fault (λ s h. tt)
