-- ===== src/Session/Connect/Lifecycle.antt =====
-- What connect and disconnect return, and the state that goes with it.
use hornbill_examples.Common.{true, false, Bool-cases, Option, some, ◌≡◌, refl, ◌⊎◌, inl, inr}
use hornbill_examples.Errors.{
  IotError, Result, ok, err, fault, network_already_connected_error, network_disconnected_error,
}
use hornbill_examples.Packet.Connect.{ConnectParams}
use hornbill_examples.Client.{
  ClientState, connected_idle, disconnected_error, disconnected_manually, is_client_connected,
  is_client_state_valid_for_connect,
}
use hornbill_examples.Exec.{Running}
use hornbill_examples.Exec.Meets.{Post}
use hornbill_examples.Session.{System}
use hornbill_examples.Session.Connect.{connect, disconnect}
use hornbill_examples.Session.Connect.Outcome.{
  connect_meets, connect_refused, disconnect_meets, disconnect_refused,
}
use hornbill_examples.Session.Steady.{KeepsState, IsIn}
use hornbill_examples.Session.Restore.{HasLocks}

-- SUCCESS goes with one state, and every error with another.
abbrev pub Ends {ℓ} :
    {W : Type ℓ} → ClientState → ClientState → Result (Unit {0}) × Running W → Type 0
Ends succeeded failed (r, s) =
    (r ≡ fault)
    ⊎ (((r ≡ ok tt) × (s.client.client_state ≡ succeeded))
        ⊎ ((e : IotError) × ((r ≡ err e) × (s.client.client_state ≡ failed))))

Post-Ends {ℓ} :
    {W : Type ℓ} (succeeded failed : ClientState) (o : Result (Unit {0}) × Running W)
    → Post (λ _. IsIn succeeded) (λ _. IsIn failed) o
    → Ends succeeded failed o
Post-Ends succeeded failed (ok _, s) h = inr (inl (refl, h))
Post-Ends succeeded failed (err e, s) h = inr (inr (e, (refl, h)))
Post-Ends succeeded failed (fault, s) h = inl refl

module _ {ℓ} {W : Type ℓ} (sys : System W) (locks : HasLocks sys)
    (quiet : KeepsState sys.application) where
  -- A connect in a state that does not allow for it changes nothing and returns
  -- NETWORK_ALREADY_CONNECTED_ERROR. Any other returns SUCCESS, and the client is connected and idle,
  -- or an error, and it is disconnected by an error, unless an access outside of a buffer is made.
  -- This holds where every semaphore is had and given back, and no handler of the application sets
  -- the state of the client.
  pub connect_lem :
      (params : Option ConnectParams) (s : Running W)
      → ((is_client_state_valid_for_connect s.client.client_state ≡ false)
          × (connect sys params s ≡ (err network_already_connected_error, s)))
        ⊎ ((is_client_state_valid_for_connect s.client.client_state ≡ true)
            × Ends connected_idle disconnected_error (connect sys params s))
  connect_lem params s =
      elim (Bool-cases (is_client_state_valid_for_connect s.client.client_state)) [
        | inl v ↦ inr (v, Post-Ends _ _ _ (connect_meets sys locks quiet params s v))
        | inr v ↦ inl (v, connect_refused sys params s v)
      ]

module _ {ℓ} {W : Type ℓ} (sys : System W) (locks : HasLocks sys) where
  -- A disconnect of a client that is not connected changes nothing and returns
  -- NETWORK_DISCONNECTED_ERROR. Any other returns SUCCESS, and the client is disconnected manually,
  -- or an error, and it is in the state from before, unless an access outside of a buffer is made.
  -- This holds where every semaphore is had and given back.
  pub disconnect_lem :
      (s : Running W)
      → ((is_client_connected (some s.client) ≡ false)
          × (disconnect sys s ≡ (err network_disconnected_error, s)))
        ⊎ ((is_client_connected (some s.client) ≡ true)
            × Ends disconnected_manually s.client.client_state (disconnect sys s))
  disconnect_lem s = elim (Bool-cases (is_client_connected (some s.client))) [
    | inl v ↦ inr (v, Post-Ends _ _ _ (disconnect_meets sys locks s v))
    | inr v ↦ inl (v, disconnect_refused sys s v)
  ]
