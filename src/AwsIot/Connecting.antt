-- ===== src/AwsIot/Connecting.antt =====
-- What AWS_IOT::connect returns, and that it comes back once an attempt succeeds.
use hornbill_examples.Common.{
  ℕ, zero, suc, Bool-cases, ltb, List, some, length, ◌<◌, ◌≡◌, refl, arith, ◌⊎◌, inl, inr,
}
use hornbill_examples.Errors.{IotError, Result, ok, err, fault}
use hornbill_examples.Packet.Connect.{ConnectParams}
use hornbill_examples.Client.{
  Client, connected_idle, initialized, disconnected_error, is_client_state_valid_for_connect,
}
use hornbill_examples.Client.State.{Outcome}
use hornbill_examples.Client.Init.{InitParams, InitAnswers, init}
use hornbill_examples.Exec.{Running, Exec, pure, lift, attempt, continue, ◌>>=◌, ◌>>◌}
use hornbill_examples.Exec.Meets.{Post, Told, Meets, Meets-bind, Meets-pure, Meets-lift, Meets-Told}
use hornbill_examples.Session.Connect.{connect}
use hornbill_examples.Session.Connect.Outcome.{connect_meets}
use hornbill_examples.Session.Connect.Reconnect.{IsReady}
use hornbill_examples.Session.Steady.{KeepsState, IsIn}
use hornbill_examples.Session.Restore.{HasLocks}
use hornbill_examples.AwsIot.{
  Platform, host_address_size, set_up, connect_params, init_params, init_client, retry,
  connect_loop, create_task, class_connect,
}

module _ {ℓ} {W : Type ℓ} (board : Platform W) (params : ConnectParams) where
  -- A number of attempts to connect that fail, one after the other.
  abbrev pub Fails : ℕ → Running W → Running W → Type ℓ
  Fails zero s t = s ≡ t
  Fails (suc n) s t =
      (e : IotError) × (between : Running W) × (connect board.system (some params) s
        ≡ (err e, between))
      × Fails n between t

  -- The loop of AWS_IOT::connect goes on after every error, and ends with the first attempt that
  -- returns SUCCESS, with SUCCESS and in the state that this attempt leaves, where the model gives it
  -- more attempts than fail.
  pub connect_loop-retries :
      (attempts failures : ℕ) (s t u : Running W)
      → failures < attempts
      → Fails failures s t
      → connect board.system (some params) t ≡ (ok tt, u)
      → connect_loop board attempts params s ≡ (ok tt, u)
  unfolding connect_loop ◌>>=◌ attempt pure
  connect_loop-retries zero failures s t u h fails done = elim h [ ]
  connect_loop-retries (suc a) zero s t u h same done = rw same (rw done refl)
  connect_loop-retries (suc a) (suc n) s t u h (e, between, failed, rest) done =
      rw failed (connect_loop-retries a n between t u (omega arith) rest done)

-- What a run of the loop leaves: a connection, or a fault.
Post-connected {ℓ} :
    {W : Type ℓ} (o : Result (Unit {0}) × Running W)
    → Post (λ _. IsIn connected_idle) (λ e s. ⊥) o
    → (o.0 ≡ fault) ⊎ ((o.0 ≡ ok tt) × IsIn connected_idle o.1)
Post-connected (ok _, s) h = inr (refl, h)
Post-connected (err e, s) h = absurd h
Post-connected (fault, s) h = inl refl

module _ {ℓ} {W : Type ℓ} (board : Platform W) (locks : HasLocks board.system)
    (quiet : KeepsState board.system.application) where
  -- After a failed attempt the client is in a state that allows for the next.
  Meets-attempt-connect :
      (params : ConnectParams)
      → Meets IsReady
          (attempt (connect board.system (some params)))
          (Told (λ _. IsIn connected_idle) (λ _. IsIn disconnected_error))
          (λ e s. ⊥)
  Meets-attempt-connect params =
      Meets-Told (λ e s. ⊥) (connect board.system (some params))
        (record { at = λ s v. connect_meets board.system locks quiet (some params) s v })

  disconnected-IsReady : (s : Running W) → IsIn disconnected_error s → IsReady s
  unfolding is_client_state_valid_for_connect
  disconnected-IsReady s i = rw i refl

  after_attempt :
      (rest : Exec W (Unit {0}))
      → Meets IsReady rest (λ _. IsIn connected_idle) (λ e s. ⊥)
      → (r : Result (Unit {0}))
      → Meets
          (Told (λ _. IsIn connected_idle) (λ _. IsIn disconnected_error) r)
          (retry board rest r)
          (λ _. IsIn connected_idle)
          (λ e s. ⊥)
  after_attempt rest m (ok _) = Meets-pure tt (λ s h. h)
  after_attempt rest m (err e) = record { at = λ s h. m.at s (disconnected-IsReady s h) }
  after_attempt rest m fault = Meets-lift fault (λ s h. tt)

  Meets-connect_loop :
      (attempts : ℕ) (params : ConnectParams)
      → Meets IsReady (connect_loop board attempts params) (λ _. IsIn connected_idle) (λ e s. ⊥)
  unfolding connect_loop
  Meets-connect_loop zero params = Meets-lift fault (λ s h. tt)
  Meets-connect_loop (suc n) params =
      Meets-bind (Told (λ _. IsIn connected_idle) (λ _. IsIn disconnected_error)) _ _
        (Meets-attempt-connect params)
        (after_attempt (connect_loop board n params) (Meets-connect_loop n params))

  -- What follows the initialisation.
  connect_rest : (attempts : ℕ) (params : ConnectParams) → Exec W (Unit {0})
  connect_rest attempts params = do connect_loop board attempts params; create_task board

  Meets-create_task :
      Meets (IsIn connected_idle) (create_task board) (λ _. IsIn connected_idle) (λ e s. ⊥)
  unfolding create_task
  Meets-create_task = record { at = λ s h. h }

  Meets-connect_rest :
      (attempts : ℕ) (params : ConnectParams)
      → Meets IsReady (connect_rest attempts params) (λ _. IsIn connected_idle) (λ e s. ⊥)
  unfolding connect_rest
  Meets-connect_rest attempts params =
      Meets-bind (λ _. IsIn connected_idle) _ _ (Meets-connect_loop attempts params)
        (λ _. Meets-create_task)

init-initialized :
    (p : InitParams) (a : InitAnswers) (c : Client)
    → (init p a c).0 ≡ ok tt
    → (init p a c).1.client_state ≡ initialized
unfolding init
init-initialized p a c h = ground arith

-- How AWS_IOT::connect ends, after the initialisation came to `o`: the connection is there, or it is
-- the error of the initialisation, and nothing was done outside of the client.
abbrev pub Ended {ℓ} : {W : Type ℓ} → Outcome → Running W → Result (Unit {0}) × Running W → Type ℓ
Ended o before (r, after) =
    (r ≡ fault)
    ⊎ (((r ≡ ok tt) × IsIn connected_idle after)
        ⊎ ((e : IotError) × (r ≡ err e) × (o.0 ≡ err e) × (after.world ≡ before.world)))

module _ {ℓ} {W : Type ℓ} (board : Platform W) (locks : HasLocks board.system)
    (quiet : KeepsState board.system.application) where
  ended_connected :
      (o : Outcome) (before : Running W) (run : Result (Unit {0}) × Running W)
      → (run.0 ≡ fault) ⊎ ((run.0 ≡ ok tt) × IsIn connected_idle run.1)
      → Ended o before run
  ended_connected o before run (inl f) = inl f
  ended_connected o before run (inr h) = inr (inl h)

  connected_from :
      (attempts : ℕ) (params : ConnectParams) (o : Outcome) (s : Running W)
      → (o.0 ≡ ok tt → o.1.client_state ≡ initialized)
      → let (r, s') = set_up o s in
        Ended o s (continue r (λ _. connect_rest board locks quiet attempts params) s')
  unfolding is_client_state_valid_for_connect
  connected_from attempts params (ok _, c) s h =
      let s' : Running W = record s { client = c } in
      ended_connected (ok tt, c) s (connect_rest board locks quiet attempts params s')
        (Post-connected _
          ((Meets-connect_rest board locks quiet attempts params).at s' (rw (h refl) refl)))
  connected_from attempts params (err e, c) s h = inr (inr (e, refl, refl, refl))
  connected_from attempts params (fault, c) s h = inl refl

  -- AWS_IOT::connect returns SUCCESS, and the client is connected and idle, or the error of
  -- aws_iot_mqtt_init, before anything is done outside of the client, and never an error of a connect,
  -- unless an access outside of a buffer is made or the attempts that the model gives it run out. This
  -- holds where every semaphore is had and given back, and no handler of the application sets the
  -- state of the client.
  pub class_connect_lem :
      (attempts : ℕ) (host_address client_id : List ℕ) (answers : InitAnswers) (s : Running W)
      → Ended
          (init (init_params board host_address) answers s.client)
          s
          (class_connect board attempts host_address client_id answers s)
  unfolding class_connect init_client connect_rest ◌>>=◌ lift
  class_connect_lem attempts host_address client_id answers s =
      elim (Bool-cases (ltb (length host_address) host_address_size)) [
        | inl t ↦ rw t (
            connected_from attempts (connect_params client_id)
              (init (init_params board host_address) answers s.client) s
              (init-initialized (init_params board host_address) answers s.client))
        | inr t ↦ rw t (inl refl)
      ]
