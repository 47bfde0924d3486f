-- ===== src/Session/Yield/Outcome.antt =====
-- What yield returns, and the state that goes with it.
use hornbill_examples.Common.{
  ℕ, zero, suc, ◌==◌, ==_iff, not, Bool, true, false, ◌≡◌, refl, ◌∙◌, sym, ap, arith, ◌⊎◌, inl, inr,
}
use hornbill_examples.Errors.{
  IotError, Result, ok, err, fault, network_disconnected_error, network_attempting_reconnect,
}
use hornbill_examples.Timer.{Timer}
use hornbill_examples.Client.{
  ClientState, connected_idle, connected_yield_in_progress, disconnected_error,
  disconnected_manually, pending_reconnect,
}
use hornbill_examples.Client.State.{state_code}
use hornbill_examples.Client.State.CompareAndSet.{state_code-injective}
use hornbill_examples.Exec.{Running, Exec, lift, attempt}
use hornbill_examples.Exec.Meets.{
  Post, Told, Meets, Keeps-Meets, Meets-attempt, Meets-bind, Meets-if, Meets-test, Meets-pure,
  Meets-raise, Meets-gets, Meets-lift, Meets-Told, Meets-weaken,
}
use hornbill_examples.Session.{System, change_state, with_timer, with_old, timer_ms}
use hornbill_examples.Session.Yield.{
  Round, is_not_connected, connected_round, yield_round, after_test, after_round, yield_loop,
  internal_yield, start_yield, end_yield, yield,
}
use hornbill_examples.Session.Yield.States.{IsLive, IsKnown}
use hornbill_examples.Session.Yield.Rounds.{Left, Known, Meets-connected_round}
use hornbill_examples.Session.Steady.{KeepsState, IsIn}
use hornbill_examples.Session.Restore.{HasLocks, Meets-change, Meets-change_state}
use hornbill_examples.Session.Yield.Loop.{Meets-pending_round, Keeps-IsLive_expired}

module _ {ℓ} {W : Type ℓ} (sys : System W) (locks : HasLocks sys)
    (quiet : KeepsState sys.application) where
  -- A round behind the test of the state.
  round_from :
      (st : ClientState) (s : Running W)
      → st ≡ s.client.client_state
      → IsLive s
      → (state_code pending_reconnect == state_code st) ≡ false
      → Post Left Known (connected_round sys s)
  round_from st s e h t = elim h [
    | inl y ↦
        (Meets-connected_round sys locks quiet connected_yield_in_progress (λ s' i. inl i)).at s y
    | inr (inl i) ↦
        (Meets-connected_round sys locks quiet connected_idle (λ s' j. inr (inl j))).at s i
    | inr (inr p) ↦ absurd (ground (arith, t, ap state_code (e ∙ p)))
  ]

  Meets-yield_round : Meets IsLive (yield_round sys) Left Known
  unfolding yield_round
  Meets-yield_round =
      Meets-bind (λ st s. (st ≡ s.client.client_state) × IsLive s) _ _
        (Meets-gets _ (λ s h. (refl, h)))
        (λ st.
          Meets-test (state_code pending_reconnect == state_code st) _ _
            (λ t. record {
              at = λ s h.
                  let e = state_code-injective pending_reconnect st ((==_iff _ _).0 t) in
                  (Meets-pending_round sys locks quiet).at s (sym (e ∙ h.0));
            })
            (λ t. record { at = λ s h. round_from st s h.0 h.1 t }))

  -- A known state, with any code.
  abbrev Ended : Exec W (Unit {0}) → (Running W → Type 0) → Type ℓ
  Ended m P = Meets P m (λ _. IsKnown) Known

  Meets-lift-IsKnown : (rc : Result (Unit {0})) → Ended (lift rc) IsKnown
  Meets-lift-IsKnown (ok _) = Meets-lift (ok tt) (λ s h. h)
  Meets-lift-IsKnown (err e) = Meets-lift (err e) (λ s h. h)
  Meets-lift-IsKnown fault = Meets-lift fault (λ s h. tt)

  IsLive-ended : (m : Exec W (Unit {0})) → Ended m IsKnown → Ended m IsLive
  IsLive-ended m k = record { at = λ s h. k.at s (inr h) }

  after_test_ended :
      (rest : Exec W (Unit {0})) (rc : Result (Unit {0})) (b : Bool)
      → Ended rest IsLive
      → Ended (after_test sys rest rc b) IsLive
  after_test_ended rest rc true k = IsLive-ended _ (Meets-lift-IsKnown rc)
  after_test_ended rest rc false k = k

  after_round_ended :
      (rest : Exec W (Unit {0})) (round : Round)
      → Ended rest IsLive
      → Ended (after_round sys rest round) (Left round)
  after_round_ended rest (rc, false) k = Meets-lift-IsKnown rc
  after_round_ended rest (rc, true) k =
      Meets-bind (λ _. IsLive) _ _
        (Meets-weaken _ (Keeps-Meets _ (Keeps-IsLive_expired sys)) (λ a s h. h) (λ e s h. inr h))
        (λ b. after_test_ended rest rc b k)

  Meets-yield_loop : (rounds : ℕ) → Ended (yield_loop sys rounds) IsLive
  unfolding yield_loop
  Meets-yield_loop zero = Meets-lift fault (λ s h. tt)
  Meets-yield_loop (suc rounds) =
      Meets-bind Left _ _ Meets-yield_round
        (λ round. after_round_ended (yield_loop sys rounds) round (Meets-yield_loop rounds))

  Post-old :
      (t : Timer) (o : Result (Unit {0}) × Running W)
      → Post (λ _. IsKnown) Known o
      → Post (λ _. IsKnown) Known (with_old sys t o)
  Post-old t (ok _, s) h = h
  Post-old t (err e, s) h = h
  Post-old t (fault, s) h = tt

  Meets-internal_yield : (timeout_ms : ℕ) → Ended (internal_yield sys timeout_ms) IsLive
  unfolding internal_yield with_timer
  Meets-internal_yield timeout_ms = record {
    at = λ s h.
        Post-old s.timer _
          ((Meets-yield_loop sys.rounds).at (record s { timer = timer_ms sys timeout_ms s }) h);
  }

-- A client that is idle, or waits for the next attempt to reconnect.
abbrev pub IsWaiting {ℓ} : {W : Type ℓ} → Running W → Type 0
IsWaiting s = IsIn connected_idle s ⊎ IsIn pending_reconnect s

-- A client that no yield is in progress on.
abbrev pub IsSettled {ℓ} : {W : Type ℓ} → Running W → Type 0
IsSettled s = IsIn disconnected_error s ⊎ (IsIn connected_idle s ⊎ IsIn pending_reconnect s)

-- The state that an error leaves: only with the two codes of a lost connection may the client still
-- be in the state of the yield.
abbrev pub YieldEnds {ℓ} : {W : Type ℓ} → IotError → Running W → Type 0
YieldEnds e s =
    IsSettled s
    ⊎ (((e ≡ network_disconnected_error) ⊎ (e ≡ network_attempting_reconnect)) × IsKnown s)

not_connected_code :
    (e : IotError)
    → is_not_connected e ≡ true
    → (e ≡ network_disconnected_error) ⊎ (e ≡ network_attempting_reconnect)
not_connected_code network_disconnected_error t = inl refl
not_connected_code network_attempting_reconnect t = inr refl
not_connected_code other t = absurd (ground (arith, t))

module _ {ℓ} {W : Type ℓ} (sys : System W) (locks : HasLocks sys) where
  -- SUCCESS tells that the client is idle.
  abbrev Finished : Exec W (Unit {0}) → (Running W → Type 0) → Type ℓ
  Finished m P = Meets P m (λ _. IsIn connected_idle) YieldEnds

  -- The change back to idle, which is made from a yield in progress only.
  Meets-back :
      Meets IsKnown
        (change_state sys connected_yield_in_progress connected_idle)
        (λ _. IsIn connected_idle)
        (λ _. IsSettled)
  Meets-back = record {
    at = λ s h.
        let from : (k : ClientState)
            → ((t : Running W) → IsIn k t → IsSettled t)
            → Meets (IsIn k) (change_state sys connected_yield_in_progress connected_idle)
                (λ _. IsIn connected_idle) (λ _. IsSettled) =
          λ k l.
            Meets-weaken _ (Meets-change sys locks k connected_yield_in_progress connected_idle)
              (λ a t i. i) (λ e t i. l t i) in
        elim h [
          | inl d ↦ (from disconnected_error (λ t i. inl i)).at s d
          | inr (inl y) ↦
              (Meets-change_state sys locks connected_yield_in_progress connected_idle
                  (λ _. IsSettled)).at
                s y
          | inr (inr (inl i)) ↦ (from connected_idle (λ t j. inr (inl j))).at s i
          | inr (inr (inr p)) ↦ (from pending_reconnect (λ t i. inr (inr i))).at s p
        ];
  }

  Settled-back :
      Meets IsKnown
        (attempt (change_state sys connected_yield_in_progress connected_idle))
        (λ _. IsSettled)
        YieldEnds
  Settled-back =
      Meets-attempt IsSettled YieldEnds _
        (Meets-weaken _ Meets-back (λ a s h. inr (inl h)) (λ e s h. h))

  back_finished :
      (back : Result (Unit {0}))
      → Meets
          (Told (λ _. IsIn connected_idle) (λ _. IsSettled) back)
          (lift {W = W} back)
          (λ _. IsIn connected_idle)
          YieldEnds
  back_finished (ok _) = Meets-lift (ok tt) (λ s h. h)
  back_finished (err e) = Meets-lift (err e) (λ s h. inl h)
  back_finished fault = Meets-lift fault (λ s h. tt)

  Meets-end_yield : (rc : Result (Unit {0})) → Finished (end_yield sys rc) IsKnown
  Meets-end_yield (ok _) =
      Meets-bind (Told (λ _. IsIn connected_idle) (λ _. IsSettled)) _ _
        (Meets-Told YieldEnds _ Meets-back) back_finished
  Meets-end_yield (err e) =
      Meets-test (is_not_connected e) _ _
        (λ t. Meets-lift (err e) (λ s h. inr (not_connected_code e t, h)))
        (λ _.
          Meets-bind (λ _. IsSettled) _ _ Settled-back (λ back. Meets-lift (err e) (λ s h. inl h)))
  Meets-end_yield fault =
      Meets-bind (λ _. IsSettled) _ _ Settled-back (λ back. Meets-lift fault (λ s h. tt))

  waiting-YieldEnds : (s : Running W) (e : IotError) → IsWaiting s → YieldEnds e s
  waiting-YieldEnds s e h = inl (inr h)

  Meets-begin :
      Meets IsWaiting
        (change_state sys connected_idle connected_yield_in_progress)
        (λ _. IsLive)
        YieldEnds
  Meets-begin = record {
    at = λ s h.
        let begun : (k : ClientState)
            → ((e : IotError) (t : Running W) → IsIn k t → YieldEnds e t)
            → Meets (IsIn k) (change_state sys connected_idle connected_yield_in_progress)
                (λ _. IsLive) YieldEnds =
          λ k l.
            Meets-weaken _ (Meets-change sys locks k connected_idle connected_yield_in_progress)
              (λ a t i. inl i) l in
        elim h [
          | inl i ↦ (begun connected_idle (λ e t j. inl (inr (inl j)))).at s i
          | inr p ↦ (begun pending_reconnect (λ e t j. inl (inr (inr j)))).at s p
        ];
  }

  IsLive-waiting : (s : Running W) → IsWaiting s → IsLive s
  IsLive-waiting s (inl i) = inr (inl i)
  IsLive-waiting s (inr p) = inr (inr p)

  Meets-start_yield :
      (st : ClientState) → Meets IsWaiting (start_yield sys st) (λ _. IsLive) YieldEnds
  Meets-start_yield st =
      Meets-if (state_code pending_reconnect == state_code st) _ _ (Meets-pure tt IsLive-waiting) (
        Meets-bind (λ _. IsWaiting) _ _ (Meets-gets _ (λ s h. h))
          (λ connected.
            Meets-if (not connected) _ _ (Meets-raise _ (λ s h. waiting-YieldEnds s _ h)) (
              Meets-if (not (state_code connected_idle == state_code st)) _ _
                (Meets-raise _ (λ s h. waiting-YieldEnds s _ h)) Meets-begin)))

Post-finished {ℓ} :
    {W : Type ℓ} (o : Result (Unit {0}) × Running W)
    → Post (λ (_ : Unit {0}). IsIn connected_idle) YieldEnds o
    → (o.0 ≡ fault)
      ⊎ (((o.0 ≡ ok tt) × IsIn connected_idle o.1)
          ⊎ ((e : IotError) × ((o.0 ≡ err e) × YieldEnds e o.1)))
Post-finished (ok _, s) h = inr (inl (refl, h))
Post-finished (err e, s) h = inr (inr (e, (refl, h)))
Post-finished (fault, s) h = inl refl

module _ {ℓ} {W : Type ℓ} (sys : System W) (locks : HasLocks sys)
    (quiet : KeepsState sys.application) where
  Meets-yield :
      (timeout_ms : ℕ) → Meets IsWaiting (yield sys timeout_ms) (λ _. IsIn connected_idle) YieldEnds
  unfolding yield
  Meets-yield timeout_ms =
      Meets-if (timeout_ms == 0) _ _ (Meets-raise _ (λ s h. waiting-YieldEnds sys locks s _ h)) (
        Meets-bind (λ _. IsWaiting) _ _ (Meets-gets _ (λ s h. h))
          (λ st.
            Meets-if (state_code disconnected_manually == state_code st) _ _
              (Meets-raise _ (λ s h. waiting-YieldEnds sys locks s _ h))
              (Meets-bind (λ _. IsLive) _ _ (Meets-start_yield sys locks st)
                (λ _.
                  Meets-bind (λ _. IsKnown) _ _
                    (Meets-attempt IsKnown YieldEnds _
                      (Meets-internal_yield sys locks quiet timeout_ms))
                    (Meets-end_yield sys locks)))))

  -- A yield of a client that is idle or waits for the next attempt to reconnect: where it returns
  -- SUCCESS, the client is connected and idle. Where it returns an error other than
  -- NETWORK_DISCONNECTED_ERROR and NETWORK_ATTEMPTING_RECONNECT, no yield is in progress any more: the
  -- client is idle, waits for the next attempt, or is in the state after a lost connection. With one of
  -- these two codes it is in one of the same three states or in that of a yield in progress. The other
  -- outcome is a fault, where an access outside of a buffer is made or the rounds run out. This holds
  -- where every semaphore is had and given back, and no handler of the application sets the state of
  -- the client.
  pub yield_lem :
      (timeout_ms : ℕ) (s : Running W)
      → IsWaiting s
      → ((yield sys timeout_ms s).0 ≡ fault)
        ⊎ ((((yield sys timeout_ms s).0 ≡ ok tt) × IsIn connected_idle (yield sys timeout_ms s).1)
            ⊎ ((e : IotError) × (((yield sys timeout_ms s).0 ≡ err e)
                  × YieldEnds e (yield sys timeout_ms s).1)))
  yield_lem timeout_ms s h =
      Post-finished (yield sys timeout_ms s) ((Meets-yield timeout_ms).at s h)
