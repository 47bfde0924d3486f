-- ===== src/Session/Yield/Loop.antt =====
-- The rounds of yield that wait for a connection.
use hornbill_examples.Common.{ltb, not, true, Option, none, some, ap, inl, inr}
use hornbill_examples.Errors.{Result, ok, err, fault}
use hornbill_examples.Client.{
  ClientState, connected_idle, connected_yield_in_progress, pending_reconnect,
  is_client_state_valid_for_connect,
}
use hornbill_examples.Exec.{Running, Exec, raise, attempt}
use hornbill_examples.Exec.Keeps.{Keeps}
use hornbill_examples.Exec.Meets.{
  Post, Meets, Keeps-Meets, Keeps-attempt_Meets, Meets-attempt, Meets-bind, Meets-if, Meets-pure,
  Meets-raise, Meets-gets, Meets-weaken,
}
use hornbill_examples.Session.{System, change_state, expired}
use hornbill_examples.Session.Read.{is_error}
use hornbill_examples.Session.Connect.{attempt_reconnect}
use hornbill_examples.Session.Connect.Reconnect.{Reconnects, attempt_reconnect_meets}
use hornbill_examples.Session.Yield.{
  is_reconnected, is_physically_connected, max_reconnect_wait_interval, timed_out, back_off,
  physical_layer, resume_yield, try_reconnect, handle_reconnect, reconnect_expired, pending_round,
}
use hornbill_examples.Session.Yield.States.{IsLive}
use hornbill_examples.Session.Yield.Rounds.{Left, Known, Keeps-back_off}
use hornbill_examples.Session.Steady.{KeepsState, IsIn, Keeps-outside}
use hornbill_examples.Session.Restore.{HasLocks, Meets-change}

module _ {ℓ} {W : Type ℓ} (sys : System W) where
  pub Keeps-IsLive_expired : Keeps IsLive (expired sys)
  unfolding expired
  Keeps-IsLive_expired = record { at = λ s h. h }

  Keeps-reconnect_expired : Keeps (IsIn pending_reconnect) (reconnect_expired sys)
  unfolding reconnect_expired
  Keeps-reconnect_expired = record { at = λ s h. h }

  Keeps-physical_layer :
      (o : Option (W → Result (Unit {0}) × W))
      → Keeps (IsIn pending_reconnect) (physical_layer sys o)
  unfolding raise
  Keeps-physical_layer none = record { at = λ s h. h }
  Keeps-physical_layer (some f) = Keeps-outside sys pending_reconnect f

  Post-IsLive :
      (o : Result (Unit {0}) × Running W)
      → Post (λ _ s. ⊥) Reconnects o
      → Post (λ (_ : Unit {0}). IsLive) (λ _. IsLive) o
  Post-IsLive (ok _, s) h = absurd h
  Post-IsLive (err e, s) (inl h) = inr (inr h.1)
  Post-IsLive (err e, s) (inr h) = inr (inl h)
  Post-IsLive (fault, s) h = tt

module _ {ℓ} {W : Type ℓ} (sys : System W) (locks : HasLocks sys) where
  -- A change of a live state to a live state.
  pub change-IsLive :
      (k expected new_state : ClientState)
      → ((s : Running W) → IsIn k s → IsLive s)
      → ((s : Running W) → IsIn new_state s → IsLive s)
      → Meets (IsIn k) (change_state sys expected new_state) (λ _. IsLive) (λ _. IsLive)
  change-IsLive k expected new_state l n =
      Meets-weaken _ (Meets-change sys locks k expected new_state) (λ a s h. n s h) (λ e s h. l s h)

  Meets-resume_change :
      Meets IsLive
        (change_state sys connected_idle connected_yield_in_progress)
        (λ _. IsLive)
        (λ _. IsLive)
  Meets-resume_change = record {
    at = λ s h.
        let y : (t : Running W) → IsIn connected_yield_in_progress t → IsLive t = λ t i. inl i in
        let i : (t : Running W) → IsIn connected_idle t → IsLive t = λ t j. inr (inl j) in
        let p : (t : Running W) → IsIn pending_reconnect t → IsLive t = λ t j. inr (inr j) in
        elim h [
          | inl h' ↦ (change-IsLive connected_yield_in_progress connected_idle _ y y).at s h'
          | inr (inl h') ↦ (change-IsLive connected_idle connected_idle _ i y).at s h'
          | inr (inr h') ↦ (change-IsLive pending_reconnect connected_idle _ p y).at s h'
        ];
  }

  Meets-resume_yield : Meets IsLive (resume_yield sys) (λ _. IsLive) (λ _. IsLive)
  unfolding resume_yield
  Meets-resume_yield =
      Meets-bind (λ _. IsLive) _ _ Meets-resume_change (λ _. Meets-raise _ (λ s h. h))

module _ {ℓ} {W : Type ℓ} (sys : System W) (locks : HasLocks sys)
    (quiet : KeepsState sys.application) where
  Meets-attempt_reconnect :
      Meets (IsIn pending_reconnect) (attempt (attempt_reconnect sys)) (λ _. IsLive) (λ _. IsLive)
  unfolding is_client_state_valid_for_connect
  Meets-attempt_reconnect =
      Meets-attempt IsLive (λ _. IsLive) (attempt_reconnect sys)
        (record {
          at = λ s h.
              Post-IsLive sys _ (
                attempt_reconnect_meets sys locks quiet s (ap is_client_state_valid_for_connect h));
        })

  Meets-try_reconnect :
      Meets (IsIn pending_reconnect) (try_reconnect sys) (λ _. IsLive) (λ _. IsLive)
  unfolding try_reconnect
  Meets-try_reconnect =
      Meets-bind (λ _. IsLive) _ _ Meets-attempt_reconnect
        (λ r.
          Meets-if (is_error is_reconnected r) _ _ (Meets-resume_yield sys locks)
            (Keeps-Meets _ (Keeps-back_off sys r)))

  -- From a state with a name.
  pending-IsLive :
      {A : Type 0} (m : Exec W A)
      → Keeps (IsIn pending_reconnect) m
      → Meets (IsIn pending_reconnect) m (λ _. IsIn pending_reconnect) (λ _. IsLive)
  pending-IsLive m km = Meets-weaken m (Keeps-Meets m km) (λ a s h. h) (λ e s h. inr (inr h))

  back_off-IsLive :
      (rc : Result (Unit {0}))
      → Meets (IsIn pending_reconnect) (back_off sys rc) (λ _. IsLive) (λ _. IsLive)
  back_off-IsLive rc = record {
    at = λ s h. (Keeps-Meets _ (Keeps-back_off sys rc)).at s (inr (inr h));
  }

  Meets-handle_reconnect :
      Meets (IsIn pending_reconnect) (handle_reconnect sys) (λ _. IsLive) (λ _. IsLive)
  unfolding handle_reconnect
  Meets-handle_reconnect =
      let waits = IsIn {W = W} pending_reconnect in
      Meets-bind (λ _. waits) _ _ (pending-IsLive _ (Keeps-reconnect_expired sys))
        (λ due. Meets-if (not due) _ _ (Meets-raise _ (λ s h. inr (inr h))) (
          Meets-bind (λ _. waits) _ _
            (Keeps-attempt_Meets _ _ (Keeps-physical_layer sys sys.is_connected))
            (λ rc.
              Meets-if (is_error is_physically_connected rc) _ _ Meets-try_reconnect
                (back_off-IsLive rc))))

  pub Meets-pending_round : Meets (IsIn pending_reconnect) (pending_round sys) Left Known
  unfolding pending_round
  Meets-pending_round =
      Meets-bind (λ _. IsIn pending_reconnect) _ _ (Meets-gets _ (λ s h. h))
        (λ ms.
          Meets-if (ltb max_reconnect_wait_interval ms) _ _
            (Meets-pure timed_out (λ s h. inr (inr (inr h))))
            (Meets-bind (λ _. IsLive) _ _ (Meets-attempt IsLive Known _ Meets-handle_reconnect)
              (λ rc. Meets-pure (rc, true) (λ s h. h))))
