-- ===== src/Session/Yield/Rounds.antt =====
-- The rounds of yield and the states between them.
use hornbill_examples.Common.{ℕ, if◌then◌else◌, not, true, false, ◌⊎◌, inl, inr}
use hornbill_examples.Errors.{IotError, Result, ok, err, fault}
use hornbill_examples.Client.{ClientState, disconnected_error, pending_reconnect}
use hornbill_examples.Exec.{Running, Exec, pure, modify}
use hornbill_examples.Exec.Keeps.{Keeps, Keeps-bind, Keeps-gets, Keeps-if, Keeps-raise, Keeps-lift}
use hornbill_examples.Exec.Meets.{
  Told, Meets, Keeps-Meets, Meets-bind, Meets-if, Meets-pure, Meets-Told, Meets-weaken,
}
use hornbill_examples.Session.{System, change_state}
use hornbill_examples.Session.Read.{is_error, is_disconnected}
use hornbill_examples.Session.Yield.{
  Round, is_any, count_disconnect, min_reconnect_wait_interval, wait_for, back_off,
  reconnect_started, lost_round, connected_round,
}
use hornbill_examples.Session.Yield.States.{IsLive, IsKnown, Kept, after_read-Kept}
use hornbill_examples.Session.Steady.{KeepsState, IsIn}
use hornbill_examples.Session.Steady.Reading.{Keeps-cycle_read}
use hornbill_examples.Session.Restore.{HasLocks, Meets-change}

-- A round that goes on leaves a state that the next one can start in.
abbrev pub Left {ℓ} : {W : Type ℓ} → Round → Running W → Type 0
Left (rc, true) s = IsLive s
Left (rc, false) s = IsKnown s

-- Errors of yield come with a known state.
abbrev pub Known {ℓ} : {W : Type ℓ} → IotError → Running W → Type 0
Known e s = IsKnown s

module _ {ℓ} {W : Type ℓ} (sys : System W) where
  Keeps-wait_for : (ms : ℕ) → Keeps IsLive (wait_for sys ms)
  unfolding wait_for
  Keeps-wait_for ms = record { at = λ s h. h }

  Keeps-interval :
      (ms : ℕ)
      → Keeps (IsLive {W = W}) (modify (λ c. record c { current_reconnect_wait_interval = ms }))
  unfolding modify
  Keeps-interval ms = record { at = λ s h. h }

  pub Keeps-back_off : (rc : Result (Unit {0})) → Keeps IsLive (back_off sys rc)
  unfolding back_off
  Keeps-back_off rc = Keeps-bind _ _ (Keeps-gets _) (λ ms. Keeps-bind _ _ (Keeps-interval ms) (λ _.
      Keeps-if _ _ _ (Keeps-raise _) (Keeps-bind _ _ (Keeps-wait_for ms) (λ _. Keeps-lift rc))))

  Meets-wait_pending :
      Meets
        (IsIn pending_reconnect)
        (wait_for sys min_reconnect_wait_interval)
        (λ _. IsIn pending_reconnect)
        Known
  unfolding wait_for
  Meets-wait_pending = record { at = λ s h. h }

module _ {ℓ} {W : Type ℓ} (sys : System W) (locks : HasLocks sys)
    (quiet : KeepsState sys.application) where
  module _ (k : ClientState) (live : (s : Running W) → IsIn k s → IsLive s) where
    kept-IsKnown : (s : Running W) → IsIn disconnected_error s ⊎ IsIn k s → IsKnown s
    kept-IsKnown s (inl d) = inl d
    kept-IsKnown s (inr h) = inr (live s h)

    abbrev IsKept : Running W → Type 0
    IsKept s = IsIn disconnected_error s ⊎ IsIn k s

    Meets-pend :
        Meets IsKept
          (change_state sys disconnected_error pending_reconnect)
          (λ _. IsIn pending_reconnect)
          (λ _. IsKept)
    Meets-pend = record {
      at = λ s h. elim h [
        | inl d ↦
            (Meets-weaken {Q' = λ _. IsIn pending_reconnect} {E' = λ _. IsKept} _
                (Meets-change sys locks disconnected_error disconnected_error pending_reconnect)
                (λ a s h. h) (λ e s h. inl h)).at
              s d
        | inr i ↦
            (Meets-weaken {Q' = λ _. IsIn pending_reconnect} {E' = λ _. IsKept} _
                (Meets-change sys locks k disconnected_error pending_reconnect) (λ a s h. h)
                (λ e s h. inr h)).at
              s i
      ];
    }

    started-Left :
        (rc : Result (Unit {0}))
        → Meets
            (Told (λ _. IsIn pending_reconnect) (λ _. IsKept) rc)
            (reconnect_started sys rc)
            Left
            Known
    started-Left (ok _) =
        Meets-bind (λ _. IsIn pending_reconnect) _ _ (Meets-wait_pending sys)
          (λ _. Meets-pure _ (λ s h. inr (inr h)))
    started-Left (err e) = Meets-pure _ (λ s h. kept-IsKnown s h)
    started-Left fault = record { at = λ s h. absurd h }

    Keeps-count_disconnect : Keeps IsKept (modify count_disconnect)
    unfolding modify
    Keeps-count_disconnect = record { at = λ s h. h }

    Keeps-IsKept-Known :
        {A : Type 0} (m : Exec W A) → Keeps IsKept m → Meets IsKept m (λ _. IsKept) Known
    Keeps-IsKept-Known m km =
        Meets-weaken m (Keeps-Meets m km) (λ a s h. h) (λ e s h. kept-IsKnown s h)

    Meets-lost_round : Meets IsKept (lost_round sys) Left Known
    unfolding lost_round
    Meets-lost_round =
        Meets-bind (λ _. IsKept) _ _ (Keeps-IsKept-Known _ Keeps-count_disconnect)
          (λ _.
            Meets-bind (λ _. IsKept) _ _ (Keeps-IsKept-Known _ (Keeps-gets _))
              (λ enabled. Meets-if (not enabled) _ _ (Meets-pure _ (λ s h. kept-IsKnown s h)) (
                Meets-bind (Told (λ _. IsIn pending_reconnect) (λ _. IsKept)) _ _
                  (Meets-Told Known _ Meets-pend) started-Left)))

    after_read-Left :
        (rc : Result (Unit {0}))
        → Meets
            (Told (λ _. IsIn k) (Kept sys locks quiet k) rc)
            (if is_error is_disconnected rc
              then lost_round sys
              else pure (rc, not (is_error is_any rc)))
            Left
            Known
    after_read-Left (ok _) = Meets-pure _ live
    after_read-Left (err e) =
        Meets-if _ _ _ Meets-lost_round (Meets-pure _ (λ s h. kept-IsKnown s h))
    after_read-Left fault = record { at = λ s h. absurd h }

    pub Meets-connected_round : Meets (IsIn k) (connected_round sys) Left Known
    unfolding connected_round
    Meets-connected_round =
        Meets-bind (λ _. IsIn k) _ _
          (Meets-weaken _ (Keeps-Meets _ (Keeps-cycle_read sys k locks.taken quiet 0)) (λ a s h. h)
            (λ e s h. inr (live s h)))
          (λ read.
            Meets-bind (Told (λ _. IsIn k) (Kept sys locks quiet k)) _ _
              (Meets-Told Known _ (after_read-Kept sys locks quiet k read.0)) after_read-Left)
