-- ===== src/Session/Restore.antt =====
-- Changes of the client's state where every lock is had: an operation in a state of its own comes
-- back to the state from before.
pub mod Calls
use hornbill_examples.Common.{
  ℕ, ◌==◌, if◌then◌else◌, not, Bool, true, false, Bool-cases, List, [], ◌∷◌, Option, none, some,
  ◌≡◌, refl, ◌∙◌, sym, subst, ==_iff, ap, arith, ◌⊎◌, inl, inr,
}
use hornbill_examples.Errors.{IotError, Result, ok, err, fault, guard, mutex_unlock_error}
use hornbill_examples.Wire.Header.{QoS}
use hornbill_examples.Client.{
  Client, ClientState, connected_idle, connected_publish_in_progress,
  connected_subscribe_in_progress, connected_unsubscribe_in_progress,
  connected_resubscribe_in_progress,
}
use hornbill_examples.Client.State.{Outcome, state_code, first_error}
use hornbill_examples.Client.State.CompareAndSet.{
  IsLocked, set_client_state_lem, set_client_state-locked, state_code-injective,
}
use hornbill_examples.Exec.{
  Running, Exec, attempt, caught, continue, lift, gets, raise, pure, ◌>>=◌, ◌>>◌,
}
use hornbill_examples.Exec.Keeps.{Keeps, keeps_rules, Keeps-lift}
use hornbill_examples.Exec.Meets.{
  Post, Meets, Keeps-Meets, Keeps-attempt_Meets, Meets-bind, Meets-if, Meets-test, Meets-gets,
  Meets-raise, Meets-pure, Meets-lift,
}
use hornbill_examples.Session.{System, next_semaphore, change_state, change_state_with, in_state}
use hornbill_examples.Session.Publish.{Outgoing, require_idle, publish, internal_publish}
use hornbill_examples.Session.Subscribe.{
  subscribe, internal_subscribe, resubscribe, internal_resubscribe,
}
use hornbill_examples.Session.Unsubscribe.{unsubscribe, after_change, internal_unsubscribe}
use hornbill_examples.Session.Steady.{KeepsState, IsIn, IsTaken}
use hornbill_examples.Session.Steady.Operations.{
  Keeps-internal_publish, Keeps-internal_subscribe, Keeps-internal_resubscribe,
  Keeps-internal_unsubscribe,
}

-- Every semaphore is had and given back.
pub record HasLocks {ℓ} {W : Type ℓ} (sys : System W) : Type ℓ where
  pub taken : IsTaken sys
  pub given : (w : W) → (sys.semaphore w).0.given ≡ true

-- The client in another state, behind one lock.
abbrev pub moved {ℓ} : {W : Type ℓ} → System W → ClientState → Running W → Running W
moved sys st s = record s {
  client = record s.client { client_state = st };
  world = (sys.semaphore s.world).1;
}

module _ {ℓ} {W : Type ℓ} (sys : System W) (locks : HasLocks sys) where
  pub change_state-moved :
      (expected new_state : ClientState) (s : Running W)
      → IsIn expected s
      → change_state sys expected new_state s ≡ (ok tt, moved sys new_state s)
  unfolding change_state ◌>>=◌ next_semaphore change_state_with
  change_state-moved expected new_state s h =
      let (answers, w) = sys.semaphore s.world in
      let locked : IsLocked answers s.client = ground (arith, locks.taken s.world) in
      ap (λ (o : Outcome). (o.0, record s { client = o.1; world = w }))
        (set_client_state-locked answers expected new_state s.client locked h)
      ∙ rw (locks.given s.world) refl

  pub Meets-change_state :
      (expected new_state : ClientState) (E : IotError → Running W → Type 0)
      → Meets (IsIn expected) (change_state sys expected new_state) (λ _. IsIn new_state) E
  Meets-change_state expected new_state E = record {
    at = λ s h. rw (change_state-moved expected new_state s h) refl;
  }

  pub Meets-attempt-change_state :
      (expected new_state : ClientState) (E : IotError → Running W → Type 0)
      → Meets
          (IsIn expected)
          (attempt (change_state sys expected new_state))
          (λ _. IsIn new_state)
          E
  unfolding attempt
  Meets-attempt-change_state expected new_state E = record {
    at = λ s h. rw (change_state-moved expected new_state s h) refl;
  }

  -- The change is made in the expected state, and any other state stays.
  pub Meets-change :
      (k expected new_state : ClientState)
      → Meets (IsIn k) (change_state sys expected new_state) (λ _. IsIn new_state) (λ _. IsIn k)
  unfolding change_state ◌>>=◌ next_semaphore change_state_with
  Meets-change k expected new_state = record {
    at = λ s h.
        let (answers, w) = sys.semaphore s.world in
        let post : Outcome → Type 0 = λ o.
          Post (λ (_ : Unit {0}). IsIn new_state) (λ _. IsIn k)
            (o.0, record s { client = o.1; world = w }) in
        let changed : Client = record s.client { client_state = new_state } in
        let unlocked : guard answers.given mutex_unlock_error ≡ ok tt =
          rw (locks.given s.world) refl in
        elim (set_client_state_lem answers expected new_state s.client) [
          | inl (l, e, r) ↦
              subst post (sym (r ∙ ap (λ (x : Result (Unit {0})). (x, changed)) unlocked)) refl
          | inr (inl (l, n, r)) ↦ subst post (sym r) h
          | inr (inr (l, r)) ↦ absurd (l (ground (arith, locks.taken s.world)))
        ];
  }

  -- An operation in a state of its own comes back to the state it was started in.
  pub Meets-in_state :
      (idle busy : ClientState) (m : Exec W (Unit {0}))
      → Keeps (IsIn busy) m
      → Meets (IsIn idle) (in_state sys idle busy m) (λ _. IsIn idle) (λ _. IsIn idle)
  unfolding in_state
  Meets-in_state idle busy m km =
      Meets-bind (λ _. IsIn busy) _ _ (Meets-change_state idle busy (λ _. IsIn idle))
        (λ _.
          Meets-bind (λ _. IsIn busy) _ _ (Keeps-attempt_Meets (λ _. IsIn idle) m km)
            (λ r.
              Meets-bind (λ _. IsIn idle) _ _
                (Meets-attempt-change_state busy idle (λ _. IsIn idle))
                (λ back. Keeps-Meets _ (Keeps-lift (first_error r back)))))

  -- The same for one run, where the operation succeeds.
  pub in_state-ok :
      (idle busy : ClientState) (m : Exec W (Unit {0})) (s s2 : Running W)
      → IsIn idle s
      → m (moved sys busy s) ≡ (ok tt, s2)
      → IsIn busy s2
      → in_state sys idle busy m s ≡ (ok tt, moved sys idle s2)
  unfolding in_state ◌>>=◌ attempt lift
  in_state-ok idle busy m s s2 i e b =
      let back : Result (Unit {0}) → Exec W (Unit {0}) =
        λ r. attempt (change_state sys busy idle) >>= λ back. lift (first_error r back) in
      ap
        (λ (o : Result (Unit {0}) × Running W).
          continue o.0 (λ (_ : Unit {0}). attempt m >>= λ r. back r) o.1)
        (change_state-moved idle busy s i)
      ∙ ap (λ (o : Result (Unit {0}) × Running W). continue (caught o).0 back (caught o).1) e
      ∙ ap
          (λ (o : Result (Unit {0}) × Running W).
            continue (caught o).0 (λ r. lift (first_error (ok tt) r)) (caught o).1)
          (change_state-moved busy idle s2 b)
