-- ===== src/Client/State/CompareAndSet.antt =====
-- The state change as a compare-and-set.
use hornbill_examples.Common.{
  Bool-cases, List, [], ◌∷◌, get_elem?, true, false, ◌==◌, ==_iff, ◌||◌, ◌≡◌, ◌≢◌, ◌⊎◌, inl, inr,
  refl, arith, some, sym, ap,
}
use hornbill_examples.Errors.{
  ok, err, guard, mqtt_unexpected_client_state_error, mutex_lock_error, mutex_unlock_error,
}
use hornbill_examples.Threads.{
  Semaphore, thread_mutex_lock, thread_mutex_trylock, thread_mutex_unlock,
}
use hornbill_examples.Client.{
  Client, ClientState, get_client_state, invalid, initialized, connecting, connected_idle,
  connected_yield_in_progress, connected_publish_in_progress, connected_subscribe_in_progress,
  connected_unsubscribe_in_progress, connected_resubscribe_in_progress,
  connected_wait_for_cb_return, disconnecting, disconnected_error, disconnected_manually,
  pending_reconnect,
}
use hornbill_examples.Client.State.{state_code, set_client_state, lock_mutex, unlock_mutex}

abbrev states : List ClientState
states =
    invalid ∷ initialized ∷ connecting ∷ connected_idle ∷ connected_yield_in_progress
    ∷ connected_publish_in_progress ∷ connected_subscribe_in_progress
    ∷ connected_unsubscribe_in_progress ∷ connected_resubscribe_in_progress
    ∷ connected_wait_for_cb_return ∷ disconnecting ∷ disconnected_error ∷ disconnected_manually
    ∷ pending_reconnect ∷ []

get_elem?-state_code : (s : ClientState) → get_elem? states (state_code s) ≡ some s
get_elem?-state_code invalid = refl
get_elem?-state_code initialized = refl
get_elem?-state_code connecting = refl
get_elem?-state_code connected_idle = refl
get_elem?-state_code connected_yield_in_progress = refl
get_elem?-state_code connected_publish_in_progress = refl
get_elem?-state_code connected_subscribe_in_progress = refl
get_elem?-state_code connected_unsubscribe_in_progress = refl
get_elem?-state_code connected_resubscribe_in_progress = refl
get_elem?-state_code connected_wait_for_cb_return = refl
get_elem?-state_code disconnecting = refl
get_elem?-state_code disconnected_error = refl
get_elem?-state_code disconnected_manually = refl
get_elem?-state_code pending_reconnect = refl

-- The numbers of the enum tell its states apart.
pub state_code-injective : (a b : ClientState) → state_code a ≡ state_code b → a ≡ b
state_code-injective a b h =
    let e : get_elem? states (state_code a) ≡ some a = get_elem?-state_code a in
    let d : get_elem? states (state_code b) ≡ some b = get_elem?-state_code b in cc

-- The lock of a change is had: by waiting for it, or at the first try.
abbrev pub IsLocked : Semaphore → Client → Type 0
IsLocked s c = (c.is_block_on_thread_lock_enabled || s.taken) ≡ true

pub lock_mutex-ok : (s : Semaphore) (c : Client) → IsLocked s c → lock_mutex s c ≡ ok tt
unfolding lock_mutex thread_mutex_lock thread_mutex_trylock
lock_mutex-ok s c h = ground arith

pub lock_mutex-err :
    (s : Semaphore) (c : Client) → (IsLocked s c → ⊥) → lock_mutex s c ≡ err mutex_lock_error
unfolding lock_mutex thread_mutex_lock thread_mutex_trylock
lock_mutex-err s c h = ground arith

pub set_client_state-locked :
    (s : Semaphore) (expected new_state : ClientState) (c : Client)
    → IsLocked s c
    → c.client_state ≡ expected
    → set_client_state s expected new_state c
      ≡ (guard s.given mutex_unlock_error, record c { client_state = new_state })
unfolding set_client_state get_client_state unlock_mutex thread_mutex_unlock
set_client_state-locked s expected new_state c h e =
    let t : (state_code expected == state_code c.client_state) ≡ true = ground arith in
    rw (lock_mutex-ok s c h, t)

set_client_state-unexpected :
    (s : Semaphore) (expected new_state : ClientState) (c : Client)
    → IsLocked s c
    → (state_code expected == state_code c.client_state) ≡ false
    → set_client_state s expected new_state c ≡ (err mqtt_unexpected_client_state_error, c)
unfolding set_client_state get_client_state
set_client_state-unexpected s expected new_state c h t = rw (lock_mutex-ok s c h, t)

set_client_state-unlocked :
    (s : Semaphore) (expected new_state : ClientState) (c : Client)
    → (IsLocked s c → ⊥)
    → set_client_state s expected new_state c ≡ (err mutex_lock_error, c)
unfolding set_client_state
set_client_state-unlocked s expected new_state c h = rw (lock_mutex-err s c h)

state_differs : (a b : ClientState) → (state_code a == state_code b) ≡ false → b ≢ a
state_differs a b h e = ground (arith, ap state_code e)

-- A change of state is a compare-and-set under the lock. Either the lock is had and the client is in
-- the expected state: then it is in the new state afterwards, nothing else of it changed, and the
-- call returns what the unlock returns. Or the lock is had in another state: then nothing changes and
-- the call returns the error for an unexpected state. Or the lock is not had: then nothing changes
-- and the call returns the lock's error.
pub set_client_state_lem :
    (s : Semaphore) (expected new_state : ClientState) (c : Client)
    → (IsLocked s c
        × (c.client_state ≡ expected)
        × (set_client_state s expected new_state c
            ≡ (guard s.given mutex_unlock_error, record c { client_state = new_state })))
      ⊎ ((IsLocked s c
            × (c.client_state ≢ expected)
            × (set_client_state s expected new_state c
                ≡ (err mqtt_unexpected_client_state_error, c)))
          ⊎ ((IsLocked s c → ⊥)
              × (set_client_state s expected new_state c ≡ (err mutex_lock_error, c))))
set_client_state_lem s expected new_state c =
    elim (Bool-cases (c.is_block_on_thread_lock_enabled || s.taken)) [
      | inl h ↦ elim (Bool-cases (state_code expected == state_code c.client_state)) [
        | inl t ↦
            let e : c.client_state ≡ expected = sym (state_code-injective _ _ ((==_iff _ _).0 t)) in
            inl (h, e, set_client_state-locked s expected new_state c h e)
        | inr t ↦ inr (
            inl (
              h,
              state_differs expected c.client_state t,
              set_client_state-unexpected s expected new_state c h t,
            ))
      ]
      | inr h ↦
          let not_had : IsLocked s c → ⊥ = λ had. ground (arith, had, h) in
          inr (inr (not_had, set_client_state-unlocked s expected new_state c not_had))
    ]
