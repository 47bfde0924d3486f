-- ===== src/Client/State.antt =====
-- aws_iot_mqtt_set_client_state and the locks around it: arduino-esp32/AWS_IOT/src/aws_iot_mqtt_client.c.
pub mod CompareAndSet
use hornbill_examples.Common.{ℕ, Bool, true, false, ◌==◌, if◌then◌else◌, some}
use hornbill_examples.Errors.{Result, ok, err, fault, mqtt_unexpected_client_state_error}
use hornbill_examples.Threads.{
  Semaphore, thread_mutex_lock, thread_mutex_trylock, thread_mutex_unlock,
}
use hornbill_examples.Client.{
  Client, ClientState, get_client_state, invalid, initialized, connecting, connected_idle,
  connected_yield_in_progress, connected_publish_in_progress, connected_subscribe_in_progress,
  connected_unsubscribe_in_progress, connected_resubscribe_in_progress,
  connected_wait_for_cb_return, disconnecting, disconnected_error, disconnected_manually,
  pending_reconnect,
}

-- The numbers of the enum.
abbrev pub state_code : ClientState → ℕ
state_code invalid = 0
state_code initialized = 1
state_code connecting = 2
state_code connected_idle = 3
state_code connected_yield_in_progress = 4
state_code connected_publish_in_progress = 5
state_code connected_subscribe_in_progress = 6
state_code connected_unsubscribe_in_progress = 7
state_code connected_resubscribe_in_progress = 8
state_code connected_wait_for_cb_return = 9
state_code disconnecting = 10
state_code disconnected_error = 11
state_code disconnected_manually = 12
state_code pending_reconnect = 13

-- What a call returns, and the client it leaves.
abbrev pub Outcome : Type 0
Outcome = Result (Unit {0}) × Client

unfoldable pub lock_mutex : Semaphore → Client → Result (Unit {0})
unfolding thread_mutex_lock thread_mutex_trylock
lock_mutex s c =
    if c.is_block_on_thread_lock_enabled then thread_mutex_lock s else thread_mutex_trylock s

unfoldable pub unlock_mutex : Semaphore → Result (Unit {0})
unfolding thread_mutex_unlock
unlock_mutex s = thread_mutex_unlock s

-- The body between the locks.
abbrev pub compare_and_set : ClientState → ClientState → Client → Outcome
compare_and_set expected new_state c =
    if state_code expected == state_code (get_client_state (some c))
    then (ok tt, record c { client_state = new_state })
    else (err mqtt_unexpected_client_state_error, c)

-- `if(SUCCESS == rc && SUCCESS != threadRc) rc = threadRc;`
abbrev pub first_error : Result (Unit {0}) → Result (Unit {0}) → Result (Unit {0})
first_error (ok _) later = later
first_error (err e) later = err e
first_error fault later = fault

abbrev pub when_locked :
    Result (Unit {0}) → Semaphore → ClientState → ClientState → Client → Outcome
when_locked (ok _) s expected new_state c =
    let (rc, c') = compare_and_set expected new_state c in (first_error rc (unlock_mutex s), c')
when_locked (err e) s expected new_state c = (err e, c)
when_locked fault s expected new_state c = (fault, c)

unfoldable pub set_client_state : Semaphore → ClientState → ClientState → Client → Outcome
unfolding get_client_state lock_mutex unlock_mutex
set_client_state s expected new_state c = when_locked (lock_mutex s c) s expected new_state c
