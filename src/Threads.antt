-- ===== src/Threads.antt =====
-- The mutexes: arduino-esp32/AWS_IOT/src/threads_freertos.c. What the semaphores of FreeRTOS answer
-- is a parameter.
use hornbill_examples.Common.{Bool}
use hornbill_examples.Errors.{
  Result, ok, guard, mutex_init_error, mutex_lock_error, mutex_unlock_error,
}

-- What xSemaphoreTakeRecursive and xSemaphoreGiveRecursive answer to one call of each. A take that
-- blocks comes back with the semaphore, so its answer is not looked at.
pub record Semaphore : Type 0 where
  pub taken : Bool
  pub given : Bool

-- xSemaphoreCreateRecursiveMutex answers NULL where there is no memory left.
unfoldable pub thread_mutex_init : Bool → Result (Unit {0})
thread_mutex_init created = guard created mutex_init_error

unfoldable pub thread_mutex_lock : Semaphore → Result (Unit {0})
thread_mutex_lock s = ok tt

unfoldable pub thread_mutex_trylock : Semaphore → Result (Unit {0})
thread_mutex_trylock s = guard s.taken mutex_lock_error

unfoldable pub thread_mutex_unlock : Semaphore → Result (Unit {0})
thread_mutex_unlock s = guard s.given mutex_unlock_error
