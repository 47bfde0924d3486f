-- ===== src/AwsIot/Lost.antt =====
-- What the class can still do after the connection is lost: disconnectCallbackHandler of
-- arduino-esp32/AWS_IOT/src/AWS_IOT.cpp does not reconnect, and reconnecting is switched off.
use hornbill_examples.Common.{
  ℕ, zero, suc, ◌/◌, ◌%◌, ◌^◌, ◌==◌, false, List, [], ◌∷◌, Option, some, length, ◌≡◌, refl, ◌∙◌, ap,
  arith, ◌⊎◌, inl, inr,
}
use hornbill_examples.Errors.{IotError, Result, err, null_value_error, network_disconnected_error}
use hornbill_examples.Wire.Header.{qos0}
use hornbill_examples.Client.{Client, disconnected_error, is_client_connected}
use hornbill_examples.Exec.{Running, raise, lift, gets, ◌>>=◌}
use hornbill_examples.Session.Publish.{Outgoing, require_idle, publish}
use hornbill_examples.Session.Subscribe.{subscribe}
use hornbill_examples.Session.Yield.{yield}
use hornbill_examples.Session.Steady.{IsIn}
use hornbill_examples.AwsIot.{
  Platform, Sketch, qos0_message, class_publish, class_subscribe, task_round,
}

-- What the sketch and the task do, one after the other.
pub data Use : Type 0 where
  a_round : Use
  publishing : List ℕ → List ℕ → Use
  subscribing : List ℕ → Option ℕ → Use

abbrev pub Used {ℓ} : Type ℓ → Type ℓ
Used W = Result (Unit {0}) × Sketch W

-- The code of a publish on a client without a connection.
abbrev pub lost_code : ℕ → IotError
lost_code zero = null_value_error
lost_code (suc n) = network_disconnected_error

module _ {ℓ} {W : Type ℓ} (board : Platform W) where
  abbrev pub use_once : Use → Sketch W → Used W
  use_once a_round s = task_round board s
  use_once (publishing topic payload) s = class_publish board topic payload s
  use_once (subscribing topic handler) s = class_subscribe board topic handler s

  -- The codes of the calls, and what they leave.
  abbrev pub use_all : List Use → Sketch W → List (Result (Unit {0})) × Sketch W
  use_all [] s = ([], s)
  use_all (u ∷ uses) s =
      let (r, s') = use_once u s in let (rs, end) = use_all uses s' in (r ∷ rs, end)

  yield-lost :
      (s : Running W)
      → IsIn disconnected_error s
      → yield board.system 200 s ≡ (err network_disconnected_error, s)
  unfolding yield gets raise ◌>>=◌ is_client_connected
  yield-lost s i = rw i refl

  require_idle-lost :
      (s : Running W)
      → IsIn disconnected_error s
      → require_idle s ≡ (err network_disconnected_error, s)
  unfolding require_idle gets raise ◌>>=◌ is_client_connected
  require_idle-lost s i = rw i refl

  publish-lost :
      (topic : List ℕ) (len : ℕ) (p : Outgoing) (s : Running W)
      → IsIn disconnected_error s
      → publish board.system (some topic) len (some p) s ≡ (err (lost_code len), s)
  unfolding publish lift raise ◌>>=◌ require_idle gets is_client_connected
  publish-lost topic zero p s i = refl
  publish-lost topic (suc n) p s i = let t : (suc n == 0) ≡ false = ground arith in rw (t, i) refl

  subscribe-lost :
      (topic : List ℕ) (len : ℕ) (h : ℕ) (s : Running W)
      → IsIn disconnected_error s
      → subscribe board.system (some topic) len qos0 (some h) 0 s
        ≡ (err network_disconnected_error, s)
  unfolding subscribe lift raise ◌>>=◌ require_idle gets is_client_connected
  subscribe-lost topic len h s i = rw i refl

-- A call that is refused for want of a connection, or of a topic.
abbrev pub IsRefused : Result (Unit {0}) → Type 0
IsRefused r = (r ≡ err network_disconnected_error) ⊎ (r ≡ err null_value_error)

abbrev pub AllRefused : List (Result (Unit {0})) → Type 0
AllRefused [] = Unit
AllRefused (r ∷ rs) = IsRefused r × AllRefused rs

lost_code-IsRefused : (len : ℕ) → IsRefused (err (lost_code len))
lost_code-IsRefused zero = inr refl
lost_code-IsRefused (suc n) = inl refl

module _ {ℓ} {W : Type ℓ} (board : Platform W) where
  -- The pause at the end of a round of aws_iot_task.
  abbrev pub paused : W → W
  paused w = board.task_delay (1000 / board.system.network.tick_ms) w

  -- The pauses of the rounds, and nothing else.
  abbrev pub pauses : List Use → W → W
  pauses [] w = w
  pauses (a_round ∷ uses) w = pauses uses (paused w)
  pauses (publishing topic payload ∷ uses) w = pauses uses w
  pauses (subscribing topic handler ∷ uses) w = pauses uses w

  abbrev Stays : (before after : Running W) → (W → W) → Type ℓ
  Stays before after pause = (after.client ≡ before.client) × (after.world ≡ pause before.world)

  use_once-lost :
      (u : Use) (s : Sketch W)
      → IsIn disconnected_error s.running
      → IsRefused (use_once board u s).0
        × Stays s.running (use_once board u s).1.running (pauses (u ∷ []))
  unfolding task_round class_publish class_subscribe
  use_once-lost a_round s i = rw (yield-lost board s.running i) (inl refl, (refl, refl))
  use_once-lost (publishing topic payload) s i =
      rw (publish-lost board topic (length topic % 2 ^ 16) (qos0_message payload) s.running i)
        (lost_code-IsRefused (length topic % 2 ^ 16), (refl, refl))
  use_once-lost (subscribing topic handler) s i =
      rw
        (subscribe-lost board topic (length topic % 2 ^ 16) board.iot_subscribe_callback_handler
          s.running i)
        (inl refl, (refl, refl))

  pauses-cons :
      (u : Use) (uses : List Use) (w : W) → pauses uses (pauses (u ∷ []) w) ≡ pauses (u ∷ uses) w
  pauses-cons a_round uses w = refl
  pauses-cons (publishing topic payload) uses w = refl
  pauses-cons (subscribing topic handler) uses w = refl

  -- Once a client is disconnected by an error, no round of the task and no publish or subscribe of the
  -- sketch, in any number and order, returns SUCCESS: each returns NETWORK_DISCONNECTED_ERROR, or
  -- NULL_VALUE_ERROR for a topic whose length in 16 bits is 0. None of them changes the client, and all
  -- that happens outside of it are the pauses of the rounds, so that nothing is sent and no connection
  -- is opened.
  pub use_all-lost :
      (uses : List Use) (s : Sketch W)
      → IsIn disconnected_error s.running
      → AllRefused (use_all board uses s).0
        × ((use_all board uses s).1.running.client ≡ s.running.client)
        × ((use_all board uses s).1.running.world ≡ pauses uses s.running.world)
  use_all-lost [] s i = (tt, refl, refl)
  use_all-lost (u ∷ uses) s i =
      let (refused, (same, waited)) = use_once-lost u s i in
      let rest =
        use_all-lost uses (use_once board u s).1 (ap (λ (c : Client). c.client_state) same ∙ i) in
      (
        (refused, rest.0),
        rest.1 ∙ same,
        rest.2 ∙ ap (pauses uses) waited ∙ pauses-cons u uses s.running.world,
      )
