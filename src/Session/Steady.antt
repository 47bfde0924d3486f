-- ===== src/Session/Steady.antt =====
-- The functions below the API leave the state of the client as it is.
pub mod Reading
pub mod Operations
use hornbill_examples.Common.{
  ap, ℕ, zero, suc, true, List, Option, none, some, get_elem?, ◌≡◌, refl, ◌∙◌, arith, Bool-cases,
  Option-cases, inl, inr,
}
use hornbill_examples.Errors.{Result, ok, err, fault}
use hornbill_examples.Threads.{Semaphore}
use hornbill_examples.Wire.{Cursor}
use hornbill_examples.Packet.Publish.{PublishFields}
use hornbill_examples.Client.{Client, ClientState, MessageHandler, connected_wait_for_cb_return}
use hornbill_examples.Client.State.{Outcome, set_client_state}
use hornbill_examples.Client.State.CompareAndSet.{IsLocked, set_client_state-locked}
use hornbill_examples.Client.PacketId.{get_next_packet_id}
use hornbill_examples.Client.Handlers.{num_subscribe_handlers}
use hornbill_examples.Client.Deliver.{
  Application, Delivery, PublishMessageParams, is_addressed, call_handler, deliver_at, deliver_loop,
  deliver_message,
}
use hornbill_examples.Exec.{Running, Exec, modify}
use hornbill_examples.Exec.Keeps.{Keeps, Keeps-bind}
use hornbill_examples.Session.{
  System, outside, next_semaphore, expired, send_with, send, receive, with_timer, timer_ms,
  serialize, written, next_id,
}
use hornbill_examples.Session.Read.{
  message_params, deliver_with, deliver, handle_publish, restart_ping, dispatch,
}

-- A function of the application that does not set the state of the client.
abbrev pub KeepsState : Application → Type 0
KeepsState app =
    (address data_address : ℕ) (m : Delivery) (c : Client)
    → (app address data_address m c).client_state ≡ c.client_state

call_handler-state :
    (app : Application) (m : Delivery) (h : MessageHandler) (c : Client)
    → KeepsState app
    → (call_handler app m h c).client_state ≡ c.client_state
unfolding call_handler
call_handler-state app m h c q = elim (Bool-cases (is_addressed m h)) [
  | inr t ↦ rw t refl
  | inl t ↦ elim (Option-cases h.application_handler) [
    | inl e ↦ rw (t, e) refl
    | inr (address, e) ↦ rw (t, e) (q address h.application_handler_data m c)
  ]
]

deliver_at-state :
    (app : Application) (m : Delivery) (o : Option MessageHandler) (c : Client)
    → KeepsState app
    → (deliver_at app m o c).client_state ≡ c.client_state
deliver_at-state app m none c q = refl
deliver_at-state app m (some h) c q = call_handler-state app m h c q

deliver_loop-state :
    (app : Application) (m : Delivery) (left itr : ℕ) (c : Client)
    → KeepsState app
    → (deliver_loop app m left itr c).client_state ≡ c.client_state
unfolding deliver_loop
deliver_loop-state app m zero itr c q = refl
deliver_loop-state app m (suc left) itr c q =
    let o = get_elem? c.message_handlers itr in
    deliver_loop-state app m left (suc itr) (deliver_at app m o c) q ∙ deliver_at-state app m o c q

deliver_message-state :
    (app : Application) (s1 s2 : Semaphore) (name : List ℕ) (len : ℕ)
    (params : PublishMessageParams) (c : Client)
    → KeepsState app
    → s1.taken ≡ true
    → s2.taken ≡ true
    → (deliver_message app s1 s2 (some name) len params c).1.client_state ≡ c.client_state
unfolding deliver_message
deliver_message-state app s1 s2 name len params c q t1 t2 =
    let m : Delivery = record { topic_name = name; topic_name_len = len; params = params } in
    let waiting : Client = record c { client_state = connected_wait_for_cb_return } in
    let locked : (s : Semaphore) (d : Client) → s.taken ≡ true → IsLocked s d =
      λ s d t. ground (arith, t) in
    let first =
      set_client_state-locked s1 c.client_state connected_wait_for_cb_return c (locked s1 c t1)
        refl in
    let called : Client → Client = λ d. deliver_loop app m num_subscribe_handlers 0 d in
    let back : Client → Client =
      λ d. (set_client_state s2 connected_wait_for_cb_return c.client_state d).1 in
    ap (λ (o : Outcome). (back (called o.1)).client_state) first
    ∙ ap (λ (o : Outcome). o.1.client_state)
        (set_client_state-locked s2 connected_wait_for_cb_return c.client_state (called waiting)
          (locked s2 (called waiting) t2)
          (deliver_loop-state app m num_subscribe_handlers 0 waiting q))

-- The client is in the state.
abbrev pub IsIn {ℓ} : {W : Type ℓ} → ClientState → Running W → Type 0
IsIn k s = s.client.client_state ≡ k

pub Keeps-modify {ℓ} :
    {W : Type ℓ} (k : ClientState) (f : Client → Client)
    → ((c : Client) → (f c).client_state ≡ c.client_state)
    → Keeps (IsIn {W = W} k) (modify f)
unfolding modify
Keeps-modify k f e = record { at = λ s h. e s.client ∙ h }

-- Every semaphore is had.
abbrev pub IsTaken {ℓ} : {W : Type ℓ} → System W → Type ℓ
IsTaken sys = (w : _) → (sys.semaphore w).0.taken ≡ true

module _ {ℓ} {W : Type ℓ} (sys : System W) (k : ClientState) where
  pub Keeps-outside : {A : Type 0} (f : W → Result A × W) → Keeps (IsIn k) (outside sys f)
  unfolding outside
  Keeps-outside f = record { at = λ s h. h }

  pub Keeps-next_semaphore : Keeps (IsIn k) (next_semaphore sys)
  unfolding next_semaphore
  Keeps-next_semaphore = record { at = λ s h. h }

  pub Keeps-expired : Keeps (IsIn k) (expired sys)
  unfolding expired
  Keeps-expired = record { at = λ s h. h }

  Keeps-send_with : (answers : Semaphore) (n : ℕ) → Keeps (IsIn k) (send_with sys answers n)
  unfolding send_with
  Keeps-send_with answers n = record { at = λ s h. h }

  pub Keeps-send : (n : ℕ) → Keeps (IsIn k) (send sys n)
  unfolding send
  Keeps-send n = Keeps-bind _ _ Keeps-next_semaphore (λ answers. Keeps-send_with answers n)

  pub Keeps-receive : Keeps (IsIn k) (receive sys)
  unfolding receive
  Keeps-receive = record { at = λ s h. h }

  pub Keeps-next_id : Keeps (IsIn k) (next_id sys)
  unfolding next_id get_next_packet_id
  Keeps-next_id = record { at = λ s h. h }

  written-Keeps : (r : Result Cursor) → Keeps (IsIn k) (written sys r)
  written-Keeps (ok c) = record { at = λ s h. h }
  written-Keeps (err e) = record { at = λ s h. h }
  written-Keeps fault = record { at = λ s h. h }

  pub Keeps-serialize : (f : Client → Result Cursor) → Keeps (IsIn k) (serialize sys f)
  unfolding serialize
  Keeps-serialize f = record { at = λ s h. (written-Keeps (f s.client)).at s h }

  pub Keeps-with_timer :
      {A : Type 0} (ms : ℕ) (m : Exec W A) → Keeps (IsIn k) m → Keeps (IsIn k) (with_timer sys ms m)
  unfolding with_timer
  Keeps-with_timer ms m km = record { at = λ s h. km.at (record s { timer = timer_ms sys ms s }) h }

  pub Keeps-restart_ping : Keeps (IsIn k) (restart_ping sys)
  unfolding restart_ping
  Keeps-restart_ping = record { at = λ s h. h }

pub ruleset steady_rules = (
  Keeps-modify, Keeps-outside, Keeps-next_semaphore, Keeps-expired, Keeps-send, Keeps-receive,
  Keeps-next_id, Keeps-serialize, Keeps-with_timer, Keeps-restart_ping,
)
