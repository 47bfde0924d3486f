-- ===== src/Client/Deliver/Dispatch.antt =====
-- Which handlers a message reaches.
use hornbill_examples.Common.{
  Option-cases, length-append, ℕ, suc, List, [], ◌∷◌, ◌++◌, append_assoc, some, get_elem?, length,
  ◌≡◌, refl, ap, sym, ◌∙◌, arith, Bool-cases, inl, inr,
}
use hornbill_examples.Errors.{guard, mutex_unlock_error}
use hornbill_examples.Threads.{Semaphore}
use hornbill_examples.Client.{Client, MessageHandler, connected_wait_for_cb_return}
use hornbill_examples.Client.State.{Outcome, set_client_state}
use hornbill_examples.Client.State.CompareAndSet.{IsLocked, set_client_state-locked}
use hornbill_examples.Client.Handlers.{num_subscribe_handlers}
use hornbill_examples.Client.Deliver.{
  Delivery, PublishMessageParams, Application, is_addressed, call_handler, deliver_at, deliver_loop,
  deliver_message,
}

-- The handlers of the application leave alone what the delivery depends on.
abbrev pub IsQuiet : Application → Type 0
IsQuiet app =
    (address data_address : ℕ) (m : Delivery) (c : Client)
    → ((app address data_address m c).message_handlers ≡ c.message_handlers)
      × ((app address data_address m c).client_state ≡ c.client_state)
      × ((app address data_address m c).is_block_on_thread_lock_enabled
          ≡ c.is_block_on_thread_lock_enabled)

-- The handlers of a table that a message is for, called in the order of the table.
abbrev pub run_addressed : Application → Delivery → List MessageHandler → Client → Client
run_addressed app m [] c = c
run_addressed app m (h ∷ handlers) c = run_addressed app m handlers (call_handler app m h c)

call_handler-quiet :
    (app : Application) (m : Delivery) (h : MessageHandler) (c : Client)
    → IsQuiet app
    → ((call_handler app m h c).message_handlers ≡ c.message_handlers)
      × ((call_handler app m h c).client_state ≡ c.client_state)
      × ((call_handler app m h c).is_block_on_thread_lock_enabled
          ≡ c.is_block_on_thread_lock_enabled)
unfolding call_handler
call_handler-quiet app m h c q = elim (Bool-cases (is_addressed m h)) [
  | inr t ↦ rw t (refl, refl, refl)
  | inl t ↦ elim (Option-cases h.application_handler) [
    | inl e ↦ rw (t, e) (refl, refl, refl)
    | inr (address, e) ↦ rw (t, e) (q address h.application_handler_data m c)
  ]
]

get_behind {ℓ} :
    {A : Type ℓ} (front : List A) (a : A) (back : List A)
    → get_elem? (front ++ (a ∷ back)) (length front) ≡ some a
get_behind [] a back = refl
get_behind (x ∷ front) a back = get_behind front a back

deliver_step :
    (app : Application) (m : Delivery) (n itr : ℕ) (h : MessageHandler) (c : Client)
    → get_elem? c.message_handlers itr ≡ some h
    → deliver_loop app m (suc n) itr c ≡ deliver_loop app m n (suc itr) (call_handler app m h c)
unfolding deliver_loop
deliver_step app m n itr h c e = ap (λ o. deliver_loop app m n (suc itr) (deliver_at app m o c)) e

deliver_loop_lem :
    (app : Application) (m : Delivery) (front back : List MessageHandler) (c : Client)
    → IsQuiet app
    → c.message_handlers ≡ front ++ back
    → deliver_loop app m (length back) (length front) c ≡ run_addressed app m back c
unfolding deliver_loop
deliver_loop_lem app m front [] c q e = refl
deliver_loop_lem app m front (h ∷ back) c q e =
    let found : get_elem? c.message_handlers (length front) ≡ some h =
      rw e (get_behind front h back) in
    let kept : (call_handler app m h c).message_handlers ≡ (front ++ (h ∷ [])) ++ back =
      (call_handler-quiet app m h c q).0 ∙ e ∙ sym (append_assoc front (h ∷ []) back) in
    let grown : length (front ++ (h ∷ [])) ≡ suc (length front) =
      omega (arith, length-append front (h ∷ [])) in
    deliver_step app m (length back) (length front) h c found
    ∙ ap (λ itr. deliver_loop app m (length back) itr (call_handler app m h c)) (sym grown)
    ∙ deliver_loop_lem app m (front ++ (h ∷ [])) back (call_handler app m h c) q kept

run_addressed-quiet :
    (app : Application) (m : Delivery) (handlers : List MessageHandler) (c : Client)
    → IsQuiet app
    → ((run_addressed app m handlers c).client_state ≡ c.client_state)
      × ((run_addressed app m handlers c).is_block_on_thread_lock_enabled
          ≡ c.is_block_on_thread_lock_enabled)
run_addressed-quiet app m [] c q = (refl, refl)
run_addressed-quiet app m (h ∷ handlers) c q =
    let step = call_handler-quiet app m h c q in
    let rest = run_addressed-quiet app m handlers (call_handler app m h c) q in
    (rest.0 ∙ step.1, rest.1 ∙ step.2)

-- A message on a topic is handed to the handlers of the table in its order, each called once if the
-- table has it for a topic that is the message's or matches it. Meanwhile the client waits for the
-- callbacks to return, and afterwards it is in the state from before. This holds for a full table,
-- where the handlers change neither the table nor the state of the client and both locks are had.
pub deliver_message_lem :
    (app : Application) (s1 s2 : Semaphore) (name : List ℕ) (len : ℕ)
    (params : PublishMessageParams) (c : Client)
    → IsQuiet app
    → length c.message_handlers ≡ num_subscribe_handlers
    → IsLocked s1 c
    → IsLocked s2 c
    → deliver_message app s1 s2 (some name) len params c ≡ (
        let m : Delivery = record { topic_name = name; topic_name_len = len; params = params } in
        let called =
          run_addressed app m c.message_handlers
            (record c { client_state = connected_wait_for_cb_return }) in
        (guard s2.given mutex_unlock_error, record called { client_state = c.client_state }))
unfolding deliver_message
deliver_message_lem app s1 s2 name len params c q full h1 h2 =
    let m : Delivery = record { topic_name = name; topic_name_len = len; params = params } in
    let waiting : Client = record c { client_state = connected_wait_for_cb_return } in
    let first : set_client_state s1 c.client_state connected_wait_for_cb_return c
        ≡ (guard s1.given mutex_unlock_error, waiting) =
      set_client_state-locked s1 c.client_state connected_wait_for_cb_return c h1 refl in
    let looped : deliver_loop app m num_subscribe_handlers 0 waiting
        ≡ run_addressed app m c.message_handlers waiting =
      ap (λ n. deliver_loop app m n 0 waiting) (sym full)
      ∙ deliver_loop_lem app m [] c.message_handlers waiting q refl in
    let quiet = run_addressed-quiet app m c.message_handlers waiting q in
    let called : Client = run_addressed app m c.message_handlers waiting in
    let locked : IsLocked s2 called = rw quiet.1 h2 in
    ap
      (λ (o : Outcome).
        set_client_state s2 connected_wait_for_cb_return c.client_state
          (deliver_loop app m num_subscribe_handlers 0 o.1))
      first
    ∙ ap (set_client_state s2 connected_wait_for_cb_return c.client_state) looped
    ∙ set_client_state-locked s2 connected_wait_for_cb_return c.client_state called locked quiet.0
