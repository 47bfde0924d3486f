-- ===== src/Client/Deliver/Filters.antt =====
-- Which handlers a message reaches, by the levels of the topics.
use hornbill_examples.Common.{
  ℕ, ◌==◌, ==_iff, Bool, false, Bool-cases, ◌&&◌, ◌||◌, if◌then◌else◌, List, [], ◌∷◌, ◌++◌, Option,
  Option-cases, none, some, All, length, take-append, same, same_sound, same_up_to, ◌≡◌, ◌≢◌, refl,
  sym, ap, ◌∙◌, arith, inl, inr,
}
use hornbill_examples.Errors.{guard, mutex_unlock_error}
use hornbill_examples.Topic.Levels.{
  Filter, Name, filter_text, name_text, matches, IsFilter, IsName, is_topic_matched-matches,
}
use hornbill_examples.Threads.{Semaphore}
use hornbill_examples.Client.{Client, MessageHandler, connected_wait_for_cb_return}
use hornbill_examples.Client.State.CompareAndSet.{IsLocked}
use hornbill_examples.Client.Handlers.{num_subscribe_handlers}
use hornbill_examples.Client.Deliver.{
  Delivery, PublishMessageParams, Application, is_addressed, call_handler, deliver_message,
}
use hornbill_examples.Client.Deliver.Dispatch.{IsQuiet, run_addressed, deliver_message_lem}

-- What a handler of the table is registered for: nothing, or a filter.
abbrev pub HasFilter : MessageHandler → Option Filter → Type 0
HasFilter h none = h.topic_name ≡ none
HasFilter h (some f) =
    (h.topic_name ≡ some (filter_text f)) × (h.topic_name_len ≡ length (filter_text f)) × IsFilter f

abbrev pub HaveFilters : List MessageHandler → List (Option Filter) → Type 0
HaveFilters [] [] = Unit {0}
HaveFilters (h ∷ handlers) (f ∷ filters) = HasFilter h f × HaveFilters handlers filters
HaveFilters _ _ = ⊥

-- Whether a message on a topic is for a filter: it is the topic, or the levels match it.
abbrev pub is_meant : Name → Option Filter → Bool
is_meant n none = false
is_meant n (some f) = same (name_text n) (filter_text f) || matches f n

-- The application's function of a handler, if it has one.
abbrev pub call_by : Application → Delivery → ℕ → Option ℕ → Client → Client
call_by app m data_address none c = c
call_by app m data_address (some address) c = app address data_address m c

-- The functions of the handlers whose filter the message is for, one after the other.
abbrev pub run_meant :
    Application → Delivery → Name → List MessageHandler → List (Option Filter) → Client → Client
run_meant app m n (h ∷ handlers) (f ∷ filters) c =
    run_meant app m n handlers filters
      (if is_meant n f then call_by app m h.application_handler_data h.application_handler c else c)
run_meant app m n _ _ c = c

same_up_to-same :
    (a rest b : List ℕ)
    → All (λ c. c ≢ 0) a
    → length a ≡ length b
    → same_up_to (length a) (a ++ rest) b ≡ same a b
same_up_to-same [] rest [] text e = refl
same_up_to-same [] rest (y ∷ b) text e = absurd (omega (arith, e))
same_up_to-same (x ∷ a) rest [] text e = absurd (omega (arith, e))
same_up_to-same (x ∷ a) rest (y ∷ b) text e =
    let z : (x == 0) ≡ false = ground (arith, text.0) in
    ground (arith, z, same_up_to-same a rest b text.1 (omega (arith, e)))

same-length : (a b : List ℕ) → (length a == length b) ≡ false → same a b ≡ false
same-length a b n = elim (Bool-cases (same a b)) [
  | inr s ↦ s
  | inl s ↦ absurd (ground (arith, n, ap (λ t. length t) (same_sound a b s)))
]

-- The first test of the loop.
tested :
    (a rest b : List ℕ)
    → All (λ c. c ≢ 0) a
    → (length a == length b && same_up_to (length a) (a ++ rest) b) ≡ same a b
tested a rest b text = elim (Bool-cases (length a == length b)) [
  | inl e ↦ rw e (same_up_to-same a rest b text ((==_iff (length a) (length b)).0 e))
  | inr n ↦ rw n (sym (same-length a b n))
]

module _ (app : Application) (n : Name) (rest : List ℕ) (params : PublishMessageParams)
    (levels : IsName n) (text : All (λ c. c ≢ 0) (name_text n)) where
  abbrev message : Delivery
  message = record {
    topic_name = name_text n ++ rest;
    topic_name_len = length (name_text n);
    params = params;
  }

  is_addressed-is_meant :
      (h : MessageHandler) (f : Option Filter)
      → HasFilter h f
      → is_addressed message h ≡ is_meant n f
  unfolding is_addressed
  is_addressed-is_meant h none e = rw e refl
  is_addressed-is_meant h (some f) (e, len, filter) =
      let front = take-append (name_text n) rest in
      rw (e, len, front, tested (name_text n) rest (filter_text f) text)
        (ap (λ b. same (name_text n) (filter_text f) || b)
          (is_topic_matched-matches f n filter levels))

  call_handler-is_meant :
      (h : MessageHandler) (f : Option Filter) (c : Client)
      → HasFilter h f
      → call_handler app message h c ≡ (
          if is_meant n f
          then call_by app message h.application_handler_data h.application_handler c
          else c)
  unfolding call_handler is_addressed
  call_handler-is_meant h f c fits =
      let meant = is_addressed-is_meant h f fits in
      elim (Option-cases h.application_handler) [
        | inl e ↦ rw e (ap (λ b. if b then c else c) meant)
        | inr (address, e) ↦
            rw e (ap (λ b. if b then app address h.application_handler_data message c else c) meant)
      ]

  run_addressed-run_meant :
      (handlers : List MessageHandler) (filters : List (Option Filter)) (c : Client)
      → HaveFilters handlers filters
      → run_addressed app message handlers c ≡ run_meant app message n handlers filters c
  run_addressed-run_meant [] [] c fits = refl
  run_addressed-run_meant [] (f ∷ filters) c fits = absurd fits
  run_addressed-run_meant (h ∷ handlers) [] c fits = absurd fits
  run_addressed-run_meant (h ∷ handlers) (f ∷ filters) c (fit, fits) =
      ap (run_addressed app message handlers) (call_handler-is_meant h f c fit)
      ∙ run_addressed-run_meant handlers filters _ fits

-- A message on a topic of some levels, whose name stands at the front of the received text: the
-- functions of the handlers whose filter is the topic or matches its levels are called, each once and
-- in the order of the table, and no other. Meanwhile the client waits for the callbacks to return, and
-- afterwards it is in the state from before. This holds for a full table whose entries are free or
-- have a filter with its length, and a name without a NUL, where the handlers change neither the table
-- nor the state of the client and both locks are had.
pub deliver_message-filters :
    (app : Application) (s1 s2 : Semaphore) (n : Name) (rest : List ℕ)
    (params : PublishMessageParams) (filters : List (Option Filter)) (c : Client)
    → IsQuiet app
    → length c.message_handlers ≡ num_subscribe_handlers
    → HaveFilters c.message_handlers filters
    → IsName n
    → All (λ a. a ≢ 0) (name_text n)
    → IsLocked s1 c
    → IsLocked s2 c
    → deliver_message app s1 s2 (some (name_text n ++ rest)) (length (name_text n)) params c ≡ (
        let m : Delivery = record {
          topic_name = name_text n ++ rest;
          topic_name_len = length (name_text n);
          params = params;
        } in
        let called =
          run_meant app m n c.message_handlers filters
            (record c { client_state = connected_wait_for_cb_return }) in
        (guard s2.given mutex_unlock_error, record called { client_state = c.client_state }))
deliver_message-filters app s1 s2 n rest params filters c quiet full fits levels text h1 h2 =
    deliver_message_lem app s1 s2 (name_text n ++ rest) (length (name_text n)) params c quiet full
      h1 h2
    ∙ ap
        (λ called.
          (guard s2.given mutex_unlock_error, record called { client_state = c.client_state }))
        (run_addressed-run_meant app n rest params levels text c.message_handlers filters
          (record c { client_state = connected_wait_for_cb_return }) fits)
