-- ===== src/Client/Handlers/Table.antt =====
-- The table of handlers as a set of subscriptions.
use hornbill_examples.Common.{
  Option-cases, sym, ℕ, ◌<◌, if◌then◌else◌, Bool, true, false, List, [], ◌∷◌, none, set, same,
  same_sound, length, take, drop, ◌++◌, ◌≡◌, inl, inr, refl, arith, Bool-cases,
}
use hornbill_examples.Client.{MessageHandler}
use hornbill_examples.Client.Handlers.{
  is_free, is_for, free_index, subscription_exists, remove_handlers,
}

-- The live entries of the table, in its order.
abbrev pub subscriptions : List MessageHandler → List MessageHandler
subscriptions [] = []
subscriptions (h ∷ handlers) =
    if is_free h then subscriptions handlers else h ∷ subscriptions handlers

-- The subscriptions to other filters.
abbrev pub without : List ℕ → List MessageHandler → List MessageHandler
without f [] = []
without f (h ∷ handlers) = if is_for f h then without f handlers else h ∷ without f handlers

-- Where the table has a free entry, a live handler stored at the free index joins the subscriptions,
-- and every subscription that the table had stays, in its order.
pub store_handler-subscriptions :
    (handlers : List MessageHandler) (h : MessageHandler)
    → is_free h ≡ false
    → free_index handlers < length handlers
    → subscriptions (set handlers (free_index handlers) h)
      ≡ take (free_index handlers) (subscriptions handlers)
        ++ (h ∷ drop (free_index handlers) (subscriptions handlers))
unfolding free_index
store_handler-subscriptions [] h hf lt = absurd (omega arith)
store_handler-subscriptions (k ∷ handlers) h hf lt = elim (Bool-cases (is_free k)) [
  | inl e ↦ rw (e, hf)
  | inr e ↦
      let lt' : free_index handlers < length handlers = ground arith in
      let ih = store_handler-subscriptions handlers h hf lt' in rw (e, ih, e)
]

same_hit :
    (name f g : List ℕ) → same name f ≡ true → (if same f g then false else same name g) ≡ false
same_hit name f g h =
    let e : name ≡ f = same_sound name f h in
    elim (Bool-cases (same f g)) [ inl t ↦ rw t | inr t ↦ rw (t, e, t) ]

same_miss :
    (name f g : List ℕ)
    → same name f ≡ false
    → same name g ≡ (if same f g then false else same name g)
same_miss name f g h = elim (Bool-cases (same f g)) [
  | inl t ↦ let e : f ≡ g = same_sound f g t in rw (t, sym e, h)
  | inr t ↦ rw t
]

if_same {ℓ} : {A : Type ℓ} (b : Bool) (a : A) → a ≡ (if b then a else a)
if_same true a = refl
if_same false a = refl

remove_entry :
    (f g : List ℕ) (h : MessageHandler)
    → is_for g (if is_for f h then record h { topic_name = none } else h)
      ≡ (if same f g then false else is_for g h)
remove_entry f g h = elim (Option-cases h.topic_name) [
  | inl e ↦ rw e (if_same (same f g) false)
  | inr (name, e) ↦ elim (Bool-cases (same name f)) [
    | inl t ↦ rw (e, t) (sym (same_hit name f g t))
    | inr t ↦ rw (e, t) (same_miss name f g t)
  ]
]

-- After the entries for a filter are removed, the table has no subscription to that filter, and to
-- every other filter it has one just where it had one before.
pub remove_handlers-exists :
    (f g : List ℕ) (handlers : List MessageHandler)
    → subscription_exists g (remove_handlers f handlers)
      ≡ (if same f g then false else subscription_exists g handlers)
unfolding subscription_exists remove_handlers
remove_handlers-exists f g [] = if_same (same f g) false
remove_handlers-exists f g (h ∷ handlers) =
    ground (arith, remove_handlers-exists f g handlers, remove_entry f g h)

-- Removing a filter takes every subscription to it out of the table, also where there are several,
-- and leaves the other subscriptions in their order.
pub remove_handlers-subscriptions :
    (f : List ℕ) (handlers : List MessageHandler)
    → subscriptions (remove_handlers f handlers) ≡ without f (subscriptions handlers)
unfolding remove_handlers
remove_handlers-subscriptions f [] = refl
remove_handlers-subscriptions f (h ∷ handlers) = elim (Option-cases h.topic_name) [
  | inl e ↦ rw (e, remove_handlers-subscriptions f handlers)
  | inr (name, e) ↦ elim (Bool-cases (same name f)) [
    | inl t ↦ rw (e, t, remove_handlers-subscriptions f handlers)
    | inr t ↦ rw (e, t, remove_handlers-subscriptions f handlers)
  ]
]
