-- ===== src/Shadow/Subscriptions.antt =====
-- The table of the shadow client's subscriptions.
pub mod Leak
pub mod Present
use hornbill_examples.Common.{
  ℕ, zero, suc, ◌+◌, ◌<◌, ◌≤◌, ◌==◌, ◌||◌, ◌&&◌, if◌then◌else◌, not, Bool, true, false, Bool-cases,
  Option-cases, List, [], ◌∷◌, ◌++◌, Option, none, some, get_elem?, length, length-append, take,
  codes, same, same_refl, ==_refl, ◌≡◌, ◌≢◌, refl, ◌∙◌, sym, ap, arith, inl, inr,
}
use hornbill_examples.Errors.{IotError, Result, ok, err, fault}
use hornbill_examples.Shadow.{
  ShadowAction, shadow_get, shadow_update, shadow_delete, shadow_accepted, shadow_rejected,
  SubscriptionRecord, action_text, ack_text, max_shadow_topic_length_bytes,
  topic_name_from_thing_and_action, update_at, next_index, first_free, occupy, release, occupied,
  get_next_free_index_of_subscription_list, present_loop, is_subscription_present, Subscriber,
  cleared, counted, named, unsubscribe_counted, after_rejected, after_accepted, with_entries,
  subscribe_to_shadow_action_acks,
}

pub get-update_at :
    (f : SubscriptionRecord → SubscriptionRecord) (i : ℕ) (records : List SubscriptionRecord)
    (r : SubscriptionRecord)
    → get_elem? records i ≡ some r
    → get_elem? (update_at f i records) i ≡ some (f r)
get-update_at f i [] r h = cc
get-update_at f zero (x ∷ records) r h = ap some (ap f (ground (arith, h)))
get-update_at f (suc i) (x ∷ records) r h = get-update_at f i records r h

pub get-update_other :
    (f : SubscriptionRecord → SubscriptionRecord) (i j : ℕ) (records : List SubscriptionRecord)
    → i ≢ j
    → get_elem? (update_at f i records) j ≡ get_elem? records j
get-update_other f i j [] n = refl
get-update_other f zero zero (x ∷ records) n = absurd (n refl)
get-update_other f zero (suc j) (x ∷ records) n = refl
get-update_other f (suc i) zero (x ∷ records) n = refl
get-update_other f (suc i) (suc j) (x ∷ records) n =
    get-update_other f i j records (λ e. n (ap suc e))

-- The entry that is found is free.
pub record FirstFree (records : List SubscriptionRecord) (i : ℕ) : Type 0 where
  pub entry : SubscriptionRecord
  pub here : get_elem? records i ≡ some entry
  pub free : entry.is_free ≡ true

pub first_free-FirstFree :
    (records : List SubscriptionRecord) (i : ℕ) → first_free records ≡ some i → FirstFree records i
unfolding first_free
first_free-FirstFree [] i h = cc
first_free-FirstFree (x ∷ records) i h = elim (Bool-cases x.is_free) [
  | inl t ↦
      let e : i ≡ 0 = ground (arith, t, h) in
      record { entry = x; here = ap (get_elem? (x ∷ records)) e; free = t }
  | inr t ↦ elim (Option-cases (first_free records)) [
    | inl n ↦ absurd (ground (arith, t, h, n))
    | inr (k, m) ↦
        let e : i ≡ suc k = ground (arith, t, h, m) in
        let found = first_free-FirstFree records k m in
        record {
          entry = found.entry;
          here = ap (get_elem? (x ∷ records)) e ∙ found.here;
          free = found.free;
        }
  ]
]

-- Two free entries, as a call finds them.
pub record HasTwoFree (records : List SubscriptionRecord) : Type 0 where
  pub first : ℕ
  pub second : ℕ
  pub found_first : first_free records ≡ some first
  pub found_second : first_free (update_at occupy first records) ≡ some second

module _ (records : List SubscriptionRecord) (two : HasTwoFree records) where
  abbrev pub taken : List SubscriptionRecord
  taken = update_at occupy two.second (update_at occupy two.first records)

  pub differ : two.first ≢ two.second
  differ e =
      let one = first_free-FirstFree records two.first two.found_first in
      let other =
        first_free-FirstFree (update_at occupy two.first records) two.second two.found_second in
      let same_entry : some (occupy one.entry) ≡ some other.entry =
        sym (get-update_at occupy two.first records one.entry one.here)
        ∙ ap (get_elem? (update_at occupy two.first records)) e
        ∙ other.here in
      ground (arith, same_entry, other.free)

-- With two free entries, both calls find one.
pub subscribe_entries {ℓ} :
    {C : Type ℓ} (client : Subscriber C) (thing_name : List ℕ) (action : ShadowAction)
    (is_sticky : Bool) (records : List SubscriptionRecord) (c : C) (two : HasTwoFree records)
    → subscribe_to_shadow_action_acks client thing_name action is_sticky records c
      ≡ with_entries client thing_name action is_sticky
          (some two.first)
          (some two.second)
          (taken records two)
          c
unfolding subscribe_to_shadow_action_acks get_next_free_index_of_subscription_list
subscribe_entries client thing_name action is_sticky records c two =
    rw (two.found_first, two.found_second) refl
