-- ===== src/Shadow/Subscriptions/Leak.antt =====
-- A subscribe to the acknowledgements that fails.
use hornbill_examples.Common.{
  ℕ, zero, suc, ◌+◌, if◌then◌else◌, Bool, false, Bool-cases, Option-cases, List, [], ◌∷◌, Option,
  none, some, ◌≡◌, refl, ◌∙◌, sym, ap, arith, inl, inr,
}
use hornbill_examples.Errors.{IotError, Result, ok, err, fault}
use hornbill_examples.Shadow.{
  ShadowAction, shadow_accepted, shadow_rejected, SubscriptionRecord,
  topic_name_from_thing_and_action, update_at, first_free, occupy, release, Subscriber, counted,
  named, after_rejected, after_accepted, subscribe_to_shadow_action_acks,
}
use hornbill_examples.Shadow.Subscriptions.{HasTwoFree, taken, subscribe_entries}

-- The free entries of the table.
abbrev pub free_count : List SubscriptionRecord → ℕ
free_count [] = 0
free_count (r ∷ records) = (if r.is_free then 1 else 0) + free_count records

abbrev free_at : List SubscriptionRecord → ℕ → Option Bool
free_at [] i = none
free_at (r ∷ records) zero = some r.is_free
free_at (r ∷ records) (suc i) = free_at records i

-- An assignment to another field.
abbrev KeepsFree : (SubscriptionRecord → SubscriptionRecord) → Type 0
KeepsFree f = (r : SubscriptionRecord) → (f r).is_free ≡ r.is_free

free_at-update_at :
    (f : SubscriptionRecord → SubscriptionRecord) (i k : ℕ) (records : List SubscriptionRecord)
    → KeepsFree f
    → free_at (update_at f i records) k ≡ free_at records k
free_at-update_at f i k [] h = refl
free_at-update_at f zero zero (r ∷ records) h = ap some (h r)
free_at-update_at f zero (suc k) (r ∷ records) h = refl
free_at-update_at f (suc i) zero (r ∷ records) h = refl
free_at-update_at f (suc i) (suc k) (r ∷ records) h = free_at-update_at f i k records h

free_count-update_at :
    (f : SubscriptionRecord → SubscriptionRecord) (i : ℕ) (records : List SubscriptionRecord)
    → KeepsFree f
    → free_count (update_at f i records) ≡ free_count records
free_count-update_at f i [] h = refl
free_count-update_at f zero (r ∷ records) h =
    ap (λ b. (if b then 1 else 0) + free_count records) (h r)
free_count-update_at f (suc i) (r ∷ records) h = omega (arith, free_count-update_at f i records h)

free_count-release :
    (i : ℕ) (records : List SubscriptionRecord)
    → free_at records i ≡ some false
    → free_count (update_at release i records) ≡ suc (free_count records)
free_count-release i [] h = cc
free_count-release zero (r ∷ records) h =
    let e : r.is_free ≡ false = ground (arith, h) in ground (arith, e)
free_count-release (suc i) (r ∷ records) h = omega (arith, free_count-release i records h)

-- An entry that is found loses its freedom, and no other changes.
free_count-occupy :
    (i : ℕ) (records : List SubscriptionRecord)
    → first_free records ≡ some i
    → (suc (free_count (update_at occupy i records)) ≡ free_count records)
      × (free_at (update_at occupy i records) i ≡ some false)
unfolding first_free
free_count-occupy i [] h = cc
free_count-occupy i (r ∷ records) h = elim (Bool-cases r.is_free) [
  | inl t ↦ let e : i ≡ 0 = ground (arith, t, h) in rw e (ground (arith, t), refl)
  | inr t ↦ elim (Option-cases (first_free records)) [
    | inl n ↦ absurd (ground (arith, t, h, n))
    | inr (k, m) ↦
        let e : i ≡ suc k = ground (arith, t, h, m) in
        let rest = free_count-occupy k records m in rw e (ground (arith, t, rest.0), rest.1)
  ]
]

free_at-occupy :
    (i k : ℕ) (records : List SubscriptionRecord)
    → free_at records k ≡ some false
    → free_at (update_at occupy i records) k ≡ some false
free_at-occupy i k [] h = h
free_at-occupy zero zero (r ∷ records) h = refl
free_at-occupy zero (suc k) (r ∷ records) h = h
free_at-occupy (suc i) zero (r ∷ records) h = h
free_at-occupy (suc i) (suc k) (r ∷ records) h = free_at-occupy i k records h

module _ {ℓ} {C : Type ℓ} (client : Subscriber C) where
  after_rejected-leaks :
      (is_sticky : Bool) (i j : ℕ) (records : List SubscriptionRecord) (o : Result (Unit {0}) × C)
      (e : IotError)
      → (after_rejected client is_sticky i j records o).0 ≡ err e
      → free_at records i ≡ some false
      → free_count (after_rejected client is_sticky i j records o).1.0 ≡ suc (free_count records)
  after_rejected-leaks is_sticky i j records (ok _, c) e h b = cc
  after_rejected-leaks is_sticky i j records (err x, c) e h b = free_count-release i records b
  after_rejected-leaks is_sticky i j records (fault, c) e h b = cc

  after_accepted-leaks :
      (topic : List ℕ) (is_sticky : Bool) (i j : ℕ) (records : List SubscriptionRecord)
      (o : Result (Unit {0}) × C) (e : IotError)
      → (after_accepted client topic is_sticky i j records o).0 ≡ err e
      → free_at records i ≡ some false
      → free_count (after_accepted client topic is_sticky i j records o).1.0
        ≡ suc (free_count records)
  after_accepted-leaks topic is_sticky i j records (ok _, c) e h b =
      let counts = update_at (counted client is_sticky) i records in
      let names = update_at (named client topic) j counts in
      let count : KeepsFree (counted client is_sticky) = λ r. refl in
      let name : KeepsFree (named client topic) = λ r. refl in
      after_rejected-leaks is_sticky i j names (client.subscribe_topic topic c) e h (
        free_at-update_at (named client topic) j i counts name
        ∙ free_at-update_at (counted client is_sticky) i i records count
        ∙ b)
      ∙ ap suc (
          free_count-update_at (named client topic) j counts name
          ∙ free_count-update_at (counted client is_sticky) i records count)
  after_accepted-leaks topic is_sticky i j records (err x, c) e h b = free_count-release i records b
  after_accepted-leaks topic is_sticky i j records (fault, c) e h b = cc

  -- Where the table has two free entries and one of the two subscribes fails, the call returns with
  -- one free entry less: the entry for the acceptances is given back, and the one for the
  -- rejections is not.
  pub subscribe_to_shadow_action_acks-leaks :
      (thing_name : List ℕ) (action : ShadowAction) (is_sticky : Bool)
      (records : List SubscriptionRecord) (c : C) (e : IotError)
      → HasTwoFree records
      → (subscribe_to_shadow_action_acks client thing_name action is_sticky records c).0 ≡ err e
      → suc (
          free_count
            (subscribe_to_shadow_action_acks client thing_name action is_sticky records c).1.0)
        ≡ free_count records
  subscribe_to_shadow_action_acks-leaks thing_name action is_sticky records c e two h =
      let found = subscribe_entries client thing_name action is_sticky records c two in
      let accepted = topic_name_from_thing_and_action thing_name action shadow_accepted in
      let rejected = topic_name_from_thing_and_action thing_name action shadow_rejected in
      let start : List SubscriptionRecord = taken records two in
      let names = update_at (named client accepted) two.first start in
      let name : KeepsFree (named client accepted) = λ r. refl in
      let one = free_count-occupy two.first records two.found_first in
      let other =
        free_count-occupy two.second (update_at occupy two.first records) two.found_second in
      let busy : free_at names two.first ≡ some false =
        free_at-update_at (named client accepted) two.first two.first start name
        ∙ free_at-occupy two.second two.first (update_at occupy two.first records) one.1 in
      let after =
        after_accepted-leaks rejected is_sticky two.first two.second names
          (client.subscribe_topic accepted c) e
          (sym (ap (λ (o : Result (Unit {0}) × (List SubscriptionRecord × C)). o.0) found) ∙ h)
          busy in
      let kept = free_count-update_at (named client accepted) two.first start name in
      omega (
        arith,
        ap (λ (o : Result (Unit {0}) × (List SubscriptionRecord × C)). free_count o.1.0) found,
        after,
        kept,
        one.0,
        other.0,
      )
