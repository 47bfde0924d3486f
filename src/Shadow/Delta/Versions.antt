-- ===== src/Shadow/Delta/Versions.antt =====
-- What is kept of a change, and of a subscribe that fails.
use hornbill_examples.Common.{
  ℕ, ◌<◌, ltb, leb, ltb-false, leb-false, Bool, true, false, Bool-cases, if◌then◌else◌, not, List,
  [], ◌∷◌, Option, some, length, ◌≡◌, refl, sym, ap, subst, ◌∙◌, inl, inr, arith,
}
use hornbill_examples.Errors.{IotError, Result, ok, err, ◌>>=◌}
use hornbill_examples.Shadow.Acks.{Documents, shadow_max_size_of_rx_buffer}
use hornbill_examples.Shadow.Delta.{
  DeltaClient, Deltas, max_json_token_expected, delta_topic, with_client, subscribed,
  subscribe_once, add_token, register_json_token_on_delta, all_told, told_if_newer, delta_received,
  shadow_delta_callback,
}

module _ {ℓ} {C : Type ℓ} (client : DeltaClient C) where
  with_version :
      (docs : Documents) (n : ℕ) (s : Deltas C)
      → docs.is_json_valid s.waiting.rx_buf ≡ true
      → s.is_old_discarded ≡ true
      → docs.version_number s.waiting.rx_buf ≡ some n
      → delta_received client docs s ≡ told_if_newer client (some n) s
  with_version docs n s valid discards version =
      ap
        (λ b.
          if not b
          then s
          else (if s.is_old_discarded
              then told_if_newer client (docs.version_number s.waiting.rx_buf) s
              else all_told client s))
        valid
      ∙ ap
          (λ b.
            if b
            then told_if_newer client (docs.version_number s.waiting.rx_buf) s
            else all_told client s)
          discards
      ∙ ap (λ v. told_if_newer client v s) version

  abbrev acted : ℕ → Deltas C → Deltas C
  acted n s = all_told client (record s { waiting = record s.waiting { json_version_num = n } })

  told_if_newer-value :
      (n : ℕ) (s : Deltas C) (b : Bool)
      → ltb s.waiting.json_version_num n ≡ b
      → told_if_newer client (some n) s ≡ (if b then acted n s else s)
  told_if_newer-value n s b t = ap (λ c. if c then acted n s else s) t

  -- A text that is in the buffer, acted on again.
  delta_received-once :
      (docs : Documents) (n : ℕ) (s : Deltas C)
      → s.is_old_discarded ≡ true
      → docs.version_number s.waiting.rx_buf ≡ some n
      → let received = delta_received client docs s in
        delta_received client docs
          (record received { waiting = record received.waiting { rx_buf = s.waiting.rx_buf } })
        ≡ received
  delta_received-once docs n s discards version =
      let P = λ (t : Deltas C).
        delta_received client docs
          (record t { waiting = record t.waiting { rx_buf = s.waiting.rx_buf } })
        ≡ t in
      let idle = λ (valid : docs.is_json_valid s.waiting.rx_buf ≡ false).
        ap
          (λ b.
            if not b
            then s
            else (if s.is_old_discarded
                then told_if_newer client (docs.version_number s.waiting.rx_buf) s
                else all_told client s))
          valid in
      elim (Bool-cases (docs.is_json_valid s.waiting.rx_buf)) [
        | inr valid ↦ subst P (sym (idle valid)) (idle valid)
        | inl valid ↦ elim (Bool-cases (ltb s.waiting.json_version_num n)) [
          | inl t ↦
              subst P
                (sym
                  (with_version docs n s valid discards version ∙ told_if_newer-value n s true t))
                (with_version docs n (acted n s) valid discards version
                  ∙ told_if_newer-value n (acted n s) false (ltb-false n n (omega arith)))
          | inr t ↦
              subst P
                (sym
                  (with_version docs n s valid discards version ∙ told_if_newer-value n s false t))
                (with_version docs n s valid discards version ∙ told_if_newer-value n s false t)
        ]
      ]

  -- A delta that has a version is acted on once: where it comes again, nothing changes, if old deltas
  -- are discarded.
  pub shadow_delta_callback-once :
      (docs : Documents) (payload : List ℕ) (n : ℕ) (s : Deltas C)
      → s.is_old_discarded ≡ true
      → docs.version_number payload ≡ some n
      → (shadow_delta_callback client docs payload s >>= shadow_delta_callback client docs payload)
        ≡ shadow_delta_callback client docs payload s
  unfolding shadow_delta_callback
  shadow_delta_callback-once docs payload n s discards version =
      let s1 : Deltas C = record s { waiting = record s.waiting { rx_buf = payload } } in
      elim (Bool-cases (ltb shadow_max_size_of_rx_buffer (length payload))) [
        | inl long ↦ rw (long, long) refl
        | inr fits ↦ elim (Bool-cases (ltb (length payload) shadow_max_size_of_rx_buffer)) [
          | inl short ↦
              rw (fits, short, fits, short) (ap ok (delta_received-once docs n s1 discards version))
          | inr full ↦ rw (fits, full) refl
        ]
      ]

  -- The tokens of a list are registered one after the other.
  abbrev pub register_all : List ℕ → List (ℕ × Option ℕ) → Deltas C → Deltas C
  register_all thing_name [] s = s
  register_all thing_name ((a, f) ∷ rest) s =
      register_all thing_name rest (register_json_token_on_delta client thing_name a f s).1

  -- Only the table changes.
  abbrev Kept : Deltas C → Deltas C → Type ℓ
  Kept s t = (t.is_topic_subscribed ≡ s.is_topic_subscribed) × (t.waiting ≡ s.waiting)

  add_token-Kept :
      (a : ℕ) (f : Option ℕ) (rc : Result (Unit {0})) (s : Deltas C)
      → Kept s (add_token client a f (rc, s)).1
  add_token-Kept a f rc s = elim (Bool-cases (leb max_json_token_expected (length s.token_table))) [
    | inl full ↦ rw full (refl, refl)
    | inr room ↦ rw room (refl, refl)
  ]

  register_all-Kept :
      (thing_name : List ℕ) (rest : List (ℕ × Option ℕ)) (s : Deltas C)
      → s.is_topic_subscribed ≡ true
      → Kept s (register_all thing_name rest s)
  unfolding register_json_token_on_delta
  register_all-Kept thing_name [] s flag = (refl, refl)
  register_all-Kept thing_name ((a, f) ∷ rest) s flag =
      let once : subscribe_once client thing_name s ≡ (ok tt, s) =
        ap
          (λ b.
            if b
            then (ok tt, s)
            else subscribed client s
                (client.subscribe_delta (delta_topic thing_name) s.waiting.client))
          flag in
      let kept = add_token-Kept a f (ok tt) s in
      let later =
        register_all-Kept thing_name rest (add_token client a f (ok tt, s)).1 (kept.0 ∙ flag) in
      subst (λ r. Kept s (register_all thing_name rest (add_token client a f r).1)) (sym once)
        (later.0 ∙ kept.0, later.1 ∙ kept.1)

  -- Where the subscribe of the first register fails, the register returns its error, and no later
  -- register subscribes: the client is as the failed subscribe left it.
  pub register_json_token_on_delta-unsubscribed :
      (thing_name : List ℕ) (a : ℕ) (f : Option ℕ) (e : IotError) (c : C)
      (rest : List (ℕ × Option ℕ)) (s : Deltas C)
      → s.is_topic_subscribed ≡ false
      → length s.token_table < max_json_token_expected
      → client.subscribe_delta (delta_topic thing_name) s.waiting.client ≡ (err e, c)
      → ((register_json_token_on_delta client thing_name a f s).0 ≡ err e)
        × ((register_all thing_name ((a, f) ∷ rest) s).waiting.client ≡ c)
  unfolding register_json_token_on_delta
  register_json_token_on_delta-unsubscribed thing_name a f e c rest s flag room failed =
      let after : Deltas C = record (with_client client s c) { is_topic_subscribed = true } in
      let once : subscribe_once client thing_name s ≡ (err e, after) =
        ap
          (λ b.
            if b
            then (ok tt, s)
            else subscribed client s
                (client.subscribe_delta (delta_topic thing_name) s.waiting.client))
          flag
        ∙ ap (subscribed client s) failed in
      let kept = add_token-Kept a f (err e) after in
      let later =
        register_all-Kept thing_name rest (add_token client a f (err e, after)).1 kept.0 in
      subst
        (λ r.
          ((add_token client a f r).0 ≡ err e)
          × ((register_all thing_name rest (add_token client a f r).1).waiting.client ≡ c))
        (sym once)
        (
          rw (leb-false max_json_token_expected (length s.token_table) room) refl,
          ap (λ w. w.client) (later.1 ∙ kept.1),
        )
