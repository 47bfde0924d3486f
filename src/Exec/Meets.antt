-- ===== src/Exec/Meets.antt =====
-- What holds after a function that was started where a condition holds: for its result, and for its
-- error.
use hornbill_examples.Common.{◌≡◌, refl, Bool, true, false, if◌then◌else◌}
use hornbill_examples.Errors.{IotError, Result, ok, err, fault}
use hornbill_examples.Client.{Client}
use hornbill_examples.Exec.{
  Running, Exec, pure, raise, lift, caught, gets, attempt, continue, ◌>>=◌,
}
use hornbill_examples.Exec.Keeps.{Keeps}

module _ {ℓ κ} {W : Type ℓ} {A : Type 0} where
  -- Nothing is said where a fault is met.
  abbrev pub Post :
      (A → Running W → Type κ) → (IotError → Running W → Type κ) → Result A × Running W → Type κ
  Post Q E (ok a, s) = Q a s
  Post Q E (err e, s) = E e s
  Post Q E (fault, s) = Unit

  pub record Meets (P : Running W → Type κ) (m : Exec W A) (Q : A → Running W → Type κ)
      (E : IotError → Running W → Type κ) : Type (ℓ ⊔ κ) where
    pub at : (s : Running W) → P s → Post Q E (m s)

module _ {ℓ κ} {W : Type ℓ} {A : Type 0} where
  Post-kept :
      (P : Running W → Type κ) (r : Result A) (s : Running W)
      → P s
      → Post (λ (a : A). P) (λ e. P) (r, s)
  Post-kept P (ok a) s h = h
  Post-kept P (err e) s h = h
  Post-kept P fault s h = tt

  Post-caught :
      (R : Running W → Type κ) (E : IotError → Running W → Type κ) (r : Result A) (s : Running W)
      → Post (λ (a : A). R) (λ e. R) (r, s)
      → Post (λ (r' : Result A). R) E (caught (r, s))
  Post-caught R E (ok a) s h = h
  Post-caught R E (err e) s h = h
  Post-caught R E fault s h = tt

  Post-attempted :
      (P : Running W → Type κ) (E : IotError → Running W → Type κ) (r : Result A) (s : Running W)
      → P s
      → Post (λ (a : Result A). P) E (caught (r, s))
  Post-attempted P E (ok a) s h = h
  Post-attempted P E (err e) s h = h
  Post-attempted P E fault s h = tt

  pub Keeps-Meets :
      {P : Running W → Type κ} (m : Exec W A) → Keeps P m → Meets P m (λ a. P) (λ e. P)
  Keeps-Meets {P = P} m k = record { at = λ s h. let (r, s') = m s in Post-kept P r s' (k.at s h) }

  -- An attempt has no error.
  pub Keeps-attempt_Meets :
      {P : Running W → Type κ} (E : IotError → Running W → Type κ) (m : Exec W A)
      → Keeps P m
      → Meets P (attempt m) (λ r. P) E
  unfolding attempt
  Keeps-attempt_Meets {P = P} E m k = record {
    at = λ s h. let (r, s') = m s in Post-attempted P E r s' (k.at s h);
  }

  -- What holds whether the call succeeds or not holds after an attempt.
  pub Meets-attempt :
      {P : Running W → Type κ} (R : Running W → Type κ) (E : IotError → Running W → Type κ)
      (m : Exec W A)
      → Meets P m (λ a. R) (λ e. R)
      → Meets P (attempt m) (λ r. R) E
  unfolding attempt
  Meets-attempt R E m k = record {
    at = λ s h. let (r, s') = m s in Post-caught R E r s' (k.at s h);
  }

module _ {ℓ κ} {W : Type ℓ} {A B : Type 0} where
  Post-continue :
      (R : A → Running W → Type κ) (Q : B → Running W → Type κ) (E : IotError → Running W → Type κ)
      (r : Result A) (s : Running W) (f : A → Exec W B)
      → ((a : A) → Meets (R a) (f a) Q E)
      → Post R E (r, s)
      → Post Q E (continue r f s)
  Post-continue R Q E (ok a) s f kf h = (kf a).at s h
  Post-continue R Q E (err e) s f kf h = h
  Post-continue R Q E fault s f kf h = tt

  pub Meets-bind :
      {P : Running W → Type κ} (R : A → Running W → Type κ) {Q : B → Running W → Type κ}
      {E : IotError → Running W → Type κ} (m : Exec W A) (f : A → Exec W B)
      → Meets P m R E
      → ((a : A) → Meets (R a) (f a) Q E)
      → Meets P (m >>= f) Q E
  unfolding ◌>>=◌
  Meets-bind R {Q = Q} {E = E} m f km kf = record {
    at = λ s h. let (r, s') = m s in Post-continue R Q E r s' f kf (km.at s h);
  }

module _ {ℓ κ} {W : Type ℓ} {A : Type 0} {P : Running W → Type κ} {Q : A → Running W → Type κ}
    {E : IotError → Running W → Type κ} where
  pub Meets-if :
      (b : Bool) (m n : Exec W A) → Meets P m Q E → Meets P n Q E → Meets P (if b then m else n) Q E
  Meets-if true m n km kn = km
  Meets-if false m n km kn = kn

  -- The branches may use the test.
  pub Meets-test :
      (b : Bool) (m n : Exec W A)
      → (b ≡ true → Meets P m Q E)
      → (b ≡ false → Meets P n Q E)
      → Meets P (if b then m else n) Q E
  Meets-test true m n km kn = km refl
  Meets-test false m n km kn = kn refl

  pub Meets-pure : (a : A) → ((s : Running W) → P s → Q a s) → Meets P (pure a) Q E
  unfolding pure
  Meets-pure a h = record { at = h }

  pub Meets-raise : (e : IotError) → ((s : Running W) → P s → E e s) → Meets P (raise {A = A} e) Q E
  unfolding raise
  Meets-raise e h = record { at = h }

  pub Meets-gets :
      (f : Client → A) → ((s : Running W) → P s → Q (f s.client) s) → Meets P (gets f) Q E
  unfolding gets
  Meets-gets f h = record { at = h }

  pub Meets-lift : (r : Result A) → ((s : Running W) → P s → Post Q E (r, s)) → Meets P (lift r) Q E
  unfolding lift
  Meets-lift r h = record { at = h }

module _ {ℓ κ} {W : Type ℓ} where
  -- No claim about the state.
  abbrev pub Any : Running W → Type κ
  Any s = Unit

  Post-Any : {A : Type 0} (o : Result A × Running W) → Post (λ (a : A). Any) (λ e. Any) o
  Post-Any (ok a, s) = tt
  Post-Any (err e, s) = tt
  Post-Any (fault, s) = tt

  pub Meets-Any :
      {A : Type 0} (P : Running W → Type κ) (m : Exec W A) → Meets P m (λ a. Any) (λ e. Any)
  Meets-Any P m = record { at = λ s h. Post-Any (m s) }

  -- What the rest of a block ensures from any state, the block ensures.
  pub Meets-then :
      {A B : Type 0} {P : Running W → Type κ} {Q : B → Running W → Type κ} (m : Exec W A)
      (f : A → Exec W B)
      → ((a : A) → Meets Any (f a) Q (λ e. Any))
      → Meets P (m >>= f) Q (λ e. Any)
  Meets-then m f kf = Meets-bind (λ a. Any) m f (Meets-Any _ m) kf

  Post-errors :
      {A : Type 0} (Q : A → Running W → Type κ) (E : IotError → Running W → Type κ)
      (o : Result A × Running W)
      → Post Q E o
      → Post Q (λ e. Any) o
  Post-errors Q E (ok a, s) h = h
  Post-errors Q E (err e, s) h = tt
  Post-errors Q E (fault, s) h = tt

  -- The claim about errors is dropped.
  pub Meets-errors :
      {A : Type 0} {P : Running W → Type κ} {Q : A → Running W → Type κ}
      {E : IotError → Running W → Type κ} (m : Exec W A)
      → Meets P m Q E
      → Meets P m Q (λ e. Any)
  Meets-errors {Q = Q} {E = E} m k = record { at = λ s h. Post-errors Q E (m s) (k.at s h) }

  Post-weaken :
      {A : Type 0} (Q Q' : A → Running W → Type κ) (E E' : IotError → Running W → Type κ)
      (o : Result A × Running W)
      → ((a : A) (s : Running W) → Q a s → Q' a s)
      → ((e : IotError) (s : Running W) → E e s → E' e s)
      → Post Q E o
      → Post Q' E' o
  Post-weaken Q Q' E E' (ok a, s) q e h = q a s h
  Post-weaken Q Q' E E' (err x, s) q e h = e x s h
  Post-weaken Q Q' E E' (fault, s) q e h = tt

  pub Meets-weaken :
      {A : Type 0} {P : Running W → Type κ} {Q Q' : A → Running W → Type κ}
      {E E' : IotError → Running W → Type κ} (m : Exec W A)
      → Meets P m Q E
      → ((a : A) (s : Running W) → Q a s → Q' a s)
      → ((e : IotError) (s : Running W) → E e s → E' e s)
      → Meets P m Q' E'
  Meets-weaken {Q = Q} {Q' = Q'} {E = E} {E' = E'} m k q e = record {
    at = λ s h. Post-weaken Q Q' E E' (m s) q e (k.at s h);
  }

module _ {ℓ} {W : Type ℓ} {A : Type 0} where
  -- What the code of a call tells. An attempt does not come back from a fault.
  abbrev pub Told :
      (A → Running W → Type 0) → (IotError → Running W → Type 0) → Result A → Running W → Type 0
  Told Q E (ok a) s = Q a s
  Told Q E (err e) s = E e s
  Told Q E fault s = ⊥

  Post-Told :
      (Q : A → Running W → Type 0) (E F : IotError → Running W → Type 0) (o : Result A × Running W)
      → Post Q E o
      → Post (Told Q E) F (caught o)
  Post-Told Q E F (ok a, s) h = h
  Post-Told Q E F (err e, s) h = h
  Post-Told Q E F (fault, s) h = tt

  pub Meets-Told :
      {P : Running W → Type 0} {Q : A → Running W → Type 0} {E : IotError → Running W → Type 0}
      (F : IotError → Running W → Type 0) (m : Exec W A)
      → Meets P m Q E
      → Meets P (attempt m) (Told Q E) F
  unfolding attempt
  Meets-Told {Q = Q} {E = E} F m k = record { at = λ s h. Post-Told Q E F (m s) (k.at s h) }
