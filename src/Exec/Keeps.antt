-- ===== src/Exec/Keeps.antt =====
-- Invariants of the functions, with a rule for each way to build one.
use hornbill_examples.Common.{◌≡◌, refl, Bool, true, false, if◌then◌else◌}
use hornbill_examples.Errors.{IotError, Result, ok, err, fault}
use hornbill_examples.Client.{Client}
use hornbill_examples.Exec.{
  Running, Exec, pure, raise, lift, gets, caught, attempt, continue, ◌>>=◌,
}

module _ {ℓ} {W : Type ℓ} {A : Type 0} where
  caught-state : (r : Result A) (s : Running W) → (caught (r, s)).1 ≡ s
  caught-state (ok a) s = refl
  caught-state (err e) s = refl
  caught-state fault s = refl

-- Whatever the run of `m` comes to, `P` holds after it where it held before.
pub record Keeps {ℓ κ} {W : Type ℓ} {A : Type 0} (P : Running W → Type κ) (m : Exec W A)
    : Type (ℓ ⊔ κ) where
  pub at : (before : Running W) → P before → P (m before).1

module _ {ℓ κ} {W : Type ℓ} {A B : Type 0} {P : Running W → Type κ} where
  continue-Keeps :
      (r : Result A) (f : A → Exec W B) → ((a : A) → Keeps P (f a)) → Keeps P (continue r f)
  continue-Keeps (ok a) f rest = rest a
  continue-Keeps (err e) f rest = record { at = λ before held. held }
  continue-Keeps fault f rest = record { at = λ before held. held }

  pub Keeps-bind :
      (m : Exec W A) (f : A → Exec W B) → Keeps P m → ((a : A) → Keeps P (f a)) → Keeps P (m >>= f)
  unfolding ◌>>=◌
  Keeps-bind m f first rest = record {
    at = λ before held.
        let (r, between) = m before in (continue-Keeps r f rest).at between (first.at before held);
  }

module _ {ℓ κ} {W : Type ℓ} {A : Type 0} {P : Running W → Type κ} where
  pub Keeps-if :
      (test : Bool) (m n : Exec W A) → Keeps P m → Keeps P n → Keeps P (if test then m else n)
  Keeps-if true m n first second = first
  Keeps-if false m n first second = second

  pub Keeps-gets : (field : Client → A) → Keeps P (gets field)
  unfolding gets
  Keeps-gets field = record { at = λ before held. held }

  pub Keeps-attempt : (m : Exec W A) → Keeps P m → Keeps P (attempt m)
  unfolding attempt
  Keeps-attempt m k = record {
    at = λ before held. let (r, after) = m before in rw (caught-state r after) (k.at before held);
  }

  pub Keeps-lift : (code : Result A) → Keeps P (lift code)
  unfolding lift
  Keeps-lift code = record { at = λ before held. held }

  pub Keeps-raise : (code : IotError) → Keeps P (raise {A = A} code)
  unfolding raise
  Keeps-raise code = record { at = λ before held. held }

  pub Keeps-pure : (value : A) → Keeps P (pure value)
  unfolding pure
  Keeps-pure value = record { at = λ before held. held }

pub ruleset keeps_rules =
    (Keeps-bind, Keeps-attempt, Keeps-if, Keeps-gets, Keeps-lift, Keeps-pure, Keeps-raise)
