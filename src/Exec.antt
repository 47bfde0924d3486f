-- ===== src/Exec.antt =====
-- Functions that work on the client and the world outside of it and may fail: what they did before
-- an error stays done, so the state comes back beside the error.
pub mod Keeps
pub mod Meets
use hornbill_examples.Common.{Bool}
use hornbill_examples.Errors.{IotError, Result, ok, err, fault}
use hornbill_examples.Timer.{Timer}
use hornbill_examples.Client.{Client}

-- The client behind pClient, the timer behind the pTimer of the operation that runs, and the world.
pub record Running {ℓ} (W : Type ℓ) : Type ℓ where
  pub client : Client
  pub timer : Timer
  pub world : W

abbrev pub Exec {ℓ} : Type ℓ → Type 0 → Type ℓ
Exec W A = Running W → Result A × Running W

module _ {ℓ} {W : Type ℓ} {A : Type 0} where
  unfoldable pub pure : A → Exec W A
  pure a s = (ok a, s)

  unfoldable pub raise : IotError → Exec W A
  raise e s = (err e, s)

  unfoldable pub lift : Result A → Exec W A
  lift r s = (r, s)

  -- A value read off the client.
  unfoldable pub gets : (Client → A) → Exec W A
  gets f s = (ok (f s.client), s)

  abbrev pub caught : Result A × Running W → Result (Result A) × Running W
  caught (ok a, s) = (ok (ok a), s)
  caught (err e, s) = (ok (err e), s)
  caught (fault, s) = (fault, s)

  -- A call whose return code is looked at.
  unfoldable pub attempt : Exec W A → Exec W (Result A)
  attempt m s = caught (m s)

module _ {ℓ} {W : Type ℓ} where
  unfoldable pub modify : (Client → Client) → Exec W (Unit {0})
  modify f s = (ok tt, record s { client = f s.client })

  unfoldable pub set_timer : Timer → Exec W (Unit {0})
  set_timer t s = (ok tt, record s { timer = t })

module _ {ℓ} {W : Type ℓ} {A B : Type 0} where
  abbrev pub continue : Result A → (A → Exec W B) → Exec W B
  continue (ok a) f s = f a s
  continue (err e) f s = (err e, s)
  continue fault f s = (fault, s)

  infixl 10 ◌>>=◌ ◌>>◌
  unfoldable pub ◌>>=◌ : Exec W A → (A → Exec W B) → Exec W B
  ◌>>=◌ m f s = let (r, s') = m s in continue r f s'

  abbrev pub ◌>>◌ : Exec W A → Exec W B → Exec W B
  m >> n = m >>= λ _. n
