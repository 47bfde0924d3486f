-- ===== src/Common/Text.antt =====
-- The code points of a text: its bytes, if it is ASCII; and C strings, as their characters up to the
-- NUL.
use Prim.Native.Nat.{ℕ, zero, suc}
use Prim.Native.Char.{code}
use Prim.Native.String.{String}
use mathlib.Core.Path.{◌≡◌, refl}
use mathlib.Core.Bool.{Bool, true, false, ◌&&◌, ◌||◌}
use mathlib.Core.List.{List, [], ◌∷◌}
use native.Mathlib.Omega.{arith}
use hornbill_examples.Common.Tests.{◌==◌}

abbrev pub codes : String → List ℕ
codes String.[] = []
codes (String.◌∷◌ c s) = code c ∷ codes s

-- `strcmp(a, b) == 0`
abbrev pub same : List ℕ → List ℕ → Bool
same [] [] = true
same [] (b ∷ bs) = false
same (a ∷ as') [] = false
same (a ∷ as') (b ∷ bs) = a == b && same as' bs

-- `strncmp(a, b, n) == 0`, where `a` has at least n characters, among them perhaps a NUL.
abbrev pub same_up_to : ℕ → List ℕ → List ℕ → Bool
same_up_to zero as' bs = true
same_up_to (suc n) [] [] = true
same_up_to (suc n) [] (b ∷ bs) = false
same_up_to (suc n) (a ∷ as') [] = a == 0
same_up_to (suc n) (a ∷ as') (b ∷ bs) = a == b && (a == 0 || same_up_to n as' bs)

pub same_refl : (a : List ℕ) → same a a ≡ true
same_refl [] = refl
same_refl (x ∷ a) = ground (arith, same_refl a)

pub same_sound : (a b : List ℕ) → same a b ≡ true → a ≡ b
same_sound [] [] h = refl
same_sound [] (y ∷ b) h = absurd (ground arith)
same_sound (x ∷ a) [] h = absurd (ground arith)
same_sound (x ∷ a) (y ∷ b) h = ground (arith, same_sound a b)
