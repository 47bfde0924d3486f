-- ===== src/Common/Bits.antt =====
-- The masks 127 and 128 on a byte, which the program writes with & and |, as arithmetic.
use Prim.Native.Nat.{ℕ, zero, suc, ◌+◌, ◌*◌, ◌/◌, ◌%◌, ◌<◌, bit_and, bit_or}
use mathlib.Core.Path.{◌≡◌, refl}
use mathlib.Core.Bool.{Bool, true, ◌&&◌, ◌||◌}
use native.Mathlib.Omega.{arith}
use hornbill_examples.Common.Tests.{◌==◌, leb}

-- Whether the three masks agree with the arithmetic on one byte; setting the top bit matters only
-- where it is not set.
agrees : ℕ → Bool
agrees byte =
    bit_and byte 128 == byte / 128 * 128
    && (bit_and byte 127 == byte % 128 && (leb 128 byte || bit_or byte 128 == byte + 128))

agree_up_to : ℕ → Bool
agree_up_to zero = true
agree_up_to (suc top) = agree_up_to top && agrees top

bytes_agree : agree_up_to 256 ≡ true
unfolding agree_up_to agrees
bytes_agree = refl

agrees_at : (top byte : ℕ) → byte < top → agree_up_to top ≡ true → agrees byte ≡ true
unfolding agree_up_to
agrees_at zero byte below all = absurd (omega arith)
agrees_at (suc top) byte below all = ground (arith, agrees_at top byte)

pub bit_and_low : (b : ℕ) → b < 256 → bit_and b 127 ≡ b % 128
unfolding agrees
bit_and_low b h = ground (arith, agrees_at 256 b h bytes_agree)

pub bit_and_top : (b : ℕ) → b < 256 → bit_and b 128 ≡ b / 128 * 128
unfolding agrees
bit_and_top b h = ground (arith, agrees_at 256 b h bytes_agree)

pub bit_or_top : (b : ℕ) → b < 128 → bit_or b 128 ≡ b + 128
unfolding agrees
bit_or_top b h = ground (arith, agrees_at 256 b (omega arith) bytes_agree)
