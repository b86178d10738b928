-- ===== src/Prelude/Word.antt =====
-- Go's `int` on a 64-bit machine: a bit pattern below 2 ^ 64, read in two's complement.
use toph.Prelude.Tests.{ltb, if◌then◌else◌}
use Prim.Native.Nat.{ℕ, ◌+◌, ◌*◌, ◌-◌, ◌/◌, ◌%◌, ◌<◌}
use mathlib.Core.Path.{◌≡◌}
use mathlib.Core.Bool.{Bool, true, false}
use mathlib.Core.List.{◌++◌}
use toph.Prelude.Bytes.{Text, lit, decimal}
use native.Mathlib.Omega.{arith}

abbrev pub modulus : ℕ
modulus = 18446744073709551616

-- The first pattern of a negative number.
abbrev pub sign_bit : ℕ
sign_bit = 9223372036854775808

abbrev pub Int64 : Type 0
Int64 = ℕ

abbrev pub IsInt : Int64 → Type 0
IsInt a = a < modulus

abbrev pub is_negative : Int64 → Bool
is_negative a = if ltb a sign_bit then false else true

-- The absolute value, as a number.
abbrev pub magnitude : Int64 → ℕ
magnitude a = if ltb a sign_bit then a else modulus - a

abbrev pub neg : Int64 → Int64
neg a = (modulus - a) % modulus

abbrev pub add : Int64 → Int64 → Int64
add a b = (a + b) % modulus

abbrev pub sub : Int64 → Int64 → Int64
sub a b = (a + modulus - b) % modulus

abbrev pub mul : Int64 → Int64 → Int64
mul a b = (a * b) % modulus

-- Signed `<`: the patterns in the order of the numbers that they stand for.
abbrev pub lt : Int64 → Int64 → Bool
lt a b = ltb ((a + sign_bit) % modulus) ((b + sign_bit) % modulus)

-- `a / 2`, which rounds towards zero.
abbrev pub half : Int64 → Int64
half a = if ltb a sign_bit then a / 2 else neg ((modulus - a) / 2)

pub sub-add : (a b : Int64) → IsInt a → IsInt b → sub (add a b) b ≡ a
sub-add a b h k = omega arith

pub add-sub : (a b : Int64) → IsInt a → IsInt b → add (sub a b) b ≡ a
add-sub a b h k = omega arith

-- `%d` of a signed number.
unfoldable pub int_text : Int64 → Text
unfolding decimal
int_text a = if is_negative a then lit "-" ++ decimal (magnitude a) else decimal a
