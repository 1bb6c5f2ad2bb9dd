-- ===== src/Base/Word.antt =====
-- The fixed widths of C: casts, shifts, and subtraction that wraps.
use Prim.Native.Nat.{ℕ, ◌+◌, ◌-◌, ◌*◌, ◌/◌, ◌%◌, ◌^◌, ◌<◌}
use mathlib.Core.Bool.{Bool}
use mathlib.Core.Path.{◌≡◌}
use native.Mathlib.Omega.{arith}
use freepacket.Base.Tests.{ltb, leb, lt→leb, if◌then◌else◌}

abbrev pub u8 : ℕ → ℕ
u8 n = n % 2 ^ 8

abbrev pub u16 : ℕ → ℕ
u16 n = n % 2 ^ 16

abbrev pub u32 : ℕ → ℕ
u32 n = n % 2 ^ 32

abbrev pub u64 : ℕ → ℕ
u64 n = n % 2 ^ 64

-- `a - b` at 32 and 64 bits, for operands of that width: the modulus is added first.
abbrev pub sub32 : ℕ → ℕ → ℕ
sub32 a b = u32 (a + 2 ^ 32 - b)

abbrev pub sub64 : ℕ → ℕ → ℕ
sub64 a b = u64 (a + 2 ^ 64 - b)

infixl 75 ◌<<<◌ ◌>>>◌
abbrev pub ◌<<<◌ : ℕ → ℕ → ℕ
x <<< k = x * 2 ^ k

abbrev pub ◌>>>◌ : ℕ → ℕ → ℕ
x >>> k = x / 2 ^ k

abbrev pub low_mask : ℕ → ℕ
low_mask k = 2 ^ k - 1

-- An `int` is its 32-bit pattern. The bias makes the signed order the order of the patterns.
abbrev pub int_lt : ℕ → ℕ → Bool
int_lt a b = ltb (u32 (a + 2 ^ 31)) (u32 (b + 2 ^ 31))

abbrev pub is_negative : ℕ → Bool
is_negative a = leb (2 ^ 31) a

-- An `int` as a `uint64_t`.
abbrev pub sign_extend : ℕ → ℕ
sign_extend x = if is_negative x then x + (2 ^ 64 - 2 ^ 32) else x

-- A value that is not negative stays the same.
pub sign_extend-small : (n : ℕ) → n < 2 ^ 31 → sign_extend n ≡ n
sign_extend-small n h = rw (lt→leb (2 ^ 31) n h)

-- Of two values that are not negative the signed order is the order of numbers.
pub int_lt-ltb : (a b : ℕ) → a < 2 ^ 31 → b < 2 ^ 31 → int_lt a b ≡ ltb a b
int_lt-ltb a b h k = ground arith
