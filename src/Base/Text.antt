-- ===== src/Base/Text.antt =====
-- Texts as lists of character codes: string literals, and what `printf` writes for a number.
use Prim.Native.Nat.{ℕ, zero, suc, ◌+◌, ◌-◌, ◌/◌, ◌%◌, ◌^◌}
use Prim.Native.Char.{code}
use Prim.Native.String.{String}
use mathlib.Core.List.{List, [], ◌∷◌, ◌++◌}
use freepacket.Base.Tests.{ltb, if◌then◌else◌}
use freepacket.Base.Word.{is_negative}

-- The characters of a string literal.
abbrev pub chars : String → List ℕ
chars String.[] = []
chars (String.◌∷◌ c s) = code c ∷ chars s

-- The digits of a number in base 10, the last one last; `fuel` is above their number.
unfoldable pub decimal : ℕ → ℕ → List ℕ
decimal zero n = []
decimal (suc fuel) n =
    let front = decimal fuel (n / 10) in
    if ltb n 10 then (48 + n) ∷ [] else front ++ (48 + n % 10) ∷ []

-- `%d`, for the pattern of an `int`, and `%u`.
unfoldable pub print_int : ℕ → List ℕ
print_int n = if is_negative n then 45 ∷ decimal 11 (2 ^ 32 - n) else decimal 11 n

abbrev pub print_uint : ℕ → List ℕ
print_uint n = decimal 11 n

-- A digit of `%x`, and one of `%X`.
abbrev pub low_hex : ℕ → ℕ
low_hex n = if ltb n 10 then 48 + n else 87 + n

abbrev pub high_hex : ℕ → ℕ
high_hex n = if ltb n 10 then 48 + n else 55 + n

-- `%02x` and `%02X` of a byte.
abbrev pub hex2 : ℕ → List ℕ
hex2 n = low_hex (n / 16) ∷ low_hex (n % 16) ∷ []

abbrev pub upper2 : ℕ → List ℕ
upper2 n = high_hex (n / 16) ∷ high_hex (n % 16) ∷ []

-- `%x`, with `fuel` above the number of digits.
unfoldable pub hex : ℕ → ℕ → List ℕ
hex zero n = []
hex (suc fuel) n =
    let front = hex fuel (n / 16) in
    if ltb n 16 then low_hex n ∷ [] else front ++ low_hex (n % 16) ∷ []
