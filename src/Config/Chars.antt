-- ===== src/Config/Chars.antt =====
-- The characters and numbers of a line of the configuration file: `isspace`, `toupper`, `strstr`,
-- `atoi`, `strtoul` and `sscanf` of the C library as config.c uses them, in the "C" locale.
use freepacket.Base.{
  ℕ, ◌+◌, ◌-◌, ◌*◌, ◌^◌, ◌%◌, List, [], ◌∷◌, Option, none, some, Bool, true, false, ◌&&◌, ◌||◌,
  ◌==◌, ltb, leb, if◌then◌else◌, u32, sub32, min,
}

abbrev pub is_space : ℕ → Bool
is_space c = c == 32 || leb 9 c && leb c 13

abbrev pub is_digit : ℕ → Bool
is_digit c = leb 48 c && leb c 57

abbrev pub to_upper : ℕ → ℕ
to_upper c = if leb 97 c && leb c 122 then c - 32 else c

-- The value of a digit of base 16, 16 for any other character.
abbrev pub hex_value : ℕ → ℕ
hex_value c =
    if is_digit c
    then c - 48
    else (if leb 65 c && leb c 70 then c - 55 else (if leb 97 c && leb c 102 then c - 87 else 16))

unfoldable pub equal : List ℕ → List ℕ → Bool
equal [] [] = true
equal [] (d ∷ ds) = false
equal (c ∷ cs) [] = false
equal (c ∷ cs) (d ∷ ds) = c == d && equal cs ds

unfoldable pub starts_with : List ℕ → List ℕ → Bool
starts_with [] cs = true
starts_with (d ∷ ds) [] = false
starts_with (d ∷ ds) (c ∷ cs) = d == c && starts_with ds cs

-- `strstr(text, word) != NULL`
unfoldable pub contains : List ℕ → List ℕ → Bool
contains word [] = starts_with word []
contains word (c ∷ cs) = starts_with word (c ∷ cs) || contains word cs

unfoldable pub skip_spaces : List ℕ → List ℕ
skip_spaces [] = []
skip_spaces (c ∷ cs) = let rest = skip_spaces cs in if is_space c then rest else c ∷ cs

-- The value of the leading digits, started at `value`, with what follows them.
unfoldable pub digits : ℕ → List ℕ → ℕ × List ℕ
digits value [] = (value, [])
digits value (c ∷ cs) =
    let rest = digits (value * 10 + (c - 48)) cs in if is_digit c then rest else (value, c ∷ cs)

-- The sign in front of a number: whether it is a minus, and the rest.
unfoldable pub sign : List ℕ → Bool × List ℕ
sign [] = (false, [])
sign (c ∷ cs) = if c == 45 then (true, cs) else (if c == 43 then (false, cs) else (false, c ∷ cs))

-- `atoi(text)` as a 32-bit pattern, for a number within the range of `long`.
unfoldable pub atoi : List ℕ → ℕ
atoi text =
    let (minus, number) = sign (skip_spaces text) in
    let (value, rest) = digits 0 number in if minus then sub32 0 (u32 value) else u32 value

-- One `%u` of `sscanf`, after white space and a sign: the value and the rest, if there is a digit.
unfoldable pub unsigned_from : Bool → List ℕ → Option (ℕ × List ℕ)
unsigned_from minus [] = none
unsigned_from minus (c ∷ cs) =
    let (value, rest) = digits 0 (c ∷ cs) in
    if is_digit c then some ((if minus then sub32 0 (u32 value) else u32 value), rest) else none

unfoldable pub scan_unsigned : List ℕ → Option (ℕ × List ℕ)
scan_unsigned text = let (minus, number) = sign (skip_spaces text) in unsigned_from minus number

-- A character of the format that has to be there.
unfoldable pub literal : ℕ → List ℕ → Option (List ℕ)
literal d [] = none
literal d (c ∷ cs) = if c == d then some cs else none

-- The digits of base 16.
unfoldable pub hex_digits : ℕ → List ℕ → ℕ × List ℕ
hex_digits value [] = (value, [])
hex_digits value (c ∷ cs) =
    let rest = hex_digits (value * 16 + hex_value c) cs in
    if ltb (hex_value c) 16 then rest else (value, c ∷ cs)

-- Past `0x` when a digit follows.
unfoldable pub hex_prefix : List ℕ → List ℕ
hex_prefix (zero_char ∷ x ∷ c ∷ cs) =
    if zero_char == 48 && (x == 120 || x == 88) && ltb (hex_value c) 16
    then c ∷ cs
    else zero_char ∷ x ∷ c ∷ cs
hex_prefix cs = cs

-- The number of `strtoul(text, &end, 16)` after white space, a sign and a prefix.
unfoldable pub hex_from : Bool → List ℕ → List ℕ → ℕ × List ℕ
hex_from minus text [] = (0, text)
hex_from minus text (c ∷ cs) =
    let (value, rest) = hex_digits 0 (c ∷ cs) in
    let capped = min value (2 ^ 64 - 1) in
    if ltb (hex_value c) 16
    then ((if minus then (2 ^ 64 - capped) % 2 ^ 64 else capped), rest)
    else (0, text)

-- `strtoul(text, &end, 16)`: the value and the text at `end`, which is all of it when there is no
-- digit.
unfoldable pub strtoul16 : List ℕ → ℕ × List ℕ
strtoul16 text =
    let (minus, number) = sign (skip_spaces text) in hex_from minus text (hex_prefix number)
