-- ===== src/Print/Dump.antt =====
-- The dump of `print_packet`, read back.
use freepacket.Base.{
  ℕ, ◌+◌, ◌*◌, ◌-◌, ◌/◌, ◌%◌, ◌<◌, ◌≡◌, refl, ap, ◌∙◌, List, [], ◌∷◌, ◌++◌, false, Bool-cases, inl,
  inr, ◌==◌, ◌||◌, not, ltb, if◌then◌else◌, All, arith, low_hex, hex2, chars,
}
use freepacket.Print.{print_bytes, print_packet}

-- The value of a digit of `%02x`.
abbrev pub hex_value : ℕ → ℕ
hex_value c = if ltb c 58 then c - 48 else c - 87

-- A reader of a dump: two digits and a space for each byte; the ends of the lines are skipped.
unfoldable pub read_dump : List ℕ → List ℕ
read_dump [] = []
read_dump (c ∷ []) = []
read_dump (c ∷ d ∷ []) = []
read_dump (c ∷ d ∷ s ∷ rest) =
    let skipped = read_dump (d ∷ s ∷ rest) in
    let read = (16 * hex_value c + hex_value d) ∷ read_dump rest in
    if c == 10 then skipped else read

byte_read :
    (byte : ℕ)
    → byte < 256
    → ((low_hex (byte / 16) == 10) ≡ false)
      × (16 * hex_value (low_hex (byte / 16)) + hex_value (low_hex (byte % 16)) ≡ byte)
byte_read byte h = (ground arith, ground arith)

read_dump-byte :
    (byte : ℕ) (rest : List ℕ)
    → byte < 256
    → read_dump (hex2 byte ++ (chars " " ++ rest)) ≡ byte ∷ read_dump rest
unfolding read_dump
read_dump-byte byte rest h =
    let (digit, value) = byte_read byte h in
    rw (read_dump, digit) (ap (λ b. b ∷ read_dump rest) value)

read_dump-newline :
    (c d : ℕ) (rest : List ℕ) → read_dump (10 ∷ c ∷ d ∷ rest) ≡ read_dump (c ∷ d ∷ rest)
unfolding read_dump
read_dump-newline c d rest = refl

-- The bytes of a dump from byte `i` on are read back.
read_dump-print_bytes :
    (i : ℕ) (bytes rest : List ℕ)
    → All (λ b. b < 256) bytes
    → read_dump rest ≡ []
    → read_dump (print_bytes i bytes ++ rest) ≡ bytes
unfolding print_bytes
read_dump-print_bytes i [] rest h stop = stop
read_dump-print_bytes i (byte ∷ bytes) rest (small, h) stop =
    let more = print_bytes (i + 1) bytes ++ rest in
    let next =
      read_dump-byte byte more small
      ∙ ap (λ bs. byte ∷ bs) (read_dump-print_bytes (i + 1) bytes rest h stop) in
    elim (Bool-cases ((i == 0) || not (i % 16 == 0))) [
      | inl same_line ↦ rw (print_bytes, same_line) next
      | inr new_line ↦ rw (print_bytes, new_line) (read_dump-newline _ _ _ ∙ next)
    ]

-- A packet that `print_packet` has written can be read back from the output, byte for byte.
pub read_dump-print_packet :
    (bytes : List ℕ) → All (λ b. b < 256) bytes → read_dump (print_packet bytes) ≡ bytes
unfolding print_packet read_dump
read_dump-print_packet bytes h = read_dump-print_bytes 0 bytes (10 ∷ []) h refl
