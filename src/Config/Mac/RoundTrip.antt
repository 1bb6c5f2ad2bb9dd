-- ===== src/Config/Mac/RoundTrip.antt =====
-- An Ethernet address printed by `ether_etoa` and read by `ether_atoe`.
use freepacket.Base.{
  ℕ, suc, ◌+◌, ◌*◌, ◌/◌, ◌%◌, ◌<◌, ◌≡◌, refl, ap, ap₂, ◌∙◌, List, [], ◌∷◌, Bool, false, ◌==◌,
  length, All, arith, lt→ltb, ne→==, Bool-cases, inl, inr,
}
use freepacket.Config.Chars.{
  is_space, hex_value, skip_spaces, sign, hex_digits, hex_prefix, hex_from, strtoul16,
}
use freepacket.Config.Mac.{atoe_bytes, pad, ether_atoe, hex_char, ether_etoa}

-- The digits of base 16 are read as what they stand for, and are no other characters.
hex_value-char : (n : ℕ) → n < 16 → hex_value (hex_char n) ≡ n
hex_value-char n h = ground arith

hex_char-plain :
    (n : ℕ)
    → n < 16
    → (is_space (hex_char n) ≡ false) × ((hex_char n == 45) ≡ false) × ((hex_char n == 43) ≡ false)
hex_char-plain n h = (ground arith, ground arith, ground arith)

hex_char-le : (n : ℕ) → n < 16 → hex_char n < 88
hex_char-le n h = ground arith

-- What ends the number: the end of the text, or a colon.
abbrev Ends : List ℕ → Type 0
Ends [] = Unit
Ends (c ∷ cs) = c ≡ 58

hex_digits-cons :
    (value n : ℕ) (cs : List ℕ)
    → n < 16
    → hex_digits value (hex_char n ∷ cs) ≡ hex_digits (value * 16 + n) cs
unfolding hex_digits
hex_digits-cons value n cs h = rw (hex_digits, hex_value-char n h, lt→ltb n 16 h)

hex_digits-Ends : (value : ℕ) (rest : List ℕ) → Ends rest → hex_digits value rest ≡ (value, rest)
unfolding hex_digits
hex_digits-Ends value [] e = refl
hex_digits-Ends value (c ∷ cs) e = rw e refl

-- Two digits are no prefix.
hex_prefix-two : (c d : ℕ) (rest : List ℕ) → d < 88 → hex_prefix (c ∷ d ∷ rest) ≡ c ∷ d ∷ rest
unfolding hex_prefix
hex_prefix-two c d [] h = refl
hex_prefix-two c d (x ∷ xs) h = elim (Bool-cases (c == 48)) [
  | inl zero_char ↦ rw (zero_char, ne→== d 120 (omega arith), ne→== d 88 (omega arith))
  | inr other ↦ rw other
]

-- Neither white space nor a sign stands in front.
sign-hex :
    (n : ℕ) (cs : List ℕ) → n < 16 → sign (skip_spaces (hex_char n ∷ cs)) ≡ (false, hex_char n ∷ cs)
unfolding skip_spaces sign
sign-hex n cs h =
    let (space, minus, plus) = hex_char-plain n h in rw (skip_spaces, space, sign, minus, plus)

-- `strtoul` reads a byte of two digits, and stops behind it.
strtoul16-byte :
    (byte : ℕ) (rest : List ℕ)
    → byte < 256
    → Ends rest
    → strtoul16 (hex_char (byte / 16) ∷ hex_char (byte % 16) ∷ rest) ≡ (byte, rest)
unfolding strtoul16 hex_from
strtoul16-byte byte rest small e =
    let high : byte / 16 < 16 = omega arith in
    let low : byte % 16 < 16 = omega arith in
    let value : hex_digits 0 (hex_char (byte / 16) ∷ hex_char (byte % 16) ∷ rest) ≡ (byte, rest) =
      hex_digits-cons 0 (byte / 16) (hex_char (byte % 16) ∷ rest) high
      ∙ hex_digits-cons (0 * 16 + byte / 16) (byte % 16) rest low
      ∙ hex_digits-Ends _ rest e
      ∙ ap (λ n. (n, rest)) (omega arith) in
    let text = hex_char (byte / 16) ∷ hex_char (byte % 16) ∷ rest in
    ap (λ (r : Bool × List ℕ). hex_from r.0 text (hex_prefix r.1))
      (sign-hex (byte / 16) (hex_char (byte % 16) ∷ rest) high)
    ∙ ap (λ number. hex_from false text number)
        (hex_prefix-two (hex_char (byte / 16)) (hex_char (byte % 16)) rest (hex_char-le _ low))
    ∙ rw (hex_from, value, hex_value-char (byte / 16) high, lt→ltb (byte / 16) 16 high)
        (ap (λ n. (n, rest)) (omega arith))

-- What a round of the loop makes of the result of `strtoul`.
abbrev atoe_rest : ℕ → ℕ × List ℕ → List ℕ
atoe_rest n (value, rest) = elim rest [
  | [] ↦ value % 256 ∷ []
  | d ∷ ds ↦ value % 256 ∷ atoe_bytes n ds
]

-- The bytes of a text are those that were printed, as many as there are.
atoe_bytes-etoa :
    (bytes : List ℕ)
    → All (λ byte. byte < 256) bytes
    → atoe_bytes (length bytes) (ether_etoa bytes) ≡ bytes
unfolding atoe_bytes ether_etoa
atoe_bytes-etoa [] h = refl
atoe_bytes-etoa (byte ∷ []) (p, h) =
    ap (λ r. atoe_rest 0 r) (strtoul16-byte byte [] p tt) ∙ ap (λ n. n ∷ []) (omega arith)
atoe_bytes-etoa (byte ∷ b ∷ bytes) (p, h) =
    ap (λ r. atoe_rest (suc (length bytes)) r)
      (strtoul16-byte byte (58 ∷ ether_etoa (b ∷ bytes)) p refl)
    ∙ ap₂ (λ n ns. n ∷ ns) (omega arith) (atoe_bytes-etoa (b ∷ bytes) h)

pad_none : (bytes : List ℕ) → pad (length bytes) bytes ≡ bytes
unfolding pad
pad_none [] = refl
pad_none (byte ∷ bytes) = ap (λ ns. byte ∷ ns) (pad_none bytes)

-- An address of six bytes that `ether_etoa` has printed is read back by `ether_atoe`.
pub ether_atoe-etoa :
    (e : List ℕ) → All (λ byte. byte < 256) e → length e ≡ 6 → ether_atoe (ether_etoa e) ≡ e
unfolding ether_atoe
ether_atoe-etoa e h six =
    rw (← six) (ap (λ bytes. pad (length e) bytes) (atoe_bytes-etoa e h) ∙ pad_none e)
