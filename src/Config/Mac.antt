-- ===== src/Config/Mac.antt =====
-- `ether_atoe` and `ether_etoa` of config.c: an Ethernet address as text and as six bytes.
pub mod RoundTrip
use freepacket.Base.{ℕ, zero, suc, ◌+◌, ◌/◌, ◌%◌, List, [], ◌∷◌, ltb, if◌then◌else◌}
use freepacket.Config.Chars.{strtoul16}

-- `for (;;) { e[i++] = strtoul(c, &c, 16); if (!*c++ || i == ETH_ALEN) break; }`, with `n` rounds
-- left before `i` is `ETH_ALEN`. The bytes set, in order.
unfoldable pub atoe_bytes : ℕ → List ℕ → List ℕ
atoe_bytes zero c = []
atoe_bytes (suc n) c =
    let (value, rest) = strtoul16 c in
    elim rest [ [] ↦ value % 256 ∷ [] | d ∷ ds ↦ value % 256 ∷ atoe_bytes n ds ]

-- What is left of `memset(e, 0, ETH_ALEN)` behind the bytes that were set.
unfoldable pub pad : ℕ → List ℕ → List ℕ
pad zero bytes = bytes
pad (suc n) [] = 0 ∷ pad n []
pad (suc n) (byte ∷ bytes) = byte ∷ pad n bytes

-- `ether_atoe(a, e)`: the contents of `e`.
unfoldable pub ether_atoe : List ℕ → List ℕ
ether_atoe a = pad 6 (atoe_bytes 6 a)

-- A digit of `%02X`
abbrev pub hex_char : ℕ → ℕ
hex_char n = if ltb n 10 then 48 + n else 55 + n

-- `ether_etoa(e, a)`
unfoldable pub ether_etoa : List ℕ → List ℕ
ether_etoa [] = []
ether_etoa (byte ∷ []) = hex_char (byte / 16) ∷ hex_char (byte % 16) ∷ []
ether_etoa (byte ∷ b ∷ bytes) =
    let rest = ether_etoa (b ∷ bytes) in hex_char (byte / 16) ∷ hex_char (byte % 16) ∷ 58 ∷ rest
