-- ===== src/Memory.antt =====
-- Byte buffers: `memcpy`, loads and stores of 8, 16 and 32 bits on a little-endian host, and the
-- byte-order functions of arpa/inet.h. A buffer is the list of its bytes; a write past its end
-- changes nothing there.
pub mod Frame
pub mod Append
use freepacket.Base.{
  ℕ, zero, suc, ◌+◌, ◌-◌, ◌*◌, ◌/◌, ◌%◌, List, [], ◌∷◌, get_or, set, u8, u16, u32,
}

-- `memcpy(buf + off, bytes, length bytes)`
pub write : List ℕ → ℕ → List ℕ → List ℕ
write buf off [] = buf
write buf off (byte ∷ bytes) = write (set buf off byte) (off + 1) bytes

-- The bytes of a number in memory, lowest first.
abbrev pub bytes16 : ℕ → List ℕ
bytes16 v = v % 256 ∷ v / 256 % 256 ∷ []

abbrev pub bytes32 : ℕ → List ℕ
bytes32 v = v % 256 ∷ v / 256 % 256 ∷ v / 65536 % 256 ∷ v / 16777216 % 256 ∷ []

abbrev pub load8 : List ℕ → ℕ → ℕ
load8 buf off = get_or buf off 0

abbrev pub load16 : List ℕ → ℕ → ℕ
load16 buf off = load8 buf off + 256 * load8 buf (off + 1)

abbrev pub load32 : List ℕ → ℕ → ℕ
load32 buf off = load16 buf off + 65536 * load16 buf (off + 2)

abbrev pub store8 : List ℕ → ℕ → ℕ → List ℕ
store8 buf off v = write buf off (v % 256 ∷ [])

abbrev pub store16 : List ℕ → ℕ → ℕ → List ℕ
store16 buf off v = write buf off (bytes16 v)

abbrev pub store32 : List ℕ → ℕ → ℕ → List ℕ
store32 buf off v = write buf off (bytes32 v)

-- A four-bit field in the low or the high half of a byte.
abbrev pub store_low : List ℕ → ℕ → ℕ → List ℕ
store_low buf off v = store8 buf off (load8 buf off / 16 * 16 + v % 16)

abbrev pub store_high : List ℕ → ℕ → ℕ → List ℕ
store_high buf off v = store8 buf off (load8 buf off % 16 + v % 16 * 16)

-- `htons` and `ntohs`; the argument is converted to `uint16_t`.
unfoldable pub htons : ℕ → ℕ
htons v = v % 256 * 256 + v / 256 % 256

-- `htonl` and `ntohl`
unfoldable pub htonl : ℕ → ℕ
htonl v = v % 256 * 16777216 + v / 256 % 256 * 65536 + v / 65536 % 256 * 256 + v / 16777216 % 256
