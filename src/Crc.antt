-- ===== src/Crc.antt =====
-- The CRC-32 routines: `GetCRC32` and `crc32_32` of checksum.c (the branch without
-- TILERA_PLATFORM) and `crc32` of crc32.c. A buffer is the list of its bytes.
mod Tables
pub mod Bitwise
pub mod Laws
use Tables.{checksum_table, crc32_tab}
use freepacket.Base.{
  ℕ, ◌+◌, ◌-◌, ◌*◌, ◌^◌, List, [], ◌∷◌, bit_and, bit_xor, get_or, take, u32, ◌>>>◌,
}

-- `~x` at 32 bits
abbrev pub not32 : ℕ → ℕ
not32 x = 2 ^ 32 - 1 - x

-- The body of the loop of `GetCRC32` and of `crc32_32`.
pub update : ℕ → ℕ → ℕ
update crc byte =
    let t = bit_and (bit_xor crc byte) 0xff in
    bit_xor (bit_and (crc >>> 8) 0xffffff) (get_or checksum_table t 0)

pub update_all : ℕ → List ℕ → ℕ
update_all crc [] = crc
update_all crc (byte ∷ bytes) = update_all (update crc byte) bytes

-- `GetCRC32(buf, len)`, with `buf` the memory from the pointer on.
pub get_crc32 : List ℕ → ℕ → ℕ
get_crc32 buf len = not32 (update_all 0xffffffff (take len buf))

-- `crc32_32(buf, len)`: `len` counts words of four bytes, and `len * 4` is a `uint32_t`.
pub crc32_32 : List ℕ → ℕ → ℕ
crc32_32 buf len = not32 (update_all 0xffffffff (take (u32 (len * 4)) buf))

-- The body of the loop of `crc32` in crc32.c.
pub step : ℕ → ℕ → ℕ
step crc byte = bit_xor (get_or crc32_tab (bit_and (bit_xor crc byte) 0xff) 0) (crc >>> 8)

pub step_all : ℕ → List ℕ → ℕ
step_all crc [] = crc
step_all crc (byte ∷ bytes) = step_all (step crc byte) bytes

-- `crc32(crc, buf, size)`
pub crc32 : ℕ → List ℕ → ℕ → ℕ
crc32 crc buf size = bit_xor (step_all (bit_xor crc 0xffffffff) (take size buf)) 0xffffffff
