-- ===== src/Checksum.antt =====
-- The Internet checksum of checksum.c: `ip_xsum` and `checksum_ip`. A buffer is the list of its
-- 16-bit words.
pub mod Fold
use freepacket.Base.{
  ℕ, zero, suc, ◌+◌, ◌-◌, ◌*◌, ◌%◌, ◌^◌, List, [], ◌∷◌, Option, none, some, bit_and, set, get_or,
  take, u16, u32, ◌>>>◌, ◌==◌, true, false,
}
use mathlib.Core.Option

-- `while (len--) xsum += *buff++`, over the words left.
pub accumulate : ℕ → List ℕ → ℕ
accumulate xsum [] = xsum
accumulate xsum (word ∷ words) = accumulate (u32 (xsum + word)) words

-- `while (xsum >> 16) xsum = (xsum & 0xFFFF) + (xsum >> 16)`. The number bounds the tests made;
-- `none` is a loop that is still running.
pub carry : ℕ → ℕ → Option ℕ
carry zero xsum = none
carry (suc fuel) xsum =
    let rest = carry fuel (u32 (bit_and xsum 0xffff + (xsum >>> 16))) in
    elim (xsum >>> 16 == 0) [ true ↦ some xsum | false ↦ rest ]

-- Three tests are always enough (`carry_enough`).
abbrev pub carry_fuel : ℕ
carry_fuel = 3

-- `ip_xsum(buff, len, xsum)`, with `len` the number of words in `buff`.
pub ip_xsum : List ℕ → ℕ → Option ℕ
ip_xsum buff xsum = Option.map u16 (carry carry_fuel (accumulate xsum buff))

-- `iph->ihl`, the low four bits of the first byte; the host is little-endian.
abbrev pub ihl : List ℕ → ℕ
ihl iph = get_or iph 0 0 % 16

-- `iph->check`, the sixth word
abbrev pub check_word : ℕ
check_word = 5

-- `checksum_ip`: the header with `iph->check` cleared, summed and stored. The `printf` calls are
-- left out.
pub checksum_ip : List ℕ → Option (List ℕ)
checksum_ip iph =
    let cleared = set iph check_word 0 in
    Option.map (λ sum. set cleared check_word (u16 (2 ^ 32 - 1 - sum)))
      (carry carry_fuel (accumulate 0 (take (ihl iph * 2) cleared)))
