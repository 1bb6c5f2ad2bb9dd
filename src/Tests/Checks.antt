-- ===== src/Tests/Checks.antt =====
-- The checksums on the check string of CRC-32, on a header with a known checksum, and the numbers
-- of packets and parsers.
use freepacket.Base.{ℕ, ◌%◌, ◌<◌, ◌≡◌, ◌≢◌, refl, List, [], ◌∷◌, ◌++◌, some, arith, set}
use freepacket.Crc.{get_crc32, crc32, not32}
use freepacket.Crc.Bitwise.{AllBytes, crc_spec}
use freepacket.Crc.Laws.{get_crc32-spec, get_crc32-crc32, get_crc32_detects}
use freepacket.Checksum.{ip_xsum, checksum_ip, check_word}
use freepacket.Checksum.Fold.{AllWords, checksum_ip-verifies}
use freepacket.Generator.Cursor.{threads, threads_own, threads_serve}

-- "123456789"
abbrev digits : List ℕ
digits = 49 ∷ 50 ∷ 51 ∷ 52 ∷ 53 ∷ 54 ∷ 55 ∷ 56 ∷ 57 ∷ []

digits-AllBytes : AllBytes digits
digits-AllBytes = (
  omega arith,
  (
    omega arith,
    (
      omega arith,
      (omega arith, (omega arith, (omega arith, (omega arith, (omega arith, (omega arith, tt)))))),
    ),
  ),
)

get_crc32-spec_example : get_crc32 digits 9 ≡ not32 (crc_spec 0xffffffff digits)
get_crc32-spec_example = get_crc32-spec digits 9 digits-AllBytes

get_crc32-crc32_example : get_crc32 digits 9 ≡ crc32 0 digits 9
get_crc32-crc32_example = get_crc32-crc32 digits 9 digits-AllBytes

get_crc32_detects_example :
    get_crc32 (digits ++ 50 ∷ digits) 19 ≢ get_crc32 (digits ++ 51 ∷ digits) 19
get_crc32_detects_example =
    get_crc32_detects digits digits 50 51 digits-AllBytes digits-AllBytes (omega arith)
      (omega arith) (λ e. absurd (omega arith))

-- A header of 20 bytes as a little-endian host reads its words.
abbrev header : List ℕ
header =
    0x0045 ∷ 0x7300 ∷ 0x0000 ∷ 0x0040 ∷ 0x1140 ∷ 0x1234 ∷ 0xa8c0 ∷ 0x0100 ∷ 0xa8c0 ∷ 0xc700 ∷ []

header-AllWords : AllWords header
header-AllWords = (
  omega arith,
  (
    omega arith,
    (
      omega arith,
      (
        omega arith,
        (
          omega arith,
          (omega arith, (omega arith, (omega arith, (omega arith, (omega arith, tt))))),
        ),
      ),
    ),
  ),
)

checksum_ip-verifies_example :
    (check : ℕ) × (checksum_ip header ≡ some (set header check_word check))
    × (ip_xsum (set header check_word check) 0 ≡ some 0xffff)
checksum_ip-verifies_example = checksum_ip-verifies header header-AllWords (omega arith) refl

-- Generator 1 of 2, with 5 parsers.
threads_own_example : (threads 2 5 1 1 7 < 5) × (threads 2 5 1 1 7 % 2 ≡ 1)
threads_own_example = threads_own 2 5 1 (omega arith) (omega arith) (omega arith) 7

threads_serve_example : threads 2 5 1 1 1 ≡ 3
threads_serve_example =
    threads_serve 2 5 1 (omega arith) (omega arith) (omega arith) 1 (omega arith)
