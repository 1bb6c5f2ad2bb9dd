-- ===== src/Crc/Bitwise.antt =====
-- The tables of checksum.c and crc32.c against eight steps of the reflected shift register with
-- polynomial 0xedb88320.
use freepacket.Base.{
  ℕ, zero, suc, ◌+◌, ◌*◌, ◌/◌, ◌%◌, ◌^◌, ◌<◌, ◌≡◌, refl, sym, ap, ap₂, ◌∙◌, List, [], ◌∷◌, Bool,
  true, false, ◌&&◌, arith, bit_and, bit_xor, get_or, length, ◌==◌, ==_iff, and-mask, xor_comm,
  xor_assoc, xor-zero, xor-half, xor-parity, xor-lt, xor-fields,
}
use freepacket.Crc.Tables.{checksum_table, crc32_tab}
use freepacket.Crc.{update, update_all, step, step_all}

-- One shift of the register.
unfoldable pub shift : ℕ → ℕ
shift c = bit_xor (c / 2) (c % 2 * 0xedb88320)

unfoldable pub shifts : ℕ → ℕ → ℕ
shifts zero c = c
shifts (suc n) c = shifts n (shift c)

-- The checksum by its definition: eight shifts for each byte.
unfoldable pub crc_spec : ℕ → List ℕ → ℕ
crc_spec c [] = c
crc_spec c (byte ∷ bytes) = crc_spec (shifts 8 (bit_xor c byte)) bytes

-- Every entry of the table, from index `i` on, against its index after eight shifts.
agrees : ℕ → List ℕ → Bool
agrees i [] = true
agrees i (entry ∷ entries) = agrees (i + 1) entries && (entry == shifts 8 i)

both : (p q : Bool) → p && q ≡ true → (p ≡ true) × (q ≡ true)
both true q e = (refl, e)
both false q e = absurd (ground arith)

agrees_at :
    (entries : List ℕ) (i k : ℕ)
    → agrees i entries ≡ true
    → k < length entries
    → get_or entries k 0 ≡ shifts 8 (i + k)
unfolding agrees
agrees_at [] i k e h = absurd (omega arith)
agrees_at (entry ∷ entries) i zero e h =
    let same : i ≡ i + 0 = omega arith in
    (==_iff entry (shifts 8 i)).0 (both (agrees (i + 1) entries) (entry == shifts 8 i) e).1
    ∙ ap (shifts 8) same
agrees_at (entry ∷ entries) i (suc k) e h =
    let moved : i + 1 + k ≡ i + suc k = omega arith in
    agrees_at entries (i + 1) k (both (agrees (i + 1) entries) (entry == shifts 8 i) e).0
      (omega arith)
    ∙ ap (shifts 8) moved

table_agrees : agrees 0 checksum_table ≡ true
unfolding agrees shifts shift
table_agrees = refl

tables_agree : checksum_table ≡ crc32_tab
tables_agree = refl

-- Every entry of the table is its index after eight shifts.
pub table_lem : (t : ℕ) → t < 256 → get_or checksum_table t 0 ≡ shifts 8 t
table_lem t h =
    let zero_index : 0 + t ≡ t = omega arith in
    agrees_at checksum_table 0 t table_agrees h ∙ ap (shifts 8) zero_index

xor_swap : (w x y z : ℕ) → bit_xor (bit_xor w x) (bit_xor y z) ≡ bit_xor (bit_xor w y) (bit_xor x z)
xor_swap w x y z =
    xor_assoc w x (bit_xor y z)
    ∙ ap (bit_xor w)
        (sym (xor_assoc x y z) ∙ ap (λ t. bit_xor t z) (xor_comm x y) ∙ xor_assoc y x z)
    ∙ sym (xor_assoc w y (bit_xor x z))

parity-mul :
    (p q : ℕ) → p < 2 → q < 2 → (p + q) % 2 * 0xedb88320 ≡ bit_xor (p * 0xedb88320) (q * 0xedb88320)
parity-mul zero zero h k = refl
parity-mul zero (suc zero) h k = refl
parity-mul (suc zero) zero h k = refl
parity-mul (suc zero) (suc zero) h k = refl
parity-mul zero (suc (suc q)) h k = absurd (omega arith)
parity-mul (suc zero) (suc (suc q)) h k = absurd (omega arith)
parity-mul (suc (suc p)) q h k = absurd (omega arith)

-- The register is linear.
pub shift-xor : (a b : ℕ) → shift (bit_xor a b) ≡ bit_xor (shift a) (shift b)
unfolding shift
shift-xor a b =
    rw (xor-half, xor-parity, parity-mul (a % 2) (b % 2) (omega arith) (omega arith))
      (xor_swap (a / 2) (b / 2) (a % 2 * 0xedb88320) (b % 2 * 0xedb88320))

shifts-xor : (n a b : ℕ) → shifts n (bit_xor a b) ≡ bit_xor (shifts n a) (shifts n b)
unfolding shifts
shifts-xor zero a b = refl
shifts-xor (suc n) a b = ap (shifts n) (shift-xor a b) ∙ shifts-xor n (shift a) (shift b)

shift-double : (h : ℕ) → shift (2 * h) ≡ h
unfolding shift
shift-double h =
    let e : 2 * h % 2 ≡ 0 = omega arith in
    let f : 2 * h / 2 ≡ h = omega arith in rw (e, f) (xor-zero h)

shifts-high : (h : ℕ) → shifts 8 (h * 256) ≡ h
unfolding shifts
shifts-high h =
    rw
      (
        down 128,
        shift-double,
        down 64,
        shift-double,
        down 32,
        shift-double,
        down 16,
        shift-double,
        down 8,
        shift-double,
        down 4,
        shift-double,
        down 2,
        shift-double,
        down 1,
        shift-double,
      )
      (omega arith)
  where
    down : (k : ℕ) → h * (2 * k) ≡ 2 * (h * k)
    down k = grind arith

pub shift-lt : (c : ℕ) → c < 2 ^ 32 → shift c < 2 ^ 32
unfolding shift
shift-lt c h = xor-lt 32 _ _ (omega arith) (omega arith)

pub shifts-lt : (n c : ℕ) → c < 2 ^ 32 → shifts n c < 2 ^ 32
unfolding shifts
shifts-lt zero c h = h
shifts-lt (suc n) c h = shifts-lt n (shift c) (shift-lt c h)

xor-shr8 : (a b : ℕ) → bit_xor a b / 256 ≡ bit_xor (a / 256) (b / 256)
xor-shr8 a b =
    halves (bit_xor a b)
    ∙ rw (
      xor-half,
      xor-half,
      xor-half,
      xor-half,
      xor-half,
      xor-half,
      xor-half,
      xor-half,
      halves a,
      halves b,
    )
  where
    halves : (x : ℕ) → x / 256 ≡ x / 2 / 2 / 2 / 2 / 2 / 2 / 2 / 2
    halves x = omega arith

-- Eight shifts take the low byte through the table and bring the rest down.
shifts-table : (x : ℕ) → shifts 8 x ≡ bit_xor (x / 256) (get_or checksum_table (x % 256) 0)
shifts-table x =
    let split : x ≡ bit_xor (x / 256 * 256) (x % 256) =
      omega (arith, xor-fields 8 (x / 256) (x % 256) (omega arith)) in
    ap (shifts 8) split
    ∙ shifts-xor 8 (x / 256 * 256) (x % 256)
    ∙ ap₂ bit_xor (shifts-high (x / 256)) (sym (table_lem (x % 256) (omega arith)))

-- One byte through the table of checksum.c is one byte of the definition.
pub update_lem :
    (crc byte : ℕ) → crc < 2 ^ 32 → byte < 256 → update crc byte ≡ shifts 8 (bit_xor crc byte)
unfolding update
update_lem crc byte h k =
    let high : bit_and (crc / 256) 0xffffff ≡ crc / 256 = omega (arith, and-mask 24 (crc / 256)) in
    let low : bit_xor crc byte / 256 ≡ crc / 256 =
      xor-shr8 crc byte
      ∙ ap (bit_xor (crc / 256)) (let e : byte / 256 ≡ 0 = omega arith in e)
      ∙ xor-zero (crc / 256) in
    ap₂ (λ t i. bit_xor t (get_or checksum_table i 0)) (high ∙ sym low)
      (and-mask 8 (bit_xor crc byte))
    ∙ sym (shifts-table (bit_xor crc byte))

-- So is one byte through the table of crc32.c.
pub step-update : (crc byte : ℕ) → crc < 2 ^ 32 → step crc byte ≡ update crc byte
unfolding step update
step-update crc byte h =
    let high : bit_and (crc / 256) 0xffffff ≡ crc / 256 = omega (arith, and-mask 24 (crc / 256)) in
    xor_comm _ (crc / 256)
    ∙ ap₂ (λ t l. bit_xor t (get_or l (bit_and (bit_xor crc byte) 0xff) 0)) (sym high)
        (sym tables_agree)

abbrev pub AllBytes : List ℕ → Type 0
AllBytes [] = Unit
AllBytes (byte ∷ bytes) = (byte < 256) × AllBytes bytes

pub update-lt : (crc byte : ℕ) → crc < 2 ^ 32 → byte < 256 → update crc byte < 2 ^ 32
update-lt crc byte h k =
    rw (update_lem crc byte h k) (shifts-lt 8 _ (xor-lt 32 crc byte h (omega arith)))

pub update_all-spec :
    (bytes : List ℕ) (crc : ℕ)
    → crc < 2 ^ 32
    → AllBytes bytes
    → update_all crc bytes ≡ crc_spec crc bytes
unfolding update_all crc_spec
update_all-spec [] crc h b = refl
update_all-spec (byte ∷ bytes) crc h (b, bs) =
    update_all-spec bytes (update crc byte) (update-lt crc byte h b) bs
    ∙ ap (λ c. crc_spec c bytes) (update_lem crc byte h b)

pub step_all-update :
    (bytes : List ℕ) (crc : ℕ)
    → crc < 2 ^ 32
    → AllBytes bytes
    → step_all crc bytes ≡ update_all crc bytes
unfolding update_all step_all
step_all-update [] crc h b = refl
step_all-update (byte ∷ bytes) crc h (b, bs) =
    ap (λ c. step_all c bytes) (step-update crc byte h)
    ∙ step_all-update bytes (update crc byte) (update-lt crc byte h b) bs
