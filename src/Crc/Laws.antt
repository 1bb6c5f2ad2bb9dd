-- ===== src/Crc/Laws.antt =====
-- The CRC-32 routines on whole buffers.
use freepacket.Base.{
  take_all, ℕ, zero, suc, ◌*◌, ◌/◌, ◌%◌, ◌^◌, ◌<◌, ◌≡◌, ◌≢◌, refl, sym, ap, ◌∙◌, List, [], ◌∷◌,
  ◌++◌, arith, bit_xor, take, length, xor_comm, xor_assoc, xor-zero, zero-xor, xor_self, xor-lt,
  xor-ones,
}
use freepacket.Crc.{not32, get_crc32, crc32}
use freepacket.Crc.Bitwise.{
  shift, shifts, crc_spec, AllBytes, update_all-spec, step_all-update, shifts-lt, shift-lt,
  shift-xor,
}

xor_cancel : (a b : ℕ) → bit_xor (bit_xor a b) b ≡ a
xor_cancel a b = xor_assoc a b b ∙ ap (bit_xor a) (xor_self b) ∙ xor-zero a

-- `~x` is `x ^ ~0U`.
not32-xor : (x : ℕ) → x < 2 ^ 32 → bit_xor x 0xffffffff ≡ not32 x
not32-xor x h = xor-ones 32 x h

crc_spec-lt : (bytes : List ℕ) (c : ℕ) → c < 2 ^ 32 → AllBytes bytes → crc_spec c bytes < 2 ^ 32
unfolding crc_spec
crc_spec-lt [] c h b = h
crc_spec-lt (byte ∷ bytes) c h (b, bs) =
    crc_spec-lt bytes (shifts 8 (bit_xor c byte)) (shifts-lt 8 _ (xor-lt 32 c byte h (omega arith)))
      bs

crc_spec-append : (xs ys : List ℕ) (c : ℕ) → crc_spec c (xs ++ ys) ≡ crc_spec (crc_spec c xs) ys
unfolding crc_spec
crc_spec-append [] ys c = refl
crc_spec-append (x ∷ xs) ys c = crc_spec-append xs ys (shifts 8 (bit_xor c x))

-- On bytes, `GetCRC32` is the CRC-32 by its definition, shift register and all.
pub get_crc32-spec :
    (buf : List ℕ) (len : ℕ)
    → AllBytes (take len buf)
    → get_crc32 buf len ≡ not32 (crc_spec 0xffffffff (take len buf))
unfolding get_crc32
get_crc32-spec buf len b = ap not32 (update_all-spec (take len buf) 0xffffffff (omega arith) b)

crc32-spec :
    (c : ℕ) (buf : List ℕ) (size : ℕ)
    → c < 2 ^ 32
    → AllBytes (take size buf)
    → crc32 c buf size ≡ not32 (crc_spec (not32 c) (take size buf))
unfolding crc32
crc32-spec c buf size h b =
    let small : not32 c < 2 ^ 32 = omega arith in
    let run =
      step_all-update (take size buf) (not32 c) small b
      ∙ update_all-spec (take size buf) (not32 c) small b in
    rw (not32-xor c h, run) (not32-xor _ (crc_spec-lt (take size buf) (not32 c) small b))

-- On bytes, the CRC of checksum.c and that of crc32.c, started at 0, agree on every buffer.
pub get_crc32-crc32 :
    (buf : List ℕ) (len : ℕ) → AllBytes (take len buf) → get_crc32 buf len ≡ crc32 0 buf len
get_crc32-crc32 buf len b = get_crc32-spec buf len b ∙ sym (crc32-spec 0 buf len (omega arith) b)

AllBytes-append : (xs ys : List ℕ) → AllBytes xs → AllBytes ys → AllBytes (xs ++ ys)
AllBytes-append [] ys h k = k
AllBytes-append (x ∷ xs) ys (h, hs) k = (h, AllBytes-append xs ys hs k)

crc32_all :
    (c : ℕ) (xs : List ℕ)
    → c < 2 ^ 32
    → AllBytes xs
    → crc32 c xs (length xs) ≡ not32 (crc_spec (not32 c) xs)
crc32_all c xs h b =
    crc32-spec c xs (length xs) h (rw take_all b)
    ∙ ap (λ t. not32 (crc_spec (not32 c) t)) (take_all xs)

get_crc32_all :
    (xs : List ℕ) → AllBytes xs → get_crc32 xs (length xs) ≡ not32 (crc_spec 0xffffffff xs)
get_crc32_all xs b =
    get_crc32-spec xs (length xs) (rw take_all b)
    ∙ ap (λ t. not32 (crc_spec 0xffffffff t)) (take_all xs)

-- On bytes, `crc32` can be continued: with the CRC of a first part as its first argument it gives
-- the CRC of both parts.
pub crc32-append :
    (c : ℕ) (xs ys : List ℕ)
    → c < 2 ^ 32
    → AllBytes xs
    → AllBytes ys
    → crc32 (crc32 c xs (length xs)) ys (length ys) ≡ crc32 c (xs ++ ys) (length (xs ++ ys))
crc32-append c xs ys h bx by =
    let first = crc32_all c xs h bx in
    let small = crc_spec-lt xs (not32 c) (omega arith) bx in
    let again : not32 (not32 (crc_spec (not32 c) xs)) ≡ crc_spec (not32 c) xs = omega arith in
    ap (λ m. crc32 m ys (length ys)) first
    ∙ crc32_all (not32 (crc_spec (not32 c) xs)) ys (omega arith) by
    ∙ ap (λ m. not32 (crc_spec m ys)) again
    ∙ ap not32 (sym (crc_spec-append xs ys (not32 c)))
    ∙ sym (crc32_all c (xs ++ ys) h (AllBytes-append xs ys bx by))

shift_zero : (c : ℕ) → c < 2 ^ 32 → shift c ≡ 0 → c ≡ 0
unfolding shift
shift_zero c h e =
    let same : c / 2 ≡ c % 2 * 0xedb88320 =
      sym (xor_cancel (c / 2) (c % 2 * 0xedb88320))
      ∙ ap (λ t. bit_xor t (c % 2 * 0xedb88320)) e
      ∙ zero-xor (c % 2 * 0xedb88320) in
    omega arith

xor_eq : (a b : ℕ) → bit_xor a b ≡ 0 → a ≡ b
xor_eq a b e = sym (xor_cancel a b) ∙ ap (λ t. bit_xor t b) e ∙ zero-xor b

shift_inj : (a b : ℕ) → a < 2 ^ 32 → b < 2 ^ 32 → shift a ≡ shift b → a ≡ b
shift_inj a b h k e = xor_eq a b (
    shift_zero _ (xor-lt 32 a b h k)
      (shift-xor a b ∙ ap (λ t. bit_xor t (shift b)) e ∙ xor_self (shift b)))

shifts_inj : (n a b : ℕ) → a < 2 ^ 32 → b < 2 ^ 32 → shifts n a ≡ shifts n b → a ≡ b
unfolding shifts
shifts_inj zero a b h k e = e
shifts_inj (suc n) a b h k e =
    shift_inj a b h k (shifts_inj n (shift a) (shift b) (shift-lt a h) (shift-lt b k) e)

crc_spec_inj :
    (bytes : List ℕ) (a b : ℕ)
    → a < 2 ^ 32
    → b < 2 ^ 32
    → AllBytes bytes
    → crc_spec a bytes ≡ crc_spec b bytes
    → a ≡ b
unfolding crc_spec
crc_spec_inj [] a b h k bs e = e
crc_spec_inj (x ∷ xs) a b h k (bx, bxs) e =
    let hx = xor-lt 32 a x h (omega arith) in
    let kx = xor-lt 32 b x k (omega arith) in
    let eq = shifts_inj 8 _ _ hx kx (
      crc_spec_inj xs (shifts 8 (bit_xor a x)) (shifts 8 (bit_xor b x)) (shifts-lt 8 _ hx)
        (shifts-lt 8 _ kx) bxs e) in
    sym (xor_cancel a x) ∙ ap (λ t. bit_xor t x) eq ∙ xor_cancel b x

get_crc32_inj :
    (pre post : List ℕ) (x y : ℕ)
    → AllBytes pre
    → AllBytes post
    → x < 256
    → y < 256
    → get_crc32 (pre ++ x ∷ post) (length (pre ++ x ∷ post))
      ≡ get_crc32 (pre ++ y ∷ post) (length (pre ++ y ∷ post))
    → x ≡ y
get_crc32_inj pre post x y bpre bpost hx hy e =
    let s = crc_spec 0xffffffff pre in
    let hs : s < 2 ^ 32 = crc_spec-lt pre 0xffffffff (omega arith) bpre in
    let bx = AllBytes-append pre (x ∷ post) bpre (hx, bpost) in
    let by = AllBytes-append pre (y ∷ post) bpre (hy, bpost) in
    let whole : not32 (crc_spec 0xffffffff (pre ++ x ∷ post))
        ≡ not32 (crc_spec 0xffffffff (pre ++ y ∷ post)) =
      sym (get_crc32_all _ bx) ∙ e ∙ get_crc32_all _ by in
    let same : crc_spec 0xffffffff (pre ++ x ∷ post) ≡ crc_spec 0xffffffff (pre ++ y ∷ post) =
      omega (
        arith,
        whole,
        crc_spec-lt (pre ++ x ∷ post) 0xffffffff (omega arith) bx,
        crc_spec-lt (pre ++ y ∷ post) 0xffffffff (omega arith) by,
      ) in
    let rest : crc_spec s (x ∷ post) ≡ crc_spec s (y ∷ post) =
      sym (crc_spec-append pre (x ∷ post) 0xffffffff)
      ∙ same
      ∙ crc_spec-append pre (y ∷ post) 0xffffffff in
    let hx' = xor-lt 32 s x hs (omega arith) in
    let hy' = xor-lt 32 s y hs (omega arith) in
    let register : bit_xor s x ≡ bit_xor s y =
      unfold crc_spec in
      shifts_inj 8 _ _ hx' hy'
        (crc_spec_inj post _ _ (shifts-lt 8 _ hx') (shifts-lt 8 _ hy') bpost rest) in
    sym (xor_cancel x s)
    ∙ ap (λ t. bit_xor t s) (xor_comm x s ∙ register ∙ xor_comm s y)
    ∙ xor_cancel y s

-- `GetCRC32` detects every change of a single byte: two buffers of bytes that differ in one byte
-- have different CRCs.
pub get_crc32_detects :
    (pre post : List ℕ) (x y : ℕ)
    → AllBytes pre
    → AllBytes post
    → x < 256
    → y < 256
    → x ≢ y
    → get_crc32 (pre ++ x ∷ post) (length (pre ++ x ∷ post))
      ≢ get_crc32 (pre ++ y ∷ post) (length (pre ++ y ∷ post))
get_crc32_detects pre post x y bpre bpost hx hy differ e =
    differ (get_crc32_inj pre post x y bpre bpost hx hy e)
