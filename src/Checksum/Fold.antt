-- ===== src/Checksum/Fold.antt =====
-- `ip_xsum` and `checksum_ip` of checksum.c against the one's complement sum of the words.
use freepacket.Base.{
  ℕ, zero, suc, ◌+◌, ◌-◌, ◌*◌, ◌/◌, ◌%◌, ◌^◌, ◌≤◌, ◌<◌, ◌≡◌, ◌↔◌, sym, ap, ◌∙◌, List, [], ◌∷◌, some,
  arith, bit_and, set, get_or, take, length, length-set, u16, u32, and-mask, ne→==, eq→==, true,
  false, ◌==◌, take_all, set-set, ◌>>>◌,
}
use native.Mathlib.Nat.{zero-add}
use native.Mathlib.Decide.{dec_lt}
use mathlib.Core.Logic.{◌⊎◌, inl, inr}
use freepacket.Checksum.{accumulate, carry, carry_fuel, ip_xsum, ihl, check_word, checksum_ip}

-- Words of 16 bits.
abbrev pub AllWords : List ℕ → Type 0
AllWords [] = Unit
AllWords (word ∷ words) = (word < 2 ^ 16) × AllWords words

unfoldable pub total : List ℕ → ℕ
total [] = 0
total (word ∷ words) = word + total words

-- Below 2 ^ 32 the running sum does not wrap.
accumulate-total :
    (words : List ℕ) (xsum : ℕ)
    → xsum + total words < 2 ^ 32
    → accumulate xsum words ≡ xsum + total words
unfolding accumulate total
accumulate-total [] xsum h = omega arith
accumulate-total (word ∷ words) xsum h =
    let e : u32 (xsum + word) ≡ xsum + word = omega arith in
    rw e (omega (arith, accumulate-total words (xsum + word) (omega arith)))

-- What the carry loop returns: the same residue modulo 65535, in 16 bits, zero only for zero.
pub record IsFolded (sum result : ℕ) : Type 0 where
  pub narrow : result < 2 ^ 16
  pub residue : result % 65535 ≡ sum % 65535
  pub zero_iff : (result ≡ 0) ↔ (sum ≡ 0)

zero_or_pos : {s r : ℕ} → IsFolded s r → ((s ≡ 0) × (r ≡ 0)) ⊎ ((0 < s) × (0 < r))
zero_or_pos {s} {r} f = elim (dec_lt 0 s) [
  | yes p ↦ inr (
    p,
    elim (dec_lt 0 r) [ yes q ↦ q | no q ↦ absurd (omega (arith, f.zero_iff.0 (omega arith))) ],
  )
  | no p ↦ inl (omega arith, f.zero_iff.1 (omega arith))
]

-- A checksum that completes a sum.
complement : (s r t : ℕ) → IsFolded s r → IsFolded (s + (65535 - r)) t → t ≡ 65535
complement s r t f g =
    omega (arith, f.narrow, f.residue, g.narrow, g.residue, zero_or_pos f, zero_or_pos g)

carry_done : (fuel x : ℕ) → x < 2 ^ 16 → carry (suc fuel) x ≡ some x
unfolding carry
carry_done fuel x h = let e : (x >>> 16 == 0) ≡ true = eq→== _ _ (omega arith) in rw (e, carry)

carry_more :
    (fuel x : ℕ)
    → 2 ^ 16 ≤ x
    → x < 2 ^ 32
    → carry (suc fuel) x ≡ carry fuel (x % 2 ^ 16 + x / 2 ^ 16)
unfolding carry
carry_more fuel x h k =
    let e : u32 (bit_and x 0xffff + (x >>> 16)) ≡ x % 2 ^ 16 + x / 2 ^ 16 =
      omega (arith, and-mask 16 x) in
    let more : (x >>> 16 == 0) ≡ false = ne→== _ _ (omega arith) in
    rw (more, carry) (ap (carry fuel) e)

-- The loop ends within its three tests, from any 32-bit sum.
pub carry_enough : (x : ℕ) → x < 2 ^ 32 → (r : ℕ) × (carry carry_fuel x ≡ some r) × IsFolded x r
carry_enough x h = elim (dec_lt x (2 ^ 16)) [
  | yes small ↦ (x, carry_done 2 x small, omega arith)
  | no big ↦
      let y = x % 2 ^ 16 + x / 2 ^ 16 in
      let first = carry_more 2 x (omega arith) h in
      elim (dec_lt y (2 ^ 16)) [
        | yes small ↦ (y, first ∙ carry_done 1 y small, omega arith)
        | no still ↦
            let z = y % 2 ^ 16 + y / 2 ^ 16 in
            (
              z,
              first ∙ carry_more 1 y (omega arith) (omega arith) ∙ carry_done 0 z (omega arith),
              omega arith,
            )
      ]
]

-- When the sum of the words and the initial value is below 2 ^ 32, `ip_xsum` ends, and its result
-- is their one's complement sum: congruent to the sum modulo 65535, below 2 ^ 16, and zero exactly
-- when the sum is.
pub ip_xsum-IsFolded :
    (buff : List ℕ) (xsum : ℕ)
    → xsum + total buff < 2 ^ 32
    → (r : ℕ) × (ip_xsum buff xsum ≡ some r) × IsFolded (xsum + total buff) r
unfolding ip_xsum
ip_xsum-IsFolded buff xsum h =
    let (r, run, f) = carry_enough (xsum + total buff) h in
    let e : u16 r ≡ r = omega (arith, f.narrow) in
    (r, rw (accumulate-total buff xsum h, run) (ap (λ (t : ℕ). some t) e), f)

total-le : (words : List ℕ) → AllWords words → total words ≤ 65535 * length words
unfolding total
total-le [] h = omega arith
total-le (word ∷ words) (h, hs) = omega (arith, total-le words hs)

total-set :
    (words : List ℕ) (i v : ℕ)
    → i < length words
    → total (set words i v) + get_or words i 0 ≡ total words + v
unfolding total
total-set [] i v h = absurd (omega arith)
total-set (word ∷ words) zero v h = omega arith
total-set (word ∷ words) (suc i) v h = omega (arith, total-set words i v (omega arith))

AllWords-set : (words : List ℕ) (i v : ℕ) → AllWords words → v < 2 ^ 16 → AllWords (set words i v)
AllWords-set [] i v h k = tt
AllWords-set (word ∷ words) zero v (h, hs) k = (k, hs)
AllWords-set (word ∷ words) (suc i) v (h, hs) k = (h, AllWords-set words i v hs k)

-- On a header of 16-bit words that is as long as its `ihl` says, which is at least 3,
-- `checksum_ip` ends, changes the check field only, and leaves a header that `ip_xsum` sums to
-- 0xffff.
pub checksum_ip-verifies :
    (iph : List ℕ)
    → AllWords iph
    → 3 ≤ ihl iph
    → length iph ≡ ihl iph * 2
    → (check : ℕ) × (checksum_ip iph ≡ some (set iph check_word check))
      × (ip_xsum (set iph check_word check) 0 ≡ some 0xffff)
unfolding checksum_ip
checksum_ip-verifies iph words long whole =
    let cleared = set iph check_word 0 in
    let inside : check_word < length iph = omega arith in
    let len = length-set iph check_word 0 in
    let bound = total-le cleared (AllWords-set iph check_word 0 words (omega arith)) in
    let every : take (ihl iph * 2) cleared ≡ cleared =
      ap (λ n. take n cleared) (sym (len ∙ whole)) ∙ take_all cleared in
    let (sum, run, f) = carry_enough (total cleared) (omega (arith, bound, len, ihl-le iph)) in
    let check = 65535 - sum in
    let done = set iph check_word check in
    let (r, ends, g) = ip_xsum-IsFolded done 0 (
      omega (
        arith,
        total-set iph check_word check inside,
        total-set iph check_word 0 inside,
        bound,
        len,
        ihl-le iph,
      )) in
    let summed : 0 + total done ≡ total cleared + check =
      omega (arith, total-set iph check_word check inside, total-set iph check_word 0 inside) in
    let full : r ≡ 0xffff = complement (total cleared) sum r f (rw summed at g) in
    let stored : u16 (2 ^ 32 - 1 - sum) ≡ check = omega (arith, f.narrow) in
    (
      check,
      rw
          (
            every,
            accumulate-total cleared 0 (omega (arith, bound, len, ihl-le iph)),
            zero-add,
            run,
            stored,
          )
          (ap (λ ws. some ws) (set-set iph check_word 0 check)),
      ends ∙ ap (λ (t : ℕ). some t) full,
    )
  where
    ihl-le : (ws : List ℕ) → ihl ws ≤ 15
    ihl-le ws = omega arith
