-- ===== src/Base/Bits.antt =====
-- `&` with a low mask, and the laws of `^`, at every width, from the recursion on binary digits.
use Prim.Native.Nat.{ℕ, zero, suc, ◌+◌, ◌-◌, ◌*◌, ◌/◌, ◌%◌, ◌^◌, ◌≤◌, ◌<◌, min, differ}
use Prim.Native.Nat.{bit_and, bit_xor, digits, bitwise, bit_and-bitwise, bit_xor-bitwise}
use mathlib.Core.Path.{◌≡◌, refl, ap, ◌∙◌}
use mathlib.Core.Logic.{◌⊎◌, inl, inr}
use native.Mathlib.Nat.{
  le_refl, pow-suc, one-le-pow, div-add-mod, mod-lt, mod-eq_of_lt, mul-add-mod_self_left,
}
use native.Mathlib.Omega.{arith}

-- The fuel of `digits` does not matter once it covers the first operand.
module _ (z : ℕ → ℕ) (f : ℕ → ℕ → ℕ) where
  digits_enough : (n m a b : ℕ) → a ≤ n → a ≤ m → digits z f n a b ≡ digits z f m a b
  digits_enough zero zero a b p q = refl
  digits_enough zero (suc m) zero b p q = refl
  digits_enough zero (suc m) (suc a) b p q = absurd (omega arith)
  digits_enough (suc n) zero zero b p q = refl
  digits_enough (suc n) zero (suc a) b p q = absurd (omega arith)
  digits_enough (suc n) (suc m) zero b p q = refl
  digits_enough (suc n) (suc m) (suc a) b p q =
      rw (digits_enough n m (suc a / 2) (b / 2) (omega arith) (omega arith))

  bitwise_peel :
      (a b : ℕ)
      → bitwise z f (suc a) b ≡ bitwise z f (suc a / 2) (b / 2) * 2 + f (suc a % 2) (b % 2)
  bitwise_peel a b =
      omega (arith, digits_enough a (suc a / 2) (suc a / 2) (b / 2) (omega arith) (le_refl _))

and_peel : (a b : ℕ) → bit_and a b ≡ bit_and (a / 2) (b / 2) * 2 + min (a % 2) (b % 2)
and_peel zero b = simp bit_and-bitwise (omega arith)
and_peel (suc a) b = simp bit_and-bitwise (bitwise_peel (λ y. 0) min a b)

differ_bits : (x y : ℕ) → x < 2 → y < 2 → differ x y ≡ (x + y) % 2
differ_bits zero y p q = omega arith
differ_bits (suc zero) zero p q = refl
differ_bits (suc zero) (suc zero) p q = refl
differ_bits (suc zero) (suc (suc y)) p q = absurd (omega arith)
differ_bits (suc (suc x)) y p q = absurd (omega arith)

xor_peel : (a b : ℕ) → bit_xor a b ≡ bit_xor (a / 2) (b / 2) * 2 + (a % 2 + b % 2) % 2
xor_peel zero b = simp bit_xor-bitwise (omega arith)
xor_peel (suc a) b = simp bit_xor-bitwise (
    omega (
      arith,
      bitwise_peel (λ y. y) differ a b,
      differ_bits (suc a % 2) (b % 2) (omega arith) (omega arith),
    ))

-- The two halves of the digit equation.
pub xor-half : (a b : ℕ) → bit_xor a b / 2 ≡ bit_xor (a / 2) (b / 2)
xor-half a b = omega (arith, xor_peel a b)

pub xor-parity : (a b : ℕ) → bit_xor a b % 2 ≡ (a % 2 + b % 2) % 2
xor-parity a b = omega (arith, xor_peel a b)

-- Two numbers with equal halves and equal parities are equal.
by_digits : (a b : ℕ) → a / 2 ≡ b / 2 → a % 2 ≡ b % 2 → a ≡ b
by_digits a b p q = omega arith

pub zero-xor : (a : ℕ) → bit_xor 0 a ≡ a
zero-xor a = simp bit_xor-bitwise refl

xor_comm_fuel : (n a b : ℕ) → a ≤ n → b ≤ n → bit_xor a b ≡ bit_xor b a
xor_comm_fuel zero a b p q = let e : a ≡ b = omega arith in rw e
xor_comm_fuel (suc n) a b p q =
    omega (
      arith,
      xor_peel a b,
      xor_peel b a,
      xor_comm_fuel n (a / 2) (b / 2) (omega arith) (omega arith),
    )

pub xor_comm : (a b : ℕ) → bit_xor a b ≡ bit_xor b a
xor_comm a b = xor_comm_fuel (a + b) a b (omega arith) (omega arith)

pub xor-zero : (a : ℕ) → bit_xor a 0 ≡ a
xor-zero a = xor_comm a 0 ∙ zero-xor a

xor_self_fuel : (n a : ℕ) → a ≤ n → bit_xor a a ≡ 0
xor_self_fuel zero a p = let e : a ≡ 0 = omega arith in rw e
xor_self_fuel (suc n) a p = omega (arith, xor_peel a a, xor_self_fuel n (a / 2) (omega arith))

pub xor_self : (a : ℕ) → bit_xor a a ≡ 0
xor_self a = xor_self_fuel a a (le_refl _)

xor_assoc_fuel : (n a b c : ℕ) → a + b + c ≤ n → bit_xor (bit_xor a b) c ≡ bit_xor a (bit_xor b c)
xor_assoc_fuel zero a b c p =
    let e : a ≡ 0 = omega arith in let g : c ≡ 0 = omega arith in rw (e, g, zero-xor, zero-xor)
xor_assoc_fuel (suc n) a b c p = elim (zero_or_less a b c n p) [
  | inl (e, (f, g)) ↦ rw (e, f, g)
  | inr h ↦
      by_digits _ _
        (rw (xor-half, xor-half, xor-half, xor-half) (xor_assoc_fuel n (a / 2) (b / 2) (c / 2) h))
        (omega (
          arith,
          xor-parity (bit_xor a b) c,
          xor-parity a b,
          xor-parity a (bit_xor b c),
          xor-parity b c,
        ))
]
  where
    zero_or_less :
        (a b c n : ℕ)
        → a + b + c ≤ suc n
        → ((a ≡ 0) × ((b ≡ 0) × (c ≡ 0))) ⊎ (a / 2 + b / 2 + c / 2 ≤ n)
    zero_or_less a b c n p = grind arith

pub xor_assoc : (a b c : ℕ) → bit_xor (bit_xor a b) c ≡ bit_xor a (bit_xor b c)
xor_assoc a b c = xor_assoc_fuel (a + b + c) a b c (le_refl _)

-- `^` stays within `k` bits.
pub xor-lt : (k a b : ℕ) → a < 2 ^ k → b < 2 ^ k → bit_xor a b < 2 ^ k
xor-lt zero a b p q =
    let e : a ≡ 0 = omega arith in let f : b ≡ 0 = omega arith in rw (e, f) (omega arith)
xor-lt (suc k) a b p q = omega (
  arith,
  pow-suc 2 k,
  xor_peel a b,
  xor-lt k (a / 2) (b / 2) (omega (arith, pow-suc 2 k)) (omega (arith, pow-suc 2 k)),
)

-- Fields that do not overlap: `^` is `+`.
pub xor-fields : (k h l : ℕ) → l < 2 ^ k → bit_xor (h * 2 ^ k) l ≡ h * 2 ^ k + l
xor-fields zero h l p = let e : l ≡ 0 = omega arith in rw (e, xor-zero) (omega arith)
xor-fields (suc k) h l p =
    let half : h * 2 ^ suc k ≡ 2 * (h * 2 ^ k) =
      omega (arith, ap (λ (t : ℕ). h * t) (pow-suc 2 k)) in
    let bound : l / 2 < 2 ^ k = omega (arith, pow-suc 2 k) in
    rw half (
      by_digits _ _
        (rw (xor-half, double-half (h * 2 ^ k)) (omega (arith, xor-fields k h (l / 2) bound)))
        (omega (arith, xor-parity (2 * (h * 2 ^ k)) l)))
  where
    double-half : (a : ℕ) → 2 * a / 2 ≡ a
    double-half a = omega arith

-- A mask of the `k` low bits is the remainder by `2 ^ k`.
pub and-mask : (k a : ℕ) → bit_and a (2 ^ k - 1) ≡ a % 2 ^ k
and-mask zero a = and-zero a (le_refl _) ∙ omega arith
  where
    and-zero : {n : ℕ} (a : ℕ) → a ≤ n → bit_and a 0 ≡ 0
    and-zero {n = zero} a p = let e : a ≡ 0 = omega arith in rw e
    and-zero {n = suc n} a p = omega (arith, and_peel a 0, and-zero {n = n} (a / 2) (omega arith))
and-mask (suc k) a =
    let p = one-le-pow k 2 in
    let half : (2 ^ suc k - 1) / 2 ≡ 2 ^ k - 1 = omega (arith, pow-suc 2 k, p) in
    let odd : (2 ^ suc k - 1) % 2 ≡ 1 = omega (arith, pow-suc 2 k, p) in
    omega (
      arith,
      and_peel a (2 ^ suc k - 1),
      ap (λ (t : ℕ). bit_and (a / 2) t) half,
      and-mask k (a / 2),
      rem-suc k a,
    )
  where
    rem_double : (m a : ℕ) → 0 < m → a % (2 * m) ≡ 2 * (a / 2 % m) + a % 2
    rem_double m a pos =
        let q = a / 2 / m in
        let r = 2 * (a / 2 % m) + a % 2 in
        let split : a ≡ 2 * m * q + r = omega (arith, div-add-mod (a / 2) m) in
        let small : r < 2 * m = omega (arith, mod-lt (a / 2) pos) in
        ap (λ (t : ℕ). t % (2 * m)) split ∙ mul-add-mod_self_left (2 * m) q r ∙ mod-eq_of_lt small

    rem-suc : (k a : ℕ) → a % 2 ^ suc k ≡ 2 * (a / 2 % 2 ^ k) + a % 2
    rem-suc k a =
        let e : 2 ^ suc k ≡ 2 * 2 ^ k = omega (arith, pow-suc 2 k) in
        rw e (rem_double (2 ^ k) a (one-le-pow k 2 (omega arith)))

-- `^` with all ones is the complement.
pub xor-ones : (k x : ℕ) → x < 2 ^ k → bit_xor x (2 ^ k - 1) ≡ 2 ^ k - 1 - x
xor-ones zero x h = let e : x ≡ 0 = omega arith in rw e
xor-ones (suc k) x h =
    let p = one-le-pow k 2 in
    let half : (2 ^ suc k - 1) / 2 ≡ 2 ^ k - 1 = omega (arith, pow-suc 2 k, p) in
    omega (
      arith,
      pow-suc 2 k,
      p,
      xor_peel x (2 ^ suc k - 1),
      ap (λ (t : ℕ). bit_xor (x / 2) t) half,
      xor-ones k (x / 2) (omega (arith, pow-suc 2 k)),
    )
