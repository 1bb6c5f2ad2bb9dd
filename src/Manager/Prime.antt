-- ===== src/Manager/Prime.antt =====
-- `next_prime` of hash.c against the definition of a prime.
use native.Mathlib.Decide.{dec_lt}
use native.Mathlib.Nat.{mod-eq_of_lt}
use freepacket.Base.{
  ap, lt→leb, is_negative, ◌^◌, ℕ, zero, suc, ◌+◌, ◌-◌, ◌%◌, ◌≤◌, ◌<◌, ◌≡◌, ◌≢◌, inl, inr, refl,
  some, true, false, arith, Bool-cases, ◌==◌, ==_iff, eq→==, ne→==,
}
use freepacket.Manager.{no_divisor, prime_above, next_prime}

-- No number from 2 to `p - 1` divides `p`.
pub record IsPrime (p : ℕ) : Type 0 where
  pub above_one : 2 ≤ p
  pub undivided : (d : ℕ) → 2 ≤ d → d < p → p % d ≢ 0

no_divisor_sound : (i j n d : ℕ) → no_divisor i j n ≡ true → j ≤ d → d < j + n → i % d ≢ 0
unfolding no_divisor
no_divisor_sound i j zero d h le lt e = absurd (omega arith)
no_divisor_sound i j (suc n) d h le lt e = elim (dec_lt j d) [
  | yes later ↦ no_divisor_sound i (j + 1) n d (ground arith) (omega arith) (omega arith) e
  | no here ↦
      let same : d ≡ j = omega arith in
      let hit : (i % j == 0) ≡ true = eq→== _ _ (rw same at e) in ground arith
]

no_divisor_complete :
    (i j n : ℕ) → ((d : ℕ) → j ≤ d → d < j + n → i % d ≢ 0) → no_divisor i j n ≡ true
unfolding no_divisor
no_divisor_complete i j zero h = refl
no_divisor_complete i j (suc n) h =
    let e : (i % j == 0) ≡ false = ne→== _ _ (h j (omega arith) (omega arith)) in
    rw e (no_divisor_complete i (j + 1) n (λ d le lt. h d (omega arith) (omega arith)))

-- The test of the loop decides primality.
pub tested : (i : ℕ) → 2 ≤ i → no_divisor i 2 (i - 2) ≡ true → IsPrime i
tested i two h = record {
  above_one = two;
  undivided = λ d le lt. no_divisor_sound i 2 (i - 2) d h le (omega arith);
}

tested_prime : (i : ℕ) → IsPrime i → no_divisor i 2 (i - 2) ≡ true
tested_prime i p =
    no_divisor_complete i 2 (i - 2) (λ d le lt. p.undivided d le (omega (arith, p.above_one)))

-- The least prime above `x`.
pub record IsNextPrime (x r : ℕ) : Type 0 where
  pub prime : IsPrime r
  pub above : x < r
  pub least : (q : ℕ) → IsPrime q → x < q → r ≤ q

prime_above_lem :
    (fuel x p : ℕ)
    → 1 ≤ x
    → IsPrime p
    → x < p
    → p ≤ x + fuel
    → (r : ℕ) × (prime_above fuel x ≡ some r) × IsNextPrime x r
unfolding prime_above
prime_above_lem zero x p pos prime lt le = absurd (omega arith)
prime_above_lem (suc fuel) x p pos prime lt le =
    elim (Bool-cases (no_divisor (x + 1) 2 (x + 1 - 2))) [
      | inl hit ↦ (
        x + 1,
        rw (prime_above, hit),
        record {
          prime = tested (x + 1) (omega arith) hit;
          above = omega arith;
          least = λ q k h. omega arith;
        },
      )
      | inr miss ↦
          let other : (q : ℕ) → IsPrime q → x < q → x + 1 < q = λ q k h. elim (dec_lt (x + 1) q) [
            | yes later ↦ later
            | no here ↦
                let same : q ≡ x + 1 = omega arith in
                absurd (ground (arith, tested_prime (x + 1) (rw same at k)))
          ] in
          let (r, run, n) =
            prime_above_lem fuel (x + 1) p (omega arith) prime (other p prime lt) (omega arith) in
          (
            r,
            rw (prime_above, miss, run),
            record {
              prime = n.prime;
              above = omega (arith, n.above);
              least = λ q k h. n.least q k (other q k h);
            },
          )
    ]

-- When some prime below 2 ^ 31 lies above `x` within the fuel, `next_prime` returns, and what it
-- returns is the least prime above `x`.
pub next_prime-IsNextPrime :
    (fuel x p : ℕ)
    → IsPrime p
    → x < p
    → p ≤ x + fuel
    → p < 2 ^ 31
    → (r : ℕ) × (next_prime fuel x ≡ some r) × IsNextPrime x r
unfolding next_prime
next_prime-IsNextPrime fuel x p prime lt le small = elim (Bool-cases (x == 0)) [
  | inl e ↦
      let natural : is_negative x ≡ false = lt→leb (2 ^ 31) x (omega arith) in
      let zero_lem : x ≡ 0 = (==_iff x 0).0 e in
      let more : 1 < p = omega (arith, prime.above_one) in
      let (r, run, n) = prime_above_lem fuel 1 p (omega arith) prime more (omega arith) in
      let most : r ≤ p = n.least p prime more in
      (
        r,
        rw (natural, e, run) (ap some (mod-eq_of_lt (omega arith))),
        record {
          prime = n.prime;
          above = omega (arith, n.above);
          least = λ q k h. n.least q k (omega (arith, k.above_one));
        },
      )
  | inr e ↦
      let natural : is_negative x ≡ false = lt→leb (2 ^ 31) x (omega arith) in
      let pos : 1 ≤ x = ground arith in
      let (r, run, n) = prime_above_lem fuel x p pos prime lt le in
      let most : r ≤ p = n.least p prime lt in
      (r, rw (natural, e, run) (ap some (mod-eq_of_lt (omega arith))), n)
]
