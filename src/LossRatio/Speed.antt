-- ===== src/LossRatio/Speed.antt =====
-- What the server makes of the client's request.
use freepacket.Base.{
  decimal, print_int, ℕ, zero, suc, ◌+◌, ◌-◌, ◌*◌, ◌/◌, ◌%◌, ◌^◌, ◌<◌, ◌≡◌, refl, sym, ap, ◌∙◌,
  List, [], ◌∷◌, ◌++◌, some, true, false, Bool-cases, inl, inr, ltb, ltb→lt, leb→le, ◌==◌,
  if◌then◌else◌, u32, is_negative, arith, append_assoc, replicate,
}
use native.Mathlib.Nat.{pow-suc}
use freepacket.Config.Chars.{is_digit, is_space, digits, sign, skip_spaces, atoi}
use freepacket.LossRatio.{speed_request, get_update_speed}

digit_of : (n : ℕ) → n < 10 → is_digit (48 + n) ≡ true
digit_of n h = ground arith

digits-cons :
    (value n : ℕ) (cs : List ℕ) → n < 10 → digits value ((48 + n) ∷ cs) ≡ digits (value * 10 + n) cs
unfolding digits
digits-cons value n cs h =
    rw (digits, digit_of n h) (ap (λ k. digits (value * 10 + k) cs) (omega arith))

-- The digits of a number are read back.
digits-decimal :
    (fuel n : ℕ) (rest : List ℕ) → n < 10 ^ fuel → digits 0 (decimal fuel n ++ rest) ≡ digits n rest
unfolding decimal
digits-decimal zero n rest h = ap (λ k. digits k rest) (omega arith)
digits-decimal (suc fuel) n rest h = elim (Bool-cases (ltb n 10)) [
  | inl one ↦
      rw one (digits-cons 0 n rest (ltb→lt n 10 one) ∙ ap (λ k. digits k rest) (omega arith))
  | inr more ↦ rw more (
      ap (λ text. digits 0 text) (append_assoc (decimal fuel (n / 10)) ((48 + n % 10) ∷ []) rest)
      ∙ digits-decimal fuel (n / 10) ((48 + n % 10) ∷ rest) (omega (arith, pow-suc 10 fuel))
      ∙ digits-cons (n / 10) (n % 10) rest (omega arith)
      ∙ ap (λ k. digits k rest) (omega arith))
]

-- A number starts with a digit.
decimal-digit :
    (fuel n : ℕ) → (d : ℕ) × (ds : List ℕ) × (decimal (suc fuel) n ≡ d ∷ ds) × (is_digit d ≡ true)
unfolding decimal
decimal-digit zero n = elim (Bool-cases (ltb n 10)) [
  | inl one ↦ (48 + n, [], rw (decimal, one), digit_of n (ltb→lt n 10 one))
  | inr more ↦ (48 + n % 10, [], rw (decimal, more), digit_of (n % 10) (omega arith))
]
decimal-digit (suc fuel) n = elim (Bool-cases (ltb n 10)) [
  | inl one ↦ (48 + n, [], rw (decimal, one), digit_of n (ltb→lt n 10 one))
  | inr more ↦
      let (d, ds, e, h) = decimal-digit fuel (n / 10) in
      (d, ds ++ (48 + n % 10) ∷ [], rw more (ap (λ text. text ++ (48 + n % 10) ∷ []) e), h)
]

-- A digit is neither white space nor a sign.
digit-plain :
    (d : ℕ) → is_digit d ≡ true → (is_space d ≡ false) × ((d == 45) ≡ false) × ((d == 43) ≡ false)
digit-plain d h = (ground arith, ground arith, ground arith)

-- `atoi` of a text that starts with a digit.
atoi-digits : (d : ℕ) (ds : List ℕ) → is_digit d ≡ true → atoi (d ∷ ds) ≡ u32 (digits 0 (d ∷ ds)).0
unfolding atoi skip_spaces sign
atoi-digits d ds h =
    let (space, minus, plus) = digit-plain d h in rw (atoi, skip_spaces, space, sign, minus, plus)

get_update_speed-decimal :
    (n : ℕ) (rest : List ℕ)
    → n < 2 ^ 32
    → digits n rest ≡ (n, rest)
    → get_update_speed (decimal 11 n ++ rest) ≡ some n
unfolding get_update_speed
get_update_speed-decimal n rest small stop =
    let (d, ds, e, h) = decimal-digit 10 n in
    let text : decimal 11 n ++ rest ≡ d ∷ (ds ++ rest) = ap (λ t. t ++ rest) e in
    rw (text, h)
      (ap (λ v. some v)
        (atoi-digits d (ds ++ rest) h
          ∙ ap (λ t. u32 (digits 0 t).0) (sym text)
          ∙ ap (λ (r : ℕ × List ℕ). u32 r.0) (digits-decimal 11 n rest (omega arith) ∙ stop)
          ∙ omega arith))

-- What is left of a buffer that was cleared ends a number.
digits-zeros : (n k : ℕ) → digits n (replicate k 0) ≡ (n, replicate k 0)
unfolding digits
digits-zeros n zero = refl
digits-zeros n (suc k) = refl

-- The request of a client, in a buffer of which the rest is cleared, is read by the server: the
-- speed when it is not negative, and without its sign when it is.
pub get_update_speed-request :
    (n k : ℕ)
    → n < 2 ^ 32
    → get_update_speed (speed_request n ++ replicate k 0)
      ≡ some (if is_negative n then 2 ^ 32 - n else n)
unfolding speed_request print_int get_update_speed
get_update_speed-request n k small = elim (Bool-cases (is_negative n)) [
  | inl minus ↦ rw minus (
      get_update_speed-decimal (2 ^ 32 - n) (replicate k 0) (omega (arith, leb→le (2 ^ 31) n minus))
        (digits-zeros _ k))
  | inr plus ↦ rw plus (get_update_speed-decimal n (replicate k 0) small (digits-zeros n k))
]
