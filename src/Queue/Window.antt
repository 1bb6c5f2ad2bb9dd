-- ===== src/Queue/Window.antt =====
-- What a circular array holds between two counters that only grow.
use native.Mathlib.Nat.{div-add-mod, mod-lt, mul-le-mul_left}
use native.Mathlib.Decide.{dec_lt}
use freepacket.Base.{
  ℕ, zero, suc, ◌+◌, ◌/◌, ◌%◌, ◌≤◌, ◌<◌, ◌≡◌, ◌≢◌, refl, sym, ap, ap₂, ◌∙◌, List, [], ◌∷◌, ◌++◌,
  arith, get_or, set, length, get_or-set_self, get_or-set_ne,
}

-- Two numbers less than `m` apart differ modulo `m`.
pub mod-ne : (m a b : ℕ) → a < b → b < a + m → a % m ≢ b % m
mod-ne m a b p q e = elim (dec_lt (a / m) (b / m)) [
  | yes l ↦ omega (arith, mul-le-mul_left m l, div-add-mod a m, div-add-mod b m)
  | no l ↦
      let le : b / m ≤ a / m = omega arith in
      omega (arith, mul-le-mul_left m le, div-add-mod a m, div-add-mod b m)
]

module _ {ℓ} {A : Type ℓ} (null : A) (cap : ℕ) where
  -- The `n` cells from counter `h` on.
  abbrev pub window : List A → ℕ → ℕ → List A
  window node h zero = []
  window node h (suc n) = get_or node (h % cap) null ∷ window node (h + 1) n

  pub length-window : (node : List A) (h n : ℕ) → length (window node h n) ≡ n
  length-window node h zero = refl
  length-window node h (suc n) = ap suc (length-window node (h + 1) n)

  pub window_snoc :
      (node : List A) (h n : ℕ)
      → window node h (suc n) ≡ window node h n ++ get_or node ((h + n) % cap) null ∷ []
  window_snoc node h zero = let e : h ≡ h + 0 = omega arith in rw (← e)
  window_snoc node h (suc n) =
      let e : h + 1 + n ≡ h + suc n = omega arith in
      ap (λ xs. get_or node (h % cap) null ∷ xs) (window_snoc node (h + 1) n ∙ rw e)

  -- A write past the window, and less than a round after its start, does not touch it.
  pub window-set_out :
      (node : List A) (x : A) (j h n : ℕ)
      → h + n ≤ j
      → j < h + cap
      → window (set node (j % cap) x) h n ≡ window node h n
  window-set_out node x j h zero p q = refl
  window-set_out node x j h (suc n) p q =
      ap₂ ◌∷◌
        (get_or-set_ne node (j % cap) (h % cap) x null
          (λ e. mod-ne cap h j (omega arith) (omega arith) (sym e)))
        (window-set_out node x j (h + 1) n (omega arith) (omega arith))

  -- A write just past the window extends it.
  pub window-set :
      (node : List A) (x : A) (h n j : ℕ)
      → cap ≡ length node
      → n < cap
      → h + n ≡ j
      → window (set node (j % cap) x) h (suc n) ≡ window node h n ++ x ∷ []
  window-set node x h n j cells room e =
      window_snoc (set node (j % cap) x) h n
      ∙ ap₂ (λ xs y. xs ++ y ∷ []) (window-set_out node x j h n (omega arith) (omega arith)) written
    where
      written : get_or (set node (j % cap) x) ((h + n) % cap) null ≡ x
      written =
          rw e (
            get_or-set_self node (j % cap) x null (omega (arith, mod-lt j {m = cap} (omega arith))))
