-- ===== src/Memory/Frame.antt =====
-- What a write changes, what it leaves alone, and what a load of a stored number gives.
use freepacket.Base.{
  ℕ, zero, suc, ◌+◌, ◌-◌, ◌*◌, ◌/◌, ◌%◌, ◌^◌, ◌≤◌, ◌<◌, ◌≡◌, ◌≢◌, ◌⊎◌, inl, inr, refl, sym, ap, ap₂,
  ◌∙◌, List, [], ◌∷◌, arith, get_or, set, length, length-set, get_or-set_self, get_or-set_ne,
}
use native.Mathlib.Nat.{add-zero}
use freepacket.Memory.{write, bytes16, bytes32, load8, load16, load32, htons, htonl}

pub length-write : (bytes buf : List ℕ) (off : ℕ) → length (write buf off bytes) ≡ length buf
unfolding write
length-write [] buf off = refl
length-write (byte ∷ bytes) buf off =
    length-write bytes (set buf off byte) (off + 1) ∙ length-set buf off byte

pub load8-write_out :
    (bytes buf : List ℕ) (off j : ℕ)
    → (j < off) ⊎ (off + length bytes ≤ j)
    → load8 (write buf off bytes) j ≡ load8 buf j
unfolding write
load8-write_out [] buf off j h = refl
load8-write_out (byte ∷ bytes) buf off j h =
    load8-write_out bytes (set buf off byte) (off + 1) j
      (elim h [ inl p ↦ inl (omega arith) | inr p ↦ inr (omega arith) ])
    ∙ get_or-set_ne buf off j byte 0 (omega arith)

pub load8-write_in :
    (bytes buf : List ℕ) (off k j : ℕ)
    → off + length bytes ≤ length buf
    → k < length bytes
    → off + k ≡ j
    → load8 (write buf off bytes) j ≡ load8 bytes k
unfolding write
load8-write_in [] buf off k j h lt e = absurd (omega arith)
load8-write_in (byte ∷ bytes) buf off zero j h lt e =
    let j' : off ≡ j = omega arith in
    load8-write_out bytes (set buf off byte) (off + 1) j (inl (omega arith))
    ∙ rw (← j') (get_or-set_self buf off byte 0 (omega arith))
load8-write_in (byte ∷ bytes) buf off (suc k) j h lt e =
    load8-write_in bytes (set buf off byte) (off + 1) k j (omega (arith, length-set buf off byte))
      (omega arith) (omega arith)

-- A byte of a field that lies apart from a range lies apart from it.
apart :
    (n k off len j : ℕ)
    → k < n
    → (j + n ≤ off) ⊎ (off + len ≤ j)
    → (j + k < off) ⊎ (off + len ≤ j + k)
apart n k off len j h (inl p) = inl (omega arith)
apart n k off len j h (inr p) = inr (omega arith)

module _ (bytes buf : List ℕ) (off j : ℕ) where
  out_at :
      (n k : ℕ)
      → k < n
      → (j + n ≤ off) ⊎ (off + length bytes ≤ j)
      → load8 (write buf off bytes) (j + k) ≡ load8 buf (j + k)
  out_at n k lt h = load8-write_out bytes buf off (j + k) (apart n k off (length bytes) j lt h)

  pub load16-write_out :
      (j + 2 ≤ off) ⊎ (off + length bytes ≤ j) → load16 (write buf off bytes) j ≡ load16 buf j
  load16-write_out h =
      ap₂ (λ a b. a + 256 * b) (rw add-zero at (out_at 2 0 (omega arith) h))
        (out_at 2 1 (omega arith) h)

  pub load32-write_out :
      (j + 4 ≤ off) ⊎ (off + length bytes ≤ j) → load32 (write buf off bytes) j ≡ load32 buf j
  load32-write_out h =
      let low =
        ap₂ (λ a b. a + 256 * b) (rw add-zero at (out_at 4 0 (omega arith) h))
          (out_at 4 1 (omega arith) h) in
      let e : j + 3 ≡ j + 2 + 1 = omega arith in
      let high =
        ap₂ (λ a b. a + 256 * b) (out_at 4 2 (omega arith) h)
          (rw e at (out_at 4 3 (omega arith) h)) in
      ap₂ (λ a b. a + 65536 * b) low high

module _ (buf : List ℕ) (off v : ℕ) where
  -- A number that was stored is what a load at the same place gives.
  pub load16-store : off + 2 ≤ length buf → load16 (write buf off (bytes16 v)) off ≡ v % 2 ^ 16
  load16-store h = omega (
    arith,
    load8-write_in (bytes16 v) buf off 0 off (omega arith) (omega arith) (omega arith),
    load8-write_in (bytes16 v) buf off 1 (off + 1) (omega arith) (omega arith) (omega arith),
  )

  pub load32-store : off + 4 ≤ length buf → load32 (write buf off (bytes32 v)) off ≡ v % 2 ^ 32
  load32-store h = omega (
    arith,
    load8-write_in (bytes32 v) buf off 0 off (omega arith) (omega arith) (omega arith),
    load8-write_in (bytes32 v) buf off 1 (off + 1) (omega arith) (omega arith) (omega arith),
    load8-write_in (bytes32 v) buf off 2 (off + 2) (omega arith) (omega arith) (omega arith),
    load8-write_in (bytes32 v) buf off 3 (off + 2 + 1) (omega arith) (omega arith) (omega arith),
  )

pub htons-lt : (v : ℕ) → htons v < 2 ^ 16
unfolding htons
htons-lt v = omega arith

pub htonl-lt : (v : ℕ) → htonl v < 2 ^ 32
unfolding htonl
htonl-lt v = omega arith

pub htons-htons : (v : ℕ) → htons (htons v) ≡ v % 2 ^ 16
unfolding htons
htons-htons v = omega arith

pub htonl-htonl : (v : ℕ) → htonl (htonl v) ≡ v % 2 ^ 32
unfolding htonl
htonl-htonl v = omega arith

pub load8-write_at :
    (bytes buf : List ℕ) (off j : ℕ)
    → off ≤ j
    → j < off + length bytes
    → off + length bytes ≤ length buf
    → load8 (write buf off bytes) j ≡ load8 bytes (j - off)
load8-write_at bytes buf off j lo hi room =
    load8-write_in bytes buf off (j - off) j room (omega arith) (omega arith)

pub load8-write_below :
    (bytes buf : List ℕ) (off j : ℕ) → j < off → load8 (write buf off bytes) j ≡ load8 buf j
load8-write_below bytes buf off j h = load8-write_out bytes buf off j (inl h)

pub load8-write_above :
    (bytes buf : List ℕ) (off j : ℕ)
    → off + length bytes ≤ j
    → load8 (write buf off bytes) j ≡ load8 buf j
load8-write_above bytes buf off j h = load8-write_out bytes buf off j (inr h)

-- For `omega`: each load from a written buffer, wherever the write lies.
pub ruleset frame = (arith, length-write, load8-write_below, load8-write_above, load8-write_at)
