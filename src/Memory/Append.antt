-- ===== src/Memory/Append.antt =====
-- Writes at the end of what is used of a buffer.
use freepacket.Base.{
  ℕ, zero, suc, ◌+◌, ◌≤◌, ◌<◌, ◌≡◌, refl, sym, ap, ◌∙◌, List, [], ◌∷◌, ◌++◌, arith, length, take,
  set, append-nil, append_assoc, length-set,
}
use freepacket.Memory.{write}

take-set :
    (buf : List ℕ) (off byte : ℕ)
    → off < length buf
    → take (suc off) (set buf off byte) ≡ take off buf ++ byte ∷ []
take-set [] off byte h = absurd (omega arith)
take-set (x ∷ xs) zero byte h = refl
take-set (x ∷ xs) (suc off) byte h = ap (λ ys. x ∷ ys) (take-set xs off byte (omega arith))

-- The used part grows by the bytes written.
pub take-write :
    (bytes buf : List ℕ) (off : ℕ)
    → off + length bytes ≤ length buf
    → take (off + length bytes) (write buf off bytes) ≡ take off buf ++ bytes
unfolding write
take-write [] buf off h = ap (λ n. take n buf) (omega arith) ∙ sym (append-nil (take off buf))
take-write (byte ∷ bytes) buf off h =
    let e : off + suc (length bytes) ≡ off + 1 + length bytes = omega arith in
    ap (λ n. take n (write (set buf off byte) (off + 1) bytes)) e
    ∙ take-write bytes (set buf off byte) (off + 1) (omega (arith, length-set buf off byte))
    ∙ ap (λ n. take n (set buf off byte) ++ bytes)
        (let one : off + 1 ≡ suc off = omega arith in one)
    ∙ ap (λ ys. ys ++ bytes) (take-set buf off byte (omega arith))
    ∙ append_assoc (take off buf) (byte ∷ []) bytes
