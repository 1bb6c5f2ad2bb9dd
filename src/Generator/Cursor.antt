-- ===== src/Generator/Cursor.antt =====
-- The cursors over addresses and ports, and the choice of the next parser, over many packets.
use freepacket.Base.{
  ℕ, zero, suc, ◌+◌, ◌-◌, ◌*◌, ◌%◌, ◌^◌, ◌≤◌, ◌<◌, ◌≡◌, ap, ◌∙◌, arith, u32, ltb, if◌then◌else◌,
  int_lt-ltb, ne→==, eq→==, Bool-cases, inl, inr, ltb→lt, lt→ltb,
}
use native.Mathlib.Decide.{dec_lt}
use native.Mathlib.Nat.{mod-eq_of_lt, mod_self, mod-lt, mod-add-mod, add-mod_right}
use freepacket.Generator.{advance, next_thread}

-- `k` packets later.
pub advances : ℕ → ℕ → ℕ → ℕ → ℕ
advances lo hi cur zero = cur
advances lo hi cur (suc k) = advances lo hi (advance lo hi cur) k

module _ (lo hi : ℕ) (order : lo ≤ hi) (fits : hi < 2 ^ 32) where
  advance_mod :
      (cur : ℕ) → lo ≤ cur → cur ≤ hi → advance lo hi cur ≡ lo + (cur - lo + 1) % (hi - lo + 1)
  unfolding advance
  advance_mod cur above below = elim (dec_lt cur hi) [
    | yes more ↦
        let e : (cur - lo + 1) % (hi - lo + 1) ≡ cur - lo + 1 = mod-eq_of_lt (omega arith) in
        rw (ne→== cur hi (omega arith), e) (omega arith)
    | no last ↦
        let e : (cur - lo + 1) % (hi - lo + 1) ≡ 0 =
          ap (λ (t : ℕ). t % (hi - lo + 1)) (omega arith) ∙ mod_self (hi - lo + 1) in
        rw (eq→== cur hi (omega arith), e) (omega arith)
  ]

  -- A cursor that starts in its range `lo … hi`, with `hi` below 2 ^ 32, stands `k` places on
  -- after `k` packets, counted round the range: the values sent are all of the range, each once in
  -- every round, and none else.
  pub advances_mod :
      (k cur : ℕ) → lo ≤ cur → cur ≤ hi → advances lo hi cur k ≡ lo + (cur - lo + k) % (hi - lo + 1)
  unfolding advances
  advances_mod zero cur above below =
      omega (arith, mod-eq_of_lt {n = cur - lo + 0} {m = hi - lo + 1} (omega arith))
  advances_mod (suc k) cur above below =
      let next = advance lo hi cur in
      let e = advance_mod cur above below in
      let round : (cur - lo + 1) % (hi - lo + 1) < hi - lo + 1 =
        mod-lt (cur - lo + 1) (omega arith) in
      let moved : next - lo ≡ (cur - lo + 1) % (hi - lo + 1) = omega (arith, e) in
      let total : cur - lo + 1 + k ≡ cur - lo + suc k = omega arith in
      advances_mod k next (omega (arith, e)) (omega (arith, e, round))
      ∙ ap (λ (t : ℕ). lo + (t + k) % (hi - lo + 1)) moved
      ∙ ap (λ (t : ℕ). lo + t) (mod-add-mod (cur - lo + 1) (hi - lo + 1) k)
      ∙ ap (λ (t : ℕ). lo + t % (hi - lo + 1)) total

-- The parser of the `k`-th packet.
pub threads : ℕ → ℕ → ℕ → ℕ → ℕ → ℕ
threads g p index t zero = t
threads g p index t (suc k) = threads g p index (next_thread g p index t) k

module _ (g p index : ℕ) (mine : index < g) (enough : g ≤ p) (small : p < 2 ^ 30) where
  next_thread_lem :
      (t : ℕ) → t < p → next_thread g p index t ≡ (if ltb (t + g) p then t + g else index)
  unfolding next_thread
  next_thread_lem t h =
      let e : u32 (t + g) ≡ t + g = omega arith in
      rw (e, int_lt-ltb (t + g) p (omega arith) (omega arith))

  threads_from :
      (k t : ℕ)
      → t < p
      → t % g ≡ index
      → (threads g p index t k < p) × (threads g p index t k % g ≡ index)
  unfolding threads
  threads_from zero t h e = (h, e)
  threads_from (suc k) t h e = elim (Bool-cases (ltb (t + g) p)) [
    | inl more ↦
        let s : next_thread g p index t ≡ t + g = rw (next_thread_lem t h, more) in
        rw s (threads_from k (t + g) (ltb→lt _ _ more) (add-mod_right t g ∙ e))
    | inr last ↦
        let s : next_thread g p index t ≡ index = rw (next_thread_lem t h, last) in
        rw s (threads_from k index (omega arith) (mod-eq_of_lt mine))
  ]

  -- With no more generators than parsers, and fewer than 2 ^ 30 parsers, a generator sends each
  -- packet to an existing parser, and only to parsers whose number is its own index modulo the
  -- number of generators: no parser queue has two senders.
  pub threads_own :
      (k : ℕ) → (threads g p index index k < p) × (threads g p index index k % g ≡ index)
  threads_own k = threads_from k index (omega arith) (mod-eq_of_lt mine)

  threads_reach : (k t : ℕ) → t < p → t + k * g < p → threads g p index t k ≡ t + k * g
  unfolding threads
  threads_reach zero t h lt = omega arith
  threads_reach (suc k) t h lt =
      let e : t + g + k * g ≡ t + suc k * g = omega arith in
      let more : t + g < p = omega arith in
      let s : next_thread g p index t ≡ t + g = rw (next_thread_lem t h, lt→ltb _ _ more) in
      rw s (threads_reach k (t + g) more (omega arith) ∙ e)

  -- With no more generators than parsers, and fewer than 2 ^ 30 parsers, every parser of a
  -- generator's residue is served: number `index + k * g` by the `k`-th packet.
  pub threads_serve : (k : ℕ) → index + k * g < p → threads g p index index k ≡ index + k * g
  threads_serve k lt = threads_reach k index (omega arith) lt
