-- ===== src/Queue/Multiple.antt =====
-- The batch operations, `NAME##_enqueue_multiple` and `NAME##_dequeue_multiple`, as long as the
-- counters stay within the 32 bits of the local counter.
use freepacket.Base.{
  ℕ, zero, suc, ◌+◌, ◌-◌, ◌^◌, ◌≤◌, ◌<◌, ◌≡◌, refl, sym, ap, ◌∙◌, List, [], ◌∷◌, ◌++◌, arith,
  length as arr_length, u32, u64, sub64, append-nil, append_assoc, Bool-cases, inl, inr, ltb,
  ltb→lt, ltb→le, lt→ltb, le→ltb, true, take, drop, get_or,
}
use freepacket.Queue.{
  Queue, capacity, slot, enqueue_loop, enqueue_multiple, dequeue_loop, dequeue_multiple,
}
use freepacket.Queue.Window.{length-window}
use freepacket.Queue.Single.{
  IsValid, contents, Holds, Agrees, AgreesOut, stored, dropped, stored-Holds, dropped-Holds,
}
use freepacket.Queue.Fifo

module _ {ℓ} {A : Type ℓ} where
  -- The loops overwrite the counter of the queue and do not read it.
  enqueue_loop-count :
      (xs : List A) (q : Queue A) (e count : ℕ)
      → enqueue_loop (record q { enqueue_count = e }) count xs ≡ enqueue_loop q count xs
  unfolding enqueue_loop slot
  enqueue_loop-count [] q e count = refl
  enqueue_loop-count (x ∷ xs) q e count = enqueue_loop-count xs _ e (u32 (count + 1))

  -- One round stores one object at the local counter.
  enqueue_loop-cons :
      (q : Queue A) (x : A) (xs : List A)
      → q.enqueue_count + 1 < 2 ^ 32
      → enqueue_loop q q.enqueue_count (x ∷ xs) ≡ enqueue_loop (stored q x) (q.enqueue_count + 1) xs
  enqueue_loop-cons q x xs fits =
      let one : u32 (q.enqueue_count + 1) ≡ q.enqueue_count + 1 = omega arith in
      unfold enqueue_loop stored in
      rw one (sym (enqueue_loop-count xs _ (q.enqueue_count + 1) (q.enqueue_count + 1)))

module _ {ℓ} {A : Type ℓ} (null : A) where
  pub enqueue_loop-Holds :
      (xs : List A) {q : Queue A}
      → IsValid q
      → q.enqueue_count - q.dequeue_count + arr_length xs ≤ capacity q
      → q.enqueue_count + arr_length xs < 2 ^ 32
      → Holds null
          (capacity q)
          (q.enqueue_count + arr_length xs)
          (contents null q ++ xs)
          (enqueue_loop q q.enqueue_count xs)
  unfolding stored
  enqueue_loop-Holds [] {q} v room fits =
      unfold enqueue_loop in
      record { valid = v; same_capacity = refl; taken = omega arith; holds = sym (append-nil _) }
  enqueue_loop-Holds (x ∷ xs) {q} v room fits =
      let h = stored-Holds null v x (omega arith) (omega arith) in
      let t =
        enqueue_loop-Holds xs {q = stored q x} h.valid (omega (arith, v.ordered)) (omega arith) in
      rw (enqueue_loop-cons q x xs (omega arith)) (record {
        valid = t.valid;
        same_capacity = t.same_capacity;
        taken = omega (arith, t.taken);
        holds = t.holds ∙ ap (λ ys. ys ++ xs) h.holds ∙ append_assoc (contents null q) (x ∷ []) xs;
      })

  dequeue_loop-count :
      (n : ℕ) (q : Queue A) (e count : ℕ)
      → dequeue_loop null (record q { dequeue_count = e }) count n ≡ dequeue_loop null q count n
  unfolding dequeue_loop slot
  dequeue_loop-count zero q e count = refl
  dequeue_loop-count (suc n) q e count =
      ap (λ r. (get_or q.node (slot q count) null ∷ r.0, r.1))
        (dequeue_loop-count n _ e (u32 (count + 1)))

  dequeue_loop-suc :
      (q : Queue A) (n : ℕ)
      → q.dequeue_count + 1 < 2 ^ 32
      → dequeue_loop null q q.dequeue_count (suc n) ≡ (
        get_or q.node (slot q q.dequeue_count) null
            ∷ (dequeue_loop null (dropped q) (q.dequeue_count + 1) n).0,
        (dequeue_loop null (dropped q) (q.dequeue_count + 1) n).1,
      )
  dequeue_loop-suc q n fits =
      let one : u32 (q.dequeue_count + 1) ≡ q.dequeue_count + 1 = omega arith in
      unfold dequeue_loop dropped in
      rw one (
        ap (λ r. (get_or q.node (slot q q.dequeue_count) null ∷ r.0, r.1))
          (sym (dequeue_loop-count n _ (q.dequeue_count + 1) (q.dequeue_count + 1))))

  pub dequeue_loop-Holds :
      (n : ℕ) {q : Queue A}
      → IsValid q
      → n ≤ q.enqueue_count - q.dequeue_count
      → q.enqueue_count < 2 ^ 32
      → let (out, q') = dequeue_loop null q q.dequeue_count n in
        (out ≡ take n (contents null q))
        × Holds null (capacity q) q.enqueue_count (drop n (contents null q)) q'
  unfolding dropped
  dequeue_loop-Holds zero {q} v enough fits =
      unfold dequeue_loop in
      (refl, record { valid = v; same_capacity = refl; taken = refl; holds = refl })
  dequeue_loop-Holds (suc n) {q} v enough fits =
      let (front, valid) = dropped-Holds null v (omega arith) in
      let (out, t) = dequeue_loop-Holds n {q = dropped q} valid (omega arith) fits in
      rw (dequeue_loop-suc q n (omega arith), front)
        (ap (λ ys. get_or q.node (slot q q.dequeue_count) null ∷ ys) out, t)

  module _ {q : Queue A} (v : IsValid q) where
    -- On a valid queue, while the counter stays below 2 ^ 32, `NAME##_enqueue_multiple` takes all
    -- the objects in order, or none if they do not all fit.
    pub enqueue_multiple-refines :
        (xs : List A)
        → q.enqueue_count + arr_length xs < 2 ^ 32
        → Agrees null
            (capacity q)
            (q.enqueue_count + arr_length xs)
            (enqueue_multiple q xs)
            (Fifo.push_all (capacity q) (contents null q) xs)
    unfolding enqueue_multiple Fifo.push_all
    enqueue_multiple-refines xs fits =
        let n =
          length-window null (capacity q) q.node q.dequeue_count
            (q.enqueue_count - q.dequeue_count) in
        let total : sub64 (u64 (q.enqueue_count + arr_length xs)) q.dequeue_count
            ≡ q.enqueue_count - q.dequeue_count + arr_length xs =
          omega (arith, v.ordered) in
        let local : u32 q.enqueue_count ≡ q.enqueue_count = omega arith in
        elim (Bool-cases (ltb (capacity q) (q.enqueue_count - q.dequeue_count + arr_length xs))) [
          | inl over ↦ rw (total, n, over) tt
          | inr room ↦ rw (total, n, room, local) (enqueue_loop-Holds xs v (ltb→le _ _ room) fits)
        ]

    -- On a valid queue, while the counter of stored objects and the number wanted are below 2 ^
    -- 32, `NAME##_dequeue_multiple` hands out the oldest `n` objects in order, or none if there
    -- are fewer.
    pub dequeue_multiple-refines :
        (n : ℕ)
        → q.enqueue_count < 2 ^ 32
        → n < 2 ^ 32
        → AgreesOut null
            (capacity q)
            q.enqueue_count
            (dequeue_multiple null q n)
            (Fifo.pop_many n (contents null q))
    unfolding dequeue_multiple Fifo.pop_many
    dequeue_multiple-refines n fits small =
        let len =
          length-window null (capacity q) q.node q.dequeue_count
            (q.enqueue_count - q.dequeue_count) in
        let total : u64 (q.dequeue_count + n) ≡ q.dequeue_count + n = omega (arith, v.ordered) in
        let local : u32 q.dequeue_count ≡ q.dequeue_count = omega (arith, v.ordered) in
        elim (Bool-cases (ltb q.enqueue_count (q.dequeue_count + n))) [
          | inl few ↦
              let few' : ltb (q.enqueue_count - q.dequeue_count) n ≡ true =
                lt→ltb _ _ (omega (arith, ltb→lt _ _ few, v.ordered)) in
              rw (total, len, few, few') tt
          | inr more ↦
              let enough : n ≤ q.enqueue_count - q.dequeue_count = omega (arith, ltb→le _ _ more) in
              rw (total, len, more, le→ltb _ _ enough, local) (dequeue_loop-Holds n v enough fits)
        ]
