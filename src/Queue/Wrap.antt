-- ===== src/Queue/Wrap.antt =====
-- The batch operations of queue_intel.h on a queue whose counters are beyond 32 bits.
use freepacket.Base.{
  ℕ, zero, suc, ◌+◌, ◌^◌, ◌≤◌, ◌<◌, ◌≡◌, refl, List, [], ◌∷◌, none, some, arith, u32, u64, sub64,
  le→ltb, le→leb,
}
use freepacket.Queue.{
  Queue, capacity, enqueue, enqueue_loop, enqueue_multiple, dequeue_loop, dequeue_multiple,
}
use freepacket.Queue.Single.{IsValid}

module _ {ℓ} {A : Type ℓ} where
  -- What the loop leaves in the counters.
  enqueue_loop-counts :
      (xs : List A) (q : Queue A) (count : ℕ)
      → count < 2 ^ 32
      → ((enqueue_loop q count xs).enqueue_count < 2 ^ 32)
        × ((enqueue_loop q count xs).dequeue_count ≡ q.dequeue_count)
  unfolding enqueue_loop
  enqueue_loop-counts [] q count h = (h, refl)
  enqueue_loop-counts (x ∷ xs) q count h =
      enqueue_loop-counts xs (record q { node = _; length = _ }) (u32 (count + 1)) (omega arith)

  -- Once 2 ^ 32 objects have been taken out, a batch that is stored puts the counter back below
  -- the other one: the queue is no longer valid.
  pub enqueue_multiple_breaks :
      (q q' : Queue A) (xs : List A)
      → 2 ^ 32 ≤ q.dequeue_count
      → enqueue_multiple q xs ≡ some q'
      → ¬ IsValid q'
  unfolding enqueue_multiple
  enqueue_multiple_breaks q q' xs old stored v =
      ground (arith, enqueue_loop-counts xs q (u32 q.enqueue_count) (omega arith))

module _ {ℓ} {A : Type ℓ} (null : A) where
  dequeue_loop-counts :
      (n : ℕ) (q : Queue A) (count : ℕ)
      → count < 2 ^ 32
      → ((dequeue_loop null q count n).1.dequeue_count ≡ u32 (count + n))
        × ((dequeue_loop null q count n).1.enqueue_count ≡ q.enqueue_count)
        × ((dequeue_loop null q count n).1.log2_entries ≡ q.log2_entries)
  unfolding dequeue_loop
  dequeue_loop-counts zero q count h = (omega arith, refl, refl)
  dequeue_loop-counts (suc n) q count h =
      let t = dequeue_loop-counts n (record q { length = _ }) (u32 (count + 1)) (omega arith) in
      (omega (arith, t.0), t.1, t.2)

  -- A valid queue with a count of objects taken out below 2 ^ 32, as `dequeue_multiple` stores it,
  -- from which a batch is taken that brings this count to 2 ^ 32 or more: the batch is handed out,
  -- but the next object is refused, however few objects are left.
  pub dequeue_multiple_jams :
      (q : Queue A) (n : ℕ)
      → IsValid q
      → q.dequeue_count < 2 ^ 32
      → 2 ^ 32 ≤ q.dequeue_count + n
      → n < 2 ^ 32
      → q.dequeue_count + n ≤ q.enqueue_count
      → (r : List A × Queue A) × (dequeue_multiple null q n ≡ some r)
        × ((x : A) → enqueue r.1 x ≡ none)
  unfolding dequeue_multiple enqueue
  dequeue_multiple_jams q n v old wraps small enough =
      let total : u64 (q.dequeue_count + n) ≡ q.dequeue_count + n = omega (arith, v.wide) in
      let r = dequeue_loop null q (u32 q.dequeue_count) n in
      let (deq, enq, log2) = dequeue_loop-counts n q (u32 q.dequeue_count) (omega arith) in
      (
        r,
        rw (total, le→ltb _ _ enough),
        λ x.
            let full : capacity r.1 ≤ sub64 r.1.enqueue_count r.1.dequeue_count =
              rw (log2, enq, deq) (omega (arith, v.narrow, v.wide, v.bounded)) in
            rw (le→leb _ _ full),
      )
