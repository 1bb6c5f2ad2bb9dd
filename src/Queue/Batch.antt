-- ===== src/Queue/Batch.antt =====
-- The batch operations of queue_intel.h where they succeed.
use freepacket.Base.{
  ℕ, ◌+◌, ◌-◌, ◌^◌, ◌≤◌, ◌<◌, ◌≡◌, ap, List, none, true, eq→==, lt→ltb, ◌++◌, some, arith,
  length as arr_length, u32, u64, sub64, le→ltb, ltb, take, drop, false,
}
use freepacket.Queue.{
  Queue, capacity, dequeue, enqueue_loop, enqueue_multiple, dequeue_loop, dequeue_multiple,
}
use freepacket.Queue.Single.{IsValid, contents, Holds}
use freepacket.Queue.Multiple.{enqueue_loop-Holds, dequeue_loop-Holds}

module _ {ℓ} {A : Type ℓ} (null : A) {q : Queue A} (v : IsValid q) where
  pub enqueue_multiple_room :
      (xs : List A)
      → q.enqueue_count - q.dequeue_count + arr_length xs ≤ capacity q
      → q.enqueue_count + arr_length xs < 2 ^ 32
      → (q' : Queue A) × (enqueue_multiple q xs ≡ some q')
        × Holds null (capacity q) (q.enqueue_count + arr_length xs) (contents null q ++ xs) q'
  unfolding enqueue_multiple
  enqueue_multiple_room xs room fits =
      let total : sub64 (u64 (q.enqueue_count + arr_length xs)) q.dequeue_count
          ≡ q.enqueue_count - q.dequeue_count + arr_length xs =
        omega (arith, v.ordered) in
      let local : u32 q.enqueue_count ≡ q.enqueue_count = omega arith in
      (
        enqueue_loop q q.enqueue_count xs,
        rw (total, le→ltb _ _ room, local),
        enqueue_loop-Holds null xs v room fits,
      )

  pub dequeue_multiple_more :
      (n : ℕ)
      → n ≤ q.enqueue_count - q.dequeue_count
      → q.enqueue_count < 2 ^ 32
      → n < 2 ^ 32
      → (q' : Queue A) × (dequeue_multiple null q n ≡ some (take n (contents null q), q'))
        × Holds null (capacity q) q.enqueue_count (drop n (contents null q)) q'
  unfolding dequeue_multiple
  dequeue_multiple_more n enough fits small =
      let total : u64 (q.dequeue_count + n) ≡ q.dequeue_count + n = omega (arith, v.ordered) in
      let local : u32 q.dequeue_count ≡ q.dequeue_count = omega (arith, v.ordered) in
      let more : ltb q.enqueue_count (q.dequeue_count + n) ≡ false =
        le→ltb _ _ (omega (arith, v.ordered)) in
      let (out, t) = dequeue_loop-Holds null n v enough fits in
      (
        (dequeue_loop null q q.dequeue_count n).1,
        rw (total, more, local)
            (ap (λ xs. some (xs, (dequeue_loop null q q.dequeue_count n).1)) out),
        t,
      )

  -- Where they do not.
  pub dequeue_multiple_few :
      (n : ℕ)
      → q.enqueue_count - q.dequeue_count < n
      → q.enqueue_count < 2 ^ 32
      → n < 2 ^ 32
      → dequeue_multiple null q n ≡ none
  unfolding dequeue_multiple
  dequeue_multiple_few n few fits small =
      let total : u64 (q.dequeue_count + n) ≡ q.dequeue_count + n = omega (arith, v.ordered) in
      let less : ltb q.enqueue_count (q.dequeue_count + n) ≡ true =
        lt→ltb _ _ (omega (arith, v.ordered)) in
      rw (total, less)

  pub dequeue_empty : q.enqueue_count ≡ q.dequeue_count → dequeue null q ≡ none
  unfolding dequeue
  dequeue_empty e = rw (eq→== _ _ e)

-- `NAME##_dequeue` fails where the counters are the same, also on an array that is not there.
pub dequeue_same {ℓ} :
    {A : Type ℓ} (null : A) (q : Queue A)
    → q.enqueue_count ≡ q.dequeue_count
    → dequeue null q ≡ none
unfolding dequeue
dequeue_same null q e = rw (eq→== _ _ e)
