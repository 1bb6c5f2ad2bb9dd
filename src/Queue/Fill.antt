-- ===== src/Queue/Fill.antt =====
-- The filling of a fresh pool, as the init functions of the generators, parsers and managers do it.
use freepacket.Base.{
  ℕ, ◌+◌, ◌-◌, ◌^◌, ◌≤◌, ◌<◌, ◌≡◌, refl, sym, ap, ◌∙◌, List, [], ◌∷◌, ◌++◌, none, some,
  append_assoc, append-nil, length as arr_length, arith,
}
use freepacket.Queue.{Queue, capacity, init, enqueue}
use freepacket.Queue.Single.{
  IsValid, contents, Holds, stored, enqueue_room, stored-Holds, init-Holds,
}
use freepacket.Queue.Window.{length-window}

module _ {ℓ} {A : Type ℓ} where
  -- `for (…) NAME##_enqueue(pool, …)`, which does not look at what is returned.
  unfoldable pub fill_pool : Queue A → List A → Queue A
  fill_pool pool [] = pool
  fill_pool pool (x ∷ xs) = elim (enqueue pool x) [
    | none ↦ fill_pool pool xs
    | some pool' ↦ fill_pool pool' xs
  ]

module _ {ℓ} {A : Type ℓ} (null : A) where
  pub length-contents :
      (q : Queue A) → arr_length (contents null q) ≡ q.enqueue_count - q.dequeue_count
  length-contents q =
      length-window null (capacity q) q.node q.dequeue_count (q.enqueue_count - q.dequeue_count)

  stored_out : (q : Queue A) (x : A) → (stored q x).dequeue_count ≡ q.dequeue_count
  unfolding stored
  stored_out q x = refl

  fill_pool-Holds :
      (pool : Queue A) (xs : List A)
      → IsValid pool
      → pool.enqueue_count - pool.dequeue_count + arr_length xs ≤ capacity pool
      → pool.enqueue_count + arr_length xs < 2 ^ 64
      → Holds null
          (capacity pool)
          (pool.enqueue_count + arr_length xs)
          (contents null pool ++ xs)
          (fill_pool pool xs)
  unfolding fill_pool
  fill_pool-Holds pool [] v room fits = record {
    valid = v;
    same_capacity = refl;
    taken = omega arith;
    holds = sym (append-nil (contents null pool));
  }
  fill_pool-Holds pool (x ∷ xs) v room fits =
      let run = enqueue_room null v x (omega arith) (omega arith) in
      let h = stored-Holds null v x (omega arith) (omega arith) in
      let r =
        fill_pool-Holds (stored pool x) xs h.valid
          (omega (arith, h.taken, h.same_capacity, stored_out pool x)) (omega (arith, h.taken)) in
      rw (fill_pool, run)
        (record {
          valid = r.valid;
          same_capacity = r.same_capacity ∙ h.same_capacity;
          taken = omega (arith, r.taken, h.taken);
          holds =
              r.holds ∙ ap (λ ys. ys ++ xs) h.holds ∙ append_assoc (contents null pool) (x ∷ []) xs;
        })

  -- A pool of 2 ^ k cells that is filled with at most so many objects holds them, in order.
  pub fill_pool-init :
      (k : ℕ) (memory xs : List A)
      → k ≤ 31
      → arr_length memory ≡ 2 ^ k
      → arr_length xs ≤ 2 ^ k
      → Holds null (2 ^ k) (arr_length xs) xs (fill_pool (init k null memory) xs)
  fill_pool-init k memory xs small cells fits =
      let h = init-Holds null k memory small cells in
      let narrow = h.valid.narrow in
      let r =
        fill_pool-Holds (init k null memory) xs h.valid
          (omega (arith, fits, h.taken, h.same_capacity))
          (omega (arith, fits, h.taken, h.same_capacity, narrow)) in
      record {
        valid = r.valid;
        same_capacity = r.same_capacity ∙ h.same_capacity;
        taken = omega (arith, r.taken, h.taken);
        holds = r.holds ∙ ap (λ ys. ys ++ xs) h.holds;
      }
