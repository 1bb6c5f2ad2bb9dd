-- ===== src/Queue/Rotate.antt =====
-- An object taken from the front of a pool, and one put back at its end.
use freepacket.Base.{
  suc, ◌+◌, ◌-◌, ◌^◌, ◌<◌, ◌≡◌, refl, sym, ap, ◌∙◌, List, [], ◌∷◌, ◌++◌, some, length as arr_length,
  arith,
}
use freepacket.Queue.{Queue, capacity, enqueue, dequeue}
use freepacket.Queue.Single.{
  IsValid, contents, Holds, stored, dropped, enqueue_room, dequeue_more, stored-Holds,
  dropped-Holds,
}
use freepacket.Queue.Fill.{length-contents}

module _ {ℓ} {A : Type ℓ} where
  head_eq : (x y : A) (xs ys : List A) → x ∷ xs ≡ y ∷ ys → x ≡ y
  head_eq x y xs ys e = cc

  tail_eq : (x y : A) (xs ys : List A) → x ∷ xs ≡ y ∷ ys → xs ≡ ys
  tail_eq x y xs ys e = cc

  dropped_counts :
      (q : Queue A)
      → (capacity (dropped q) ≡ capacity q)
        × ((dropped q).enqueue_count ≡ q.enqueue_count)
        × ((dropped q).dequeue_count ≡ q.dequeue_count + 1)
  unfolding dropped
  dropped_counts q = (refl, refl, refl)

module _ {ℓ} {A : Type ℓ} (null : A) where
  -- A valid queue that is not empty hands out its first object.
  pub dequeue_front :
      (q : Queue A) (x : A) (xs : List A)
      → IsValid q
      → contents null q ≡ x ∷ xs
      → (dequeue null q ≡ some (x, dropped q))
        × IsValid (dropped q)
        × (contents null (dropped q) ≡ xs)
        × (q.enqueue_count - q.dequeue_count ≡ suc (arr_length xs))
  dequeue_front q x xs v full =
      let count : q.enqueue_count - q.dequeue_count ≡ suc (arr_length xs) =
        sym (length-contents null q) ∙ ap arr_length full in
      let less : q.dequeue_count < q.enqueue_count = omega (arith, count) in
      let (front, valid) = dropped-Holds null v less in
      let same = sym front ∙ full in
      (
        dequeue_more null v less
            ∙ ap (λ y. some (y, dropped q)) (head_eq _ x (contents null (dropped q)) xs same),
        valid,
        tail_eq _ x (contents null (dropped q)) xs same,
        count,
      )

  -- After that there is room for any object at the end.
  pub enqueue_back :
      (q : Queue A) (x y : A) (xs : List A)
      → IsValid q
      → contents null q ≡ x ∷ xs
      → q.enqueue_count + 1 < 2 ^ 64
      → (enqueue (dropped q) y ≡ some (stored (dropped q) y))
        × Holds null (capacity q) (q.enqueue_count + 1) (xs ++ y ∷ []) (stored (dropped q) y)
  enqueue_back q x y xs v full fits =
      let (run, valid, rest, count) = dequeue_front q x xs v full in
      let (cap, in_count, out_count) = dropped_counts q in
      let room : (dropped q).enqueue_count - (dropped q).dequeue_count < capacity (dropped q) =
        omega (arith, cap, in_count, out_count, v.bounded, count) in
      let wide : (dropped q).enqueue_count + 1 < 2 ^ 64 = omega (arith, in_count) in
      let h = stored-Holds null valid y room wide in
      (
        enqueue_room null valid y room wide,
        record {
          valid = h.valid;
          same_capacity = h.same_capacity ∙ cap;
          taken = h.taken ∙ ap (λ n. n + 1) in_count;
          holds = h.holds ∙ ap (λ ys. ys ++ y ∷ []) rest;
        },
      )
