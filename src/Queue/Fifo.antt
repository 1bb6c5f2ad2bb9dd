-- ===== src/Queue/Fifo.antt =====
-- What a queue promises: at most `cap` objects, first in, first out, all or nothing.
use freepacket.Base.{
  ℕ, ◌+◌, List, [], ◌∷◌, ◌++◌, Option, none, some, length, leb, ltb, take, drop, if◌then◌else◌,
}

module _ {ℓ} {A : Type ℓ} where
  unfoldable pub push : ℕ → List A → A → Option (List A)
  push cap xs x = if leb cap (length xs) then none else some (xs ++ x ∷ [])

  unfoldable pub push_all : ℕ → List A → List A → Option (List A)
  push_all cap xs ys = if ltb cap (length xs + length ys) then none else some (xs ++ ys)

  unfoldable pub pop : List A → Option (A × List A)
  pop [] = none
  pop (x ∷ xs) = some (x, xs)

  unfoldable pub pop_many : ℕ → List A → Option (List A × List A)
  pop_many n xs = if ltb (length xs) n then none else some (take n xs, drop n xs)
