-- ===== src/Queue/Run.antt =====
-- A client's calls in order, on a queue of queue_intel.h and on its specification.
use freepacket.Base.{
  ℕ, ◌+◌, ◌^◌, ◌≤◌, ◌<◌, ◌≡◌, refl, ap, ap₂, ◌∙◌, List, [], ◌∷◌, Option, none, some, arith,
  length as arr_length,
}
use native.Mathlib.Nat.{add-zero}
use freepacket.Queue.{Queue, capacity, enqueue, enqueue_multiple, dequeue, dequeue_multiple}
use freepacket.Queue.Single.{IsValid, contents, Agrees, AgreesOut, enqueue-refines, dequeue-refines}
use freepacket.Queue.Multiple.{enqueue_multiple-refines, dequeue_multiple-refines}
use freepacket.Queue.Fifo

-- One call of a client.
pub data Op {ℓ} (A : Type ℓ) : Type ℓ where
  put : A → Op A
  put_all : List A → Op A
  get : Op A
  get_many : ℕ → Op A

-- What the client sees of one call: the return value -1, the value 0, or the objects handed out.
pub data Reply {ℓ} (A : Type ℓ) : Type ℓ where
  failed done : Reply A
  got : List A → Reply A

module _ {ℓ} {A : Type ℓ} where
  -- Objects that a call stores at most.
  abbrev pub cost : Op A → ℕ
  cost (put x) = 1
  cost (put_all xs) = arr_length xs
  cost get = 0
  cost (get_many n) = 0

  abbrev pub load : List (Op A) → ℕ
  load [] = 0
  load (op ∷ ops) = cost op + load ops

  -- The size of a batch that is asked for is an `unsigned int`.
  abbrev pub IsNarrow : Op A → Type 0
  IsNarrow (put x) = Unit
  IsNarrow (put_all xs) = Unit
  IsNarrow get = Unit
  IsNarrow (get_many n) = n < 2 ^ 32

  abbrev pub AllNarrow : List (Op A) → Type 0
  AllNarrow [] = Unit
  AllNarrow (op ∷ ops) = IsNarrow op × AllNarrow ops

-- The state after a call that may fail.
abbrev kept {ℓ} : {A S : Type ℓ} → S → Option S → Reply A × S
kept s none = (failed, s)
kept s (some s') = (done, s')

abbrev handed {ℓ} : {A B S : Type ℓ} → (B → List A) → S → Option (B × S) → Reply A × S
handed f s none = (failed, s)
handed f s (some (b, s')) = (got (f b), s')

module _ {ℓ} {A : Type ℓ} (null : A) where
  -- One call on the queue, and one on the specification.
  pub step : Queue A → Op A → Reply A × Queue A
  step q (put x) = kept q (enqueue q x)
  step q (put_all xs) = kept q (enqueue_multiple q xs)
  step q get = handed (λ x. x ∷ []) q (dequeue null q)
  step q (get_many n) = handed (λ xs. xs) q (dequeue_multiple null q n)

  pub run : Queue A → List (Op A) → List (Reply A)
  run q [] = []
  run q (op ∷ ops) = let (reply, q') = step q op in reply ∷ run q' ops

  pub spec_step : ℕ → List A → Op A → Reply A × List A
  spec_step cap xs (put x) = kept xs (Fifo.push cap xs x)
  spec_step cap xs (put_all ys) = kept xs (Fifo.push_all cap xs ys)
  spec_step cap xs get = handed (λ x. x ∷ []) xs (Fifo.pop xs)
  spec_step cap xs (get_many n) = handed (λ ys. ys) xs (Fifo.pop_many n xs)

  pub spec_run : ℕ → List A → List (Op A) → List (Reply A)
  spec_run cap xs [] = []
  spec_run cap xs (op ∷ ops) =
      let (reply, xs') = spec_step cap xs op in reply ∷ spec_run cap xs' ops

  -- The same reply, and the queue holds what the specification says, with `sent` an upper bound.
  record Matches (cap sent : ℕ) (r : Reply A × Queue A) (s : Reply A × List A) : Type ℓ where
    same : r.0 ≡ s.0
    valid : IsValid r.1
    same_capacity : capacity r.1 ≡ cap
    taken : r.1.enqueue_count ≤ sent
    holds : contents null r.1 ≡ s.1

  module _ {q : Queue A} (v : IsValid q) where
    kept-Matches :
        (sent : ℕ) (o : Option (Queue A)) (p : Option (List A))
        → q.enqueue_count ≤ sent
        → Agrees null (capacity q) sent o p
        → Matches (capacity q) sent (kept q o) (kept (contents null q) p)
    kept-Matches sent none none le h = record {
      same = refl;
      valid = v;
      same_capacity = refl;
      taken = le;
      holds = refl;
    }
    kept-Matches sent none (some xs) le h = elim h [ ]
    kept-Matches sent (some q') none le h = elim h [ ]
    kept-Matches sent (some q') (some xs) le h = record {
      same = refl;
      valid = h.valid;
      same_capacity = h.same_capacity;
      taken = omega (arith, h.taken);
      holds = h.holds;
    }

    handed-Matches :
        {B : Type ℓ} (f : B → List A) (o : Option (B × Queue A)) (p : Option (B × List A))
        → AgreesOut null (capacity q) q.enqueue_count o p
        → Matches (capacity q) q.enqueue_count (handed f q o) (handed f (contents null q) p)
    handed-Matches f none none h = record {
      same = refl;
      valid = v;
      same_capacity = refl;
      taken = omega arith;
      holds = refl;
    }
    handed-Matches f none (some r) h = elim h [ ]
    handed-Matches f (some r) none h = elim h [ ]
    handed-Matches f (some (b, q')) (some (c, xs)) (e, h) = record {
      same = ap (λ t. got (f t)) e;
      valid = h.valid;
      same_capacity = h.same_capacity;
      taken = omega (arith, h.taken);
      holds = h.holds;
    }

    step-Matches :
        (op : Op A)
        → q.enqueue_count + cost op < 2 ^ 32
        → IsNarrow op
        → Matches
            (capacity q)
            (q.enqueue_count + cost op)
            (step q op)
            (spec_step (capacity q) (contents null q) op)
    unfolding step spec_step
    step-Matches (put x) fits narrow =
        kept-Matches _ _ _ (omega arith) (enqueue-refines null v x (omega arith))
    step-Matches (put_all xs) fits narrow =
        kept-Matches _ _ _ (omega arith) (enqueue_multiple-refines null v xs fits)
    step-Matches get fits narrow = rw add-zero (handed-Matches _ _ _ (dequeue-refines null v))
    step-Matches (get_many n) fits narrow =
        rw add-zero (handed-Matches _ _ _ (dequeue_multiple-refines null v n (omega arith) narrow))

  -- A valid queue answers any sequence of calls as the FIFO of its contents does, as long as the
  -- objects ever stored stay below 2 ^ 32 and no batch that is asked for is larger than that.
  pub run-refines :
      (ops : List (Op A)) {q : Queue A}
      → IsValid q
      → q.enqueue_count + load ops < 2 ^ 32
      → AllNarrow ops
      → run q ops ≡ spec_run (capacity q) (contents null q) ops
  unfolding run spec_run
  run-refines [] v fits narrow = refl
  run-refines (op ∷ ops) {q} v fits narrow =
      let m = step-Matches v op (omega arith) narrow.0 in
      let rest = run-refines ops {q = (step q op).1} m.valid (omega (arith, m.taken)) narrow.1 in
      ap₂ ◌∷◌ m.same (rest ∙ ap₂ (λ c xs. spec_run c xs ops) m.same_capacity m.holds)
