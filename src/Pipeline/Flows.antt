-- ===== src/Pipeline/Flows.antt =====
-- The queues of the managers, as one store of flows.
use freepacket.Base.{
  ℕ, zero, suc, ◌<◌, ◌≡◌, refl, sym, ap, ◌∙◌, List, [], ◌∷◌, ◌++◌, append_assoc, length,
  length-append, get_or, set, arith,
}
use mathlib.Core.List.{Perm, perm_middle}
use mathlib.Core.Path.{subst}
use freepacket.Queue.{Queue}
use freepacket.Queue.Single.{contents}
use freepacket.Parser.{FlowItem}
use freepacket.Parser.Loop.{null_flow, null_queue}

-- The flows in all queues.
unfoldable pub in_queues : List (Queue FlowItem) → List FlowItem
in_queues [] = []
in_queues (q ∷ qs) = contents null_flow q ++ in_queues qs

-- Those in front of queue `k`, and those behind it.
unfoldable pub before : List (Queue FlowItem) → ℕ → List FlowItem
before [] k = []
before (q ∷ qs) zero = []
before (q ∷ qs) (suc k) = contents null_flow q ++ before qs k

unfoldable pub after : List (Queue FlowItem) → ℕ → List FlowItem
after [] k = []
after (q ∷ qs) zero = in_queues qs
after (q ∷ qs) (suc k) = after qs k

-- The store around queue `k`, whatever the queue is replaced by.
pub in_queues-set :
    (qs : List (Queue FlowItem)) (k : ℕ) (q : Queue FlowItem)
    → k < length qs
    → in_queues (set qs k q) ≡ before qs k ++ (contents null_flow q ++ after qs k)
unfolding in_queues before after
in_queues-set [] k q h = absurd (omega arith)
in_queues-set (p ∷ qs) zero q h = refl
in_queues-set (p ∷ qs) (suc k) q h =
    ap (λ xs. contents null_flow p ++ xs) (in_queues-set qs k q (omega arith))
    ∙ sym (append_assoc (contents null_flow p) (before qs k) (contents null_flow q ++ after qs k))

pub in_queues-get_or :
    (qs : List (Queue FlowItem)) (k : ℕ)
    → k < length qs
    → in_queues qs ≡ before qs k ++ (contents null_flow (get_or qs k null_queue) ++ after qs k)
unfolding in_queues before after
in_queues-get_or [] k h = absurd (omega arith)
in_queues-get_or (p ∷ qs) zero h = refl
in_queues-get_or (p ∷ qs) (suc k) h =
    ap (λ xs. contents null_flow p ++ xs) (in_queues-get_or qs k (omega arith))
    ∙ sym (
        append_assoc (contents null_flow p) (before qs k)
          (contents null_flow (get_or qs k null_queue) ++ after qs k))

-- A flow at the end of one queue is one more in the store, and so is one at its front.
end_perm :
    (xs ys zs : List FlowItem) (flow : FlowItem)
    → Perm (xs ++ ((ys ++ flow ∷ []) ++ zs)) (flow ∷ (xs ++ (ys ++ zs)))
end_perm xs ys zs flow =
    let there : (xs ++ ys) ++ flow ∷ zs ≡ xs ++ ((ys ++ flow ∷ []) ++ zs) = simp (append_assoc) in
    subst (λ us. Perm us (flow ∷ (xs ++ (ys ++ zs)))) there
      (subst (λ us. Perm ((xs ++ ys) ++ flow ∷ zs) (flow ∷ us)) (append_assoc xs ys zs)
        (perm_middle (xs ++ ys) zs))

pub store_more :
    (qs : List (Queue FlowItem)) (k : ℕ) (q : Queue FlowItem) (flow : FlowItem)
    → k < length qs
    → contents null_flow q ≡ contents null_flow (get_or qs k null_queue) ++ flow ∷ []
    → Perm (in_queues (set qs k q)) (flow ∷ in_queues qs)
      × (length (in_queues (set qs k q)) ≡ suc (length (in_queues qs)))
store_more qs k q flow h holds =
    let ys = contents null_flow (get_or qs k null_queue) in
    let new : in_queues (set qs k q) ≡ before qs k ++ ((ys ++ flow ∷ []) ++ after qs k) =
      in_queues-set qs k q h ∙ ap (λ xs. before qs k ++ (xs ++ after qs k)) holds in
    let old = in_queues-get_or qs k h in
    (
      subst (λ us. Perm us (flow ∷ in_queues qs)) (sym new)
          (subst (λ us. Perm (before qs k ++ ((ys ++ flow ∷ []) ++ after qs k)) (flow ∷ us))
            (sym old) (end_perm (before qs k) ys (after qs k) flow)),
      omega (
        arith,
        ap length new,
        ap length old,
        length-append (before qs k) ((ys ++ flow ∷ []) ++ after qs k),
        length-append (ys ++ flow ∷ []) (after qs k),
        length-append ys (flow ∷ []),
        length-append (before qs k) (ys ++ after qs k),
        length-append ys (after qs k),
      ),
    )

pub store_less :
    (qs : List (Queue FlowItem)) (k : ℕ) (q : Queue FlowItem) (flow : FlowItem)
    → k < length qs
    → contents null_flow (get_or qs k null_queue) ≡ flow ∷ contents null_flow q
    → Perm (in_queues qs) (flow ∷ in_queues (set qs k q))
      × (length (in_queues qs) ≡ suc (length (in_queues (set qs k q))))
store_less qs k q flow h holds =
    let ys = contents null_flow q in
    let new = in_queues-set qs k q h in
    let old : in_queues qs ≡ before qs k ++ ((flow ∷ ys) ++ after qs k) =
      in_queues-get_or qs k h ∙ ap (λ xs. before qs k ++ (xs ++ after qs k)) holds in
    (
      subst (λ us. Perm us (flow ∷ in_queues (set qs k q))) (sym old)
          (subst (λ us. Perm (before qs k ++ ((flow ∷ ys) ++ after qs k)) (flow ∷ us)) (sym new)
            (perm_middle (before qs k) (ys ++ after qs k))),
      omega (
        arith,
        ap length new,
        ap length old,
        length-append (before qs k) ((flow ∷ ys) ++ after qs k),
        length-append ys (after qs k),
        length-append (before qs k) (ys ++ after qs k),
      ),
    )
