-- ===== src/ListHead/Walk.antt =====
-- The loops over a ring: `list_for_each` and `list_for_each_safe`.
use freepacket.Base.{
  ℕ, zero, suc, ◌+◌, ◌<◌, ◌≡◌, ◌≢◌, refl, sym, List, [], ◌∷◌, ◌++◌, append_assoc, Bool, true, false,
  some, All-split, length, length-append, Bool-cases, inl, inr, eq→==, ne→==, arith,
}
use mathlib.Core.Path.{subst}
use freepacket.ListHead.{
  Links, list_add, list_add_tail, list_del, list_move_tail, walk, list_for_each, walk_safe,
  delete_where,
}
use freepacket.ListHead.Chain.{Chain, NotIn, IsRing, first_or, Chain-first, Chain-split}
use freepacket.ListHead.Insert.{list_add-IsRing, list_add_tail-IsRing}
use freepacket.ListHead.Delete.{list_del-IsRing, list_move_tail-IsRing}

walk-Chain :
    (s : Links) (a : ℕ) (xs : List ℕ) (head fuel : ℕ)
    → Chain s a xs head
    → NotIn head xs
    → length xs < fuel
    → walk fuel head (first_or xs head) s ≡ some xs
unfolding walk
walk-Chain s a xs head zero c h lt = absurd (omega arith)
walk-Chain s a [] head (suc fuel) c h lt = rw (walk, eq→== head head refl)
walk-Chain s a (x ∷ xs) head (suc fuel) (l, c) (hx, h) lt = rw (
  walk,
  ne→== x head (λ e. hx (sym e)),
  Chain-first s x xs head c,
  walk-Chain s x xs head fuel c h (omega arith),
)

-- `list_for_each` runs its body for the nodes of the ring, in order, and ends.
pub list_for_each-IsRing :
    (s : Links) (head : ℕ) (xs : List ℕ) (fuel : ℕ)
    → IsRing s head xs
    → length xs < fuel
    → list_for_each fuel head s ≡ some xs
unfolding list_for_each
list_for_each-IsRing s head xs fuel r lt =
    rw (Chain-first s head xs head r.chain) (walk-Chain s head xs head fuel r.chain r.apart lt)

-- The list behind `head` has the nodes `xs`, with the links of both directions, and
-- `list_for_each` visits them in this order.
pub record IsRingOf (s : Links) (head : ℕ) (xs : List ℕ) (fuel : ℕ) : Type 0 where
  pub ring : IsRing s head xs
  pub visited : list_for_each fuel head s ≡ some xs

IsRing-IsRingOf :
    (s : Links) (head : ℕ) (xs : List ℕ) (fuel : ℕ)
    → length xs < fuel
    → IsRing s head xs
    → IsRingOf s head xs fuel
IsRing-IsRingOf s head xs fuel lt r = record {
  ring = r;
  visited = list_for_each-IsRing s head xs fuel r lt;
}

-- `s` is a ring, which may be empty, without `new`, and `t` one with a node `e`. After `list_add`
-- the nodes are `new` and then those of `s`, after `list_add_tail` those of `s` and then `new`, after
-- `list_del` those of `t` without `e`, and after `list_move_tail` the same with `e` at the end: the
-- links of both directions are those of such a ring, and `list_for_each` visits these nodes, with
-- fuel for one more than there are.
pub list_ops-refine :
    (s t : Links) (head new : ℕ) (xs before : List ℕ) (e : ℕ) (after : List ℕ) (fuel : ℕ)
    → IsRing s head xs
    → IsRing t head (before ++ e ∷ after)
    → new ≢ head
    → NotIn new xs
    → length xs + 1 < fuel
    → length before + length after + 1 < fuel
    → IsRingOf (list_add new head s) head (new ∷ xs) fuel
      × IsRingOf (list_add_tail new head s) head (xs ++ new ∷ []) fuel
      × IsRingOf (list_del e t) head (before ++ after) fuel
      × IsRingOf (list_move_tail e head t) head ((before ++ after) ++ e ∷ []) fuel
list_ops-refine s t head new xs before e after fuel r q out h lt lt' =
    let rest = length-append before after in
    (
      IsRing-IsRingOf _ head _ fuel (omega (arith, lt)) (list_add-IsRing s new head xs r out h),
      IsRing-IsRingOf _ head _ fuel (omega (arith, lt, length-append xs (new ∷ [])))
          (list_add_tail-IsRing s new head xs r out h),
      IsRing-IsRingOf _ head _ fuel (omega (arith, rest, lt'))
          (list_del-IsRing t head before e after q),
      IsRing-IsRingOf _ head _ fuel
          (omega (arith, rest, lt', length-append (before ++ after) (e ∷ [])))
          (list_move_tail-IsRing t head before e after q),
    )

-- The nodes that pass a test, and the others.
abbrev pub selected : (ℕ → Bool) → List ℕ → List ℕ
selected test [] = []
selected test (x ∷ xs) = elim (test x) [ true ↦ x ∷ selected test xs | false ↦ selected test xs ]

abbrev pub kept : (ℕ → Bool) → List ℕ → List ℕ
kept test [] = []
kept test (x ∷ xs) = elim (test x) [ true ↦ kept test xs | false ↦ x ∷ kept test xs ]

module _ (test : ℕ → Bool) (head : ℕ) where
  -- From a node on, with the nodes before it settled.
  walk_safe-IsRing :
      (s : Links) (done xs : List ℕ) (fuel : ℕ)
      → IsRing s head (done ++ xs)
      → length xs < fuel
      → (t : Links) × (walk_safe test fuel head (first_or xs head) (s.next (first_or xs head)) s
          ≡ some (selected test xs, t))
        × IsRing t head (done ++ kept test xs)
  unfolding walk_safe
  walk_safe-IsRing s done xs zero r lt = absurd (omega arith)
  walk_safe-IsRing s done [] (suc fuel) r lt = (s, rw (walk_safe, eq→== head head refl), r)
  walk_safe-IsRing s done (x ∷ xs) (suc fuel) r lt =
      let (c₁, c₂) = Chain-split s head done x xs head r.chain in
      let after = Chain-first s x xs head c₂ in
      let other =
        ne→== x head (λ e. (All-split (λ y. head ≢ y) done (x ∷ xs) r.apart).1.0 (sym e)) in
      elim (Bool-cases (test x)) [
        | inl hit ↦
            let (t, run, r') =
              walk_safe-IsRing (list_del x s) done xs fuel (list_del-IsRing s head done x xs r)
                (omega arith) in
            (t, rw (walk_safe, selected, other, hit, after, run), rw (kept, hit) r')
        | inr miss ↦
            let (t, run, r') =
              walk_safe-IsRing s (done ++ x ∷ []) xs fuel
                (subst (λ ys. IsRing s head ys) (sym (append_assoc done (x ∷ []) xs)) r)
                (omega arith) in
            (
              t,
              rw (walk_safe, selected, other, miss, after, run),
              rw (kept, miss)
                  (subst (λ ys. IsRing t head ys) (append_assoc done (x ∷ []) (kept test xs)) r'),
            )
      ]

  -- In a ring, with more fuel than nodes, the loop `list_for_each_safe` that takes out the nodes
  -- that pass a test ends: it takes out those nodes, in order, and leaves a ring of the others.
  pub delete_where-IsRing :
      (s : Links) (xs : List ℕ) (fuel : ℕ)
      → IsRing s head xs
      → length xs < fuel
      → (t : Links) × (delete_where test fuel head s ≡ some (selected test xs, t))
        × IsRing t head (kept test xs)
  unfolding delete_where
  delete_where-IsRing s xs fuel r lt =
      let (t, run, r') = walk_safe-IsRing s [] xs fuel r lt in
      (t, rw (Chain-first s head xs head r.chain) run, r')
