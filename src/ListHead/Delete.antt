-- ===== src/ListHead/Delete.antt =====
-- Deletion from a ring: `list_del` and `list_move_tail`.
use freepacket.Base.{ℕ, ◌≡◌, ◌≢◌, sym, ◌∙◌, List, [], ◌∷◌, ◌++◌, All, All-split, arith}
use mathlib.Core.Path.{subst₂}
use freepacket.ListHead.{set_next, set_prev, Links, list_del_between, list_del, list_move_tail}
use freepacket.ListHead.Chain.{
  Linked, Chain, NotIn, Distinct, IsRing, last_or, first_or, ne-last, ne-first, Chain-first,
  Chain-last, Chain-frame, Chain-split,
}
use freepacket.ListHead.Insert.{list_add_tail-IsRing}

module _ (s : Links) where
  -- The links that `__list_del` writes, and those it keeps.
  between-Linked : (a b : ℕ) → Linked (list_del_between a b s) a b
  unfolding list_del_between
  between-Linked a b = (ground arith, ground arith)

  between-next : (a b x : ℕ) → x ≢ a → (list_del_between a b s).next x ≡ s.next x
  unfolding list_del_between
  between-next a b x h = ground arith

  between-prev : (a b x : ℕ) → x ≢ b → (list_del_between a b s).prev x ≡ s.prev x
  unfolding list_del_between
  between-prev a b x h = ground arith

  between-others :
      (a b : ℕ) (xs : List ℕ)
      → NotIn a xs
      → NotIn b xs
      → All
          (λ x.
            ((list_del_between a b s).next x ≡ s.next x)
            × ((list_del_between a b s).prev x ≡ s.prev x))
          xs
  between-others a b [] ha hb = tt
  between-others a b (x ∷ xs) (ax, ha) (bx, hb) = (
    (between-next a b x (λ e. ax (sym e)), between-prev a b x (λ e. bx (sym e))),
    between-others a b xs ha hb,
  )

  -- The chain from `a` that is left when what lies between `a` and the first of `after` goes.
  skip :
      (a e : ℕ) (after : List ℕ) (b : ℕ)
      → Chain s e after b
      → NotIn a after
      → NotIn b after
      → Distinct after
      → Chain (list_del_between a (first_or after b) s) a after b
  skip a e [] b c ha hb d = between-Linked a b
  skip a e (x ∷ xs) b (l, c) (ax, ha) (bx, hb) (hx, d) = (
    between-Linked a x,
    Chain-frame s _ x xs b (between-next a x x (λ e. ax (sym e))) (between-others a x xs ha hx)
        (between-prev a x b bx) c,
  )

  delete-Chain :
      (a : ℕ) (before : List ℕ) (e : ℕ) (after : List ℕ) (b : ℕ)
      → Chain s a (before ++ e ∷ after) b
      → NotIn a (before ++ e ∷ after)
      → NotIn b (before ++ e ∷ after)
      → Distinct (before ++ e ∷ after)
      → Chain (list_del_between (last_or a before) (first_or after b) s) a (before ++ after) b
  delete-Chain a [] e after b (l, c) (ae, ha) (be, hb) (he, d) = skip a e after b c ha hb d
  delete-Chain a (x ∷ xs) e after b ((n, p), c) (ax, ha) (bx, hb) (hx, d) =
      let (axs, ays) = All-split (λ y. a ≢ y) xs (e ∷ after) ha in
      let (xxs, xs') = All-split (λ y. x ≢ y) xs (e ∷ after) hx in
      (
        (
          between-next (last_or x xs) (first_or after b) a (ne-last a x xs ax axs) ∙ n,
          between-prev (last_or x xs) (first_or after b) x
                (ne-first x b after (λ e. bx (sym e)) xs'.1)
              ∙ p,
        ),
        delete-Chain x xs e after b c hx hb d,
      )

NotIn-delete :
    (a : ℕ) (before : List ℕ) (e : ℕ) (after : List ℕ)
    → NotIn a (before ++ e ∷ after)
    → NotIn a (before ++ after)
NotIn-delete a [] e after (n, h) = h
NotIn-delete a (x ∷ xs) e after (n, h) = (n, NotIn-delete a xs e after h)

Distinct-delete :
    (before : List ℕ) (e : ℕ) (after : List ℕ)
    → Distinct (before ++ e ∷ after)
    → Distinct (before ++ after)
Distinct-delete [] e after (h, d) = d
Distinct-delete (x ∷ xs) e after (h, d) =
    (NotIn-delete x xs e after h, Distinct-delete xs e after d)

-- In a list of different nodes, a member is none of the others.
pub Distinct-NotIn :
    (before : List ℕ) (e : ℕ) (after : List ℕ)
    → Distinct (before ++ e ∷ after)
    → NotIn e (before ++ after)
Distinct-NotIn [] e after (h, d) = h
Distinct-NotIn (x ∷ xs) e after (h, d) =
    let (hxs, hys) = All-split (λ y. x ≢ y) xs (e ∷ after) h in
    (λ p. hys.0 (sym p), Distinct-NotIn xs e after d)

-- `__list_del` between the neighbours of a node takes it out of the ring.
unlink-IsRing :
    (s : Links) (head : ℕ) (before : List ℕ) (e : ℕ) (after : List ℕ)
    → IsRing s head (before ++ e ∷ after)
    → IsRing (list_del_between (s.prev e) (s.next e) s) head (before ++ after)
unlink-IsRing s head before e after r =
    let (c₁, c₂) = Chain-split s head before e after head r.chain in
    record {
      chain =
          subst₂ (λ p n. Chain (list_del_between p n s) head (before ++ after) head)
            (sym (Chain-last s head before e c₁)) (sym (Chain-first s e after head c₂))
            (delete-Chain s head before e after head r.chain r.apart r.apart r.distinct);
      apart = NotIn-delete head before e after r.apart;
      distinct = Distinct-delete before e after r.distinct;
    }

-- The links of a node outside the ring can be cleared.
module _ (s : Links) (e : ℕ) where
  abbrev cleared : Links
  cleared = set_prev e 0 (set_next e 0 s)

  cleared-next : (x : ℕ) → e ≢ x → cleared.next x ≡ s.next x
  cleared-next x h = ground arith

  cleared-prev : (x : ℕ) → e ≢ x → cleared.prev x ≡ s.prev x
  cleared-prev x h = ground arith

  cleared-others :
      (xs : List ℕ)
      → NotIn e xs
      → All (λ x. (cleared.next x ≡ s.next x) × (cleared.prev x ≡ s.prev x)) xs
  cleared-others [] h = tt
  cleared-others (x ∷ xs) (n, h) = ((cleared-next x n, cleared-prev x n), cleared-others xs h)

  cleared-IsRing :
      (head : ℕ) (xs : List ℕ) → IsRing s head xs → e ≢ head → NotIn e xs → IsRing cleared head xs
  cleared-IsRing head xs r out h = record {
    chain =
        Chain-frame s cleared head xs head (cleared-next head out) (cleared-others xs h)
          (cleared-prev head out) r.chain;
    apart = r.apart;
    distinct = r.distinct;
  }

-- A node of the ring is not its head.
NotIn-mid :
    (a : ℕ) (before : List ℕ) (e : ℕ) (after : List ℕ) → NotIn a (before ++ e ∷ after) → a ≢ e
NotIn-mid a before e after h = (All-split (λ y. a ≢ y) before (e ∷ after) h).1.0

pub list_del-IsRing :
    (s : Links) (head : ℕ) (before : List ℕ) (e : ℕ) (after : List ℕ)
    → IsRing s head (before ++ e ∷ after)
    → IsRing (list_del e s) head (before ++ after)
unfolding list_del
list_del-IsRing s head before e after r =
    cleared-IsRing _ e head (before ++ after) (unlink-IsRing s head before e after r)
      (λ p. NotIn-mid head before e after r.apart (sym p))
      (Distinct-NotIn before e after r.distinct)

pub list_move_tail-IsRing :
    (s : Links) (head : ℕ) (before : List ℕ) (e : ℕ) (after : List ℕ)
    → IsRing s head (before ++ e ∷ after)
    → IsRing (list_move_tail e head s) head ((before ++ after) ++ e ∷ [])
unfolding list_move_tail
list_move_tail-IsRing s head before e after r =
    list_add_tail-IsRing _ e head (before ++ after) (unlink-IsRing s head before e after r)
      (λ p. NotIn-mid head before e after r.apart (sym p))
      (Distinct-NotIn before e after r.distinct)
