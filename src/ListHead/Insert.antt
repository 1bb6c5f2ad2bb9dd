-- ===== src/ListHead/Insert.antt =====
-- Insertion into a ring: `list_add`, `list_add_tail` and `INIT_LIST_HEAD`.
use freepacket.Base.{ℕ, ◌≡◌, ◌≢◌, sym, ◌∙◌, List, [], ◌∷◌, ◌++◌, All, All-append, arith}
use mathlib.Core.Path.{subst}
use freepacket.ListHead.{Links, init_list_head, list_add_between, list_add, list_add_tail}
use freepacket.ListHead.Chain.{
  Linked, Chain, NotIn, Distinct, IsRing, last_or, first_or, ne-last, Chain-first, Chain-last,
  Chain-frame,
}

pub init_list_head-IsRing : (list : ℕ) (s : Links) → IsRing (init_list_head list s) list []
unfolding init_list_head
init_list_head-IsRing list s = record {
  chain = (ground arith, ground arith);
  apart = tt;
  distinct = tt;
}

module _ (s : Links) (new : ℕ) where
  -- The two links that `__list_add` makes.
  between-Linked :
      (a b : ℕ)
      → new ≢ a
      → new ≢ b
      → Linked (list_add_between new a b s) a new × Linked (list_add_between new a b s) new b
  unfolding list_add_between
  between-Linked a b h k = ((ground arith, ground arith), (ground arith, ground arith))

  -- Every other link is kept.
  between-next : (a b x : ℕ) → x ≢ new → x ≢ a → (list_add_between new a b s).next x ≡ s.next x
  unfolding list_add_between
  between-next a b x h k = ground arith

  between-prev : (a b x : ℕ) → x ≢ new → x ≢ b → (list_add_between new a b s).prev x ≡ s.prev x
  unfolding list_add_between
  between-prev a b x h k = ground arith

  add_last :
      (a : ℕ) (xs : List ℕ) (b : ℕ)
      → Chain s a xs b
      → NotIn a xs
      → NotIn b xs
      → Distinct xs
      → new ≢ a
      → new ≢ b
      → NotIn new xs
      → Chain (list_add_between new (last_or a xs) b s) a (xs ++ new ∷ []) b
  add_last a [] b c ha hb d na nb h = between-Linked a b na nb
  add_last a (x ∷ xs) b ((n, p), c) (ax, ha) (bx, hb) (hx, d) na nb (nx, h) = (
    (
      between-next (last_or x xs) b a (λ e. na (sym e)) (ne-last a x xs ax ha) ∙ n,
      between-prev (last_or x xs) b x (λ e. nx (sym e)) (λ e. bx (sym e)) ∙ p,
    ),
    add_last x xs b c hx hb d nx nb h,
  )

  between-others :
      (a b : ℕ) (xs : List ℕ)
      → NotIn new xs
      → NotIn a xs
      → NotIn b xs
      → All
          (λ x.
            ((list_add_between new a b s).next x ≡ s.next x)
            × ((list_add_between new a b s).prev x ≡ s.prev x))
          xs
  between-others a b [] h ha hb = tt
  between-others a b (x ∷ xs) (nx, h) (ax, ha) (bx, hb) = (
    (
      between-next a b x (λ e. nx (sym e)) (λ e. ax (sym e)),
      between-prev a b x (λ e. nx (sym e)) (λ e. bx (sym e)),
    ),
    between-others a b xs h ha hb,
  )

  add_first :
      (a : ℕ) (xs : List ℕ) (b : ℕ)
      → Chain s a xs b
      → NotIn a xs
      → NotIn b xs
      → Distinct xs
      → new ≢ a
      → new ≢ b
      → NotIn new xs
      → Chain (list_add_between new a (first_or xs b) s) a (new ∷ xs) b
  add_first a [] b c ha hb d na nb h = between-Linked a b na nb
  add_first a (x ∷ xs) b (l, c) (ax, ha) (bx, hb) (hx, d) na nb (nx, h) =
      let (l₁, l₂) = between-Linked a x na nx in
      (
        l₁,
        (
          l₂,
          Chain-frame s _ x xs b (between-next a x x (λ e. nx (sym e)) (λ e. ax (sym e)))
              (between-others a x xs h ha hx) (between-prev a x b (λ e. nb (sym e)) bx) c,
        ),
      )

NotIn-snoc : (a x : ℕ) (xs : List ℕ) → NotIn a xs → a ≢ x → NotIn a (xs ++ x ∷ [])
NotIn-snoc a x xs h k = All-append (λ y. a ≢ y) xs (x ∷ []) h (k, tt)

pub Distinct-snoc : (x : ℕ) (xs : List ℕ) → NotIn x xs → Distinct xs → Distinct (xs ++ x ∷ [])
Distinct-snoc x [] h d = (tt, tt)
Distinct-snoc x (y ∷ ys) (n, h) (k, d) =
    (NotIn-snoc y x ys k (λ e. n (sym e)), Distinct-snoc x ys h d)

-- A node that is not in the ring can be added in front and at the end.
pub list_add-IsRing :
    (s : Links) (new head : ℕ) (xs : List ℕ)
    → IsRing s head xs
    → new ≢ head
    → NotIn new xs
    → IsRing (list_add new head s) head (new ∷ xs)
unfolding list_add
list_add-IsRing s new head xs r out h = record {
  chain =
      subst (λ n. Chain (list_add_between new head n s) head (new ∷ xs) head)
        (sym (Chain-first s head xs head r.chain))
        (add_first s new head xs head r.chain r.apart r.apart r.distinct out out h);
  apart = (λ e. out (sym e), r.apart);
  distinct = (h, r.distinct);
}

pub list_add_tail-IsRing :
    (s : Links) (new head : ℕ) (xs : List ℕ)
    → IsRing s head xs
    → new ≢ head
    → NotIn new xs
    → IsRing (list_add_tail new head s) head (xs ++ new ∷ [])
unfolding list_add_tail
list_add_tail-IsRing s new head xs r out h = record {
  chain =
      subst (λ p. Chain (list_add_between new p head s) head (xs ++ new ∷ []) head)
        (sym (Chain-last s head xs head r.chain))
        (add_last s new head xs head r.chain r.apart r.apart r.distinct out out h);
  apart = NotIn-snoc head new xs r.apart (λ e. out (sym e));
  distinct = Distinct-snoc new xs h r.distinct;
}
