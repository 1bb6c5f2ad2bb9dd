-- ===== src/ListHead/Chain.antt =====
-- What the links of list.h stand for: a ring of nodes behind a list head.
use freepacket.Base.{ℕ, ◌≡◌, ◌≢◌, ◌∙◌, List, [], ◌∷◌, ◌++◌, All}
use freepacket.ListHead.{Links}

abbrev pub Linked : Links → ℕ → ℕ → Type 0
Linked s a b = (s.next a ≡ b) × (s.prev b ≡ a)

-- From `a` through the nodes to `b`.
abbrev pub Chain : Links → ℕ → List ℕ → ℕ → Type 0
Chain s a [] b = Linked s a b
Chain s a (x ∷ xs) b = Linked s a x × Chain s x xs b

abbrev pub NotIn : ℕ → List ℕ → Type 0
NotIn a xs = All (λ x. a ≢ x) xs

abbrev pub Distinct : List ℕ → Type 0
Distinct [] = Unit
Distinct (x ∷ xs) = NotIn x xs × Distinct xs

-- The list behind `head` has the nodes `xs`, in this order.
pub record IsRing (s : Links) (head : ℕ) (xs : List ℕ) : Type 0 where
  pub chain : Chain s head xs head
  pub apart : NotIn head xs
  pub distinct : Distinct xs

-- The last node of `a ∷ xs`, and the first of `xs` and `b`.
abbrev pub last_or : ℕ → List ℕ → ℕ
last_or a [] = a
last_or a (x ∷ xs) = last_or x xs

abbrev pub first_or : List ℕ → ℕ → ℕ
first_or [] b = b
first_or (x ∷ xs) b = x

pub ne-last : (c a : ℕ) (xs : List ℕ) → c ≢ a → NotIn c xs → c ≢ last_or a xs
ne-last c a [] h k = h
ne-last c a (x ∷ xs) h (p, k) = ne-last c x xs p k

pub ne-first : (c b : ℕ) (xs : List ℕ) → c ≢ b → NotIn c xs → c ≢ first_or xs b
ne-first c b [] h k = h
ne-first c b (x ∷ xs) h (p, k) = p

-- The links at the two ends.
pub Chain-first :
    (s : Links) (a : ℕ) (xs : List ℕ) (b : ℕ) → Chain s a xs b → s.next a ≡ first_or xs b
Chain-first s a [] b (n, p) = n
Chain-first s a (x ∷ xs) b ((n, p), c) = n

pub Chain-last :
    (s : Links) (a : ℕ) (xs : List ℕ) (b : ℕ) → Chain s a xs b → s.prev b ≡ last_or a xs
Chain-last s a [] b (n, p) = p
Chain-last s a (x ∷ xs) b (l, c) = Chain-last s x xs b c

-- A chain whose links are not written stays.
pub Chain-frame :
    (s t : Links) (a : ℕ) (xs : List ℕ) (b : ℕ)
    → t.next a ≡ s.next a
    → All (λ x. (t.next x ≡ s.next x) × (t.prev x ≡ s.prev x)) xs
    → t.prev b ≡ s.prev b
    → Chain s a xs b
    → Chain t a xs b
Chain-frame s t a [] b na h pb (n, p) = (na ∙ n, pb ∙ p)
Chain-frame s t a (x ∷ xs) b na ((nx, px), h) pb ((n, p), c) =
    ((na ∙ n, px ∙ p), Chain-frame s t x xs b nx h pb c)

-- The chain is cut at a node, and joined at it.
pub Chain-split :
    (s : Links) (a : ℕ) (xs : List ℕ) (x : ℕ) (ys : List ℕ) (b : ℕ)
    → Chain s a (xs ++ x ∷ ys) b
    → Chain s a xs x × Chain s x ys b
Chain-split s a [] x ys b (l, c) = (l, c)
Chain-split s a (w ∷ xs) x ys b (l, c) = let (c₁, c₂) = Chain-split s w xs x ys b c in ((l, c₁), c₂)

pub Chain-join :
    (s : Links) (a : ℕ) (xs : List ℕ) (x : ℕ) (ys : List ℕ) (b : ℕ)
    → Chain s a xs x
    → Chain s x ys b
    → Chain s a (xs ++ x ∷ ys) b
Chain-join s a [] x ys b l c = (l, c)
Chain-join s a (w ∷ xs) x ys b (l, c₁) c = (l, Chain-join s w xs x ys b c₁ c)
