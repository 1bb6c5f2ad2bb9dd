-- ===== src/Session/Young.antt =====
-- The sessions that `delete_session` keeps.
use freepacket.Base.{
  ℕ, ◌≤◌, ◌≡◌, List, [], ◌∷◌, false, arith, length as arr_length, All, Bool-cases, inl, inr, ltb,
  sub64, if◌then◌else◌,
}
use freepacket.Session.{Blist, matches}
use freepacket.Session.Distinct.{Distinct}

-- The sessions that are not older than `age` at the time `now`, in their order.
unfoldable pub young : ℕ → ℕ → List Blist → List Blist
young age now [] = []
young age now (node ∷ nodes) =
    let rest = young age now nodes in
    if ltb age (sub64 now node.item.last_time) then rest else node ∷ rest

pub young-le :
    (age now : ℕ) (nodes : List Blist) → arr_length (young age now nodes) ≤ arr_length nodes
unfolding young
young-le age now [] = omega arith
young-le age now (node ∷ nodes) = elim (Bool-cases (ltb age (sub64 now node.item.last_time))) [
  | inl e ↦ rw e (omega (arith, young-le age now nodes))
  | inr e ↦ rw e (omega (arith, young-le age now nodes))
]

pub young-All {ℓ} :
    (P : Blist → Type ℓ) (age now : ℕ) (nodes : List Blist)
    → All P nodes
    → All P (young age now nodes)
unfolding young
young-All P age now [] h = tt
young-All P age now (node ∷ nodes) (p, h) =
    elim (Bool-cases (ltb age (sub64 now node.item.last_time))) [
      | inl e ↦ rw e (young-All P age now nodes h)
      | inr e ↦ rw e (p, young-All P age now nodes h)
    ]

pub young-Distinct :
    (age now : ℕ) (nodes : List Blist) → Distinct nodes → Distinct (young age now nodes)
unfolding young
young-Distinct age now [] d = tt
young-Distinct age now (node ∷ nodes) (d, ds) =
    elim (Bool-cases (ltb age (sub64 now node.item.last_time))) [
      | inl e ↦ rw e (young-Distinct age now nodes ds)
      | inr e ↦ rw e (
        λ flow hit. young-All (λ n. matches n.item flow ≡ false) age now nodes (d flow hit),
        young-Distinct age now nodes ds,
      )
    ]
